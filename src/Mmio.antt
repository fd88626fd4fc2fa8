-- ===== src/Mmio.antt =====
-- The mapping of a device file: src/mmio.rs (`Mapping`), and the accesses of `OsMapper` of
-- src/memregs.rs. A place in the mapping is its distance from the pointer that `mmap` returns. What
-- lies behind the mapping, and the outcome of `mmap`, are parameters.
pub mod Reaches
use mmreg.Memory.{Width, width_bytes, width_bits, MapperType, Mapper, Platform}
use mmreg.Prelude.{
  ℕ, ◌+◌, ◌-◌, ◌%◌, ◌^◌, Bool, true, false, ◌&&◌, Option, none, some, ltb, leb, ◌==◌, if◌then◌else◌,
  Text, Result, ok, err,
}

-- `struct Mapping`, without its pointer.
pub record Mapping : Type 0 where
  pub len : ℕ
  pub data_offset : ℕ

-- The errors of making one: `ErrorKind::InvalidInput`, or the last error of the system.
pub data MappingError : Type 0 where
  invalid_input : MappingError
  last_os_error : Text → MappingError

-- The call of `mmap`: length, whether the mapping is only read, offset in the file.
abbrev pub Mmap : Type 0
Mmap = ℕ → Bool → ℕ → Option Text

-- `Mapping::new`, where `off_t` is signed and has 64 bits.
unfoldable pub new_mapping : Platform → Mmap → ℕ → ℕ → ℕ → Bool → Result MappingError Mapping
new_mapping p mmap file_offset data_offset size read_only =
    let len = data_offset + size in
    if size == 0
    then err invalid_input
    else if leb (2 ^ p.usize_bits) len
    then err invalid_input
    else if leb (2 ^ 63) file_offset
    then err invalid_input
    else (elim (mmap len read_only file_offset) [
      | some e ↦ err (last_os_error e)
      | none ↦ ok (record { len = len; data_offset = data_offset })
    ])

-- `saturating_add` of `usize`.
abbrev pub saturating_add : Platform → ℕ → ℕ → ℕ
saturating_add p a b = if leb (2 ^ p.usize_bits) (a + b) then 2 ^ p.usize_bits - 1 else a + b

-- `Mapping::register`; none where it panics.
unfoldable pub register : Platform → Mapping → ℕ → Width → Option ℕ
register p m offset width =
    let at = saturating_add p m.data_offset offset in
    let bytes = width_bytes width in
    if at % bytes == 0 && ltb (at + bytes) (2 ^ p.usize_bits) && leb (at + bytes) m.len
    then some at
    else none

module _ {Mem : Type 0} (p : Platform) (bus : Mapper Mem) where
  -- `Mapping::read`; none where it panics.
  unfoldable pub mapping_read : Mapping → ℕ → Width → Mem → Option (ℕ × Mem)
  mapping_read m offset width s = elim (register p m offset width) [
    | some at ↦ some (bus.read at width s)
    | none ↦ none
  ]

  -- `Mapping::write`; none where it panics.
  unfoldable pub mapping_write : Mapping → ℕ → Width → ℕ → Mem → Option Mem
  mapping_write m offset width value s = elim (register p m offset width) [
    | some at ↦ some (bus.write at width (value % 2 ^ width_bits width) s)
    | none ↦ none
  ]

-- `struct OsMapper`; of the file of a UIO device, whether it is open.
pub record OsMapper : Type 0 where
  pub kind : MapperType
  pub read_only : Bool
  pub mapping : Option Mapping
  pub has_uio_file : Bool

-- `OsMapper::new`.
abbrev pub new_os_mapper : MapperType → Bool → OsMapper
new_os_mapper kind ro = record { kind = kind; read_only = ro; mapping = none; has_uio_file = false }

-- `OsMapper::unmap`.
abbrev pub os_unmap : OsMapper → OsMapper
os_unmap o = record o { mapping = none; has_uio_file = false }

-- `OsMapper::is_mapped`.
abbrev pub os_is_mapped : OsMapper → Bool
os_is_mapped o = elim o.mapping [ some m ↦ true | none ↦ false ]

module _ {Mem : Type 0} (p : Platform) (bus : Mapper Mem) where
  -- `OsMapper::read`: 0 while nothing is mapped.
  unfoldable pub os_read : OsMapper → ℕ → Width → Mem → Option (ℕ × Mem)
  os_read o offset width s = elim o.mapping [
    | some m ↦ mapping_read p bus m offset width s
    | none ↦ some (0, s)
  ]

  -- `OsMapper::write`: nothing while nothing is mapped.
  unfoldable pub os_write : OsMapper → ℕ → Width → ℕ → Mem → Option Mem
  os_write o offset width value s = elim o.mapping [
    | some m ↦ mapping_write p bus m offset width value s
    | none ↦ some s
  ]
