-- ===== src/Memory.antt =====
-- Access widths and the memory behind a device: src/memregs.rs (`Width`, `MapperType`,
-- `MemoryMapper`). What lies behind a mapper (the bus, a kernel mapping, a mock) is a parameter.
use mmreg.Prelude.{
  ℕ, ◌+◌, ◌*◌, ◌%◌, ◌^◌, ◌≤◌, ◌<◌, Option, none, some, ◌==◌, if◌then◌else◌, Text, ◌≡◌, ◌⊎◌,
}

-- `enum Width`.
pub data Width : Type 0 where
  u8 u16 u32 u64 : Width

-- `Width::bytes`.
abbrev pub width_bytes : Width → ℕ
width_bytes u8 = 1
width_bytes u16 = 2
width_bytes u32 = 4
width_bytes u64 = 8

-- `Width::bits`.
abbrev pub width_bits : Width → ℕ
width_bits w = width_bytes w * 8

-- `Width::from_bits`.
unfoldable pub from_bits : ℕ → Option Width
from_bits bits =
    if bits == 8
    then some u8
    else if bits == 16
    then some u16
    else if bits == 32
    then some u32
    else if bits == 64
    then some u64
    else none

-- `enum MapperType`.
pub data MapperType : Type 0 where
  auto dev_mem : MapperType
  uio : Text → ℕ → MapperType

-- `read` and `write` of the trait `MemoryMapper`, on a state that the mapper keeps. Reading may
-- change the state, as hardware registers do.
pub record Mapper (Mem : Type 0) : Type 0 where
  pub read : ℕ → Width → Mem → ℕ × Mem
  pub write : ℕ → Width → ℕ → Mem → Mem

-- What the trait documents of values: reads are zero-extended from their width.
pub record IsZeroExtended {Mem : Type 0} (m : Mapper Mem) : Type 0 where
  pub read-lt : (offset : ℕ) (w : Width) (s : Mem) → (m.read offset w s).0 < 2 ^ width_bits w

-- Two accesses touch no common byte.
abbrev pub Apart : ℕ → Width → ℕ → Width → Type 0
Apart a v b w = (a + width_bytes v ≤ b) ⊎ (b + width_bytes w ≤ a)

-- A mapper over plain memory: reads change nothing and return what was last written there, cut to
-- the width; a write leaves the bytes of other accesses alone.
pub record IsPlain {Mem : Type 0} (m : Mapper Mem) : Type 0 where
  pub read_pure : (offset : ℕ) (w : Width) (s : Mem) → (m.read offset w s).1 ≡ s
  pub read-write_self :
      (offset : ℕ) (w : Width) (v : ℕ) (s : Mem)
      → (m.read offset w (m.write offset w v s)).0 ≡ v % 2 ^ width_bits w
  pub read-write_apart :
      (a b : ℕ) (v w : Width) (x : ℕ) (s : Mem)
      → Apart a v b w
      → (m.read b w (m.write a v x s)).0 ≡ (m.read b w s).0

-- What the system gives: the page size, a power of two, and the width of `usize`.
pub record Platform : Type 0 where
  pub page_bits : ℕ
  pub usize_bits : ℕ

-- `page_size`.
abbrev pub page_size : Platform → ℕ
page_size p = 2 ^ p.page_bits

-- A page holds at least one access of the largest width; `usize` has 32 or 64 bits.
pub record IsPlatform (p : Platform) : Type 0 where
  pub page_holds : 3 ≤ p.page_bits
  pub page_fits : p.page_bits ≤ 32
  pub usize_is : (p.usize_bits ≡ 32) ⊎ (p.usize_bits ≡ 64)
