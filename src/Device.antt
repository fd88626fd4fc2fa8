-- ===== src/Device.antt =====
-- A mapped register window: src/device.rs (`Device`: access checks, locks of an access, reads,
-- writes, read-modify-write, the sequence guard).
-- The backend and the lock files are parameters: the outcome of opening or locking a file may
-- depend on all that happened before. `Log` records what a call does, latest first.
pub mod Chain
pub mod Check
pub mod Guard
pub mod Calls
pub mod Merge
pub mod Sequence
pub mod RoundTrip
use mmreg.Bits.{complement}
use mmreg.Error.{
  MmregError, read_only, unaligned_width_access, out_of_bounds_access, lock_range_too_large,
}
use mmreg.Memory.{Width, u8, u16, u32, u64, width_bytes, width_bits, Mapper, Platform, page_size}
use mmreg.Prelude.{
  ℕ, zero, suc, ◌+◌, ◌-◌, ◌*◌, ◌/◌, ◌%◌, ◌^◌, Bool, true, false, not, ◌&&◌, ◌||◌, List, [], ◌∷◌,
  ◌++◌, Option, none, some, ltb, leb, ◌==◌, if◌then◌else◌, Text, Result, ok, err, bit_and, bit_or,
  refuse, ◌>>◌, map,
}

-- `struct Device`, without the backend: `has_uio_lock` is `uio_lock.is_some()`.
pub record Device : Type 0 where
  pub name : Text
  pub base_address : ℕ
  pub size : ℕ
  pub is_read_only : Bool
  pub device_path : Option Text
  pub warnings : List Text
  pub has_uio_lock : Bool

-- A lock: the UIO device's, or that of the lock file of the page at an address.
pub data LockKey : Type 0 where
  device_lock : LockKey
  page_lock : ℕ → LockKey

-- What a call does to the lock files and the backend.
pub data Event : Type 0 where
  opened : ℕ → Event
  acquired released : LockKey → Event
  bus_read : ℕ → Width → Event
  bus_write : ℕ → Width → ℕ → Event

abbrev pub Log : Type 0
Log = List Event

-- Opening a page lock file and locking a key, after a log: the error, if it fails.
pub record LockFiles : Type 0 where
  pub open_error : Log → ℕ → Option MmregError
  pub acquire_error : Log → LockKey → Option MmregError

-- The state behind `&self`: the backend's memory, whether `base_page_lock` is set, and the log.
pub record World (Mem : Type 0) : Type 0 where
  pub mem : Mem
  pub base_page_open : Bool
  pub log : Log

-- A fallible call on the state.
abbrev pub Call : Type 0 → Type 0 → Type 0
Call Mem A = World Mem → Result MmregError A × World Mem

infixl 5 ◌>>=◌
abbrev pub ◌>>=◌ : {Mem A B : Type 0} → Call Mem A → (A → Call Mem B) → Call Mem B
◌>>=◌ m f w = let (r, w') = m w in elim r [ ok a ↦ f a w' | err e ↦ (err e, w') ]

abbrev pub pure : {Mem A : Type 0} → A → Call Mem A
pure a w = (ok a, w)

-- `?` on a result that needs no state.
abbrev pub lift : {Mem A : Type 0} → Result MmregError A → Call Mem A
lift r w = (r, w)

-- `Device::check_access`: the physical address of an access that is allowed.
unfoldable pub check_access : Platform → Device → ℕ → Width → Bool → Result MmregError ℕ
check_access p d offset width write =
    let bytes = width_bytes width in
    let address = (d.base_address + offset) % 2 ^ 64 in
    if write && d.is_read_only
    then err (read_only d.name)
    else if not (offset % bytes == 0) || not (address % bytes == 0)
    then err (unaligned_width_access d.base_address offset (width_bits width))
    else if leb (2 ^ p.usize_bits) (offset + bytes) || ltb d.size (offset + bytes)
    then err (out_of_bounds_access d.name offset bytes d.size)
    else ok address

-- `address & !(page_size() - 1)`.
unfoldable pub page_of : Platform → ℕ → ℕ
page_of p address = bit_and address (complement 64 (page_size p - 1))

module _ {Mem : Type 0} (p : Platform) (files : LockFiles) where
  -- `DeviceLock::lock` of a key.
  unfoldable pub acquire : LockKey → Call Mem LockKey
  acquire key w = elim (files.acquire_error w.log key) [
    | some e ↦ (err e, w)
    | none ↦ (ok key, record w { log = acquired key ∷ w.log })
  ]

  -- `DeviceLock::open_page`: the lock file of the page of `address`.
  unfoldable pub open_page : ℕ → Call Mem LockKey
  open_page address w = elim (files.open_error w.log (page_of p address)) [
    | some e ↦ (err e, w)
    | none ↦
        (ok (page_lock (page_of p address)), record w { log = opened (page_of p address) ∷ w.log })
  ]

  -- The lock of the base page: `base_page_lock`, opened once.
  unfoldable pub base_page : Device → Call Mem LockKey
  base_page d w =
      if w.base_page_open
      then (ok (page_lock (page_of p d.base_address)), w)
      else (open_page d.base_address >>= λ key v. (ok key, record v { base_page_open = true })) w

  -- `Device::lock_at`.
  unfoldable pub lock_at : Device → ℕ → Call Mem LockKey
  lock_at d address =
      if d.has_uio_lock
      then acquire device_lock
      else if page_of p address == page_of p d.base_address
      then (base_page d >>= acquire)
      else (open_page (page_of p address) >>= acquire)

-- Dropping the guard of a key.
abbrev pub release : {Mem : Type 0} → LockKey → World Mem → World Mem
release key w = record w { log = released key ∷ w.log }

module _ {Mem : Type 0} (m : Mapper Mem) where
  -- `Backend::read` and `Backend::write`.
  abbrev pub backend_read : ℕ → Width → Call Mem ℕ
  backend_read offset width w =
      let (v, mem) = m.read offset width w.mem in
      (ok v, record w { mem = mem; log = bus_read offset width ∷ w.log })

  abbrev pub backend_write : ℕ → Width → ℕ → Call Mem (Unit {0})
  backend_write offset width value w = (
    ok tt,
    record w { mem = m.write offset width value w.mem; log = bus_write offset width value ∷ w.log },
  )

-- A body under the guard of a key, dropped at the end.
abbrev pub under : {Mem A : Type 0} → LockKey → Call Mem A → Call Mem A
under key body w = let (r, w') = body w in (r, release key w')

-- The word that `update_u32` writes.
unfoldable pub merge : ℕ → ℕ → ℕ → ℕ
merge current mask value = bit_or (bit_and current (complement 32 mask)) (bit_and value mask)

-- What `update_u32` does under its lock.
abbrev pub update_body : {Mem : Type 0} → Mapper Mem → ℕ → ℕ → ℕ → Call Mem ℕ
update_body m offset mask value = do
  word ← backend_read m offset u32
  let updated = merge (word % 2 ^ 32) mask value
  _ ← backend_write m offset u32 updated
  pure updated

module _ {Mem : Type 0} (p : Platform) (files : LockFiles) (m : Mapper Mem) (d : Device) where
  -- `Device::read`.
  unfoldable pub read : ℕ → Width → Call Mem ℕ
  unfolding lock_at base_page open_page acquire
  read offset width = do
    address ← lift (check_access p d offset width false)
    key ← lock_at p files d address
    under key (backend_read m offset width)

  -- `Device::write`.
  unfoldable pub write : ℕ → Width → ℕ → Call Mem (Unit {0})
  unfolding lock_at base_page open_page acquire
  write offset width value = do
    address ← lift (check_access p d offset width true)
    key ← lock_at p files d address
    under key (backend_write m offset width value)

  -- `Device::update_u32`.
  unfoldable pub update_u32 : ℕ → ℕ → ℕ → Call Mem ℕ
  unfolding lock_at base_page open_page acquire merge
  update_u32 offset mask value = do
    address ← lift (check_access p d offset u32 true)
    key ← lock_at p files d address
    under key (update_body m offset mask value)

  -- `Device::read_u8`, `read_u16`, `read_u32` and `read_u64`: the value cut to its type.
  unfoldable pub read_narrow : Width → ℕ → Call Mem ℕ
  unfolding read
  read_narrow width offset = do v ← read offset width; pure (v % 2 ^ width_bits width)
