-- ===== src/Device/Sequence.antt =====
-- The sequence guard: `Device::lock` (src/device.rs) and `lock_all` (src/lock.rs).
-- A guard is the keys that it holds, in the order they were taken.
pub mod Balance
pub mod Cover
pub mod Holding
pub mod Success
pub mod Order
use mmreg.Error.{MmregError, lock_range_too_large}
use mmreg.Memory.{Platform, page_size}
use mmreg.Prelude.{
  ℕ, zero, suc, ◌+◌, ◌-◌, ◌*◌, ◌/◌, ◌%◌, ◌^◌, List, [], ◌∷◌, ◌++◌, ltb, ◌==◌, if◌then◌else◌, Result,
  ok, err,
}
use mmreg.Device.{
  Device, LockKey, released, LockFiles, World, Call, ◌>>=◌, pure, lift, page_of, acquire, open_page,
  lock_at, release,
}

-- `Device::MAX_SEQUENCE_PAGES`.
abbrev pub max_sequence_pages : ℕ
max_sequence_pages = 64

-- `HeldLocks::release_all`: the last taken first.
unfoldable pub release_all : {Mem : Type 0} → List LockKey → World Mem → World Mem
release_all [] w = w
release_all (k ∷ ks) w = release k (release_all ks w)

-- The first and the last page of the window, and how many there are, as `u64` that wraps around: a
-- build with overflow checks panics there instead.
abbrev pub first_page : Platform → Device → ℕ
first_page p d = page_of p d.base_address

abbrev pub last_page : Platform → Device → ℕ
last_page p d = page_of p ((d.base_address + d.size + 2 ^ 64 - 1) % 2 ^ 64)

abbrev pub page_count : Platform → Device → ℕ
page_count p d = (last_page p d + 2 ^ 64 - first_page p d) % 2 ^ 64 / page_size p + 1

module _ {Mem : Type 0} (p : Platform) (files : LockFiles) where
  -- `lock_all`, with the keys already held; on an error they are released.
  unfoldable pub lock_all : List LockKey → List LockKey → Call Mem (List LockKey)
  lock_all held [] w = (ok held, w)
  lock_all held (k ∷ ks) w =
      let (r, v) = acquire p files k w in
      elim r [ ok a ↦ lock_all (held ++ a ∷ []) ks v | err e ↦ (err e, release_all held v) ]

  -- `locks.push(DeviceLock::open_page(first + i * page)?)` for the pages left. `page_of` takes an
  -- address modulo 2^64.
  unfoldable pub open_pages : ℕ → ℕ → Call Mem (List LockKey)
  open_pages zero address = pure []
  open_pages (suc left) address = do
    key ← open_page p files address
    keys ← open_pages left (address + page_size p)
    pure (key ∷ keys)

  -- `Device::lock`.
  unfoldable pub lock : Device → Call Mem (List LockKey)
  lock d =
      if d.has_uio_lock
      then (lock_at p files d d.base_address >>= λ key. pure (key ∷ []))
      else if first_page p d == last_page p d
      then (lock_at p files d d.base_address >>= λ key. pure (key ∷ []))
      else if ltb max_sequence_pages (page_count p d)
      then lift (err (lock_range_too_large d.name (page_count p d) max_sequence_pages))
      else (open_pages (page_count p d) (first_page p d) >>= lock_all [])
