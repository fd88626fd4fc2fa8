-- ===== src/Capi/Locking.antt =====
-- Sequence locks by the C interface: bindings/c/src/lib.rs, `mmreg_lock` and `mmreg_unlock`.
use mmreg.Capi.Calls.{push_guard, pop_guard, mmreg_lock, mmreg_unlock}
use mmreg.Capi.{CState, minus_one, zero, success}
use mmreg.Device.Sequence.{lock}
use mmreg.Device.Sequence.Order.{taken, latest_first, release_all_lem, lock-taken}
use mmreg.Device.{Device, LockFiles, LockKey, World, released}
use mmreg.Error.{MmregError}
use mmreg.Memory.{Mapper, Platform, IsPlatform}
use mmreg.Message.{ProfileMessage}
use mmreg.Prelude.{
  ℕ, ◌+◌, ◌^◌, ◌≤◌, ◌<◌, ==_iff, ap, map, List, ◌∷◌, ◌++◌, some, Text, Result, ok, err, ◌≡◌, ◌≢◌,
  refl, arith,
}

module _ {Mem : Type 0} (details_of : ProfileMessage → Text) (p : Platform) (files : LockFiles)
    (m : Mapper Mem) where
  -- What a sequence that a thread has locked leaves: the keys of the device's sequence were locked in
  -- their order, that thread's unlock releases each of them, the last one first, and restores the
  -- guards, and any other thread's is refused and releases nothing.
  abbrev pub IsHeld : ℕ → Device → CState Mem → CState Mem → Type 0
  IsHeld thread d s after =
      (keys : List LockKey) × (lock p files d s.world ≡ (ok keys, after.world))
      × (taken after.world.log ≡ latest_first keys (taken s.world.log))
      × (mmreg_unlock details_of p files m thread (some d) after ≡ (
        success,
        record after {
          world = record after.world { log = map released keys ++ after.world.log };
          guards = s.guards;
        },
      ))
      × ((other : ℕ)
          → other ≢ thread
          → ((mmreg_unlock details_of p files m other (some d) after).0.status ≡ minus_one)
            × ((mmreg_unlock details_of p files m other (some d) after).1.world ≡ after.world)
            × ((mmreg_unlock details_of p files m other (some d) after).1.guards ≡ after.guards))

  popped :
      (thread : ℕ) (d : Device) (s : CState Mem) (keys : List LockKey) (w : World Mem)
      → mmreg_unlock details_of p files m thread
          (some d)
          (record s { world = w; guards = record { thread = thread; keys = keys } ∷ s.guards })
        ≡ (success, record s { world = record w { log = map released keys ++ w.log } })
  unfolding mmreg_unlock pop_guard
  popped thread d s keys w =
      rw ((==_iff thread thread).1 refl)
        (ap (λ v. (success, record s { world = v })) (release_all_lem keys w))

  pushed :
      (thread : ℕ) (d : Device) (s : CState Mem) (keys : List LockKey) (w : World Mem)
      → IsPlatform p
      → d.base_address < 2 ^ 64
      → lock p files d s.world ≡ (ok keys, w)
      → IsHeld thread d s
          (record s { world = w; guards = record { thread = thread; keys = keys } ∷ s.guards })
  unfolding mmreg_unlock pop_guard
  pushed thread d s keys w valid small h = (
    keys,
    h,
    lock-taken p files d s.world valid small h,
    popped thread d s keys w,
    λ other ne. (ground arith, ground arith, ground arith),
  )

  -- On a platform with valid page and `usize` widths, for a window that is not empty and ends below
  -- 2^64: once `mmreg_lock` has returned 0, the same thread's `mmreg_unlock` returns 0, releases
  -- exactly the keys that were locked for that sequence, each once and the last locked first, and
  -- leaves the guards as they were before and the memory as it is; an `mmreg_unlock` of another
  -- thread returns -1 and releases nothing.
  pub mmreg_lock-IsHeld :
      (thread : ℕ) (d : Device) (s : CState Mem)
      → IsPlatform p
      → 1 ≤ d.size
      → d.base_address + d.size < 2 ^ 64
      → (mmreg_lock details_of p files m thread (some d) s).0.status ≡ zero
      → IsHeld thread d s (mmreg_lock details_of p files m thread (some d) s).1
  unfolding mmreg_lock
  mmreg_lock-IsHeld thread d s valid positive room h = go (lock p files d s.world) refl h
    where
      go :
          (r : Result MmregError (List LockKey) × World Mem)
          → lock p files d s.world ≡ r
          → (push_guard details_of p files m thread r s).0.status ≡ zero
          → IsHeld thread d s (push_guard details_of p files m thread r s).1
      go (ok keys, w) e k = pushed thread d s keys w valid (omega arith) e
      go (err x, w) e k = cc
