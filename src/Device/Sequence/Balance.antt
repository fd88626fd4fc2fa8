-- ===== src/Device/Sequence/Balance.antt =====
-- The locks that the sequence guard (src/device.rs, src/lock.rs) holds after it is taken, or has
-- failed to be.
use mathlib.Core.List.{append-nil, append_assoc}
use mathlib.Core.Path.{subst}
use mmreg.Error.{MmregError}
use mmreg.Memory.{Platform}
use mmreg.Prelude.{
  ℕ, ◌+◌, ◌-◌, Bool, true, false, List, [], ◌∷◌, ◌++◌, ◌≡◌, inl, inr, ok, err, Result, arith, refl,
  sym, ◌∙◌, if◌then◌else◌, Option-cases, ◌==◌,
}
use mmreg.Device.{
  LockKey, device_lock, page_lock, opened, acquired, released, bus_read, bus_write, Log, LockFiles,
  World, acquire,
}
use mmreg.Device.Sequence.{release_all, lock_all}

abbrev pub same_key : LockKey → LockKey → Bool
same_key device_lock device_lock = true
same_key (page_lock a) (page_lock b) = a == b
same_key _ _ = false

pub same_key_refl : (k : LockKey) → same_key k k ≡ true
same_key_refl device_lock = refl
same_key_refl (page_lock a) = ground arith

-- How often a key is held after a log.
abbrev pub held : LockKey → Log → ℕ
held j [] = 0
held j (acquired k ∷ l) = held j l + (if same_key k j then 1 else 0)
held j (released k ∷ l) = held j l - (if same_key k j then 1 else 0)
held j (opened a ∷ l) = held j l
held j (bus_read o w ∷ l) = held j l
held j (bus_write o w v ∷ l) = held j l

abbrev pub count : LockKey → List LockKey → ℕ
count j [] = 0
count j (k ∷ ks) = count j ks + (if same_key k j then 1 else 0)

count-append : (j : LockKey) (ks ls : List LockKey) → count j (ks ++ ls) ≡ count j ks + count j ls
count-append j [] ls = omega arith
count-append j (k ∷ ks) ls = omega (arith, count-append j ks ls)

release_all-held :
    {Mem : Type 0} (j : LockKey) (ks : List LockKey) (w : World Mem)
    → held j (release_all ks w).log ≡ held j w.log - count j ks
unfolding release_all
release_all-held j [] w = omega arith
release_all-held j (k ∷ ks) w = omega (arith, release_all-held j ks w)

-- All of the keys are taken, or none is.
abbrev pub AllOrNone :
    {Mem : Type 0}
    → LockKey
    → List LockKey
    → World Mem
    → Result MmregError (List LockKey) × World Mem
    → Type 0
AllOrNone j ks w (ok taken, v) = (taken ≡ ks) × (held j v.log ≡ held j w.log + count j ks)
AllOrNone j ks w (err e, v) = held j v.log ≡ held j w.log

module _ {Mem : Type 0} (p : Platform) (files : LockFiles) where
  abbrev Continues :
      LockKey
      → List LockKey
      → List LockKey
      → World Mem
      → Result MmregError (List LockKey) × World Mem
      → Type 0
  Continues j hs ks w (ok taken, v) =
      (taken ≡ hs ++ ks) × (held j v.log ≡ held j w.log + count j ks)
  Continues j hs ks w (err e, v) = held j v.log ≡ held j w.log - count j hs

  pub step_ok :
      (hs ks : List LockKey) (k : LockKey) (w v : World Mem)
      → acquire p files k w ≡ (ok k, v)
      → lock_all p files hs (k ∷ ks) w ≡ lock_all p files (hs ++ k ∷ []) ks v
  unfolding lock_all
  step_ok hs ks k w v h = λ i. elim (h i).0 [
    | ok a ↦ lock_all p files (hs ++ a ∷ []) ks (h i).1
    | err e ↦ (err e, release_all hs (h i).1)
  ]

  pub step_err :
      (hs ks : List LockKey) (k : LockKey) (e : MmregError) (w v : World Mem)
      → acquire p files k w ≡ (err e, v)
      → lock_all p files hs (k ∷ ks) w ≡ (err e, release_all hs v)
  unfolding lock_all
  step_err hs ks k e w v h = λ i. elim (h i).0 [
    | ok a ↦ lock_all p files (hs ++ a ∷ []) ks (h i).1
    | err e ↦ (err e, release_all hs (h i).1)
  ]

  -- One key more was taken in front.
  Continues-cons :
      (j k : LockKey) (hs ks : List LockKey) (w : World Mem)
      (r : Result MmregError (List LockKey) × World Mem)
      → Continues j (hs ++ k ∷ []) ks (record w { log = acquired k ∷ w.log }) r
      → Continues j hs (k ∷ ks) w r
  Continues-cons j k hs ks w (ok taken, v) (same, total) =
      (same ∙ append_assoc hs (k ∷ []) ks, omega arith)
  Continues-cons j k hs ks w (err e, v) total = omega (arith, count-append j hs (k ∷ []))

  lock_all-Continues :
      (j : LockKey) (hs ks : List LockKey) (w : World Mem)
      → Continues j hs ks w (lock_all p files hs ks w)
  unfolding lock_all acquire
  lock_all-Continues j hs [] w = (sym (append-nil hs), omega arith)
  lock_all-Continues j hs (k ∷ ks) w = elim (Option-cases (files.acquire_error w.log k)) [
    | inl good ↦
        let v : World Mem = record w { log = acquired k ∷ w.log } in
        subst (Continues j hs (k ∷ ks) w) (sym (step_ok hs ks k w v (rw (good, acquire))))
          (Continues-cons j k hs ks w _ (lock_all-Continues j (hs ++ k ∷ []) ks v))
    | inr (e, bad) ↦
        subst (Continues j hs (k ∷ ks) w) (sym (step_err hs ks k e w w (rw (bad, acquire))))
          (release_all-held j hs w)
  ]

  -- `lock_all` returns all its keys, in order, or fails: for each key, the count of its holdings
  -- grows by its occurrences among them on a success and is unchanged on a failure.
  pub lock_all-AllOrNone :
      (j : LockKey) (ks : List LockKey) (w : World Mem)
      → AllOrNone j ks w (lock_all p files [] ks w)
  lock_all-AllOrNone j ks w = all_or_none _ (lock_all-Continues j [] ks w)
    where
      all_or_none :
          (r : Result MmregError (List LockKey) × World Mem)
          → Continues j [] ks w r
          → AllOrNone j ks w r
      all_or_none (ok taken, v) c = c
      all_or_none (err e, v) c = omega (arith, c)
