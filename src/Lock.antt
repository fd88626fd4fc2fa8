-- ===== src/Lock.antt =====
-- The lock of one lock file, shared by the threads of each process: src/lock.rs (`SharedLock`).
-- A process has one `SharedLock` per file (the registry sees to it), whose mutex makes `acquire`
-- after its wait, and `release`, single steps. The lock of the kernel, flock(2), is a parameter.
pub mod Exclusion
pub mod Registry
pub mod Table
pub mod Sharing
use mmreg.Prelude.{
  ℕ, ◌+◌, ◌-◌, ◌≤◌, Bool, true, false, ◌&&◌, Option, none, some, ltb, ◌==◌, if◌then◌else◌, ◌≡◌, ◌≢◌,
}

-- `struct OwnerState`; a thread is a number.
pub record OwnerState : Type 0 where
  pub owner : Option ℕ
  pub depth : ℕ

-- `SharedLock::new`.
abbrev pub unowned : OwnerState
unowned = record { owner = none; depth = 0 }

-- What `acquire` finds: its own thread, which takes the lock once more; another thread, for which
-- it waits; or no owner.
pub data Attempt : Type 0 where
  reentered : OwnerState → Attempt
  waits free : Attempt

unfoldable pub attempt : ℕ → OwnerState → Attempt
attempt current s = elim s.owner [
  | some t ↦ if t == current then reentered (record s { depth = s.depth + 1 }) else waits
  | none ↦ free
]

-- The end of `acquire`, after `lock_exclusive`.
abbrev pub owned_by : ℕ → OwnerState
owned_by current = record { owner = some current; depth = 1 }

-- `release`, and whether it unlocks the file.
unfoldable pub release : OwnerState → OwnerState × Bool
release s =
    let depth = s.depth - 1 in
    if depth == 0
    then (record { owner = none; depth = 0 }, true)
    else (record s { depth = depth }, false)

-- `is_owned_by`.
unfoldable pub is_owned_by : OwnerState → ℕ → Bool
is_owned_by s thread = (elim s.owner [ some t ↦ t == thread | none ↦ false ]) && ltb 0 s.depth

-- flock(2) on one file, by processes: who holds it, the outcomes of an exclusive lock that is
-- granted, and unlocking. It has one holder at most, and leaves the other processes' locks alone.
pub record Flock (K : Type 0) : Type 1 where
  pub Held : ℕ → K → Type 0
  pub Granted : ℕ → K → K → Type 0
  pub unlock : ℕ → K → K
  pub exclusive : {p q : ℕ} {k : K} → Held p k → Held q k → p ≡ q
  pub granted_holds : {p : ℕ} {k l : K} → Granted p k l → Held p l
  pub granted_keeps : {p q : ℕ} {k l : K} → Granted p k l → Held q k → Held q l
  pub unlock_drops : {p : ℕ} {k : K} → ¬ Held p (unlock p k)
  pub unlock_keeps : {p q : ℕ} {k : K} → q ≢ p → Held q k → Held q (unlock p k)
  pub unlock_adds_none : {p q : ℕ} {k : K} → Held q (unlock p k) → Held q k

-- A map with one entry replaced.
abbrev pub put : {A : Type 0} → ℕ → A → (ℕ → A) → ℕ → A
put p x f q = if q == p then x else f q

-- The lock in each process, the kernel's, and how many guards each thread of a process holds.
pub record System (K : Type 0) : Type 0 where
  pub locks : ℕ → OwnerState
  pub kernel : K
  pub guards : ℕ → ℕ → ℕ

-- What a step of a thread of a process replaces.
abbrev pub update : {K : Type 0} → ℕ → ℕ → OwnerState → K → ℕ → System K → System K
update p t o k n s = record {
  locks = put p o s.locks;
  kernel = k;
  guards = put p (put t n (s.guards p)) s.guards;
}

-- `acquire` by a thread that holds the lock, by one that finds it free and is granted the file or
-- is refused it, and `release` when a guard is dropped.
pub data Step {K : Type 0} (f : Flock K) (s : System K) : System K → Type 0 where
  reenters :
      (p t : ℕ) (o : OwnerState)
      → attempt t (s.locks p) ≡ reentered o
      → Step f s (update p t o s.kernel (s.guards p t + 1) s)
  takes :
      (p t : ℕ) (k : K)
      → attempt t (s.locks p) ≡ free
      → f.Granted p s.kernel k
      → Step f s (update p t (owned_by t) k (s.guards p t + 1) s)
  is_refused : (p t : ℕ) → attempt t (s.locks p) ≡ free → Step f s s
  drops :
      (p t : ℕ)
      → 1 ≤ s.guards p t
      → Step f s (
          update p t
            (release (s.locks p)).0
            (if (release (s.locks p)).1 then f.unlock p s.kernel else s.kernel)
            (s.guards p t - 1)
            s)

-- The states that steps lead to from one where no process holds the file and no guard exists.
pub data Reachable {K : Type 0} (f : Flock K) : System K → Type 0 where
  start :
      (k : K)
      → ((p : ℕ) → ¬ f.Held p k)
      → Reachable f (record { locks = λ p. unowned; kernel = k; guards = λ p t. 0 })
  next : {s t : System K} → Reachable f s → Step f s t → Reachable f t
