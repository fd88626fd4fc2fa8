-- ===== src/Lock/Table.antt =====
-- The lookups in the table of locks of src/lock.rs (`insert_or_get_shared_lock`).
use mathlib.Core.Path.{subst}
use mmreg.Lock.Registry.{FileKey, same_key, LockTable, retain, find, drop_handles}
use mmreg.Lock.{put}
use mmreg.Prelude.{
  ℕ, ◌-◌, ◌≤◌, Bool, true, false, List, [], ◌∷◌, ◌++◌, none, some, ltb, ◌==◌, if◌then◌else◌,
  Bool-cases, some-eq, none-ne-some, ◌≡◌, ◌≢◌, ◌⊎◌, inl, inr, refl, sym, ap, ◌∙◌, arith,
}

-- The table has an entry of the lock for the file.
abbrev pub Listed : FileKey → ℕ → LockTable → Type 0
Listed key id [] = ⊥
Listed key id (entry ∷ t) = ((entry.0 ≡ key) × (entry.1 ≡ id)) ⊎ Listed key id t

same_key-eq : (k l : FileKey) → same_key k l ≡ true → k ≡ l
same_key-eq k l h =
    let d : k.dev ≡ l.dev = ground arith in
    let n : k.ino ≡ l.ino = ground arith in λ i. record { dev = d i; ino = n i }

same_key_refl : (k : FileKey) → same_key k k ≡ true
same_key_refl k = ground arith

pub true-ne-false : true ≡ false → ⊥
true-ne-false h = cc

pub put-same : {A : Type 0} (i : ℕ) (v : A) (f : ℕ → A) → put i v f i ≡ v
put-same i v f = ground arith

pub put-other : {A : Type 0} (i j : ℕ) (v : A) (f : ℕ → A) → j ≢ i → put i v f j ≡ f j
put-other i j v f h = ground arith

pub same_or_other : (i j : ℕ) → (j ≡ i) ⊎ (j ≢ i)
same_or_other i j = elim (Bool-cases (j == i)) [
  | inl e ↦ inl (ground arith)
  | inr e ↦ inr (λ h. ground arith)
]

pub retain-Listed :
    (strong : ℕ → ℕ) (key : FileKey) (id : ℕ) (t : LockTable)
    → 1 ≤ strong id
    → Listed key id t
    → Listed key id (retain strong t)
unfolding retain
retain-Listed strong key id [] live l = elim l [ ]
retain-Listed strong key id (entry ∷ t) live (inl (k, same)) =
    elim (Bool-cases (ltb 0 (strong entry.1))) [
      | inl h ↦
          subst (λ b. Listed key id (if b then entry ∷ retain strong t else retain strong t))
            (sym h) (inl (k, same))
      | inr h ↦ absurd (ground (arith, ap strong same))
    ]
retain-Listed strong key id (entry ∷ t) live (inr later) =
    go (ltb 0 (strong entry.1)) (retain-Listed strong key id t live later)
  where
    go :
        (b : Bool)
        → Listed key id (retain strong t)
        → Listed key id (if b then entry ∷ retain strong t else retain strong t)
    go true h = inr h
    go false h = h

-- What is retained was there, and is alive.
pub Listed-retain :
    (strong : ℕ → ℕ) (key : FileKey) (id : ℕ) (t : LockTable)
    → Listed key id (retain strong t)
    → Listed key id t × (1 ≤ strong id)
unfolding retain
Listed-retain strong key id [] h = elim h [ ]
Listed-retain strong key id (entry ∷ t) h =
    go (ltb 0 (strong entry.1)) refl h (λ l. Listed-retain strong key id t l)
  where
    go :
        (b : Bool)
        → ltb 0 (strong entry.1) ≡ b
        → Listed key id (if b then entry ∷ retain strong t else retain strong t)
        → (Listed key id (retain strong t) → Listed key id t × (1 ≤ strong id))
        → Listed key id (entry ∷ t) × (1 ≤ strong id)
    go true live (inl (k, same)) later =
        (inl (k, same), subst (λ n. 1 ≤ strong n) same (ground arith))
    go true live (inr l) later = (inr (later l).0, (later l).1)
    go false dead l later = (inr (later l).0, (later l).1)

pub find-Listed : (key : FileKey) (t : LockTable) {id : ℕ} → find key t ≡ some id → Listed key id t
unfolding find
find-Listed key [] h = absurd (none-ne-some h)
find-Listed key (entry ∷ t) {id} h = go (same_key entry.0 key) refl h (λ l. find-Listed key t l)
  where
    go :
        (b : Bool)
        → same_key entry.0 key ≡ b
        → (if b then some entry.1 else find key t) ≡ some id
        → (find key t ≡ some id → Listed key id t)
        → Listed key id (entry ∷ t)
    go true same h later = inl (same_key-eq entry.0 key same, some-eq h)
    go false differs h later = inr (later h)

pub find-none : (key : FileKey) (t : LockTable) (id : ℕ) → find key t ≡ none → Listed key id t → ⊥
unfolding find
find-none key [] id h l = elim l [ ]
find-none key (entry ∷ t) id h l = go (same_key entry.0 key) refl h (find-none key t id) l
  where
    go :
        (b : Bool)
        → same_key entry.0 key ≡ b
        → (if b then some entry.1 else find key t) ≡ none
        → (find key t ≡ none → Listed key id t → ⊥)
        → Listed key id (entry ∷ t)
        → ⊥
    go true same h later l = none-ne-some (sym h)
    go false differs h later (inl (k, same)) =
        true-ne-false (sym (ap (λ x. same_key x key) k ∙ same_key_refl key) ∙ differs)
    go false differs h later (inr l) = later h l

pub drop_handles-le :
    (drops : List ℕ) (strong : ℕ → ℕ) (id : ℕ) → drop_handles drops strong id ≤ strong id
unfolding drop_handles
drop_handles-le [] strong id = omega arith
drop_handles-le (d ∷ drops) strong id =
    let now : put d (strong d - 1) strong id ≤ strong id = ground arith in
    omega (arith, drop_handles-le drops (put d (strong d - 1) strong) id)

pub Listed-append :
    (key : FileKey) (id : ℕ) (t u : LockTable) → Listed key id t → Listed key id (t ++ u)
Listed-append key id [] u l = elim l [ ]
Listed-append key id (entry ∷ t) u (inl here) = inl here
Listed-append key id (entry ∷ t) u (inr later) = inr (Listed-append key id t u later)

pub Listed-last : (key : FileKey) (id : ℕ) (t : LockTable) → Listed key id (t ++ (key, id) ∷ [])
Listed-last key id [] = inl (refl, refl)
Listed-last key id (entry ∷ t) = inr (Listed-last key id t)

pub Listed-split :
    (key : FileKey) (id : ℕ) (t : LockTable) (entry : FileKey × ℕ)
    → Listed key id (t ++ entry ∷ [])
    → Listed key id t ⊎ ((entry.0 ≡ key) × (entry.1 ≡ id))
Listed-split key id [] entry (inl here) = inr here
Listed-split key id [] entry (inr later) = elim later [ ]
Listed-split key id (e ∷ t) entry (inl here) = inl (inl here)
Listed-split key id (e ∷ t) entry (inr later) = elim (Listed-split key id t entry later) [
  | inl l ↦ inl (inr l)
  | inr here ↦ inr here
]
