-- ===== src/Lock/Exclusion.antt =====
-- What the lock of a process (src/lock.rs) keeps in step with its guards and with the kernel's lock,
-- on every interleaving of the threads of all processes.
use mathlib.Core.Path.{subst}
use mmreg.Prelude.{
  ℕ, ◌+◌, ◌-◌, ◌≤◌, Bool, true, false, none, some, ◌==◌, ==_iff, if◌then◌else◌, ◌≡◌, ◌≢◌, ◌⊎◌, ◌↔◌,
  inl, inr, refl, sym, ap, ◌∙◌, arith, Bool-cases, Option-cases, some-eq, none-ne-some,
}
use mmreg.Lock.{
  OwnerState, reentered, free, attempt, owned_by, release, is_owned_by, Flock, put, System, update,
  Step, reenters, takes, is_refused, drops, Reachable, start, next,
}

-- No thread of the process has a guard.
pub record IsFree (o : OwnerState) (guards : ℕ → ℕ) (Held : Type 0) : Type 0 where
  pub owner_is : o.owner ≡ none
  pub no_guard : (t : ℕ) → guards t ≡ 0
  pub not_held : ¬ Held

-- One thread has all guards of the process.
pub record IsOwnedBy (t : ℕ) (o : OwnerState) (guards : ℕ → ℕ) (Held : Type 0) : Type 0 where
  pub owner_is : o.owner ≡ some t
  pub depth_is : o.depth ≡ guards t
  pub some_guard : 1 ≤ guards t
  pub others : (u : ℕ) → u ≢ t → guards u ≡ 0
  pub is_held : Held

abbrev pub IsBalanced : OwnerState → (ℕ → ℕ) → Type 0 → Type 0
IsBalanced o guards Held = IsFree o guards Held ⊎ ((t : ℕ) × IsOwnedBy t o guards Held)

ne_of_test : (a b : ℕ) → (a == b) ≡ false → a ≢ b
ne_of_test a b h e = ground (arith, h, e)

put-same : {A : Type 0} (p : ℕ) (x : A) (f : ℕ → A) → put p x f p ≡ x
put-same p x f = let same = (==_iff p p).1 refl in rw same

put-other : {A : Type 0} (p q : ℕ) (x : A) (f : ℕ → A) → q ≢ p → put p x f q ≡ f q
put-other p q x f h = elim (Bool-cases (q == p)) [
  | inl same ↦ absurd (h ((==_iff q p).0 same))
  | inr other ↦ rw other
]

attempt-reentered :
    (t : ℕ) (o r : OwnerState)
    → attempt t o ≡ reentered r
    → (o.owner ≡ some t) × (r.owner ≡ some t) × (r.depth ≡ o.depth + 1)
unfolding attempt
attempt-reentered t o r h = elim (Option-cases o.owner) [
  | inl none_is ↦ ground arith
  | inr (u, owner_is) ↦ elim (Bool-cases (u == t)) [
    | inl same ↦ ground arith
    | inr other ↦ ground arith
  ]
]

attempt-free : (t : ℕ) (o : OwnerState) → attempt t o ≡ free → o.owner ≡ none
unfolding attempt
attempt-free t o h = elim (Option-cases o.owner) [
  | inl none_is ↦ none_is
  | inr (u, owner_is) ↦ elim (Bool-cases (u == t)) [
    | inl same ↦ ground arith
    | inr other ↦ ground arith
  ]
]

-- One guard of the thread more.
IsOwnedBy-put :
    (t n : ℕ) (r : OwnerState) (guards : ℕ → ℕ) {I : Type 0}
    → r.owner ≡ some t
    → r.depth ≡ n
    → 1 ≤ n
    → ((u : ℕ) → u ≢ t → guards u ≡ 0)
    → I
    → IsBalanced r (put t n guards) I
IsOwnedBy-put t n r guards owner depth some_one others held = inr (
  t,
  record {
    owner_is = owner;
    depth_is = depth ∙ sym (put-same t n guards);
    some_guard = omega (arith, put-same t n guards);
    others = λ u h. put-other t u n guards h ∙ others u h;
    is_held = held;
  },
)

release-last :
    (o : OwnerState) → o.depth ≡ 1 → release o ≡ (record { owner = none; depth = 0 }, true)
unfolding release
release-last o h = rw h refl

release-inner :
    (o : OwnerState) → 2 ≤ o.depth → release o ≡ (record o { depth = o.depth - 1 }, false)
unfolding release
release-inner o h = elim (Bool-cases (o.depth - 1 == 0)) [
  | inl zero_is ↦ ground arith
  | inr other ↦ rw other refl
]

IsBalanced-carry :
    {o : OwnerState} {guards : ℕ → ℕ} {H I : Type 0}
    → (H → I)
    → (I → H)
    → IsBalanced o guards H
    → IsBalanced o guards I
IsBalanced-carry there back (inl b) =
    inl
      (record { owner_is = b.owner_is; no_guard = b.no_guard; not_held = λ i. b.not_held (back i) })
IsBalanced-carry there back (inr (t, b)) = inr (
  t,
  record {
    owner_is = b.owner_is;
    depth_is = b.depth_is;
    some_guard = b.some_guard;
    others = b.others;
    is_held = there b.is_held;
  },
)

module _ {K : Type 0} (f : Flock K) where
  reenters-IsBalanced :
      (p t : ℕ) (o r : OwnerState) (guards : ℕ → ℕ) (k : K)
      → attempt t o ≡ reentered r
      → IsBalanced o guards (f.Held p k)
      → IsBalanced r (put t (guards t + 1) guards) (f.Held p k)
  reenters-IsBalanced p t o r guards k h (inl b) =
      absurd (none-ne-some (sym b.owner_is ∙ (attempt-reentered t o r h).0))
  reenters-IsBalanced p t o r guards k h (inr (u, b)) =
      let (before, after, deeper) = attempt-reentered t o r h in
      let same : u ≡ t = some-eq (sym b.owner_is ∙ before) in
      IsOwnedBy-put t (guards t + 1) r guards after
        (omega (arith, deeper, b.depth_is, ap guards same)) (omega arith)
        (λ v other. b.others v (λ e. other (e ∙ same))) b.is_held

  takes-IsBalanced :
      (p t : ℕ) (o : OwnerState) (guards : ℕ → ℕ) (k l : K)
      → attempt t o ≡ free
      → f.Granted p k l
      → IsBalanced o guards (f.Held p k)
      → IsBalanced (owned_by t) (put t (guards t + 1) guards) (f.Held p l)
  takes-IsBalanced p t o guards k l h g (inl b) =
      IsOwnedBy-put t (guards t + 1) (owned_by t) guards refl (omega (arith, b.no_guard t))
        (omega arith) (λ u other. b.no_guard u) (f.granted_holds g)
  takes-IsBalanced p t o guards k l h g (inr (u, b)) =
      absurd (none-ne-some (sym (attempt-free t o h) ∙ b.owner_is))

  -- The kernel's lock after a guard of a process was dropped.
  abbrev pub dropped : ℕ → OwnerState → K → K
  dropped p o k = if (release o).1 then f.unlock p k else k

  drops-owner :
      (p t : ℕ) (o : OwnerState) (guards : ℕ → ℕ) (k : K)
      → 1 ≤ guards t
      → IsBalanced o guards (f.Held p k)
      → IsOwnedBy t o guards (f.Held p k)
  drops-owner p t o guards k h (inl b) = absurd (omega (arith, b.no_guard t))
  drops-owner p t o guards k h (inr (u, b)) = elim (Bool-cases (t == u)) [
    | inl same ↦ subst (λ v. IsOwnedBy v o guards (f.Held p k)) (sym ((==_iff t u).0 same)) b
    | inr other ↦ absurd (omega (arith, b.others t (ne_of_test t u other)))
  ]

  drops-IsBalanced :
      (p t : ℕ) (o : OwnerState) (guards : ℕ → ℕ) (k : K)
      → IsOwnedBy t o guards (f.Held p k)
      → IsBalanced (release o).0 (put t (guards t - 1) guards) (f.Held p (dropped p o k))
  drops-IsBalanced p t o guards k b = elim (Bool-cases (guards t == 1)) [
    | inl last ↦
        let one : o.depth ≡ 1 = b.depth_is ∙ (==_iff _ _).0 last in
        rw (release-last o one) (
          inl (record {
            owner_is = refl;
            no_guard = λ u. elim (Bool-cases (u == t)) [
              | inl same ↦ rw same (ground arith)
              | inr other ↦ rw other (b.others u (ne_of_test u t other))
            ];
            not_held = f.unlock_drops;
          }))
    | inr more ↦
        let several : 2 ≤ o.depth = ground (arith, b.depth_is, b.some_guard) in
        rw (release-inner o several) (
          IsOwnedBy-put t (guards t - 1) (record o { depth = o.depth - 1 }) guards b.owner_is
            (omega (arith, b.depth_is)) (omega (arith, b.depth_is)) b.others b.is_held)
  ]

  -- Every process is balanced: its lock, its guards and the kernel agree.
  abbrev pub IsSound : System K → Type 0
  IsSound s = (p : ℕ) → IsBalanced (s.locks p) (s.guards p) (f.Held p s.kernel)

  -- A step of one process, from what it does to that process and to the kernel's view of the others.
  update-IsSound :
      (s : System K) (p t : ℕ) (o : OwnerState) (k : K) (n : ℕ)
      → IsSound s
      → IsBalanced o (put t n (s.guards p)) (f.Held p k)
      → ((q : ℕ) → q ≢ p → f.Held q s.kernel → f.Held q k)
      → ((q : ℕ) → q ≢ p → f.Held q k → f.Held q s.kernel)
      → IsSound (update p t o k n s)
  update-IsSound s p t o k n sound mine there back q = elim (Bool-cases (q == p)) [
    | inl same ↦ rw same (
        subst (λ x. IsBalanced o (put t n (s.guards p)) (f.Held x k)) (sym ((==_iff q p).0 same))
          mine)
    | inr other ↦
        let apart = ne_of_test q p other in
        rw other (IsBalanced-carry (there q apart) (back q apart) (sound q))
  ]

  Step-IsSound : {s t : System K} → Step f s t → IsSound s → IsSound t
  Step-IsSound {s} (reenters p t o h) sound =
      update-IsSound s p t o s.kernel (s.guards p t + 1) sound
        (reenters-IsBalanced p t (s.locks p) o (s.guards p) s.kernel h (sound p))
        (λ q apart held. held) (λ q apart held. held)
  Step-IsSound {s} (takes p t k h g) sound =
      update-IsSound s p t (owned_by t) k (s.guards p t + 1) sound
        (takes-IsBalanced p t (s.locks p) (s.guards p) s.kernel k h g (sound p))
        (λ q apart held. f.granted_keeps g held)
        (λ q apart held. absurd (apart (f.exclusive held (f.granted_holds g))))
  Step-IsSound (is_refused p t h) sound = sound
  Step-IsSound {s} (drops p t h) sound =
      update-IsSound s p t (release (s.locks p)).0 (dropped p (s.locks p) s.kernel)
        (s.guards p t - 1) sound
        (drops-IsBalanced p t (s.locks p) (s.guards p) s.kernel
          (drops-owner p t (s.locks p) (s.guards p) s.kernel h (sound p)))
        (λ q apart held. dropped-keeps q apart held (release (s.locks p)).1)
        (λ q apart held. dropped-adds q (release (s.locks p)).1 held)
    where
      dropped-keeps :
          (q : ℕ)
          → q ≢ p
          → f.Held q s.kernel
          → (b : Bool) → f.Held q (if b then f.unlock p s.kernel else s.kernel)
      dropped-keeps q apart held true = f.unlock_keeps apart held
      dropped-keeps q apart held false = held

      dropped-adds :
          (q : ℕ) (b : Bool)
          → f.Held q (if b then f.unlock p s.kernel else s.kernel)
          → f.Held q s.kernel
      dropped-adds q true held = f.unlock_adds_none held
      dropped-adds q false held = held

  Reachable-IsSound : {s : System K} → Reachable f s → IsSound s
  Reachable-IsSound (start k none_held) p =
      inl (record { owner_is = refl; no_guard = λ t. refl; not_held = none_held p })
  Reachable-IsSound (next r step) p = Step-IsSound step (Reachable-IsSound r) p

-- A thread with a guard owns the lock of its process, which holds the file.
guard-IsOwnedBy :
    {K : Type 0} (f : Flock K) (s : System K) (p t : ℕ)
    → Reachable f s
    → 1 ≤ s.guards p t
    → IsOwnedBy t (s.locks p) (s.guards p) (f.Held p s.kernel)
guard-IsOwnedBy f s p t r h =
    drops-owner f p t (s.locks p) (s.guards p) s.kernel h (Reachable-IsSound f r p)

-- For every kernel lock that keeps the documented laws and in every state that steps of the threads
-- of any processes lead to: two threads that hold a guard are the same thread of the same process.
pub guards_exclude :
    {K : Type 0} (f : Flock K) (s : System K) (p q t u : ℕ)
    → Reachable f s
    → 1 ≤ s.guards p t
    → 1 ≤ s.guards q u
    → (p ≡ q) × (t ≡ u)
guards_exclude f s p q t u r h g =
    let mine = guard-IsOwnedBy f s p t r h in
    let yours = guard-IsOwnedBy f s q u r g in
    let same : p ≡ q = f.exclusive mine.is_held yours.is_held in
    (same, some-eq (sym mine.owner_is ∙ ap (λ (x : ℕ). (s.locks x).owner) same ∙ yours.owner_is))

is_owned_by-none : (o : OwnerState) (t : ℕ) → o.owner ≡ none → is_owned_by o t ≡ false
unfolding is_owned_by
is_owned_by-none o t h = rw h refl

is_owned_by-some :
    (o : OwnerState) (t u : ℕ)
    → o.owner ≡ some u
    → (is_owned_by o t ≡ true) ↔ ((t ≡ u) × (1 ≤ o.depth))
unfolding is_owned_by
is_owned_by-some o t u h = rw h (ground arith)

-- For every kernel lock that keeps the documented laws and in every state that steps of the threads
-- of any processes lead to: `is_owned_by` says of a thread that it owns the lock of its process
-- exactly while the thread holds a guard; then the process holds the file, and the depth is the
-- number of the thread's guards.
pub is_owned_by_iff :
    {K : Type 0} (f : Flock K) (s : System K) (p t : ℕ)
    → Reachable f s
    → ((is_owned_by (s.locks p) t ≡ true) ↔ (1 ≤ s.guards p t))
      × (1 ≤ s.guards p t → f.Held p s.kernel × ((s.locks p).depth ≡ s.guards p t))
is_owned_by_iff f s p t r = (
  (
    λ h. elim (Reachable-IsSound f r p) [
      | inl b ↦ absurd (ground (arith, h, is_owned_by-none (s.locks p) t b.owner_is))
      | inr (u, b) ↦
          let same = ((is_owned_by-some (s.locks p) t u b.owner_is).0 h).0 in
          omega (arith, b.some_guard, ap (s.guards p) same)
    ],
    λ h.
        let mine = guard-IsOwnedBy f s p t r h in
        (is_owned_by-some (s.locks p) t t mine.owner_is).1 (refl, omega (arith, mine.depth_is)),
  ),
  λ h. let mine = guard-IsOwnedBy f s p t r h in (mine.is_held, mine.depth_is),
)

-- For every kernel lock that keeps the documented laws and in every state that steps of the threads
-- of any processes lead to: a process holds the file exactly while one of its threads has a guard.
pub Held_iff :
    {K : Type 0} (f : Flock K) (s : System K) (p : ℕ)
    → Reachable f s
    → f.Held p s.kernel ↔ ((t : ℕ) × (1 ≤ s.guards p t))
Held_iff f s p r = (
  λ held. elim (Reachable-IsSound f r p) [
    | inl b ↦ absurd (b.not_held held)
    | inr (t, b) ↦ (t, b.some_guard)
  ],
  λ (t, h). (guard-IsOwnedBy f s p t r h).is_held,
)
