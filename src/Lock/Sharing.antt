-- ===== src/Lock/Sharing.antt =====
-- The registry of src/lock.rs has at most one living lock for each file.
use mmreg.Lock.Table.{
  Listed, true-ne-false, put-same, put-other, same_or_other, retain-Listed, Listed-retain,
  find-Listed, find-none, drop_handles-le, Listed-append, Listed-last, Listed-split,
}
use mathlib.Core.Path.{subst}
use mmreg.Lock.Registry.{
  FileKey, same_key, Registry, retain, find, drop_handles, share, create, existing, swept,
  insert_or_get,
}
use mmreg.Lock.{put}
use mmreg.Prelude.{
  ℕ, ◌+◌, ◌<◌, ◌≤◌, Bool, true, false, List, [], ◌∷◌, ◌++◌, Option, none, some, ltb, if◌then◌else◌,
  Text, Result, ok, err, ◌≡◌, ◌≢◌, inl, inr, refl, sym, ap, ◌∙◌, arith,
}

-- The lock has a handle.
abbrev pub IsLive : Registry → ℕ → Type 0
IsLive s id = 1 ≤ s.strong id

pub record IsConsistent (s : Registry) : Type 0 where
  pub listed : (id : ℕ) → IsLive s id → Listed (s.file id) id s.table
  pub owned : (key : FileKey) (id : ℕ) → Listed key id s.table → (s.file id ≡ key) × (id < s.next)
  pub alone : (a b : ℕ) → IsLive s a → IsLive s b → s.file a ≡ s.file b → a ≡ b

-- Fewer handles keep consistency.
fewer-IsConsistent :
    (s : Registry) (strong : ℕ → ℕ)
    → ((id : ℕ) → strong id ≤ s.strong id)
    → IsConsistent s
    → IsConsistent (record s { strong = strong })
fewer-IsConsistent s strong le c = record {
  listed = λ id live. c.listed id (omega (arith, le id, live));
  owned = c.owned;
  alone = λ a b live live' same.
      c.alone a b (omega (arith, le a, live)) (omega (arith, le b, live')) same;
}

swept-IsConsistent : (drops : List ℕ) (s : Registry) → IsConsistent s → IsConsistent (swept drops s)
swept-IsConsistent drops s c =
    let le = drop_handles-le drops s.strong in
    record {
      listed = λ id live.
          retain-Listed s.strong (s.file id) id s.table (omega (arith, le id, live))
            (c.listed id (omega (arith, le id, live)));
      owned = λ key id l. c.owned key id (Listed-retain s.strong key id s.table l).0;
      alone = λ a b live live' same.
          c.alone a b (omega (arith, le a, live)) (omega (arith, le b, live')) same;
    }

share-IsLive : (s : Registry) (id x : ℕ) → IsLive s id → IsLive (share id s) x → IsLive s x
share-IsLive s id x live h = elim (same_or_other id x) [
  | inl same ↦ subst (IsLive s) (sym same) live
  | inr apart ↦ subst (λ n. 1 ≤ n) (put-other id x (s.strong id + 1) s.strong apart) h
]

share-IsConsistent :
    (s : Registry) (id : ℕ) → IsLive s id → IsConsistent s → IsConsistent (share id s)
share-IsConsistent s id live c = record {
  listed = λ x h. c.listed x (share-IsLive s id x live h);
  owned = c.owned;
  alone =
      λ a b h g same. c.alone a b (share-IsLive s id a live h) (share-IsLive s id b live g) same;
}

-- No living lock is on the file.
abbrev Unused : FileKey → Registry → Type 0
Unused key s = (id : ℕ) → IsLive s id → s.file id ≢ key

module _ (key : FileKey) (s : Registry) (c : IsConsistent s) (unused : Unused key s) where
  abbrev created : Registry
  created = record {
    table = s.table ++ (key, s.next) ∷ [];
    strong = put s.next 1 s.strong;
    file = put s.next key s.file;
    next = s.next + 1;
  }

  abbrev older_file : (x : ℕ) → x ≢ s.next → created.file x ≡ s.file x
  older_file x apart = put-other s.next x key s.file apart

  created-older : (x : ℕ) → x ≢ s.next → IsLive created x → IsLive s x
  created-older x apart h = subst (λ n. 1 ≤ n) (put-other s.next x 1 s.strong apart) h

  created-fresh : (x : ℕ) → x ≡ s.next → created.file x ≡ key
  created-fresh x same = ap (put s.next key s.file) same ∙ put-same s.next key s.file

  created-IsConsistent : IsConsistent created
  created-IsConsistent = record {
    listed = λ x h. elim (same_or_other s.next x) [
      | inl same ↦
          subst (λ k. Listed k x created.table) (sym (created-fresh x same))
            (subst (λ n. Listed key n created.table) (sym same) (Listed-last key s.next s.table))
      | inr apart ↦
          subst (λ k. Listed k x created.table) (sym (older_file x apart))
            (Listed-append (s.file x) x s.table _ (c.listed x (created-older x apart h)))
    ];
    owned = λ k x l. elim (Listed-split k x s.table (key, s.next) l) [
      | inl old ↦
          let (file_is, below) = c.owned k x old in
          (older_file x (λ e. omega (arith, below, e)) ∙ file_is, omega (arith, below))
      | inr (same_key, same) ↦ (created-fresh x (sym same) ∙ same_key, omega (arith, same))
    ];
    alone = λ a b h g same. elim (same_or_other s.next a) [
      | inl is_a ↦ elim (same_or_other s.next b) [
        | inl is_b ↦ is_a ∙ sym is_b
        | inr apart ↦ absurd (
            unused b (created-older b apart g)
              (sym (older_file b apart) ∙ sym same ∙ created-fresh a is_a))
      ]
      | inr apart_a ↦ elim (same_or_other s.next b) [
        | inl is_b ↦ absurd (
            unused a (created-older a apart_a h)
              (sym (older_file a apart_a) ∙ same ∙ created-fresh b is_b))
        | inr apart_b ↦
            c.alone a b (created-older a apart_a h) (created-older b apart_b g)
              (sym (older_file a apart_a) ∙ same ∙ older_file b apart_b)
      ]
    ];
  }

-- What getting a lock for a file leaves: a consistent registry, and if it gives a lock, a living one
-- of that file.
abbrev Gets : FileKey → Result Text ℕ × Registry → Type 0
Gets key (ok id, s) = IsConsistent s × (s.file id ≡ key) × IsLive s id
Gets key (err e, s) = IsConsistent s

create-Gets :
    (key : FileKey) (made : Option Text) (s : Registry)
    → IsConsistent s
    → Unused key s
    → Gets key (create key made s)
unfolding create
create-Gets key (some e) s c unused = c
create-Gets key none s c unused = (
  created-IsConsistent key s c unused,
  put-same s.next key s.file,
  subst (λ n. 1 ≤ n) (sym (put-same s.next 1 s.strong)) (omega arith),
)

existing-Gets :
    (key : FileKey) (made : Option Text) (s : Registry) (id : ℕ)
    → IsConsistent s
    → s.file id ≡ key
    → (ltb 0 (s.strong id) ≡ false → Unused key s)
    → Gets key (existing key made s (some id))
unfolding existing
existing-Gets key made s id c file_is unused = go (ltb 0 (s.strong id)) refl
  where
    go :
        (b : Bool)
        → ltb 0 (s.strong id) ≡ b
        → Gets key (if b then (ok id, share id s) else create key made s)
    go true live = (
      share-IsConsistent s id (ground arith) c,
      file_is,
      subst (λ n. 1 ≤ n) (sym (put-same id (s.strong id + 1) s.strong)) (omega arith),
    )
    go false dead = create-Gets key made s c (unused dead)

insert_or_get-Gets :
    (key : FileKey) (made : Option Text) (drops : List ℕ) (s : Registry)
    → IsConsistent s
    → Gets key (insert_or_get key made drops s)
unfolding insert_or_get
insert_or_get-Gets key made drops s c = go (find key (retain s.strong s.table)) refl
  where
    swept_one : IsConsistent (swept drops s)
    swept_one = swept-IsConsistent drops s c

    go :
        (o : Option ℕ)
        → find key (retain s.strong s.table) ≡ o
        → Gets key (existing key made (swept drops s) o)
    go none missing = existing-none (λ x live same.
        find-none key (retain s.strong s.table) x missing
          (subst (λ k. Listed k x (retain s.strong s.table)) same (swept_one.listed x live)))
      where
        existing-none :
            Unused key (swept drops s) → Gets key (existing key made (swept drops s) none)
        existing-none unused = create-Gets key made (swept drops s) swept_one unused
    go (some id) found =
        let there = find-Listed key (retain s.strong s.table) found in
        let file_is = (swept_one.owned key id there).0 in
        let lived = (Listed-retain s.strong key id s.table there).1 in
        existing-Gets key made (swept drops s) id swept_one file_is λ dead x live same.
          let is_id =
            c.alone x id (omega (arith, drop_handles-le drops s.strong x, live)) lived
              (same ∙ sym file_is) in
          let alive = subst (IsLive (swept drops s)) is_id live in true-ne-false (ground arith)

-- The registries that a process comes to: it starts empty; a handle is got, cloned, or dropped.
pub data Reaches : Registry → Type 0 where
  start :
      (file : ℕ → FileKey)
      → Reaches (record { table = []; strong = λ id. 0; file = file; next = 0 })
  got :
      {s : Registry} (key : FileKey) (made : Option Text) (drops : List ℕ)
      → Reaches s
      → Reaches (insert_or_get key made drops s).1
  cloned : {s : Registry} (id : ℕ) → IsLive s id → Reaches s → Reaches (share id s)
  dropped :
      {s : Registry} (ids : List ℕ)
      → Reaches s
      → Reaches (record s { strong = drop_handles ids s.strong })

Gets-IsConsistent : (key : FileKey) (q : Result Text ℕ × Registry) → Gets key q → IsConsistent q.1
Gets-IsConsistent key (ok id, s) g = g.0
Gets-IsConsistent key (err e, s) g = g

Reaches-IsConsistent : {s : Registry} → Reaches s → IsConsistent s
Reaches-IsConsistent (start file) = record {
  listed = λ id live. absurd (omega arith);
  owned = λ key id l. elim l [ ];
  alone = λ a b live live' same. absurd (omega arith);
}
Reaches-IsConsistent (got {s} key made drops r) =
    Gets-IsConsistent key (insert_or_get key made drops s)
      (insert_or_get-Gets key made drops s (Reaches-IsConsistent r))
Reaches-IsConsistent (cloned {s} id live r) = share-IsConsistent s id live (Reaches-IsConsistent r)
Reaches-IsConsistent (dropped {s} ids r) =
    fewer-IsConsistent s (drop_handles ids s.strong) (drop_handles-le ids s.strong)
      (Reaches-IsConsistent r)

-- In every registry that a process comes to, whatever handles are got, cloned and dropped, also
-- while another is got: the lock that `insert_or_get` gives has the file open that was asked for and
-- is alive, and it is the only living lock of that file.
pub insert_or_get-Shares :
    {s t : Registry} (key : FileKey) (made : Option Text) (drops : List ℕ) {id : ℕ}
    → Reaches s
    → insert_or_get key made drops s ≡ (ok id, t)
    → (t.file id ≡ key) × IsLive t id × ((x : ℕ) → IsLive t x → t.file x ≡ key → x ≡ id)
insert_or_get-Shares {s} {t} key made drops {id} r h =
    let (c, file_is, live) =
      subst (Gets key) h (insert_or_get-Gets key made drops s (Reaches-IsConsistent r)) in
    (file_is, live, λ x alive same. c.alone x id alive live (same ∙ sym file_is))
