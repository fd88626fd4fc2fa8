-- ===== src/Iomem/Leaves.antt =====
-- What the one-pass loop of `parse_iomem` (src/memcheck.rs) computes, by a description that looks at
-- the whole list of entries.
use mmreg.Error.{MmregError, blueprint_system_ram}
use mmreg.Iomem.{
  Entry, usable_entry, Progress, is_restricted, covers, settle, visit, read_lines, parse_iomem,
}
use mmreg.Prelude.{
  ℕ, ◌+◌, ◌-◌, ◌^◌, ◌<◌, max, Bool, true, false, ◌&&◌, ◌||◌, List, [], ◌∷◌, Option, none, some, ltb,
  leb, if◌then◌else◌, Text, Result, ok, err, ◌>>=◌, ◌≡◌, inl, inr, refl, sym, ap, ◌∙◌, arith,
  Bool-cases, Option-cases,
}

-- The usable entries of the lines.
unfoldable pub entries_of : List Text → List Entry
entries_of [] = []
entries_of (line ∷ lines) =
    let rest = entries_of lines in elim (usable_entry line) [ none ↦ rest | some e ↦ e ∷ rest ]

-- An entry is a leaf if the next one is not indented further.
abbrev pub is_leaf : ℕ → List Entry → Bool
is_leaf indent [] = true
is_leaf indent (e ∷ es) = leb e.indent indent

module _ (target size last : ℕ) where
  -- The first entry that the range overlaps and that is memory.
  unfoldable pub first_restricted : List Entry → Option Entry
  first_restricted [] = none
  first_restricted (e ∷ es) =
      let rest = first_restricted es in if is_restricted target size last e then some e else rest

  -- A leaf covers the range.
  unfoldable pub leaf_covers : List Entry → Bool
  leaf_covers [] = false
  leaf_covers (e ∷ es) = (covers target size last e && is_leaf e.indent es) || leaf_covers es

  -- The outcome for entries, after what the loop has noted.
  abbrev outcome : Bool → List Entry → Result MmregError Bool
  outcome noted es = elim (first_restricted es) [
    | some e ↦ err (blueprint_system_ram target size e.resource)
    | none ↦ ok (noted || leaf_covers es)
  ]

  abbrev pending_leaf : Option ℕ → List Entry → Bool
  pending_leaf none es = false
  pending_leaf (some indent) es = is_leaf indent es

  abbrev noted : Progress → List Entry → Bool
  noted s es = s.listed || pending_leaf s.pending_cover es

  abbrev progress : Bool → Option ℕ → Progress
  progress listed pending = record { listed = listed; pending_cover = pending }

  settle-noted :
      (e : Entry) (es : List Entry) (l : Bool) (p : Option ℕ)
      → settle target size last e (progress l p) ≡ progress (noted (progress l p) (e ∷ es)) none
  unfolding settle
  settle-noted e es true none = refl
  settle-noted e es false none = refl
  settle-noted e es true (some i) = elim (Bool-cases (leb e.indent i)) [
    | inl h ↦ rw h refl
    | inr h ↦ rw h refl
  ]
  settle-noted e es false (some i) = elim (Bool-cases (leb e.indent i)) [
    | inl h ↦ rw h refl
    | inr h ↦ rw h refl
  ]

  -- The loop's variables after an entry that is not memory.
  abbrev after : Entry → List Entry → Bool → Option ℕ → Progress
  after e es l p =
      if covers target size last e
      then progress (noted (progress l p) (e ∷ es)) (some e.indent)
      else progress (noted (progress l p) (e ∷ es)) none

  visit-restricted :
      (e : Entry) (s : Progress)
      → is_restricted target size last e ≡ true
      → visit target size last e s ≡ err (blueprint_system_ram target size e.resource)
  unfolding visit
  visit-restricted e s h = rw h refl

  visit-allowed :
      (e : Entry) (es : List Entry) (l : Bool) (p : Option ℕ)
      → is_restricted target size last e ≡ false
      → visit target size last e (progress l p) ≡ ok (after e es l p)
  unfolding visit
  visit-allowed e es l p h =
      rw (h, settle-noted e es l p)
        (elim (Bool-cases (covers target size last e)) [ inl c ↦ rw c refl | inr c ↦ rw c refl ])

  or_assoc : (a b c : Bool) → ((a || b) || c) ≡ (a || (b || c))
  or_assoc true b c = refl
  or_assoc false b c = refl

  after-noted :
      (e : Entry) (es : List Entry) (l : Bool) (p : Option ℕ)
      → (noted (after e es l p) es || leaf_covers es)
        ≡ (noted (progress l p) (e ∷ es) || leaf_covers (e ∷ es))
  unfolding leaf_covers
  after-noted e es l p = elim (Bool-cases (covers target size last e)) [
    | inl c ↦ rw c (or_assoc (noted (progress l p) (e ∷ es)) (is_leaf e.indent es) (leaf_covers es))
    | inr c ↦ rw c (ap (λ b. b || leaf_covers es) (or_false (noted (progress l p) (e ∷ es))))
  ]
    where
      or_false : (b : Bool) → (b || false) ≡ b
      or_false true = refl
      or_false false = refl

  first_restricted-here :
      (e : Entry) (es : List Entry)
      → is_restricted target size last e ≡ true
      → first_restricted (e ∷ es) ≡ some e
  unfolding first_restricted
  first_restricted-here e es h = rw (h, first_restricted) refl

  first_restricted-later :
      (e : Entry) (es : List Entry)
      → is_restricted target size last e ≡ false
      → first_restricted (e ∷ es) ≡ first_restricted es
  unfolding first_restricted
  first_restricted-later e es h = rw (h, first_restricted) refl

  -- The outcome of a search for memory, once the question of a leaf is answered.
  abbrev decide : Bool → Option Entry → Result MmregError Bool
  decide found o = elim o [
    | some e ↦ err (blueprint_system_ram target size e.resource)
    | none ↦ ok found
  ]

  outcome-restricted :
      (e : Entry) (es : List Entry) (b : Bool)
      → is_restricted target size last e ≡ true
      → outcome b (e ∷ es) ≡ err (blueprint_system_ram target size e.resource)
  outcome-restricted e es b h =
      ap (decide (b || leaf_covers (e ∷ es))) (first_restricted-here e es h)

  outcome-allowed :
      (e : Entry) (es : List Entry) (b : Bool)
      → is_restricted target size last e ≡ false
      → outcome b (e ∷ es) ≡ decide (b || leaf_covers (e ∷ es)) (first_restricted es)
  outcome-allowed e es b h = ap (decide (b || leaf_covers (e ∷ es))) (first_restricted-later e es h)

  read_lines-end :
      (l : Bool) (p : Option ℕ)
      → read_lines target size last (progress l p) [] ≡ outcome (noted (progress l p) []) []
  unfolding read_lines first_restricted leaf_covers
  read_lines-end true none = refl
  read_lines-end false none = refl
  read_lines-end true (some i) = refl
  read_lines-end false (some i) = refl

  module _ (line : Text) (lines : List Text) where
    read_lines-skip :
        (s : Progress)
        → usable_entry line ≡ none
        → read_lines target size last s (line ∷ lines) ≡ read_lines target size last s lines
    unfolding read_lines
    read_lines-skip s h = rw (h, read_lines) refl

    read_lines-entry :
        (s : Progress) (e : Entry)
        → usable_entry line ≡ some e
        → read_lines target size last s (line ∷ lines)
          ≡ (visit target size last e s >>= λ next. read_lines target size last next lines)
    unfolding read_lines
    read_lines-entry s e h = rw (h, read_lines) refl

    entries_of-skip : usable_entry line ≡ none → entries_of (line ∷ lines) ≡ entries_of lines
    unfolding entries_of
    entries_of-skip h = rw (h, entries_of) refl

    entries_of-entry :
        (e : Entry) → usable_entry line ≡ some e → entries_of (line ∷ lines) ≡ e ∷ entries_of lines
    unfolding entries_of
    entries_of-entry e h = rw (h, entries_of) refl

  entry-outcome :
      (e : Entry) (lines : List Text) (es : List Entry) (l : Bool) (p : Option ℕ)
      → ((m : Bool) (q : Option ℕ)
          → read_lines target size last (progress m q) lines ≡ outcome (noted (progress m q) es) es)
      → (visit target size last e (progress l p) >>= λ next. read_lines target size last next lines)
        ≡ outcome (noted (progress l p) (e ∷ es)) (e ∷ es)
  entry-outcome e lines es l p rest = elim (Bool-cases (is_restricted target size last e)) [
    | inl h ↦
        ap (λ r. r >>= λ next. read_lines target size last next lines)
          (visit-restricted e (progress l p) h)
        ∙ sym (outcome-restricted e es (noted (progress l p) (e ∷ es)) h)
    | inr h ↦
        let s = after e es l p in
        ap (λ r. r >>= λ next. read_lines target size last next lines) (visit-allowed e es l p h)
        ∙ rest s.listed s.pending_cover
        ∙ ap (λ b. decide b (first_restricted es)) (after-noted e es l p)
        ∙ sym (outcome-allowed e es (noted (progress l p) (e ∷ es)) h)
  ]

  read_lines-outcome :
      (lines : List Text) (l : Bool) (p : Option ℕ)
      → read_lines target size last (progress l p) lines
        ≡ outcome (noted (progress l p) (entries_of lines)) (entries_of lines)
  unfolding entries_of
  read_lines-outcome [] l p = read_lines-end l p
  read_lines-outcome (line ∷ lines) l p = elim (Option-cases (usable_entry line)) [
    | inl h ↦
        read_lines-skip line lines (progress l p) h
        ∙ read_lines-outcome lines l p
        ∙ ap (λ es. outcome (noted (progress l p) es) es) (sym (entries_of-skip line lines h))
    | inr (e, h) ↦
        read_lines-entry line lines (progress l p) e h
        ∙ entry-outcome e lines (entries_of lines) l p (read_lines-outcome lines)
        ∙ ap (λ es. outcome (noted (progress l p) es) es) (sym (entries_of-entry line lines e h))
  ]

-- What the list says of a range, entry by entry and not in one pass: an error that names the first
-- usable entry of memory that the range overlaps, or else whether a leaf covers the range.
unfoldable pub reference : List Entry → ℕ → ℕ → ℕ → Result MmregError Bool
reference es target size last = elim (first_restricted target size last es) [
  | some e ↦ err (blueprint_system_ram target size e.resource)
  | none ↦ ok (leaf_covers target size last es)
]

-- If the range ends below 2^64, `parse_iomem` fails exactly as the first usable entry of memory that
-- overlaps the range says; without one, it tells whether an entry covers the range that is a leaf:
-- the last one, or one whose successor is not indented further.
pub parse_iomem-reference :
    (lines : List Text) (target size : ℕ)
    → target + (max size 1 - 1) < 2 ^ 64
    → parse_iomem lines target size
      ≡ reference (entries_of lines) target size (target + (max size 1 - 1))
unfolding parse_iomem reference
parse_iomem-reference lines target size h =
    let test : ltb (target + (max size 1 - 1)) (2 ^ 64) ≡ true = ground arith in
    rw test (read_lines-outcome target size (target + (max size 1 - 1)) lines false none)
