-- ===== src/Preflight/Cells/Encoded.antt =====
-- A `reg` property that is written from a list of ranges (src/memcheck.rs, `reg_covers`).
use mmreg.Bits.Fields.{bit_or-shifted}
use mmreg.Preflight.Cells.{
  from_be_bytes, words, push_word, fold_words, read_be_cells, chunks, chunks_exact, entry_covers,
  layout_covers, layouts, reg_covers,
}
use mmreg.Preflight.{any, take, drop}
use mmreg.Prelude.{
  ℕ, zero, suc, ◌+◌, ◌*◌, ◌/◌, ◌%◌, ◌^◌, ◌≤◌, ◌<◌, max, bit_or, Bool, true, false, ◌||◌, List, [],
  ◌∷◌, ◌++◌, Option, none, some, length, length-append, ltb, if◌then◌else◌, All, map, ◌≡◌, ◌⊎◌, ◌↔◌,
  inl, inr, refl, sym, ap, ◌∙◌, arith, Bool-cases,
}
use mmreg.Strings.{checked_add}
use native.Mathlib.Nat.{pow-suc, mul-div_cancel, mul-mod_left}

-- The words of a number, the first the highest.
unfoldable pub encode_words : ℕ → ℕ → List ℕ
encode_words zero v = []
encode_words (suc n) v = encode_words n (v / 2 ^ 32) ++ (v % 2 ^ 32) ∷ []

-- The bytes of words, the first the highest.
unfoldable pub word_bytes : List ℕ → List ℕ
word_bytes [] = []
word_bytes (w ∷ ws) =
    (w / 2 ^ 24) ∷ (w / 2 ^ 16 % 256) ∷ (w / 2 ^ 8 % 256) ∷ (w % 256) ∷ word_bytes ws

unfoldable pub encode_cells : ℕ → ℕ → List ℕ
unfolding encode_words word_bytes
encode_cells n v = word_bytes (encode_words n v)

-- A property of ranges, with so many cells for an address and for a size.
unfoldable pub encode_reg : ℕ → ℕ → List (ℕ × ℕ) → List ℕ
unfolding encode_cells
encode_reg a s [] = []
encode_reg a s ((start, len) ∷ rs) =
    (encode_cells a start ++ encode_cells s len) ++ encode_reg a s rs

-- A range that so many cells hold.
abbrev pub Fits : ℕ → ℕ → ℕ × ℕ → Type 0
Fits a s (start, len) =
    (start < (2 ^ 32) ^ a) × (start < 2 ^ 64) × (len < (2 ^ 32) ^ s) × (len < 2 ^ 64)

-- One of the ranges covers all from `target` up to `end`.
abbrev pub Covered : ℕ → ℕ → List (ℕ × ℕ) → Type 0
Covered target end [] = ⊥
Covered target end ((start, len) ∷ rs) =
    ((start ≤ target) × (end ≤ start + len)) ⊎ Covered target end rs

push_word-add : (acc w : ℕ) → w < 2 ^ 32 → push_word acc w ≡ acc % 2 ^ 32 * 2 ^ 32 + w
unfolding push_word
push_word-add acc w h =
    ap (λ (t : ℕ). bit_or t w) {y = acc % 2 ^ 32 * 2 ^ 32} (omega arith)
    ∙ bit_or-shifted 32 (acc % 2 ^ 32) w h

fold_words-snoc :
    (acc : ℕ) (ws : List ℕ) (w : ℕ)
    → fold_words acc (ws ++ w ∷ []) ≡ push_word (fold_words acc ws) w
unfolding fold_words
fold_words-snoc acc [] w = refl
fold_words-snoc acc (x ∷ ws) w = fold_words-snoc (push_word acc x) ws w

fold_words-encode : (n v : ℕ) → v < (2 ^ 32) ^ n → v < 2 ^ 64 → fold_words 0 (encode_words n v) ≡ v
unfolding encode_words
fold_words-encode zero v h _ = unfold fold_words in omega arith
fold_words-encode (suc n) v h small =
    let ih = fold_words-encode n (v / 2 ^ 32) (omega (arith, pow-suc (2 ^ 32) n)) (omega arith) in
    let last =
      push_word-add (fold_words 0 (encode_words n (v / 2 ^ 32))) (v % 2 ^ 32) (omega arith) in
    fold_words-snoc 0 (encode_words n (v / 2 ^ 32)) (v % 2 ^ 32) ∙ omega (arith, ih, last)

All-append {ℓ} : (P : ℕ → Type ℓ) (xs : List ℕ) (y : ℕ) → All P xs → P y → All P (xs ++ y ∷ [])
All-append P [] y ps p = (p, tt)
All-append P (x ∷ xs) y ps p = (ps.0, All-append P xs y ps.1 p)

encode_words-small : (n v : ℕ) → All (λ w. w < 2 ^ 32) (encode_words n v)
unfolding encode_words
encode_words-small zero v = tt
encode_words-small (suc n) v =
    All-append (λ w. w < 2 ^ 32) (encode_words n (v / 2 ^ 32)) (v % 2 ^ 32)
      (encode_words-small n (v / 2 ^ 32)) (omega arith)

length-encode_words : (n v : ℕ) → length (encode_words n v) ≡ n
unfolding encode_words
length-encode_words zero v = refl
length-encode_words (suc n) v =
    length-append (encode_words n (v / 2 ^ 32)) ((v % 2 ^ 32) ∷ [])
    ∙ omega (arith, length-encode_words n (v / 2 ^ 32))

words-word_bytes : (ws : List ℕ) → All (λ w. w < 2 ^ 32) ws → words (word_bytes ws) ≡ ws
unfolding words word_bytes
words-word_bytes [] h = refl
words-word_bytes (w ∷ ws) (small, rest) =
    let here : from_be_bytes (w / 2 ^ 24) (w / 2 ^ 16 % 256) (w / 2 ^ 8 % 256) (w % 256) ≡ w =
      omega arith in
    rw (here, words-word_bytes ws rest)

length-word_bytes : (ws : List ℕ) → length (word_bytes ws) ≡ length ws * 4
unfolding word_bytes
length-word_bytes [] = refl
length-word_bytes (w ∷ ws) = omega (arith, length-word_bytes ws)

-- Cells are read back.
read_be_cells-encode :
    (n v : ℕ) → v < (2 ^ 32) ^ n → v < 2 ^ 64 → read_be_cells (encode_cells n v) ≡ v
unfolding read_be_cells encode_cells
read_be_cells-encode n v h small =
    ap (fold_words 0) (words-word_bytes (encode_words n v) (encode_words-small n v))
    ∙ fold_words-encode n v h small

length-encode_cells : (n v : ℕ) → length (encode_cells n v) ≡ n * 4
unfolding encode_cells
length-encode_cells n v =
    omega (arith, length-word_bytes (encode_words n v), length-encode_words n v)

take-append : (n : ℕ) (xs ys : List ℕ) → length xs ≡ n → take n (xs ++ ys) ≡ xs
unfolding take
take-append zero [] ys h = refl
take-append zero (x ∷ xs) ys h = absurd (omega arith)
take-append (suc n) [] ys h = absurd (omega arith)
take-append (suc n) (x ∷ xs) ys h = ap (λ t. x ∷ t) (take-append n xs ys (omega arith))

drop-append : (n : ℕ) (xs ys : List ℕ) → length xs ≡ n → drop n (xs ++ ys) ≡ ys
unfolding drop
drop-append zero [] ys h = refl
drop-append zero (x ∷ xs) ys h = absurd (omega arith)
drop-append (suc n) [] ys h = absurd (omega arith)
drop-append (suc n) (x ∷ xs) ys h = drop-append n xs ys (omega arith)

abbrev entry_bytes : ℕ → ℕ → ℕ × ℕ → List ℕ
entry_bytes a s (start, len) = encode_cells a start ++ encode_cells s len

length-entry_bytes : (a s : ℕ) (r : ℕ × ℕ) → length (entry_bytes a s r) ≡ (a + s) * 4
length-entry_bytes a s (start, len) =
    length-append (encode_cells a start) (encode_cells s len)
    ∙ omega (arith, length-encode_cells a start, length-encode_cells s len)

length-encode_reg :
    (a s : ℕ) (rs : List (ℕ × ℕ)) → length (encode_reg a s rs) ≡ length rs * ((a + s) * 4)
unfolding encode_reg
length-encode_reg a s [] = omega arith
length-encode_reg a s ((start, len) ∷ rs) =
    length-append (entry_bytes a s (start, len)) (encode_reg a s rs)
    ∙ omega (arith, length-entry_bytes a s (start, len), length-encode_reg a s rs)

chunks-encode :
    (a s : ℕ) (rs : List (ℕ × ℕ))
    → chunks (length rs) ((a + s) * 4) (encode_reg a s rs) ≡ map (entry_bytes a s) rs
unfolding chunks encode_reg
chunks-encode a s [] = refl
chunks-encode a s ((start, len) ∷ rs) =
    let entry = entry_bytes a s (start, len) in
    let size = length-entry_bytes a s (start, len) in
    rw (
      take-append ((a + s) * 4) entry (encode_reg a s rs) size,
      drop-append ((a + s) * 4) entry (encode_reg a s rs) size,
      chunks-encode a s rs,
    )

-- An entry covers what the range that it is written from does.
entry_covers-encode :
    (a s target end : ℕ) (r : ℕ × ℕ)
    → Fits a s r
    → target < end
    → end < 2 ^ 64
    → (entry_covers target end a (entry_bytes a s r) ≡ true) ↔ ((r.0 ≤ target) × (end ≤ r.0 + r.1))
unfolding entry_covers
entry_covers-encode a s target end (start, len) (fits, small, len_fits, len_small) below limit =
    rw
      (
        take-append (a * 4) (encode_cells a start) (encode_cells s len)
            (length-encode_cells a start),
        drop-append (a * 4) (encode_cells a start) (encode_cells s len)
            (length-encode_cells a start),
        read_be_cells-encode a start fits small,
        read_be_cells-encode s len len_fits len_small,
      )
      (ground arith)

any-Covered :
    (a s target end : ℕ) (rs : List (ℕ × ℕ))
    → All (Fits a s) rs
    → target < end
    → end < 2 ^ 64
    → (any (entry_covers target end a) (map (entry_bytes a s) rs) ≡ true) ↔ Covered target end rs
unfolding any
any-Covered a s target end [] fits below limit = ground arith
any-Covered a s target end (r ∷ rs) fits below limit =
    let here = entry_covers-encode a s target end r fits.0 below limit in
    let later = any-Covered a s target end rs fits.1 below limit in
    either (entry_covers target end a (entry_bytes a s r)) _ here later
  where
    either :
        (p q : Bool) {P Q : Type 0} → (p ≡ true) ↔ P → (q ≡ true) ↔ Q → ((p || q) ≡ true) ↔ (P ⊎ Q)
    either true q f g = (λ _. inl (f.0 refl), λ _. refl)
    either false q f g =
        (λ e. inr (g.0 e), λ x. elim x [ inl x ↦ absurd (cc (f.1 x)) | inr y ↦ g.1 y ])

layout_covers-encode :
    (a s : ℕ) (rs : List (ℕ × ℕ)) (target end : ℕ)
    → 1 ≤ a
    → All (Fits a s) rs
    → target < end
    → end < 2 ^ 64
    → (layout_covers (encode_reg a s rs) target end (a, s) ≡ true) ↔ Covered target end rs
unfolding layout_covers chunks_exact
layout_covers-encode a s rs target end cells fits below limit =
    let count : length (encode_reg a s rs) / ((a + s) * 4) ≡ length rs =
      ap (λ (t : ℕ). t / ((a + s) * 4)) (length-encode_reg a s rs)
      ∙ mul-div_cancel (length rs) (omega arith) in
    let whole : length (encode_reg a s rs) % ((a + s) * 4) ≡ 0 =
      ap (λ (t : ℕ). t % ((a + s) * 4)) (length-encode_reg a s rs)
      ∙ mul-mod_left (length rs) ((a + s) * 4) in
    rw (whole, count, chunks-encode a s rs) (any-Covered a s target end rs fits below limit)

or_false : (b : Bool) → (b || false) ≡ true → b ≡ true
or_false true h = refl
or_false false h = h

true-ne-false : true ≡ false → ⊥
true-ne-false h = cc

-- Of a `reg` property that is written from ranges that its cells hold, at least one cell for each
-- part, `reg_covers` finds a range exactly if its end, one past its last byte, fits 64 bits and one
-- of the ranges covers it; a range of no bytes counts as one byte.
pub reg_covers-encode :
    (a s : ℕ) (rs : List (ℕ × ℕ)) (target size : ℕ)
    → 1 ≤ a
    → All (Fits a s) rs
    → (reg_covers (encode_reg a s rs) target size (some (a, s)) ≡ true)
      ↔ ((target + max size 1 < 2 ^ 64) × Covered target (target + max size 1) rs)
unfolding reg_covers layouts checked_add any
reg_covers-encode a s rs target size cells fits =
    elim (Bool-cases (ltb (target + max size 1) (2 ^ 64))) [
      | inr big ↦ (λ h. absurd (true-ne-false (sym h ∙ at big)), λ h. absurd (ground arith))
      | inl within ↦
          let limit : target + max size 1 < 2 ^ 64 = ground arith in
          let found =
            layout_covers-encode a s rs target (target + max size 1) cells fits (omega arith)
              limit in
          (
            λ h. (limit, found.0 (or_false _ (sym (at within) ∙ h))),
            λ h. at within ∙ ap (λ b. b || false) (found.1 h.1),
          )
    ]
  where
    covers : Option ℕ → Bool
    covers none = false
    covers (some end) = layout_covers (encode_reg a s rs) target end (a, s) || false

    unfolded :
        reg_covers (encode_reg a s rs) target size (some (a, s))
        ≡ covers (if ltb (target + max size 1) (2 ^ 64) then some (target + max size 1) else none)
    unfolded = ground arith

    at :
        {b : Bool}
        → ltb (target + max size 1) (2 ^ 64) ≡ b
        → reg_covers (encode_reg a s rs) target size (some (a, s))
          ≡ covers (if b then some (target + max size 1) else none)
    at h = unfolded ∙ ap (λ b. covers (if b then some (target + max size 1) else none)) h
