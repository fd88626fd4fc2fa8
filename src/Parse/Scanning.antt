-- ===== src/Parse/Scanning.antt =====
-- The digit loop of `parse_u64_radix` (src/parse.rs) against positional notation.
use native.Mathlib.Nat.{lt_of_le_of_lt, pow-zero, pow-suc, one-le-pow}
use mmreg.Message.{integer_overflow}
use mmreg.Prelude.{
  ℕ, suc, ◌+◌, ◌*◌, ◌^◌, ◌≤◌, ◌<◌, Bool, true, false, List, [], ◌∷◌, none, some, ltb, ◌==◌,
  if◌then◌else◌, Text, ok, err, >>=-eq-ok, and_then, length, ◌≡◌, ◌≢◌, ◌↔◌, refl, ap, ◌∙◌, arith,
  Bool-cases, Option-cases, inl, inr,
}
use mmreg.Strings.{to_digit, checked_mul, checked_add}
use mmreg.Parse.{Scan, scan_byte, scan_bytes}

-- Bytes that spell digits of a radix, with underscores anywhere between them.
pub data Spells (radix : ℕ) : List ℕ → List ℕ → Type 0 where
  end : Spells radix [] []
  underscore :
      {b : ℕ} {bs ds : List ℕ} → (b == b'_') ≡ true → Spells radix bs ds → Spells radix (b ∷ bs) ds
  digit :
      {b d : ℕ} {bs ds : List ℕ}
      → (b == b'_') ≡ false
      → to_digit b radix ≡ some d
      → Spells radix bs ds
      → Spells radix (b ∷ bs) (d ∷ ds)

-- The number that digits stand for, each weighed by its position.
unfoldable pub value : ℕ → List ℕ → ℕ
value radix [] = 0
value radix (d ∷ ds) = d * radix ^ length ds + value radix ds

-- The flag `saw_digit` after digits.
abbrev pub seen : Bool → List ℕ → Bool
seen b [] = b
seen b (d ∷ ds) = true

seen-true : (ds : List ℕ) → seen true ds ≡ true
seen-true [] = refl
seen-true (d ∷ ds) = refl

checked_step :
    (acc radix d : ℕ)
    → 1 ≤ radix
    → and_then (checked_mul acc radix) (λ v. checked_add v d)
      ≡ (if ltb (acc * radix + d) (2 ^ 64) then some (acc * radix + d) else none)
unfolding checked_mul checked_add
checked_step acc radix d h = ground arith

-- One more digit in front.
shift_acc :
    (acc radix d k v : ℕ)
    → acc * radix ^ suc k + (d * radix ^ k + v) ≡ (acc * radix + d) * radix ^ k + v
shift_acc acc radix d k v =
    let unfolded : radix ^ suc k ≡ radix ^ k * radix = pow-suc radix k in
    let spread : acc * radix ^ suc k ≡ acc * (radix ^ k * radix) =
      ap (λ (t : ℕ). acc * t) unfolded in
    omega arith

le-acc : (a radix k v : ℕ) → 1 ≤ radix → a ≤ a * radix ^ k + v
le-acc a radix k v pos = grind (arith, one-le-pow k radix pos)

ltb_iff : (a b : ℕ) → (ltb a b ≡ true) ↔ (a < b)
ltb_iff a b = ground arith

module _ (radix : ℕ) (input : Text) (pos : 1 ≤ radix) where
  scan_byte-underscore : (b : ℕ) (s : Scan) → (b == b'_') ≡ true → scan_byte radix input s b ≡ ok s
  unfolding scan_byte
  scan_byte-underscore b s e = rw e

  scan_byte-digit :
      (b d : ℕ) (s : Scan)
      → (b == b'_') ≡ false
      → to_digit b radix ≡ some d
      → scan_byte radix input s b ≡ (
          if ltb (s.acc * radix + d) (2 ^ 64)
          then ok (record { acc = s.acc * radix + d; saw_digit = true })
          else err (integer_overflow input))
  unfolding scan_byte
  scan_byte-digit b d s e f = ground (arith, checked_step s.acc radix d pos)

  scan_byte-bad :
      (b : ℕ) (s : Scan) {t : Scan}
      → (b == b'_') ≡ false
      → to_digit b radix ≡ none
      → scan_byte radix input s b ≢ ok t
  unfolding scan_byte
  scan_byte-bad b s e f = ground arith

  -- The loop computes the number spelled, if it fits 64 bits.
  pub scan_bytes-fits :
      {bs ds : List ℕ} (s : Scan)
      → Spells radix bs ds
      → s.acc * radix ^ length ds + value radix ds < 2 ^ 64
      → scan_bytes radix input s bs
        ≡ ok (record {
          acc = s.acc * radix ^ length ds + value radix ds;
          saw_digit = seen s.saw_digit ds;
        })
  unfolding scan_bytes value
  scan_bytes-fits s end h =
      let whole : s.acc * radix ^ length {A = ℕ} [] + 0 ≡ s.acc =
        rw (pow-zero radix) (omega arith) in
      rw whole
  scan_bytes-fits s (underscore skip t) h =
      rw (scan_byte-underscore _ s skip) (scan_bytes-fits s t h)
  scan_bytes-fits s (digit {b} {d} {bs} {ds} e f t) h =
      let total = shift_acc s.acc radix d (length ds) (value radix ds) in
      let room : s.acc * radix + d < 2 ^ 64 =
        lt_of_le_of_lt (le-acc (s.acc * radix + d) radix (length ds) (value radix ds) pos)
          (rw total at h) in
      let next : Scan = record { acc = s.acc * radix + d; saw_digit = true } in
      rw (scan_byte-digit b d s e f, (ltb_iff _ _).1 room)
        (scan_bytes-fits next t (rw total at h) ∙ rw (total, seen-true ds))

  -- It refuses a number that does not fit.
  pub scan_bytes-overflow :
      {bs ds : List ℕ} (s : Scan)
      → Spells radix bs ds
      → s.acc < 2 ^ 64
      → 2 ^ 64 ≤ s.acc * radix ^ length ds + value radix ds
      → scan_bytes radix input s bs ≡ err (integer_overflow input)
  unfolding scan_bytes value
  scan_bytes-overflow s end small h =
      let whole : s.acc * radix ^ length {A = ℕ} [] + 0 ≡ s.acc =
        rw (pow-zero radix) (omega arith) in
      absurd (omega arith)
  scan_bytes-overflow s (underscore skip t) small h =
      rw (scan_byte-underscore _ s skip) (scan_bytes-overflow s t small h)
  scan_bytes-overflow s (digit {b} {d} {bs} {ds} e f t) small h =
      let total = shift_acc s.acc radix d (length ds) (value radix ds) in
      let next : Scan = record { acc = s.acc * radix + d; saw_digit = true } in
      elim (Bool-cases (ltb (s.acc * radix + d) (2 ^ 64))) [
        | inl room ↦
            rw (scan_byte-digit b d s e f, room)
              (scan_bytes-overflow next t ((ltb_iff _ _).0 room) (rw total at h))
        | inr full ↦ rw (scan_byte-digit b d s e f, full)
      ]

  -- It accepts nothing but digits and underscores.
  pub scan_bytes-Spells :
      (bs : List ℕ) (s : Scan) {t : Scan}
      → scan_bytes radix input s bs ≡ ok t
      → (ds : List ℕ) × Spells radix bs ds
  unfolding scan_bytes
  scan_bytes-Spells [] s h = ([], end)
  scan_bytes-Spells (b ∷ bs) s h =
      let (next, first, later) = >>=-eq-ok (scan_byte radix input s b) _ h in
      let (ds, t) = scan_bytes-Spells bs next later in
      elim (Bool-cases (b == b'_')) [
        | inl skip ↦ (ds, underscore skip t)
        | inr other ↦ elim (Option-cases (to_digit b radix)) [
          | inl bad ↦ absurd (scan_byte-bad b s other bad first)
          | inr (d, good) ↦ (d ∷ ds, digit other good t)
        ]
      ]
