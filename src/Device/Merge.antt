-- ===== src/Device/Merge.antt =====
-- The word that `Device::update_u32` (src/device.rs) writes, digit by digit and by bit fields.
use native.Mathlib.Decide.{dec_lt}
use native.Mathlib.Nat.{mod-lt, one-le-pow}
use mmreg.Bits.{test_bit, complement, shift_left}
use mmreg.Bits.Digit.{
  test_bit-le, test_bit-and, test_bit-or, test_bit-complement, test_bit_ext, test_bit-above,
}
use mmreg.Bits.Fields.{test_bit-shift_right, test_bit-times, test_bit-mod, bit_and-le, bit_or-lt}
use mmreg.Register.{SubRegister, mask}
use mmreg.Register.Mask.{IsRange, field_width, mask-lt, mask_digit_iff}
use mmreg.Prelude.{
  ℕ, ◌+◌, ◌-◌, ◌*◌, ◌/◌, ◌%◌, ◌^◌, ◌≤◌, ◌<◌, ◌&&◌, leb, bit_and, ◌≡◌, ◌⊎◌, inl, inr, arith, sym, ap,
  ◌∙◌, ◌==◌, if◌then◌else◌, Bool-cases,
}
use mmreg.Device.{merge}

module _ (current mask value : ℕ) (c : current < 2 ^ 32) (k : mask < 2 ^ 32) where
  -- For a current word and a mask below 2^32, each of the 32 digits of the merged word comes from
  -- `value` where the mask has a one, and is kept elsewhere.
  merge_digit :
      (i : ℕ)
      → i < 32
      → test_bit i (merge current mask value)
        ≡ (if test_bit i mask == 1 then test_bit i value else test_bit i current)
  unfolding merge
  merge_digit i h = ground (
    arith,
    test_bit-or i (bit_and current (complement 32 mask)) (bit_and value mask),
    test_bit-and i current (complement 32 mask),
    test_bit-complement 32 i mask h k,
    test_bit-and i value mask,
    test_bit-le i mask,
    test_bit-le i value,
    test_bit-le i current,
  )

  pub merge-lt : value < 2 ^ 32 → merge current mask value < 2 ^ 32
  unfolding merge
  merge-lt v =
      bit_or-lt 32 _ _ (omega (arith, bit_and-le 32 current (complement 32 mask) c))
        (omega (arith, bit_and-le 32 value mask v))

-- The field of a register value.
abbrev pub field_of : SubRegister → ℕ → ℕ
field_of s x = x / 2 ^ s.lsb % 2 ^ field_width s

field_of_digit :
    (s : SubRegister) (x i : ℕ)
    → i < field_width s
    → test_bit i (field_of s x) ≡ test_bit (s.lsb + i) x
field_of_digit s x i h =
    test_bit-mod (field_width s) i (x / 2 ^ s.lsb) h ∙ test_bit-shift_right s.lsb i x

field_of_ext :
    (s : SubRegister) (x y : ℕ)
    → ((i : ℕ) → i < field_width s → test_bit (s.lsb + i) x ≡ test_bit i y)
    → field_of s x ≡ y % 2 ^ field_width s
field_of_ext s x y h =
    let ones = one-le-pow (field_width s) 2 (omega arith) in
    test_bit_ext (field_width s) _ _ (mod-lt _ ones) (mod-lt _ ones)
      (λ i lt. field_of_digit s x i lt ∙ h i lt ∙ sym (test_bit-mod (field_width s) i y lt))

-- Two fields share no bit.
abbrev pub IsDisjoint : SubRegister → SubRegister → Type 0
IsDisjoint s t = (t.msb < s.lsb) ⊎ (s.msb < t.lsb)

module _ (s : SubRegister) (v : IsRange s) (current value : ℕ) (c : current < 2 ^ 32) where
  open v use {ordered, inside}

  abbrev merged : ℕ
  merged = merge current (mask s) (shift_left 32 value s.lsb)

  merged_lt : merged < 2 ^ 32
  merged_lt =
      merge-lt current (mask s) (shift_left 32 value s.lsb) c (mask-lt s v)
        (mod-lt (value * 2 ^ s.lsb) (one-le-pow 32 2 (omega arith)))

  inserted_digit : (i : ℕ) → i < field_width s → test_bit (s.lsb + i) merged ≡ test_bit i value
  inserted_digit i h =
      let one = (mask_digit_iff s v (s.lsb + i)).1 (omega arith) in
      merge_digit current (mask s) (shift_left 32 value s.lsb) c (mask-lt s v) (s.lsb + i)
        (omega arith)
      ∙ rw one (
          test_bit-mod 32 (s.lsb + i) (value * 2 ^ s.lsb) (omega arith)
          ∙ test_bit-times s.lsb i value)

  kept_digit : (i : ℕ) → i < 32 → (i < s.lsb) ⊎ (s.msb < i) → test_bit i merged ≡ test_bit i current
  kept_digit i h out = ground (
    arith,
    merge_digit current (mask s) (shift_left 32 value s.lsb) c (mask-lt s v) i h,
    mask_digit_iff s v i,
  )

  -- The field of the merged word.
  pub field_of-merged : field_of s merged ≡ value % 2 ^ field_width s
  field_of-merged = field_of_ext s merged value inserted_digit

  -- Each bit of the merged word: of the value inside the range, of the current word outside.
  pub digit-merged :
      (i : ℕ)
      → test_bit i merged
        ≡ (if leb s.lsb i && leb i s.msb then test_bit (i - s.lsb) value else test_bit i current)
  digit-merged i = elim (Bool-cases (leb s.lsb i && leb i s.msb)) [
    | inl within ↦
        let bounds : (s.lsb ≤ i) × (i ≤ s.msb) = ground arith in
        let there : i ≡ s.lsb + (i - s.lsb) = omega arith in
        rw within
          (ap (λ (t : ℕ). test_bit t merged) there ∙ inserted_digit (i - s.lsb) (omega arith))
    | inr out ↦ rw out (elim (dec_lt i 32) [
      | yes low ↦ kept_digit i low (ground arith)
      | no high ↦
          test_bit-above 32 i merged (omega arith) merged_lt
          ∙ sym (test_bit-above 32 i current (omega arith) c)
    ])
  ]

  -- For a valid range and a current word below 2^32, merging a value shifted to the range under the
  -- mask of the range puts the low bits of the value in that field, and keeps every field of a valid
  -- range that shares no bit with it.
  pub merge_field :
      (t : SubRegister)
      → IsRange t
      → IsDisjoint s t
      → (field_of s merged ≡ value % 2 ^ field_width s) × (field_of t merged ≡ field_of t current)
  merge_field t u apart = (
    field_of-merged,
    field_of_ext t merged (current / 2 ^ t.lsb) (λ i h.
        kept_digit (t.lsb + i) (omega (arith, u.ordered, u.inside))
          (ground (arith, u.ordered, u.inside))
        ∙ sym (test_bit-shift_right t.lsb i current)),
  )
