-- ===== src/Register/Mask.antt =====
-- The mask of a bit field, digit by digit, and the field that it selects.
use native.Mathlib.Nat.{one-le-pow, pow-le-pow_right, div-le_self}
use native.Mathlib.Decide.{dec_lt}
use mmreg.Bits.{test_bit, u32_max, shift_left, shift_right}
use mmreg.Bits.Digit.{test_bit-zero, test_bit-and, test_bit-above, test_bit_ext}
use mmreg.Bits.Fields.{
  test_bit-shift_right, test_bit-times_below, test_bit-times, test_bit-mod, test_bit-ones,
  bit_and-le, bit_and-field, two_pow-add,
}
use mmreg.Prelude.{
  ℕ, ◌+◌, ◌-◌, ◌*◌, ◌/◌, ◌%◌, ◌^◌, ◌≤◌, ◌<◌, bit_and, ◌≡◌, ◌≢◌, ◌↔◌, ◌⊎◌, inl, inr, ap, ◌∙◌, arith,
}
use mmreg.Register.{SubRegister, mask}

-- The range `[msb:lsb]` lies in a 32-bit register.
pub record IsRange (s : SubRegister) : Type 0 where
  pub ordered : s.lsb ≤ s.msb
  pub inside : s.msb ≤ 31

-- The number of bits of a field.
abbrev pub field_width : SubRegister → ℕ
field_width s = s.msb + 1 - s.lsb

ones_right : (k i : ℕ) → k ≤ 31 → i ≤ 31 - k → test_bit i (u32_max / 2 ^ k) ≡ 1
ones_right k i h g = test_bit-shift_right k i u32_max ∙ test_bit-ones 32 (k + i) (omega arith)

zeros_right : (k i : ℕ) → k ≤ 31 → 31 - k < i → test_bit i (u32_max / 2 ^ k) ≡ 0
zeros_right k i h g =
    test_bit-shift_right k i u32_max ∙ test_bit-above 32 (k + i) u32_max (omega arith) (omega arith)

ones_left : (l i : ℕ) → l ≤ i → i < 32 → test_bit i (shift_left 32 u32_max l) ≡ 1
ones_left l i h g =
    let there : i ≡ l + (i - l) = omega arith in
    test_bit-mod 32 i (u32_max * 2 ^ l) g
    ∙ ap (λ t. test_bit t (u32_max * 2 ^ l)) there
    ∙ test_bit-times l (i - l) u32_max
    ∙ test_bit-ones 32 (i - l) (omega arith)

zeros_left : (l i : ℕ) → i < l → i < 32 → test_bit i (shift_left 32 u32_max l) ≡ 0
zeros_left l i h g = test_bit-mod 32 i (u32_max * 2 ^ l) g ∙ test_bit-times_below l i u32_max h

-- The digits of a run of `n` ones at `l`.
run_inside : (l n i : ℕ) → l ≤ i → i < l + n → test_bit i ((2 ^ n - 1) * 2 ^ l) ≡ 1
run_inside l n i h g =
    let there : i ≡ l + (i - l) = omega arith in
    ap (λ t. test_bit t ((2 ^ n - 1) * 2 ^ l)) there
    ∙ test_bit-times l (i - l) (2 ^ n - 1)
    ∙ test_bit-ones n (i - l) (omega arith)

run_above : (l n i : ℕ) → l + n ≤ i → test_bit i ((2 ^ n - 1) * 2 ^ l) ≡ 0
run_above l n i h =
    let there : i ≡ l + (i - l) = omega arith in
    ap (λ t. test_bit t ((2 ^ n - 1) * 2 ^ l)) there
    ∙ test_bit-times l (i - l) (2 ^ n - 1)
    ∙ test_bit-above n (i - l) (2 ^ n - 1) (omega arith)
        (omega (arith, one-le-pow n 2 (omega arith)))

run-lt : (w l n : ℕ) → l + n ≤ w → (2 ^ n - 1) * 2 ^ l < 2 ^ w
run-lt w l n h =
    let whole : 2 ^ n ≡ (2 ^ n - 1) + 1 = omega (arith, one-le-pow n 2 (omega arith)) in
    omega (
      arith,
      ap (λ (t : ℕ). t * 2 ^ l) whole,
      two_pow-add n l,
      one-le-pow n 2 (omega arith),
      one-le-pow l 2 (omega arith),
      pow-le-pow_right {n = 2} (omega arith) {i = n + l} {j = w} (omega arith),
    )

module _ (s : SubRegister) (v : IsRange s) where
  open v use {ordered, inside}

  abbrev shifted : ℕ
  shifted = bit_and (shift_right u32_max (31 - s.msb)) (shift_left 32 u32_max s.lsb)

  mask-shifted : mask s ≡ shifted
  unfolding mask
  mask-shifted = ground arith

  shifted_digit :
      (i : ℕ) → i < 32 → test_bit i shifted ≡ test_bit i ((2 ^ field_width s - 1) * 2 ^ s.lsb)
  shifted_digit i lt =
      test_bit-and i (shift_right u32_max (31 - s.msb)) (shift_left 32 u32_max s.lsb)
      ∙ elim (dec_lt i s.lsb) [
        | yes below ↦ omega (
          arith,
          zeros_left s.lsb i below lt,
          test_bit-times_below s.lsb i (2 ^ field_width s - 1) below,
        )
        | no above ↦ elim (dec_lt s.msb i) [
          | yes over ↦ omega (
            arith,
            zeros_right (31 - s.msb) i (omega arith) (omega arith),
            run_above s.lsb (field_width s) i (omega arith),
          )
          | no within ↦ omega (
            arith,
            ones_left s.lsb i (omega arith) lt,
            ones_right (31 - s.msb) i (omega arith) (omega arith),
            run_inside s.lsb (field_width s) i (omega arith) (omega arith),
          )
        ]
      ]

  -- The mask of a valid range is a run of ones from `lsb` to `msb`.
  pub mask_run : mask s ≡ (2 ^ field_width s - 1) * 2 ^ s.lsb
  mask_run =
      mask-shifted
      ∙ test_bit_ext 32 _ _
          (omega (
            arith,
            div-le_self u32_max (2 ^ (31 - s.msb)),
            bit_and-le 32 (shift_right u32_max (31 - s.msb)) (shift_left 32 u32_max s.lsb)
                (omega (arith, div-le_self u32_max (2 ^ (31 - s.msb)))),
          ))
          (run-lt 32 s.lsb (field_width s) (omega arith)) shifted_digit

  pub mask-lt : mask s < 2 ^ 32
  mask-lt = rw mask_run (run-lt 32 s.lsb (field_width s) (omega arith))

  -- For a valid range and a value below 2^32, the value masked and shifted down by `lsb` is the
  -- value's bits from `lsb` to `msb`.
  mask_extracts :
      (x : ℕ)
      → x < 2 ^ 32
      → shift_right (bit_and x (mask s)) s.lsb ≡ x / 2 ^ s.lsb % 2 ^ field_width s
  mask_extracts x h = rw mask_run (bit_and-field 32 s.lsb (field_width s) x h)

  pub mask_digit_iff : (i : ℕ) → (test_bit i (mask s) ≡ 1) ↔ ((s.lsb ≤ i) × (i ≤ s.msb))
  mask_digit_iff i = rw mask_run (elim (dec_lt i s.lsb) [
    | yes below ↦ omega (arith, test_bit-times_below s.lsb i (2 ^ field_width s - 1) below)
    | no above ↦ elim (dec_lt s.msb i) [
      | yes over ↦ omega (arith, run_above s.lsb (field_width s) i (omega arith))
      | no within ↦ omega (arith, run_inside s.lsb (field_width s) i (omega arith) (omega arith))
    ]
  ])

  mask-ne-zero : mask s ≢ 0
  mask-ne-zero e =
      let one : test_bit s.lsb (mask s) ≡ 1 = (mask_digit_iff s.lsb).1 (omega arith) in
      absurd (omega (arith, one, ap (test_bit s.lsb) e, test_bit-zero s.lsb))

pub mask_invalid : (s : SubRegister) → (s.msb < s.lsb) ⊎ (31 < s.msb) → mask s ≡ 0
unfolding mask
mask_invalid s h = ground arith

pub IsRange-cases : (s : SubRegister) → IsRange s ⊎ ((s.msb < s.lsb) ⊎ (31 < s.msb))
IsRange-cases s = elim (dec_lt s.msb s.lsb) [
  | yes a ↦ inr (inl a)
  | no a ↦ elim (dec_lt 31 s.msb) [
    | yes b ↦ inr (inr b)
    | no b ↦ inl (record { ordered = omega arith; inside = omega arith })
  ]
]

-- The mask has a one at exactly the positions of a valid range, and is zero exactly for an invalid
-- range: one that is reversed or ends above bit 31.
pub mask_lem :
    (s : SubRegister) (i : ℕ)
    → ((test_bit i (mask s) ≡ 1) ↔ (IsRange s × (s.lsb ≤ i) × (i ≤ s.msb)))
      × ((mask s ≡ 0) ↔ ((s.msb < s.lsb) ⊎ (31 < s.msb)))
mask_lem s i = elim (IsRange-cases s) [
  | inl v ↦
      let digit = mask_digit_iff s v i in
      (
        (λ h. (v, (digit.0 h).0, (digit.0 h).1), λ h. digit.1 (h.1, h.2)),
        (λ e. absurd (mask-ne-zero s v e), mask_invalid s),
      )
  | inr bad ↦
      let none = mask_invalid s bad in
      (
        (
          λ h. absurd (omega (arith, h, ap (test_bit i) none, test_bit-zero i)),
          λ h. absurd (omega (arith, h.0.ordered, h.0.inside)),
        ),
        (λ _. bad, λ _. none),
      )
]
