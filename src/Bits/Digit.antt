-- ===== src/Bits/Digit.antt =====
-- The digits of the results of the word operators, and equality of words from their digits.
use native.Mathlib.Nat.{pow-suc, one-le-pow}
use mmreg.Prelude.{
  ℕ, zero, suc, ◌-◌, ◌/◌, ◌^◌, ◌≤◌, ◌<◌, min, max, bit_and, bit_or, ◌≡◌, refl, arith,
}
use mmreg.Bits.{test_bit, complement}
use mmreg.Bits.Step.{bit_and-halve, bit_or-halve}

pub test_bit-le : (i n : ℕ) → test_bit i n ≤ 1
unfolding test_bit
test_bit-le zero n = omega arith
test_bit-le (suc i) n = test_bit-le i (n / 2)

pub test_bit-zero : (i : ℕ) → test_bit i 0 ≡ 0
unfolding test_bit
test_bit-zero zero = refl
test_bit-zero (suc i) = test_bit-zero i

pub test_bit-and : (i a b : ℕ) → test_bit i (bit_and a b) ≡ min (test_bit i a) (test_bit i b)
unfolding test_bit
test_bit-and zero a b = omega (arith, bit_and-halve a b)
test_bit-and (suc i) a b =
    let half : bit_and a b / 2 ≡ bit_and (a / 2) (b / 2) = omega (arith, bit_and-halve a b) in
    rw half (test_bit-and i (a / 2) (b / 2))

pub test_bit-or : (i a b : ℕ) → test_bit i (bit_or a b) ≡ max (test_bit i a) (test_bit i b)
unfolding test_bit
test_bit-or zero a b = omega (arith, bit_or-halve a b)
test_bit-or (suc i) a b =
    let half : bit_or a b / 2 ≡ bit_or (a / 2) (b / 2) = omega (arith, bit_or-halve a b) in
    rw half (test_bit-or i (a / 2) (b / 2))

-- Complement flips every digit of the word.
pub test_bit-complement :
    (w i a : ℕ) → i < w → a < 2 ^ w → test_bit i (complement w a) ≡ 1 - test_bit i a
unfolding test_bit
test_bit-complement zero i a h fits = absurd (omega arith)
test_bit-complement (suc w) zero a h fits = omega (arith, pow-suc 2 w, one-le-pow w 2)
test_bit-complement (suc w) (suc i) a h fits =
    let half : complement (suc w) a / 2 ≡ complement w (a / 2) =
      omega (arith, pow-suc 2 w, one-le-pow w 2) in
    rw half (test_bit-complement w i (a / 2) (omega arith) (omega (arith, pow-suc 2 w)))

-- A number below `2 ^ w` has no digit from `w` on.
pub test_bit-above : (w i a : ℕ) → w ≤ i → a < 2 ^ w → test_bit i a ≡ 0
unfolding test_bit
test_bit-above zero i a h fits = let none : a ≡ 0 = omega arith in rw none (test_bit-zero i)
test_bit-above (suc w) zero a h fits = absurd (omega arith)
test_bit-above (suc w) (suc i) a h fits =
    test_bit-above w i (a / 2) (omega arith) (omega (arith, pow-suc 2 w))

-- Words with the same digits are equal.
pub test_bit_ext :
    (w a b : ℕ) → a < 2 ^ w → b < 2 ^ w → ((i : ℕ) → i < w → test_bit i a ≡ test_bit i b) → a ≡ b
unfolding test_bit
test_bit_ext zero a b p q h = omega arith
test_bit_ext (suc w) a b p q h = omega (
  arith,
  h 0 (omega arith),
  test_bit_ext w (a / 2) (b / 2) (omega (arith, pow-suc 2 w)) (omega (arith, pow-suc 2 w))
      (λ i k. h (suc i) (omega arith)),
)
