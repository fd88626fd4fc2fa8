-- ===== src/Bits/Fields.antt =====
-- Bit fields: masks of consecutive ones, extraction and insertion of a field, page rounding.
use Prim.Native.Nat.{bit_and-bitwise, bit_or-bitwise}
use native.Mathlib.Decide.{dec_lt}
use native.Mathlib.Nat.{
  pow-zero, add-zero, lt_of_le_of_lt, mul-lt-mul_of_pos_right, pow-le-pow_right, div-mul-le_self,
  div-lt_iff_lt-mul, pow-succ', div-add-mod, mul-add-mod_self_left, div-div-eq-div-mul, pow-suc,
  one-le-pow, mod-lt, mod-eq_of_lt,
}
use mmreg.Prelude.{
  ℕ, zero, suc, ◌+◌, ◌-◌, ◌*◌, ◌/◌, ◌%◌, ◌^◌, ◌≤◌, ◌<◌, min, bit_and, bit_or, ◌≡◌, sym, ap, ◌∙◌,
  arith,
}
use mmreg.Bits.Step.{bit_and-halve, bit_or-halve}
use mmreg.Bits.{test_bit, complement}
use mmreg.Bits.Digit.{test_bit-le, test_bit-and, test_bit-complement, test_bit-above, test_bit_ext}

-- `x >> k` moves every digit down by `k`.
pub test_bit-shift_right : (k i x : ℕ) → test_bit i (x / 2 ^ k) ≡ test_bit (k + i) x
unfolding test_bit
test_bit-shift_right zero i x =
    let whole : x / 2 ^ 0 ≡ x = omega arith in
    let here : 0 + i ≡ i = omega arith in rw (whole, here)
test_bit-shift_right (suc k) i x =
    let next : suc k + i ≡ suc (k + i) = omega arith in
    let halved : x / 2 ^ suc k ≡ x / 2 / 2 ^ k =
      rw (pow-succ' 2 k) (sym (div-div-eq-div-mul x 2 (2 ^ k))) in
    rw (next, halved) (test_bit-shift_right k i (x / 2))

-- `x * 2 ^ k` has zeros below `k`.
pub test_bit-times_below : (k i x : ℕ) → i < k → test_bit i (x * 2 ^ k) ≡ 0
unfolding test_bit
test_bit-times_below zero i x h = absurd (omega arith)
test_bit-times_below (suc k) zero x h =
    omega (arith, pow-suc 2 k, ap (λ (t : ℕ). x * t) (pow-suc 2 k))
test_bit-times_below (suc k) (suc i) x h =
    let half : x * 2 ^ suc k / 2 ≡ x * 2 ^ k = omega (arith, ap (λ (t : ℕ). x * t) (pow-suc 2 k)) in
    rw half (test_bit-times_below k i x (omega arith))

pub test_bit-times : (k i x : ℕ) → test_bit (k + i) (x * 2 ^ k) ≡ test_bit i x
unfolding test_bit
test_bit-times zero i x =
    let whole : x * 2 ^ 0 ≡ x = omega arith in
    let here : 0 + i ≡ i = omega arith in rw (whole, here)
test_bit-times (suc k) i x =
    let next : suc k + i ≡ suc (k + i) = omega arith in
    let half : x * 2 ^ suc k / 2 ≡ x * 2 ^ k = omega (arith, ap (λ (t : ℕ). x * t) (pow-suc 2 k)) in
    rw next (ap (test_bit (k + i)) half ∙ test_bit-times k i x)

-- The last digit, and the half, of a remainder by an even number.
mod-double : (x p : ℕ) → 0 < p → (d : ℕ) → d ≡ p * 2 → (x % d % 2 ≡ x % 2) × (x % d / 2 ≡ x / 2 % p)
mod-double x p pos d e =
    let q = x / d in
    let cut : d * q + x % d ≡ x = div-add-mod x d in
    let twice : d * q ≡ 2 * (p * q) = ap (λ (t : ℕ). t * q) e ∙ omega arith in
    let small : x % d < d = mod-lt x (omega arith) in
    let half : x / 2 ≡ p * q + x % d / 2 = omega arith in
    (
      omega arith,
      sym (ap (λ (t : ℕ). t % p) half ∙ mul-add-mod_self_left p q _ ∙ mod-eq_of_lt (omega arith)),
    )

-- A remainder by `2 ^ w` keeps the digits below `w`.
pub test_bit-mod : (w i x : ℕ) → i < w → test_bit i (x % 2 ^ w) ≡ test_bit i x
unfolding test_bit
test_bit-mod zero i x h = absurd (omega arith)
test_bit-mod (suc w) zero x h =
    (mod-double x (2 ^ w) (one-le-pow w 2 (omega arith)) (2 ^ suc w) (pow-suc 2 w)).0
test_bit-mod (suc w) (suc i) x h =
    let half : x % 2 ^ suc w / 2 ≡ x / 2 % 2 ^ w =
      (mod-double x (2 ^ w) (one-le-pow w 2 (omega arith)) (2 ^ suc w) (pow-suc 2 w)).1 in
    rw half (test_bit-mod w i (x / 2) (omega arith))

-- Ones below `w`.
pub test_bit-ones : (w i : ℕ) → i < w → test_bit i (2 ^ w - 1) ≡ 1
unfolding test_bit
test_bit-ones zero i h = absurd (omega arith)
test_bit-ones (suc w) zero h = omega (arith, pow-suc 2 w, one-le-pow w 2)
test_bit-ones (suc w) (suc i) h =
    let half : (2 ^ suc w - 1) / 2 ≡ 2 ^ w - 1 = omega (arith, pow-suc 2 w, one-le-pow w 2) in
    rw half (test_bit-ones w i (omega arith))

bit_and_zero-left : (b : ℕ) → bit_and 0 b ≡ 0
bit_and_zero-left b = bit_and-bitwise 0 b

-- Both words bound their `&`.
pub bit_and-le : (w a b : ℕ) → a < 2 ^ w → bit_and a b ≤ a
bit_and-le zero a b h =
    let none : a ≡ 0 = omega arith in rw none (omega (arith, bit_and_zero-left b))
bit_and-le (suc w) a b h =
    omega (arith, bit_and-halve a b, bit_and-le w (a / 2) (b / 2) (omega (arith, pow-suc 2 w)))

pub bit_and-le_right : (w a b : ℕ) → a < 2 ^ w → bit_and a b ≤ b
bit_and-le_right zero a b h =
    let none : a ≡ 0 = omega arith in rw none (omega (arith, bit_and_zero-left b))
bit_and-le_right (suc w) a b h =
    omega
      (arith, bit_and-halve a b, bit_and-le_right w (a / 2) (b / 2) (omega (arith, pow-suc 2 w)))

-- `|` of two words is a word.
pub bit_or-lt : (w a b : ℕ) → a < 2 ^ w → b < 2 ^ w → bit_or a b < 2 ^ w
bit_or-lt zero a b p q =
    let none : a ≡ 0 = omega arith in
    let none' : b ≡ 0 = omega arith in rw (none, none') (omega arith)
bit_or-lt (suc w) a b p q = omega (
  arith,
  pow-suc 2 w,
  bit_or-halve a b,
  bit_or-lt w (a / 2) (b / 2) (omega (arith, pow-suc 2 w)) (omega (arith, pow-suc 2 w)),
)

-- `x & !(2 ^ k - 1)` of a word rounds down to a multiple of `2 ^ k`.
pub bit_and-complement_ones :
    (w k x : ℕ) → k ≤ w → x < 2 ^ w → bit_and x (complement w (2 ^ k - 1)) ≡ x / 2 ^ k * 2 ^ k
bit_and-complement_ones w k x h fits =
    let room : 2 ^ k ≤ 2 ^ w = pow-le-pow_right (omega arith) h in
    test_bit_ext w _ _ (omega (arith, bit_and-le w x (complement w (2 ^ k - 1)) fits))
      (omega (arith, div-mul-le_self x (2 ^ k)))
      (λ i lt. test_bit-and i x _ ∙ digit room i lt (dec_lt i k))
  where
    digit :
        2 ^ k ≤ 2 ^ w
        → (i : ℕ) → i < w
        → Dec (i < k)
        → min (test_bit i x) (test_bit i (complement w (2 ^ k - 1)))
          ≡ test_bit i (x / 2 ^ k * 2 ^ k)
    digit room i lt (yes below) = omega (
      arith,
      test_bit-complement w i (2 ^ k - 1) lt (omega (arith, one-le-pow k 2 (omega arith))),
      test_bit-ones k i below,
      test_bit-times_below k i (x / 2 ^ k) below,
    )
    digit room i lt (no above) =
        let there : i ≡ k + (i - k) = omega arith in
        omega (
          arith,
          test_bit-le i x,
          test_bit-complement w i (2 ^ k - 1) lt (omega (arith, one-le-pow k 2 (omega arith))),
          test_bit-above k i (2 ^ k - 1) (omega arith)
              (omega (arith, one-le-pow k 2 (omega arith))),
          ap (λ (t : ℕ). test_bit t (x / 2 ^ k * 2 ^ k)) there,
          ap (λ (t : ℕ). test_bit t x) there,
          test_bit-times k (i - k) (x / 2 ^ k),
          test_bit-shift_right k (i - k) x,
        )

-- `(x & m) >> l`, for the mask `m` of `n` ones at `l`, is the field of `n` digits at `l`.
pub bit_and-field :
    (w l n x : ℕ) → x < 2 ^ w → bit_and x ((2 ^ n - 1) * 2 ^ l) / 2 ^ l ≡ x / 2 ^ l % 2 ^ n
bit_and-field w l n x fits =
    let ones : 1 ≤ 2 ^ n = one-le-pow n 2 (omega arith) in
    test_bit_ext n _ _
      ((div-lt_iff_lt-mul (one-le-pow l 2 (omega arith))).1 (
        lt_of_le_of_lt (bit_and-le_right w x _ fits)
          (mul-lt-mul_of_pos_right (omega arith) (one-le-pow l 2 (omega arith)))))
      (mod-lt _ ones)
      (λ i lt. omega (
        arith,
        test_bit-shift_right l i (bit_and x ((2 ^ n - 1) * 2 ^ l)),
        test_bit-and (l + i) x ((2 ^ n - 1) * 2 ^ l),
        test_bit-times l i (2 ^ n - 1),
        test_bit-ones n i lt,
        test_bit-le (l + i) x,
        test_bit-mod n i (x / 2 ^ l) lt,
        test_bit-shift_right l i x,
      ))

pub two_pow-add : (n l : ℕ) → 2 ^ n * 2 ^ l ≡ 2 ^ (n + l)
two_pow-add n zero = rw (pow-zero 2) (omega (arith, ap (λ (t : ℕ). 2 ^ t) (add-zero n)))
two_pow-add n (suc l) =
    let next : n + suc l ≡ suc (n + l) = omega arith in
    rw (next, pow-suc 2 l, pow-suc 2 (n + l)) (omega (arith, two_pow-add n l))

bit_or-zero_below : (n a : ℕ) → a ≤ n → bit_or a 0 ≡ a
bit_or-zero_below n zero h = omega (arith, bit_or-bitwise 0 0)
bit_or-zero_below zero (suc a) h = absurd (omega arith)
bit_or-zero_below (suc n) (suc a) h =
    omega (arith, bit_or-halve (suc a) 0, bit_or-zero_below n (suc a / 2) (omega arith))

-- Below a multiple of `2 ^ k`, `|` is `+`.
pub bit_or-shifted : (k a w : ℕ) → w < 2 ^ k → bit_or (a * 2 ^ k) w ≡ a * 2 ^ k + w
bit_or-shifted zero a w h =
    let none_left : w ≡ 0 = omega arith in
    let whole : a * 2 ^ 0 ≡ a = omega arith in
    rw (none_left, whole) (bit_or-zero_below a a (omega arith) ∙ omega arith)
bit_or-shifted (suc k) a w h =
    let twice : a * 2 ^ suc k ≡ 2 * (a * 2 ^ k) =
      omega (arith, ap (λ (t : ℕ). a * t) (pow-suc 2 k)) in
    let half : a * 2 ^ suc k / 2 ≡ a * 2 ^ k = omega (arith, twice) in
    let ih : bit_or (a * 2 ^ k) (w / 2) ≡ a * 2 ^ k + w / 2 =
      bit_or-shifted k a (w / 2) (omega (arith, pow-suc 2 k)) in
    let halves : bit_or (a * 2 ^ suc k / 2) (w / 2) ≡ a * 2 ^ k + w / 2 = rw half ih in
    omega (arith, twice, bit_or-halve (a * 2 ^ suc k) w, halves)
