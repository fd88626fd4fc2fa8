-- ===== src/Bits/Step.antt =====
-- The native `bit_and` and `bit_or` by halves: the lowest digit of a result, and the rest.
use Prim.Native.Nat.{digits, bitwise, bit_and-bitwise, bit_or-bitwise}
use mmreg.Prelude.{
  ℕ, zero, suc, ◌+◌, ◌-◌, ◌*◌, ◌/◌, ◌%◌, ◌≤◌, min, max, bit_and, bit_or, ◌≡◌, refl, sym, ◌∙◌, ap,
  arith,
}

module _ (rest : ℕ → ℕ) (digit : ℕ → ℕ → ℕ) where
  -- One unit of fuel more than the first number needs.
  one_more : (n x y : ℕ) → x ≤ n → digits rest digit (suc n) x y ≡ digits rest digit n x y
  one_more zero zero y h = refl
  one_more (suc n) zero y h = refl
  one_more zero (suc x) y h = absurd (omega arith)
  one_more (suc n) (suc x) y h =
      ap (λ (t : ℕ). t * 2 + digit (suc x % 2) (y % 2))
        (one_more n (suc x / 2) (y / 2) (omega arith))

  -- So any surplus of fuel may be dropped.
  drop_surplus : (k x y : ℕ) → digits rest digit (k + x) x y ≡ bitwise rest digit x y
  drop_surplus zero x y = ap (λ (t : ℕ). digits rest digit t x y) (omega arith)
  drop_surplus (suc k) x y =
      ap (λ (t : ℕ). digits rest digit t x y) {y = suc (k + x)} (omega arith)
      ∙ one_more (k + x) x y (omega arith)
      ∙ drop_surplus k x y

  halve :
      (x y : ℕ)
      → bitwise rest digit (suc x) y
        ≡ bitwise rest digit (suc x / 2) (y / 2) * 2 + digit (suc x % 2) (y % 2)
  halve x y =
      let surplus : x - suc x / 2 + suc x / 2 ≡ x = omega arith in
      ap (λ (t : ℕ). t * 2 + digit (suc x % 2) (y % 2))
        (ap (λ (t : ℕ). digits rest digit t (suc x / 2) (y / 2)) (sym surplus)
          ∙ drop_surplus (x - suc x / 2) (suc x / 2) (y / 2))

pub bit_or-halve : (x y : ℕ) → max (x % 2) (y % 2) + 2 * bit_or (x / 2) (y / 2) ≡ bit_or x y
bit_or-halve zero y = omega (arith, bit_or-bitwise 0 y, bit_or-bitwise 0 (y / 2))
bit_or-halve (suc x) y =
    omega
      (arith, halve (λ t. t) max x y, bit_or-bitwise (suc x) y, bit_or-bitwise (suc x / 2) (y / 2))

pub bit_and-halve : (x y : ℕ) → min (x % 2) (y % 2) + 2 * bit_and (x / 2) (y / 2) ≡ bit_and x y
bit_and-halve zero y = omega (arith, bit_and-bitwise 0 y, bit_and-bitwise 0 (y / 2))
bit_and-halve (suc x) y =
    omega (
      arith,
      halve (λ t. 0) min x y,
      bit_and-bitwise (suc x) y,
      bit_and-bitwise (suc x / 2) (y / 2),
    )
