-- ===== src/Bits.antt =====
-- Unsigned machine words as native numbers, and the digit of a number at a bit position.
-- Models the operators `!`, `<<`, `>>` of Rust's `u32` and `u64`; `&` and `|` are native.
mod Step
pub mod Digit
pub mod Fields
use mmreg.Prelude.{ℕ, zero, suc, ◌+◌, ◌-◌, ◌*◌, ◌/◌, ◌%◌, ◌^◌}

-- The digit of `n` at position `i`: 0 or 1.
unfoldable pub test_bit : ℕ → ℕ → ℕ
test_bit zero n = n % 2
test_bit (suc i) n = test_bit i (n / 2)

-- `u32::MAX` and `u64::MAX`.
abbrev pub u32_max : ℕ
u32_max = 2 ^ 32 - 1

abbrev pub u64_max : ℕ
u64_max = 2 ^ 64 - 1

-- `!x` of a `w`-bit word.
abbrev pub complement : ℕ → ℕ → ℕ
complement w x = 2 ^ w - 1 - x

-- `x << k` of a `w`-bit word, for `k < w`.
abbrev pub shift_left : ℕ → ℕ → ℕ → ℕ
shift_left w x k = x * 2 ^ k % 2 ^ w

-- `x >> k`.
abbrev pub shift_right : ℕ → ℕ → ℕ
shift_right x k = x / 2 ^ k
