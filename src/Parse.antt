-- ===== src/Parse.antt =====
-- Integer parsing: src/parse.rs. A text is its scalar values; the loop runs over its UTF-8 bytes.
-- The error texts are the constructors of `IntMessage`, with one for a panic of `to_digit`.
pub mod Scanning
pub mod Prefix
pub mod Value
pub mod Reject
use mmreg.Message.{
  IntMessage, invalid_integer, invalid_digit, integer_overflow, no_digits, exceeds_32_bits,
  radix_panic,
}
use mmreg.Prelude.{
  ℕ, ◌^◌, Bool, true, false, ◌||◌, not, List, [], ◌∷◌, Option, none, some, ltb, ◌==◌, if◌then◌else◌,
  Text, Result, ok, err, ◌>>=◌, ◌>>◌, ok_or, refuse, and_then,
}
use mmreg.Strings.{trim, strip_prefix, bytes, is_radix, to_digit, checked_mul, checked_add}

-- The variables of the digit loop.
pub record Scan : Type 0 where
  pub acc : ℕ
  pub saw_digit : Bool

-- The body of `for b in digits.bytes()`.
pub scan_byte : ℕ → Text → Scan → ℕ → Result IntMessage Scan
unfolding to_digit checked_mul checked_add
scan_byte radix input s b = if b == b'_' then ok s else do
  refuse (not (is_radix radix)) (radix_panic radix)
  digit ← ok_or (to_digit b radix) (invalid_digit b input)
  acc ←
      ok_or (and_then (checked_mul s.acc radix) (λ v. checked_add v digit)) (integer_overflow input)
  ok (record { acc = acc; saw_digit = true })

pub scan_bytes : ℕ → Text → Scan → List ℕ → Result IntMessage Scan
unfolding scan_byte
scan_bytes radix input s [] = ok s
scan_bytes radix input s (b ∷ bs) = do
  next ← scan_byte radix input s b
  scan_bytes radix input next bs

-- The prefix, if any, decides the radix.
unfoldable pub split_prefix : Text → ℕ → Text × ℕ
unfolding strip_prefix
split_prefix t default_radix = elim (strip_prefix (b'0' ∷ b'x' ∷ []) t) [
  | some hex ↦ (hex, 16)
  | none ↦ elim (strip_prefix (b'0' ∷ b'X' ∷ []) t) [
    | some hex ↦ (hex, 16)
    | none ↦ elim (strip_prefix (b'0' ∷ b'd' ∷ []) t) [
      | some dec ↦ (dec, 10)
      | none ↦ elim (strip_prefix (b'0' ∷ b'D' ∷ []) t) [
        | some dec ↦ (dec, 10)
        | none ↦ (t, default_radix)
      ]
    ]
  ]
]

-- `trimmed.is_empty()` and the two signs.
unfoldable pub refused_start : Text → Bool
refused_start [] = true
refused_start (c ∷ cs) = c == b'+' || c == b'-'

pub finish_scan : Text → Scan → Result IntMessage ℕ
finish_scan input s = if not s.saw_digit then err (no_digits input) else ok s.acc

unfoldable pub parse_u64_radix : Text → ℕ → Result IntMessage ℕ
unfolding trim split_prefix refused_start scan_bytes finish_scan bytes
parse_u64_radix input default_radix = do
  let trimmed = trim input
  refuse (refused_start trimmed) (invalid_integer input)
  let (digits, radix) = split_prefix trimmed default_radix
  s ← scan_bytes radix input (record { acc = 0; saw_digit = false }) (bytes digits)
  finish_scan input s

unfoldable pub parse_u32_radix : Text → ℕ → Result IntMessage ℕ
unfolding parse_u64_radix
parse_u32_radix input default_radix = do
  val ← parse_u64_radix input default_radix
  if ltb val (2 ^ 32) then ok val else err (exceeds_32_bits input)
