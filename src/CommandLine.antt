-- ===== src/CommandLine.antt =====
-- The command line: src/main.rs. What it opens devices with is the parameter `Backend`, as in the
-- code, and the files of safety profiles are a parameter too. The texts it prints are
-- constructors, but for the hexadecimal numbers.
pub mod Operands
pub mod Run
pub mod Request
pub mod Trace
pub mod Hex
pub mod Hardware
pub mod Keeps
pub mod Returns
use mmreg.Error.{MmregError}
use mmreg.Memory.{Width, u8, u16, u32, u64, width_bits, from_bits}
use mmreg.Parse.{parse_u64_radix}
use mmreg.Prelude.{
  ℕ, zero, suc, ◌+◌, ◌-◌, ◌/◌, ◌%◌, ◌^◌, Bool, true, false, ◌&&◌, List, [], ◌∷◌, ◌++◌, Option, none,
  some, ltb, ◌==◌, if◌then◌else◌, Text, codes, text_eq, Result, ok, err, ok_or, and_then,
}
use mmreg.Strings.{trim, bytes, from_str_radix, within}

-- `enum CliTarget`.
pub data CliTarget : Type 0 where
  address : ℕ → CliTarget
  uio : Text → ℕ → CliTarget

-- The texts of errors, most of them with the usage text below.
pub data CliError : Type 0 where
  missing_profile missing_width invalid_width unknown_option unknown_command : Text → CliError
  missing_command missing_address missing_value extra_args : CliError
  invalid_address invalid_offset : Text → CliError
  invalid_value : Text → Width → CliError
  profile_error read_error write_error : MmregError → CliError

-- The texts of successful runs.
pub data Output : Type 0 where
  usage version : Output
  printed : Text → Output
  wrote : Text → CliTarget → Output

-- A digit of `{:X}`.
abbrev pub upper_digit : ℕ → ℕ
upper_digit d = if ltb d 10 then b'0' + d else b'A' + (d - 10)

-- The last `n` hexadecimal digits of a number.
unfoldable pub hex_digits : ℕ → ℕ → Text
hex_digits zero v = []
hex_digits (suc n) v = hex_digits n (v / 16) ++ upper_digit (v % 16) ∷ []

-- The number of hexadecimal digits of a width.
abbrev pub width_digits : Width → ℕ
width_digits u8 = 2
width_digits u16 = 4
width_digits u32 = 8
width_digits u64 = 16

-- `format_hex`.
unfoldable pub format_hex : ℕ → Width → Text
unfolding hex_digits
format_hex v width = b'0' ∷ b'x' ∷ hex_digits (width_digits width) (v % 2 ^ width_bits width)

-- `looks_like_address`.
unfoldable pub looks_like_address : Text → ℕ → Bool
unfolding trim bytes parse_u64_radix
looks_like_address arg default_radix =
    starts_digit (bytes (trim arg))
    && (elim (parse_u64_radix arg default_radix) [ ok v ↦ true | err e ↦ false ])
  where
    starts_digit : List ℕ → Bool
    starts_digit [] = false
    starts_digit (b ∷ bs) = within b'0' b'9' b

-- `parse_width`; the standard library's parser of `u32` takes a plus sign.
unfoldable pub parse_width : Text → Result CliError Width
unfolding trim from_str_radix from_bits
parse_width raw =
    ok_or
      (and_then (from_str_radix (trim raw) 10) (λ v. if ltb v (2 ^ 32) then from_bits v else none))
      (invalid_width raw)

-- `parse_value`: a number that fits the width.
unfoldable pub parse_value : Text → ℕ → Width → Result CliError ℕ
unfolding parse_u64_radix
parse_value raw radix width = elim (parse_u64_radix raw radix) [
  | ok v ↦ if ltb v (2 ^ width_bits width) then ok v else err (invalid_value raw width)
  | err e ↦ err (invalid_value raw width)
]
