-- ===== src/Message.antt =====
-- The texts that the code builds with `format!`, as data: a constructor for each format string
-- and its arguments. parse.rs.
use mmreg.Prelude.{ℕ, Text}

-- The error texts of `parse_u64_radix` and `parse_u32_radix` (src/parse.rs); the last argument is
-- the whole input.
pub data IntMessage : Type 0 where
  invalid_integer : Text → IntMessage
  invalid_digit : ℕ → Text → IntMessage
  integer_overflow : Text → IntMessage
  no_digits : Text → IntMessage
  exceeds_32_bits : Text → IntMessage
  -- no text: `char::to_digit` panics for this radix
  radix_panic : ℕ → IntMessage

-- The error texts of the JSON reader of safety profiles (src/validation.rs). Byte positions, which
-- some of the texts also hold, are left out.
pub data ProfileMessage : Type 0 where
  read_failed : Text → Text → ProfileMessage
  expected_byte : ℕ → ℕ → ProfileMessage
  end_expected : ℕ → ProfileMessage
  unterminated_escape unpaired_surrogate invalid_low_surrogate : ProfileMessage
  invalid_scalar invalid_escape : ℕ → ProfileMessage
  control_character unterminated_string : ProfileMessage
  short_unicode_escape invalid_unicode_escape : ProfileMessage
  integer : IntMessage → ProfileMessage
  invalid_json_number invalid_token : Text → ProfileMessage
  expected_integer : ProfileMessage
  exceeds_word : ℕ → ProfileMessage
  nesting_too_deep unexpected_end expected_in_array : ProfileMessage
  unexpected_byte : ℕ → ProfileMessage
  invalid_ignored_number invalid_ignored_fraction invalid_ignored_exponent : ProfileMessage
  expected_in_object expected_in_checks : ProfileMessage
  duplicate_check_key unknown_check_key missing_in_check : Text → ProfileMessage
  duplicate_key unknown_key : Text → ProfileMessage
  trailing_characters missing_checks no_checks missing_name : ProfileMessage
