-- ===== src/Validation/Json/Numbers.antt =====
-- Numbers of JSON in src/validation.rs: `parse_u64`, `parse_u32` and `skip_number`.
use mmreg.Message.{
  IntMessage, ProfileMessage, integer, invalid_json_number, invalid_token, expected_integer,
  exceeds_word, invalid_ignored_number, invalid_ignored_fraction, invalid_ignored_exponent,
}
use mmreg.Parse.{parse_u64_radix}
use mmreg.Prelude.{
  ℕ, ◌^◌, Bool, true, false, ◌&&◌, ◌||◌, [], ◌∷◌, Option, none, some, ltb, ◌==◌, if◌then◌else◌,
  Text, length, Result, ok, err,
}
use mmreg.Strings.{from_str_radix, within}
use mmreg.Validation.Json.{done, failed, Parser, pure, fail, continue, ◌>>=◌, ◌>>◌, peek}
use mmreg.Validation.Json.Quoted.{parse_string}

abbrev pub is_digit : ℕ → Bool
is_digit c = within b'0' b'9' c

-- The bytes of a number token.
abbrev pub is_token_byte : ℕ → Bool
is_token_byte c =
    is_digit c
    || within b'a' b'z' c
    || within b'A' b'Z' c
    || c == b'.'
    || c == b'_'
    || c == b'+'
    || c == b'-'

-- The longest front part of a text whose characters pass a test, and the rest.
unfoldable pub span : (ℕ → Bool) → Text → Text × Text
span test [] = ([], [])
span test (c ∷ cs) =
    let (front, rest) = span test cs in if test c then (c ∷ front, rest) else ([], c ∷ cs)

-- A token that stands for a number: more than one byte must not start with a zero.
abbrev pub token_value : Text → Result ProfileMessage ℕ
token_value token =
    if ltb 1 (length token) && starts_zero token
    then err (invalid_json_number token)
    else (elim (from_str_radix token 10) [ some v ↦ ok v | none ↦ err (invalid_token token) ])
  where
    starts_zero : Text → Bool
    starts_zero [] = false
    starts_zero (c ∷ cs) = c == b'0'

abbrev pub give : {A : Type 0} → Result ProfileMessage A → Parser A
give (ok a) = pure a
give (err e) = fail e

abbrev pub give_integer : Result IntMessage ℕ → Parser ℕ
give_integer (ok v) = pure v
give_integer (err e) = fail (integer e)

-- `parse_u64_radix(&s, 10)` of a string.
unfoldable pub quoted_u64 : Text → Parser ℕ
unfolding parse_u64_radix
quoted_u64 s = give_integer (parse_u64_radix s 10)

-- A bare integer, at its first digit.
unfoldable pub bare_u64 : Parser ℕ
unfolding span from_str_radix
bare_u64 t = let (token, rest) = span is_token_byte t in give (token_value token) rest

-- What a number starts with.
pub data NumberStart : Type 0 where
  quoted bare neither : NumberStart

abbrev pub number_start : Option ℕ → NumberStart
number_start none = neither
number_start (some c) = if c == b'"' then quoted else if is_digit c then bare else neither

-- `parse_u64`.
unfoldable pub parse_u64 : Parser ℕ
unfolding peek parse_string quoted_u64 bare_u64
parse_u64 = peek >>= λ c. elim (number_start c) [
  | quoted ↦ (parse_string >>= quoted_u64)
  | bare ↦ bare_u64
  | neither ↦ fail expected_integer
]

-- `parse_u32`.
unfoldable pub parse_u32 : Parser ℕ
unfolding parse_u64
parse_u32 = parse_u64 >>= λ v. if ltb v (2 ^ 32) then pure v else fail (exceeds_word v)

-- The loops over digits.
unfoldable pub skip_digits : Parser (Unit {0})
unfolding span
skip_digits t = done (tt, (span is_digit t).1)

abbrev pub starts_with_digit : Text → Bool
starts_with_digit [] = false
starts_with_digit (c ∷ cs) = is_digit c

-- At least one digit, or an error.
unfoldable pub some_digits : ProfileMessage → Parser (Unit {0})
unfolding skip_digits
some_digits e t = if starts_with_digit t then skip_digits t else failed e

-- A character that may stand at the front is dropped.
abbrev pub optional : (ℕ → Bool) → Text → Text
optional test [] = []
optional test (c ∷ cs) = if test c then cs else c ∷ cs

abbrev pub starts_with : (ℕ → Bool) → Text → Bool
starts_with test [] = false
starts_with test (c ∷ cs) = test c

-- The integer part: a zero, or digits.
unfoldable pub skip_integer : Parser (Unit {0})
unfolding some_digits
skip_integer t =
    if starts_with (λ c. c == b'0') t
    then done (tt, optional (λ c. true) t)
    else some_digits invalid_ignored_number t

unfoldable pub skip_fraction : Parser (Unit {0})
unfolding some_digits
skip_fraction t =
    if starts_with (λ c. c == b'.') t
    then some_digits invalid_ignored_fraction (optional (λ c. true) t)
    else done (tt, t)

unfoldable pub skip_exponent : Parser (Unit {0})
unfolding some_digits
skip_exponent t =
    if starts_with (λ c. c == b'e' || c == b'E') t
    then some_digits invalid_ignored_exponent
        (optional (λ c. c == b'+' || c == b'-') (optional (λ c. true) t))
    else done (tt, t)

-- `skip_number`.
unfoldable pub skip_number : Parser (Unit {0})
unfolding skip_integer skip_fraction skip_exponent
skip_number t =
    continue (skip_integer (optional (λ c. c == b'-') t)) (λ _. skip_fraction >> skip_exponent)
