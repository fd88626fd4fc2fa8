-- ===== src/Validation/Json/Skip.antt =====
-- Objects, and values that are ignored: `parse_object` and `skip_value` of src/validation.rs.
use mmreg.Message.{
  nesting_too_deep, unexpected_end, expected_in_array, unexpected_byte, expected_in_object,
}
use mmreg.Prelude.{
  ℕ, zero, suc, ◌||◌, [], ◌∷◌, Option, none, some, ◌==◌, if◌then◌else◌, Text, codes,
}
use mmreg.Strings.{strip_prefix}
use mmreg.Validation.Json.{
  done, failed, Parser, pure, fail, continue, ◌>>=◌, ◌>>◌, peek, expect, list_of, lead_byte,
}
use mmreg.Validation.Json.Numbers.{is_digit, skip_number}
use mmreg.Validation.Json.Quoted.{parse_string}

-- A member of an object: `on_field` reads its value.
unfoldable pub member : {S : Type 0} → (S → Text → Parser S) → S → Parser S
unfolding expect parse_string
member on_field s = parse_string >>= λ key. expect b':' >> on_field s key

-- `parse_object`; `s` holds the variables that `on_field` sets.
unfoldable pub parse_object : {S : Type 0} → (S → Text → Parser S) → S → Parser S
unfolding expect list_of member
parse_object on_field s = expect b'{' >> list_of b'}' expected_in_object (member on_field) s

-- What a value starts with.
pub data ValueStart : Type 0 where
  string object array number : ValueStart
  word : Text → ValueStart

abbrev pub value_start : ℕ → ValueStart
value_start c =
    if c == b'"'
    then string
    else if c == b'{'
    then object
    else if c == b'['
    then array
    else if c == b't'
    then word (codes "true")
    else if c == b'f'
    then word (codes "false")
    else if c == b'n'
    then word (codes "null")
    else if c == b'-' || is_digit c
    then number
    else word []

-- A word, or the error that names the byte it starts with.
unfoldable pub skip_word : Text → Parser (Unit {0})
unfolding strip_prefix
skip_word w [] = failed unexpected_end
skip_word [] (c ∷ cs) = failed (unexpected_byte (lead_byte c))
skip_word (a ∷ w) (c ∷ cs) = elim (strip_prefix (a ∷ w) (c ∷ cs)) [
  | some rest ↦ done (tt, rest)
  | none ↦ failed (unexpected_byte (lead_byte c))
]

-- The cases of `skip_value`; `nested` skips a value one level down.
unfoldable pub skip_kind : Parser (Unit {0}) → ValueStart → Parser (Unit {0})
unfolding expect parse_string parse_object list_of skip_word skip_number
skip_kind nested string = parse_string >> pure tt
skip_kind nested object = parse_object (λ _ _. nested) tt
skip_kind nested array = expect b'[' >> list_of b']' expected_in_array (λ _. nested) tt
skip_kind nested number = skip_number
skip_kind nested (word w) = skip_word w

abbrev pub skip_start : Parser (Unit {0}) → Option ℕ → Parser (Unit {0})
skip_start nested none = fail unexpected_end
skip_start nested (some c) = skip_kind nested (value_start c)

-- `skip_value`, by how many levels of nesting are left: 33 at depth 0, none at depth 33.
unfoldable pub skip_value : ℕ → Parser (Unit {0})
unfolding peek skip_kind
skip_value zero t = failed nesting_too_deep
skip_value (suc left) t = continue (peek t) (skip_start (skip_value left))

-- `skip_value(0)`.
abbrev pub skip_any : Parser (Unit {0})
skip_any = skip_value 33
