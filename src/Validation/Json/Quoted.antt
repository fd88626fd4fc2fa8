-- ===== src/Validation/Json/Quoted.antt =====
-- Strings of JSON in src/validation.rs: `parse_string` with its escapes, and `parse_hex4`.
use mmreg.Bits.{shift_left}
use mmreg.Message.{
  unterminated_escape, unpaired_surrogate, invalid_low_surrogate, invalid_scalar, invalid_escape,
  control_character, unterminated_string, short_unicode_escape, invalid_unicode_escape,
}
use mmreg.Prelude.{
  ℕ, zero, suc, ◌+◌, ◌-◌, bit_or, Bool, ◌&&◌, ◌||◌, List, [], ◌∷◌, ◌++◌, Option, none, some, ltb,
  ◌==◌, if◌then◌else◌, Text, codes, length,
}
use mmreg.Strings.{bytes, strip_prefix, from_str_radix, within}
use mmreg.Validation.Json.{
  Outcome, done, failed, out_of_fuel, Parser, pure, fail, continue, ◌>>=◌, ◌>>◌, expect, lead_byte,
}

-- `u8::is_ascii_hexdigit`.
abbrev pub is_hexdigit : ℕ → Bool
is_hexdigit c = within b'0' b'9' c || within b'a' b'f' c || within b'A' b'F' c

-- The next four bytes; four hexadecimal digits are four characters.
abbrev pub four_bytes : List ℕ → Text → Outcome (ℕ × Text)
four_bytes (a ∷ b ∷ c ∷ d ∷ _) (_ ∷ _ ∷ _ ∷ _ ∷ rest) =
    if is_hexdigit a && is_hexdigit b && is_hexdigit c && is_hexdigit d
    then (elim (from_str_radix (a ∷ b ∷ c ∷ d ∷ []) 16) [
      | some v ↦ done (v, rest)
      | none ↦ failed invalid_unicode_escape
    ])
    else failed invalid_unicode_escape
four_bytes (a ∷ b ∷ c ∷ d ∷ _) _ = failed invalid_unicode_escape
four_bytes _ _ = failed short_unicode_escape

-- `parse_hex4`.
unfoldable pub parse_hex4 : Parser ℕ
unfolding bytes from_str_radix
parse_hex4 t = four_bytes (bytes t) t

-- `char::from_u32`, of a value below 2^16.
abbrev pub from_u16 : ℕ → Parser ℕ
from_u16 code = if within 0xd800 0xdfff code then fail (invalid_scalar code) else pure code

-- The second half of a surrogate pair.
unfoldable pub low_surrogate : ℕ → Parser ℕ
unfolding parse_hex4
low_surrogate code = parse_hex4 >>= λ low.
    if within 0xdc00 0xdfff low
    then pure (0x1_0000 + bit_or (shift_left 32 (code - 0xd800) 10) (low - 0xdc00))
    else fail invalid_low_surrogate

-- `\u`, after the two characters.
unfoldable pub unicode_escape : Parser ℕ
unfolding parse_hex4 low_surrogate strip_prefix
unicode_escape = parse_hex4 >>= λ code.
    if within 0xd800 0xdbff code
    then (λ t. elim (strip_prefix (codes "\\u") t) [
      | none ↦ failed unpaired_surrogate
      | some rest ↦ low_surrogate code rest
    ])
    else from_u16 code

-- The escapes of one character.
abbrev pub simple_escape : ℕ → Option ℕ
simple_escape e =
    if e == b'"' || e == b'\\' || e == b'/'
    then some e
    else if e == b'b'
    then some 8
    else if e == b'f'
    then some 12
    else if e == b'n'
    then some 10
    else if e == b'r'
    then some 13
    else if e == b't'
    then some 9
    else none

-- An escape, after the backslash.
unfoldable pub escape : Parser ℕ
unfolding unicode_escape
escape [] = failed unterminated_escape
escape (e ∷ rest) = elim (simple_escape e) [
  | some c ↦ done (c, rest)
  | none ↦ if e == b'u' then unicode_escape rest else failed (invalid_escape (lead_byte e))
]

-- What a character of a string does.
pub data StringByte : Type 0 where
  closing escaping control plain : StringByte

abbrev pub string_byte : ℕ → StringByte
string_byte c =
    if c == b'"'
    then closing
    else if c == b'\\'
    then escaping
    else if ltb c 0x20
    then control
    else plain

-- The loop of `parse_string`, with `out`.
unfoldable pub string_body : ℕ → Text → Parser Text
unfolding escape
string_body zero out t = out_of_fuel
string_body (suc fuel) out [] = failed unterminated_string
string_body (suc fuel) out (c ∷ rest) = elim (string_byte c) [
  | closing ↦ done (out, rest)
  | escaping ↦ continue (escape rest) (λ e. string_body fuel (out ++ e ∷ []))
  | control ↦ failed control_character
  | plain ↦ string_body fuel (out ++ c ∷ []) rest
]

-- `parse_string`; each round takes a character.
unfoldable pub parse_string : Parser Text
unfolding expect string_body
parse_string = expect b'"' >> λ t. string_body (suc (length t)) [] t
