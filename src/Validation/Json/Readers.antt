-- ===== src/Validation/Json/Readers.antt =====
-- Each reader of JSON in src/validation.rs ends, and keeps to its input.
use mmreg.Message.{
  ProfileMessage, invalid_unicode_escape, invalid_escape, unpaired_surrogate, control_character,
  IntMessage, expected_integer, invalid_ignored_number, invalid_ignored_fraction,
  invalid_ignored_exponent, expected_in_object, unexpected_byte, expected_in_array,
}
use mmreg.Prelude.{
  ℕ, zero, suc, ◌≤◌, ◌<◌, Bool, true, List, [], ◌∷◌, ◌++◌, Option, none, some, ◌==◌, ◌&&◌,
  if◌then◌else◌, Text, codes, length, arith, ◌≡◌, ◌^◌, ltb, ◌||◌, refl, ok, err, Result, some-eq,
  ap,
}
use mmreg.Parse.{parse_u64_radix}
use mmreg.Strings.{bytes, strip_prefix, from_str_radix, within}
use mmreg.Validation.Json.{
  Outcome, done, failed, Parser, fail, continue, ◌>>=◌, ◌>>◌, peek, expect, lead_byte,
}
use mmreg.Validation.Json.Numbers.{
  span, give, token_value, is_token_byte, is_digit, give_integer, quoted_u64, bare_u64, NumberStart,
  quoted, bare, neither, number_start, parse_u64, parse_u32, skip_digits, some_digits, optional,
  starts_with, starts_with_digit, skip_integer, skip_fraction, skip_exponent, skip_number,
}
use mmreg.Validation.Json.Quoted.{
  is_hexdigit, four_bytes, parse_hex4, low_surrogate, unicode_escape, simple_escape, escape,
  StringByte, closing, escaping, control, plain, string_byte, string_body, parse_string,
}
use mmreg.Validation.Json.Skip.{
  member, parse_object, ValueStart, string, object, array, number, word, value_start, skip_word,
  skip_kind, skip_start, skip_value,
}
use mmreg.Validation.Json.Within.{
  IsWithin, IsReader, IsWithin-continue, IsWithin-le, IsWithin-if, IsReader-bind, IsReader-pure,
  IsReader-if, peek-IsReader, expect-IsReader, list_of-IsReader,
}

length-strip_prefix :
    (p t : Text) {rest : Text} → strip_prefix p t ≡ some rest → length rest ≤ length t
unfolding strip_prefix
length-strip_prefix [] t h = omega (arith, ap length (some-eq h))
length-strip_prefix (p ∷ ps) [] h = cc
length-strip_prefix (p ∷ ps) (c ∷ cs) {rest} h =
    ground (arith, length-strip_prefix ps cs {rest = rest})

-- After a prefix that was found.
strip_prefix-IsWithin :
    {A : Type 0} (p t : Text) (missing : Outcome (A × Text)) (q : Text → Outcome (A × Text))
    → IsWithin (length t) missing
    → IsReader q
    → IsWithin (length t) (elim (strip_prefix p t) [ none ↦ missing | some rest ↦ q rest ])
strip_prefix-IsWithin p t missing q h g = go (strip_prefix p t) refl
  where
    go :
        (o : Option Text)
        → strip_prefix p t ≡ o
        → IsWithin (length t) (elim o [ none ↦ missing | some rest ↦ q rest ])
    go none e = h
    go (some rest) e =
        IsWithin-le (length rest) (length t) (q rest) (length-strip_prefix p t e) (g rest)

four_bytes-IsWithin : (bs : List ℕ) (t : Text) → IsWithin (length t) (four_bytes bs t)
four_bytes-IsWithin (a ∷ b ∷ c ∷ d ∷ bs) (w ∷ x ∷ y ∷ z ∷ rest) =
    IsWithin-if _ (is_hexdigit a && is_hexdigit b && is_hexdigit c && is_hexdigit d) _
      (failed invalid_unicode_escape) (value (from_str_radix (a ∷ b ∷ c ∷ d ∷ []) 16)) tt
  where
    value :
        (o : Option ℕ)
        → IsWithin
            (length (w ∷ x ∷ y ∷ z ∷ rest))
            (elim o [ some v ↦ done (v, rest) | none ↦ failed invalid_unicode_escape ])
    value none = tt
    value (some v) = omega arith
four_bytes-IsWithin _ _ = tt

parse_hex4-IsReader : IsReader parse_hex4
unfolding parse_hex4
parse_hex4-IsReader t = four_bytes-IsWithin (bytes t) t

low_surrogate-IsReader : (code : ℕ) → IsReader (low_surrogate code)
unfolding low_surrogate
low_surrogate-IsReader code =
    IsReader-bind parse_hex4 _ parse_hex4-IsReader
      (λ low. IsReader-if (within 0xdc00 0xdfff low) _ _ (λ t. omega arith) (λ t. tt))

unicode_escape-IsReader : IsReader unicode_escape
unfolding unicode_escape
unicode_escape-IsReader = IsReader-bind parse_hex4 _ parse_hex4-IsReader (λ code.
    IsReader-if (within 0xd800 0xdbff code) _ _
      (λ t.
        strip_prefix-IsWithin (codes "\\u") t (failed unpaired_surrogate) (low_surrogate code) tt
          (low_surrogate-IsReader code))
      (IsReader-if (within 0xd800 0xdfff code) _ _ (λ t. tt) (IsReader-pure code)))

escape-IsReader : IsReader escape
unfolding escape
escape-IsReader [] = tt
escape-IsReader (e ∷ rest) = go (simple_escape e)
  where
    go :
        (o : Option ℕ)
        → IsWithin (length (e ∷ rest)) (elim o [
          | some c ↦ done (c, rest)
          | none ↦ if e == b'u' then unicode_escape rest else failed (invalid_escape (lead_byte e))
        ])
    go (some c) = omega arith
    go none =
        IsWithin-if _ (e == b'u') _ _
          (IsWithin-le (length rest) (suc (length rest)) (unicode_escape rest) (omega arith)
            (unicode_escape-IsReader rest))
          tt

string_body-IsWithin :
    (fuel : ℕ) (out t : Text) → length t < fuel → IsWithin (length t) (string_body fuel out t)
unfolding string_body
string_body-IsWithin zero out t h = absurd (omega arith)
string_body-IsWithin (suc fuel) out [] h = tt
string_body-IsWithin (suc fuel) out (c ∷ rest) h =
    go (λ o u le. string_body-IsWithin fuel o u (omega arith)) (string_byte c)
  where
    go :
        ((o u : Text) → length u ≤ length rest → IsWithin (length u) (string_body fuel o u))
        → (b : StringByte)
        → IsWithin (length (c ∷ rest)) (elim b [
          | closing ↦ done (out, rest)
          | escaping ↦ continue (escape rest) (λ e. string_body fuel (out ++ e ∷ []))
          | control ↦ failed control_character
          | plain ↦ string_body fuel (out ++ c ∷ []) rest
        ])
    go later closing = omega arith
    go later escaping =
        IsWithin-continue (length rest) (suc (length rest)) (escape rest) _ (escape-IsReader rest)
          (λ e u le.
            IsWithin-le (length u) (suc (length rest)) _ (omega arith) (later (out ++ e ∷ []) u le))
    go later control = tt
    go later plain =
        IsWithin-le (length rest) (suc (length rest)) _ (omega arith)
          (later (out ++ c ∷ []) rest (omega arith))

pub parse_string-IsReader : IsReader parse_string
unfolding parse_string
parse_string-IsReader =
    IsReader-bind (expect b'"') _ (expect-IsReader b'"')
      (λ _ t. string_body-IsWithin (suc (length t)) [] t (omega arith))

length-span : (test : ℕ → Bool) (t : Text) → length (span test t).1 ≤ length t
unfolding span
length-span test [] = omega arith
length-span test (c ∷ cs) = ground (arith, length-span test cs)

bare_u64-IsReader : IsReader bare_u64
unfolding bare_u64
bare_u64-IsReader t = go (token_value (span is_token_byte t).0)
  where
    go : (o : Result ProfileMessage ℕ) → IsWithin (length t) (give o (span is_token_byte t).1)
    go (ok v) = length-span is_token_byte t
    go (err e) = tt

quoted_u64-IsReader : (s : Text) → IsReader (quoted_u64 s)
unfolding quoted_u64
quoted_u64-IsReader s t = go (parse_u64_radix s 10)
  where
    go : (r : Result IntMessage ℕ) → IsWithin (length t) (give_integer r t)
    go (ok v) = omega arith
    go (err e) = tt

pub parse_u64-IsReader : IsReader parse_u64
unfolding parse_u64
parse_u64-IsReader = IsReader-bind peek _ peek-IsReader (λ c. go (number_start c))
  where
    go :
        (s : NumberStart)
        → IsReader (elim s [
          | quoted ↦ (parse_string >>= quoted_u64)
          | bare ↦ bare_u64
          | neither ↦ fail expected_integer
        ])
    go quoted = IsReader-bind parse_string quoted_u64 parse_string-IsReader quoted_u64-IsReader
    go bare = bare_u64-IsReader
    go neither = λ t. tt

pub parse_u32-IsReader : IsReader parse_u32
unfolding parse_u32
parse_u32-IsReader =
    IsReader-bind parse_u64 _ parse_u64-IsReader
      (λ v. IsReader-if (ltb v (2 ^ 32)) _ _ (IsReader-pure v) (λ t. tt))

length-optional : (test : ℕ → Bool) (t : Text) → length (optional test t) ≤ length t
length-optional test [] = omega arith
length-optional test (c ∷ cs) = ground arith

some_digits-IsReader : (e : ProfileMessage) → IsReader (some_digits e)
unfolding some_digits skip_digits
some_digits-IsReader e t = IsWithin-if _ (starts_with_digit t) _ _ (length-span is_digit t) tt

-- After an optional character.
optional-IsWithin :
    {A : Type 0} (test : ℕ → Bool) (t : Text) (p : Parser A)
    → IsReader p
    → IsWithin (length t) (p (optional test t))
optional-IsWithin test t p h =
    IsWithin-le (length (optional test t)) (length t) (p (optional test t)) (length-optional test t)
      (h (optional test t))

skip_integer-IsReader : IsReader skip_integer
unfolding skip_integer
skip_integer-IsReader t =
    IsWithin-if _ (starts_with (λ c. c == b'0') t) _ _ (length-optional (λ c. true) t)
      (some_digits-IsReader invalid_ignored_number t)

skip_fraction-IsReader : IsReader skip_fraction
unfolding skip_fraction
skip_fraction-IsReader t =
    IsWithin-if _ (starts_with (λ c. c == b'.') t) _ _
      (optional-IsWithin (λ c. true) t (some_digits invalid_ignored_fraction)
        (some_digits-IsReader invalid_ignored_fraction))
      (omega arith)

skip_exponent-IsReader : IsReader skip_exponent
unfolding skip_exponent
skip_exponent-IsReader t =
    IsWithin-if _ (starts_with (λ c. c == b'e' || c == b'E') t) _ _
      (optional-IsWithin (λ c. true) t
        (λ u. some_digits invalid_ignored_exponent (optional (λ c. c == b'+' || c == b'-') u))
        (λ u.
          optional-IsWithin (λ c. c == b'+' || c == b'-') u (some_digits invalid_ignored_exponent)
            (some_digits-IsReader invalid_ignored_exponent)))
      (omega arith)

skip_number-IsReader : IsReader skip_number
unfolding skip_number
skip_number-IsReader t =
    optional-IsWithin (λ c. c == b'-') t (skip_integer >>= λ _. skip_fraction >> skip_exponent)
      (IsReader-bind skip_integer _ skip_integer-IsReader
        (λ _. IsReader-bind skip_fraction _ skip_fraction-IsReader (λ _. skip_exponent-IsReader)))

pub parse_object-IsReader :
    {S : Type 0} (on_field : S → Text → Parser S)
    → ((s : S) (key : Text) → IsReader (on_field s key))
    → (s : S) → IsReader (parse_object on_field s)
unfolding parse_object member
parse_object-IsReader on_field reads s = IsReader-bind (expect b'{') _ (expect-IsReader b'{') (λ _.
    list_of-IsReader b'}' expected_in_object (member on_field)
      (λ t.
        IsReader-bind parse_string _ parse_string-IsReader
          (λ key. IsReader-bind (expect b':') _ (expect-IsReader b':') (λ _. reads t key)))
      s)

skip_word-IsReader : (w : Text) → IsReader (skip_word w)
unfolding skip_word
skip_word-IsReader w [] = tt
skip_word-IsReader [] (c ∷ cs) = tt
skip_word-IsReader (a ∷ w) (c ∷ cs) =
    strip_prefix-IsWithin (a ∷ w) (c ∷ cs) (failed (unexpected_byte (lead_byte c)))
      (λ rest. done (tt, rest)) tt (λ t. omega arith)

skip_kind-IsReader :
    (nested : Parser (Unit {0}))
    → IsReader nested
    → (v : ValueStart) → IsReader (skip_kind nested v)
unfolding skip_kind
skip_kind-IsReader nested h string =
    IsReader-bind parse_string _ parse_string-IsReader (λ _. IsReader-pure tt)
skip_kind-IsReader nested h object = parse_object-IsReader (λ _ _. nested) (λ _ _. h) tt
skip_kind-IsReader nested h array =
    IsReader-bind (expect b'[') _ (expect-IsReader b'[')
      (λ _. list_of-IsReader b']' expected_in_array (λ _. nested) (λ _. h) tt)
skip_kind-IsReader nested h number = skip_number-IsReader
skip_kind-IsReader nested h (word w) = skip_word-IsReader w

skip_start-IsReader :
    (nested : Parser (Unit {0})) → IsReader nested → (c : Option ℕ) → IsReader (skip_start nested c)
skip_start-IsReader nested h none = λ t. tt
skip_start-IsReader nested h (some c) = skip_kind-IsReader nested h (value_start c)

pub skip_value-IsReader : (left : ℕ) → IsReader (skip_value left)
unfolding skip_value
skip_value-IsReader zero t = tt
skip_value-IsReader (suc left) t =
    IsReader-bind peek (skip_start (skip_value left)) peek-IsReader
      (skip_start-IsReader (skip_value left) (skip_value-IsReader left)) t
