-- ===== src/Strings.antt =====
-- The operations of Rust's `str` and `char` that the code calls, on texts of scalar values:
-- `trim`, `strip_prefix`, `starts_with`, `bytes`, `to_digit`, and the checked arithmetic of `u64`.
use mathlib.Core.List.{reverse}
use mmreg.Prelude.{
  ℕ, ◌+◌, ◌-◌, ◌*◌, ◌/◌, ◌%◌, ◌^◌, Bool, ◌&&◌, ◌||◌, List, [], ◌∷◌, ◌++◌, Option, none, some, ltb,
  leb, ◌==◌, if◌then◌else◌, Text,
}

abbrev pub within : ℕ → ℕ → ℕ → Bool
within lo hi c = leb lo c && leb c hi

-- `char::is_whitespace`, the Unicode property White_Space.
unfoldable pub is_whitespace : ℕ → Bool
is_whitespace c =
    within 9 13 c
    || c == 0x20
    || c == 0x85
    || c == 0xa0
    || c == 0x1680
    || within 0x2000 0x200a c
    || c == 0x2028
    || c == 0x2029
    || c == 0x202f
    || c == 0x205f
    || c == 0x3000

-- `trim_start`.
unfoldable pub trim_start : Text → Text
trim_start [] = []
trim_start (c ∷ cs) = let rest = trim_start cs in if is_whitespace c then rest else c ∷ cs

-- `trim`.
unfoldable pub trim : Text → Text
unfolding trim_start is_whitespace
trim t = reverse (trim_start (reverse (trim_start t)))

-- `strip_prefix`.
unfoldable pub strip_prefix : Text → Text → Option Text
strip_prefix [] t = some t
strip_prefix (p ∷ ps) [] = none
strip_prefix (p ∷ ps) (c ∷ cs) = if p == c then strip_prefix ps cs else none

-- The UTF-8 bytes of one scalar value.
unfoldable pub encode_utf8 : ℕ → List ℕ
encode_utf8 c =
    if ltb c 0x80
    then c ∷ []
    else if ltb c 0x800
    then (0xc0 + c / 64) ∷ (0x80 + c % 64) ∷ []
    else if ltb c 0x10000
    then (0xe0 + c / 4096) ∷ (0x80 + c / 64 % 64) ∷ (0x80 + c % 64) ∷ []
    else (0xf0 + c / 262144) ∷ (0x80 + c / 4096 % 64) ∷ (0x80 + c / 64 % 64) ∷ (0x80 + c % 64) ∷ []

-- `bytes`.
unfoldable pub bytes : Text → List ℕ
unfolding encode_utf8
bytes [] = []
bytes (c ∷ cs) = encode_utf8 c ++ bytes cs

-- The value of a digit in the largest radix, 36; anything else is 36.
unfoldable pub digit_value : ℕ → ℕ
digit_value c =
    if within b'0' b'9' c
    then c - b'0'
    else if within b'a' b'z' c
    then c - b'a' + 10
    else if within b'A' b'Z' c
    then c - b'A' + 10
    else 36

-- `char::to_digit` is for a radix from 2 to 36, and panics for another.
abbrev pub is_radix : ℕ → Bool
is_radix radix = leb 2 radix && leb radix 36

-- `char::to_digit`; none where it panics, too.
unfoldable pub to_digit : ℕ → ℕ → Option ℕ
unfolding digit_value
to_digit c radix =
    if is_radix radix && ltb (digit_value c) radix then some (digit_value c) else none

-- `u64::checked_mul`, `u64::checked_add`.
unfoldable pub checked_mul : ℕ → ℕ → Option ℕ
checked_mul a b = if ltb (a * b) (2 ^ 64) then some (a * b) else none

unfoldable pub checked_add : ℕ → ℕ → Option ℕ
checked_add a b = if ltb (a + b) (2 ^ 64) then some (a + b) else none

-- `split_once`: the parts around the first occurrence.
unfoldable pub split_once : Text → Text → Option (Text × Text)
unfolding strip_prefix
split_once p [] = elim (strip_prefix p []) [ some rest ↦ some ([], rest) | none ↦ none ]
split_once p (c ∷ cs) =
    let later = split_once p cs in
    elim (strip_prefix p (c ∷ cs)) [
      | some rest ↦ some ([], rest)
      | none ↦ elim later [ some (before, after) ↦ some (c ∷ before, after) | none ↦ none ]
    ]

-- The digits of `from_str_radix`.
unfoldable pub radix_digits : ℕ → ℕ → Text → Option ℕ
unfolding to_digit checked_mul checked_add
radix_digits radix acc [] = some acc
radix_digits radix acc (c ∷ cs) = elim (to_digit c radix) [
  | none ↦ none
  | some d ↦ elim (checked_mul acc radix) [
    | none ↦ none
    | some v ↦ elim (checked_add v d) [ none ↦ none | some w ↦ radix_digits radix w cs ]
  ]
]

-- `u64::from_str_radix(..).ok()`: digits, after at most one plus sign.
unfoldable pub from_str_radix : Text → ℕ → Option ℕ
unfolding radix_digits
from_str_radix [] radix = none
from_str_radix (c ∷ []) radix = if c == b'+' then none else radix_digits radix 0 (c ∷ [])
from_str_radix (c ∷ d ∷ cs) radix =
    if c == b'+' then radix_digits radix 0 (d ∷ cs) else radix_digits radix 0 (c ∷ d ∷ cs)

-- `to_ascii_lowercase`.
unfoldable pub to_lower : ℕ → ℕ
to_lower c = if within 0x41 0x5a c then c + 32 else c
