-- ===== src/CommandLine/Hex.antt =====
-- What `format_hex` (src/main.rs) prints, the parsers of src/parse.rs read.
use mathlib.Core.Path.{subst}
use native.Mathlib.Nat.{pow-zero, pow-suc}
use mathlib.Core.List.{append_assoc, reverse, reverse-append, reverse-reverse}
use mmreg.CommandLine.{upper_digit, hex_digits, format_hex, parse_value, invalid_value, CliError}
use mmreg.Memory.{Width, u8, u16, u32, u64, width_bits}
use mmreg.Parse.Scanning.{Spells, end, underscore, digit, value}
use mmreg.Parse.Value.{IsRead, parse_u64_radix-IsRead}
use mmreg.Parse.{refused_start, split_prefix, parse_u64_radix}
use mmreg.Prelude.{
  ℕ, zero, suc, ◌+◌, ◌*◌, ◌/◌, ◌%◌, ◌^◌, ◌≤◌, ◌<◌, true, false, List, [], ◌∷◌, ◌++◌, some, ltb,
  ◌==◌, if◌then◌else◌, Text, Result, ok, err, length, length-append, ◌≡◌, ◌≢◌, refl, sym, ap, ◌∙◌,
  arith,
}
use mmreg.Strings.{
  trim, trim_start, is_whitespace, strip_prefix, encode_utf8, bytes, to_digit, digit_value,
}

-- A digit is no white space, is one byte, is no underscore, and is read as its value.
upper_digit-plain : (d : ℕ) → d < 16 → is_whitespace (upper_digit d) ≡ false
unfolding is_whitespace
upper_digit-plain d h = ground arith

upper_digit-byte : (d : ℕ) → d < 16 → encode_utf8 (upper_digit d) ≡ upper_digit d ∷ []
unfolding encode_utf8
upper_digit-byte d h = ground arith

upper_digit-separate : (d : ℕ) → d < 16 → (upper_digit d == b'_') ≡ false
upper_digit-separate d h = ground arith

upper_digit-value : (d : ℕ) → d < 16 → to_digit (upper_digit d) 16 ≡ some d
unfolding to_digit digit_value
upper_digit-value d h = ground arith

-- The digits of a number.
hex_values : ℕ → ℕ → List ℕ
hex_values zero v = []
hex_values (suc n) v = hex_values n (v / 16) ++ v % 16 ∷ []

bytes-++ : (a b : Text) → bytes (a ++ b) ≡ bytes a ++ bytes b
unfolding bytes
bytes-++ [] b = refl
bytes-++ (c ∷ a) b =
    ap (λ t. encode_utf8 c ++ t) (bytes-++ a b)
    ∙ sym (append_assoc (encode_utf8 c) (bytes a) (bytes b))

Spells-++ :
    {radix : ℕ} {bs cs ds es : List ℕ}
    → Spells radix bs ds
    → Spells radix cs es
    → Spells radix (bs ++ cs) (ds ++ es)
Spells-++ end t = t
Spells-++ (underscore u s) t = underscore u (Spells-++ s t)
Spells-++ (digit n d s) t = digit n d (Spells-++ s t)

hex_digits-Spells : (n v : ℕ) → Spells 16 (bytes (hex_digits n v)) (hex_values n v)
unfolding hex_digits hex_values bytes
hex_digits-Spells zero v = end
hex_digits-Spells (suc n) v =
    let small : v % 16 < 16 = omega arith in
    let one : bytes (upper_digit (v % 16) ∷ []) ≡ upper_digit (v % 16) ∷ [] =
      ap (λ t. t ++ []) (upper_digit-byte (v % 16) small) in
    let whole =
      bytes-++ (hex_digits n (v / 16)) (upper_digit (v % 16) ∷ [])
      ∙ ap (λ t. bytes (hex_digits n (v / 16)) ++ t) one in
    subst (λ t. Spells 16 t (hex_values n (v / 16) ++ v % 16 ∷ [])) (sym whole)
      (Spells-++ (hex_digits-Spells n (v / 16))
        (digit (upper_digit-separate (v % 16) small) (upper_digit-value (v % 16) small) end))

value-snoc :
    (radix : ℕ) (ds : List ℕ) (d : ℕ) → value radix (ds ++ d ∷ []) ≡ value radix ds * radix + d
unfolding value
value-snoc radix [] d =
    let one : d * radix ^ 0 ≡ d * 1 = ap (λ (t : ℕ). d * t) (pow-zero radix) in omega arith
value-snoc radix (e ∷ ds) d =
    let longer : length (ds ++ d ∷ []) ≡ suc (length ds) =
      omega (arith, length-append ds (d ∷ [])) in
    let power : radix ^ length (ds ++ d ∷ []) ≡ radix ^ length ds * radix =
      ap (λ (k : ℕ). radix ^ k) longer ∙ pow-suc radix (length ds) in
    let spread : e * radix ^ length (ds ++ d ∷ []) ≡ e * (radix ^ length ds * radix) =
      ap (λ (t : ℕ). e * t) power in
    omega (arith, value-snoc radix ds d)

hex_values-value : (n v : ℕ) → v < 16 ^ n → value 16 (hex_values n v) ≡ v
unfolding hex_values value
hex_values-value zero v h = omega arith
hex_values-value (suc n) v h =
    let less : v / 16 < 16 ^ n = omega (arith, h, pow-suc 16 n) in
    value-snoc 16 (hex_values n (v / 16)) (v % 16) ∙ omega (arith, hex_values-value n (v / 16) less)

-- Nothing is trimmed between two characters that are no white space.
trim_start-plain : (c : ℕ) (cs : Text) → is_whitespace c ≡ false → trim_start (c ∷ cs) ≡ c ∷ cs
unfolding trim_start
trim_start-plain c cs h = rw h

trim-inner : (t : Text) → trim_start t ≡ t → trim_start (reverse t) ≡ reverse t → trim t ≡ t
unfolding trim
trim-inner t h g = ap (λ u. reverse (trim_start (reverse u))) h ∙ ap reverse g ∙ reverse-reverse t

abbrev hex_text : ℕ → ℕ → Text
hex_text n v = b'0' ∷ b'x' ∷ hex_digits n v

trim-hex_text : (n v : ℕ) → trim (hex_text (suc n) v) ≡ hex_text (suc n) v
unfolding hex_digits
trim-hex_text n v =
    let front = b'0' ∷ b'x' ∷ hex_digits n (v / 16) in
    let d = upper_digit (v % 16) in
    let back : reverse (front ++ d ∷ []) ≡ d ∷ reverse front = reverse-append front (d ∷ []) in
    trim-inner (front ++ d ∷ []) (trim_start-plain b'0' _ (plain_zero)) (
      ap trim_start back
      ∙ trim_start-plain d (reverse front) (upper_digit-plain (v % 16) (omega arith))
      ∙ sym back)
  where
    plain_zero : is_whitespace b'0' ≡ false
    plain_zero = upper_digit-plain 0 (omega arith)

snoc-nonempty : (ds : List ℕ) (d : ℕ) → ds ++ d ∷ [] ≢ []
snoc-nonempty [] d h = cc
snoc-nonempty (e ∷ ds) d h = cc

hex_text-IsRead : (n v r : ℕ) → v < 16 ^ suc n → v < 2 ^ 64 → IsRead (hex_text (suc n) v) r v
unfolding refused_start split_prefix strip_prefix hex_values
hex_text-IsRead n v r short fits =
    let same = sym (trim-hex_text n v) in
    record {
      start = subst (λ t. refused_start t ≡ false) same refl;
      digits = hex_values (suc n) v;
      spelled =
          subst
            (λ t. Spells (split_prefix t r).1 (bytes (split_prefix t r).0) (hex_values (suc n) v))
            same (hex_digits-Spells (suc n) v);
      nonempty = snoc-nonempty (hex_values n (v / 16)) (v % 16);
      value_is =
          subst (λ t. value (split_prefix t r).1 (hex_values (suc n) v) ≡ v) same
            (hex_values-value (suc n) v short);
      fits = fits;
    }

format_hex-IsRead : (v r : ℕ) (w : Width) → v < 2 ^ width_bits w → IsRead (format_hex v w) r v
unfolding format_hex
format_hex-IsRead v r u8 h =
    subst (λ u. IsRead (hex_text 2 u) r v) (omega arith) (hex_text-IsRead 1 v r h (omega arith))
format_hex-IsRead v r u16 h =
    subst (λ u. IsRead (hex_text 4 u) r v) (omega arith) (hex_text-IsRead 3 v r h (omega arith))
format_hex-IsRead v r u32 h =
    subst (λ u. IsRead (hex_text 8 u) r v) (omega arith) (hex_text-IsRead 7 v r h (omega arith))
format_hex-IsRead v r u64 h =
    subst (λ u. IsRead (hex_text 16 u) r v) (omega arith) (hex_text-IsRead 15 v r h h)

parse_value-at :
    (raw : Text) (r : ℕ) (w : Width) {v : ℕ}
    → parse_u64_radix raw r ≡ ok v
    → ltb v (2 ^ width_bits w) ≡ true
    → parse_value raw r w ≡ ok v
unfolding parse_value
parse_value-at raw r w {v} h g =
    ap
      (λ q. elim q as (λ x. Result CliError ℕ) [
        | ok u ↦ if ltb u (2 ^ width_bits w) then ok u else err (invalid_value raw w)
        | err e ↦ err (invalid_value raw w)
      ])
      h
    ∙ ap (λ b. if b then ok v else err (invalid_value raw w)) g

-- What the command line prints of a value that fits the width, it takes back as the same value, for
-- every radix that unprefixed numbers are read in.
pub parse_value-format_hex :
    (v r : ℕ) (w : Width) → 1 ≤ r → v < 2 ^ width_bits w → parse_value (format_hex v w) r w ≡ ok v
parse_value-format_hex v r w pos h =
    parse_value-at (format_hex v w) r w
      ((parse_u64_radix-IsRead (format_hex v w) r v pos).1 (format_hex-IsRead v r w h))
      (ground arith)
