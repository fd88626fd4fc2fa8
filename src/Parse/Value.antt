-- ===== src/Parse/Value.antt =====
-- What `parse_u64_radix` and `parse_u32_radix` (src/parse.rs) accept and return.
use mathlib.Core.Path.{subst}
use native.Mathlib.Decide.{dec_lt}
use mmreg.Message.{IntMessage, integer_overflow, exceeds_32_bits}
use mmreg.Prelude.{
  ℕ, ◌+◌, ◌*◌, ◌^◌, ◌≤◌, ◌<◌, Bool, true, false, List, [], ◌∷◌, ltb, if◌then◌else◌, Text, Result,
  ok, err, ◌>>=◌, ◌>>◌, refuse, >>=-eq-ok, length, ◌≡◌, ◌≢◌, ◌↔◌, refl, sym, ap, ◌∙◌, arith,
}
use mmreg.Strings.{trim, bytes}
use mmreg.Parse.Prefix.{
  Prefixed, IsUnsigned, refused_start_iff, split_prefix-Prefixed, Prefixed-split_prefix,
}
use mmreg.Parse.Scanning.{
  Spells, value, seen, scan_bytes-fits, scan_bytes-overflow, scan_bytes-Spells,
}
use mmreg.Parse.{
  Scan, scan_bytes, split_prefix, refused_start, finish_scan, parse_u64_radix, parse_u32_radix,
}

-- The text after the prefix, and the radix that holds for it.
abbrev pub digits_text : Text → ℕ → Text
digits_text input default_radix = (split_prefix (trim input) default_radix).0

abbrev pub radix_of : Text → ℕ → ℕ
radix_of input default_radix = (split_prefix (trim input) default_radix).1

-- `input` is read as a number `v`, by the code's own tests of its start.
pub record IsRead (input : Text) (default_radix v : ℕ) : Type 0 where
  pub start : refused_start (trim input) ≡ false
  pub digits : List ℕ
  pub spelled :
      Spells (radix_of input default_radix) (bytes (digits_text input default_radix)) digits
  pub nonempty : digits ≢ []
  pub value_is : value (radix_of input default_radix) digits ≡ v
  pub fits : v < 2 ^ 64

radix_of-pos : (t : Text) (r : ℕ) → 1 ≤ r → 1 ≤ (split_prefix t r).1
unfolding split_prefix
radix_of-pos t r h = ground arith

refuse-ok :
    {E A : Type 0} (b : Bool) (e : E) (k : Result E A) {a : A}
    → (refuse b e >> k) ≡ ok a
    → b ≡ false
refuse-ok true e k h = cc
refuse-ok false e k h = refl

ok-acc : {s t : Scan} → ◌≡◌ {A = Result IntMessage Scan} (ok s) (ok t) → s.acc ≡ t.acc
ok-acc h = ground arith

ok-ne-err : {s : Scan} {e : IntMessage} → ◌≡◌ {A = Result IntMessage Scan} (ok s) (err e) → ⊥
ok-ne-err h = cc

finish_scan-ok :
    (input : Text) (s : Scan) {v : ℕ}
    → finish_scan input s ≡ ok v
    → (s.saw_digit ≡ true) × (s.acc ≡ v)
unfolding finish_scan
finish_scan-ok input s h = ground arith

seen-ne-nil : (ds : List ℕ) → seen false ds ≡ true → ds ≢ []
seen-ne-nil [] h = cc
seen-ne-nil (d ∷ ds) h = cc

seen_of-ne-nil : (b : Bool) (ds : List ℕ) → ds ≢ [] → seen b ds ≡ true
seen_of-ne-nil b [] h = absurd (h refl)
seen_of-ne-nil b (d ∷ ds) h = refl

module _ (input : Text) (r : ℕ) (pos : 1 ≤ r) where
  abbrev radix : ℕ
  radix = radix_of input r

  radix-pos : 1 ≤ radix
  radix-pos = radix_of-pos (trim input) r pos

  abbrev scanned : Result IntMessage Scan
  scanned =
      scan_bytes radix input (record { acc = 0; saw_digit = false }) (bytes (digits_text input r))

  parse-scanned :
      refused_start (trim input) ≡ false → parse_u64_radix input r ≡ (scanned >>= finish_scan input)
  unfolding parse_u64_radix
  parse-scanned h = rw h

  parse-start : {v : ℕ} → parse_u64_radix input r ≡ ok v → refused_start (trim input) ≡ false
  unfolding parse_u64_radix
  parse-start h = refuse-ok (refused_start (trim input)) _ _ h

  -- What the loop has read of a number that fits.
  abbrev read_scan : List ℕ → Scan
  read_scan ds = record { acc = 0 * radix ^ length ds + value radix ds; saw_digit = seen false ds }

  finish_scan-read_scan :
      (ds : List ℕ) → ds ≢ [] → finish_scan input (read_scan ds) ≡ ok (value radix ds)
  unfolding finish_scan
  finish_scan-read_scan ds h =
      let whole : 0 * radix ^ length ds + value radix ds ≡ value radix ds = omega arith in
      rw (seen_of-ne-nil false ds h, whole)

  parse_of-IsRead : {v : ℕ} → IsRead input r v → parse_u64_radix input r ≡ ok v
  parse_of-IsRead n =
      let read =
        scan_bytes-fits radix input radix-pos _ n.spelled (omega (arith, n.fits, n.value_is)) in
      parse-scanned n.start
      ∙ ap (λ m. m >>= finish_scan input) read
      ∙ finish_scan-read_scan n.digits n.nonempty
      ∙ ap ok n.value_is

  IsRead-of-scan :
      (ds : List ℕ) {s : Scan} {v : ℕ}
      → refused_start (trim input) ≡ false
      → Spells radix (bytes (digits_text input r)) ds
      → scanned ≡ ok s
      → finish_scan input s ≡ ok v
      → IsRead input r v
  IsRead-of-scan ds {s} {v} st t first last = elim (dec_lt (value radix ds) (2 ^ 64)) [
    | yes fits ↦
        let same : ok s ≡ ok (read_scan ds) =
          sym first ∙ scan_bytes-fits radix input radix-pos _ t (omega (arith, fits)) in
        let (saw, acc_is) = finish_scan-ok input s last in
        let saw' : seen false ds ≡ true = cc in
        let acc_eq : value radix ds ≡ v = omega (arith, ok-acc same) in
        record {
          start = st;
          digits = ds;
          spelled = t;
          nonempty = seen-ne-nil ds saw';
          value_is = acc_eq;
          fits = omega (arith, fits, acc_eq);
        }
    | no big ↦
        let full =
          scan_bytes-overflow radix input radix-pos (record { acc = 0; saw_digit = false }) t
            (omega arith) (omega (arith, big)) in
        absurd (ok-ne-err (sym first ∙ full))
  ]

  IsRead-of-parse : {v : ℕ} → parse_u64_radix input r ≡ ok v → IsRead input r v
  IsRead-of-parse {v} h =
      let st = parse-start h in
      let (s, first, last) = >>=-eq-ok scanned (finish_scan input) (sym (parse-scanned st) ∙ h) in
      let (ds, t) = scan_bytes-Spells radix input radix-pos _ _ first in
      IsRead-of-scan ds st t first last

-- When `parse_u64_radix` returns `v`, by the code's own tests of the start.
pub parse_u64_radix-IsRead :
    (input : Text) (r v : ℕ) → 1 ≤ r → (parse_u64_radix input r ≡ ok v) ↔ IsRead input r v
parse_u64_radix-IsRead input r v pos = (IsRead-of-parse input r pos, parse_of-IsRead input r pos)

-- `input` is a number `v` in the documented syntax, and fits 64 bits.
pub record IsNumber (input : Text) (default_radix v : ℕ) : Type 0 where
  pub unsigned : IsUnsigned (trim input)
  pub text : Text
  pub radix : ℕ
  pub prefixed : Prefixed (trim input) default_radix text radix
  pub digits : List ℕ
  pub spelled : Spells radix (bytes text) digits
  pub nonempty : digits ≢ []
  pub value_is : value radix digits ≡ v
  pub fits : v < 2 ^ 64

IsNumber-of-read : (input : Text) (r v : ℕ) → IsRead input r v → IsNumber input r v
IsNumber-of-read input r v n = record {
  unsigned = (refused_start_iff (trim input)).0 n.start;
  text = digits_text input r;
  radix = radix_of input r;
  prefixed = split_prefix-Prefixed (trim input) r;
  digits = n.digits;
  spelled = n.spelled;
  nonempty = n.nonempty;
  value_is = n.value_is;
  fits = n.fits;
}

IsRead-of-number : (input : Text) (r v : ℕ) → IsNumber input r v → IsRead input r v
IsRead-of-number input r v n =
    let split = sym (Prefixed-split_prefix n.prefixed) in
    record {
      start = (refused_start_iff (trim input)).1 n.unsigned;
      digits = n.digits;
      spelled = subst (λ q. Spells q.1 (bytes q.0) n.digits) split n.spelled;
      nonempty = n.nonempty;
      value_is = ap (λ q. value q.1 n.digits) (sym split) ∙ n.value_is;
      fits = n.fits;
    }

-- For a positive default radix, `parse_u64_radix` returns `v` exactly for the inputs that spell `v`:
-- trimmed, not empty, with no sign, at most one prefix (`0x` or `0X` for radix 16, `0d` or `0D` for
-- radix 10), at least one digit of the radix, underscores anywhere among the digits, and a value
-- below 2^64. It returns nothing for digits of a radix that is not between 2 and 36, where reading a
-- digit panics.
pub parse_u64_radix_iff :
    (input : Text) (r v : ℕ) → 1 ≤ r → (parse_u64_radix input r ≡ ok v) ↔ IsNumber input r v
parse_u64_radix_iff input r v pos =
    let read = parse_u64_radix-IsRead input r v pos in
    (λ h. IsNumber-of-read input r v (read.0 h), λ n. read.1 (IsRead-of-number input r v n))

-- For a positive default radix, digits whose value does not fit 64 bits are refused as an overflow,
-- never wrapped.
pub parse_u64_radix_overflow :
    (input : Text) (r : ℕ) (ds : List ℕ)
    → 1 ≤ r
    → refused_start (trim input) ≡ false
    → Spells (radix_of input r) (bytes (digits_text input r)) ds
    → 2 ^ 64 ≤ value (radix_of input r) ds
    → parse_u64_radix input r ≡ err (integer_overflow input)
parse_u64_radix_overflow input r ds pos st t big =
    let full =
      scan_bytes-overflow (radix_of input r) input (radix-pos input r pos)
        (record { acc = 0; saw_digit = false }) t (omega arith) (omega (arith, big)) in
    parse-scanned input r pos st ∙ ap (λ m. m >>= finish_scan input) full

parse_u32-unfolded :
    (input : Text) (r : ℕ)
    → (parse_u64_radix input r >>= λ w.
        if ltb w (2 ^ 32) then ok w else err (exceeds_32_bits input))
      ≡ parse_u32_radix input r
unfolding parse_u32_radix
parse_u32-unfolded input r = refl

u32-ok :
    (m : Result IntMessage ℕ) (input : Text) (v : ℕ)
    → ((m >>= λ w. if ltb w (2 ^ 32) then ok w else err (exceeds_32_bits input)) ≡ ok v)
      ↔ ((m ≡ ok v) × (v < 2 ^ 32))
u32-ok (ok w) input v = ground arith
u32-ok (err e) input v = ground arith

-- For a positive default radix, `parse_u32_radix` returns `v` exactly for the inputs that spell `v`,
-- if `v` is below 2^32.
pub parse_u32_radix_iff :
    (input : Text) (r v : ℕ)
    → 1 ≤ r
    → (parse_u32_radix input r ≡ ok v) ↔ (IsRead input r v × (v < 2 ^ 32))
parse_u32_radix_iff input r v pos =
    let cases = u32-ok (parse_u64_radix input r) input v in
    let number = parse_u64_radix-IsRead input r v pos in
    (
      λ h. let (m, small) = cases.0 (parse_u32-unfolded input r ∙ h) in (number.0 m, small),
      λ (n, small). sym (parse_u32-unfolded input r) ∙ cases.1 (number.1 n, small),
    )
