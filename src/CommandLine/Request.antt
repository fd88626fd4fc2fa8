-- ===== src/CommandLine/Request.antt =====
-- What operands `run_cli` (src/main.rs) lets through.
use mmreg.CommandLine.Operands.{
  Options, Argument, force, dec, validate, width, unknown, positional, argument, options, Verb,
  read, write, other, verb, number, uio_target, command, operands,
}
use mmreg.CommandLine.{
  CliTarget, address, uio, CliError, invalid_value, extra_args, missing_profile, missing_width,
  unknown_option, parse_width, looks_like_address, parse_value,
}
use mmreg.Memory.{Width, width_bits}
use mmreg.Message.{IntMessage}
use mmreg.Parse.Value.{parse_u64_radix_iff, parse_u32_radix_iff}
use mmreg.Parse.{parse_u64_radix}
use mmreg.Prelude.{
  ℕ, ◌^◌, ◌<◌, ◌≤◌, Bool, true, false, List, [], ◌∷◌, ◌++◌, Option, none, some, ltb, if◌then◌else◌,
  Text, Result, ok, err, >>=-eq-ok, ok-eq, err-ne-ok, ◌≡◌, refl, arith, ap, unless-ok,
}
use mathlib.Core.Path.{subst}

-- An address has 64 bits, an offset 32.
abbrev pub IsTarget : CliTarget → Type 0
IsTarget (address a) = a < 2 ^ 64
IsTarget (uio name offset) = offset < 2 ^ 32

abbrev pub HasWidth : Width → Option ℕ → Type 0
HasWidth w none = Unit
HasWidth w (some v) = v < 2 ^ width_bits w

abbrev pub IsRequest : Width → CliTarget × Option ℕ → Type 0
IsRequest w q = IsTarget q.0 × HasWidth w q.1

number-ok : {E : Type 0} (r : Result E ℕ) (e : CliError) {v : ℕ} → number r e ≡ ok v → r ≡ ok v
number-ok (ok u) e h = ap ok (ok-eq h)
number-ok (err x) e h = absurd (err-ne-ok h)

number-lt :
    (t : Text) (radix : ℕ) (e : CliError) {v : ℕ}
    → 1 ≤ radix
    → number (parse_u64_radix t radix) e ≡ ok v
    → v < 2 ^ 64
number-lt t radix e {v} pos h = ((parse_u64_radix_iff t radix v pos).0 (number-ok _ e h)).fits

parse_value-lt :
    (t : Text) (radix : ℕ) (w : Width) {v : ℕ} → parse_value t radix w ≡ ok v → v < 2 ^ width_bits w
unfolding parse_value
parse_value-lt t radix w {v} = go (parse_u64_radix t radix)
  where
    go :
        (r : Result IntMessage ℕ)
        → elim r [
          | ok u ↦ if ltb u (2 ^ width_bits w) then ok u else err (invalid_value t w)
          | err e ↦ err (invalid_value t w)
        ]
          ≡ ok v
        → v < 2 ^ width_bits w
    go (ok u) h = test (ltb u (2 ^ width_bits w)) (λ e. ground arith) h
      where
        test :
            (b : Bool)
            → (b ≡ true → u < 2 ^ width_bits w)
            → (if b then ok u else err (invalid_value t w)) ≡ ok v
            → v < 2 ^ width_bits w
        test true less h = subst (λ n. n < 2 ^ width_bits w) (ok-eq h) (less refl)
        test false less h = absurd (err-ne-ok h)
    go (err e) h = absurd (err-ne-ok h)

uio_target-IsTarget :
    (radix : ℕ) (first offset : Text) {t : CliTarget}
    → 1 ≤ radix
    → uio_target radix first offset ≡ ok t
    → IsTarget t
unfolding uio_target
uio_target-IsTarget radix first offset pos h =
    let (_, later) = unless-ok (looks_like_address first radix) extra_args _ h in
    let (o, read_o, same) = >>=-eq-ok _ _ later in
    subst IsTarget (ok-eq same)
      (((parse_u32_radix_iff offset radix o pos).0 (number-ok _ _ read_o)).1)

-- What `command` accepts is a request.
command-IsRequest :
    (radix : ℕ) (w : Width) (cmd : Text) (k : Verb) (rest : List Text) {q : CliTarget × Option ℕ}
    → 1 ≤ radix
    → command radix w cmd k rest ≡ ok q
    → IsRequest w q
unfolding command
command-IsRequest radix w cmd other rest pos h = absurd (err-ne-ok h)
command-IsRequest radix w cmd read [] pos h = absurd (err-ne-ok h)
command-IsRequest radix w cmd read (addr ∷ []) pos h =
    let (a, read_a, same) = >>=-eq-ok _ _ h in
    subst (IsRequest w) (ok-eq same) (number-lt addr radix _ pos read_a, tt)
command-IsRequest radix w cmd read (first ∷ offset ∷ []) pos h =
    let (t, read_t, same) = >>=-eq-ok _ _ h in
    subst (IsRequest w) (ok-eq same) (uio_target-IsTarget radix first offset pos read_t, tt)
command-IsRequest radix w cmd read (_ ∷ _ ∷ _ ∷ _) pos h = absurd (err-ne-ok h)
command-IsRequest radix w cmd write [] pos h = absurd (err-ne-ok h)
command-IsRequest radix w cmd write (_ ∷ []) pos h = absurd (err-ne-ok h)
command-IsRequest radix w cmd write (addr ∷ value ∷ []) pos h =
    let (a, read_a, later) = >>=-eq-ok _ _ h in
    let (v, read_v, same) = >>=-eq-ok _ _ later in
    subst (IsRequest w) (ok-eq same)
      (number-lt addr radix _ pos read_a, parse_value-lt value radix w read_v)
command-IsRequest radix w cmd write (first ∷ offset ∷ value ∷ []) pos h =
    let (t, read_t, later) = >>=-eq-ok _ _ h in
    let (v, read_v, same) = >>=-eq-ok _ _ later in
    subst (IsRequest w) (ok-eq same)
      (uio_target-IsTarget radix first offset pos read_t, parse_value-lt value radix w read_v)
command-IsRequest radix w cmd write (_ ∷ _ ∷ _ ∷ _ ∷ _) pos h = absurd (err-ne-ok h)

-- What `operands` accepts is a request: its address has 64 bits, its offset 32, and its value the
-- width of the access.
pub operands-IsRequest :
    (o : Options) {q : CliTarget × Option ℕ}
    → 1 ≤ o.default_radix
    → operands o ≡ ok q
    → IsRequest o.width q
unfolding operands
operands-IsRequest o pos = go o.positionals
  where
    go :
        (ps : List Text) {q : CliTarget × Option ℕ}
        → operands (record o { positionals = ps }) ≡ ok q
        → IsRequest o.width q
    go [] h = absurd (err-ne-ok h)
    go (cmd ∷ rest) h = command-IsRequest o.default_radix o.width cmd (verb cmd) rest pos h

-- The radix that the options leave is 10 or 16, or what it was.
pub options-radix :
    (o : Options) (args : List Text) {result : Options}
    → 1 ≤ o.default_radix
    → options o args ≡ ok result
    → 1 ≤ result.default_radix
unfolding options
options-radix o [] pos h = subst (λ (u : Options). 1 ≤ u.default_radix) (ok-eq h) pos
options-radix o (a ∷ []) {result} pos h0 = go (argument a) h0
  where
    go :
        (k : Argument)
        → elim k as (λ x. Result CliError Options) [
          | force ↦ ok (record o { force_map = true })
          | dec ↦ ok (record o { default_radix = 10 })
          | validate ↦ err (missing_profile a)
          | width ↦ err (missing_width a)
          | unknown ↦ err (unknown_option a)
          | positional ↦ ok (record o { positionals = o.positionals ++ a ∷ [] })
        ]
          ≡ ok result
        → 1 ≤ result.default_radix
    go force h = subst (λ (u : Options). 1 ≤ u.default_radix) (ok-eq h) pos
    go dec h = subst (λ (u : Options). 1 ≤ u.default_radix) (ok-eq h) (omega arith)
    go positional h = subst (λ (u : Options). 1 ≤ u.default_radix) (ok-eq h) pos
    go validate h = absurd (err-ne-ok h)
    go width h = absurd (err-ne-ok h)
    go unknown h = absurd (err-ne-ok h)
options-radix o (a ∷ b ∷ rest) {result} pos h0 =
    go (λ u p. options-radix u rest p) (λ u p. options-radix u (b ∷ rest) p) (argument a) h0
  where
    go :
        ((u : Options)
          → 1 ≤ u.default_radix
          → options u rest ≡ ok result
          → 1 ≤ result.default_radix)
        → ((u : Options)
            → 1 ≤ u.default_radix
            → options u (b ∷ rest) ≡ ok result
            → 1 ≤ result.default_radix)
        → (k : Argument)
        → elim k as (λ x. Result CliError Options) [
          | force ↦ options (record o { force_map = true }) (b ∷ rest)
          | dec ↦ options (record o { default_radix = 10 }) (b ∷ rest)
          | validate ↦ options (record o { validate_paths = o.validate_paths ++ b ∷ [] }) rest
          | width ↦ elim (parse_width b) [
            | ok w ↦ options (record o { width = w }) rest
            | err e ↦ err e
          ]
          | unknown ↦ err (unknown_option a)
          | positional ↦ options (record o { positionals = o.positionals ++ a ∷ [] }) (b ∷ rest)
        ]
          ≡ ok result
        → 1 ≤ result.default_radix
    go two one force h = one _ pos h
    go two one dec h = one _ (omega arith) h
    go two one validate h = two _ pos h
    go two one width h = given (parse_width b) h
      where
        given :
            (w : Result CliError Width)
            → elim w as (λ x. Result CliError Options) [
              | ok w ↦ options (record o { width = w }) rest
              | err e ↦ err e
            ]
              ≡ ok result
            → 1 ≤ result.default_radix
        given (ok w) h = two _ pos h
        given (err e) h = absurd (err-ne-ok h)
    go two one unknown h = absurd (err-ne-ok h)
    go two one positional h = one _ pos h
