-- ===== src/CommandLine/Operands.antt =====
-- The options and operands of the command line: the loop and the `match` of `run_cli` (src/main.rs).
use mmreg.CommandLine.{
  CliTarget, address, uio, CliError, missing_profile, missing_width, unknown_option,
  unknown_command, missing_command, missing_address, missing_value, extra_args, invalid_address,
  invalid_offset, looks_like_address, parse_width, parse_value,
}
use mmreg.Memory.{Width, u32}
use mmreg.Parse.{parse_u64_radix, parse_u32_radix}
use mmreg.Prelude.{
  ℕ, Bool, true, false, ◌||◌, List, [], ◌∷◌, ◌++◌, Option, none, some, ◌==◌, if◌then◌else◌, Text,
  codes, text_eq, Result, ok, err, ◌>>=◌,
}

-- The variables of `run_cli`.
pub record Options : Type 0 where
  pub force_map : Bool
  pub default_radix : ℕ
  pub width : Width
  pub validate_paths : List Text
  pub positionals : List Text

abbrev pub no_options : Options
no_options = record {
  force_map = false;
  default_radix = 16;
  width = u32;
  validate_paths = [];
  positionals = [];
}

-- What an argument is.
pub data Argument : Type 0 where
  force dec validate width unknown positional : Argument

abbrev pub starts_dash : Text → Bool
starts_dash [] = false
starts_dash (c ∷ cs) = c == b'-'

unfoldable pub argument : Text → Argument
unfolding text_eq
argument a =
    if text_eq a (codes "-f") || text_eq a (codes "--force")
    then force
    else if text_eq a (codes "-d") || text_eq a (codes "--dec")
    then dec
    else if text_eq a (codes "-v") || text_eq a (codes "--validate")
    then validate
    else if text_eq a (codes "-w") || text_eq a (codes "--width")
    then width
    else if starts_dash a
    then unknown
    else positional

-- The loop over the arguments.
unfoldable pub options : Options → List Text → Result CliError Options
unfolding argument parse_width
options o [] = ok o
options o (a ∷ []) = elim (argument a) [
  | force ↦ ok (record o { force_map = true })
  | dec ↦ ok (record o { default_radix = 10 })
  | validate ↦ err (missing_profile a)
  | width ↦ err (missing_width a)
  | unknown ↦ err (unknown_option a)
  | positional ↦ ok (record o { positionals = o.positionals ++ a ∷ [] })
]
options o (a ∷ b ∷ rest) = elim (argument a) [
  | force ↦ options (record o { force_map = true }) (b ∷ rest)
  | dec ↦ options (record o { default_radix = 10 }) (b ∷ rest)
  | validate ↦ options (record o { validate_paths = o.validate_paths ++ b ∷ [] }) rest
  | width ↦ elim (parse_width b) [ ok w ↦ options (record o { width = w }) rest | err e ↦ err e ]
  | unknown ↦ err (unknown_option a)
  | positional ↦ options (record o { positionals = o.positionals ++ a ∷ [] }) (b ∷ rest)
]

-- The commands.
pub data Verb : Type 0 where
  read write other : Verb

unfoldable pub verb : Text → Verb
unfolding text_eq
verb cmd =
    if text_eq cmd (codes "read")
    then read
    else if text_eq cmd (codes "write")
    then write
    else other

-- `map_err(|_| ..)` on a number.
abbrev pub number : {E : Type 0} → Result E ℕ → CliError → Result CliError ℕ
number (ok v) e = ok v
number (err _) e = err e

-- A register of a UIO device by name; what looks like an address is no name.
unfoldable pub uio_target : ℕ → Text → Text → Result CliError CliTarget
unfolding looks_like_address parse_u32_radix
uio_target radix first offset =
    if looks_like_address first radix
    then err extra_args
    else (number (parse_u32_radix offset radix) (invalid_offset offset) >>= λ o. ok (uio first o))

-- The operands of a command.
unfoldable pub command :
    ℕ → Width → Text → Verb → List Text → Result CliError (CliTarget × Option ℕ)
unfolding uio_target parse_u64_radix parse_value
command radix w cmd other rest = err (unknown_command cmd)
command radix w cmd read [] = err missing_address
command radix w cmd read (addr ∷ []) =
    number (parse_u64_radix addr radix) (invalid_address addr) >>= λ a. ok (address a, none)
command radix w cmd read (first ∷ offset ∷ []) = uio_target radix first offset >>= λ t. ok (t, none)
command radix w cmd read (_ ∷ _ ∷ _ ∷ _) = err extra_args
command radix w cmd write [] = err missing_address
command radix w cmd write (_ ∷ []) = err missing_value
command radix w cmd write (addr ∷ value ∷ []) =
    number (parse_u64_radix addr radix) (invalid_address addr) >>= λ a.
    parse_value value radix w >>= λ v. ok (address a, some v)
command radix w cmd write (first ∷ offset ∷ value ∷ []) =
    uio_target radix first offset >>= λ t. parse_value value radix w >>= λ v. ok (t, some v)
command radix w cmd write (_ ∷ _ ∷ _ ∷ _ ∷ _) = err extra_args

-- `match positionals.as_slice()`.
unfoldable pub operands : Options → Result CliError (CliTarget × Option ℕ)
unfolding command verb
operands o = elim o.positionals [
  | [] ↦ err missing_command
  | cmd ∷ rest ↦ command o.default_radix o.width cmd (verb cmd) rest
]
