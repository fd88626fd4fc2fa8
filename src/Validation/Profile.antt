-- ===== src/Validation/Profile.antt =====
-- Safety profiles in JSON: `parse_check` and `parse_profile` of src/validation.rs.
pub mod Total
pub mod WellFormed
use mmreg.Error.{MmregError, validation_profile_parse}
use mmreg.Message.{
  ProfileMessage, read_failed, expected_in_object, expected_in_checks, duplicate_check_key,
  unknown_check_key, missing_in_check, duplicate_key, unknown_key, trailing_characters,
  missing_checks, no_checks, missing_name,
}
use mmreg.Prelude.{
  ℕ, ◌+◌, Bool, true, false, List, [], ◌∷◌, ◌++◌, Option, none, some, ◌==◌, if◌then◌else◌, Text,
  codes, text_eq, length, Result, ok, err,
}
use mmreg.Strings.{strip_prefix}
use mmreg.Validation.Json.{
  Outcome, done, failed, out_of_fuel, Parser, pure, fail, continue, ◌>>=◌, ◌>>◌, peek, expect,
  list_of,
}
use mmreg.Validation.Json.Numbers.{parse_u64, parse_u32}
use mmreg.Validation.Json.Quoted.{parse_string}
use mmreg.Validation.Json.Skip.{parse_object, skip_any, skip_value}
use mmreg.Validation.{ValidationCheck, SafetyProfile}

-- The variables of `parse_check`.
pub record CheckFields : Type 0 where
  pub name : Option Text
  pub addr : Option ℕ
  pub mask : Option ℕ
  pub expected : Option ℕ

abbrev pub no_fields : CheckFields
no_fields = record { name = none; addr = none; mask = none; expected = none }

-- The keys that `match key.as_str()` tells apart.
pub data CheckKey : Type 0 where
  name_key addr_key mask_key expected_key extension_key other_key : CheckKey

abbrev pub is_extension : Text → Bool
is_extension key = elim (strip_prefix (codes "x-") key) [ some rest ↦ true | none ↦ false ]

unfoldable pub check_key : Text → CheckKey
unfolding text_eq strip_prefix
check_key key =
    if text_eq key (codes "name")
    then name_key
    else if text_eq key (codes "addr")
    then addr_key
    else if text_eq key (codes "mask")
    then mask_key
    else if text_eq key (codes "expected")
    then expected_key
    else if is_extension key
    then extension_key
    else other_key

-- A value for a field that has none; otherwise the key is a duplicate.
abbrev pub once : {A S : Type 0} → ProfileMessage → Option A → Parser A → (A → S) → Parser S
once duplicate (some a) p f = fail duplicate
once duplicate none p f = p >>= λ a. pure (f a)

-- The arms of the closure of `parse_check`.
unfoldable pub field_of_key : CheckFields → Text → CheckKey → Parser CheckFields
unfolding parse_string parse_u64 parse_u32 skip_value
field_of_key s key name_key =
    once (duplicate_check_key key) s.name parse_string (λ v. record s { name = some v })
field_of_key s key addr_key =
    once (duplicate_check_key key) s.addr parse_u64 (λ v. record s { addr = some v })
field_of_key s key mask_key =
    once (duplicate_check_key key) s.mask parse_u32 (λ v. record s { mask = some v })
field_of_key s key expected_key =
    once (duplicate_check_key key) s.expected parse_u32 (λ v. record s { expected = some v })
field_of_key s key extension_key = skip_any >> pure s
field_of_key s key other_key = fail (unknown_check_key key)

unfoldable pub check_field : CheckFields → Text → Parser CheckFields
unfolding check_key field_of_key
check_field s key = field_of_key s key (check_key key)

-- `ok_or_else` of a field.
abbrev pub required : {A : Type 0} → Option A → ProfileMessage → Parser A
required none e = fail e
required (some a) e = pure a

-- The end of `parse_check`.
unfoldable pub finish_check : CheckFields → Parser ValidationCheck
finish_check s = required s.name (missing_in_check (codes "name")) >>= λ name.
    required s.addr (missing_in_check (codes "addr")) >>= λ addr.
    required s.mask (missing_in_check (codes "mask")) >>= λ mask.
    required s.expected (missing_in_check (codes "expected")) >>= λ expected.
    pure (record { name = name; addr = addr; mask = mask; expected = expected })

-- `parse_check`.
unfoldable pub parse_check : Parser ValidationCheck
unfolding parse_object check_field finish_check
parse_check = parse_object check_field no_fields >>= finish_check

-- The loop over `checks`.
unfoldable pub parse_checks : Parser (List ValidationCheck)
unfolding expect list_of parse_check
parse_checks =
    expect b'['
    >> list_of b']' expected_in_checks (λ list. parse_check >>= λ c. pure (list ++ c ∷ [])) []

-- The variables of `parse_profile`.
pub record ProfileFields : Type 0 where
  pub name : Option Text
  pub checks : Option (List ValidationCheck)

abbrev pub no_profile : ProfileFields
no_profile = record { name = none; checks = none }

pub data ProfileKey : Type 0 where
  profile_name profile_checks profile_extension profile_other : ProfileKey

unfoldable pub profile_key : Text → ProfileKey
unfolding text_eq strip_prefix
profile_key key =
    if text_eq key (codes "name")
    then profile_name
    else if text_eq key (codes "checks")
    then profile_checks
    else if is_extension key
    then profile_extension
    else profile_other

-- The arms of the closure of `parse_profile`.
unfoldable pub profile_field_of_key : ProfileFields → Text → ProfileKey → Parser ProfileFields
unfolding parse_string parse_checks skip_value
profile_field_of_key s key profile_name =
    once (duplicate_key key) s.name parse_string (λ v. record s { name = some v })
profile_field_of_key s key profile_checks =
    once (duplicate_key key) s.checks parse_checks (λ v. record s { checks = some v })
profile_field_of_key s key profile_extension = skip_any >> pure s
profile_field_of_key s key profile_other = fail (unknown_key key)

unfoldable pub profile_field : ProfileFields → Text → Parser ProfileFields
unfolding profile_key profile_field_of_key
profile_field s key = profile_field_of_key s key (profile_key key)

-- After the object: the end of the input, then the fields.
abbrev pub some_checks : List ValidationCheck → Parser (List ValidationCheck)
some_checks [] = fail no_checks
some_checks (c ∷ cs) = pure (c ∷ cs)

abbrev pub at_end : Option ℕ → Parser (Unit {0})
at_end none = pure tt
at_end (some c) = fail trailing_characters

unfoldable pub finish_profile : ProfileFields → Parser SafetyProfile
unfolding peek
finish_profile s =
    (peek >>= at_end) >> required s.checks missing_checks >>= some_checks >>= λ checks.
    required s.name missing_name >>= λ name. pure (record { name = name; checks = checks })

-- `Parser::new` drops a byte order mark.
abbrev pub without_mark : Text → Text
without_mark [] = []
without_mark (c ∷ cs) = if c == 0xfeff then cs else c ∷ cs

-- `parse_profile`.
unfoldable pub parse_profile : Text → Outcome (SafetyProfile × Text)
unfolding parse_object profile_field finish_profile
parse_profile input =
    (parse_object profile_field no_profile >>= finish_profile) (without_mark input)

-- The result of `parse`, if the reading ended.
abbrev pub report : Outcome (SafetyProfile × Text) → Option (Result MmregError SafetyProfile)
report (done q) = some (ok q.0)
report (failed e) = some (err (validation_profile_parse e))
report out_of_fuel = none

-- `SafetyProfile::parse`.
unfoldable pub parse : Text → Option (Result MmregError SafetyProfile)
unfolding parse_profile
parse json_str = report (parse_profile json_str)

-- `SafetyProfile::from_file`, on what `read_to_string` gives for each path.
unfoldable pub from_file :
    (Text → Result Text Text) → Text → Option (Result MmregError SafetyProfile)
unfolding parse
from_file read_to_string path = elim (read_to_string path) [
  | ok content ↦ parse content
  | err e ↦ some (err (validation_profile_parse (read_failed path e)))
]
