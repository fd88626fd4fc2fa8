-- ===== src/Validation/Profile/Total.antt =====
-- `SafetyProfile::parse` (src/validation.rs) gives a result for every text.
use mmreg.Error.{MmregError}
use mmreg.Message.{ProfileMessage, expected_in_checks}
use mmreg.Prelude.{
  ℕ, List, [], ◌∷◌, ◌++◌, Option, none, some, Text, Result, length, ◌≡◌, refl, arith,
}
use mmreg.Validation.Json.{Outcome, done, failed, out_of_fuel, Parser, pure, peek, expect}
use mmreg.Validation.Json.Readers.{
  parse_string-IsReader, parse_u64-IsReader, parse_u32-IsReader, parse_object-IsReader,
  skip_value-IsReader,
}
use mmreg.Validation.Json.Within.{
  IsWithin, IsReader, IsReader-bind, IsReader-pure, peek-IsReader, expect-IsReader,
  list_of-IsReader,
}
use mmreg.Validation.Profile.{
  CheckFields, CheckKey, name_key, addr_key, mask_key, expected_key, extension_key, other_key,
  check_key, once, check_field, required, finish_check, parse_check, parse_checks, ProfileFields,
  ProfileKey, profile_name, profile_checks, profile_extension, profile_other, profile_key,
  profile_field, some_checks, at_end, finish_profile, without_mark, parse_profile, report, parse,
  no_fields, no_profile, field_of_key, profile_field_of_key,
}
use mmreg.Validation.{ValidationCheck, SafetyProfile}

once-IsReader :
    {A S : Type 0} (e : ProfileMessage) (o : Option A) (p : Parser A) (f : A → S)
    → IsReader p
    → IsReader (once e o p f)
once-IsReader e (some a) p f h = λ t. tt
once-IsReader e none p f h = IsReader-bind p _ h (λ a. IsReader-pure (f a))

required-IsReader : {A : Type 0} (o : Option A) (e : ProfileMessage) → IsReader (required o e)
required-IsReader none e = λ t. tt
required-IsReader (some a) e = IsReader-pure a

check_field-IsReader : (s : CheckFields) (key : Text) → IsReader (check_field s key)
unfolding check_field field_of_key
check_field-IsReader s key = go (check_key key)
  where
    go : (k : CheckKey) → IsReader (field_of_key s key k)
    go name_key = once-IsReader _ s.name _ _ parse_string-IsReader
    go addr_key = once-IsReader _ s.addr _ _ parse_u64-IsReader
    go mask_key = once-IsReader _ s.mask _ _ parse_u32-IsReader
    go expected_key = once-IsReader _ s.expected _ _ parse_u32-IsReader
    go extension_key = IsReader-bind _ _ (skip_value-IsReader 33) (λ _. IsReader-pure s)
    go other_key = λ t. tt

finish_check-IsReader : (s : CheckFields) → IsReader (finish_check s)
unfolding finish_check
finish_check-IsReader s = IsReader-bind _ _ (required-IsReader s.name _) λ name.
    IsReader-bind _ _ (required-IsReader s.addr _) λ addr.
      IsReader-bind _ _ (required-IsReader s.mask _)
        λ mask. IsReader-bind _ _ (required-IsReader s.expected _) λ expected t. omega arith

parse_check-IsReader : IsReader parse_check
unfolding parse_check
parse_check-IsReader =
    IsReader-bind _ finish_check (parse_object-IsReader check_field check_field-IsReader no_fields)
      finish_check-IsReader

parse_checks-IsReader : IsReader parse_checks
unfolding parse_checks
parse_checks-IsReader = IsReader-bind (expect b'[') _ (expect-IsReader b'[') (λ _.
    list_of-IsReader b']' expected_in_checks _
      (λ list.
        IsReader-bind parse_check (λ c. pure (list ++ c ∷ [])) parse_check-IsReader
          (λ c. IsReader-pure (list ++ c ∷ [])))
      [])

profile_field-IsReader : (s : ProfileFields) (key : Text) → IsReader (profile_field s key)
unfolding profile_field profile_field_of_key
profile_field-IsReader s key = go (profile_key key)
  where
    go : (k : ProfileKey) → IsReader (profile_field_of_key s key k)
    go profile_name = once-IsReader _ s.name _ _ parse_string-IsReader
    go profile_checks = once-IsReader _ s.checks _ _ parse_checks-IsReader
    go profile_extension = IsReader-bind _ _ (skip_value-IsReader 33) (λ _. IsReader-pure s)
    go profile_other = λ t. tt

at_end-IsReader : (c : Option ℕ) → IsReader (at_end c)
at_end-IsReader none = IsReader-pure tt
at_end-IsReader (some c) = λ t. tt

some_checks-IsReader : (cs : List ValidationCheck) → IsReader (some_checks cs)
some_checks-IsReader [] = λ t. tt
some_checks-IsReader (c ∷ cs) = IsReader-pure (c ∷ cs)

finish_profile-IsReader : (s : ProfileFields) → IsReader (finish_profile s)
unfolding finish_profile
finish_profile-IsReader s =
    IsReader-bind _ _
      (IsReader-bind _ _
        (IsReader-bind _ _ (IsReader-bind peek at_end peek-IsReader at_end-IsReader)
          (λ _. required-IsReader s.checks _))
        some_checks-IsReader)
      (λ checks. IsReader-bind _ _ (required-IsReader s.name _) (λ name t. omega arith))

pub parse_profile-IsWithin :
    (input : Text) → IsWithin (length (without_mark input)) (parse_profile input)
unfolding parse_profile
parse_profile-IsWithin input =
    IsReader-bind _ finish_profile
      (parse_object-IsReader profile_field profile_field-IsReader no_profile)
      finish_profile-IsReader (without_mark input)

report-ends :
    (n : ℕ) (o : Outcome (SafetyProfile × Text))
    → IsWithin n o
    → (r : Result MmregError SafetyProfile) × (report o ≡ some r)
report-ends n (done q) h = (_, refl)
report-ends n (failed e) h = (_, refl)
report-ends n out_of_fuel h = elim h [ ]

-- For every text, `parse` ends: it returns a profile, or an error that says why the text is none. No
-- nesting, and no length of a string, an array or an object, makes it run out of fuel.
pub parse_total :
    (json_str : Text) → (r : Result MmregError SafetyProfile) × (parse json_str ≡ some r)
unfolding parse
parse_total json_str = report-ends _ (parse_profile json_str) (parse_profile-IsWithin json_str)
