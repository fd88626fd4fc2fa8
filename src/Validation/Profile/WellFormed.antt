-- ===== src/Validation/Profile/WellFormed.antt =====
-- What `parse_profile` (src/validation.rs) accepts: a profile that can be run.
use mmreg.Message.{ProfileMessage, expected_in_checks}
use mmreg.Prelude.{
  List, [], ◌∷◌, ◌++◌, Option, none, some, Text, ok, ◌≡◌, some-eq, ok-eq, none-ne-some, err-ne-ok,
  ◌≢◌, ◌<◌, ◌^◌,
}
use mmreg.Validation.Json.{Outcome, done, failed, out_of_fuel, Parser, pure, ◌>>=◌, peek, expect}
use mmreg.Validation.Profile.{
  CheckFields, CheckKey, name_key, addr_key, mask_key, expected_key, extension_key, other_key,
  check_key, once, check_field, required, finish_check, parse_check, parse_checks, ProfileFields,
  ProfileKey, profile_name, profile_checks, profile_extension, profile_other, profile_key,
  profile_field, some_checks, at_end, finish_profile, without_mark, parse_profile, report, parse,
  no_fields, no_profile, field_of_key, profile_field_of_key,
}
use mmreg.Validation.{ValidationCheck, SafetyProfile}
use mmreg.Validation.Json.Gives.{
  Ensures, Gives, Gives-bind, Gives-any, list_of-Gives, parse_object-Gives, parse_u64-Gives,
  parse_u32-Gives,
}
use mmreg.Validation.Json.Quoted.{parse_string}
use mmreg.Validation.Json.Skip.{skip_any}
use mathlib.Core.Path.{subst}

-- Every check of a profile reads an address of 64 bits, with a mask and a value of 32 bits.
abbrev pub IsCheck : ValidationCheck → Type 0
IsCheck c = (c.addr < 2 ^ 64) × (c.mask < 2 ^ 32) × (c.expected < 2 ^ 32)

abbrev pub AreChecks : List ValidationCheck → Type 0
AreChecks [] = Unit
AreChecks (c ∷ cs) = IsCheck c × AreChecks cs

-- A profile has a check, and each of its checks is one that the registers can meet.
abbrev pub IsProfile : SafetyProfile → Type 0
IsProfile s = (s.checks ≢ []) × AreChecks s.checks

AreChecks-snoc :
    (cs : List ValidationCheck) (c : ValidationCheck)
    → AreChecks cs
    → IsCheck c
    → AreChecks (cs ++ c ∷ [])
AreChecks-snoc [] c h g = (g, tt)
AreChecks-snoc (d ∷ cs) c (a, h) g = (a, AreChecks-snoc cs c h g)

-- A value that is there has a property.
abbrev Has : {A : Type 0} → (A → Type 0) → Option A → Type 0
Has P none = Unit
Has P (some a) = P a

-- The fields read so far.
abbrev Fields : CheckFields → Type 0
Fields s =
    Has (λ v. v < 2 ^ 64) s.addr × Has (λ v. v < 2 ^ 32) s.mask × Has (λ v. v < 2 ^ 32) s.expected

once-Gives :
    {A S : Type 0} (P : A → Type 0) (Q : S → Type 0) (e : ProfileMessage) (o : Option A)
    (p : Parser A) (f : A → S)
    → Gives P p
    → ((a : A) → P a → Q (f a))
    → Gives Q (once e o p f)
once-Gives P Q e (some a) p f h g = λ t. tt
once-Gives P Q e none p f h g = Gives-bind P Q p _ h (λ a k t. g a k)

required-Gives :
    {A : Type 0} (P : A → Type 0) (o : Option A) (e : ProfileMessage)
    → Has P o
    → Gives P (required o e)
required-Gives P none e h = λ t. tt
required-Gives P (some a) e h = λ t. h

check_field-Gives : (s : CheckFields) (key : Text) → Fields s → Gives Fields (check_field s key)
unfolding check_field field_of_key
check_field-Gives s key (a, m, e) = go (check_key key)
  where
    go : (k : CheckKey) → Gives Fields (field_of_key s key k)
    go name_key =
        once-Gives (λ _. Unit) Fields _ s.name _ _ (Gives-any parse_string) (λ v _. (a, m, e))
    go addr_key = once-Gives _ Fields _ s.addr _ _ parse_u64-Gives (λ v h. (h, m, e))
    go mask_key = once-Gives _ Fields _ s.mask _ _ parse_u32-Gives (λ v h. (a, h, e))
    go expected_key = once-Gives _ Fields _ s.expected _ _ parse_u32-Gives (λ v h. (a, m, h))
    go extension_key =
        Gives-bind (λ _. Unit) Fields skip_any _ (Gives-any skip_any) (λ _ _ t. (a, m, e))
    go other_key = λ t. tt

finish_check-Gives : (s : CheckFields) → Fields s → Gives IsCheck (finish_check s)
unfolding finish_check
finish_check-Gives s (a, m, e) =
    Gives-bind (λ _. Unit) IsCheck _ _ (Gives-any (required s.name _))
      λ name _.
        Gives-bind (λ v. v < 2 ^ 64) IsCheck _ _ (required-Gives _ s.addr _ a)
          λ addr a'.
            Gives-bind (λ v. v < 2 ^ 32) IsCheck _ _ (required-Gives _ s.mask _ m)
              λ mask m'.
                Gives-bind (λ v. v < 2 ^ 32) IsCheck _ _ (required-Gives _ s.expected _ e)
                  λ expected e' t. (a', m', e')

parse_check-Gives : Gives IsCheck parse_check
unfolding parse_check
parse_check-Gives =
    Gives-bind Fields IsCheck _ finish_check
      (parse_object-Gives Fields check_field check_field-Gives no_fields (tt, tt, tt))
      finish_check-Gives

parse_checks-Gives : Gives AreChecks parse_checks
unfolding parse_checks
parse_checks-Gives =
    Gives-bind (λ _. Unit) AreChecks (expect b'[') _ (Gives-any (expect b'['))
      (λ _ _.
        list_of-Gives AreChecks b']' expected_in_checks
          (λ list. parse_check >>= λ c. pure (list ++ c ∷ []))
          (λ list h.
            Gives-bind IsCheck AreChecks parse_check (λ c. pure (list ++ c ∷ [])) parse_check-Gives
              (λ c g t. AreChecks-snoc list c h g))
          [] tt)

abbrev HasChecks : ProfileFields → Type 0
HasChecks s = Has AreChecks s.checks

profile_field-Gives :
    (s : ProfileFields) (key : Text) → HasChecks s → Gives HasChecks (profile_field s key)
unfolding profile_field profile_field_of_key
profile_field-Gives s key h = go (profile_key key)
  where
    go : (k : ProfileKey) → Gives HasChecks (profile_field_of_key s key k)
    go profile_name =
        once-Gives (λ _. Unit) HasChecks _ s.name _ _ (Gives-any parse_string) (λ v _. h)
    go profile_checks = once-Gives AreChecks HasChecks _ s.checks _ _ parse_checks-Gives (λ v g. g)
    go profile_extension =
        Gives-bind (λ _. Unit) HasChecks skip_any _ (Gives-any skip_any) (λ _ _ t. h)
    go profile_other = λ t. tt

abbrev AreUsable : List ValidationCheck → Type 0
AreUsable cs = (cs ≢ []) × AreChecks cs

some_checks-Gives : (cs : List ValidationCheck) → AreChecks cs → Gives AreUsable (some_checks cs)
some_checks-Gives [] h = λ t. tt
some_checks-Gives (c ∷ cs) h = λ t. ((λ e. cc), h)

finish_profile-Gives : (s : ProfileFields) → HasChecks s → Gives IsProfile (finish_profile s)
unfolding finish_profile
finish_profile-Gives s h =
    Gives-bind AreUsable IsProfile _ _
      (Gives-bind AreChecks AreUsable _ some_checks
        (Gives-bind (λ _. Unit) AreChecks _ _ (Gives-any (peek >>= at_end))
          (λ _ _. required-Gives AreChecks s.checks _ h))
        some_checks-Gives)
      (λ checks g.
        Gives-bind (λ _. Unit) IsProfile _ _ (Gives-any (required s.name _)) (λ name _ t. g))

parse_profile-Ensures : (input : Text) → Ensures IsProfile (parse_profile input)
unfolding parse_profile
parse_profile-Ensures input =
    Gives-bind HasChecks IsProfile _ finish_profile
      (parse_object-Gives HasChecks profile_field profile_field-Gives no_profile tt)
      finish_profile-Gives (without_mark input)

reported :
    (o : Outcome (SafetyProfile × Text)) {s : SafetyProfile}
    → Ensures IsProfile o
    → report o ≡ some (ok s)
    → IsProfile s
reported (done (q, rest)) h e = subst IsProfile (ok-eq (some-eq e)) h
reported (failed x) h e = absurd (err-ne-ok (some-eq e))
reported out_of_fuel h e = absurd (none-ne-some e)

-- A profile that `parse` accepts has at least one check, and in each of them the address is below
-- 2^64 and mask and expected value are below 2^32, whatever numbers the text spells.
pub parse-IsProfile :
    (json_str : Text) {s : SafetyProfile} → parse json_str ≡ some (ok s) → IsProfile s
unfolding parse
parse-IsProfile json_str e = reported (parse_profile json_str) (parse_profile-Ensures json_str) e
