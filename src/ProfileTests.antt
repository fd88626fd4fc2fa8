-- ===== src/ProfileTests.antt =====
-- Safety profiles in JSON at fixed texts (src/validation.rs).
use mmreg.Error.{MmregError, validation_profile_parse}
use mmreg.Message.{duplicate_key, no_checks, trailing_characters, unpaired_surrogate}
use mmreg.Prelude.{some, [], ◌∷◌, ok, err, Text, Result, codes, ◌≡◌, refl}
use mmreg.Validation.Profile.Total.{parse_total}
use mmreg.Validation.Profile.WellFormed.{IsProfile, parse-IsProfile}
use mmreg.Validation.Profile.{parse}
use mmreg.Validation.{SafetyProfile}

abbrev power : Text
power =
    codes
      "{ \"checks\": [{\"name\": \"on\", \"addr\": \"0x40\", \"mask\": 15, \"expected\": 1}], \"x-note\": [1.5e3, null], \"name\": \"p\\n\" }"

abbrev power_profile : SafetyProfile
power_profile = record {
  name = b'p' ∷ 10 ∷ [];
  checks = record { name = codes "on"; addr = 0x40; mask = 15; expected = 1 } ∷ [];
}

power_accepted : parse power ≡ some (ok power_profile)
unfolding parse
power_accepted = refl

parse-IsProfile_example : IsProfile power_profile
parse-IsProfile_example = parse-IsProfile power power_accepted

parse_total_example :
    (r : Result MmregError SafetyProfile) × (parse (codes "{\"name\": \"a\", ") ≡ some r)
parse_total_example = parse_total (codes "{\"name\": \"a\", ")

twice :
    parse (codes "{\"name\": \"a\", \"name\": \"b\"}")
    ≡ some (err (validation_profile_parse (duplicate_key (codes "name"))))
unfolding parse
twice = refl

empty_checks :
    parse (codes "{\"name\": \"a\", \"checks\": []}")
    ≡ some (err (validation_profile_parse no_checks))
unfolding parse
empty_checks = refl

after_the_end :
    parse (codes "{\"name\": \"a\"} x") ≡ some (err (validation_profile_parse trailing_characters))
unfolding parse
after_the_end = refl

half_a_pair :
    parse (codes "{\"\\ud800\": 1}") ≡ some (err (validation_profile_parse unpaired_surrogate))
unfolding parse
half_a_pair = refl
