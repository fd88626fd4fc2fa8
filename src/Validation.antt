-- ===== src/Validation.antt =====
-- Safety profiles: src/validation.rs (`ValidationCheck`, `SafetyProfile::execute_with`).
pub mod Execute
pub mod Json
pub mod Profile
use mmreg.Error.{MmregError, validation_hook_failed}
use mmreg.Prelude.{ℕ, List, [], ◌∷◌, ◌==◌, not, if◌then◌else◌, Text, Result, ok, err, bit_and}

-- `struct ValidationCheck`.
pub record ValidationCheck : Type 0 where
  pub name : Text
  pub addr : ℕ
  pub mask : ℕ
  pub expected : ℕ

-- `struct SafetyProfile`.
pub record SafetyProfile : Type 0 where
  pub name : Text
  pub checks : List ValidationCheck

-- A register reader: `FnMut(u64) -> Result<u32, MmregError>`, with the state that it keeps.
abbrev pub Reader : Type 0 → Type 0
Reader S = ℕ → S → Result MmregError ℕ × S

-- The comparison of one check with the value that was read.
unfoldable pub run_check : Text → ValidationCheck → ℕ → Result MmregError (Unit {0})
run_check profile_name c actual =
    if not (bit_and actual c.mask == bit_and c.expected c.mask)
    then err (validation_hook_failed profile_name c.name c.addr c.mask c.expected actual)
    else ok tt

module _ {S : Type 0} (read_fn : Reader S) (profile_name : Text) where
  -- The loop over the checks.
  unfoldable pub run_checks : List ValidationCheck → S → Result MmregError (Unit {0}) × S
  run_checks [] s = (ok tt, s)
  run_checks (c ∷ cs) s =
      let (r, t) = read_fn c.addr s in
      elim r [
        | ok actual ↦ elim (run_check profile_name c actual) [
          | ok _ ↦ run_checks cs t
          | err e ↦ (err e, t)
        ]
        | err e ↦ (err e, t)
      ]

-- `SafetyProfile::execute_with`.
unfoldable pub execute_with :
    {S : Type 0} → SafetyProfile → Reader S → S → Result MmregError (Unit {0}) × S
unfolding run_checks run_check
execute_with profile read_fn s = run_checks read_fn profile.name profile.checks s
