-- ===== src/CommandLine/Keeps.antt =====
-- What a run of the command line (src/main.rs) keeps, if the backend keeps it.
use mmreg.CommandLine.Operands.{Options, no_options, options, operands}
use mmreg.CommandLine.Run.{
  CliBackend, profile_reader, run_loaded, run_profile, run_profiles, perform, checked, parsed,
  run_cli, asks_for,
}
use mmreg.CommandLine.{CliTarget, address, CliError, Output, usage, version}
use mmreg.Error.{MmregError}
use mmreg.Memory.{Width, u32}
use mmreg.Prelude.{
  ℕ, Bool, true, false, List, [], ◌∷◌, Option, none, some, if◌then◌else◌, Text, Result, ok, err,
  codes,
}
use mmreg.Validation.Execute.{run_checks-keeps}
use mmreg.Validation.Profile.{from_file}
use mmreg.Validation.{SafetyProfile, execute_with}

module _ {S : Type 0} (P : S → Type 0) (read_to_string : Text → Result Text Text) (b : CliBackend S)
    (reads : (a : ℕ) (s : S) → P s → P (b.read (address a) u32 true s).1) where
  run_loaded-keeps :
      (loaded : Option (Result MmregError SafetyProfile)) (s : S)
      → P s
      → P (run_loaded read_to_string b loaded s).1
  unfolding run_loaded execute_with
  run_loaded-keeps none s h = h
  run_loaded-keeps (some (err e)) s h = h
  run_loaded-keeps (some (ok profile)) s h =
      run_checks-keeps P (profile_reader read_to_string b) profile.name reads profile.checks s h

  run_profile-keeps : (path : Text) (s : S) → P s → P (run_profile read_to_string b path s).1
  unfolding run_profile
  run_profile-keeps path s h = run_loaded-keeps (from_file read_to_string path) s h

  pub run_profiles-keeps :
      (paths : List Text) (s : S) → P s → P (run_profiles read_to_string b paths s).1
  unfolding run_profiles
  run_profiles-keeps [] s h = h
  run_profiles-keeps (path ∷ paths) s h =
      let now = run_profile-keeps path s h in
      go (run_profile read_to_string b path s) now
        (run_profiles-keeps paths (run_profile read_to_string b path s).1 now)
    where
      go :
          (x : Result CliError (Unit {0}) × S)
          → P x.1
          → P (run_profiles read_to_string b paths x.1).1
          → P
              (elim x.0 as (λ y. Result CliError (Unit {0}) × S) [
                | ok u ↦ run_profiles read_to_string b paths x.1
                | err e ↦ (err e, x.1)
              ]).1
      go (ok u, t) now later = later
      go (err e, t) now later = now

module _ {S : Type 0} (P : S → Type 0) (read_to_string : Text → Result Text Text) (b : CliBackend S)
    (reads : (t : CliTarget) (w : Width) (f : Bool) (s : S) → P s → P (b.read t w f s).1)
    (writes : (t : CliTarget) (w : Width) (v : ℕ) (f : Bool) (s : S)
      → P s
      → P (b.write t w v f s).1) where
  perform-keeps :
      (o : Options) (target : CliTarget) (value : Option ℕ) (s : S)
      → P s
      → P (perform read_to_string b o target value s).1
  unfolding perform
  perform-keeps o target none s h = reads target o.width o.force_map s h
  perform-keeps o target (some v) s h = writes target o.width v o.force_map s h

  checked-keeps :
      (o : Options) (target : CliTarget) (value : Option ℕ) (s : S)
      → P s
      → P (checked read_to_string b o target value s).1
  unfolding checked
  checked-keeps o target value s h =
      go (run_profiles read_to_string b o.validate_paths s) (
        run_profiles-keeps P read_to_string b (λ a. reads (address a) u32 true) o.validate_paths s
          h)
    where
      go :
          (x : Result CliError (Unit {0}) × S)
          → P x.1
          → P
              (elim x.0 as (λ y. Result CliError Output × S) [
                | ok u ↦ perform read_to_string b o target value x.1
                | err e ↦ (err e, x.1)
              ]).1
      go (err e, t) c = c
      go (ok u, t) c = perform-keeps o target value t c

  parsed-keeps : (r : Result CliError Options) (s : S) → P s → P (parsed read_to_string b r s).1
  unfolding parsed
  parsed-keeps (err e) s h = h
  parsed-keeps (ok o) s h = go (operands o)
    where
      go :
          (r : Result CliError (CliTarget × Option ℕ))
          → P
              (elim r as (λ y. Result CliError Output × S) [
                | err e ↦ (err e, s)
                | ok request ↦ checked read_to_string b o request.0 request.1 s
              ]).1
      go (err e) = h
      go (ok request) = checked-keeps o request.0 request.1 s h

  pub run_cli-keeps : (args : List Text) (s : S) → P s → P (run_cli read_to_string b args s).1
  unfolding run_cli
  run_cli-keeps args s h = after (asks_for (codes "-h") (codes "--help") args) usage _ (
      after (asks_for (codes "-V") (codes "--version") args) version _
        (parsed-keeps (options no_options args) s h))
    where
      after :
          (c : Bool) (out : Output) (x : Result CliError Output × S)
          → P x.1
          → P (if c then (ok out, s) else x).1
      after true out x g = h
      after false out x g = g
