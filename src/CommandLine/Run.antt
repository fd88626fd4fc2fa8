-- ===== src/CommandLine/Run.antt =====
-- `run_cli` of src/main.rs: profiles, then the access.
use mmreg.CommandLine.Operands.{Options, no_options, options, operands}
use mmreg.CommandLine.{
  CliTarget, address, CliError, profile_error, read_error, write_error, Output, usage, version,
  printed, wrote, format_hex,
}
use mmreg.Error.{MmregError, validation_profile_parse}
use mmreg.Memory.{Width, u32}
use mmreg.Message.{unexpected_end}
use mmreg.Prelude.{
  ℕ, ◌%◌, ◌^◌, Bool, true, false, ◌||◌, List, [], ◌∷◌, Option, none, some, if◌then◌else◌, Text,
  codes, text_eq, Result, ok, err,
}
use mmreg.Validation.Profile.{from_file}
use mmreg.Validation.{SafetyProfile, Reader, execute_with}

-- `trait CliBackend`, on the state that the backend keeps.
pub record CliBackend (S : Type 0) : Type 0 where
  pub read : CliTarget → Width → Bool → S → Result MmregError ℕ × S
  pub write : CliTarget → Width → ℕ → Bool → S → Result MmregError (Unit {0}) × S

-- One of the arguments is `x` or `y`.
unfoldable pub asks_for : Text → Text → List Text → Bool
unfolding text_eq
asks_for x y [] = false
asks_for x y (a ∷ rest) = text_eq a x || text_eq a y || asks_for x y rest

module _ {S : Type 0} (read_to_string : Text → Result Text Text) (b : CliBackend S) where
  -- The reader that the profiles are run with.
  abbrev pub profile_reader : Reader S
  profile_reader addr s =
      let (r, t) = b.read (address addr) u32 true s in
      (elim r [ ok v ↦ ok (v % 2 ^ 32) | err e ↦ err e ], t)

  -- The end of `run_profile`, once the file is read. Reading a profile always ends, so that it is
  -- never out of fuel.
  unfoldable pub run_loaded :
      Option (Result MmregError SafetyProfile) → S → Result CliError (Unit {0}) × S
  unfolding execute_with
  run_loaded none s = (err (profile_error (validation_profile_parse unexpected_end)), s)
  run_loaded (some (err e)) s = (err (profile_error e), s)
  run_loaded (some (ok profile)) s =
      let (r, t) = execute_with profile profile_reader s in
      (elim r [ ok u ↦ ok u | err e ↦ err (profile_error e) ], t)

  -- `run_profile`.
  unfoldable pub run_profile : Text → S → Result CliError (Unit {0}) × S
  unfolding from_file run_loaded
  run_profile path s = run_loaded (from_file read_to_string path) s

  -- The loop over the profiles.
  unfoldable pub run_profiles : List Text → S → Result CliError (Unit {0}) × S
  unfolding run_profile
  run_profiles [] s = (ok tt, s)
  run_profiles (path ∷ paths) s =
      let (r, t) = run_profile path s in elim r [ ok u ↦ run_profiles paths t | err e ↦ (err e, t) ]

  -- The access.
  unfoldable pub perform : Options → CliTarget → Option ℕ → S → Result CliError Output × S
  unfolding format_hex
  perform o target none s =
      let (r, t) = b.read target o.width o.force_map s in
      (elim r [ ok v ↦ ok (printed (format_hex v o.width)) | err e ↦ err (read_error e) ], t)
  perform o target (some v) s =
      let (r, t) = b.write target o.width v o.force_map s in
      (elim r [ ok u ↦ ok (wrote (format_hex v o.width) target) | err e ↦ err (write_error e) ], t)

  -- The rest of `run_cli`, once the operands are known.
  unfoldable pub checked : Options → CliTarget → Option ℕ → S → Result CliError Output × S
  unfolding run_profiles perform
  checked o target value s =
      let (r, t) = run_profiles o.validate_paths s in
      elim r [ ok u ↦ perform o target value t | err e ↦ (err e, t) ]

  unfoldable pub parsed : Result CliError Options → S → Result CliError Output × S
  unfolding operands checked
  parsed (err e) s = (err e, s)
  parsed (ok o) s = elim (operands o) [
    | err e ↦ (err e, s)
    | ok request ↦ checked o request.0 request.1 s
  ]

  -- `run_cli`, on the arguments after the program's name.
  unfoldable pub run_cli : List Text → S → Result CliError Output × S
  unfolding asks_for options parsed
  run_cli args s =
      if asks_for (codes "-h") (codes "--help") args
      then (ok usage, s)
      else if asks_for (codes "-V") (codes "--version") args
      then (ok version, s)
      else parsed (options no_options args) s
