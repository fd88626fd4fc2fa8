-- ===== src/CommandLine/Trace.antt =====
-- What `run_cli` (src/main.rs) does to the hardware, in order.
use mmreg.CommandLine.Keeps.{run_profiles-keeps}
use mmreg.CommandLine.Operands.{Options, no_options, options, operands}
use mmreg.CommandLine.Request.{IsRequest, operands-IsRequest, options-radix}
use mmreg.CommandLine.Run.{CliBackend, run_profiles, perform, checked, parsed, run_cli, asks_for}
use mmreg.CommandLine.{CliTarget, address, CliError, Output, usage, version}
use mathlib.Core.Path.{subst}
use mmreg.Memory.{Width, u32}
use mmreg.Prelude.{
  ℕ, Bool, true, false, List, [], ◌∷◌, Option, none, some, if◌then◌else◌, Text, Result, ok, err,
  ◌≡◌, refl, sym, codes, arith,
}

-- An access of the backend.
pub data Access : Type 0 where
  reading : CliTarget → Width → Bool → Access
  writing : CliTarget → Width → ℕ → Bool → Access

-- A backend that also lists its accesses, latest first.
abbrev pub traced : {S : Type 0} → CliBackend S → CliBackend (S × List Access)
traced b = record {
  read = λ t w f q. let (r, s) = b.read t w f q.0 in (r, (s, reading t w f ∷ q.1));
  write = λ t w v f q. let (r, s) = b.write t w v f q.0 in (r, (s, writing t w v f ∷ q.1));
}

-- Reads of words at addresses, as the checks of profiles make them.
abbrev pub AreChecks : List Access → Type 0
AreChecks [] = Unit
AreChecks (reading (address a) u32 true ∷ log) = AreChecks log
AreChecks (_ ∷ log) = ⊥

-- The access that was asked for.
abbrev pub requested : Options → CliTarget × Option ℕ → Access
requested o (t, none) = reading t o.width o.force_map
requested o (t, some v) = writing t o.width v o.force_map

-- The accesses of a run: the checks of profiles, and after them at most the access that the
-- arguments ask for.
pub data IsRun (args : List Text) : List Access → Type 0 where
  checks : {log : List Access} → AreChecks log → IsRun args log
  access :
      (o : Options) (q : CliTarget × Option ℕ) {log : List Access}
      → options no_options args ≡ ok o
      → operands o ≡ ok q
      → IsRequest o.width q
      → AreChecks log
      → IsRun args (requested o q ∷ log)

module _ {S : Type 0} (read_to_string : Text → Result Text Text) (b : CliBackend S) where
  abbrev Checked : S × List Access → Type 0
  Checked q = AreChecks q.1

  perform-log :
      (o : Options) (target : CliTarget) (value : Option ℕ) (q : S × List Access)
      → (perform read_to_string (traced b) o target value q).1.1 ≡ requested o (target, value) ∷ q.1
  unfolding perform
  perform-log o target none q = refl
  perform-log o target (some v) q = refl

  checked-IsRun :
      (args : List Text) (o : Options) (request : CliTarget × Option ℕ) (s : S)
      → options no_options args ≡ ok o
      → operands o ≡ ok request
      → IsRun args (checked read_to_string (traced b) o request.0 request.1 (s, [])).1.1
  unfolding checked
  checked-IsRun args o request s h g =
      go (run_profiles read_to_string (traced b) o.validate_paths (s, [])) (
        run_profiles-keeps Checked read_to_string (traced b) (λ a q h. h) o.validate_paths (s, [])
          tt)
    where
      go :
          (x : Result CliError (Unit {0}) × (S × List Access))
          → Checked x.1
          → IsRun args
              (elim x.0 as (λ y. Result CliError Output × (S × List Access)) [
                | ok u ↦ perform read_to_string (traced b) o request.0 request.1 x.1
                | err e ↦ (err e, x.1)
              ]).1.1
      go (err e, t) c = checks c
      go (ok u, t) c = subst (IsRun args) (sym (perform-log o request.0 request.1 t)) (
          access o request h g
            (operands-IsRequest o (options-radix no_options args (omega arith) h) g) c)

  parsed-IsRun :
      (args : List Text) (s : S) (r : Result CliError Options)
      → options no_options args ≡ r
      → IsRun args (parsed read_to_string (traced b) r (s, [])).1.1
  unfolding parsed
  parsed-IsRun args s (err e) h = checks tt
  parsed-IsRun args s (ok o) h = go (operands o) refl
    where
      go :
          (r : Result CliError (CliTarget × Option ℕ))
          → operands o ≡ r
          → IsRun args
              (elim r as (λ y. Result CliError Output × (S × List Access)) [
                | err e ↦ (err e, (s, []))
                | ok request ↦ checked read_to_string (traced b) o request.0 request.1 (s, [])
              ]).1.1
      go (err e) g = checks tt
      go (ok request) g = checked-IsRun args o request s h g

  -- A run of the command line touches the hardware only in this order: first the word reads that
  -- the checks of profiles make, and then, at the very end and at most once, the access that the
  -- arguments ask for, if they ask for one without an error. Then its address has 64 bits, its
  -- offset 32, and a value that is written the width of the access.
  pub run_cli-IsRun :
      (args : List Text) (s : S) → IsRun args (run_cli read_to_string (traced b) args (s, [])).1.1
  unfolding run_cli
  run_cli-IsRun args s = after (asks_for (codes "-h") (codes "--help") args) usage _ (
      after (asks_for (codes "-V") (codes "--version") args) version _
        (parsed-IsRun args s (options no_options args) refl))
    where
      after :
          (c : Bool) (out : Output) (x : Result CliError Output × (S × List Access))
          → IsRun args x.1.1
          → IsRun args (if c then (ok out, (s, [])) else x).1.1
      after true out x h = checks tt
      after false out x h = h
