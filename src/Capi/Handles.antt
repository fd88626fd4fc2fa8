-- ===== src/Capi/Handles.antt =====
-- What opening by the C interface leaves (bindings/c/src/lib.rs, `open_with_builder`).
use mmreg.Capi.Flags.{Flags, parse_flags, judge_flags, has_unknown, decode_flags, unknown_message}
use mmreg.Capi.Open.{
  Opening, mock_limit, opening_error, report_open, open_flagged, open_parsed, open_with_builder,
  setting_for, with_flags, with_mock, mmreg_close, limit_message,
}
use mmreg.Capi.Reports.{IsReported, set_mmreg_error-IsReported, set_arg_error-IsReported}
use mmreg.Capi.{Errors, set_mmreg_error, set_arg_error}
use mmreg.Error.{MmregError}
use mmreg.Message.{ProfileMessage}
use mmreg.Opening.Balance.{Owns, open_device-Owns}
use mmreg.Opening.Build.{Setting, open_device}
use mmreg.Opening.Ledger.{IsBalanced, level}
use mmreg.Opening.{DeviceBuilder, OpenLog, OpenWorld, Opened}
use mmreg.Prelude.{
  ℕ, Bool, true, false, not, ◌&&◌, Option, none, some, ◌==◌, if◌then◌else◌, codes, Text, Result, ok,
  err, ◌≡◌, refl,
}

module _ {Mem : Type 0} (details_of : ProfileMessage → Text) (e : Setting Mem) (thread : ℕ) where
  -- What an opening leaves: null with an error for the thread, and nothing held; or a handle with no
  -- error, and nothing held once it is closed.
  abbrev pub IsOpening : OpenLog → Errors → Opening Mem → Type 0
  IsOpening log before (none, after, w) = IsReported thread before after × IsBalanced log w.log
  IsOpening log before (some o, after, w) =
      (after ≡ before) × IsBalanced log (mmreg_close details_of e thread (some o) w).log

  opening_error-IsReported :
      (mock : Bool) (x : MmregError) (errors : Errors)
      → IsReported thread errors (opening_error details_of e thread mock x errors)
  opening_error-IsReported false x errors = set_mmreg_error-IsReported details_of thread x errors
  opening_error-IsReported true x errors = go (mock_limit x)
    where
      go :
          (o : Option ℕ)
          → IsReported thread errors (elim o [
            | some size ↦ set_arg_error thread (limit_message size) errors
            | none ↦ set_mmreg_error details_of thread x errors
          ])
      go none = set_mmreg_error-IsReported details_of thread x errors
      go (some size) = set_arg_error-IsReported thread (limit_message size) errors

  report_open-IsOpening :
      (mock : Bool) (log : OpenLog) (errors : Errors) (r : Result MmregError Opened × OpenWorld Mem)
      → Owns e log r
      → IsOpening log errors (report_open details_of e thread mock errors r)
  unfolding report_open mmreg_close
  report_open-IsOpening mock log errors (ok o, w) (held, closed) = (refl, closed)
  report_open-IsOpening mock log errors (err x, w) balanced =
      (opening_error-IsReported mock x errors, balanced)

  opened_as :
      (mock : Bool) (b : DeviceBuilder) (w : OpenWorld Mem)
      → Owns e w.log (open_device (setting_for details_of e thread mock) b w)
  opened_as true b w = owned (open_device (with_mock e) b w) (open_device-Owns (with_mock e) b w)
    where
      owned :
          (r : Result MmregError Opened × OpenWorld Mem)
          → Owns (with_mock e) w.log r
          → Owns e w.log r
      owned (ok o, v) h = h
      owned (err x, v) h = h
  opened_as false b w = open_device-Owns e b w

  open_flagged-IsOpening :
      (b : DeviceBuilder) (allow_region : Bool) (f : Flags) (errors : Errors) (w : OpenWorld Mem)
      → IsOpening w.log errors (open_flagged details_of e thread b allow_region f errors w)
  unfolding open_flagged
  open_flagged-IsOpening b allow_region f errors w =
      go (not allow_region && not (f.region_index == 0))
    where
      refused : Opening Mem
      refused = (
        none,
        set_arg_error thread
            (codes "MMREG_REGION(n) is only valid with mmreg_open_uio / mmreg_open_uio_path.")
            errors,
        w,
      )

      go :
          (bad : Bool)
          → IsOpening w.log errors (
              if bad
              then refused
              else report_open details_of e thread f.mock errors
                  (open_device (setting_for details_of e thread f.mock) (with_flags f b) w))
      go true = (set_arg_error-IsReported thread _ errors, level)
      go false = report_open-IsOpening f.mock w.log errors _ (opened_as f.mock (with_flags f b) w)

  -- Each open function, once its string is read, returns null exactly with an error that it sets for
  -- the calling thread, whose message starts with its code, and then every mapping and power setting
  -- that was taken is given back; or it returns a handle, leaves all errors alone, and closing the
  -- handle gives everything back.
  pub open_with_builder-IsOpening :
      (b : DeviceBuilder) (flags : ℕ) (allow_region : Bool) (errors : Errors) (w : OpenWorld Mem)
      → IsOpening w.log errors (open_with_builder details_of e thread b flags allow_region errors w)
  unfolding open_with_builder open_parsed parse_flags judge_flags
  open_with_builder-IsOpening b flags allow_region errors w =
      go (has_unknown flags) (decode_flags flags)
    where
      go :
          (unknown : Bool) (f : Flags)
          → IsOpening w.log errors (
              open_parsed details_of e thread b allow_region
                (judge_flags thread flags unknown f errors)
                w)
      go true f = (set_arg_error-IsReported thread (unknown_message flags) errors, level)
      go false f = mocked (f.mock && not f.force)
        where
          mocked :
              (bad : Bool)
              → IsOpening w.log errors (
                  open_parsed details_of e thread b allow_region
                    (if bad
                      then (
                        none,
                        set_arg_error thread (codes "MMREG_O_MOCK requires MMREG_O_FORCE.") errors,
                      )
                      else (some f, errors))
                    w)
          mocked true = (
            set_arg_error-IsReported thread (codes "MMREG_O_MOCK requires MMREG_O_FORCE.") errors,
            level,
          )
          mocked false = open_flagged-IsOpening b allow_region f errors w
