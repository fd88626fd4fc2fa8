-- ===== src/Capi/Open.antt =====
-- Opening and closing by the C interface: bindings/c/src/lib.rs, `open_with_builder`, the open
-- functions, `mmreg_close` and `mmreg_find_uio`.
use mmreg.Capi.Flags.{Flags, parse_flags}
use mmreg.Capi.Mock.{mock_max_size}
use mmreg.Capi.{
  Errors, CString, null, not_utf8, text, set_error, set_arg_error, set_mmreg_error, Status,
  minus_one, zero,
}
use mmreg.Error.Format.{decimal}
use mmreg.Error.{MmregError, out_of_bounds_access}
use mmreg.Message.{ProfileMessage}
use mmreg.Opening.Builder.{
  device_uio, device_uio_path, device_addr, region, with_read_only, with_force, with_custom_mapper,
}
use mmreg.Opening.Build.{Setting, open_device, close}
use mmreg.Opening.{DeviceBuilder, OpenWorld, Opened}
use mmreg.Prelude.{
  ℕ, suc, ◌+◌, Bool, true, false, not, ◌&&◌, List, ◌∷◌, ◌++◌, Option, none, some, ltb, ◌==◌,
  if◌then◌else◌, length, Text, codes, text_eq, Result, ok, err,
}
use mmreg.Preflight.{drop}
use mmreg.Strings.{bytes}

-- What opening returns: a handle or null, the errors, and the state.
abbrev pub Opening : Type 0 → Type 0
Opening Mem = Option Opened × Errors × OpenWorld Mem

-- The mapping of the mock, `CapiMockMapper::map`, fails for a window that is too large.
abbrev pub mock_error : ℕ → Option MmregError
mock_error size =
    if ltb mock_max_size size
    then some (out_of_bounds_access (codes "MMREG_O_MOCK") 0 size mock_max_size)
    else none

abbrev pub with_mock : {Mem : Type 0} → Setting Mem → Setting Mem
with_mock e = record e { os = record e.os { custom_map_error = λ log base size. mock_error size } }

-- The size of the window, in the error of a mock that is too large.
unfoldable pub mock_limit : MmregError → Option ℕ
unfolding text_eq
mock_limit (out_of_bounds_access register_name offset access_size region_size) =
    if text_eq register_name (codes "MMREG_O_MOCK") then some access_size else none
mock_limit e = none

abbrev pub limit_message : ℕ → Text
limit_message size =
    codes "MMREG_O_MOCK window of "
    ++ decimal size
    ++ codes " bytes exceeds the "
    ++ decimal mock_max_size
    ++ codes "-byte limit."

-- A builder that is backed by the mock, if it is asked for.
abbrev pub with_mock_mapper : Bool → DeviceBuilder → DeviceBuilder
with_mock_mapper true b = with_custom_mapper b
with_mock_mapper false b = b

-- The builder with the flags.
abbrev pub with_flags : Flags → DeviceBuilder → DeviceBuilder
with_flags f b =
    with_mock_mapper f.mock
      (with_force f.force (with_read_only f.read_only (region f.region_index b)))

module _ {Mem : Type 0} (details_of : ProfileMessage → Text) (e : Setting Mem) (thread : ℕ) where
  -- The error that is reported of an opening.
  abbrev pub opening_error : Bool → MmregError → Errors → Errors
  opening_error false x errors = set_mmreg_error details_of thread x errors
  opening_error true x errors = elim (mock_limit x) [
    | some size ↦ set_arg_error thread (limit_message size) errors
    | none ↦ set_mmreg_error details_of thread x errors
  ]

  -- The `match builder.open()`.
  unfoldable pub report_open :
      Bool → Errors → Result MmregError Opened × OpenWorld Mem → Opening Mem
  unfolding mock_limit
  report_open mock errors (ok o, w) = (some o, errors, w)
  report_open mock errors (err x, w) = (none, opening_error mock x errors, w)

  abbrev pub setting_for : Bool → Setting Mem
  setting_for true = with_mock e
  setting_for false = e

  -- Opening with flags that are understood.
  unfoldable pub open_flagged : DeviceBuilder → Bool → Flags → Errors → OpenWorld Mem → Opening Mem
  unfolding open_device report_open
  open_flagged builder allow_region f errors w =
      if not allow_region && not (f.region_index == 0)
      then (
        none,
        set_arg_error thread
            (codes "MMREG_REGION(n) is only valid with mmreg_open_uio / mmreg_open_uio_path.")
            errors,
        w,
      )
      else report_open f.mock errors (open_device (setting_for f.mock) (with_flags f builder) w)

  unfoldable pub open_parsed :
      DeviceBuilder → Bool → Option Flags × Errors → OpenWorld Mem → Opening Mem
  unfolding open_flagged
  open_parsed builder allow_region (none, errors) w = (none, errors, w)
  open_parsed builder allow_region (some f, errors) w = open_flagged builder allow_region f errors w

  -- `open_with_builder`.
  unfoldable pub open_with_builder : DeviceBuilder → ℕ → Bool → Errors → OpenWorld Mem → Opening Mem
  unfolding open_parsed parse_flags
  open_with_builder builder flags allow_region errors w =
      open_parsed builder allow_region (parse_flags thread flags errors) w

  -- The error of `cstr_to_str`.
  abbrev pub null_string : Text → Errors → Errors
  null_string label errors =
      set_arg_error thread (codes "NULL '" ++ label ++ codes "' pointer passed to mmreg.") errors

  abbrev pub bad_string : Text → Errors → Errors
  bad_string label errors =
      set_arg_error thread (codes "Parameter '" ++ label ++ codes "' is not valid UTF-8.") errors

  -- `mmreg_open_uio`.
  unfoldable pub mmreg_open_uio : CString → ℕ → Errors → OpenWorld Mem → Opening Mem
  unfolding open_with_builder
  mmreg_open_uio null flags errors w = (none, null_string (codes "name") errors, w)
  mmreg_open_uio not_utf8 flags errors w = (none, bad_string (codes "name") errors, w)
  mmreg_open_uio (text name) flags errors w =
      open_with_builder (device_uio name) flags true errors w

  -- `mmreg_open_uio_path`.
  unfoldable pub mmreg_open_uio_path : CString → ℕ → Errors → OpenWorld Mem → Opening Mem
  unfolding open_with_builder
  mmreg_open_uio_path null flags errors w = (none, null_string (codes "path") errors, w)
  mmreg_open_uio_path not_utf8 flags errors w = (none, bad_string (codes "path") errors, w)
  mmreg_open_uio_path (text path) flags errors w =
      open_with_builder (device_uio_path path) flags true errors w

  -- `mmreg_open_addr`.
  unfoldable pub mmreg_open_addr : ℕ → ℕ → ℕ → Errors → OpenWorld Mem → Opening Mem
  unfolding open_with_builder
  mmreg_open_addr base size flags errors w =
      open_with_builder (device_addr base size) flags false errors w

  -- The end of `mmreg_close`, when the guards are dropped.
  unfoldable pub mmreg_close : Option Opened → OpenWorld Mem → OpenWorld Mem
  mmreg_close none w = w
  mmreg_close (some o) w = close e o w

  -- The bytes of a path and a NUL, over the start of a buffer.
  abbrev pub fill : List ℕ → List ℕ → List ℕ
  fill path buf = path ++ 0 ∷ drop (suc (length path)) buf

  abbrev pub small_message : ℕ → Text → Text
  small_message len path =
      codes "[E_BUFFER_TOO_SMALL] Buffer of "
      ++ decimal len
      ++ codes " bytes is too small for UIO path '"
      ++ path
      ++ codes "' ("
      ++ decimal (length (bytes path) + 1)
      ++ codes " bytes needed)."

  abbrev pub copy_path : Result MmregError Text → List ℕ → Errors → Status × List ℕ × Errors
  copy_path (err x) buf errors = (minus_one, buf, set_mmreg_error details_of thread x errors)
  copy_path (ok path) buf errors =
      if ltb (length buf) (length (bytes path) + 1)
      then (
        minus_one,
        buf,
        set_error thread (codes "E_BUFFER_TOO_SMALL") (small_message (length buf) path) errors,
      )
      else (zero, fill (bytes path) buf, errors)

  -- `mmreg_find_uio`, with a buffer of the length that is given, or none.
  unfoldable pub mmreg_find_uio :
      CString → Option (List ℕ) → Errors → Status × Option (List ℕ) × Errors
  unfolding bytes
  mmreg_find_uio null buf errors = (minus_one, buf, null_string (codes "name") errors)
  mmreg_find_uio not_utf8 buf errors = (minus_one, buf, bad_string (codes "name") errors)
  mmreg_find_uio (text name) none errors = (
    minus_one,
    none,
    set_arg_error thread (codes "NULL 'buf' pointer passed to mmreg_find_uio.") errors,
  )
  mmreg_find_uio (text name) (some buf) errors =
      let (status, filled, later) = copy_path (e.find_uio name) buf errors in
      (status, some filled, later)
