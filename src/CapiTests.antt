-- ===== src/CapiTests.antt =====
-- The C interface at fixed inputs (bindings/c/src/lib.rs), and a message (src/error.rs).
use mmreg.Capi.Buffer.{IsFound, mmreg_find_uio-IsFound}
use mmreg.Capi.Calls.{mmreg_lock, mmreg_rd}
use mmreg.Capi.Flags.{Flags, parse_flags, encode_flags, parse_flags-encode}
use mmreg.Capi.Handles.{IsOpening, open_with_builder-IsOpening}
use mmreg.Capi.Locking.{IsHeld, mmreg_lock-IsHeld}
use mmreg.Capi.Mock.Memory.{mock_write-IsPlain}
use mmreg.Capi.Mock.{mock_read, mock_write}
use mmreg.Capi.Open.{open_with_builder, mmreg_find_uio}
use mmreg.Capi.Reports.{IfReturned, run_request-Reported}
use mmreg.Capi.Requests.{rd, run_request}
use mmreg.Capi.{
  Errors, CState, zero, text, set_arg_error, set_mmreg_error, last_error_code, last_error,
  clear_error,
}
use mmreg.Device.Sequence.{open_pages, lock_all}
use mmreg.Device.{Device, check_access, page_of, lock_at, base_page, open_page, acquire}
use mmreg.DeviceTests as Bench
use mmreg.Error.Format.{hex}
use mmreg.Error.Display.{display}
use mmreg.Error.{code, unaligned_access}
use mmreg.Interrupt.{IoError}
use mmreg.Memory.{u32, u16, u8, width_bits, Apart}
use mmreg.Message.{ProfileMessage}
use mmreg.Opening.{custom, new_builder, addr}
use mmreg.OpeningTests as Windows
use mmreg.Preflight.{drop}
use mmreg.Prelude.{
  ℕ, ◌%◌, ◌^◌, ◌&&◌, not, true, false, List, [], ◌∷◌, ◌++◌, none, some, length, if◌then◌else◌, Text,
  codes, ◌≡◌, refl, arith,
}

abbrev details_of : ProfileMessage → Text
details_of m = codes "bad"

abbrev io_text : IoError → Text
io_text e = codes "failed"

abbrev no_errors : Errors
no_errors thread = none

abbrev state : CState (ℕ → ℕ)
state = record { world = Bench.world; guards = []; errors = no_errors }

run_request-Reported_example :
    IfReturned details_of io_text Bench.platform Bench.files Bench.cells custom 1 no_errors (
      run_request details_of io_text Bench.platform Bench.files Bench.cells custom 1
        (rd u32 2 true)
        (some Bench.device)
        state)
run_request-Reported_example =
    run_request-Reported details_of io_text Bench.platform Bench.files Bench.cells custom 1
      (rd u32 2 true) (some Bench.device) state

-- A read at an offset that is not a multiple of 4.
misaligned :
    last_error_code 1
      (mmreg_rd details_of Bench.platform Bench.files Bench.cells 1 u32
        (some Bench.device)
        2
        true
        state).1.errors
    ≡ codes "E_UNALIGNED_ACCESS"
unfolding last_error_code mmreg_rd check_access code set_mmreg_error
misaligned = refl

abbrev two_pages : Device
two_pages = record Bench.device { size = 0x1800 }

locked :
    (mmreg_lock details_of Bench.platform Bench.files Bench.cells 1 (some two_pages) state).0.status
    ≡ zero
unfolding mmreg_lock page_of lock_at base_page open_page acquire open_pages lock_all
locked = refl

mmreg_lock-IsHeld_example :
    IsHeld details_of Bench.platform Bench.files Bench.cells 1 two_pages state
      (mmreg_lock details_of Bench.platform Bench.files Bench.cells 1 (some two_pages) state).1
mmreg_lock-IsHeld_example =
    mmreg_lock-IsHeld details_of Bench.platform Bench.files Bench.cells 1 two_pages state
      Bench.platform-IsPlatform (omega arith) (omega arith) locked

open_with_builder-IsOpening_example : IsOpening details_of Windows.setting 1 [] no_errors (
    open_with_builder details_of Windows.setting 1
      (new_builder (addr 0x1000 4))
      2
      false
      no_errors
      Windows.world)
open_with_builder-IsOpening_example =
    open_with_builder-IsOpening details_of Windows.setting 1 (new_builder (addr 0x1000 4)) 2 false
      no_errors Windows.world

abbrev buffer : List ℕ
buffer = 1 ∷ 1 ∷ 1 ∷ 1 ∷ 1 ∷ []

mmreg_find_uio-IsFound_example :
    IsFound details_of Windows.setting 1
      (codes "abc")
      buffer
      no_errors
      (mmreg_find_uio details_of Windows.setting 1 (text (codes "abc")) (some buffer) no_errors)
mmreg_find_uio-IsFound_example =
    mmreg_find_uio-IsFound details_of Windows.setting 1 (codes "abc") buffer no_errors

filled :
    mmreg_find_uio details_of Windows.setting 1 (text (codes "abc")) (some buffer) no_errors
    ≡ (zero, some (codes "abc" ++ 0 ∷ 1 ∷ []), no_errors)
unfolding mmreg_find_uio drop
filled = refl

abbrev flags : Flags
flags = record { read_only = true; force = true; mock = true; region_index = 3 }

parse_flags-encode_example : parse_flags 1 (encode_flags flags) no_errors ≡ (
    if true && not true
    then (none, set_arg_error 1 (codes "MMREG_O_MOCK requires MMREG_O_FORCE.") no_errors)
    else (some flags, no_errors))
parse_flags-encode_example = parse_flags-encode 1 flags no_errors (omega arith)

abbrev memory : List ℕ
memory = 1 ∷ 2 ∷ 3 ∷ 4 ∷ []

mock_write-IsPlain_example :
    (length (mock_write 1 u16 0x10203 memory) ≡ length memory)
    × (mock_read 1 u16 (mock_write 1 u16 0x10203 memory) ≡ 0x10203 % 2 ^ width_bits u16)
    × (Apart 1 u16 3 u8 → mock_read 3 u8 (mock_write 1 u16 0x10203 memory) ≡ mock_read 3 u8 memory)
mock_write-IsPlain_example = mock_write-IsPlain 1 3 u16 u8 0x10203 memory (omega arith)

unaligned_message :
    display details_of (unaligned_access 0x1001 2)
    ≡ codes
        "[E_UNALIGNED_ACCESS] Unaligned 32-bit register access at base 0x1001 + offset 0x2 (effective address 0x1003). Remediation: Ensure both base address and register offsets are multiples of 4 bytes."
unfolding display code hex
unaligned_message = refl

cleared : last_error 1 (clear_error 1 (set_arg_error 1 (codes "x") no_errors)) ≡ []
unfolding last_error clear_error
cleared = refl
