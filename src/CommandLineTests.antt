-- ===== src/CommandLineTests.antt =====
-- The command line at fixed arguments (src/main.rs).
use mmreg.CommandLine.Hex.{parse_value-format_hex}
use mmreg.CommandLine.Run.{CliBackend, run_cli}
use mmreg.CommandLine.Trace.{reading, writing, IsRun, run_cli-IsRun}
use mmreg.CommandLine.{
  address, uio, extra_args, invalid_value, printed, wrote, format_hex, parse_value, parse_width,
}
use mmreg.Memory.{u8, u16, u32}
use mmreg.Prelude.{ℕ, true, false, List, [], ◌∷◌, Text, codes, Result, ok, err, ◌≡◌, refl, arith}

parse_value-format_hex_example : parse_value (codes "0x0BEE") 10 u16 ≡ ok 0xbee
unfolding format_hex
parse_value-format_hex_example = parse_value-format_hex 0xbee 10 u16 (omega arith) (omega arith)

-- A backend with one register.
abbrev register : CliBackend ℕ
register = record { read = λ t w f s. (ok s, s); write = λ t w v f s. (ok tt, v) }

abbrev no_files : Text → Result Text Text
no_files path = err (codes "no such file")

abbrev one_check : Text → Result Text Text
one_check path = ok (
    codes
      "{\"name\": \"p\", \"checks\": [{\"name\": \"c\", \"addr\": 64, \"mask\": 1, \"expected\": 1}]}")

abbrev write_args : List Text
write_args =
    codes "-v"
    ∷ codes "p.json"
    ∷ codes "write"
    ∷ codes "-w"
    ∷ codes "16"
    ∷ codes "gpio"
    ∷ codes "4"
    ∷ codes "0d10"
    ∷ []

run_cli-IsRun_example :
    IsRun write_args
      (writing (uio (codes "gpio") 4) u16 10 false ∷ reading (address 64) u32 true ∷ [])
unfolding run_cli parse_width
run_cli-IsRun_example = run_cli-IsRun one_check register write_args 7

written :
    (run_cli one_check register write_args 7)
    ≡ (ok (wrote (codes "0x000A") (uio (codes "gpio") 4)), 10)
unfolding run_cli parse_width
written = refl

check_failed : (run_cli one_check (register) write_args 6).1 ≡ 6
unfolding run_cli parse_width
check_failed = refl

read_back :
    run_cli no_files register (codes "read" ∷ codes "0x40" ∷ []) 0xabc
    ≡ (ok (printed (codes "0x00000ABC")), 0xabc)
unfolding run_cli parse_width
read_back = refl

too_wide :
    (run_cli no_files register
      (codes "-w" ∷ codes "8" ∷ codes "write" ∷ codes "0" ∷ codes "100" ∷ [])
      5)
    ≡ (err (invalid_value (codes "100") u8), 5)
unfolding run_cli parse_width
too_wide = refl

three_addresses :
    run_cli no_files register (codes "read" ∷ codes "0" ∷ codes "4" ∷ []) 5 ≡ (err extra_args, 5)
unfolding run_cli parse_width
three_addresses = refl
