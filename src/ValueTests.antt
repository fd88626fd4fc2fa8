-- ===== src/ValueTests.antt =====
-- Numbers, safety profiles and UIO regions at fixed inputs (src/parse.rs, src/validation.rs,
-- src/memcheck.rs, src/memregs.rs).
use mmreg.Error.{MmregError, validation_hook_failed}
use mmreg.Memory.{Platform, IsPlatform}
use mmreg.Parse.Scanning.{Spells, end, digit, underscore, value}
use mmreg.Parse.Value.{IsNumber, digits_text, radix_of, parse_u64_radix_iff}
use mmreg.Parse.{refused_start, split_prefix, parse_u64_radix}
use mmreg.Prelude.{
  ℕ, ◌+◌, ◌^◌, ◌≤◌, ◌<◌, ◌≡◌, ◌↔◌, inr, false, [], ◌∷◌, some, none, ok, err, Text, text_eq,
  if◌then◌else◌, codes, refl, arith,
}
use mmreg.Strings.{trim, bytes, to_digit, strip_prefix}
use mmreg.Uio.Window.{region_window-within}
use mmreg.Uio.{
  UioMap, Files, Regions, RegionMessage, read_map, contains, shift_offset, clip, region_raw,
  region_window, data_offset,
}
use mmreg.Validation.Execute.{Passes, execute_with_iff}
use mmreg.Validation.{SafetyProfile, Reader, run_check, run_checks, execute_with}

parse_u64_radix_iff_example :
    (parse_u64_radix (codes "0x1_0") 10 ≡ ok 16) ↔ IsNumber (codes "0x1_0") 10 16
parse_u64_radix_iff_example = parse_u64_radix_iff (codes "0x1_0") 10 16 (omega arith)

abbrev profile : SafetyProfile
profile = record {
  name = codes "power";
  checks =
      record { name = codes "on"; addr = 0; mask = 0xf; expected = 1 }
      ∷ record { name = codes "ready"; addr = 4; mask = 1; expected = 1 }
      ∷ [];
}

-- A reader that returns how often it was called, from one on.
abbrev counter : Reader ℕ
counter address s = (ok (s + 1), s + 1)

execute_with_iff_example :
    (execute_with profile counter 0 ≡ (ok tt, 2)) ↔ Passes counter 0 profile.checks 2
execute_with_iff_example = execute_with_iff profile counter 0 2

abbrev not_ready : MmregError
not_ready = validation_hook_failed (codes "power") (codes "ready") 4 1 1 2

stopped : execute_with profile counter 0 ≡ (err not_ready, 2)
unfolding execute_with run_checks run_check
stopped = refl

abbrev region : UioMap
region = record { addr = 0xa000_0000; size = 0x1000 }

abbrev two_to_64 : Text
two_to_64 = codes "0x1_0000000000000000"

two_to_64-Spells :
    Spells
      (radix_of two_to_64 10)
      (bytes (digits_text two_to_64 10))
      (1 ∷ 0 ∷ 0 ∷ 0 ∷ 0 ∷ 0 ∷ 0 ∷ 0 ∷ 0 ∷ 0 ∷ 0 ∷ 0 ∷ 0 ∷ 0 ∷ 0 ∷ 0 ∷ 0 ∷ [])
unfolding trim split_prefix bytes strip_prefix to_digit
two_to_64-Spells = digit refl refl (
    underscore refl (
      digit refl refl (
        digit refl refl (
          digit refl refl (
            digit refl refl (
              digit refl refl (
                digit refl refl (
                  digit refl refl (
                    digit refl refl (
                      digit refl refl (
                        digit refl refl (
                          digit refl refl (
                            digit refl refl (
                              digit refl refl (
                                digit refl refl
                                  (digit refl refl (digit refl refl end)))))))))))))))))

two_to_64_start : refused_start (trim two_to_64) ≡ false
unfolding trim refused_start
two_to_64_start = refl

two_to_64_radix :
    2 ^ 64
    ≤ value
        (radix_of two_to_64 10)
        (1 ∷ 0 ∷ 0 ∷ 0 ∷ 0 ∷ 0 ∷ 0 ∷ 0 ∷ 0 ∷ 0 ∷ 0 ∷ 0 ∷ 0 ∷ 0 ∷ 0 ∷ 0 ∷ 0 ∷ [])
unfolding trim split_prefix strip_prefix value
two_to_64_radix = omega arith

abbrev platform : Platform
platform = record { page_bits = 12; usize_bits = 64 }

platform-IsPlatform : IsPlatform platform
platform-IsPlatform = record {
  page_holds = omega arith;
  page_fits = omega arith;
  usize_is = inr refl;
}

-- A page-aligned region with an `offset` attribute.
abbrev attributes : Files
attributes name =
    if text_eq name (codes "addr")
    then some (codes "0xa0000000")
    else if text_eq name (codes "size")
    then some (codes "0x1000")
    else if text_eq name (codes "offset")
    then some (codes "0x100")
    else none

abbrev regions : Regions
regions path index = some attributes

abbrev message : RegionMessage → Text
message m = []

abbrev path : Text
path = codes "/dev/uio0"

raw_region :
    (address : ℕ) → region_raw platform message regions path 0 address ≡ ok (attributes, region)
unfolding region_raw read_map parse_u64_radix text_eq
raw_region address = refl

abbrev window : UioMap
window = record { addr = 0xa000_0100; size = 0xf00 }

window_is : region_window platform message regions path 0 ≡ ok window
unfolding region_window region_raw read_map shift_offset clip parse_u64_radix text_eq
window_is = refl

region_window-within_example :
    (0xa000_0000 ≤ 0xa000_0100)
    × (0xa000_0100 + 0xf00 ≡ 0xa000_0000 + 0x1000)
    × (1 ≤ 0xf00)
    × (0xf00 < 2 ^ 64)
region_window-within_example =
    region_window-within platform message regions path 0 attributes region window (raw_region 0)
      (omega arith) window_is

offset_is : data_offset platform message regions path 0 0xa000_0040 16 ≡ ok 0x40
unfolding data_offset region_raw read_map contains parse_u64_radix text_eq
offset_is = refl
