-- ===== src/PreflightTests.antt =====
-- Looking up devices in a fixed file system, and checking them (src/memcheck.rs).
use mmreg.Error.{zombie_clock_gated}
use mmreg.Memory.{Platform, dev_mem}
use mmreg.Opening.Resolve.{Target, UioRegion}
use mmreg.Parse.{parse_u64_radix}
use mmreg.Preflight.Cells.Encoded.{Covered, encode_reg, reg_covers-encode}
use mmreg.Preflight.Cells.{reg_covers}
use mmreg.Preflight.Checks.Passing.{Passes}
use mmreg.Preflight.Checks.Healthy.{IsHealthy, preflight_check_device_iff}
use mmreg.Preflight.Checks.{preflight_check_device}
use mmreg.Preflight.Clocks.Gated.{Refuses, HasGatedClock, check_clk_summary-Refuses}
use mmreg.Preflight.Clocks.{check_clk_summary, from_utf8}
use mmreg.Preflight.Search.Named.{OnlyNamed, find_uio_by_name_iff}
use mmreg.Preflight.Search.{find_uio_by_name, find_uio_region}
use mmreg.Preflight.{FileSystem, join, file_name, parent}
use mmreg.Prelude.{
  ◌+◌, ◌<◌, ◌^◌, max, true, false, List, [], ◌∷◌, Option, none, some, if◌then◌else◌, Text, codes,
  text_eq, member, ok, err, ◌≡◌, ◌≢◌, ◌↔◌, refl, arith,
}
use mmreg.Strings.{trim}

abbrev platform : Platform
platform = record { page_bits = 12; usize_bits = 64 }

-- The value at a path.
at_path : {A : Type 0} → Text → List (Text × A) → Option A
unfolding text_eq
at_path path [] = none
at_path path ((p, a) ∷ rest) =
    let later = at_path path rest in if text_eq path p then some a else later

files : List (Text × Text)
files =
    (codes "/sys/class/uio/uio0/name", codes "gpio ")
    ∷ (codes "/sys/class/uio/uio1/name", codes "spi")
    ∷ (codes "/sys/class/uio/uio0/maps/map0/addr", codes "0x1000")
    ∷ (codes "/sys/class/uio/uio0/maps/map0/size", codes "0x100")
    ∷ (codes "/sys/bus/platform/devices/timer/of_node/status", codes "okay")
    ∷ []

directories : List (Text × List Text)
directories =
    (codes "/sys/class/uio", codes "uio0" ∷ codes "uio1" ∷ [])
    ∷ (codes "/sys/class/uio/uio0/maps", codes "map0" ∷ [])
    ∷ (codes "/sys/bus/platform/devices", codes "clock" ∷ codes "timer" ∷ [])
    ∷ []

abbrev sysfs : FileSystem
unfolding at_path files directories
sysfs = record {
  read = λ p. at_path p (
      (codes "/sys/bus/platform/devices/timer/of_node/reg", 0 ∷ 0 ∷ 0x20 ∷ 0 ∷ 0 ∷ 0 ∷ 1 ∷ 0 ∷ [])
      ∷ []);
  read_to_string = λ p. at_path p files;
  lines = λ p. none;
  read_dir = λ p. at_path p directories;
  canonicalize = λ p. none;
  exists = λ p. false;
}

reg_covers-encode_example :
    (reg_covers (encode_reg 2 1 ((0x1_0000_0000, 0x1000) ∷ [])) 0x1_0000_0010 4 (some (2, 1))
      ≡ true)
    ↔ ((0x1_0000_0010 + max 4 1 < 2 ^ 64)
        × Covered 0x1_0000_0010 (0x1_0000_0010 + max 4 1) ((0x1_0000_0000, 0x1000) ∷ []))
reg_covers-encode_example =
    reg_covers-encode 2 1 ((0x1_0000_0000, 0x1000) ∷ []) 0x1_0000_0010 4 (omega arith) (omega arith)

abbrev summary : List Text
summary =
    codes "   clock                  count  count  Y"
    ∷ codes " pll  1 1 0 100 0 0 50000 Y"
    ∷ codes "   timer_clk  0 0 0 100 0 0 50000 N deviceless"
    ∷ codes "                              timer  no_id"
    ∷ []

check_clk_summary-Refuses_example :
    Refuses
      (codes "timer")
      []
      (codes "/clk")
      (HasGatedClock (codes "timer") [] summary)
      (check_clk_summary (codes "timer") [] (codes "/clk") [] summary)
check_clk_summary-Refuses_example =
    check_clk_summary-Refuses (codes "timer") [] (codes "/clk") [] summary

gated_below :
    check_clk_summary (codes "timer") [] (codes "/clk") [] summary
    ≡ err (zombie_clock_gated (codes "timer") (codes "timer_clk") (codes "/clk"))
unfolding check_clk_summary member
gated_below = refl

preflight_check_device_iff_example :
    Passes (
      preflight_check_device sysfs
        (codes "timer")
        (codes "/sys/bus/platform/devices/timer")
        (codes "/fpga")
        [])
    ↔ IsHealthy sysfs (codes "timer") (codes "/sys/bus/platform/devices/timer") (codes "/fpga")
preflight_check_device_iff_example =
    preflight_check_device_iff sysfs (codes "timer") (codes "/sys/bus/platform/devices/timer")
      (codes "/fpga") []

find_uio_by_name_iff_example :
    (find_uio_by_name sysfs (codes "/sys/class/uio") (codes "/dev") (codes " spi")
      ≡ ok (codes "/dev/uio1"))
    ↔ ((trim (codes " spi") ≢ [])
        × (entries : List Text) × (sysfs.read_dir (codes "/sys/class/uio") ≡ some entries)
        × (e : Text) × OnlyNamed sysfs
            (codes "/sys/class/uio")
            (codes "/dev")
            (trim (codes " spi"))
            e
            entries
        × (codes "/dev/uio1" ≡ join (codes "/dev") e))
find_uio_by_name_iff_example =
    find_uio_by_name_iff sysfs (codes "/sys/class/uio") (codes "/dev") (codes " spi")
      (codes "/dev/uio1")

found_by_name :
    find_uio_by_name sysfs (codes "/sys/class/uio") (codes "/dev") (codes " spi")
    ≡ ok (codes "/dev/uio1")
unfolding find_uio_by_name at_path files directories
found_by_name = refl

abbrev region : UioRegion
region = record {
  dev_node = codes "/dev/uio0";
  region_index = 0;
  owner = record { name = codes "uio0"; path = codes "/sys/class/uio/uio0" };
}

found_region :
    find_uio_region sysfs platform (codes "/sys/class/uio") (codes "/dev") 0x1010 4 ≡ some region
unfolding find_uio_region at_path files directories parse_u64_radix
found_region = refl

abbrev timer : Target
timer = record {
  mapper = dev_mem;
  owner = some (codes "/sys/bus/platform/devices/timer");
  warnings = [];
}

names :
    (file_name (codes "/dev/uio0") ≡ some (codes "uio0"))
    × (parent (codes "/a/b") ≡ some (codes "/a"))
    × (parent (codes "/a") ≡ some (codes "/"))
unfolding file_name parent
names = (refl, refl, refl)

decoded :
    (from_utf8 (0x61 ∷ 0xe2 ∷ 0x82 ∷ 0xac ∷ []) ≡ some (0x61 ∷ 0x20ac ∷ []))
    × (from_utf8 (0xc0 ∷ 0x80 ∷ []) ≡ none)
unfolding from_utf8
decoded = (refl, refl)
