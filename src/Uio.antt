-- ===== src/Uio.antt =====
-- UIO regions: src/memcheck.rs (`UioMap`, `uio_region_raw`, `uio_region_window`) and
-- src/memregs.rs (`uio_data_offset`). The attribute files of a region in sysfs are a function from
-- the file's name to its text; a device path that names no file has none.
pub mod Window
use mmreg.Bits.{complement}
use mmreg.Error.{MmregError, uio_address_invalid}
use mmreg.Memory.{Platform, page_size}
use mmreg.Parse.{parse_u64_radix}
use mmreg.Prelude.{
  ℕ, ◌+◌, ◌-◌, ◌%◌, ◌^◌, Bool, true, false, not, ◌&&◌, ◌||◌, Option, none, some, ltb, leb, ◌==◌,
  if◌then◌else◌, Text, codes, Result, ok, err, ◌>>=◌, ok_or, and_then, bit_and,
}
use mmreg.Strings.{checked_add}

-- `struct UioMap`.
pub record UioMap : Type 0 where
  pub addr : ℕ
  pub size : ℕ

-- The files of a directory of sysfs that can be read.
abbrev pub Files : Type 0
Files = Text → Option Text

-- `parse_u64_radix(..).ok()`.
abbrev pub hex_number : Text → Option ℕ
hex_number t = elim (parse_u64_radix t 16) [ ok v ↦ some v | err e ↦ none ]

abbrev pub attribute : Files → Text → Option ℕ
attribute files name = and_then (files name) hex_number

-- `UioMap::read`.
unfoldable pub read_map : Files → Option UioMap
read_map files = and_then (attribute files (codes "addr")) λ addr.
    and_then (attribute files (codes "size")) λ size. some (record { addr = addr; size = size })

-- `UioMap::contains`.
unfoldable pub contains : UioMap → ℕ → ℕ → Bool
unfolding checked_add
contains r address len =
    ltb 0 len
    && ltb 0 r.size
    && leb r.addr address
    && (elim (checked_add (address - r.addr) len) [ some end ↦ leb end r.size | none ↦ false ])

-- The error texts of a region that cannot be used.
pub data RegionMessage : Type 0 where
  no_file_name unreadable bad_size outside offset_overflow : RegionMessage

-- `uio_address_invalid`; the text of the details is chosen by `text`.
abbrev pub invalid : (RegionMessage → Text) → Text → ℕ → ℕ → RegionMessage → MmregError
invalid text device_path region_index address m =
    uio_address_invalid device_path region_index address (text m)

-- The attribute files of each region of each device path.
abbrev pub Regions : Type 0
Regions = Text → ℕ → Option Files

-- A region without its first `offs` bytes, if they are fewer than all.
unfoldable pub clip : UioMap → Option ℕ → UioMap
clip r none = r
clip r (some offs) =
    if ltb 0 offs && ltb offs r.size
    then record { addr = (r.addr + offs) % 2 ^ 64; size = r.size - offs }
    else r

-- The registers' own part of a page-aligned region with an `offset` attribute.
unfoldable pub shift_offset : Platform → Files → UioMap → UioMap
unfolding clip
shift_offset p files r =
    if bit_and r.addr (page_size p - 1) == 0 then clip r (attribute files (codes "offset")) else r

module _ (p : Platform) (text : RegionMessage → Text) (regions : Regions) where
  -- `uio_region_raw`.
  unfoldable pub region_raw : Text → ℕ → ℕ → Result MmregError (Files × UioMap)
  region_raw device_path region_index address = do
    files ←
        ok_or (regions device_path region_index)
          (invalid text device_path region_index address no_file_name)
    region ← ok_or (read_map files) (invalid text device_path region_index address unreadable)
    ok (files, region)

  -- `uio_region_window`.
  unfoldable pub region_window : Text → ℕ → Result MmregError UioMap
  region_window device_path region_index = do
    (files, raw) ← region_raw device_path region_index 0
    let region = shift_offset p files raw
    if region.size == 0 || leb (2 ^ p.usize_bits) region.size
        then err (invalid text device_path region_index 0 bad_size)
        else ok region

  -- `uio_data_offset`.
  unfoldable pub data_offset : Text → ℕ → ℕ → ℕ → Result MmregError ℕ
  data_offset device_path region_index address size = do
    (_, region) ← region_raw device_path region_index address
    if not (contains region address size)
        then err (invalid text device_path region_index address outside)
        else (let off = address - bit_and region.addr (complement 64 (page_size p - 1)) in
            if leb (2 ^ p.usize_bits) off
            then err (invalid text device_path region_index address offset_overflow)
            else ok off)
