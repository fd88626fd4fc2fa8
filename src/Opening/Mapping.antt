-- ===== src/Opening/Mapping.antt =====
-- Mapping a range: `OsMapper::map`, `map_devmem` and `map_uio` of src/memregs.rs, and
-- `RuntimePmGuard` of src/memcheck.rs.
use mmreg.Bits.{complement}
use mmreg.Error.{MmregError, debug_disabled, dev_mem_open, dev_mem_mmap, uio_open, uio_mmap}
use mmreg.Memory.{MapperType, auto, dev_mem, uio, Platform, page_size}
use mmreg.Opening.{Backend, os, mapping, power, OpenLog, Action, ◌>>=◌, lift, take}
use mmreg.Prelude.{
  ℕ, ◌-◌, ◌*◌, ◌%◌, ◌^◌, Bool, true, false, List, [], ◌∷◌, Option, none, some, if◌then◌else◌, Text,
  codes, text_eq, ok, err, bit_and, map,
}
use mmreg.Strings.{trim, to_lower}
use mmreg.Uio.{RegionMessage, Regions, data_offset}

-- The calls of the system, after a log: the text of the error, if they fail.
pub record Os : Type 0 where
  -- `open_device` of a path, read-only or not
  pub open_error : OpenLog → Text → Bool → Option Text
  -- `Mapping::new`: offset in the file, offset of the data, size, read-only or not
  pub mmap_error : OpenLog → Text → ℕ → ℕ → ℕ → Bool → Option Text
  pub custom_map_error : OpenLog → ℕ → ℕ → Option MmregError
  -- opening the lock of a UIO device
  pub lock_error : OpenLog → Text → Option MmregError
  -- `power/control` of a device: its text, and the error of writing to it
  pub power_control : OpenLog → Text → Option Text
  pub power_error : OpenLog → Text → Option Text

-- `map_err` of a call that may fail.
unfoldable pub call :
    {Mem : Type 0} → (OpenLog → Option Text) → (Text → MmregError) → Action Mem (Unit {0})
call fails error w = elim (fails w.log) [ some e ↦ (err (error e), w) | none ↦ (ok tt, w) ]

module _ {Mem : Type 0} (p : Platform) (text : RegionMessage → Text) (regions : Regions) (sys : Os)
    (debug : Bool) where
  -- `map_devmem`, with the feature `debug` and without.
  abbrev pub map_devmem : Bool → ℕ → ℕ → Bool → Action Mem (Unit {0})
  map_devmem false address size ro = lift (err (debug_disabled address))
  map_devmem true address size ro =
      let page_base = bit_and address (complement 64 (page_size p - 1)) in
      call (λ l. sys.open_error l (codes "/dev/mem") ro) (dev_mem_open address) >>= λ _.
      call (λ l. sys.mmap_error l (codes "/dev/mem") page_base (address - page_base) size ro)
        (dev_mem_mmap address page_base size)

  -- `map_uio`.
  unfoldable pub map_uio : Text → ℕ → ℕ → ℕ → Bool → Action Mem (Unit {0})
  unfolding data_offset
  map_uio device_path region_index address size read_only =
      lift (data_offset p text regions device_path region_index address size) >>= λ offset.
      call (λ l. sys.open_error l device_path read_only) (uio_open device_path) >>= λ _.
      call
        (λ l.
          sys.mmap_error l device_path (region_index * page_size p % 2 ^ 64) offset size read_only)
        (uio_mmap device_path region_index size)

  abbrev pub os_map_kind : MapperType → Bool → ℕ → ℕ → Action Mem (Unit {0})
  os_map_kind auto read_only address size = map_devmem debug address size read_only
  os_map_kind dev_mem read_only address size = map_devmem debug address size read_only
  os_map_kind (uio device_path region_index) read_only address size =
      map_uio device_path region_index address size read_only

  -- `OsMapper::map`, of a mapper that holds no mapping.
  unfoldable pub os_map : MapperType → Bool → ℕ → ℕ → Action Mem Backend
  unfolding map_uio
  os_map kind read_only address size =
      os_map_kind kind read_only address size >>= λ _ w. (ok (os kind), take (mapping (os kind)) w)

-- `eq_ignore_ascii_case("on")`.
abbrev pub is_on : Text → Bool
is_on t = text_eq (map to_lower t) (codes "on")

-- `RuntimePmGuard::acquire`: the guard if the setting was changed, and the warnings. The warning
-- names the file and the error.
unfoldable pub acquire_power :
    {Mem : Type 0} → Os → (Text → Text → Text) → Text → Action Mem (Option Text × List Text)
unfolding trim text_eq
acquire_power sys warning dev_path w = elim (sys.power_control w.log dev_path) [
  | none ↦ (ok (none, []), w)
  | some setting ↦
      if is_on (trim setting) then (ok (none, []), w) else (elim (sys.power_error w.log dev_path) [
        | none ↦ (ok (some dev_path, []), take (power dev_path) w)
        | some e ↦ (ok (none, warning dev_path e ∷ []), w)
      ])
]
