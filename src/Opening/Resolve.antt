-- ===== src/Opening/Resolve.antt =====
-- `resolve` of src/memcheck.rs: how to reach a range, and whether it may be mapped. What it looks up
-- in sysfs and the pre-flight checks of an owner are parameters.
use mmreg.Error.{MmregError, blueprint_unmapped}
use mmreg.Iomem.{parse_iomem}
use mmreg.Memory.{MapperType, auto, dev_mem, uio}
use mmreg.Prelude.{
  ℕ, Bool, true, false, List, [], Option, none, some, if◌then◌else◌, Text, Result, ok, err, ◌>>=◌,
}

-- The owning device of a range: name and directory.
pub record Owner : Type 0 where
  pub name : Text
  pub path : Text

-- `struct UioRegion`.
pub record UioRegion : Type 0 where
  pub dev_node : Text
  pub region_index : ℕ
  pub owner : Owner

-- `struct Target`.
pub record Target : Type 0 where
  pub mapper : MapperType
  pub owner : Option Text
  pub warnings : List Text

-- What the functions find that `resolve` calls.
pub record Sysfs : Type 0 where
  -- `uio_owner` of the directory of a device path, if there is one
  pub uio_owner : Text → Option Owner
  pub find_uio_region : ℕ → ℕ → Option UioRegion
  pub find_owning_device : ℕ → ℕ → Option Owner
  -- the lines of /proc/iomem, if it can be read
  pub iomem : Option (List Text)
  -- `preflight_check_device`, with the warnings it adds
  pub preflight : Owner → Result MmregError (List Text)

abbrev pub path_of : Option Owner → Option Text
path_of none = none
path_of (some o) = some o.path

module _ (sys : Sysfs) where
  -- The pre-flight checks of an owner, if there is one and checks are asked for.
  abbrev pub preflight_if : Bool → Option Owner → Result MmregError (List Text)
  preflight_if true (some o) = sys.preflight o
  preflight_if true none = ok []
  preflight_if false o = ok []

  -- A UIO region that the caller chose.
  abbrev pub resolve_uio : Text → ℕ → Bool → Result MmregError Target
  resolve_uio device_path region_index check =
      preflight_if check (sys.uio_owner device_path) >>= λ warnings. ok (record {
        mapper = uio device_path region_index;
        owner = path_of (sys.uio_owner device_path);
        warnings = warnings;
      })

  -- A UIO region that covers the range.
  abbrev pub resolve_found : UioRegion → Bool → Result MmregError Target
  resolve_found u check = preflight_if check (some u.owner) >>= λ warnings. ok (record {
    mapper = uio u.dev_node u.region_index;
    owner = some u.owner.path;
    warnings = warnings;
  })

  -- The checks of a range that no UIO region covers.
  abbrev pub blueprint : ℕ → ℕ → Option Owner → Bool → Result MmregError (List Text)
  blueprint target size (some o) in_iomem = sys.preflight o
  blueprint target size none in_iomem =
      if in_iomem then ok [] else err (blueprint_unmapped target size)

  -- `check_iomem`.
  unfoldable pub check_iomem : ℕ → ℕ → Result MmregError Bool
  unfolding parse_iomem
  check_iomem target size = elim sys.iomem [
    | some lines ↦ parse_iomem lines target size
    | none ↦ ok false
  ]

  abbrev pub check_range : ℕ → ℕ → Bool → Result MmregError (List Text)
  check_range target size false = ok []
  check_range target size true =
      check_iomem target size >>= blueprint target size (sys.find_owning_device target size)

  abbrev pub resolve_platform : ℕ → ℕ → Bool → Result MmregError Target
  resolve_platform target size check = check_range target size check >>= λ warnings. ok (record {
    mapper = dev_mem;
    owner = path_of (sys.find_owning_device target size);
    warnings = warnings;
  })

  -- `resolve`.
  unfoldable pub resolve : ℕ → ℕ → MapperType → Bool → Result MmregError Target
  unfolding check_iomem
  resolve target size (uio device_path region_index) check =
      resolve_uio device_path region_index check
  resolve target size auto check = elim (sys.find_uio_region target size) [
    | some u ↦ resolve_found u check
    | none ↦ resolve_platform target size check
  ]
  resolve target size dev_mem check = resolve_platform target size check
