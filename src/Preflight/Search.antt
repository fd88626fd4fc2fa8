-- ===== src/Preflight/Search.antt =====
-- What src/memcheck.rs finds by walking directories: UIO devices by name (`find_uio_by_name`), the
-- region that covers a range (`find_uio_region`), and owners (`uio_owner`).
pub mod Named
pub mod Sound
use mmreg.Error.{MmregError, uio_not_found, uio_ambiguous}
use mmreg.Memory.{Platform}
use mmreg.Opening.Resolve.{Owner, UioRegion, Sysfs}
use mmreg.Preflight.Cells.{find_owning_device}
use mmreg.Preflight.Checks.{preflight_check_device}
use mmreg.Preflight.{FileSystem, join, file_name}
use mmreg.Prelude.{
  ℕ, ◌^◌, Bool, true, false, ◌||◌, ◌&&◌, List, [], ◌∷◌, Option, none, some, ltb, ◌==◌,
  if◌then◌else◌, Text, codes, text_eq, member, Result, ok, err, and_then,
}
use mmreg.Strings.{trim, strip_prefix, from_str_radix}
use mmreg.Uio.{Files, UioMap, read_map, contains}

abbrev pub or_else {ℓ} : {A : Type ℓ} → Option A → A → A
or_else none a = a
or_else (some b) a = b

-- The first result of a loop that may return.
unfoldable pub first_some {ℓ κ} : {A : Type ℓ} {B : Type κ} → (A → Option B) → List A → Option B
first_some f [] = none
first_some f (x ∷ xs) = let later = first_some f xs in elim (f x) [ some b ↦ some b | none ↦ later ]

-- `<=` of `String`: that of the scalar values is that of the bytes.
unfoldable pub text_leb : Text → Text → Bool
text_leb [] u = true
text_leb (c ∷ t) [] = false
text_leb (c ∷ t) (d ∷ u) = ltb c d || (c == d && text_leb t u)

unfoldable pub insert : Text → List Text → List Text
unfolding text_leb
insert t [] = t ∷ []
insert t (u ∷ us) = if text_leb t u then t ∷ u ∷ us else u ∷ insert t us

-- `sort`.
unfoldable pub sort : List Text → List Text
unfolding insert
sort [] = []
sort (t ∷ ts) = insert t (sort ts)

module _ (fs : FileSystem) where
  abbrev pub not_blank : Text → Option Text
  not_blank [] = none
  not_blank (c ∷ cs) = some (c ∷ cs)

  -- The name of a UIO device, if it has one.
  unfoldable pub uio_name : Text → Text → Option Text
  unfolding join trim
  uio_name sysfs_uio entry =
      and_then (fs.read_to_string (join (join sysfs_uio entry) (codes "name")))
        λ raw. not_blank (trim raw)

  -- The device nodes of the entries that have the name.
  unfoldable pub matches_of : Text → Text → Text → List Text → List Text
  unfolding uio_name join text_eq
  matches_of sysfs_uio dev_root target [] = []
  matches_of sysfs_uio dev_root target (entry ∷ entries) =
      let rest = matches_of sysfs_uio dev_root target entries in
      elim (uio_name sysfs_uio entry) [
        | none ↦ rest
        | some found_name ↦ if text_eq found_name target then join dev_root entry ∷ rest else rest
      ]

  -- The names of the entries, each once.
  unfoldable pub available_of : Text → List Text → List Text → List Text
  unfolding uio_name member
  available_of sysfs_uio seen [] = []
  available_of sysfs_uio seen (entry ∷ entries) = elim (uio_name sysfs_uio entry) [
    | none ↦ available_of sysfs_uio seen entries
    | some found_name ↦ elim (member found_name seen) [
      | true ↦ available_of sysfs_uio seen entries
      | false ↦ found_name ∷ available_of sysfs_uio (found_name ∷ seen) entries
    ]
  ]

  -- The entries that are looked at: none for a blank name.
  unfoldable pub searched : Text → Text → List Text
  searched sysfs_uio [] = []
  searched sysfs_uio (c ∷ cs) = or_else (fs.read_dir sysfs_uio) []

  abbrev pub only_device : Text → List Text → List Text → Result MmregError Text
  only_device name available [] = err (uio_not_found name available)
  only_device name available (device ∷ []) = ok device
  only_device name available (a ∷ b ∷ devices) = err (uio_ambiguous name (a ∷ b ∷ devices))

  -- `find_uio_by_name`.
  unfoldable pub find_uio_by_name : Text → Text → Text → Result MmregError Text
  unfolding searched matches_of available_of sort trim
  find_uio_by_name sysfs_uio dev_root name =
      let entries = searched sysfs_uio (trim name) in
      only_device name (sort (available_of sysfs_uio [] entries))
        (sort (matches_of sysfs_uio dev_root (trim name) entries))

  -- `uio_owner`.
  unfoldable pub uio_owner : Text → Owner
  unfolding join file_name
  uio_owner uio_dir =
      let device_path = or_else (fs.canonicalize (join uio_dir (codes "device"))) uio_dir in
      record { name = or_else (file_name device_path) []; path = device_path }

  abbrev pub files_of : Text → Files
  files_of dir name = fs.read_to_string (join dir name)

  -- `M` of `mapM`, as `usize`.
  unfoldable pub region_index_of : Platform → Text → Option ℕ
  unfolding strip_prefix from_str_radix
  region_index_of p name = and_then (strip_prefix (codes "map") name) λ digits.
      and_then (from_str_radix digits 10) λ v. if ltb v (2 ^ p.usize_bits) then some v else none

  unfoldable pub region_covers : Text → ℕ → ℕ → Bool
  unfolding read_map contains join
  region_covers map_dir target size = elim (read_map (files_of map_dir)) [
    | none ↦ false
    | some r ↦ contains r target size
  ]

  -- The region of one entry of `maps`.
  unfoldable pub region_at : Platform → Text → Text → ℕ → ℕ → Text → Text → Option UioRegion
  unfolding region_index_of region_covers uio_owner join
  region_at p sysfs_uio dev_root target size uio map =
      let uio_dir = join sysfs_uio uio in
      and_then (region_index_of p map) λ region_index.
        if region_covers (join (join uio_dir (codes "maps")) map) target size
        then some (record {
          dev_node = join dev_root uio;
          region_index = region_index;
          owner = uio_owner uio_dir;
        })
        else none

  -- `find_uio_region`.
  unfoldable pub find_uio_region : Platform → Text → Text → ℕ → ℕ → Option UioRegion
  unfolding first_some region_at join
  find_uio_region p sysfs_uio dev_root target size = and_then (fs.read_dir sysfs_uio) λ uios.
      first_some
        (λ uio.
          and_then (fs.read_dir (join (join sysfs_uio uio) (codes "maps")))
            λ maps. first_some (region_at p sysfs_uio dev_root target size uio) maps)
        uios

  -- The owner of a device path in `resolve`.
  unfoldable pub chosen_owner : Text → Text → Option Owner
  unfolding file_name join uio_owner
  chosen_owner sysfs_uio device_path =
      and_then (file_name device_path)
        λ n. if fs.exists (join sysfs_uio n) then some (uio_owner (join sysfs_uio n)) else none

  -- What `resolve` finds in a file system.
  abbrev pub sysfs_of : Platform → Sysfs
  sysfs_of p = record {
    uio_owner = chosen_owner (codes "/sys/class/uio");
    find_uio_region = find_uio_region p (codes "/sys/class/uio") (codes "/dev");
    find_owning_device = find_owning_device fs (codes "/sys/bus/platform/devices");
    iomem = fs.lines (codes "/proc/iomem");
    preflight = λ o. preflight_check_device fs o.name o.path (codes "/sys/class/fpga_manager") [];
  }
