-- ===== src/Preflight/Search/Sound.antt =====
-- What walking sysfs finds, and what `resolve` of src/memcheck.rs approves on a file system.
use mmreg.Memory.{Platform, MapperType, auto, dev_mem, uio}
use mmreg.Opening.Resolve.{Owner, UioRegion, Sysfs}
use mmreg.Preflight.Checks.Healthy.{IsHealthy}
use mmreg.Preflight.Search.{
  first_some, region_index_of, region_covers, region_at, find_uio_region, uio_owner, sysfs_of,
  files_of,
}
use mmreg.Preflight.{FileSystem, join}
use mmreg.Prelude.{
  ℕ, Bool, true, false, List, [], ◌∷◌, Option, none, some, if◌then◌else◌, Text, codes, and_then,
  ◌≡◌, ◌⊎◌, inl, inr, refl, sym, ap, ◌∙◌, some-eq, none-ne-some, and_then-eq-some,
}
use mmreg.Uio.{UioMap, read_map, contains}

-- An element of a list that satisfies `P`.
abbrev pub Some {ℓ} : {A : Type ℓ} → (A → Type 0) → List A → Type 0
Some P [] = ⊥
Some P (x ∷ xs) = P x ⊎ Some P xs

first_some-Some :
    {A B : Type 0} (f : A → Option B) (P : A → B → Type 0) (xs : List A) {b : B}
    → ((a : A) → f a ≡ some b → P a b)
    → first_some f xs ≡ some b
    → Some (λ a. P a b) xs
unfolding first_some
first_some-Some f P [] k h = absurd (none-ne-some h)
first_some-Some {A} {B} f P (x ∷ xs) {b} k h = go (f x) refl h (λ l. first_some-Some f P xs k l)
  where
    go :
        (o : Option B)
        → f x ≡ o
        → elim o [ some b ↦ some b | none ↦ first_some f xs ] ≡ some b
        → (first_some f xs ≡ some b → Some (λ a. P a b) xs)
        → Some (λ a. P a b) (x ∷ xs)
    go (some c) e h later = inl (k x (e ∙ h))
    go none e h later = inr (later h)

module _ (fs : FileSystem) (p : Platform) where
  -- The entry `map` of a UIO device's `maps` is the region `u`, whose sysfs attributes cover the range.
  abbrev pub IsRegionAt : ℕ → ℕ → UioRegion → Text → Text → Type 0
  IsRegionAt target size u dev map =
      (region_index_of fs p map ≡ some u.region_index)
      × (u.dev_node ≡ join (codes "/dev") dev)
      × (u.owner ≡ uio_owner fs (join (codes "/sys/class/uio") dev))
      × (r : UioMap) × (read_map
            (files_of fs (join (join (join (codes "/sys/class/uio") dev) (codes "maps")) map))
          ≡ some r)
      × (contains r target size ≡ true)

  region_covers-read :
      (dir : Text) (target size : ℕ)
      → region_covers fs dir target size ≡ true
      → (r : UioMap) × (read_map (files_of fs dir) ≡ some r) × (contains r target size ≡ true)
  unfolding region_covers
  region_covers-read dir target size h = go (read_map (files_of fs dir)) refl h
    where
      go :
          (o : Option UioMap)
          → read_map (files_of fs dir) ≡ o
          → elim o [ none ↦ false | some r ↦ contains r target size ] ≡ true
          → (r : UioMap) × (read_map (files_of fs dir) ≡ some r) × (contains r target size ≡ true)
      go none e h = cc
      go (some r) e h = (r, e, h)

  taken_if :
      {A : Type 0} (b : Bool) {a c : A}
      → (if b then some a else none) ≡ some c
      → (b ≡ true) × (a ≡ c)
  taken_if true h = (refl, some-eq h)
  taken_if false h = absurd (none-ne-some h)

  region_at-IsRegionAt :
      (target size : ℕ) (dev map : Text) {u : UioRegion}
      → region_at fs p (codes "/sys/class/uio") (codes "/dev") target size dev map ≡ some u
      → IsRegionAt target size u dev map
  unfolding region_at
  region_at-IsRegionAt target size dev map {u} h =
      let (index, found, rest) = and_then-eq-some (region_index_of fs p map) _ h in
      let dir = join (join (join (codes "/sys/class/uio") dev) (codes "maps")) map in
      let (covered, same) = taken_if (region_covers fs dir target size) rest in
      let (r, read, inside) = region_covers-read dir target size covered in
      (
        found ∙ ap (λ v. some (UioRegion.region_index v)) same,
        sym (ap UioRegion.dev_node same),
        sym (ap UioRegion.owner same),
        r,
        read,
        inside,
      )

  -- A region that is found for a range is an entry of `maps` of a UIO device that can be listed, with
  -- the index in its name, and its `addr` and `size` attributes can be read and cover the range.
  pub find_uio_region-IsRegionAt :
      (target size : ℕ) (u : UioRegion)
      → find_uio_region fs p (codes "/sys/class/uio") (codes "/dev") target size ≡ some u
      → (uios : List Text) × (fs.read_dir (codes "/sys/class/uio") ≡ some uios)
        × Some
            (λ dev.
              (maps : List Text) × (fs.read_dir
                  (join (join (codes "/sys/class/uio") dev) (codes "maps"))
                ≡ some maps)
              × Some (IsRegionAt target size u dev) maps)
            uios
  unfolding find_uio_region
  find_uio_region-IsRegionAt target size u h =
      let (uios, listed, walked) = and_then-eq-some (fs.read_dir (codes "/sys/class/uio")) _ h in
      (
        uios,
        listed,
        first_some-Some _
            (λ dev v.
              (maps : List Text) × (fs.read_dir
                  (join (join (codes "/sys/class/uio") dev) (codes "maps"))
                ≡ some maps)
              × Some (IsRegionAt target size v dev) maps)
            uios (in_device) walked,
      )
    where
      in_device :
          (dev : Text)
          → and_then
              (fs.read_dir (join (join (codes "/sys/class/uio") dev) (codes "maps")))
              (λ maps.
                first_some
                  (region_at fs p (codes "/sys/class/uio") (codes "/dev") target size dev)
                  maps)
            ≡ some u
          → (maps : List Text) × (fs.read_dir
                (join (join (codes "/sys/class/uio") dev) (codes "maps"))
              ≡ some maps)
            × Some (IsRegionAt target size u dev) maps
      in_device dev k =
          let (maps, listed, walked) =
            and_then-eq-some (fs.read_dir (join (join (codes "/sys/class/uio") dev) (codes "maps")))
              _ k in
          (
            maps,
            listed,
            first_some-Some _ (λ map v. IsRegionAt target size v dev map) maps
                (λ map. region_at-IsRegionAt target size dev map) walked,
          )

  abbrev fpga_managers : Text
  fpga_managers = codes "/sys/class/fpga_manager"

  -- The device that owns a range, by the way it is to be mapped.
  abbrev pub IsOwner : ℕ → ℕ → MapperType → Owner → Type 0
  IsOwner target size (uio device_path region_index) o =
      Sysfs.uio_owner (sysfs_of fs p) device_path ≡ some o
  IsOwner target size dev_mem o = Sysfs.find_owning_device (sysfs_of fs p) target size ≡ some o
  IsOwner target size auto o =
      ((u : UioRegion) × (Sysfs.find_uio_region (sysfs_of fs p) target size ≡ some u)
        × (u.owner ≡ o))
      ⊎ ((Sysfs.find_uio_region (sysfs_of fs p) target size ≡ none)
          × (Sysfs.find_owning_device (sysfs_of fs p) target size ≡ some o))

  -- The owner of a range is at a path and is healthy, by its own name.
  abbrev pub IsHealthyAt : ℕ → ℕ → MapperType → Text → Type 0
  IsHealthyAt target size kind path =
      (o : Owner) × IsOwner target size kind o
      × (o.path ≡ path)
      × IsHealthy fs o.name path fpga_managers

  -- An owner that is healthy, and is what was found.
  abbrev Checked : Option Owner → Text → Type 0
  Checked found path =
      (o : Owner) × (found ≡ some o) × (o.path ≡ path) × IsHealthy fs o.name path fpga_managers
