-- ===== src/Opening/Approval.antt =====
-- Which ranges `resolve` (src/memcheck.rs) lets through when it checks them.
use mmreg.Error.{MmregError, blueprint_unmapped}
use mmreg.Memory.{MapperType, auto, dev_mem, uio}
use mmreg.Opening.Resolve.{
  Owner, UioRegion, Target, Sysfs, path_of, preflight_if, resolve_uio, resolve_found, blueprint,
  check_iomem, resolve_platform, resolve,
}
use mmreg.Prelude.{
  ℕ, Bool, true, false, List, [], Option, none, some, if◌then◌else◌, Text, Result, ok, err,
  >>=-eq-ok, ok-eq, err-ne-ok, ◌≡◌, refl, ap, ◌∙◌,
}
use mathlib.Core.Path.{subst}

module _ (sys : Sysfs) where
  -- The owner's pre-flight checks pass, if there is one.
  abbrev pub PassesPreflight : Option Owner → List Text → Type 0
  PassesPreflight none warnings = Unit
  PassesPreflight (some o) warnings = sys.preflight o ≡ ok warnings

  -- No UIO region takes the range: none was chosen, and, unless the caller asks for /dev/mem, none
  -- covers it.
  abbrev pub HasNoRegion : ℕ → ℕ → MapperType → Type 0
  HasNoRegion target size auto = sys.find_uio_region target size ≡ none
  HasNoRegion target size dev_mem = Unit
  HasNoRegion target size (uio path index) = ⊥

  -- Why a range may be mapped, and how. A range of /dev/mem overlaps no memory, and it has an owner
  -- that passes the pre-flight checks, or it has none and /proc/iomem lists it.
  pub data IsApproved (target size : ℕ) : MapperType → Target → Type 0 where
    chosen_region :
        (path : Text) (index : ℕ) (t : Target)
        → t.mapper ≡ uio path index
        → t.owner ≡ path_of (sys.uio_owner path)
        → PassesPreflight (sys.uio_owner path) t.warnings
        → IsApproved target size (uio path index) t
    covering_region :
        (u : UioRegion) (t : Target)
        → sys.find_uio_region target size ≡ some u
        → t.mapper ≡ uio u.dev_node u.region_index
        → t.owner ≡ some u.owner.path
        → sys.preflight u.owner ≡ ok t.warnings
        → IsApproved target size auto t
    owned :
        (kind : MapperType) (o : Owner) (t : Target) (listed : Bool)
        → HasNoRegion target size kind
        → t.mapper ≡ dev_mem
        → t.owner ≡ some o.path
        → check_iomem sys target size ≡ ok listed
        → sys.find_owning_device target size ≡ some o
        → sys.preflight o ≡ ok t.warnings
        → IsApproved target size kind t
    listed :
        (kind : MapperType) (t : Target)
        → HasNoRegion target size kind
        → t.mapper ≡ dev_mem
        → t.owner ≡ none
        → sys.find_owning_device target size ≡ none
        → check_iomem sys target size ≡ ok true
        → IsApproved target size kind t

  resolve_uio-IsApproved :
      (target size : ℕ) (path : Text) (index : ℕ) {t : Target}
      → resolve_uio sys path index true ≡ ok t
      → IsApproved target size (uio path index) t
  resolve_uio-IsApproved target size path index {t} h =
      let (warnings, passed, same) = >>=-eq-ok _ _ h in
      subst (IsApproved target size (uio path index)) (ok-eq same)
        (chosen_region path index _ refl refl (preflight (sys.uio_owner path) passed))
    where
      preflight :
          (o : Option Owner) {warnings : List Text}
          → preflight_if sys true o ≡ ok warnings
          → PassesPreflight o warnings
      preflight none p = tt
      preflight (some o) p = p

  resolve_platform-IsApproved :
      (target size : ℕ) (kind : MapperType) {t : Target}
      → HasNoRegion target size kind
      → resolve_platform sys target size true ≡ ok t
      → IsApproved target size kind t
  resolve_platform-IsApproved target size kind {t} free h =
      let (warnings, checks, same) = >>=-eq-ok _ _ h in
      let (is_listed, iomem, rest) = >>=-eq-ok _ _ checks in
      subst (IsApproved target size kind) (ok-eq same)
        (go (sys.find_owning_device target size) is_listed refl iomem rest)
    where
      made : List Text → Target
      made warnings = record {
        mapper = dev_mem;
        owner = path_of (sys.find_owning_device target size);
        warnings = warnings;
      }

      unlisted :
          (b : Bool) {warnings : List Text}
          → (if b then ok [] else err (blueprint_unmapped target size)) ≡ ok warnings
          → b ≡ true
      unlisted true r = refl
      unlisted false r = absurd (err-ne-ok r)

      go :
          (o : Option Owner) (b : Bool) {warnings : List Text}
          → sys.find_owning_device target size ≡ o
          → check_iomem sys target size ≡ ok b
          → blueprint sys target size o b ≡ ok warnings
          → IsApproved target size kind (made warnings)
      go (some o) b {warnings} found iomem r =
          owned kind o (made warnings) b free refl (ap path_of found) iomem found r
      go none b {warnings} found iomem r =
          listed kind (made warnings) free refl (ap path_of found) found
            (iomem ∙ ap ok (unlisted b r))

  pub resolve-IsApproved :
      (target size : ℕ) (kind : MapperType) {t : Target}
      → resolve sys target size kind true ≡ ok t
      → IsApproved target size kind t
  unfolding resolve
  resolve-IsApproved target size (uio path index) h =
      resolve_uio-IsApproved target size path index h
  resolve-IsApproved target size dev_mem h = resolve_platform-IsApproved target size dev_mem tt h
  resolve-IsApproved target size auto {t} h = go (sys.find_uio_region target size) refl h
    where
      go :
          (o : Option UioRegion)
          → sys.find_uio_region target size ≡ o
          → elim o as (λ x. Result MmregError Target) [
            | some u ↦ resolve_found sys u true
            | none ↦ resolve_platform sys target size true
          ]
            ≡ ok t
          → IsApproved target size auto t
      go none found h = resolve_platform-IsApproved target size auto found h
      go (some u) found h =
          let (warnings, passed, same) = >>=-eq-ok _ _ h in
          subst (IsApproved target size auto) (ok-eq same)
            (covering_region u _ found refl refl passed)
