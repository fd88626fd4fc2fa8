-- ===== src/Opening/Describe.antt =====
-- What the device that `open` (src/device.rs) returns is.
use mmreg.Error.{MmregError}
use mmreg.Memory.{MapperType, uio, page_size}
use mmreg.Uio.{UioMap, region_window}
use mmreg.Opening.Approval.{IsApproved, resolve-IsApproved}
use mmreg.Opening.Build.{
  Setting, Window, window, map_with, restore, lock_path, is_some, opened, install, open_window,
  run_profile, open_device, resolve_uio_spec, chosen, label,
}
use mmreg.Opening.Mapping.{os_map}
use mmreg.Opening.Resolve.{Target, resolve}
use mmreg.Opening.{
  TargetSpec, uio_name, uio_path, addr, DeviceBuilder, Backend, os, custom, OpenWorld, Action,
  ◌>>=◌, pure, lift, take, mapping, on_error, Opened,
}
use mmreg.Prelude.{
  ℕ, ◌+◌, ◌^◌, ◌≤◌, ◌<◌, Bool, true, false, not, ◌||◌, List, Option, none, some, leb, ◌==◌, Text,
  codes, ◌&&◌, inl, inr, ◌⊎◌, Result-cases, Bool-cases, err-ne-ok, if◌then◌else◌, Result, ok, err,
  ok-eq, unless-ok, ◌≡◌, refl, sym, ap, ◌∙◌, arith,
}
use mathlib.Core.Path.{subst}

-- A property of the value of a call, if it succeeds.
Returns : {Mem A : Type 0} → (A → Type 0) → Result MmregError A × OpenWorld Mem → Type 0
Returns P (ok a, w) = P a
Returns P (err x, w) = Unit

Returns-bind :
    {Mem A B : Type 0} (P : A → Type 0) (Q : B → Type 0) (m : Action Mem A) (f : A → Action Mem B)
    (w : OpenWorld Mem)
    → Returns P (m w)
    → ((a : A) (v : OpenWorld Mem) → P a → Returns Q (f a v))
    → Returns Q ((m >>= f) w)
unfolding ◌>>=◌ Returns
Returns-bind {Mem} {A} {B} P Q m f w = go (m w)
  where
    go :
        (q : Result MmregError A × OpenWorld Mem)
        → Returns P q
        → ((a : A) (v : OpenWorld Mem) → P a → Returns Q (f a v))
        → Returns Q (elim q.0 as (λ x. Result MmregError B × OpenWorld Mem) [
          | ok a ↦ f a q.1
          | err e ↦ (err e, q.1)
        ])
    go (ok a, v) h g = g a v h
    go (err x, v) h g = tt

Returns-any : {Mem A : Type 0} (q : Result MmregError A × OpenWorld Mem) → Returns (λ _. Unit {0}) q
unfolding Returns
Returns-any (ok a, w) = tt
Returns-any (err x, w) = tt

Returns-lift :
    {Mem A : Type 0} (r : Result MmregError A) (w : OpenWorld Mem)
    → Returns (λ a. r ≡ ok a) (lift {Mem = Mem} r w)
unfolding Returns
Returns-lift (ok a) w = refl
Returns-lift (err x) w = tt

Returns-done :
    {Mem A : Type 0} (P : A → Type 0) (a : A) (w : OpenWorld Mem) → P a → Returns P (pure a w)
unfolding Returns
Returns-done P a w h = h

Returns-on_error :
    {Mem A : Type 0} (P : A → Type 0) (cleanup : OpenWorld Mem → OpenWorld Mem) (m : Action Mem A)
    (w : OpenWorld Mem)
    → Returns P (m w)
    → Returns P (on_error cleanup m w)
unfolding on_error Returns
Returns-on_error {Mem} {A} P cleanup m w = go (m w)
  where
    go :
        (q : Result MmregError A × OpenWorld Mem)
        → Returns P q
        → Returns P (elim q.0 as (λ x. Result MmregError A × OpenWorld Mem) [
          | ok a ↦ (ok a, q.1)
          | err e ↦ (err e, cleanup q.1)
        ])
    go (ok a, v) h = h
    go (err x, v) h = tt

module _ {Mem : Type 0} (e : Setting Mem) (b : DeviceBuilder) where
  -- A UIO device that is not found, or whose region cannot be used.
  abbrev pub IsUnreadable : Result MmregError Text → Type 0
  IsUnreadable path =
      (x : MmregError) × ((path ≡ err x)
        ⊎ ((at : Text) × (path ≡ ok at)
            × (region_window e.platform e.region_text e.regions at b.region_index ≡ err x)))

  -- The range of a UIO device is the window of its region in sysfs. If the device or its region
  -- cannot be read, a custom mapper that is forced stands for one page at address 0.
  pub data IsRegion (name : Text) (path : Result MmregError Text) (base size : ℕ)
      (kind : MapperType) : Type 0 where
    in_sysfs :
        (at : Text) (win : UioMap)
        → path ≡ ok at
        → region_window e.platform e.region_text e.regions at b.region_index ≡ ok win
        → base ≡ win.addr
        → size ≡ win.size
        → kind ≡ uio at b.region_index
        → IsRegion name path base size kind
    stand_in :
        IsUnreadable path
        → b.custom_mapper ≡ true
        → b.force_map ≡ true
        → base ≡ 0
        → size ≡ page_size e.platform
        → kind ≡ uio name b.region_index
        → IsRegion name path base size kind

  -- What a target of a builder stands for: a range of addresses as it was given, not empty and
  -- within 64 bits, with the mapper that was chosen; or the range of a UIO device.
  abbrev pub IsRange : TargetSpec → ℕ → ℕ → MapperType → Type 0
  IsRange (addr base size) a s kind =
      (a ≡ base) × (s ≡ size) × (1 ≤ size) × (base + size < 2 ^ 64) × (kind ≡ b.mapper_type)
  IsRange (uio_name name) a s kind = IsRegion name (e.find_uio name) a s kind
  IsRange (uio_path path) a s kind = IsRegion path (ok path) a s kind

-- The name of a device that its builder does not name.
abbrev pub default_name : TargetSpec → Text
default_name (uio_name name) = name
default_name (uio_path path) = path
default_name (addr base size) = codes "mmreg"

-- The backend for a mapper: a custom one, if there is one.
abbrev pub backend_of : Bool → MapperType → Backend
backend_of true kind = custom
backend_of false kind = os kind

-- The backend is a custom mapper.
abbrev pub is_custom : Backend → Bool
is_custom custom = true
is_custom (os kind) = false

pub is_custom-backend_of : (b : Bool) (kind : MapperType) → is_custom (backend_of b kind) ≡ b
is_custom-backend_of true kind = refl
is_custom-backend_of false kind = refl

-- A device as its builder asks for it.
pub record IsOpened {Mem : Type 0} (e : Setting Mem) (b : DeviceBuilder) (o : Opened) : Type 0 where
  pub read_only_is : o.device.is_read_only ≡ b.read_only
  pub lock_is : o.device.has_uio_lock ≡ is_some e o.device.device_path
  pub name_is : o.device.name ≡ chosen e b.name_override (default_name b.spec)
  pub kind : MapperType
  pub range_is : IsRange e b b.spec o.device.base_address o.device.size kind
  pub target : Target
  pub backend_is : o.backend ≡ backend_of b.custom_mapper target.mapper
  pub path_is : o.device.device_path ≡ lock_path e b.custom_mapper target.mapper
  pub resolved :
      resolve e.sysfs o.device.base_address o.device.size kind (not b.force_map) ≡ ok target
  pub approved :
      b.force_map ≡ false → IsApproved e.sysfs o.device.base_address o.device.size kind target

module _ {Mem : Type 0} (e : Setting Mem) (b : DeviceBuilder) where
  stood_in :
      (name : Text) (path : Result MmregError Text) (win : Window) (x : MmregError)
      → IsUnreadable e b path
      → (if b.custom_mapper && b.force_map
          then ok (record {
            default_name = name;
            base_address = 0;
            size = page_size e.platform;
            mapper_type = uio name b.region_index;
          })
          else err x)
        ≡ ok win
      → IsRegion e b name path win.base_address win.size win.mapper_type
        × (chosen e b.name_override win.default_name ≡ chosen e b.name_override name)
  stood_in name path win x unreadable h = elim (Bool-cases (b.custom_mapper && b.force_map)) [
    | inr checked ↦ absurd (err-ne-ok (rw checked at h))
    | inl mock ↦
        let same = ok-eq (rw mock at h) in
        (
          stand_in unreadable (ground arith) (ground arith)
              (sym (ap (λ (x : Window). x.base_address) same))
              (sym (ap (λ (x : Window). x.size) same))
              (sym (ap (λ (x : Window). x.mapper_type) same)),
          ap (λ (x : Window). chosen e b.name_override x.default_name) (sym same),
        )
  ]

  region-IsRegion :
      (name : Text) (path : Result MmregError Text) (win : Window)
      → resolve_uio_spec e name path b.region_index (b.custom_mapper && b.force_map) ≡ ok win
      → IsRegion e b name path win.base_address win.size win.mapper_type
        × (chosen e b.name_override win.default_name ≡ chosen e b.name_override name)
  unfolding resolve_uio_spec
  region-IsRegion name (err x) win h = stood_in name (err x) win x (x, inl refl) h
  region-IsRegion name (ok at) win h =
      elim (Result-cases (region_window e.platform e.region_text e.regions at b.region_index)) [
        | inl (u, read) ↦
            let same = ok-eq (rw (read, resolve_uio_spec) at h) in
            (
              in_sysfs at u refl read (sym (ap (λ (x : Window). x.base_address) same))
                  (sym (ap (λ (x : Window). x.size) same))
                  (sym (ap (λ (x : Window). x.mapper_type) same)),
              ap (λ (x : Window). chosen e b.name_override x.default_name) (sym same),
            )
        | inr (x, failed) ↦
            stood_in name (ok at) win x (x, inr (at, refl, failed))
              (rw (failed, resolve_uio_spec) at h)
      ]

  labelled : (o : Option Text) → chosen e o (label e o) ≡ chosen e o (codes "mmreg")
  labelled none = refl
  labelled (some name) = refl

  window-IsRange :
      (spec : TargetSpec) (win : Window)
      → window e b spec ≡ ok win
      → IsRange e b spec win.base_address win.size win.mapper_type
        × (chosen e b.name_override win.default_name ≡ chosen e b.name_override (default_name spec))
  unfolding window
  window-IsRange (uio_name name) win h = region-IsRegion name (e.find_uio name) win h
  window-IsRange (uio_path path) win h = region-IsRegion path (ok path) win h
  window-IsRange (addr base size) win h =
      let (fits, same) = unless-ok (size == 0 || leb (2 ^ 64) (base + size)) _ _ h in
      (
        (
          sym (ap (λ (x : Window). x.base_address) (ok-eq same)),
          sym (ap (λ (x : Window). x.size) (ok-eq same)),
          ground arith,
          ground arith,
          sym (ap (λ (x : Window). x.mapper_type) (ok-eq same)),
        ),
        ap (λ (x : Window). chosen e b.name_override x.default_name) (sym (ok-eq same))
            ∙ labelled b.name_override,
      )

  map_with-custom :
      (has_custom ro : Bool) (win : Window) (kind : MapperType) (w : OpenWorld Mem)
      → Returns (λ k. k ≡ backend_of has_custom kind) (map_with e has_custom ro win kind w)
  unfolding map_with Returns os_map
  map_with-custom true ro win kind w = go (e.os.custom_map_error w.log win.base_address win.size)
    where
      go :
          (o : Option MmregError)
          → Returns
              (λ k. k ≡ custom)
              (elim o as (λ x. Result MmregError Backend × OpenWorld Mem) [
                | some x ↦ (err x, w)
                | none ↦ (ok custom, take (mapping custom) w)
              ])
      go none = refl
      go (some x) = tt
  map_with-custom false ro win kind w = os_map-system kind ro win.base_address win.size w
    where
      os_map-system :
          (kind : MapperType) (ro : Bool) (address size : ℕ) (w : OpenWorld Mem)
          → Returns
              (λ k. k ≡ os kind)
              (os_map e.platform e.region_text e.regions e.os e.debug kind ro address size w)
      os_map-system kind ro address size w =
          Returns-bind (λ _. Unit) _ _ _ w (Returns-any _) (λ _ v _. refl)

  install-IsOpened :
      (win : Window) (target : Target) (pm : Option Text × List Text) (w : OpenWorld Mem)
      → window e b b.spec ≡ ok win
      → resolve e.sysfs win.base_address win.size win.mapper_type (not b.force_map) ≡ ok target
      → Returns (IsOpened e b) (install e b win target pm w)
  unfolding install
  install-IsOpened win target pm w in_window resolved =
      Returns-bind (λ k. k ≡ backend_of b.custom_mapper target.mapper) _ _ _ w
        (Returns-on_error _ (restore e pm.0) _ w
          (map_with-custom b.custom_mapper b.read_only win target.mapper w))
        λ k v backend.
          Returns-bind (λ _. Unit) _ _ _ v (Returns-any _)
            λ _ u _. Returns-done (IsOpened e b) (opened e b win target pm k) u (record {
              read_only_is = refl;
              lock_is = refl;
              name_is = (window-IsRange b.spec win in_window).1;
              kind = win.mapper_type;
              range_is = (window-IsRange b.spec win in_window).0;
              backend_is = backend;
              target = target;
              path_is = refl;
              resolved = resolved;
              approved = λ checked.
                  resolve-IsApproved e.sysfs win.base_address win.size win.mapper_type (
                    sym (
                      ap (λ f. resolve e.sysfs win.base_address win.size win.mapper_type (not f))
                        checked)
                    ∙ resolved);
            })

  open_device-Returns : (w : OpenWorld Mem) → Returns (IsOpened e b) (open_device e b w)
  unfolding open_device open_window
  open_device-Returns w =
      Returns-bind (λ _. Unit) _ (run_profile e b.safety_profile) _ w (Returns-any _)
        λ _ v _.
          Returns-bind (λ win. window e b b.spec ≡ ok win) _ _ _ v
            (Returns-lift (window e b b.spec) v)
            λ win u in_window.
              Returns-bind
                (λ target.
                  resolve e.sysfs win.base_address win.size win.mapper_type (not b.force_map)
                  ≡ ok target)
                _ _ _ u
                (Returns-lift
                  (resolve e.sysfs win.base_address win.size win.mapper_type (not b.force_map)) u)
                λ target t resolved.
                  Returns-bind (λ _. Unit) _ _ (install e b win target) t (Returns-any _)
                    λ pm s _. install-IsOpened win target pm s in_window resolved

  pub open_device-IsOpened :
      (w v : OpenWorld Mem) {o : Opened} → open_device e b w ≡ (ok o, v) → IsOpened e b o
  unfolding Returns
  open_device-IsOpened w v h = subst (Returns (IsOpened e b)) h (open_device-Returns w)
