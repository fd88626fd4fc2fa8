-- ===== src/Interface/Restores.antt =====
-- What an operation on an `Interface` that is not mapped leaves: src/interface.rs (`access`).
use mathlib.Core.Path.{subst}
use mmreg.Device.{World}
use mmreg.Error.{MmregError}
use mmreg.Interface.Mapped.{
  Mapped, ◌>>=◌, RegisterCall, interface_builder, installed, open_interface, map_unmapped,
  map_device, map, regained, unmap, stored, operate, settle, access,
}
use mmreg.Interface.{Interface, validate_layout}
use mmreg.Opening.Balance.{Owns, open_device-Owns, run_profile-Holds}
use mmreg.Opening.Build.{Setting, open_device, run_profile}
use mmreg.Opening.Describe.{is_custom, is_custom-backend_of, open_device-IsOpened}
use mmreg.Opening.Ledger.{
  IsBalanced, level, IsBalanced-of, IsBalanced-trans, Holds, nothing, resources,
}
use mmreg.Opening.Steps.{close-Holds}
use mmreg.Opening.{Backend, os, custom, OpenWorld, Opened}
use mmreg.Prelude.{
  ℕ, Bool, false, true, none, some, Result, ok, err, ◌≡◌, ◌⊎◌, inl, inr, refl, sym, ap, ◌∙◌,
}
use mmreg.Register.{Register}

module _ {Mem : Type 0} (e : Setting Mem) where
  -- The world in which `map` opens the device: the profile has run.
  abbrev pub checked_world : Mapped Mem → OpenWorld Mem
  checked_world i = (run_profile e i.interface.safety_profile i.world).1

  -- Opening the interface's window fails.
  abbrev pub FailsToOpen : Mapped Mem → Type 0
  FailsToOpen i =
      (x : MmregError) × ((open_device e (interface_builder e i.interface i.custom_mapper)
          (checked_world i)).0
        ≡ err x)

  -- The interface is not mapped, all resources are given back, and the custom mapper is where it
  -- was, unless opening the window failed.
  pub record IsRestored (i j : Mapped Mem) : Type 0 where
    pub unmapped : j.device ≡ none
    pub balanced : IsBalanced i.world.log j.world.log
    pub mapper_kept :
        (j.custom_mapper ≡ i.custom_mapper) ⊎ (FailsToOpen i × (j.custom_mapper ≡ false))

  -- What holds of `map_unmapped`: a failed check, a failed profile, or what opening gives.
  map_unmapped-cases :
      (P : Result MmregError (Opened × Bool) × Mapped Mem → Type 0) (i : Mapped Mem)
      → ((x : MmregError) → P (err x, i))
      → ((x : MmregError) → P (err x, record i { world = checked_world i }))
      → P (
          installed e
            (record i { world = checked_world i })
            (open_device e (interface_builder e i.interface i.custom_mapper) (checked_world i)))
      → P (map_unmapped e i)
  unfolding map_unmapped ◌>>=◌
  map_unmapped-cases P i layout profile opening = go (validate_layout e.platform i.interface)
    where
      Q : Type 0
      Q = Result MmregError (Opened × Bool) × Mapped Mem

      next : Q
      next = open_interface e (record i { world = checked_world i })

      run :
          (r : Result MmregError (Unit {0}))
          → P (elim r as (λ x. Q) [
            | ok a ↦ next
            | err x ↦ (err x, record i { world = checked_world i })
          ])
      run (ok a) = opening
      run (err x) = profile x

      go :
          (r : Result MmregError (Unit {0}))
          → P (elim r as (λ x. Q) [
            | ok a ↦ elim (run_profile e i.interface.safety_profile i.world).0 as (λ x. Q) [
              | ok a ↦ next
              | err x ↦ (err x, record i { world = checked_world i })
            ]
            | err x ↦ (err x, i)
          ])
      go (ok a) = run (run_profile e i.interface.safety_profile i.world).0
      go (err x) = layout x

  checked_world-balanced : (i : Mapped Mem) → IsBalanced i.world.log (checked_world i).log
  checked_world-balanced i =
      IsBalanced-of
        (run_profile-Holds e i.world.log i.interface.safety_profile i.world (nothing level))

  regained-is_custom :
      (k : Backend) (b kept : Bool) → is_custom k ≡ b → kept ≡ false → regained e k kept ≡ b
  regained-is_custom custom b kept h g = h
  regained-is_custom (os kind) b kept h g = g ∙ h

  -- Unmapping after the operation, whatever that returned.
  stored-IsRestored :
      {A : Type 0} (i j : Mapped Mem) (o : Opened) (idx : ℕ)
      (q : Result MmregError (A × Register) × World Mem)
      → is_custom o.backend ≡ i.custom_mapper
      → j.custom_mapper ≡ false
      → Holds (checked_world i).log (resources o) j.world.log
      → IsRestored i (settle e none (stored e j o idx q)).1
  unfolding unmap
  stored-IsRestored i j o idx (ok (a, r), w) backend lost held = record {
    unmapped = refl;
    balanced = IsBalanced-trans (checked_world-balanced i) (IsBalanced-of (close-Holds e o _ held));
    mapper_kept = inl (regained-is_custom o.backend i.custom_mapper j.custom_mapper backend lost);
  }
  stored-IsRestored i j o idx (err x, w) backend lost held = record {
    unmapped = refl;
    balanced = IsBalanced-trans (checked_world-balanced i) (IsBalanced-of (close-Holds e o _ held));
    mapper_kept = inl (regained-is_custom o.backend i.custom_mapper j.custom_mapper backend lost);
  }

  module _ {A : Type 0} (idx : ℕ) (op : RegisterCall Mem A) (i : Mapped Mem)
      (unmapped : i.device ≡ none) where
    -- What `access` does after `map`.
    abbrev finish :
        Result MmregError (Opened × Bool) × Mapped Mem → Result MmregError A × Mapped Mem
    finish q = elim q.0 as (λ x. Result MmregError A × Mapped Mem) [
      | ok d ↦ settle e none (operate e idx op d q.1)
      | err x ↦ (err x, q.1)
    ]

    -- The builder has the custom mapper of the interface.
    takes_mapper :
        (f : Interface) (has_custom : Bool)
        → (interface_builder e f has_custom).custom_mapper ≡ has_custom
    takes_mapper f true = refl
    takes_mapper f false = refl

    installed-IsRestored :
        (q : Result MmregError Opened × OpenWorld Mem)
        → open_device e (interface_builder e i.interface i.custom_mapper) (checked_world i) ≡ q
        → IsRestored i (finish (installed e (record i { world = checked_world i }) q)).1
    installed-IsRestored (err x, w) h = record {
      unmapped = unmapped;
      balanced = IsBalanced-trans (checked_world-balanced i) (
          subst (Owns e (checked_world i).log) h (
            open_device-Owns e (interface_builder e i.interface i.custom_mapper)
              (checked_world i)));
      mapper_kept = inr ((x, ap (λ q. q.0) h), refl);
    }
    installed-IsRestored (ok o, w) h =
        let b = interface_builder e i.interface i.custom_mapper in
        let opened_as = open_device-IsOpened e b (checked_world i) w h in
        let owned =
          subst (Owns e (checked_world i).log) h (open_device-Owns e b (checked_world i)) in
        stored-IsRestored i
          (record i {
            custom_mapper = false;
            device = some (o, false);
            warnings = o.device.warnings;
            world = w;
          })
          o idx _
          (ap is_custom opened_as.backend_is
            ∙ is_custom-backend_of b.custom_mapper opened_as.target.mapper
            ∙ takes_mapper i.interface i.custom_mapper)
          refl owned.0

    -- An operation on a register or a subregister of an interface that is not mapped, whether it
    -- succeeds or fails, leaves it unmapped and gives back every mapping and power setting. A custom
    -- mapper is kept too, unless opening the window is what failed.
    pub access-IsRestored : IsRestored i (access e idx op i).1
    unfolding access ◌>>=◌ map
    access-IsRestored =
        subst
          (λ d.
            IsRestored i
              (elim (map_device e d i).0 as (λ x. Result MmregError A × Mapped Mem) [
                | ok x ↦ settle e d (operate e idx op x (map_device e d i).1)
                | err x ↦ (err x, (map_device e d i).1)
              ]).1)
          (sym unmapped)
          (map_unmapped-cases (λ q. IsRestored i (finish q).1) i
            (λ x. record { unmapped = unmapped; balanced = level; mapper_kept = inl refl })
            (λ x. record {
              unmapped = unmapped;
              balanced = checked_world-balanced i;
              mapper_kept = inl refl;
            })
            (installed-IsRestored
              (open_device e (interface_builder e i.interface i.custom_mapper) (checked_world i))
              refl))
