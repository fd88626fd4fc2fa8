-- ===== src/Interface/Mapped.antt =====
-- Mapping an `Interface` and what its operations do through the mapping: src/interface.rs (`map`,
-- `unmap`, `access` and the public operations on registers and subregisters).
use mmreg.Device.{LockFiles, World}
use mmreg.Error.{MmregError}
use mmreg.Interface.Access.{read_register, write_register, read_field, write_field, parse_field}
use mmreg.Interface.{Interface, validate_layout, register_index, field}
use mmreg.Memory.{Mapper}
use mmreg.Opening.Builder.{device_addr, with_name, with_force, with_mapper_type, with_custom_mapper}
use mmreg.Opening.Build.{Setting, open_device, run_profile, close}
use mmreg.Opening.{Backend, os, custom, DeviceBuilder, OpenWorld, Opened}
use mmreg.Prelude.{
  if◌then◌else◌, ℕ, Bool, true, false, List, [], Option, none, some, Text, Result, ok, err,
  get_elem?, set,
}
use mmreg.Register.{Register}

-- The state of an `Interface`: its fields, whether it holds a custom mapper, its device with whether
-- that has opened the lock of its base page, the warnings, and the world behind.
pub record Mapped (Mem : Type 0) : Type 0 where
  pub interface : Interface
  pub custom_mapper : Bool
  pub device : Option (Opened × Bool)
  pub warnings : List Text
  pub world : OpenWorld Mem

-- A method of `&mut self`.
abbrev pub Method : Type 0 → Type 0 → Type 0
Method Mem A = Mapped Mem → Result MmregError A × Mapped Mem

infixl 5 ◌>>=◌
unfoldable pub ◌>>=◌ : {Mem A B : Type 0} → Method Mem A → (A → Method Mem B) → Method Mem B
◌>>=◌ m f i = let (r, j) = m i in elim r [ ok a ↦ f a j | err e ↦ (err e, j) ]

-- What an operation does with a register through a device; it gives back the register.
abbrev pub RegisterCall : Type 0 → Type 0 → Type 0
RegisterCall Mem A =
    Opened
    → Mapper Mem
    → LockFiles
    → Register
    → World Mem
    → Result MmregError (A × Register) × World Mem

module _ {Mem : Type 0} (e : Setting Mem) where
  -- The builder that `map` opens.
  abbrev pub interface_builder : Interface → Bool → DeviceBuilder
  interface_builder i has_custom =
      let b =
        with_mapper_type i.mapper_type
          (with_force i.force_map (with_name i.name (device_addr i.base_address i.size))) in
      if has_custom then with_custom_mapper b else b

  -- The end of `map`: the custom mapper leaves the interface for the builder, and is lost with it
  -- when opening fails.
  abbrev pub installed :
      Mapped Mem
      → Result MmregError Opened × OpenWorld Mem
      → Result MmregError (Opened × Bool) × Mapped Mem
  installed i (err x, w) = (err x, record i { custom_mapper = false; world = w })
  installed i (ok o, w) = (
    ok (o, false),
    record i {
      custom_mapper = false;
      device = some (o, false);
      warnings = o.device.warnings;
      world = w;
    },
  )

  abbrev pub open_interface : Method Mem (Opened × Bool)
  open_interface i =
      installed i (open_device e (interface_builder i.interface i.custom_mapper) i.world)

  abbrev pub check_interface : Method Mem (Unit {0})
  check_interface i = (validate_layout e.platform i.interface, i)

  abbrev pub profile_interface : Method Mem (Unit {0})
  profile_interface i =
      let (r, w) = run_profile e i.interface.safety_profile i.world in (r, record i { world = w })

  -- `map`, of an interface that is not mapped. The device that it installs is returned too.
  unfoldable pub map_unmapped : Method Mem (Opened × Bool)
  map_unmapped = check_interface >>= λ _. profile_interface >>= λ _. open_interface

  -- `map`.
  abbrev pub map_device : Option (Opened × Bool) → Method Mem (Opened × Bool)
  map_device none i = map_unmapped i
  map_device (some d) i = (ok d, i)

  unfoldable pub map : Method Mem (Opened × Bool)
  unfolding map_unmapped
  map i = map_device i.device i

  -- The custom mapper that `take_custom_mapper` gives back, if the device has one.
  abbrev pub regained : Backend → Bool → Bool
  regained custom kept = true
  regained (os kind) kept = kept

  -- `unmap`.
  abbrev pub unmap_device : Option (Opened × Bool) → Mapped Mem → Mapped Mem
  unmap_device none i = i
  unmap_device (some (o, page)) i = record i {
    custom_mapper = regained o.backend i.custom_mapper;
    device = none;
    world = close e o i.world;
  }

  unfoldable pub unmap : Mapped Mem → Mapped Mem
  unmap i = unmap_device i.device i

  -- An operation on the register at an index, of a device that is open.
  abbrev pub stored :
      {A : Type 0}
      → Mapped Mem
      → Opened
      → ℕ
      → Result MmregError (A × Register) × World Mem
      → Result MmregError A × Mapped Mem
  stored i o idx (err x, w) = (
    err x,
    record i {
      device = some (o, w.base_page_open);
      world = record { mem = w.mem; device_log = w.log; log = i.world.log };
    },
  )
  stored i o idx (ok (a, r), w) = (
    ok a,
    record i {
      interface = record i.interface { registers = set i.interface.registers idx r };
      device = some (o, w.base_page_open);
      world = record { mem = w.mem; device_log = w.log; log = i.world.log };
    },
  )

  -- The register at an index. Beyond the registers the code panics, which a blank register stands
  -- for; the indices come from lookups.
  abbrev pub register_at : Mapped Mem → ℕ → Register
  register_at i idx = elim (get_elem? i.interface.registers idx) [
    | some r ↦ r
    | none ↦ record { name = []; offset = 0; raw = 0; children = [] }
  ]

  abbrev pub operate : {A : Type 0} → ℕ → RegisterCall Mem A → Opened × Bool → Method Mem A
  operate idx op (o, page) i = stored i o idx (
      op o (e.behind o.backend o.device.base_address o.device.size) (e.files o.backend)
        (register_at i idx)
        (record { mem = i.world.mem; base_page_open = page; log = i.world.device_log }))

  -- `unmap` after the operation, if `access` mapped the window.
  abbrev pub settle :
      {A : Type 0}
      → Option (Opened × Bool)
      → Result MmregError A × Mapped Mem
      → Result MmregError A × Mapped Mem
  settle none (r, i) = (r, unmap i)
  settle (some d) (r, i) = (r, i)

  -- `access`.
  unfoldable pub access : {A : Type 0} → ℕ → RegisterCall Mem A → Method Mem A
  unfolding map unmap
  access idx op i = (map >>= λ d j. settle i.device (operate idx op d j)) i

  -- An operation that returns no value besides the register.
  abbrev pub without_value :
      Result MmregError Register × World Mem → Result MmregError (Unit {0} × Register) × World Mem
  without_value (ok r, w) = (ok (tt, r), w)
  without_value (err x, w) = (err x, w)

  -- `read_register` and `write_register`.
  unfoldable pub read_named : Text → Method Mem ℕ
  unfolding access register_index
  read_named name i = elim (register_index i.interface name) [
    | err x ↦ (err x, i)
    | ok (idx, _) ↦ access idx (λ o m files. read_register e.platform files m o.device) i
  ]

  unfoldable pub write_named : Text → ℕ → Method Mem (Unit {0})
  unfolding access register_index
  write_named name value i = elim (register_index i.interface name) [
    | err x ↦ (err x, i)
    | ok (idx, _) ↦
        access idx
          (λ o m files r w. without_value (write_register e.platform files m o.device value r w)) i
  ]

  -- `read_subregister`, `write_subregister` and `parse_subregister`.
  unfoldable pub read_subregister : Text → Text → Method Mem ℕ
  unfolding access field
  read_subregister reg_name sub_name i = elim (field i.interface reg_name sub_name) [
    | err x ↦ (err x, i)
    | ok (idx, mask, lsb) ↦
        access idx (λ o m files. read_field e.platform files m o.device mask lsb) i
  ]

  unfoldable pub write_subregister : Text → Text → ℕ → Method Mem (Unit {0})
  unfolding access field
  write_subregister reg_name sub_name value i = elim (field i.interface reg_name sub_name) [
    | err x ↦ (err x, i)
    | ok (idx, mask, lsb) ↦
        access idx
          (λ o m files r w.
            without_value (write_field e.platform files m o.device mask lsb value r w))
          i
  ]

  unfoldable pub parse_subregister : Text → Text → Method Mem ℕ
  unfolding field
  parse_subregister reg_name sub_name i = elim (field i.interface reg_name sub_name) [
    | err x ↦ (err x, i)
    | ok (idx, mask, lsb) ↦ (ok (parse_field mask lsb (register_at i idx)), i)
  ]
