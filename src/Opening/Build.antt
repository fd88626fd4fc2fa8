-- ===== src/Opening/Build.antt =====
-- `DeviceBuilder::open` of src/device.rs, dropping a device, and the one-shot functions of src/lib.rs.
use mmreg.Device.{LockFiles, World, read_narrow, write}
use mmreg.Error.{MmregError, out_of_bounds_access, unaligned_access}
use mmreg.Memory.{u32, MapperType, dev_mem, uio, Mapper, Platform, page_size}
use mmreg.Opening.Builder.{device_addr, set_read_only, with_force}
use mmreg.Opening.Mapping.{Os, os_map, acquire_power}
use mmreg.Opening.Resolve.{Sysfs, Target, resolve}
use mmreg.Opening.{
  TargetSpec, uio_name, uio_path, addr, DeviceBuilder, Backend, custom, mapping, power, OpenWorld,
  Action, ◌>>=◌, pure, lift, take, drop, on_error, Opened,
}
use mmreg.Prelude.{
  ℕ, ◌+◌, ◌%◌, ◌^◌, Bool, true, false, not, ◌&&◌, ◌||◌, List, [], ◌++◌, Option, none, some, leb,
  ◌==◌, if◌then◌else◌, Text, codes, Result, ok, err,
}
use mmreg.Uio.{UioMap, RegionMessage, Regions, region_window}
use mmreg.Validation.{SafetyProfile, execute_with}

-- What a builder's target stands for: default name, base address, size and mapper.
pub record Window : Type 0 where
  pub default_name : Text
  pub base_address : ℕ
  pub size : ℕ
  pub mapper_type : MapperType

-- What is outside: the platform, sysfs, the system's calls, the texts of some messages, and the
-- memory and lock files behind a mapping.
pub record Setting (Mem : Type 0) : Type 0 where
  pub platform : Platform
  pub region_text : RegionMessage → Text
  pub regions : Regions
  pub sysfs : Sysfs
  pub find_uio : Text → Result MmregError Text
  pub os : Os
  pub warning : Text → Text → Text
  pub debug : Bool
  pub behind : Backend → ℕ → ℕ → Mapper Mem
  pub files : Backend → LockFiles

module _ {Mem : Type 0} (e : Setting Mem) where
  -- `resolve_uio_spec`.
  unfoldable pub resolve_uio_spec :
      Text → Result MmregError Text → ℕ → Bool → Result MmregError Window
  unfolding region_window
  resolve_uio_spec default_name path_res region_index mock_fallback = elim (read_region path_res) [
    | ok (path, win) ↦ ok (record {
      default_name = default_name;
      base_address = win.addr;
      size = win.size;
      mapper_type = uio path region_index;
    })
    | err x ↦
        if mock_fallback
        then ok (record {
          default_name = default_name;
          base_address = 0;
          size = page_size e.platform;
          mapper_type = uio default_name region_index;
        })
        else err x
  ]
    where
      read_region : Result MmregError Text → Result MmregError (Text × UioMap)
      read_region (err x) = err x
      read_region (ok path) =
          elim (region_window e.platform e.region_text e.regions path region_index) [
            | ok win ↦ ok (path, win)
            | err x ↦ err x
          ]

  abbrev pub label : Option Text → Text
  label none = codes "mmreg"
  label (some name) = name

  -- The `match self.spec` of `open`.
  unfoldable pub window : DeviceBuilder → TargetSpec → Result MmregError Window
  unfolding resolve_uio_spec
  window b (uio_name name) =
      resolve_uio_spec name (e.find_uio name) b.region_index (b.custom_mapper && b.force_map)
  window b (uio_path path) =
      resolve_uio_spec path (ok path) b.region_index (b.custom_mapper && b.force_map)
  window b (addr base size) =
      if size == 0 || leb (2 ^ 64) (base + size)
      then err (out_of_bounds_access (label b.name_override) 0 1 size)
      else ok (record {
        default_name = label b.name_override;
        base_address = base;
        size = size;
        mapper_type = b.mapper_type;
      })

  -- The runtime power guard of a window of /dev/mem.
  abbrev pub guard_power : Bool → MapperType → Option Text → Action Mem (Option Text × List Text)
  guard_power false dev_mem (some owner) =
      if e.debug then acquire_power e.os e.warning owner else pure (none, [])
  guard_power _ _ _ = pure (none, [])

  abbrev pub restore : Option Text → OpenWorld Mem → OpenWorld Mem
  restore none w = w
  restore (some owner) w = drop (power owner) w

  -- `map` of a custom mapper, and of the system's mapper.
  unfoldable pub map_with : Bool → Bool → Window → MapperType → Action Mem Backend
  unfolding os_map
  map_with true ro win kind w = elim (e.os.custom_map_error w.log win.base_address win.size) [
    | some x ↦ (err x, w)
    | none ↦ (ok custom, take (mapping custom) w)
  ]
  map_with false ro win kind w =
      os_map e.platform e.region_text e.regions e.os e.debug kind ro win.base_address win.size w

  -- The UIO device whose lock the device takes.
  abbrev pub lock_path : Bool → MapperType → Option Text
  lock_path false (uio device_path region_index) = some device_path
  lock_path _ _ = none

  abbrev pub open_lock : Option Text → Action Mem (Unit {0})
  open_lock none w = (ok tt, w)
  open_lock (some path) w = elim (e.os.lock_error w.log path) [
    | some x ↦ (err x, w)
    | none ↦ (ok tt, w)
  ]

  abbrev pub chosen : Option Text → Text → Text
  chosen none default_name = default_name
  chosen (some name) default_name = name

  abbrev pub is_some : Option Text → Bool
  is_some none = false
  is_some (some t) = true

  -- The device that `open` returns.
  abbrev pub opened : DeviceBuilder → Window → Target → Option Text × List Text → Backend → Opened
  opened b win target pm backend = record {
    device = record {
      name = chosen b.name_override win.default_name;
      base_address = win.base_address;
      size = win.size;
      is_read_only = b.read_only;
      device_path = lock_path b.custom_mapper target.mapper;
      warnings = target.warnings ++ pm.1;
      has_uio_lock = is_some (lock_path b.custom_mapper target.mapper);
    };
    backend = backend;
    guard = pm.0;
  }

  -- Mapping, and the lock of a UIO device. The power guard is dropped when either fails.
  unfoldable pub install :
      DeviceBuilder → Window → Target → Option Text × List Text → Action Mem Opened
  unfolding map_with
  install b win target pm =
      on_error (restore pm.0) (map_with b.custom_mapper b.read_only win target.mapper)
      >>= λ backend.
          on_error (λ w. restore pm.0 (drop (mapping backend) w))
            (open_lock (lock_path b.custom_mapper target.mapper))
          >>= λ _. pure (opened b win target pm backend)

  -- `open` after the safety profile.
  unfoldable pub open_window : DeviceBuilder → Action Mem Opened
  unfolding window resolve acquire_power install
  open_window b = lift (window b b.spec) >>= λ win.
      lift (resolve e.sysfs win.base_address win.size win.mapper_type (not b.force_map))
      >>= λ target. guard_power b.custom_mapper target.mapper target.owner >>= install b win target

  -- Dropping a device: its mapping goes first, its power guard last.
  abbrev pub close : Opened → OpenWorld Mem → OpenWorld Mem
  close o w = restore o.guard (drop (mapping o.backend) w)

  -- A call of an open device.
  abbrev pub use_device :
      {A : Type 0}
      → Opened
      → (Mapper Mem → LockFiles → World Mem → Result MmregError A × World Mem)
      → Action Mem A
  use_device o run w =
      let (r, v) =
        run (e.behind o.backend o.device.base_address o.device.size) (e.files o.backend)
          (record { mem = w.mem; base_page_open = false; log = w.device_log }) in
      (r, record { mem = v.mem; device_log = v.log; log = w.log })

  -- One call of a device that is then dropped.
  abbrev pub once :
      {A : Type 0}
      → Opened
      → (Mapper Mem → LockFiles → World Mem → Result MmregError A × World Mem)
      → Action Mem A
  once o run w = let (r, v) = use_device o run w in (r, close o v)

  abbrev pub word_at : ℕ → Bool → Bool → DeviceBuilder
  word_at address true force = with_force force (set_read_only (device_addr address 4))
  word_at address false force = with_force force (device_addr address 4)

  -- `read_register_at`.
  unfoldable pub read_register_at : Bool → ℕ → Action Mem ℕ
  unfolding open_window read_narrow
  read_register_at force address =
      if not (address % 4 == 0)
      then lift (err (unaligned_access address 0))
      else (open_window (word_at address true force) >>= λ o.
          once o (λ m files. read_narrow e.platform files m o.device u32 0))

  -- `write_register_at`.
  unfoldable pub write_register_at : Bool → ℕ → ℕ → Action Mem (Unit {0})
  unfolding open_window write
  write_register_at force address value =
      if not (address % 4 == 0)
      then lift (err (unaligned_access address 0))
      else (open_window (word_at address false force) >>= λ o.
          once o (λ m files. write e.platform files m o.device 0 u32 value))

  -- The safety profile of a builder.
  unfoldable pub run_profile : Option SafetyProfile → Action Mem (Unit {0})
  unfolding read_register_at execute_with
  run_profile none w = (ok tt, w)
  run_profile (some profile) w = execute_with profile (read_register_at true) w

  -- `DeviceBuilder::open`.
  unfoldable pub open_device : DeviceBuilder → Action Mem Opened
  unfolding run_profile open_window
  open_device b = run_profile b.safety_profile >>= λ _. open_window b
