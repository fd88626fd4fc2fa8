-- ===== src/Opening.antt =====
-- Opening a window: `DeviceBuilder` of src/device.rs, with `resolve` of src/memcheck.rs and
-- `OsMapper::map` of src/memregs.rs. What sysfs says, and the calls of the system, are parameters.
pub mod Resolve
pub mod Mapping
pub mod Builder
pub mod Build
pub mod Ledger
pub mod Steps
pub mod Balance
pub mod Approval
pub mod Describe
use mmreg.Error.{MmregError}
use mmreg.Memory.{MapperType, auto}
use mmreg.Device.{Device, Log}
use mmreg.Prelude.{ℕ, Bool, true, false, List, [], ◌∷◌, Option, none, some, Text, Result, ok, err}
use mmreg.Validation.{SafetyProfile}

-- `enum TargetSpec`.
pub data TargetSpec : Type 0 where
  uio_name uio_path : Text → TargetSpec
  addr : (base : ℕ) → (size : ℕ) → TargetSpec

-- `struct DeviceBuilder`; of a custom mapper, whether there is one.
pub record DeviceBuilder : Type 0 where
  pub spec : TargetSpec
  pub name_override : Option Text
  pub region_index : ℕ
  pub read_only : Bool
  pub force_map : Bool
  pub mapper_type : MapperType
  pub safety_profile : Option SafetyProfile
  pub custom_mapper : Bool

-- `DeviceBuilder::new`.
abbrev pub new_builder : TargetSpec → DeviceBuilder
new_builder spec = record {
  spec = spec;
  name_override = none;
  region_index = 0;
  read_only = false;
  force_map = false;
  mapper_type = auto;
  safety_profile = none;
  custom_mapper = false;
}

-- `enum Backend`.
pub data Backend : Type 0 where
  os : MapperType → Backend
  custom : Backend

-- What a device holds until it is dropped: its mapping, and the power setting of its owner.
pub data Resource : Type 0 where
  mapping : Backend → Resource
  power : Text → Resource

pub data OpenEvent : Type 0 where
  took dropped : Resource → OpenEvent

-- What was taken and dropped, latest first.
abbrev pub OpenLog : Type 0
OpenLog = List OpenEvent

-- The state: the memory behind all mappings, the log of accesses and locks, and that of resources.
pub record OpenWorld (Mem : Type 0) : Type 0 where
  pub mem : Mem
  pub device_log : Log
  pub log : OpenLog

abbrev pub Action : Type 0 → Type 0 → Type 0
Action Mem A = OpenWorld Mem → Result MmregError A × OpenWorld Mem

infixl 5 ◌>>=◌
unfoldable pub ◌>>=◌ : {Mem A B : Type 0} → Action Mem A → (A → Action Mem B) → Action Mem B
◌>>=◌ m f w = let (r, v) = m w in elim r [ ok a ↦ f a v | err e ↦ (err e, v) ]

abbrev pub pure : {Mem A : Type 0} → A → Action Mem A
pure a w = (ok a, w)

abbrev pub lift : {Mem A : Type 0} → Result MmregError A → Action Mem A
lift r w = (r, w)

abbrev pub take : {Mem : Type 0} → Resource → OpenWorld Mem → OpenWorld Mem
take r w = record w { log = took r ∷ w.log }

abbrev pub drop : {Mem : Type 0} → Resource → OpenWorld Mem → OpenWorld Mem
drop r w = record w { log = dropped r ∷ w.log }

-- What goes out of scope when a step fails.
unfoldable pub on_error :
    {Mem A : Type 0} → (OpenWorld Mem → OpenWorld Mem) → Action Mem A → Action Mem A
on_error cleanup m w = let (r, v) = m w in elim r [ ok a ↦ (ok a, v) | err e ↦ (err e, cleanup v) ]

-- A device with what it holds besides its fields in `Device`.
pub record Opened : Type 0 where
  pub device : Device
  pub backend : Backend
  pub guard : Option Text
