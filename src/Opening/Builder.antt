-- ===== src/Opening/Builder.antt =====
-- Building what is to be opened: src/device.rs, the methods of `DeviceBuilder` that set a field, and
-- the functions of `Device` that start one.
use mmreg.Memory.{MapperType}
use mmreg.Opening.{uio_name, uio_path, addr, DeviceBuilder, new_builder}
use mmreg.Prelude.{ℕ, Bool, true, some, Text}
use mmreg.Validation.{SafetyProfile}

-- `Device::uio`, `Device::uio_path` and `Device::addr`.
abbrev pub device_uio : Text → DeviceBuilder
device_uio name = new_builder (uio_name name)

abbrev pub device_uio_path : Text → DeviceBuilder
device_uio_path path = new_builder (uio_path path)

abbrev pub device_addr : ℕ → ℕ → DeviceBuilder
device_addr base size = new_builder (addr base size)

-- The methods, by their names.
abbrev pub with_name : Text → DeviceBuilder → DeviceBuilder
with_name name b = record b { name_override = some name }

abbrev pub region : ℕ → DeviceBuilder → DeviceBuilder
region index b = record b { region_index = index }

abbrev pub set_read_only : DeviceBuilder → DeviceBuilder
set_read_only b = record b { read_only = true }

abbrev pub with_read_only : Bool → DeviceBuilder → DeviceBuilder
with_read_only ro b = record b { read_only = ro }

abbrev pub with_force : Bool → DeviceBuilder → DeviceBuilder
with_force force b = record b { force_map = force }

abbrev pub with_mapper_type : MapperType → DeviceBuilder → DeviceBuilder
with_mapper_type kind b = record b { mapper_type = kind }

abbrev pub with_safety_profile : SafetyProfile → DeviceBuilder → DeviceBuilder
with_safety_profile profile b = record b { safety_profile = some profile }

abbrev pub with_custom_mapper : DeviceBuilder → DeviceBuilder
with_custom_mapper b = record b { custom_mapper = true }
