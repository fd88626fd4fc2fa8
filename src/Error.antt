-- ===== src/Error.antt =====
-- The error type of the library: src/error.rs. A path is a text. Display texts are not modelled.
pub mod Format
pub mod Mapping
pub mod Access
pub mod Display
pub mod Prefixed
use mmreg.Message.{ProfileMessage}
use mmreg.Prelude.{ℕ, List, Text, codes}

pub data MmregError : Type 0 where
  blueprint_unmapped : (address : ℕ) → (size : ℕ) → MmregError
  blueprint_system_ram : (address : ℕ) → (size : ℕ) → (resource : Text) → MmregError
  zombie_dt_status : (device_name : Text) → (status : Text) → (status_path : Text) → MmregError
  zombie_runtime_pm :
      (device_name : Text) → (status : Text) → (pm_path : Text) → (device_path : Text) → MmregError
  zombie_supplier_pm :
      (device_name : Text)
      → (supplier_name : Text) → (status : Text) → (supplier_pm_path : Text) → MmregError
  zombie_fpga_state :
      (device_name : Text)
      → (manager_name : Text) → (state : Text) → (state_path : Text) → MmregError
  zombie_clock_gated : (device_name : Text) → (clock_name : Text) → (clk_path : Text) → MmregError
  validation_hook_failed :
      (profile_name : Text)
      → (check_name : Text) → (address : ℕ) → (mask : ℕ) → (expected : ℕ) → (actual : ℕ)
      → MmregError
  validation_profile_parse : (details : ProfileMessage) → MmregError
  dev_mem_open : (address : ℕ) → (details : Text) → MmregError
  dev_mem_mmap : (address : ℕ) → (page_base : ℕ) → (size : ℕ) → (details : Text) → MmregError
  uio_open : (device_path : Text) → (details : Text) → MmregError
  uio_mmap : (device_path : Text) → (region_index : ℕ) → (size : ℕ) → (details : Text) → MmregError
  uio_address_invalid :
      (device_path : Text) → (region_index : ℕ) → (address : ℕ) → (details : Text) → MmregError
  unaligned_access : (address : ℕ) → (offset : ℕ) → MmregError
  unaligned_width_access : (address : ℕ) → (offset : ℕ) → (width_bits : ℕ) → MmregError
  out_of_bounds_access :
      (register_name : Text) → (offset : ℕ) → (access_size : ℕ) → (region_size : ℕ) → MmregError
  lock_open : (lock_path : Text) → (details : Text) → MmregError
  lock_acquire : (details : Text) → MmregError
  lock_range_too_large : (name : Text) → (pages : ℕ) → (max_pages : ℕ) → MmregError
  register_not_found :
      (interface_name : Text) → (register_name : Text) → (available : List Text) → MmregError
  sub_register_not_found :
      (interface_name : Text)
      → (register_name : Text) → (subregister_name : Text) → (available : List Text) → MmregError
  invalid_sub_register :
      (register_name : Text) → (subregister_name : Text) → (msb : ℕ) → (lsb : ℕ) → MmregError
  debug_disabled : (address : ℕ) → MmregError
  uio_not_found : (name : Text) → (available : List Text) → MmregError
  uio_ambiguous : (name : Text) → (devices : List Text) → MmregError
  uio_required : (operation : Text) → MmregError
  uio_irq : (device_path : Text) → (details : Text) → MmregError
  read_only : (name : Text) → MmregError

-- `code`.
unfoldable pub code : MmregError → Text
code (blueprint_unmapped _ _) = codes "E_BLUEPRINT_UNMAPPED"
code (blueprint_system_ram _ _ _) = codes "E_BLUEPRINT_RAM"
code (zombie_dt_status _ _ _) = codes "E_ZOMBIE_DT_STATUS"
code (zombie_runtime_pm _ _ _ _) = codes "E_ZOMBIE_RUNTIME_PM"
code (zombie_supplier_pm _ _ _ _) = codes "E_ZOMBIE_SUPPLIER_PM"
code (zombie_fpga_state _ _ _ _) = codes "E_ZOMBIE_FPGA_STATE"
code (zombie_clock_gated _ _ _) = codes "E_ZOMBIE_CLOCK_GATED"
code (validation_hook_failed _ _ _ _ _ _) = codes "E_VALIDATION_HOOK_FAILED"
code (validation_profile_parse _) = codes "E_VALIDATION_PROFILE_PARSE"
code (dev_mem_open _ _) = codes "E_DEVMEM_OPEN"
code (dev_mem_mmap _ _ _ _) = codes "E_DEVMEM_MMAP"
code (uio_open _ _) = codes "E_UIO_OPEN"
code (uio_mmap _ _ _ _) = codes "E_UIO_MMAP"
code (uio_address_invalid _ _ _ _) = codes "E_UIO_ADDRESS"
code (unaligned_access _ _) = codes "E_UNALIGNED_ACCESS"
code (unaligned_width_access _ _ _) = codes "E_UNALIGNED_ACCESS"
code (out_of_bounds_access _ _ _ _) = codes "E_OUT_OF_BOUNDS"
code (lock_open _ _) = codes "E_LOCK_OPEN"
code (lock_acquire _) = codes "E_LOCK_ACQUIRE"
code (lock_range_too_large _ _ _) = codes "E_LOCK_RANGE"
code (register_not_found _ _ _) = codes "E_REG_NOT_FOUND"
code (sub_register_not_found _ _ _ _) = codes "E_SUBREG_NOT_FOUND"
code (invalid_sub_register _ _ _ _) = codes "E_SUBREG_RANGE"
code (debug_disabled _) = codes "E_DEBUG_DISABLED"
code (uio_not_found _ _) = codes "E_UIO_NOT_FOUND"
code (uio_ambiguous _ _) = codes "E_UIO_AMBIGUOUS"
code (uio_required _) = codes "E_UIO_REQUIRED"
code (uio_irq _ _) = codes "E_UIO_IRQ"
code (read_only _) = codes "E_READ_ONLY"
