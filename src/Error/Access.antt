-- ===== src/Error/Access.antt =====
-- The messages of the errors of accesses, locks and lookups: src/error.rs (`Display`).
use mmreg.Error.Format.{decimal, hex, join_names, lock_remedy}
use mmreg.Prelude.{ℕ, ◌+◌, ◌/◌, ◌%◌, ◌^◌, List, [], ◌∷◌, ◌++◌, Text, codes}

-- `MmregError::UnalignedAccess`.
unfoldable pub unaligned_access_text : Text → ℕ → ℕ → Text
unaligned_access_text code address offset =
    codes "["
    ++ code
    ++ codes "] Unaligned 32-bit register access at base 0x"
    ++ hex address
    ++ codes " + offset 0x"
    ++ hex offset
    ++ codes " (effective address 0x"
    ++ hex ((address + offset) % 2 ^ 64)
    ++ codes
        "). Remediation: Ensure both base address and register offsets are multiples of 4 bytes."

-- `MmregError::UnalignedWidthAccess`.
unfoldable pub unaligned_width_access_text : Text → ℕ → ℕ → ℕ → Text
unaligned_width_access_text code address offset width_bits =
    codes "["
    ++ code
    ++ codes "] Unaligned "
    ++ decimal width_bits
    ++ codes "-bit register access at base 0x"
    ++ hex address
    ++ codes " + offset 0x"
    ++ hex offset
    ++ codes " (effective address 0x"
    ++ hex ((address + offset) % 2 ^ 64)
    ++ codes "). Remediation: A "
    ++ decimal width_bits
    ++ codes "-bit access needs an effective address that is a multiple of "
    ++ decimal (width_bits / 8)
    ++ codes " bytes."

-- `MmregError::OutOfBoundsAccess`.
unfoldable pub out_of_bounds_access_text : Text → Text → ℕ → ℕ → ℕ → Text
out_of_bounds_access_text code register_name offset access_size region_size =
    codes "["
    ++ code
    ++ codes "] Out-of-bounds access for register '"
    ++ register_name
    ++ codes "' at offset 0x"
    ++ hex offset
    ++ codes " ("
    ++ decimal access_size
    ++ codes "-byte access exceeds mapped region size of "
    ++ decimal region_size
    ++ codes " bytes). Remediation: Increase the Interface `size` so `offset + "
    ++ decimal access_size
    ++ codes " <= size`."

-- `MmregError::LockOpen`.
unfoldable pub lock_open_text : Text → Text → Text → Text
lock_open_text code lock_path details =
    codes "["
    ++ code
    ++ codes "] Failed to open inter-process lock file '"
    ++ lock_path
    ++ codes "': "
    ++ details
    ++ codes ". Remediation: "
    ++ lock_remedy lock_path

-- `MmregError::LockAcquire`.
unfoldable pub lock_acquire_text : Text → Text → Text
lock_acquire_text code details =
    codes "["
    ++ code
    ++ codes "] Failed to acquire exclusive inter-process lock: "
    ++ details
    ++ codes "."

-- `MmregError::LockRangeTooLarge`.
unfoldable pub lock_range_too_large_text : Text → Text → ℕ → ℕ → Text
lock_range_too_large_text code name pages max_pages =
    codes "["
    ++ code
    ++ codes "] Sequence lock on '"
    ++ name
    ++ codes "' would hold "
    ++ decimal pages
    ++ codes " page locks (at most "
    ++ decimal max_pages
    ++ codes
        "). Remediation: Open a smaller Device window covering only the registers of the sequence."

-- `MmregError::RegisterNotFound`.
unfoldable pub register_not_found_text : Text → Text → Text → List Text → Text
register_not_found_text code interface_name register_name available =
    codes "["
    ++ code
    ++ codes "] Register '"
    ++ register_name
    ++ codes "' not found in interface '"
    ++ interface_name
    ++ codes "'. Available registers: ["
    ++ join_names available
    ++ codes "]"

-- `MmregError::SubRegisterNotFound`.
unfoldable pub sub_register_not_found_text : Text → Text → Text → Text → List Text → Text
sub_register_not_found_text code interface_name register_name subregister_name available =
    codes "["
    ++ code
    ++ codes "] SubRegister '"
    ++ subregister_name
    ++ codes "' not found in Register '"
    ++ register_name
    ++ codes "' (interface '"
    ++ interface_name
    ++ codes "'). Available subregisters: ["
    ++ join_names available
    ++ codes "]"

-- `MmregError::InvalidSubRegister`.
unfoldable pub invalid_sub_register_text : Text → Text → Text → ℕ → ℕ → Text
invalid_sub_register_text code register_name subregister_name msb lsb =
    codes "["
    ++ code
    ++ codes "] SubRegister '"
    ++ subregister_name
    ++ codes "' of Register '"
    ++ register_name
    ++ codes "' has invalid bit range ["
    ++ decimal msb
    ++ codes ":"
    ++ decimal lsb
    ++ codes "]. Remediation: Use 31 >= msb >= lsb."

-- `MmregError::DebugDisabled`.
unfoldable pub debug_disabled_text : Text → ℕ → Text
debug_disabled_text code address =
    codes "["
    ++ code
    ++ codes "] Address 0x"
    ++ hex address
    ++ codes
        " is not inside any UIO region, and this mmreg build has no /dev/mem access. Remediation: Bind the peripheral to UIO (`compatible = "
    ++ b'"' ∷ []
    ++ codes "generic-uio"
    ++ b'"' ∷ []
    ++ codes "`), or use an mmreg built with the `debug` feature (development images only)."

-- `MmregError::UioNotFound`.
unfoldable pub uio_not_found_text : Text → Text → List Text → Text
uio_not_found_text code name available =
    codes "["
    ++ code
    ++ codes "] UIO device '"
    ++ name
    ++ codes "' not found in /sys/class/uio. Available UIO names: ["
    ++ join_names available
    ++ codes
        "]. Remediation: Check the Device Tree `linux,uio-name` / node name and ensure `uio_pdrv_genirq.of_id=generic-uio` is set."

-- `MmregError::UioAmbiguous`.
unfoldable pub uio_ambiguous_text : Text → Text → List Text → Text
uio_ambiguous_text code name devices =
    codes "["
    ++ code
    ++ codes "] Multiple UIO devices have the name '"
    ++ name
    ++ codes "': ["
    ++ join_names devices
    ++ codes
        "]. Remediation: Give each Device Tree node a unique `linux,uio-name`, or open by path (`Device::open_uio_path`)."

-- `MmregError::UioRequired`.
unfoldable pub uio_required_text : Text → Text → Text
uio_required_text code operation =
    codes "["
    ++ code
    ++ codes "] Operation '"
    ++ operation
    ++ codes
        "' requires a UIO-backed device (/dev/uioN). Remediation: Open the peripheral via `Device::open_uio` or `Device::open_uio_path`."

-- `MmregError::UioIrq`.
unfoldable pub uio_irq_text : Text → Text → Text → Text
uio_irq_text code device_path details =
    codes "["
    ++ code
    ++ codes "] UIO interrupt operation failed on '"
    ++ device_path
    ++ codes "': "
    ++ details
    ++ codes
        ". Remediation: Verify the UIO device has an `interrupts` property in the Device Tree and its driver supports `irqcontrol` (`uio_pdrv_genirq`)."

-- `MmregError::ReadOnly`.
unfoldable pub read_only_text : Text → Text → Text
read_only_text code name =
    codes "["
    ++ code
    ++ codes "] Cannot write to read-only device '"
    ++ name
    ++ codes
        "'. Remediation: Open the device without `.read_only()` and ensure write permission on the device node."
