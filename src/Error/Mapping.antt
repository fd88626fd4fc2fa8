-- ===== src/Error/Mapping.antt =====
-- The messages of the errors that stop a mapping: src/error.rs (`Display`).
use mmreg.Error.Format.{decimal, hex, hex_word}
use mmreg.Prelude.{ℕ, bit_and, [], ◌∷◌, ◌++◌, Text, codes}

-- `MmregError::BlueprintUnmapped`.
unfoldable pub blueprint_unmapped_text : Text → ℕ → ℕ → Text
blueprint_unmapped_text code address size =
    codes "["
    ++ code
    ++ codes "] Address 0x"
    ++ hex address
    ++ codes " (size "
    ++ decimal size
    ++ codes
        " bytes) is not recognized in any system blueprint (/sys/class/uio, /sys/bus/platform/devices/*/of_node/reg, or /proc/iomem). Remediation: 1) Run with `sudo` if /proc/iomem addresses are hidden (00000000-00000000) for non-root users; 2) Verify the peripheral's Device Tree node or UIO driver is loaded; 3) Pass --force (`with_force(true)`) only if you are certain the hardware bus will respond."

-- `MmregError::BlueprintSystemRam`.
unfoldable pub blueprint_system_ram_text : Text → ℕ → ℕ → Text → Text
blueprint_system_ram_text code address size resource =
    codes "["
    ++ code
    ++ codes "] Address 0x"
    ++ hex address
    ++ codes " (size "
    ++ decimal size
    ++ codes " bytes) matches restricted memory resource '"
    ++ resource
    ++ codes
        "' in /proc/iomem. Refusing to map system RAM, kernel memory, or reserved ranges as MMIO. Remediation: Verify the peripheral's physical address, or pass --force (`with_force(true)`) only if intentionally accessing this range."

-- `MmregError::ZombieDtStatus`.
unfoldable pub zombie_dt_status_text : Text → Text → Text → Text → Text
zombie_dt_status_text code device_name status status_path =
    codes "["
    ++ code
    ++ codes "] Hardware Pre-Flight failed (Zombie Hardware): Device '"
    ++ device_name
    ++ codes "' has Device Tree status '"
    ++ status
    ++ codes "' at '"
    ++ status_path
    ++ codes
        "' (expected 'okay'). Remediation: Enable the peripheral in the Device Tree (`status = "
    ++ b'"' ∷ []
    ++ codes "okay"
    ++ b'"' ∷ []
    ++ codes ";`) or pass --force (`with_force(true)`) to override."

-- `MmregError::ZombieRuntimePm`.
unfoldable pub zombie_runtime_pm_text : Text → Text → Text → Text → Text → Text
zombie_runtime_pm_text code device_name status pm_path device_path =
    codes "["
    ++ code
    ++ codes "] Hardware Pre-Flight failed (Zombie Hardware): Device '"
    ++ device_name
    ++ codes "' power/clock domain is '"
    ++ status
    ++ codes "' at '"
    ++ pm_path
    ++ codes
        "'. Accessing a suspended peripheral can hang the AXI/system bus. Remediation: Wake the device (`echo on | sudo tee "
    ++ device_path
    ++ codes "/power/control`), ensure its driver has active clocks, or pass --force to override."

-- `MmregError::ZombieSupplierPm`.
unfoldable pub zombie_supplier_pm_text : Text → Text → Text → Text → Text → Text
zombie_supplier_pm_text code device_name supplier_name status supplier_pm_path =
    codes "["
    ++ code
    ++ codes "] Hardware Pre-Flight failed (Zombie Hardware): Upstream clock/power supplier '"
    ++ supplier_name
    ++ codes "' for device '"
    ++ device_name
    ++ codes "' is '"
    ++ status
    ++ codes "' at '"
    ++ supplier_pm_path
    ++ codes "'. Remediation: Ensure upstream clock/power controller is active before accessing '"
    ++ device_name
    ++ codes "', or pass --force to override."

-- `MmregError::ZombieFpgaState`.
unfoldable pub zombie_fpga_state_text : Text → Text → Text → Text → Text → Text
zombie_fpga_state_text code device_name manager_name state state_path =
    codes "["
    ++ code
    ++ codes "] Hardware Pre-Flight failed (Zombie Hardware): Device '"
    ++ device_name
    ++ codes "' resides on the FPGA fabric, but FPGA manager '"
    ++ manager_name
    ++ codes "' is in state '"
    ++ state
    ++ codes "' at '"
    ++ state_path
    ++ codes
        "' (expected 'operating'). Remediation: Load the FPGA bitstream first (e.g., via `fpgautil -b <bitstream>`), or pass --force to override."

-- `MmregError::ZombieClockGated`.
unfoldable pub zombie_clock_gated_text : Text → Text → Text → Text → Text
zombie_clock_gated_text code device_name clock_name clk_path =
    codes "["
    ++ code
    ++ codes "] Hardware Pre-Flight failed (Zombie Hardware): Device '"
    ++ device_name
    ++ codes "' clock '"
    ++ clock_name
    ++ codes "' is gated in hardware at '"
    ++ clk_path
    ++ codes
        "'. Accessing a peripheral with a gated clock can cause an AXI bus hang or kernel RCU stall. Remediation: Enable the peripheral clock via its driver/device tree before accessing registers, or pass --force to override."

-- `MmregError::ValidationHookFailed`.
unfoldable pub validation_hook_failed_text : Text → Text → Text → ℕ → ℕ → ℕ → ℕ → Text
validation_hook_failed_text code profile_name check_name address mask expected actual =
    codes "["
    ++ code
    ++ codes "] Pre-Flight Safety Profile '"
    ++ profile_name
    ++ codes "' failed on check '"
    ++ check_name
    ++ codes "' at address 0x"
    ++ hex address
    ++ codes ": (actual 0x"
    ++ hex_word actual
    ++ codes " & mask 0x"
    ++ hex_word mask
    ++ codes ") == 0x"
    ++ hex_word (bit_and actual mask)
    ++ codes ", expected 0x"
    ++ hex_word (bit_and expected mask)
    ++ codes ". Remediation: Ensure hardware prerequisite '"
    ++ check_name
    ++ codes "' is satisfied before accessing target bus."

-- `MmregError::ValidationProfileParse`.
unfoldable pub validation_profile_parse_text : Text → Text → Text
validation_profile_parse_text code details =
    codes "["
    ++ code
    ++ codes "] Invalid Safety Profile: "
    ++ details
    ++ codes ". Remediation: Provide a valid JSON profile with `"
    ++ b'"' ∷ []
    ++ codes "name"
    ++ b'"' ∷ []
    ++ codes ": "
    ++ b'"' ∷ []
    ++ codes "..."
    ++ b'"' ∷ []
    ++ codes "` and `"
    ++ b'"' ∷ []
    ++ codes "checks"
    ++ b'"' ∷ []
    ++ codes ": [...]` objects (`name`, `addr`, `mask`, `expected`)."

-- `MmregError::DevMemOpen`.
unfoldable pub dev_mem_open_text : Text → ℕ → Text → Text
dev_mem_open_text code address details =
    codes "["
    ++ code
    ++ codes "] Failed to open /dev/mem for address 0x"
    ++ hex address
    ++ codes ": "
    ++ details
    ++ codes
        ". Remediation: Run with sudo or grant CAP_SYS_RAWIO (`sudo setcap cap_sys_rawio+ep $(which mmreg)`), or bind the peripheral to a UIO driver (/dev/uioN)."

-- `MmregError::DevMemMmap`.
unfoldable pub dev_mem_mmap_text : Text → ℕ → ℕ → ℕ → Text → Text
dev_mem_mmap_text code address page_base size details =
    codes "["
    ++ code
    ++ codes "] mmap(/dev/mem) failed for address 0x"
    ++ hex address
    ++ codes " (page base 0x"
    ++ hex page_base
    ++ codes ", size "
    ++ decimal size
    ++ codes " bytes): "
    ++ details
    ++ codes
        ". Remediation: If EPERM/Operation not permitted, the kernel has CONFIG_STRICT_DEVMEM enabled — expose the device via UIO (/dev/uioN) instead."

-- `MmregError::UioOpen`.
unfoldable pub uio_open_text : Text → Text → Text → Text
uio_open_text code device_path details =
    codes "["
    ++ code
    ++ codes "] Failed to open UIO device '"
    ++ device_path
    ++ codes "': "
    ++ details
    ++ codes ". Remediation: Verify the UIO device exists (`ls -l "
    ++ device_path
    ++ codes "`) and current user has read/write permissions (or udev rule)."

-- `MmregError::UioMmap`.
unfoldable pub uio_mmap_text : Text → Text → ℕ → ℕ → Text → Text
uio_mmap_text code device_path region_index size details =
    codes "["
    ++ code
    ++ codes "] mmap failed for UIO device '"
    ++ device_path
    ++ codes "' (region map"
    ++ decimal region_index
    ++ codes ", requested size "
    ++ decimal size
    ++ codes " bytes): "
    ++ details
    ++ codes ". Remediation: Check `/sys/class/uio/*/maps/map"
    ++ decimal region_index
    ++ codes "/size` to ensure requested size does not exceed region size."

-- `MmregError::UioAddressInvalid`.
unfoldable pub uio_address_invalid_text : Text → Text → ℕ → ℕ → Text → Text
uio_address_invalid_text code device_path region_index address details =
    codes "["
    ++ code
    ++ codes "] Invalid UIO address 0x"
    ++ hex address
    ++ codes " for device '"
    ++ device_path
    ++ codes "' (region map"
    ++ decimal region_index
    ++ codes "): "
    ++ details
    ++ codes
        ". Remediation: Keep the whole Interface range inside the region given by `/sys/class/uio/<uioN>/maps/map"
    ++ decimal region_index
    ++ codes "/addr` and `size`, or use MapperType::Auto."
