-- ===== src/Error/Display.antt =====
-- The messages of the errors: src/error.rs (`Display`). The details of a profile that cannot be
-- read are chosen by `details`.
use mmreg.Error.Mapping.{
  blueprint_unmapped_text, blueprint_system_ram_text, zombie_dt_status_text, zombie_runtime_pm_text,
  zombie_supplier_pm_text, zombie_fpga_state_text, zombie_clock_gated_text,
  validation_hook_failed_text, validation_profile_parse_text, dev_mem_open_text, dev_mem_mmap_text,
  uio_open_text, uio_mmap_text, uio_address_invalid_text,
}
use mmreg.Error.Access.{
  unaligned_access_text, unaligned_width_access_text, out_of_bounds_access_text, lock_open_text,
  lock_acquire_text, lock_range_too_large_text, register_not_found_text,
  sub_register_not_found_text, invalid_sub_register_text, debug_disabled_text, uio_not_found_text,
  uio_ambiguous_text, uio_required_text, uio_irq_text, read_only_text,
}
use mmreg.Error.{
  MmregError, code, blueprint_unmapped, blueprint_system_ram, zombie_dt_status, zombie_runtime_pm,
  zombie_supplier_pm, zombie_fpga_state, zombie_clock_gated, validation_hook_failed,
  validation_profile_parse, dev_mem_open, dev_mem_mmap, uio_open, uio_mmap, uio_address_invalid,
  unaligned_access, unaligned_width_access, out_of_bounds_access, lock_open, lock_acquire,
  lock_range_too_large, register_not_found, sub_register_not_found, invalid_sub_register,
  debug_disabled, uio_not_found, uio_ambiguous, uio_required, uio_irq, read_only,
}
use mmreg.Message.{ProfileMessage}
use mmreg.Prelude.{Text}

-- `Display::fmt`.
unfoldable pub display : (ProfileMessage → Text) → MmregError → Text
unfolding blueprint_unmapped_text blueprint_system_ram_text zombie_dt_status_text
    zombie_runtime_pm_text zombie_supplier_pm_text zombie_fpga_state_text zombie_clock_gated_text
    validation_hook_failed_text validation_profile_parse_text dev_mem_open_text dev_mem_mmap_text
    uio_open_text uio_mmap_text uio_address_invalid_text unaligned_access_text
    unaligned_width_access_text out_of_bounds_access_text lock_open_text lock_acquire_text
    lock_range_too_large_text register_not_found_text sub_register_not_found_text
    invalid_sub_register_text debug_disabled_text uio_not_found_text uio_ambiguous_text
    uio_required_text uio_irq_text read_only_text
display details_of (blueprint_unmapped address size) =
    blueprint_unmapped_text (code (blueprint_unmapped address size)) address size
display details_of (blueprint_system_ram address size resource) =
    blueprint_system_ram_text (code (blueprint_system_ram address size resource)) address size
      resource
display details_of (zombie_dt_status device_name status status_path) =
    zombie_dt_status_text (code (zombie_dt_status device_name status status_path)) device_name
      status status_path
display details_of (zombie_runtime_pm device_name status pm_path device_path) =
    zombie_runtime_pm_text (code (zombie_runtime_pm device_name status pm_path device_path))
      device_name status pm_path device_path
display details_of (zombie_supplier_pm device_name supplier_name status supplier_pm_path) =
    zombie_supplier_pm_text
      (code (zombie_supplier_pm device_name supplier_name status supplier_pm_path)) device_name
      supplier_name status supplier_pm_path
display details_of (zombie_fpga_state device_name manager_name state state_path) =
    zombie_fpga_state_text (code (zombie_fpga_state device_name manager_name state state_path))
      device_name manager_name state state_path
display details_of (zombie_clock_gated device_name clock_name clk_path) =
    zombie_clock_gated_text (code (zombie_clock_gated device_name clock_name clk_path)) device_name
      clock_name clk_path
display details_of (validation_hook_failed profile_name check_name address mask expected actual) =
    validation_hook_failed_text
      (code (validation_hook_failed profile_name check_name address mask expected actual))
      profile_name check_name address mask expected actual
display details_of (validation_profile_parse details) =
    validation_profile_parse_text (code (validation_profile_parse details)) (details_of details)
display details_of (dev_mem_open address details) =
    dev_mem_open_text (code (dev_mem_open address details)) address details
display details_of (dev_mem_mmap address page_base size details) =
    dev_mem_mmap_text (code (dev_mem_mmap address page_base size details)) address page_base size
      details
display details_of (uio_open device_path details) =
    uio_open_text (code (uio_open device_path details)) device_path details
display details_of (uio_mmap device_path region_index size details) =
    uio_mmap_text (code (uio_mmap device_path region_index size details)) device_path region_index
      size details
display details_of (uio_address_invalid device_path region_index address details) =
    uio_address_invalid_text (code (uio_address_invalid device_path region_index address details))
      device_path region_index address details
display details_of (unaligned_access address offset) =
    unaligned_access_text (code (unaligned_access address offset)) address offset
display details_of (unaligned_width_access address offset width_bits) =
    unaligned_width_access_text (code (unaligned_width_access address offset width_bits)) address
      offset width_bits
display details_of (out_of_bounds_access register_name offset access_size region_size) =
    out_of_bounds_access_text
      (code (out_of_bounds_access register_name offset access_size region_size)) register_name
      offset access_size region_size
display details_of (lock_open lock_path details) =
    lock_open_text (code (lock_open lock_path details)) lock_path details
display details_of (lock_acquire details) = lock_acquire_text (code (lock_acquire details)) details
display details_of (lock_range_too_large name pages max_pages) =
    lock_range_too_large_text (code (lock_range_too_large name pages max_pages)) name pages
      max_pages
display details_of (register_not_found interface_name register_name available) =
    register_not_found_text (code (register_not_found interface_name register_name available))
      interface_name register_name available
display details_of
      (sub_register_not_found interface_name register_name subregister_name available) =
    sub_register_not_found_text
      (code (sub_register_not_found interface_name register_name subregister_name available))
      interface_name register_name subregister_name available
display details_of (invalid_sub_register register_name subregister_name msb lsb) =
    invalid_sub_register_text (code (invalid_sub_register register_name subregister_name msb lsb))
      register_name subregister_name msb lsb
display details_of (debug_disabled address) =
    debug_disabled_text (code (debug_disabled address)) address
display details_of (uio_not_found name available) =
    uio_not_found_text (code (uio_not_found name available)) name available
display details_of (uio_ambiguous name devices) =
    uio_ambiguous_text (code (uio_ambiguous name devices)) name devices
display details_of (uio_required operation) =
    uio_required_text (code (uio_required operation)) operation
display details_of (uio_irq device_path details) =
    uio_irq_text (code (uio_irq device_path details)) device_path details
display details_of (read_only name) = read_only_text (code (read_only name)) name
