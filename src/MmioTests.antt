-- ===== src/MmioTests.antt =====
-- A window that does not start on a page, mapped and accessed at fixed inputs (src/mmio.rs,
-- src/memregs.rs).
use mmreg.Device.{Device, check_access, page_of}
use mmreg.DeviceTests.{platform, platform-IsPlatform, cells}
use mmreg.Memory.{u32, dev_mem}
use mmreg.Mmio.Reaches.{GoesTo, check_access-GoesTo}
use mmreg.Mmio.{
  Mapping, Mmap, invalid_input, new_mapping, register, OsMapper, os_read, os_unmap, os_is_mapped,
  new_os_mapper,
}
use mmreg.Prelude.{◌+◌, ◌-◌, ◌≤◌, ◌≡◌, true, false, [], some, none, ok, err, codes, refl, arith}

abbrev inner : Device
inner = record {
  name = codes "timer";
  base_address = 0xa000_0100;
  size = 0x100;
  is_read_only = false;
  device_path = none;
  warnings = [];
  has_uio_lock = false;
}

abbrev mmap_works : Mmap
mmap_works len ro offset = none

abbrev window : Mapping
window = record { len = 0x200; data_offset = 0x100 }

abbrev mapper : OsMapper
mapper = record (new_os_mapper dev_mem false) { mapping = some window }

inner_mapped :
    new_mapping platform mmap_works 0xa000_0000
      (inner.base_address - page_of platform 0xa000_0100)
      0x100
      false
    ≡ ok window
unfolding new_mapping page_of
inner_mapped = refl

inner_checked : check_access platform inner 8 u32 true ≡ ok 0xa000_0108
unfolding check_access
inner_checked = refl

check_access-GoesTo_example :
    GoesTo platform cells mapper 8 u32 true (0xa000_0108 - page_of platform 0xa000_0100)
    × (0xa000_0108 - page_of platform 0xa000_0100 + 4 ≤ 0x200)
check_access-GoesTo_example =
    check_access-GoesTo platform cells mmap_works inner mapper window 0xa000_0100 0xa000_0000 8 u32
      true 0xa000_0108 platform-IsPlatform (omega arith) (omega arith) inner_mapped refl
      inner_checked

mapping_tests :
    (register platform window 0x100 u32 ≡ none)
    × (register platform window 0xfc u32 ≡ some 0x1fc)
    × (register platform window 2 u32 ≡ none)
    × (new_mapping platform mmap_works 0 0x100 0 false ≡ err invalid_input)
    × (os_is_mapped (os_unmap mapper) ≡ false)
    × (os_read platform cells (os_unmap mapper) 8 u32 (λ o. o) ≡ some (0, λ o. o))
unfolding register new_mapping os_read
mapping_tests = (refl, refl, refl, refl, refl, refl)
