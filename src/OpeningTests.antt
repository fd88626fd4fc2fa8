-- ===== src/OpeningTests.antt =====
-- Opening windows in a fixed setting (src/device.rs, src/memcheck.rs, src/lib.rs).
use mmreg.CommandLine.Hardware.{hardware, hardware_read}
use mmreg.CommandLine.Returns.{run_cli-IsBalanced}
use mmreg.CommandLine.Run.{run_cli}
use mmreg.CommandLine.{printed}
use mmreg.Device.{check_access, page_of}
use mmreg.Iomem.{iomem_entry, any_prefix, starts_with_ignore_case}
use mmreg.Strings.{split_once, from_str_radix, to_lower}
use mmreg.Error.{dev_mem_mmap}
use mmreg.Memory.{width_bits, dev_mem, Mapper, Platform}
use mmreg.Opening.Balance.{Owns, open_device-Owns}
use mmreg.Opening.Build.{Setting, open_device, read_register_at}
use mmreg.Opening.Ledger.{IsBalanced}
use mmreg.Opening.Mapping.{Os, call}
use mmreg.Opening.Resolve.{Owner, Sysfs}
use mmreg.Opening.{
  addr, DeviceBuilder, new_builder, os, OpenWorld, mapping, power, took, dropped, Opened, ◌>>=◌,
  on_error,
}
use mmreg.Prelude.{
  ℕ, ◌+◌, ◌%◌, ◌^◌, true, false, ◌==◌, if◌then◌else◌, [], ◌∷◌, some, none, codes, ok, err, ◌≡◌,
  refl,
}

abbrev platform : Platform
platform = record { page_bits = 12; usize_bits = 64 }

abbrev timer : Owner
timer = record { name = codes "timer"; path = codes "/t" }

abbrev sysfs : Sysfs
sysfs = record {
  uio_owner = λ path. none;
  find_uio_region = λ target size. none;
  find_owning_device = λ target size. if target == 0x1000 then some timer else none;
  iomem = some (codes "00001000-00001fff : timer" ∷ codes "00002000-00002fff : spare" ∷ []);
  preflight = λ o. ok (codes "clock unknown" ∷ []);
}

-- A system whose mappings fail from a size on.
abbrev small_maps : ℕ → Os
small_maps limit = record {
  open_error = λ log path ro. none;
  mmap_error = λ log path map_offset data_offset size ro.
      if size == limit then some (codes "ENOMEM") else none;
  custom_map_error = λ log address size. none;
  lock_error = λ log path. none;
  power_control = λ log path. some (codes "auto\n");
  power_error = λ log path. none;
}

abbrev cells : Mapper (ℕ → ℕ)
cells = record {
  read = λ offset w s. (s offset % 2 ^ width_bits w, s);
  write = λ offset w v s o. if o == offset then v % 2 ^ width_bits w else s o;
}

abbrev pub setting : Setting (ℕ → ℕ)
setting = record {
  platform = platform;
  region_text = λ m. [];
  regions = λ path index. none;
  sysfs = sysfs;
  find_uio = λ name. ok name;
  os = small_maps 8;
  warning = λ path details. details;
  debug = true;
  behind = λ backend base size. cells;
  files = λ backend. record { open_error = λ _ _. none; acquire_error = λ _ _. none };
}

abbrev pub world : OpenWorld (ℕ → ℕ)
world = record { mem = λ o. o + 5; device_log = []; log = [] }

abbrev timer_word : DeviceBuilder
timer_word = new_builder (addr 0x1000 4)

abbrev timer_device : Opened
timer_device = record {
  device = record {
    name = codes "mmreg";
    base_address = 0x1000;
    size = 4;
    is_read_only = false;
    device_path = none;
    warnings = codes "clock unknown" ∷ [];
    has_uio_lock = false;
  };
  backend = os dev_mem;
  guard = some (codes "/t");
}

abbrev timer_world : OpenWorld (ℕ → ℕ)
timer_world = record {
  mem = λ o. o + 5;
  device_log = [];
  log = took (mapping (os dev_mem)) ∷ took (power (codes "/t")) ∷ [];
}

open_device-Owns_example : Owns setting [] (open_device setting timer_word world)
open_device-Owns_example = open_device-Owns setting timer_word world

-- A mapping that fails gives the power setting back.
map_failed : open_device setting (new_builder (addr 0x1000 8)) world ≡ (
  err (dev_mem_mmap 0x1000 0x1000 8 (codes "ENOMEM")),
  record {
    mem = λ o. o + 5;
    device_log = [];
    log = dropped (power (codes "/t")) ∷ took (power (codes "/t")) ∷ [];
  },
)
unfolding open_device ◌>>=◌ on_error call iomem_entry split_once from_str_radix any_prefix
    starts_with_ignore_case to_lower
map_failed = refl

word_read : (read_register_at setting false 0x1000 world).0 ≡ ok 5
unfolding read_register_at ◌>>=◌ on_error call iomem_entry split_once from_str_radix any_prefix
    starts_with_ignore_case to_lower check_access page_of
word_read = refl

-- The command line reads the timer's word through /dev/mem.
timer_read :
    (run_cli (λ path. err []) (hardware setting) (codes "read" ∷ codes "0x1000" ∷ []) world).0
    ≡ ok (printed (codes "0x00000005"))
unfolding run_cli hardware_read ◌>>=◌ on_error call iomem_entry split_once from_str_radix any_prefix
    starts_with_ignore_case to_lower check_access page_of
timer_read = refl

run_cli-IsBalanced_example :
    IsBalanced []
      (run_cli (λ path. err []) (hardware setting) (codes "read" ∷ codes "0x1000" ∷ []) world).1.log
run_cli-IsBalanced_example =
    run_cli-IsBalanced setting (λ path. err []) (codes "read" ∷ codes "0x1000" ∷ []) world
