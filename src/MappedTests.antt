-- ===== src/MappedTests.antt =====
-- Operations on an interface that is mapped for each of them, at fixed inputs (src/interface.rs).
use mmreg.Device.{check_access, page_of}
use mmreg.Error.{dev_mem_open}
use mmreg.Interface.Access.{read_field}
use mmreg.Interface.Mapped.{Mapped, ◌>>=◌, access, read_subregister}
use mmreg.Interface.Restores.{IsRestored, access-IsRestored}
use mmreg.Interface.{Interface, position, validate_layout, check_register}
use mmreg.Memory.{auto}
use mmreg.Opening.Build.{Setting, run_profile, open_device}
use mmreg.Opening.{on_error}
use mmreg.OpeningTests.{setting, world}
use mmreg.Prelude.{ℕ, true, false, [], ◌∷◌, some, none, codes, text_eq, ok, ◌≡◌, refl}
use mmreg.Register.{subregister, mask}

abbrev gpio : Interface
gpio = record {
  name = codes "gpio";
  base_address = 0x4000;
  size = 16;
  registers =
      record {
        name = codes "data";
        offset = 8;
        raw = 0;
        children = record { name = codes "pins"; msb = 7; lsb = 4 } ∷ [];
      }
      ∷ [];
  force_map = true;
  mapper_type = auto;
  safety_profile = none;
}

abbrev unmapped : Mapped (ℕ → ℕ)
unmapped = record {
  interface = gpio;
  custom_mapper = true;
  device = none;
  warnings = [];
  world = world;
}

field_read : (read_subregister setting (codes "data") (codes "pins") unmapped).0 ≡ ok 0
unfolding read_subregister read_field position text_eq subregister mask ◌>>=◌ validate_layout
    check_register run_profile open_device mmreg.Opening.◌>>=◌ on_error check_access page_of
field_read = refl

access-IsRestored_example :
    IsRestored setting unmapped
      (access setting 0
        (λ o m files. read_field setting.platform files m o.device 0xf0 4)
        unmapped).1
access-IsRestored_example =
    access-IsRestored setting 0 (λ o m files. read_field setting.platform files m o.device 0xf0 4)
      unmapped refl

-- A setting in which custom mappers do not map.
abbrev broken : Setting (ℕ → ℕ)
broken = record setting {
  os = record setting.os { custom_map_error = λ log address size. some (dev_mem_open address []) };
}

mapper_lost :
    (read_subregister broken (codes "data") (codes "pins") unmapped).1.custom_mapper ≡ false
unfolding read_subregister position text_eq subregister mask ◌>>=◌ validate_layout check_register
    run_profile open_device mmreg.Opening.◌>>=◌ on_error
mapper_lost = refl
