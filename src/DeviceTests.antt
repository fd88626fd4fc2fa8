-- ===== src/DeviceTests.antt =====
-- A device of two pages over memory cells, its calls and its locks at fixed inputs
-- (src/device.rs, src/register.rs).
use mmreg.Device.Calls.{
  IsAccessError, Succeeds, updated_word, read-cases, write-cases, update_u32-cases,
}
use mmreg.Device.Check.{IsAllowed, check_access_iff}
use mmreg.Device.Guard.{key_of, Fails}
use mmreg.Device.Sequence.Balance.{held, AllOrNone}
use mmreg.Device.Sequence.Cover.{guard_keys}
use mmreg.Device.Sequence.Success.{IsDone, lock-IsDone}
use mmreg.Device.Sequence.Holding.{lock-AllOrNone, lock_covers}
use mmreg.Device.Sequence.{page_count, lock_all, open_pages, lock}
use mmreg.Device.{
  Device, acquire, open_page, page_lock, bus_read, bus_write, LockFiles, World, check_access,
  page_of, read, write, update_u32,
}
use mmreg.Memory.{u32, width_bits, Mapper, Platform, IsPlatform}
use mmreg.Prelude.{
  ℕ, ◌+◌, ◌%◌, ◌^◌, ◌≤◌, ◌≡◌, ◌↔◌, ◌⊎◌, inr, true, false, [], ◌∷◌, some, none, ok, ◌==◌,
  if◌then◌else◌, codes, refl, arith, get_elem?,
}
use mmreg.Register.{SubRegister}

abbrev pub platform : Platform
platform = record { page_bits = 12; usize_bits = 64 }

pub platform-IsPlatform : IsPlatform platform
platform-IsPlatform = record {
  page_holds = omega arith;
  page_fits = omega arith;
  usize_is = inr refl;
}

abbrev pub device : Device
device = record {
  name = codes "gpio";
  base_address = 0xa000_0000;
  size = 0x2000;
  is_read_only = false;
  device_path = none;
  warnings = [];
  has_uio_lock = false;
}

abbrev pub files : LockFiles
files = record { open_error = λ _ _. none; acquire_error = λ _ _. none }

abbrev pub cells : Mapper (ℕ → ℕ)
cells = record {
  read = λ offset w s. (s offset % 2 ^ width_bits w, s);
  write = λ offset w v s o. if o == offset then v % 2 ^ width_bits w else s o;
}

abbrev pub world : World (ℕ → ℕ)
world = record { mem = λ o. o; base_page_open = false; log = [] }

read-cases_example :
    Fails
      (IsAccessError platform files device 8 u32 false)
      world
      (read platform files cells device 8 u32 world)
    ⊎ Succeeds platform device 8 u32 false 8
        (λ (o : ℕ). o)
        (bus_read 8 u32 ∷ [])
        world
        (read platform files cells device 8 u32 world)
read-cases_example = read-cases platform files cells device platform-IsPlatform 8 u32 world

write-cases_example :
    Fails
      (IsAccessError platform files device 4096 u32 true)
      world
      (write platform files cells device 4096 u32 7 world)
    ⊎ Succeeds platform device 4096 u32 true tt
        (cells.write 4096 u32 7 (λ o. o))
        (bus_write 4096 u32 7 ∷ [])
        world
        (write platform files cells device 4096 u32 7 world)
write-cases_example = write-cases platform files cells device platform-IsPlatform 4096 u32 7 world

update_u32-cases_example :
    Fails
      (IsAccessError platform files device 16 u32 true)
      world
      (update_u32 platform files cells device 16 0xf0 0xa0 world)
    ⊎ Succeeds platform device 16 u32 true
        (updated_word platform files cells device platform-IsPlatform 16 0xf0 0xa0 world)
        (cells.write 16 u32
          (updated_word platform files cells device platform-IsPlatform 16 0xf0 0xa0 world)
          (λ o. o))
        (bus_write 16 u32
            (updated_word platform files cells device platform-IsPlatform 16 0xf0 0xa0 world)
          ∷ bus_read 16 u32
          ∷ [])
        world
        (update_u32 platform files cells device 16 0xf0 0xa0 world)
update_u32-cases_example =
    update_u32-cases platform files cells device platform-IsPlatform 16 0xf0 0xa0 world

check_access_iff_example :
    (check_access platform device 0x1ffc u32 true ≡ ok 0xa000_1ffc)
    ↔ (IsAllowed platform device 0x1ffc u32 true × (0xa000_1ffc ≡ (0xa000_0000 + 0x1ffc) % 2 ^ 64))
check_access_iff_example = check_access_iff platform device 0x1ffc u32 true 0xa000_1ffc

allowed_end : check_access platform device 0x1ffc u32 true ≡ ok 0xa000_1ffc
unfolding check_access
allowed_end = refl

lock-AllOrNone_example :
    AllOrNone
      (page_lock 0xa000_1000)
      (guard_keys platform device)
      world
      (lock platform files device world)
lock-AllOrNone_example =
    lock-AllOrNone platform files device world (page_lock 0xa000_1000) platform-IsPlatform
      (omega arith) (omega arith)

abbrev locked_world : World (ℕ → ℕ)
unfolding lock page_of open_pages open_page acquire lock_all
locked_world = (lock platform files device world).1

both_pages :
    lock platform files device world
    ≡ (ok (page_lock 0xa000_0000 ∷ page_lock 0xa000_1000 ∷ []), locked_world)
unfolding lock page_of open_pages open_page acquire lock_all
both_pages = refl

lock_covers_example :
    (1 ≤ held (key_of platform device 0xa000_1ffc) locked_world.log)
    × ((i : ℕ) × (get_elem? (page_lock 0xa000_0000 ∷ page_lock 0xa000_1000 ∷ []) i
          ≡ some (key_of platform device 0xa000_1ffc)))
lock_covers_example =
    lock_covers platform files device world locked_world
      (page_lock 0xa000_0000 ∷ page_lock 0xa000_1000 ∷ []) 0xa000_1ffc platform-IsPlatform
      (omega arith) (omega arith) both_pages (omega arith) (omega arith)

abbrev pub low_field : SubRegister
low_field = record { name = codes "low"; msb = 7; lsb = 4 }

abbrev pub high_field : SubRegister
high_field = record { name = codes "high"; msb = 31; lsb = 8 }

two_pages : page_count platform device ≡ 2
unfolding page_of
two_pages = refl

lock-IsDone_example : IsDone (lock platform files device world)
lock-IsDone_example =
    lock-IsDone platform files device world (record { locks = λ l k. refl; opens = λ l a. refl })
      platform-IsPlatform (omega arith) (omega arith) (omega (arith, two_pages))
