-- ===== src/InterfaceTests.antt =====
-- A register with two fields, looked up and written over memory cells (src/interface.rs).
use native.Mathlib.Nat.{mod-mod, mod-lt, one-le-pow}
use mmreg.Device.{
  World, check_access, page_of, lock_at, base_page, open_page, acquire, merge, update_u32,
}
use mmreg.DeviceTests.{
  platform, platform-IsPlatform, files, cells, device, world, low_field, high_field,
}
use mmreg.Device.Merge.{field_of}
use mmreg.Device.RoundTrip.{read_narrow-write}
use mmreg.Device.Sequence.Success.{IsServing}
use mmreg.Device.{write, read_narrow}
use mmreg.Interface.Access.{write_field}
use mmreg.Interface.Field.{write_field-round_trip}
use mmreg.Interface.Layout.{validate_layout-check_access}
use mmreg.Interface.Lookup.{IsField, field-IsField}
use mmreg.Interface.{
  Interface, check_register, check_registers, validate_layout, position, register_index, field_mask,
  field,
}
use mmreg.Memory.{auto, Width, u16, u32, width_bits, Apart, IsPlain, IsZeroExtended}
use mmreg.Prelude.{
  ℕ, ◌+◌, ◌-◌, ◌%◌, ◌^◌, ◌&&◌, leb, if◌then◌else◌, true, false, [], ◌∷◌, none, ok, codes, text_eq,
  ◌==◌, ==_iff, Bool-cases, ◌≡◌, inl, inr, refl, arith,
}
use mmreg.Bits.{test_bit}
use mmreg.Register.Mask.{IsRange, field_width}
use mmreg.Register.{SubRegister, Register, mask, find_subregister, subregister}

cells-IsZeroExtended : IsZeroExtended cells
cells-IsZeroExtended = record {
  read-lt = λ offset w s. mod-lt (s offset) (one-le-pow (width_bits w) 2 (omega arith));
}

Apart-other : (a b : ℕ) (v w : Width) → Apart a v b w → (b == a) ≡ false
Apart-other a b v w h = elim (Bool-cases (b == a)) [
  | inr other ↦ other
  | inl same ↦ absurd (ground (arith, same, h))
]

cells-IsPlain : IsPlain cells
cells-IsPlain = record {
  read_pure = λ offset w s. refl;
  read-write_self =
      λ offset w v s. rw ((==_iff offset offset).1 refl) (mod-mod v (2 ^ width_bits w));
  read-write_apart = λ a b v w x s h. rw (Apart-other a b v w h) refl;
}

abbrev control : Register
control = record {
  name = codes "control";
  offset = 0x10;
  raw = 0;
  children = low_field ∷ high_field ∷ [];
}

abbrev interface : Interface
interface = record {
  name = codes "gpio";
  base_address = 0xa000_0000;
  size = 0x2000;
  registers = control ∷ [];
  force_map = false;
  mapper_type = auto;
  safety_profile = none;
}

layout_is_valid : validate_layout platform interface ≡ ok tt
unfolding validate_layout check_registers check_register
layout_is_valid = refl

validate_layout-check_access_example :
    check_access platform device 0x10 u32 true ≡ ok (0xa000_0000 + 0x10)
validate_layout-check_access_example =
    validate_layout-check_access platform interface device 0 control true layout_is_valid refl refl
      refl (λ t. refl)

field_is : field interface (codes "control") (codes "low") ≡ ok (0, 0xf0, 4)
unfolding field register_index position field_mask subregister find_subregister mask text_eq
field_is = refl

field-IsField_example : IsField interface (codes "control") (codes "low") 0 0xf0 4
field-IsField_example = field-IsField interface (codes "control") (codes "low") 0 0xf0 4 field_is

control_allowed : check_access platform device 0x10 u32 true ≡ ok 0xa000_0010
unfolding check_access
control_allowed = refl

-- A field of all 32 bits.
abbrev whole_word : SubRegister
whole_word = record { name = codes "all"; msb = 31; lsb = 0 }

whole_word-IsRange : IsRange whole_word
whole_word-IsRange = record { ordered = omega arith; inside = omega arith }

abbrev written_control : Register
written_control = record control { raw = 0xb }

abbrev written_world : World (ℕ → ℕ)
unfolding write_field update_u32 lock_at base_page open_page acquire check_access page_of merge mask
written_world = (write_field platform files cells device (mask whole_word) 0 0xb control world).1

written :
    write_field platform files cells device (mask whole_word) 0 0xb control world
    ≡ (ok written_control, written_world)
unfolding write_field update_u32 lock_at base_page open_page acquire check_access page_of merge mask
written = refl

write_field-round_trip_example :
    (field_of whole_word (written_world.mem 0x10 % 2 ^ 32) ≡ 0xb % 2 ^ field_width whole_word)
    × ((i : ℕ)
        → test_bit i (written_world.mem 0x10 % 2 ^ 32)
          ≡ (if leb 0 i && leb i 31 then test_bit (i - 0) 0xb else test_bit i (0x10 % 2 ^ 32)))
    × (0xb ≡ written_world.mem 0x10 % 2 ^ 32)
write_field-round_trip_example =
    write_field-round_trip platform files cells device control written_control whole_word 0xb world
      written_world platform-IsPlatform cells-IsPlain cells-IsZeroExtended whole_word-IsRange
      written

files-IsServing : IsServing files
files-IsServing = record { locks = λ l k. refl; opens = λ l a. refl }

far_allowed : check_access platform device 0x1002 u16 true ≡ ok 0xa000_1002
unfolding check_access
far_allowed = refl

read_narrow-write_example :
    (v : World (ℕ → ℕ)) × (u : World (ℕ → ℕ)) × (write platform files cells device 0x1002 u16
        0x12345 world
      ≡ (ok tt, v))
    × (read_narrow platform files cells device u16 0x1002 v
        ≡ (ok (0x12345 % 2 ^ width_bits u16), u))
read_narrow-write_example =
    read_narrow-write platform files cells device 0x1002 u16 0x12345 0xa000_1002 world
      platform-IsPlatform files-IsServing cells-IsPlain far_allowed
