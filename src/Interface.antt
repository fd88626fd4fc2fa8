-- ===== src/Interface.antt =====
-- Named registers in a window: src/interface.rs (`Interface`: the layout check and the lookups).
pub mod Access
pub mod Layout
pub mod Field
pub mod Lookup
pub mod Mapped
pub mod Restores
use mmreg.Error.{
  MmregError, unaligned_access, out_of_bounds_access, register_not_found, sub_register_not_found,
  invalid_sub_register,
}
use mmreg.Memory.{MapperType, Platform}
use mmreg.Prelude.{
  ℕ, zero, suc, ◌+◌, ◌%◌, ◌^◌, Bool, true, false, not, ◌||◌, List, [], ◌∷◌, Option, none, some, ltb,
  leb, ◌==◌, if◌then◌else◌, Text, text_eq, Result, ok, err, bit_and, map, and_then, ok_or, ◌>>=◌,
  ◌>>◌,
}
use mmreg.Register.{SubRegister, Register, mask, subregister}
use mmreg.Validation.{SafetyProfile}

-- `struct Interface`, without the custom mapper and the device that a mapping installs.
pub record Interface : Type 0 where
  pub name : Text
  pub base_address : ℕ
  pub size : ℕ
  pub registers : List Register
  pub force_map : Bool
  pub mapper_type : MapperType
  pub safety_profile : Option SafetyProfile

module _ (p : Platform) (i : Interface) where
  -- The body of the loop of `validate_layout`.
  unfoldable pub check_register : Register → Result MmregError (Unit {0})
  check_register r =
      if not (r.offset % 4 == 0)
      then err (unaligned_access i.base_address r.offset)
      else if leb (2 ^ p.usize_bits) (r.offset + 4) || ltb i.size (r.offset + 4)
      then err (out_of_bounds_access r.name r.offset 4 i.size)
      else ok tt

  unfoldable pub check_registers : List Register → Result MmregError (Unit {0})
  check_registers [] = ok tt
  check_registers (r ∷ rs) = check_register r >> check_registers rs

  -- `validate_layout`.
  unfoldable pub validate_layout : Result MmregError (Unit {0})
  unfolding check_registers
  validate_layout =
      if not (i.base_address % 4 == 0)
      then err (unaligned_access i.base_address 0)
      else if i.size == 0 || leb (2 ^ 64) (i.base_address + i.size)
      then err (out_of_bounds_access i.name 0 4 i.size)
      else check_registers i.registers

-- `iter().position(..)`, with the register at that position.
unfoldable pub position : Text → List Register → Option (ℕ × Register)
position name [] = none
position name (r ∷ rs) =
    let later = position name rs in
    if text_eq r.name name then some (0, r) else and_then later (λ (n, s). some (suc n, s))

-- `register_index`, with the register.
unfoldable pub register_index : Interface → Text → Result MmregError (ℕ × Register)
register_index i name =
    ok_or (position name i.registers)
      (register_not_found i.name name (map (λ (r : Register). r.name) i.registers))

-- The end of `field`: the mask of a subregister that was found.
unfoldable pub field_mask : ℕ → Register → SubRegister → Result MmregError (ℕ × ℕ × ℕ)
field_mask index r s =
    if mask s == 0
    then err (invalid_sub_register r.name s.name s.msb s.lsb)
    else ok (index, mask s, s.lsb)

-- `field`.
unfoldable pub field : Interface → Text → Text → Result MmregError (ℕ × ℕ × ℕ)
unfolding register_index field_mask
field i reg_name sub_name = do
  (index, r) ← register_index i reg_name
  s ←
      ok_or (subregister r sub_name) (
        sub_register_not_found i.name r.name sub_name
          (map (λ (s : SubRegister). s.name) r.children))
  field_mask index r s
