-- ===== src/Register.antt =====
-- Registers and their bit fields: src/register.rs.
pub mod Mask
use mmreg.Bits.{u32_max, shift_left, shift_right}
use mmreg.Prelude.{
  ℕ, ◌-◌, Bool, true, false, ◌||◌, List, [], ◌∷◌, Option, none, some, ltb, if◌then◌else◌, Text,
  text_eq, bit_and,
}

-- `struct SubRegister`: a bit field from `msb` down to `lsb`.
pub record SubRegister : Type 0 where
  pub name : Text
  pub msb : ℕ
  pub lsb : ℕ

-- `struct Register`; `raw` is the value last read or written.
pub record Register : Type 0 where
  pub name : Text
  pub offset : ℕ
  pub raw : ℕ
  pub children : List SubRegister

-- `Register::new`.
unfoldable pub new_register : Text → ℕ → List SubRegister → Register
new_register name offset children = record {
  name = name;
  offset = offset;
  raw = 0;
  children = children;
}

-- `SubRegister::mask`. The shifts are by at most 31.
unfoldable pub mask : SubRegister → ℕ
mask s =
    if ltb s.msb s.lsb || ltb 31 s.msb
    then 0
    else bit_and (shift_right u32_max (31 - s.msb)) (shift_left 32 u32_max s.lsb)

-- `children.iter().find(..)`.
unfoldable pub find_subregister : Text → List SubRegister → Option SubRegister
find_subregister name [] = none
find_subregister name (s ∷ ss) = if text_eq s.name name then some s else find_subregister name ss

-- `Register::subregister`.
unfoldable pub subregister : Register → Text → Option SubRegister
unfolding find_subregister
subregister r name = find_subregister name r.children
