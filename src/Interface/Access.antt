-- ===== src/Interface/Access.antt =====
-- What an access to a register does once the window is mapped: src/register.rs (`Register::read`,
-- `Register::write`) and the operations that src/interface.rs passes to `access`.
use mmreg.Bits.{shift_left, shift_right}
use mmreg.Device.{Device, LockFiles, Call, ◌>>=◌, pure, write, update_u32, read_narrow}
use mmreg.Memory.{Mapper, Platform, u32}
use mmreg.Prelude.{ℕ, bit_and}
use mmreg.Register.{Register}

module _ {Mem : Type 0} (p : Platform) (files : LockFiles) (m : Mapper Mem) (d : Device) where
  -- `Register::read`.
  unfoldable pub read_register : Register → Call Mem (ℕ × Register)
  read_register r = read_narrow p files m d u32 r.offset >>= λ v. pure (v, record r { raw = v })

  -- `Register::write`.
  unfoldable pub write_register : ℕ → Register → Call Mem Register
  write_register value r =
      write p files m d r.offset u32 value >>= λ _. pure (record r { raw = value })

  -- What `read_subregister` does with the register.
  unfoldable pub read_field : ℕ → ℕ → Register → Call Mem (ℕ × Register)
  unfolding read_register
  read_field mask lsb r = read_register r >>= λ (v, s). pure (shift_right (bit_and v mask) lsb, s)

  -- What `write_subregister` does with the register.
  unfoldable pub write_field : ℕ → ℕ → ℕ → Register → Call Mem Register
  write_field mask lsb value r =
      update_u32 p files m d r.offset mask (shift_left 32 value lsb) >>= λ updated.
      pure (record r { raw = updated })

-- What `parse_subregister` does with the register.
abbrev pub parse_field : ℕ → ℕ → Register → ℕ
parse_field mask lsb r = shift_right (bit_and r.raw mask) lsb
