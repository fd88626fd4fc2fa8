-- ===== src/Interface/Layout.antt =====
-- What the layout check of src/interface.rs promises for the accesses of src/device.rs.
use native.Mathlib.Nat.{mod-eq_of_lt}
use mathlib.Core.Path.{subst}
use mmreg.Device.Check.{check_access_iff}
use mmreg.Device.{Device, check_access}
use mmreg.Interface.{Interface, check_register, check_registers, validate_layout}
use mmreg.Memory.{Platform, u32}
use mmreg.Prelude.{
  ℕ, zero, suc, ◌+◌, ◌%◌, ◌^◌, ◌≤◌, ◌<◌, Bool, true, false, List, [], ◌∷◌, some, ok, not, ◌||◌,
  ◌==◌, leb, get_elem?, ◌≡◌, sym, ap, ◌∙◌, arith, >>=-eq-ok, some-eq, unless-ok,
}
use mmreg.Register.{Register}

-- Where a register of a valid layout lies.
record IsPlaced (p : Platform) (i : Interface) (r : Register) : Type 0 where
  pub aligned : r.offset % 4 ≡ 0
  pub addressable : r.offset + 4 < 2 ^ p.usize_bits
  pub inside : r.offset + 4 ≤ i.size

module _ (p : Platform) (i : Interface) where
  check_register-IsPlaced : (r : Register) → check_register p i r ≡ ok tt → IsPlaced p i r
  unfolding check_register
  check_register-IsPlaced r h = record {
    aligned = ground arith;
    addressable = ground arith;
    inside = ground arith;
  }

  check_registers-IsPlaced :
      (rs : List Register) (n : ℕ) {r : Register}
      → check_registers p i rs ≡ ok tt
      → get_elem? rs n ≡ some r
      → IsPlaced p i r
  unfolding check_registers
  check_registers-IsPlaced [] n h found = cc
  check_registers-IsPlaced (x ∷ xs) zero h found =
      let (v, here, rest) = >>=-eq-ok (check_register p i x) (λ _. check_registers p i xs) h in
      subst (IsPlaced p i) (some-eq found) (check_register-IsPlaced x here)
  check_registers-IsPlaced (x ∷ xs) (suc n) h found =
      let (v, here, rest) = >>=-eq-ok (check_register p i x) (λ _. check_registers p i xs) h in
      check_registers-IsPlaced xs n rest found

  validate_layout-window :
      validate_layout p i ≡ ok tt
      → (i.base_address % 4 ≡ 0)
        × (i.base_address + i.size < 2 ^ 64)
        × (check_registers p i i.registers ≡ ok tt)
  unfolding validate_layout
  validate_layout-window h =
      let (aligned, later) = unless-ok (not (i.base_address % 4 == 0)) _ _ h in
      let (fits, checked) =
        unless-ok (i.size == 0 || leb (2 ^ 64) (i.base_address + i.size)) _ _ later in
      (ground arith, ground arith, checked)

-- Once the layout check has passed, every 32-bit access to a register of the interface passes the
-- access check of a device with the same window, unless it writes through a read-only device: the
-- address is the base plus the register's offset, with no wrap-around.
pub validate_layout-check_access :
    (p : Platform) (i : Interface) (d : Device) (n : ℕ) (r : Register) (writes : Bool)
    → validate_layout p i ≡ ok tt
    → get_elem? i.registers n ≡ some r
    → d.base_address ≡ i.base_address
    → d.size ≡ i.size
    → (writes ≡ true → d.is_read_only ≡ false)
    → check_access p d r.offset u32 writes ≡ ok (i.base_address + r.offset)
validate_layout-check_access p i d n r writes h found base size writable =
    let (aligned, fits, checked) = validate_layout-window p i h in
    let placed = check_registers-IsPlaced p i i.registers n checked found in
    let same : d.base_address + r.offset ≡ i.base_address + r.offset = omega (arith, base) in
    let whole : (d.base_address + r.offset) % 2 ^ 64 ≡ i.base_address + r.offset =
      ap (λ (t : ℕ). t % 2 ^ 64) same ∙ mod-eq_of_lt (omega (arith, placed.inside)) in
    (check_access_iff p d r.offset u32 writes (i.base_address + r.offset)).1 (
      record {
        writable = writable;
        offset_aligned = placed.aligned;
        address_aligned = omega (arith, whole, placed.aligned, aligned);
        addressable = placed.addressable;
        inside = omega (arith, placed.inside, size);
      },
      sym whole,
    )
