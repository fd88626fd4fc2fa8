-- ===== src/Device/Check.antt =====
-- What `Device::check_access` (src/device.rs) allows, and where an allowed access lies.
use native.Mathlib.Nat.{mod-eq_of_lt, div-div-eq-div-mul}
use mmreg.Bits.Fields.{bit_and-complement_ones, two_pow-add}
use mmreg.Memory.{Width, u8, u16, u32, u64, width_bytes, Platform, IsPlatform, page_size}
use mmreg.Prelude.{
  ℕ, ◌+◌, ◌-◌, ◌*◌, ◌/◌, ◌%◌, ◌^◌, ◌≤◌, ◌<◌, Bool, true, false, ◌≡◌, ◌↔◌, ok, arith, refl, sym, ap,
  ◌∙◌,
}
use mmreg.Device.{Device, check_access, page_of}

-- An access that a device may make.
pub record IsAllowed (p : Platform) (d : Device) (offset : ℕ) (w : Width) (write : Bool)
    : Type 0 where
  pub writable : write ≡ true → d.is_read_only ≡ false
  pub offset_aligned : offset % width_bytes w ≡ 0
  pub address_aligned : (d.base_address + offset) % 2 ^ 64 % width_bytes w ≡ 0
  pub addressable : offset + width_bytes w < 2 ^ p.usize_bits
  pub inside : offset + width_bytes w ≤ d.size

-- An access passes the check exactly if it is allowed: not a write through a read-only device,
-- aligned by offset and by address, and inside the window, with its end in `usize`; the result is
-- its address, modulo 2^64.
pub check_access_iff :
    (p : Platform) (d : Device) (offset : ℕ) (w : Width) (write : Bool) (a : ℕ)
    → (check_access p d offset w write ≡ ok a)
      ↔ (IsAllowed p d offset w write × (a ≡ (d.base_address + offset) % 2 ^ 64))
unfolding check_access
check_access_iff p d offset w write a = (
  λ h. (
    record {
      writable = λ t. ground arith;
      offset_aligned = ground arith;
      address_aligned = ground arith;
      addressable = ground arith;
      inside = ground arith;
    },
    ground arith,
  ),
  λ (v, e). ground (arith, v.writable),
)

-- The page of an address, as a multiple of the page size.
pub page_of_lem :
    (p : Platform) (a : ℕ) → IsPlatform p → a < 2 ^ 64 → page_of p a ≡ a / page_size p * page_size p
unfolding page_of
page_of_lem p a v h = bit_and-complement_ones 64 p.page_bits a (omega (arith, v.page_fits)) h

-- The exponent of a width.
pub width_exp : (w : Width) → (j : ℕ) × (width_bytes w ≡ 2 ^ j) × (j ≤ 3)
width_exp u8 = (0, refl, omega arith)
width_exp u16 = (1, refl, omega arith)
width_exp u32 = (2, refl, omega arith)
width_exp u64 = (3, refl, omega arith)

div-page :
    (p : Platform) (j a : ℕ)
    → j ≤ p.page_bits
    → a / 2 ^ p.page_bits ≡ a / 2 ^ j / 2 ^ (p.page_bits - j)
div-page p j a h =
    let whole : j + (p.page_bits - j) ≡ p.page_bits = omega arith in
    sym (
      div-div-eq-div-mul a (2 ^ j) (2 ^ (p.page_bits - j))
      ∙ ap (λ (t : ℕ). a / t) (two_pow-add j (p.page_bits - j))
      ∙ ap (λ (t : ℕ). a / 2 ^ t) whole)

div-aligned :
    (w : Width) (a k : ℕ)
    → a % width_bytes w ≡ 0
    → k < width_bytes w
    → (a + k) / width_bytes w ≡ a / width_bytes w
div-aligned u8 a k h g = omega arith
div-aligned u16 a k h g = omega arith
div-aligned u32 a k h g = omega arith
div-aligned u64 a k h g = omega arith

aligned-below :
    (w : Width) (a k : ℕ) → a % width_bytes w ≡ 0 → a < 2 ^ 64 → k < width_bytes w → a + k < 2 ^ 64
aligned-below u8 a k h l g = omega arith
aligned-below u16 a k h l g = omega arith
aligned-below u32 a k h l g = omega arith
aligned-below u64 a k h l g = omega arith

width-pos : (w : Width) → 1 ≤ width_bytes w
width-pos w = ground arith

same-page :
    (p : Platform) (w : Width) (a k : ℕ)
    → IsPlatform p
    → a % width_bytes w ≡ 0
    → k < width_bytes w
    → (a + k) / page_size p ≡ a / page_size p
same-page p w a k v h g =
    let (j, width, small) = width_exp w in
    let near : (a + k) / 2 ^ j ≡ a / 2 ^ j = rw width at (div-aligned w a k h g) in
    div-page p j (a + k) (omega (arith, v.page_holds))
    ∙ ap (λ (t : ℕ). t / 2 ^ (p.page_bits - j)) near
    ∙ sym (div-page p j a (omega (arith, v.page_holds)))

-- On a platform with valid page and `usize` widths, every byte of an access that passes the check
-- lies on the page of its address: the lock of that one page covers the whole access.
pub check_access-page_of :
    (p : Platform) (d : Device) (offset : ℕ) (w : Width) (write : Bool) (a k : ℕ)
    → IsPlatform p
    → check_access p d offset w write ≡ ok a
    → k < width_bytes w
    → page_of p (a + k) ≡ page_of p a
check_access-page_of p d offset w write a k v h small =
    let (allowed, at) = (check_access_iff p d offset w write a).0 h in
    let aligned : a % width_bytes w ≡ 0 = rw at allowed.address_aligned in
    let low : a < 2 ^ 64 = omega (arith, at) in
    page_of_lem p (a + k) v (aligned-below w a k aligned low small)
    ∙ ap (λ (t : ℕ). t * page_size p) (same-page p w a k v aligned small)
    ∙ sym (page_of_lem p a v low)

-- If the window ends below 2^64, the bytes of an access that passes the check lie inside the window:
-- the address does not wrap.
pub check_access-inside :
    (p : Platform) (d : Device) (offset : ℕ) (w : Width) (write : Bool) (a : ℕ)
    → d.base_address + d.size < 2 ^ 64
    → check_access p d offset w write ≡ ok a
    → (a ≡ d.base_address + offset) × (a + width_bytes w ≤ d.base_address + d.size)
check_access-inside p d offset w write a room h =
    let (allowed, at) = (check_access_iff p d offset w write a).0 h in
    let inside = allowed.inside in
    let whole : a ≡ d.base_address + offset = at ∙ mod-eq_of_lt (omega (arith, width-pos w)) in
    (whole, omega (arith, whole))
