-- ===== src/Mmio/Reaches.antt =====
-- Where the accesses of a device reach through a mapping: src/mmio.rs (`Mapping`) behind the checks
-- of src/device.rs (`check_access`).
use native.Mathlib.Nat.{div-mul-le_self}
use mmreg.Bits.Fields.{two_pow-add}
use mmreg.Device.Check.{check_access_iff, check_access-inside, page_of_lem, width_exp}
use mmreg.Device.{Device, check_access, page_of}
use mmreg.Memory.{
  Width, u8, u16, u32, u64, width_bytes, width_bits, Mapper, Platform, IsPlatform, page_size,
}
use mmreg.Mmio.{
  Mapping, Mmap, new_mapping, register, mapping_read, mapping_write, OsMapper, os_read, os_write,
}
use mmreg.Prelude.{
  ℕ, ◌+◌, ◌-◌, ◌*◌, ◌/◌, ◌%◌, ◌^◌, ◌≤◌, ◌<◌, Bool, true, false, some, ok, ◌≡◌, arith, refl, sym, ap,
  ◌∙◌,
}

-- A mapping that could be made holds its data from the offset, and its length fits `usize`.
new_mapping-IsMade :
    (p : Platform) (mmap : Mmap) (file_offset off size : ℕ) (ro : Bool) (m : Mapping)
    → new_mapping p mmap file_offset off size ro ≡ ok m
    → (m.data_offset ≡ off) × (m.len ≡ off + size) × (off + size < 2 ^ p.usize_bits)
unfolding new_mapping
new_mapping-IsMade p mmap file_offset off size ro m h = ground arith

-- The distance of an aligned address from a multiple of the width is aligned.
minus-aligned :
    (w : Width) (a q : ℕ) → a % width_bytes w ≡ 0 → (a - q * width_bytes w) % width_bytes w ≡ 0
minus-aligned u8 a q h = omega arith
minus-aligned u16 a q h = omega arith
minus-aligned u32 a q h = omega arith
minus-aligned u64 a q h = omega arith

-- The page of an address starts at a multiple of every width, and not after the address.
page_of-IsStart :
    (p : Platform) (w : Width) (a : ℕ)
    → IsPlatform p
    → a < 2 ^ 64
    → ((q : ℕ) × (page_of p a ≡ q * width_bytes w)) × (page_of p a ≤ a)
page_of-IsStart p w a v h =
    let page = page_of_lem p a v h in
    let (j, width, small) = width_exp w in
    let whole : j + (p.page_bits - j) ≡ p.page_bits = omega (arith, v.page_holds) in
    let size : page_size p ≡ 2 ^ (p.page_bits - j) * width_bytes w =
      ap (λ (t : ℕ). 2 ^ t) (sym whole)
      ∙ sym (two_pow-add j (p.page_bits - j))
      ∙ omega (arith, ap (λ (t : ℕ). t * 2 ^ (p.page_bits - j)) width) in
    (
      (
        a / page_size p * 2 ^ (p.page_bits - j),
        page ∙ ap (λ (t : ℕ). a / page_size p * t) size ∙ omega arith,
      ),
      omega (arith, page, div-mul-le_self a (page_size p)),
    )

register-place :
    (p : Platform) (m : Mapping) (offset : ℕ) (w : Width)
    → (m.data_offset + offset) % width_bytes w ≡ 0
    → m.data_offset + offset + width_bytes w ≤ m.len
    → m.len < 2 ^ p.usize_bits
    → register p m offset w ≡ some (m.data_offset + offset)
unfolding register
register-place p m offset w h inside fits = ground arith

register-check_access :
    (p : Platform) (d : Device) (m : Mapping) (start offset : ℕ) (w : Width) (write : Bool) (a : ℕ)
    → IsPlatform p
    → start ≤ d.base_address
    → d.base_address + d.size < 2 ^ 64
    → (m.data_offset ≡ d.base_address - page_of p start)
      × (m.len ≡ d.base_address - page_of p start + d.size)
      × (d.base_address - page_of p start + d.size < 2 ^ p.usize_bits)
    → check_access p d offset w write ≡ ok a
    → (register p m offset w ≡ some (a - page_of p start))
      × (a - page_of p start + width_bytes w ≤ m.len)
register-check_access p d m start offset w write a v below room made h =
    let (allowed, at) = (check_access_iff p d offset w write a).0 h in
    let (whole, end) = check_access-inside p d offset w write a room h in
    let ((q, multiple), starts) = page_of-IsStart p w start v (omega arith) in
    let place : m.data_offset + offset ≡ a - page_of p start =
      omega (arith, made.0, whole, starts, below) in
    let aligned : a % width_bytes w ≡ 0 = rw at allowed.address_aligned in
    let far : (a - page_of p start) % width_bytes w ≡ 0 =
      rw multiple (minus-aligned w a q aligned) in
    let ends : a - page_of p start + width_bytes w ≤ m.len =
      omega (arith, made.1, end, whole, starts, below) in
    (
      register-place p m offset w (rw place far) (rw place ends) (omega (arith, made.1, made.2))
          ∙ ap (λ (t : ℕ). some t) place,
      ends,
    )

-- A read, or else a write, of a mapper is one of the bus at a place.
unfoldable pub GoesTo :
    {Mem : Type 0}
    → Platform
    → Mapper Mem
    → OsMapper
    → ℕ
    → Width
    → (write : Bool) → (place : ℕ) → Type 0
GoesTo {Mem} p bus o offset w false place =
    (s : Mem) → os_read p bus o offset w s ≡ some (bus.read place w s)
GoesTo {Mem} p bus o offset w true place =
    (v : ℕ) (s : Mem)
    → os_write p bus o offset w v s ≡ some (bus.write place w (v % 2 ^ width_bits w) s)

GoesTo-register :
    {Mem : Type 0} (p : Platform) (bus : Mapper Mem) (o : OsMapper) (m : Mapping) (offset : ℕ)
    (w : Width) (write : Bool) (place : ℕ)
    → o.mapping ≡ some m
    → register p m offset w ≡ some place
    → GoesTo p bus o offset w write place
unfolding GoesTo os_read os_write mapping_read mapping_write
GoesTo-register p bus o m offset w false place held there =
    λ s. rw (os_read, held, mapping_read, there) refl
GoesTo-register p bus o m offset w true place held there =
    λ v s. rw (os_write, held, mapping_write, there) refl

-- On a platform with valid page and `usize` widths, let a mapper hold a mapping of the window of a
-- device, made from the page of an address that is not after the window's base (the base itself with
-- /dev/mem, the start of the region with UIO), and let the window end below 2^64. Then a read, or a
-- write, that passes the device's check does not panic: it goes to the place that lies as far from
-- that page as the address of the access does, and no byte of it is beyond the mapping.
pub check_access-GoesTo :
    {Mem : Type 0} (p : Platform) (bus : Mapper Mem) (mmap : Mmap) (d : Device) (o : OsMapper)
    (m : Mapping) (start file_offset offset : ℕ) (w : Width) (write : Bool) (a : ℕ)
    → IsPlatform p
    → start ≤ d.base_address
    → d.base_address + d.size < 2 ^ 64
    → new_mapping p mmap file_offset (d.base_address - page_of p start) d.size d.is_read_only ≡ ok m
    → o.mapping ≡ some m
    → check_access p d offset w write ≡ ok a
    → GoesTo p bus o offset w write (a - page_of p start)
      × (a - page_of p start + width_bytes w ≤ m.len)
check_access-GoesTo p bus mmap d o m start file_offset offset w write a v below room made held h =
    let size = new_mapping-IsMade p mmap file_offset _ d.size d.is_read_only m made in
    let (there, ends) = register-check_access p d m start offset w write a v below room size h in
    (GoesTo-register p bus o m offset w write _ held there, ends)
