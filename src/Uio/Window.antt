-- ===== src/Uio/Window.antt =====
-- Where a UIO region (src/memcheck.rs, src/memregs.rs) and its window lie.
use native.Mathlib.Nat.{mod-eq_of_lt, div-add-mod'}
use mmreg.Bits.{complement}
use mmreg.Bits.Fields.{bit_and-complement_ones}
use mmreg.Memory.{Platform, IsPlatform, page_size}
use mmreg.Parse.{parse_u64_radix}
use mmreg.Parse.Value.{parse_u64_radix_iff}
use mmreg.Prelude.{
  and_then-eq-some, Result-cases, ok-eq, some-eq, none-ne-some, ok_or, ok_or-eq-ok, and_then, ℕ,
  ◌+◌, ◌-◌, ◌*◌, ◌/◌, ◌%◌, ◌^◌, ◌≤◌, ◌<◌, true, Option, none, some, Text, codes, ok, err, ◌≡◌, ◌↔◌,
  inl, inr, arith, sym, ap, ◌∙◌, Result, >>=-eq-ok, Bool-cases, leb, ltb, ◌==◌, ◌||◌, ◌&&◌, >>=-at,
  not, bit_and, if◌then◌else◌, Option-cases,
}
use mmreg.Uio.{
  UioMap, Files, Regions, RegionMessage, attribute, hex_number, read_map, contains, region_raw,
  clip, shift_offset, region_window, data_offset, invalid, bad_size, outside, offset_overflow,
}

abbrev ok_value : {E A : Type 0} → Result E A → Option A
ok_value r = elim r [ ok v ↦ some v | err e ↦ none ]

-- A range of a positive length lies inside a region.
pub record IsInside (r : UioMap) (address len : ℕ) : Type 0 where
  pub positive : 1 ≤ len
  pub starts : r.addr ≤ address
  pub ends : address + len ≤ r.addr + r.size

-- For a region whose size is below 2^64, `contains` is true exactly for the ranges of a positive
-- length that lie inside the region, with no wrap-around.
contains_iff :
    (r : UioMap) (address len : ℕ)
    → r.size < 2 ^ 64
    → (contains r address len ≡ true) ↔ IsInside r address len
unfolding contains
contains_iff r address len h = (
  λ c. record { positive = ground arith; starts = ground arith; ends = ground arith },
  λ i. ground arith,
)

hex_number-lt : (t : Text) {v : ℕ} → hex_number t ≡ some v → v < 2 ^ 64
hex_number-lt t {v} h = elim (Result-cases (parse_u64_radix t 16)) [
  | inl (u, e) ↦
      let same : some u ≡ some v = sym (ap ok_value e) ∙ h in
      omega (arith, ((parse_u64_radix_iff t 16 u (omega arith)).0 e).fits, some-eq same)
  | inr (x, e) ↦ absurd (none-ne-some (sym (ap ok_value e) ∙ h))
]

attribute-lt : (files : Files) (name : Text) {v : ℕ} → attribute files name ≡ some v → v < 2 ^ 64
attribute-lt files name h = elim (Option-cases (files name)) [
  | inl missing ↦ absurd (none-ne-some (sym (ap (λ o. and_then o hex_number) missing) ∙ h))
  | inr (t, found) ↦ hex_number-lt t (sym (ap (λ o. and_then o hex_number) found) ∙ h)
]

-- Both attributes of a region are 64-bit words.
read_map-lt :
    (files : Files) {r : UioMap} → read_map files ≡ some r → (r.addr < 2 ^ 64) × (r.size < 2 ^ 64)
unfolding read_map
read_map-lt files h =
    let (a, has_addr, later) = and_then-eq-some (attribute files (codes "addr")) _ h in
    let (n, has_size, built) = and_then-eq-some (attribute files (codes "size")) _ later in
    let same = some-eq built in
    (
      omega (arith, ap (λ (t : UioMap). t.addr) same, attribute-lt files (codes "addr") has_addr),
      omega (arith, ap (λ (t : UioMap). t.size) same, attribute-lt files (codes "size") has_size),
    )

clip-within :
    (r : UioMap) (o : Option ℕ)
    → r.addr + r.size ≤ 2 ^ 64
    → (r.addr ≤ (clip r o).addr) × ((clip r o).addr + (clip r o).size ≡ r.addr + r.size)
unfolding clip
clip-within r none h = omega arith
clip-within r (some offs) h = elim (Bool-cases (ltb 0 offs && ltb offs r.size)) [
  | inl fits ↦
      let below : offs < r.size = ground arith in
      let whole : (r.addr + offs) % 2 ^ 64 ≡ r.addr + offs = mod-eq_of_lt (omega arith) in
      rw fits (omega (arith, whole), omega (arith, whole))
  | inr other ↦ rw other (omega arith)
]

shift_offset-within :
    (p : Platform) (files : Files) (r : UioMap)
    → r.addr + r.size ≤ 2 ^ 64
    → (r.addr ≤ (shift_offset p files r).addr)
      × ((shift_offset p files r).addr + (shift_offset p files r).size ≡ r.addr + r.size)
unfolding shift_offset
shift_offset-within p files r h = elim (Bool-cases (bit_and r.addr (page_size p - 1) == 0)) [
  | inl aligned ↦ rw (aligned, shift_offset) (clip-within r (attribute files (codes "offset")) h)
  | inr other ↦ rw (other, shift_offset) (omega arith)
]

module _ (p : Platform) (text : RegionMessage → Text) (regions : Regions) where
  region_raw-lt :
      (path : Text) (index address : ℕ) {files : Files} {r : UioMap}
      → region_raw p text regions path index address ≡ ok (files, r)
      → (r.addr < 2 ^ 64) × (r.size < 2 ^ 64)
  unfolding region_raw
  region_raw-lt path index address h =
      let (fs, found, later) = >>=-eq-ok (ok_or (regions path index) _) _ h in
      let (q, got, same) = >>=-eq-ok (ok_or (read_map fs) _) _ later in
      let bounds = read_map-lt fs (ok_or-eq-ok (read_map fs) _ got) in
      let pair = ap (λ (t : Files × UioMap). t.1) (ok-eq same) in
      (
        omega (arith, ap (λ (t : UioMap). t.addr) pair, bounds.0),
        omega (arith, ap (λ (t : UioMap). t.size) pair, bounds.1),
      )

  -- For a region that can be read and ends at most at 2^64, the window that `region_window` returns
  -- lies inside the region, reaches to its end, and is not empty; its size fits `usize`.
  pub region_window-within :
      (path : Text) (index : ℕ) (files : Files) (raw w : UioMap)
      → region_raw p text regions path index 0 ≡ ok (files, raw)
      → raw.addr + raw.size ≤ 2 ^ 64
      → region_window p text regions path index ≡ ok w
      → (raw.addr ≤ w.addr)
        × (w.addr + w.size ≡ raw.addr + raw.size)
        × (1 ≤ w.size)
        × (w.size < 2 ^ p.usize_bits)
  unfolding region_window
  region_window-within path index files raw w found fits h =
      let region = shift_offset p files raw in
      let picked : (if region.size == 0 || leb (2 ^ p.usize_bits) region.size
            then err (invalid text path index 0 bad_size)
            else ok region)
          ≡ ok w =
        >>=-at (region_raw p text regions path index 0) _ found h in
      let within = shift_offset-within p files raw fits in
      let sized : (region ≡ w) × (1 ≤ region.size) × (region.size < 2 ^ p.usize_bits) =
        ground arith in
      let addr_is = ap (λ (t : UioMap). t.addr) sized.0 in
      let size_is = ap (λ (t : UioMap). t.size) sized.0 in
      omega (arith, within, sized.1, sized.2, addr_is, size_is)

  -- On a platform with valid page and `usize` widths, the offset that `data_offset` returns for a
  -- range leads from the start of the region's first page to the range, which lies inside the
  -- region: no byte of the mapping up to the range's end is beyond the region. It fits `usize`.
  pub data_offset-within :
      (path : Text) (index address size off : ℕ) (files : Files) (raw : UioMap)
      → IsPlatform p
      → region_raw p text regions path index address ≡ ok (files, raw)
      → data_offset p text regions path index address size ≡ ok off
      → IsInside raw address size
        × (raw.addr / page_size p * page_size p + off ≡ address)
        × (off + size ≤ raw.addr % page_size p + raw.size)
        × (off < 2 ^ p.usize_bits)
  unfolding data_offset
  data_offset-within path index address size off files raw valid found h =
      let start = bit_and raw.addr (complement 64 (page_size p - 1)) in
      let small = region_raw-lt path index address found in
      let page : start ≡ raw.addr / page_size p * page_size p =
        bit_and-complement_ones 64 p.page_bits raw.addr (omega (arith, valid.page_fits)) small.0 in
      let picked : (if not (contains raw address size)
            then err (invalid text path index address outside)
            else if leb (2 ^ p.usize_bits) (address - start)
            then err (invalid text path index address offset_overflow)
            else ok (address - start))
          ≡ ok off =
        >>=-at (region_raw p text regions path index address) _ found h in
      let checked : (contains raw address size ≡ true)
          × (address - start ≡ off)
          × (address - start < 2 ^ p.usize_bits) =
        ground arith in
      let inside = (contains_iff raw address size small.1).0 checked.0 in
      (
        inside,
        omega (arith, page, checked.1, inside.starts, div-add-mod' raw.addr (page_size p)),
        omega (
          arith,
          page,
          checked.1,
          inside.starts,
          inside.ends,
          div-add-mod' raw.addr (page_size p),
        ),
        omega (arith, checked.1, checked.2),
      )
