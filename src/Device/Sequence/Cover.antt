-- ===== src/Device/Sequence/Cover.antt =====
-- The pages that the sequence guard of `Device::lock` (src/device.rs) covers.
use native.Mathlib.Nat.{le-div_iff_mul-le, le_trans, mul-div_cancel, one-le-pow, div-mul-le_self}
use mmreg.Device.Check.{page_of_lem}
use mmreg.Device.Guard.{key_of}
use mmreg.Device.Sequence.{first_page, last_page, page_count}
use mmreg.Memory.{Platform, IsPlatform, page_size}
use mmreg.Prelude.{
  ℕ, zero, suc, ◌+◌, ◌-◌, ◌*◌, ◌/◌, ◌%◌, ◌^◌, ◌≤◌, ◌<◌, true, false, List, [], ◌∷◌, some, ◌≡◌, inl,
  inr, arith, sym, ap, ◌∙◌, if◌then◌else◌, Bool-cases, ◌==◌, ==_iff, get_elem?,
}
use mmreg.Device.{Device, LockKey, device_lock, page_lock, page_of}

-- The keys of consecutive pages.
abbrev pub page_keys : Platform → ℕ → ℕ → List LockKey
page_keys p zero address = []
page_keys p (suc n) address = page_lock (page_of p address) ∷ page_keys p n (address + page_size p)

-- The keys that the guard of a device takes.
abbrev pub guard_keys : Platform → Device → List LockKey
guard_keys p d =
    if d.has_uio_lock
    then device_lock ∷ []
    else if first_page p d == last_page p d
    then page_lock (first_page p d) ∷ []
    else page_keys p (page_count p d) (first_page p d)

get_elem?-page_keys :
    (p : Platform) (n i address : ℕ)
    → i < n
    → get_elem? (page_keys p n address) i ≡ some (page_lock (page_of p (address + i * page_size p)))
get_elem?-page_keys p zero i address h = absurd (omega arith)
get_elem?-page_keys p (suc n) zero address h =
    ap (λ (t : ℕ). some (page_lock (page_of p t))) (omega arith)
get_elem?-page_keys p (suc n) (suc i) address h =
    get_elem?-page_keys p n i (address + page_size p) (omega arith)
    ∙ ap (λ (t : ℕ). some (page_lock (page_of p t))) (omega arith)

div_mono : (k x y : ℕ) → 1 ≤ k → x ≤ y → x / k ≤ y / k
div_mono k x y pos h = (le-div_iff_mul-le pos).1 (le_trans (div-mul-le_self x k) h)

-- `x * k` is `y * k` and `x - y` more multiples.
split_multiple : (k x y : ℕ) → y ≤ x → x * k ≡ y * k + (x - y) * k
split_multiple k x y h =
    let whole : x ≡ y + (x - y) = omega arith in omega (arith, ap (λ (t : ℕ). t * k) whole)

module _ (p : Platform) (d : Device) (valid : IsPlatform p) (positive : 1 ≤ d.size)
    (room : d.base_address + d.size < 2 ^ 64) where
  abbrev size : ℕ
  size = page_size p

  abbrev last : ℕ
  last = d.base_address + d.size - 1

  size-pos : 1 ≤ size
  size-pos = one-le-pow p.page_bits 2 (omega arith)

  -- Neither the last address nor the distance of the pages wraps around.
  last_lem : (d.base_address + d.size + 2 ^ 64 - 1) % 2 ^ 64 ≡ last
  last_lem = omega arith

  page_count_lem : page_count p d ≡ last / size - d.base_address / size + 1
  page_count_lem =
      let first_is = page_of_lem p d.base_address valid (omega arith) in
      let low = page_of_lem p last valid (omega arith) in
      let last_is : last_page p d ≡ last / size * size = ap (page_of p) last_lem ∙ low in
      let order = div_mono size d.base_address last size-pos (omega arith) in
      let gap : last_page p d - first_page p d ≡ (last / size - d.base_address / size) * size =
        omega (
          arith,
          first_is,
          last_is,
          split_multiple size (last / size) (d.base_address / size) order,
        ) in
      let ends : last_page p d < 2 ^ 64 = omega (arith, last_is, div-mul-le_self last size) in
      let near : (last_page p d + 2 ^ 64 - first_page p d) % 2 ^ 64
          ≡ (last / size - d.base_address / size) * size =
        omega (
          arith,
          first_is,
          last_is,
          ends,
          split_multiple size (last / size) (d.base_address / size) order,
        ) in
      ap (λ (t : ℕ). t / size + 1) near
      ∙ ap (λ (t : ℕ). t + 1) (mul-div_cancel (last / size - d.base_address / size) size-pos)

  -- A page of the window, counted from the first one.
  page_at :
      (a : ℕ)
      → d.base_address ≤ a
      → a < d.base_address + d.size
      → (i : ℕ) × (page_of p a ≡ first_page p d + i * size) × (i < page_count p d)
  page_at a low high =
      let below = div_mono size d.base_address a size-pos low in
      let above = div_mono size a last size-pos (omega arith) in
      (
        a / size - d.base_address / size,
        omega (
          arith,
          page_of_lem p a valid (omega arith),
          page_of_lem p d.base_address valid (omega arith),
          split_multiple size (a / size) (d.base_address / size) below,
        ),
        omega (arith, page_count_lem, below, above),
      )

  page_of_idem : (a : ℕ) → a < 2 ^ 64 → page_of p (page_of p a) ≡ page_of p a
  page_of_idem a h =
      let page = page_of_lem p a valid h in
      let low : page_of p a < 2 ^ 64 = omega (arith, page, div-mul-le_self a size) in
      page_of_lem p (page_of p a) valid low
      ∙ ap (λ (t : ℕ). t / size * size) page
      ∙ ap (λ (t : ℕ). t * size) (mul-div_cancel (a / size) size-pos)
      ∙ sym page

  first-eq-last :
      (a : ℕ)
      → d.base_address ≤ a
      → a < d.base_address + d.size
      → first_page p d ≡ last_page p d
      → page_of p a ≡ first_page p d
  first-eq-last a low high same =
      let below = div_mono size d.base_address a size-pos low in
      let above = div_mono size a last size-pos (omega arith) in
      omega (
        arith,
        page_of_lem p a valid (omega arith),
        page_of_lem p d.base_address valid (omega arith),
        ap (page_of p) last_lem,
        page_of_lem p last valid (omega arith),
        split_multiple size (a / size) (d.base_address / size) below,
        split_multiple size (last / size) (a / size) above,
      )

  -- The keys of the guard, and the key of an address, in each of the three cases.
  keys_several :
      (a : ℕ)
      → d.has_uio_lock ≡ false
      → (first_page p d == last_page p d) ≡ false
      → (guard_keys p d ≡ page_keys p (page_count p d) (first_page p d))
        × (key_of p d a ≡ page_lock (page_of p a))
  keys_several a own several = (rw (own, several), rw own)

  keys_one :
      (a : ℕ)
      → d.has_uio_lock ≡ false
      → (first_page p d == last_page p d) ≡ true
      → (guard_keys p d ≡ page_lock (first_page p d) ∷ [])
        × (key_of p d a ≡ page_lock (page_of p a))
  keys_one a own one = (rw (own, one), rw own)

  -- Every byte of the window is on a page whose lock the guard takes.
  pub guard_keys_cover :
      (a : ℕ)
      → d.base_address ≤ a
      → a < d.base_address + d.size
      → (i : ℕ) × (get_elem? (guard_keys p d) i ≡ some (key_of p d a))
  guard_keys_cover a low high = elim (Bool-cases d.has_uio_lock) [
    | inl uio ↦ (0, rw uio)
    | inr own ↦ elim (Bool-cases (first_page p d == last_page p d)) [
      | inl one ↦
          let (keys, key) = keys_one a own one in
          let page = first-eq-last a low high ((==_iff _ _).0 one) in
          (
            0,
            ap (λ ks. get_elem? ks 0) keys
                ∙ ap (λ (t : ℕ). some (page_lock t)) (sym page)
                ∙ ap some (sym key),
          )
      | inr several ↦
          let (keys, key) = keys_several a own several in
          let (i, page, inside) = page_at a low high in
          (
            i,
            ap (λ ks. get_elem? ks i) keys
                ∙ get_elem?-page_keys p (page_count p d) i (first_page p d) inside
                ∙ ap (λ (t : ℕ). some (page_lock (page_of p t))) (sym page)
                ∙ ap (λ (t : ℕ). some (page_lock t)) (page_of_idem a (omega arith))
                ∙ ap some (sym key),
          )
    ]
  ]
