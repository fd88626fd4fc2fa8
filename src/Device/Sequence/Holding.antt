-- ===== src/Device/Sequence/Holding.antt =====
-- What `Device::lock` (src/device.rs) holds when it returns.
use mathlib.Core.Path.{subst}
use mmreg.Device.Chain.{bind_ok, bind_err}
use mmreg.Device.Guard.{key_of, Quiet, lock_at-cases}
use mmreg.Device.Sequence.Balance.{held, count, same_key_refl, AllOrNone, lock_all-AllOrNone}
use mmreg.Device.Sequence.Cover.{page_keys, guard_keys, guard_keys_cover}
use mmreg.Device.Sequence.{
  lock_all, open_pages, first_page, last_page, page_count, max_sequence_pages, lock,
}
use mmreg.Error.{MmregError, lock_range_too_large}
use mmreg.Memory.{Platform, IsPlatform, page_size}
use mmreg.Prelude.{
  ℕ, zero, suc, ◌+◌, ◌^◌, ◌≤◌, ◌<◌, true, false, List, [], ◌∷◌, some, ◌≡◌, inl, inr, ok, err,
  Result, arith, refl, sym, ap, ◌∙◌, Bool-cases, Option-cases, ◌==◌, ltb, get_elem?,
}
use mmreg.Device.{
  Device, LockKey, page_lock, opened, Log, LockFiles, World, Call, ◌>>=◌, pure, page_of, open_page,
  lock_at,
}

Quiet-held : (j : LockKey) {l l' : Log} → Quiet l l' → held j l' ≡ held j l
Quiet-held j (inl same) = ap (held j) same
Quiet-held j (inr (a, more)) = ap (held j) more

-- The page files were opened, or one could not be; no lock is held for it.
abbrev Opens :
    {Mem : Type 0}
    → LockKey
    → List LockKey
    → World Mem
    → Result MmregError (List LockKey) × World Mem
    → Type 0
Opens j ks w (ok keys, v) = (keys ≡ ks) × (held j v.log ≡ held j w.log)
Opens j ks w (err e, v) = held j v.log ≡ held j w.log

Opens-cons :
    {Mem : Type 0} (j k : LockKey) (ks : List LockKey) (w v : World Mem)
    → held j v.log ≡ held j w.log
    → (q : Result MmregError (List LockKey) × World Mem) → Opens j ks v q
    → Opens j (k ∷ ks) w (elim q.0 [ ok keys ↦ (ok (k ∷ keys), q.1) | err e ↦ (err e, q.1) ])
Opens-cons j k ks w v same (ok keys, u) (is, total) = (ap (λ t. k ∷ t) is, total ∙ same)
Opens-cons j k ks w v same (err e, u) total = total ∙ same

module _ {Mem : Type 0} (p : Platform) (files : LockFiles) where
  -- What `open_pages` does after its first page.
  abbrev pub rest : ℕ → ℕ → LockKey → Call Mem (List LockKey)
  rest n a key = open_pages p files n (a + page_size p) >>= λ keys. pure (key ∷ keys)

  open_pages-Opens :
      (j : LockKey) (n a : ℕ) (w : World Mem)
      → Opens j (page_keys p n a) w (open_pages p files n a w)
  unfolding open_pages open_page
  open_pages-Opens j zero a w = (refl, refl)
  open_pages-Opens j (suc n) a w = elim (Option-cases (files.open_error w.log (page_of p a))) [
    | inl good ↦
        let v : World Mem = record w { log = opened (page_of p a) ∷ w.log } in
        let first : open_page p files a w ≡ (ok (page_lock (page_of p a)), v) =
          rw (good, open_page) in
        subst (Opens j (page_keys p (suc n) a) w)
          (sym (bind_ok (open_page p files a) (rest n a) w first))
          (Opens-cons j (page_lock (page_of p a)) (page_keys p n (a + page_size p)) w v refl _
            (open_pages-Opens j n (a + page_size p) v))
    | inr (e, bad) ↦
        let first : open_page p files a w ≡ (err e, w) = rw (bad, open_page) in
        subst (Opens j (page_keys p (suc n) a) w)
          (sym (bind_err (open_page p files a) (rest n a) w first)) refl
  ]

module _ {Mem : Type 0} (p : Platform) (files : LockFiles) (d : Device) (w : World Mem) where
  abbrev pub single : Call Mem (List LockKey)
  single = lock_at p files d d.base_address >>= λ key. pure (key ∷ [])

  abbrev pub several : Call Mem (List LockKey)
  several = open_pages p files (page_count p d) (first_page p d) >>= lock_all p files []

  pub lock_uio : d.has_uio_lock ≡ true → lock p files d w ≡ single w
  unfolding lock
  lock_uio h = rw (h, lock)

  pub lock_one :
      d.has_uio_lock ≡ false
      → (first_page p d == last_page p d) ≡ true
      → lock p files d w ≡ single w
  unfolding lock
  lock_one h g = rw (h, g, lock)

  pub lock_too_many :
      d.has_uio_lock ≡ false
      → (first_page p d == last_page p d) ≡ false
      → ltb max_sequence_pages (page_count p d) ≡ true
      → lock p files d w
        ≡ (err (lock_range_too_large d.name (page_count p d) max_sequence_pages), w)
  unfolding lock
  lock_too_many h g k = rw (h, g, k, lock)

  pub lock-several :
      d.has_uio_lock ≡ false
      → (first_page p d == last_page p d) ≡ false
      → ltb max_sequence_pages (page_count p d) ≡ false
      → lock p files d w ≡ several w
  unfolding lock
  lock-several h g k = rw (h, g, k, lock)

  module _ (j : LockKey) (valid : IsPlatform p) (positive : 1 ≤ d.size)
      (room : d.base_address + d.size < 2 ^ 64) where
    single-AllOrNone : AllOrNone j (key_of p d d.base_address ∷ []) w (single w)
    single-AllOrNone = elim (lock_at-cases p files d d.base_address w valid (omega arith)) [
      | inl f ↦
          subst (AllOrNone j (key_of p d d.base_address ∷ []) w)
            (sym (bind_err (lock_at p files d d.base_address) (λ key. pure (key ∷ [])) w f.is))
            (Quiet-held j f.quiet)
      | inr h ↦
          subst (AllOrNone j (key_of p d d.base_address ∷ []) w)
            (sym (bind_ok (lock_at p files d d.base_address) (λ key. pure (key ∷ [])) w h.is))
            (refl, omega (arith, ap (held j) h.log_is, Quiet-held j h.quiet))
    ]

    several-AllOrNone : AllOrNone j (page_keys p (page_count p d) (first_page p d)) w (several w)
    several-AllOrNone =
        after_open _ (open_pages-Opens p files j (page_count p d) (first_page p d) w)
      where
        keys : List LockKey
        keys = page_keys p (page_count p d) (first_page p d)

        shift :
            (v : World Mem) (r : Result MmregError (List LockKey) × World Mem)
            → held j v.log ≡ held j w.log
            → AllOrNone j keys v r
            → AllOrNone j keys w r
        shift v (ok taken, u) same (is, total) = (is, omega arith)
        shift v (err e, u) same total = total ∙ same

        after_open :
            (q : Result MmregError (List LockKey) × World Mem)
            → Opens j keys w q
            → AllOrNone j keys w
                (elim q.0 [ ok ks ↦ lock_all p files [] ks q.1 | err e ↦ (err e, q.1) ])
        after_open (ok ks, v) (is, same) =
            subst (λ t. AllOrNone j keys w (lock_all p files [] t v)) (sym is)
              (shift v _ same (lock_all-AllOrNone p files j keys v))
        after_open (err e, v) same = same

    -- On a platform with valid page and `usize` widths, for a window that is not empty and ends below
    -- 2^64: `lock` either returns the keys of the guard, each held once more than before, or fails
    -- with every key held as often as before.
    pub lock-AllOrNone : AllOrNone j (guard_keys p d) w (lock p files d w)
    lock-AllOrNone = elim (Bool-cases d.has_uio_lock) [
      | inl uio ↦ carry (rw uio) (lock_uio uio) single-AllOrNone
      | inr own ↦ elim (Bool-cases (first_page p d == last_page p d)) [
        | inl one ↦ carry (rw (own, one)) (lock_one own one) single-AllOrNone
        | inr more ↦ elim (Bool-cases (ltb max_sequence_pages (page_count p d))) [
          | inl big ↦ carry {ks = guard_keys p d} refl (lock_too_many own more big) refl
          | inr fits ↦ carry (rw (own, more)) (lock-several own more fits) several-AllOrNone
        ]
      ]
    ]
      where
        carry :
            {ks : List LockKey} {r : Result MmregError (List LockKey) × World Mem}
            → guard_keys p d ≡ ks
            → lock p files d w ≡ r
            → AllOrNone j ks w r
            → AllOrNone j (guard_keys p d) w (lock p files d w)
        carry {ks} {r} keys is o =
            subst (λ t. AllOrNone j t w (lock p files d w)) (sym keys)
              (subst (AllOrNone j ks w) (sym is) o)

get_elem?-count :
    (j : LockKey) (ks : List LockKey) (i : ℕ) → get_elem? ks i ≡ some j → 1 ≤ count j ks
get_elem?-count j [] i h = cc
get_elem?-count j (k ∷ ks) zero h = let e : k ≡ j = cc in rw (e, same_key_refl j) (omega arith)
get_elem?-count j (k ∷ ks) (suc i) h = omega (arith, get_elem?-count j ks i h)

-- On a platform with valid page and `usize` widths, for a window that is not empty and ends below
-- 2^64: when `lock` succeeds, the lock that an access to any byte of the window takes is held, and
-- is among the guard's keys.
pub lock_covers :
    {Mem : Type 0} (p : Platform) (files : LockFiles) (d : Device) (w v : World Mem)
    (keys : List LockKey) (a : ℕ)
    → IsPlatform p
    → 1 ≤ d.size
    → d.base_address + d.size < 2 ^ 64
    → lock p files d w ≡ (ok keys, v)
    → d.base_address ≤ a
    → a < d.base_address + d.size
    → (1 ≤ held (key_of p d a) v.log) × ((i : ℕ) × (get_elem? keys i ≡ some (key_of p d a)))
lock_covers p files d w v keys a valid positive room is low high =
    let (i, found) = guard_keys_cover p d valid positive room a low high in
    let all =
      subst (AllOrNone (key_of p d a) (guard_keys p d) w) is
        (lock-AllOrNone p files d w (key_of p d a) valid positive room) in
    (
      omega (arith, all.1, get_elem?-count (key_of p d a) (guard_keys p d) i found),
      (i, ap (λ ks. get_elem? ks i) all.0 ∙ found),
    )
