-- ===== src/Device/Sequence/Success.antt =====
-- When `Device::lock` (src/device.rs) succeeds.
use mmreg.Device.Chain.{bind_ok}
use mmreg.Device.Guard.{lock_at-cases}
use mmreg.Device.Sequence.Balance.{step_ok}
use mmreg.Device.Sequence.Holding.{rest, single, several, lock_uio, lock_one, lock-several}
use mmreg.Device.Sequence.{
  lock_all, open_pages, first_page, last_page, page_count, max_sequence_pages, lock,
}
use mmreg.Device.{
  Device, LockKey, page_lock, opened, acquired, Log, LockFiles, World, pure, acquire, open_page,
  page_of, lock_at,
}
use mmreg.Error.{MmregError}
use mmreg.Memory.{Platform, IsPlatform, page_size}
use mmreg.Prelude.{
  ℕ, zero, suc, ◌+◌, ◌≤◌, ◌<◌, ◌^◌, false, List, [], ◌∷◌, ◌++◌, none, ltb, ◌==◌, ok, Result, ◌≡◌,
  inl, inr, refl, sym, ◌∙◌, arith, Bool-cases, none-ne-some,
}

-- A call that succeeds.
abbrev pub IsDone : {Mem A : Type 0} → Result MmregError A × World Mem → Type 0
IsDone {Mem} {A} r = (a : A) × (v : World Mem) × (r ≡ (ok a, v))

-- Lock files that can all be opened and locked.
pub record IsServing (files : LockFiles) : Type 0 where
  pub locks : (l : Log) (k : LockKey) → files.acquire_error l k ≡ none
  pub opens : (l : Log) (a : ℕ) → files.open_error l a ≡ none

module _ {Mem : Type 0} (p : Platform) (files : LockFiles) (serving : IsServing files) where
  acquire-serving :
      (k : LockKey) (w : World Mem)
      → acquire p files k w ≡ (ok k, record w { log = acquired k ∷ w.log })
  unfolding acquire
  acquire-serving k w = rw (serving.locks w.log k, acquire) refl

  open_page-serving :
      (a : ℕ) (w : World Mem)
      → open_page p files a w
        ≡ (ok (page_lock (page_of p a)), record w { log = opened (page_of p a) ∷ w.log })
  unfolding open_page
  open_page-serving a w = rw (serving.opens w.log (page_of p a), open_page) refl

  lock_all-IsDone : (hs ks : List LockKey) (w : World Mem) → IsDone (lock_all p files hs ks w)
  unfolding lock_all
  lock_all-IsDone hs [] w = (hs, w, refl)
  lock_all-IsDone hs (k ∷ ks) w =
      let v : World Mem = record w { log = acquired k ∷ w.log } in
      let (taken, u, is) = lock_all-IsDone (hs ++ k ∷ []) ks v in
      (taken, u, step_ok p files hs ks k w v (acquire-serving k w) ∙ is)

  open_pages-IsDone : (n a : ℕ) (w : World Mem) → IsDone (open_pages p files n a w)
  unfolding open_pages
  open_pages-IsDone zero a w = ([], w, refl)
  open_pages-IsDone (suc n) a w =
      let v : World Mem = record w { log = opened (page_of p a) ∷ w.log } in
      let (keys, u, is) = open_pages-IsDone n (a + page_size p) v in
      (
        page_lock (page_of p a) ∷ keys,
        u,
        bind_ok (open_page p files a) (rest p files n a) w (open_page-serving a w)
            ∙ bind_ok (open_pages p files n (a + page_size p))
                (λ ks. pure (page_lock (page_of p a) ∷ ks)) v is,
      )

  single-IsDone :
      (d : Device) (w : World Mem)
      → IsPlatform p
      → d.base_address < 2 ^ 64
      → IsDone (single p files d w w)
  single-IsDone d w valid small = elim (lock_at-cases p files d d.base_address w valid small) [
    | inl f ↦ elim f.cause [
      | inl (l, k, e) ↦ absurd (none-ne-some (sym (serving.locks l k) ∙ e))
      | inr (l, b, e) ↦ absurd (none-ne-some (sym (serving.opens l b) ∙ e))
    ]
    | inr h ↦ (_, _, bind_ok (lock_at p files d d.base_address) (λ key. pure (key ∷ [])) w h.is)
  ]

  several-IsDone : (d : Device) (w : World Mem) → IsDone (several p files d w w)
  several-IsDone d w =
      let (keys, v, opening) = open_pages-IsDone (page_count p d) (first_page p d) w in
      let (taken, u, locking) = lock_all-IsDone [] keys v in
      (
        taken,
        u,
        bind_ok (open_pages p files (page_count p d) (first_page p d)) (lock_all p files []) w
              opening
            ∙ locking,
      )

-- On a platform with valid page and `usize` widths, with lock files that can all be opened and
-- locked: `lock` succeeds for a window that is not empty, ends below 2^64 and has at most 64 pages.
pub lock-IsDone :
    {Mem : Type 0} (p : Platform) (files : LockFiles) (d : Device) (w : World Mem)
    → IsServing files
    → IsPlatform p
    → 1 ≤ d.size
    → d.base_address + d.size < 2 ^ 64
    → page_count p d ≤ 64
    → IsDone (lock p files d w)
lock-IsDone p files d w serving valid positive room few = elim (Bool-cases d.has_uio_lock) [
  | inl uio ↦
      let (a, v, is) = single-IsDone p files serving d w valid (omega arith) in
      (a, v, lock_uio p files d w uio ∙ is)
  | inr own ↦ elim (Bool-cases (first_page p d == last_page p d)) [
    | inl one ↦
        let (a, v, is) = single-IsDone p files serving d w valid (omega arith) in
        (a, v, lock_one p files d w own one ∙ is)
    | inr more ↦
        let fits : ltb max_sequence_pages (page_count p d) ≡ false = ground arith in
        let (a, v, is) = several-IsDone p files serving d w in
        (a, v, lock-several p files d w own more fits ∙ is)
  ]
]
