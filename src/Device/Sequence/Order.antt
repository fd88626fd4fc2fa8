-- ===== src/Device/Sequence/Order.antt =====
-- The order in which `Device::lock` (src/device.rs) takes its locks, and its guard releases them.
use mathlib.Core.List.{append-nil, append_assoc}
use mathlib.Core.Path.{subst}
use mmreg.Device.Chain.{bind_ok, bind_err}
use mmreg.Device.Guard.{Quiet, key_of, lock_at-cases}
use mmreg.Device.Sequence.Balance.{step_ok, step_err}
use mmreg.Device.Sequence.Holding.{
  rest, single, several, lock_uio, lock_one, lock_too_many, lock-several,
}
use mmreg.Device.Sequence.{
  release_all, lock_all, open_pages, first_page, last_page, page_count, max_sequence_pages, lock,
}
use mmreg.Device.{
  Device, LockKey, page_lock, opened, acquired, released, bus_read, bus_write, Log, LockFiles,
  World, pure, page_of, acquire, open_page, release, lock_at,
}
use mmreg.Error.{MmregError}
use mmreg.Memory.{Platform, IsPlatform, page_size}
use mmreg.Prelude.{
  ℕ, zero, suc, ◌+◌, ◌<◌, ◌^◌, List, [], ◌∷◌, ◌++◌, map, ltb, ◌==◌, ok, err, Result, ◌≡◌, inl, inr,
  refl, sym, ap, ◌∙◌, Bool-cases, Option-cases,
}

-- A guard's end releases each of its keys once, the last one first, and does nothing else.
pub release_all_lem :
    {Mem : Type 0} (ks : List LockKey) (w : World Mem)
    → release_all ks w ≡ record w { log = map released ks ++ w.log }
unfolding release_all
release_all_lem [] w = refl
release_all_lem (k ∷ ks) w = ap (release k) (release_all_lem ks w)

-- The keys that were locked, latest first.
abbrev pub taken : Log → List LockKey
taken [] = []
taken (acquired k ∷ l) = k ∷ taken l
taken (released k ∷ l) = taken l
taken (opened a ∷ l) = taken l
taken (bus_read o w ∷ l) = taken l
taken (bus_write o w v ∷ l) = taken l

-- Keys in order, put before others latest first.
abbrev pub latest_first : List LockKey → List LockKey → List LockKey
latest_first [] before = before
latest_first (k ∷ ks) before = latest_first ks (k ∷ before)

-- Keys that are returned were locked in their order, and no others.
abbrev pub IsOrdered :
    {Mem : Type 0}
    → List LockKey
    → List LockKey
    → Result MmregError (List LockKey) × World Mem
    → Type 0
IsOrdered held before (ok keys, v) =
    (ks : List LockKey) × (keys ≡ held ++ ks) × (taken v.log ≡ latest_first ks before)
IsOrdered held before (err e, v) = Unit

-- Opening files, or none, locks nothing.
unfoldable IsQuiet :
    {Mem : Type 0} → List LockKey → Result MmregError (List LockKey) × World Mem → Type 0
IsQuiet before (ok keys, v) = taken v.log ≡ before
IsQuiet before (err e, v) = Unit

IsOrdered-cons :
    {Mem : Type 0} (k : LockKey) (hs before : List LockKey)
    (q : Result MmregError (List LockKey) × World Mem)
    → IsOrdered (hs ++ k ∷ []) (k ∷ before) q
    → IsOrdered hs before q
IsOrdered-cons k hs before (ok keys, v) (ks, same, order) =
    (k ∷ ks, same ∙ append_assoc hs (k ∷ []) ks, order)
IsOrdered-cons k hs before (err e, v) o = tt

Quiet-taken : {l l' : Log} → Quiet l l' → taken l' ≡ taken l
Quiet-taken (inl same) = ap taken same
Quiet-taken (inr (a, more)) = ap taken more

IsQuiet-cons :
    {Mem : Type 0} (k : LockKey) (before : List LockKey)
    (q : Result MmregError (List LockKey) × World Mem)
    → IsQuiet before q
    → IsQuiet {Mem = Mem} before
        (elim q.0 [ ok keys ↦ (ok (k ∷ keys), q.1) | err e ↦ (err e, q.1) ])
unfolding IsQuiet
IsQuiet-cons {Mem} k before (ok keys, v) h = h
IsQuiet-cons {Mem} k before (err e, v) h = tt

module _ {Mem : Type 0} (p : Platform) (files : LockFiles) where
  lock_all-IsOrdered :
      (hs ks : List LockKey) (w : World Mem) → IsOrdered hs (taken w.log) (lock_all p files hs ks w)
  unfolding lock_all acquire
  lock_all-IsOrdered hs [] w = ([], sym (append-nil hs), refl)
  lock_all-IsOrdered hs (k ∷ ks) w = elim (Option-cases (files.acquire_error w.log k)) [
    | inl good ↦
        let v : World Mem = record w { log = acquired k ∷ w.log } in
        subst (IsOrdered hs (taken w.log)) (sym (step_ok p files hs ks k w v (rw (good, acquire))))
          (IsOrdered-cons k hs (taken w.log) _ (lock_all-IsOrdered (hs ++ k ∷ []) ks v))
    | inr (e, bad) ↦
        subst (IsOrdered hs (taken w.log))
          (sym (step_err p files hs ks k e w w (rw (bad, acquire)))) tt
  ]

  open_pages-IsQuiet : (n a : ℕ) (w : World Mem) → IsQuiet (taken w.log) (open_pages p files n a w)
  unfolding open_pages open_page IsQuiet
  open_pages-IsQuiet zero a w = refl
  open_pages-IsQuiet (suc n) a w = elim (Option-cases (files.open_error w.log (page_of p a))) [
    | inl good ↦
        let v : World Mem = record w { log = opened (page_of p a) ∷ w.log } in
        let first : open_page p files a w ≡ (ok (page_lock (page_of p a)), v) =
          rw (good, open_page) in
        subst (IsQuiet (taken w.log))
          (sym (bind_ok (open_page p files a) (rest p files n a) w first))
          (IsQuiet-cons (page_lock (page_of p a)) (taken w.log) _
            (open_pages-IsQuiet n (a + page_size p) v))
    | inr (e, bad) ↦
        let first : open_page p files a w ≡ (err e, w) = rw (bad, open_page) in
        subst (IsQuiet (taken w.log))
          (sym (bind_err (open_page p files a) (rest p files n a) w first)) tt
  ]

module _ {Mem : Type 0} (p : Platform) (files : LockFiles) (d : Device) (w : World Mem)
    (valid : IsPlatform p) (small : d.base_address < 2 ^ 64) where
  single-IsOrdered : IsOrdered [] (taken w.log) (single p files d w w)
  single-IsOrdered = elim (lock_at-cases p files d d.base_address w valid small) [
    | inl f ↦
        subst (IsOrdered [] (taken w.log))
          (sym (bind_err (lock_at p files d d.base_address) (λ key. pure (key ∷ [])) w f.is)) tt
    | inr h ↦
        subst (IsOrdered [] (taken w.log))
          (sym (bind_ok (lock_at p files d d.base_address) (λ key. pure (key ∷ [])) w h.is))
          (
            _,
            refl,
            ap taken h.log_is ∙ ap (λ ks. key_of p d d.base_address ∷ ks) (Quiet-taken h.quiet),
          )
  ]

  several-IsOrdered : IsOrdered [] (taken w.log) (several p files d w w)
  unfolding IsQuiet
  several-IsOrdered = after_open _ (open_pages-IsQuiet p files (page_count p d) (first_page p d) w)
    where
      after_open :
          (q : Result MmregError (List LockKey) × World Mem)
          → IsQuiet (taken w.log) q
          → IsOrdered {Mem = Mem} []
              (taken w.log)
              (elim q.0 [ ok ks ↦ lock_all p files [] ks q.1 | err e ↦ (err e, q.1) ])
      after_open (ok ks, v) same =
          subst (λ t. IsOrdered [] t (lock_all p files [] ks v)) same
            (lock_all-IsOrdered p files [] ks v)
      after_open (err e, v) same = tt

  lock-IsOrdered : IsOrdered [] (taken w.log) (lock p files d w)
  lock-IsOrdered = elim (Bool-cases d.has_uio_lock) [
    | inl uio ↦ at (lock_uio p files d w uio) single-IsOrdered
    | inr own ↦ elim (Bool-cases (first_page p d == last_page p d)) [
      | inl one ↦ at (lock_one p files d w own one) single-IsOrdered
      | inr more ↦ elim (Bool-cases (ltb max_sequence_pages (page_count p d))) [
        | inl big ↦ at (lock_too_many p files d w own more big) tt
        | inr fits ↦ at (lock-several p files d w own more fits) several-IsOrdered
      ]
    ]
  ]
    where
      at :
          {r : Result MmregError (List LockKey) × World Mem}
          → lock p files d w ≡ r
          → IsOrdered [] (taken w.log) r
          → IsOrdered [] (taken w.log) (lock p files d w)
      at is o = subst (IsOrdered [] (taken w.log)) (sym is) o

  -- The keys that `lock` returns are those that it locked, in their order.
  pub lock-taken :
      {keys : List LockKey} {v : World Mem}
      → lock p files d w ≡ (ok keys, v)
      → taken v.log ≡ latest_first keys (taken w.log)
  lock-taken is =
      let (ks, same, order) = subst (IsOrdered [] (taken w.log)) is lock-IsOrdered in
      order ∙ ap (λ t. latest_first t (taken w.log)) (sym same)
