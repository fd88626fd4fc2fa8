-- ===== src/Device/Guard.antt =====
-- The calls of a `Device` (src/device.rs) on every path: what they do to the lock files and to the
-- backend, and in which order.
use native.Mathlib.Nat.{div-mul-le_self, mul-div_cancel, one-le-pow}
use mmreg.Device.Check.{page_of_lem}
use mathlib.Core.Path.{subst}
use mmreg.Device.Chain.{bind_ok, bind_err, bind_cong, bind_pure}
use mmreg.Error.{MmregError}
use mmreg.Memory.{Platform, IsPlatform, page_size}
use mmreg.Prelude.{
  ℕ, ◌*◌, ◌/◌, ◌^◌, ◌<◌, true, false, ◌∷◌, some, ◌≡◌, ◌⊎◌, inl, inr, ok, err, Result, arith, refl,
  sym, ap, ◌∙◌, if◌then◌else◌, Bool-cases, Option-cases, ◌==◌, ==_iff,
}
use mmreg.Device.{
  Device, LockKey, device_lock, page_lock, opened, acquired, Log, LockFiles, World, ◌>>=◌, page_of,
  acquire, open_page, base_page, lock_at,
}

-- The lock that an access at a physical address takes.
abbrev pub key_of : Platform → Device → ℕ → LockKey
key_of p d address = if d.has_uio_lock then device_lock else page_lock (page_of p address)

abbrev set_base : {Mem : Type 0} → World Mem → World Mem
set_base v = record v { base_page_open = true }

-- Nothing but a lock file has been opened since.
abbrev pub Quiet : Log → Log → Type 0
Quiet l l' = (l' ≡ l) ⊎ ((a : ℕ) × (l' ≡ opened a ∷ l))

-- A lock file could not be opened or locked.
abbrev pub IsFileError : LockFiles → MmregError → Type 0
IsFileError files e =
    ((l : Log) × (k : LockKey) × (files.acquire_error l k ≡ some e))
    ⊎ ((l : Log) × (a : ℕ) × (files.open_error l a ≡ some e))

-- A call that failed, and why: no backend access, no lock taken.
pub record Fails {Mem A : Type 0} (Cause : MmregError → Type 0) (w : World Mem)
    (r : Result MmregError A × World Mem) : Type 0 where
  pub error : MmregError
  pub cause : Cause error
  pub after : World Mem
  pub is : r ≡ (err error, after)
  pub same_mem : after.mem ≡ w.mem
  pub quiet : Quiet w.log after.log

-- A lock that was taken, after at most an opening of its file.
pub record Holds {Mem : Type 0} (key : LockKey) (w : World Mem)
    (r : Result MmregError LockKey × World Mem) : Type 0 where
  pub before : Log
  pub after : World Mem
  pub is : r ≡ (ok key, after)
  pub same_mem : after.mem ≡ w.mem
  pub log_is : after.log ≡ acquired key ∷ before
  pub quiet : Quiet w.log before

page_of_idem :
    (p : Platform) → IsPlatform p → (a : ℕ) → a < 2 ^ 64 → page_of p (page_of p a) ≡ page_of p a
page_of_idem p v a h =
    let page = page_of_lem p a v h in
    let room : page_of p a < 2 ^ 64 = omega (arith, page, div-mul-le_self a (page_size p)) in
    page_of_lem p (page_of p a) v room
    ∙ ap (λ (t : ℕ). t * page_size p)
        (ap (λ (t : ℕ). t / page_size p) page
          ∙ mul-div_cancel (a / page_size p) (one-le-pow p.page_bits 2 (omega arith)))
    ∙ sym page

-- The same outcome, of an equal call and key.
at_once :
    {Mem : Type 0} {files : LockFiles} {key key' : LockKey} {w : World Mem}
    {r r' : Result MmregError LockKey × World Mem}
    → r ≡ r'
    → key ≡ key'
    → Fails (IsFileError files) w r' ⊎ Holds key' w r'
    → Fails (IsFileError files) w r ⊎ Holds key w r
at_once {files} {key'} {w} {r} same k o =
    subst (λ x. Fails (IsFileError files) w r ⊎ Holds x w r) (sym k)
      (subst (λ x. Fails (IsFileError files) w x ⊎ Holds key' w x) (sym same) o)

module _ {Mem : Type 0} (p : Platform) (files : LockFiles) where
  acquire-cases :
      (key : LockKey) (w v : World Mem)
      → v.mem ≡ w.mem
      → Quiet w.log v.log
      → Fails (IsFileError files) w (acquire p files key v) ⊎ Holds key w (acquire p files key v)
  unfolding acquire
  acquire-cases key w v same quiet = elim (Option-cases (files.acquire_error v.log key)) [
    | inl good ↦ inr (record {
      before = v.log;
      after = record v { log = acquired key ∷ v.log };
      is = rw (good, acquire);
      same_mem = same;
      log_is = refl;
      quiet = quiet;
    })
    | inr (e, bad) ↦ inl (record {
      error = e;
      cause = inl (v.log, key, bad);
      after = v;
      is = rw (bad, acquire);
      same_mem = same;
      quiet = quiet;
    })
  ]

  -- Opening a page file, then locking it.
  opened-cases :
      (a : ℕ) (w : World Mem) (k : World Mem → World Mem)
      → ((v : World Mem) → ((k v).mem ≡ v.mem) × ((k v).log ≡ v.log))
      → Fails
          (IsFileError files)
          w
          (((open_page p files a >>= λ key v. (ok key, k v)) >>= acquire p files) w)
        ⊎ Holds
            (page_lock (page_of p a))
            w
            (((open_page p files a >>= λ key v. (ok key, k v)) >>= acquire p files) w)
  unfolding open_page
  opened-cases a w k keeps = elim (Option-cases (files.open_error w.log (page_of p a))) [
    | inl good ↦
        let v : World Mem = record w { log = opened (page_of p a) ∷ w.log } in
        let first : open_page p files a w ≡ (ok (page_lock (page_of p a)), v) =
          rw (good, open_page) in
        let second = bind_ok (open_page p files a) (λ key v. (ok key, k v)) w first in
        at_once
          (bind_ok (open_page p files a >>= λ key v. (ok key, k v)) (acquire p files) w second) refl
          (acquire-cases (page_lock (page_of p a)) w (k v) (keeps v).0
            (inr (page_of p a, (keeps v).1)))
    | inr (e, bad) ↦
        let first : open_page p files a w ≡ (err e, w) = rw (bad, open_page) in
        let second = bind_err (open_page p files a) (λ key v. (ok key, k v)) w first in
        inl (record {
          error = e;
          cause = inr (w.log, page_of p a, bad);
          after = w;
          is = bind_err (open_page p files a >>= λ key v. (ok key, k v)) (acquire p files) w second;
          same_mem = refl;
          quiet = inl refl;
        })
  ]

  module _ (d : Device) (address : ℕ) (w : World Mem) (valid : IsPlatform p)
      (small : address < 2 ^ 64) where
    lock_at_uio :
        d.has_uio_lock ≡ true → lock_at p files d address w ≡ acquire p files device_lock w
    unfolding lock_at
    lock_at_uio h = rw (h, lock_at)

    lock_at_base :
        d.has_uio_lock ≡ false
        → (page_of p address == page_of p d.base_address) ≡ true
        → lock_at p files d address w ≡ (base_page p files d >>= acquire p files) w
    unfolding lock_at
    lock_at_base h g = rw (h, g, lock_at)

    lock_at_other :
        d.has_uio_lock ≡ false
        → (page_of p address == page_of p d.base_address) ≡ false
        → lock_at p files d address w
          ≡ (open_page p files (page_of p address) >>= acquire p files) w
    unfolding lock_at
    lock_at_other h g = rw (h, g, lock_at)

    base_page_again :
        w.base_page_open ≡ true
        → base_page p files d w ≡ (ok (page_lock (page_of p d.base_address)), w)
    unfolding base_page
    base_page_again h = rw (h, base_page)

    base_page_first :
        w.base_page_open ≡ false
        → base_page p files d w
          ≡ (open_page p files d.base_address >>= λ key v. (ok key, set_base v)) w
    unfolding base_page
    base_page_first h = rw (h, base_page)

    key_base :
        d.has_uio_lock ≡ false
        → (page_of p address == page_of p d.base_address) ≡ true
        → key_of p d address ≡ page_lock (page_of p d.base_address)
    key_base h g = rw h (ap page_lock ((==_iff _ _).0 g))

    key_other :
        d.has_uio_lock ≡ false → key_of p d address ≡ page_lock (page_of p (page_of p address))
    key_other h = rw h (ap page_lock (sym (page_of_idem p valid address small)))

    pub lock_at-cases :
        Fails (IsFileError files) w (lock_at p files d address w)
        ⊎ Holds (key_of p d address) w (lock_at p files d address w)
    lock_at-cases = elim (Bool-cases d.has_uio_lock) [
      | inl uio ↦ at_once (lock_at_uio uio) (rw uio) (acquire-cases device_lock w w refl (inl refl))
      | inr own ↦ elim (Bool-cases (page_of p address == page_of p d.base_address)) [
        | inl base ↦ elim (Bool-cases w.base_page_open) [
          | inl again ↦
              at_once
                (lock_at_base own base
                  ∙ bind_ok (base_page p files d) (acquire p files) w (base_page_again again))
                (key_base own base)
                (acquire-cases (page_lock (page_of p d.base_address)) w w refl (inl refl))
          | inr first ↦
              at_once
                (lock_at_base own base
                  ∙ bind_cong (base_page p files d) (acquire p files) w
                      (open_page p files d.base_address >>= λ key v. (ok key, set_base v))
                      (base_page_first first))
                (key_base own base) (opened-cases d.base_address w set_base (λ v. (refl, refl)))
        ]
        | inr other ↦
            at_once
              (lock_at_other own other
                ∙ bind_cong (open_page p files (page_of p address)) (acquire p files) w
                    (open_page p files (page_of p address) >>= λ key v. (ok key, v))
                    (bind_pure (open_page p files (page_of p address)) w))
              (key_other own) (opened-cases (page_of p address) w (λ v. v) (λ v. (refl, refl)))
      ]
    ]
