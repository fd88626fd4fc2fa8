-- ===== src/Device/Calls.antt =====
-- `Device::read`, `write` and `update_u32` (src/device.rs) on every path: one lock around the
-- accesses, taken before the first and dropped after the last, and no access on a failure.
use mmreg.Device.Chain.{bind_ok, bind_err}
use mmreg.Device.Check.{check_access_iff}
use mmreg.Device.Guard.{key_of, Quiet, Fails, IsFileError, lock_at-cases}
use mmreg.Error.{MmregError}
use mmreg.Memory.{Width, u32, Mapper, Platform, IsPlatform}
use mmreg.Prelude.{
  ℕ, ◌%◌, ◌^◌, Bool, true, false, [], ◌∷◌, ◌++◌, ◌≡◌, ◌⊎◌, inl, inr, ok, err, Result, Result-cases,
  arith, refl, ap, ◌∙◌,
}
use mmreg.Device.{
  Device, acquired, released, bus_read, bus_write, Log, LockFiles, World, Call, ◌>>=◌, lift,
  check_access, lock_at, release, backend_read, backend_write, under, merge, read, write,
  update_u32, update_body,
}

-- Why an access may fail: its check, or a lock file.
abbrev pub IsAccessError : Platform → LockFiles → Device → ℕ → Width → Bool → MmregError → Type 0
IsAccessError p files d offset width write e =
    (check_access p d offset width write ≡ err e) ⊎ IsFileError files e

-- A call that succeeded with `events`, latest first, under the lock of an allowed address.
pub record Succeeds {Mem A : Type 0} (p : Platform) (d : Device) (offset : ℕ) (width : Width)
    (write : Bool) (value : A) (mem : Mem) (events : Log) (w : World Mem)
    (r : Result MmregError A × World Mem) : Type 0 where
  pub address : ℕ
  pub allowed : check_access p d offset width write ≡ ok address
  pub before : Log
  pub quiet : Quiet w.log before
  pub after : World Mem
  pub is : r ≡ (ok value, after)
  pub mem_is : after.mem ≡ mem
  pub log_is :
      after.log ≡ released (key_of p d address) ∷ (events ++ acquired (key_of p d address) ∷ before)

module _ {Mem : Type 0} (p : Platform) (files : LockFiles) (d : Device) (valid : IsPlatform p) where
  -- A body under the lock of an allowed address.
  abbrev locked : {A : Type 0} → ℕ → Width → Bool → Call Mem A → Call Mem A
  locked offset width write body = do
    address ← lift (check_access p d offset width write)
    key ← lock_at p files d address
    under key body

  -- The body's effect, at any world with the same memory.
  locked-cases :
      {A : Type 0} (offset : ℕ) (width : Width) (write : Bool) (body : Call Mem A) (w : World Mem)
      (value : A) (mem : Mem) (events : Log)
      → ((v : World Mem)
          → v.mem ≡ w.mem
          → (after : World Mem) × (body v ≡ (ok value, after))
            × (after.mem ≡ mem)
            × (after.log ≡ events ++ v.log))
      → Fails (IsAccessError p files d offset width write) w (locked offset width write body w)
        ⊎ Succeeds p d offset width write value mem events w (locked offset width write body w)
  locked-cases offset width write body w value mem events effect =
      elim (Result-cases (check_access p d offset width write)) [
        | inl (a, allowed) ↦
            let run = λ (address : ℕ). lock_at p files d address >>= λ key. under key body in
            let checked =
              bind_ok (lift (check_access p d offset width write)) run w
                (ap (λ r. (r, w)) allowed) in
            let at = ((check_access_iff p d offset width write a).0 allowed).1 in
            elim (lock_at-cases p files d a w valid (omega (arith, at))) [
              | inl f ↦ inl (record {
                error = f.error;
                cause = inr f.cause;
                after = f.after;
                is = checked ∙ bind_err (lock_at p files d a) (λ key. under key body) w f.is;
                same_mem = f.same_mem;
                quiet = f.quiet;
              })
              | inr h ↦
                  let key = key_of p d a in
                  let (done, ran, mem_is, log_is) = effect h.after h.same_mem in
                  inr (record {
                    address = a;
                    allowed = allowed;
                    before = h.before;
                    quiet = h.quiet;
                    after = release key done;
                    is =
                        checked
                        ∙ bind_ok (lock_at p files d a) (λ key. under key body) w h.is
                        ∙ ap (λ q. (q.0, release key q.1)) ran;
                    mem_is = mem_is;
                    log_is = ap (λ l. released key ∷ l) (log_is ∙ ap (λ l. events ++ l) h.log_is);
                  })
            ]
        | inr (e, refused) ↦ inl (record {
          error = e;
          cause = inl refused;
          after = w;
          is =
              bind_err (lift (check_access p d offset width write))
                (λ address. lock_at p files d address >>= λ key. under key body) w
                (ap (λ r. (r, w)) refused);
          same_mem = refl;
          quiet = inl refl;
        })
      ]

module _ {Mem : Type 0} (p : Platform) (files : LockFiles) (m : Mapper Mem) (d : Device)
    (valid : IsPlatform p) where
  -- On a platform with valid page and `usize` widths, `read` either fails, for its check or a lock
  -- file, with the memory unchanged and nothing done but at most the opening of a lock file, or its
  -- check has allowed an address and it returns what one backend read returned, made between taking
  -- and dropping the lock of that address.
  pub read-cases :
      (offset : ℕ) (width : Width) (w : World Mem)
      → Fails (IsAccessError p files d offset width false) w (read p files m d offset width w)
        ⊎ Succeeds p d offset width false
            (m.read offset width w.mem).0
            (m.read offset width w.mem).1
            (bus_read offset width ∷ [])
            w
            (read p files m d offset width w)
  unfolding read
  read-cases offset width w =
      locked-cases p files d valid offset width false (backend_read m offset width) w _ _ _
        (λ v same. (
          _,
          ap
              (λ s. (
                ok (m.read offset width s).0,
                record v { mem = (m.read offset width s).1; log = bus_read offset width ∷ v.log },
              ))
              same,
          refl,
          refl,
        ))

  -- On a platform with valid page and `usize` widths, `write` either fails, for its check or a lock
  -- file, with the memory unchanged and nothing done but at most the opening of a lock file, or its
  -- check has allowed an address and it makes one backend write of the value, between taking and
  -- dropping the lock of that address.
  pub write-cases :
      (offset : ℕ) (width : Width) (value : ℕ) (w : World Mem)
      → Fails (IsAccessError p files d offset width true) w (write p files m d offset width value w)
        ⊎ Succeeds p d offset width true tt
            (m.write offset width value w.mem)
            (bus_write offset width value ∷ [])
            w
            (write p files m d offset width value w)
  unfolding write
  write-cases offset width value w =
      locked-cases p files d valid offset width true (backend_write m offset width value) w _ _ _
        (λ v same. (
          _,
          ap
              (λ s. (
                ok tt,
                record v {
                  mem = m.write offset width value s;
                  log = bus_write offset width value ∷ v.log;
                },
              ))
              same,
          refl,
          refl,
        ))

  -- The word that `update_u32` computes from what it reads.
  abbrev pub updated_word : ℕ → ℕ → ℕ → World Mem → ℕ
  updated_word offset mask value w = merge ((m.read offset u32 w.mem).0 % 2 ^ 32) mask value

  -- On a platform with valid page and `usize` widths, `update_u32` either fails, for its check or a
  -- lock file, with the memory unchanged and nothing done but at most the opening of a lock file, or
  -- its check has allowed an address and it reads once, writes the merged word once and returns it,
  -- all under one holding of the lock of that address.
  pub update_u32-cases :
      (offset mask value : ℕ) (w : World Mem)
      → Fails
          (IsAccessError p files d offset u32 true)
          w
          (update_u32 p files m d offset mask value w)
        ⊎ Succeeds p d offset u32 true
            (updated_word offset mask value w)
            (m.write offset u32 (updated_word offset mask value w) (m.read offset u32 w.mem).1)
            (bus_write offset u32 (updated_word offset mask value w) ∷ bus_read offset u32 ∷ [])
            w
            (update_u32 p files m d offset mask value w)
  unfolding update_u32
  update_u32-cases offset mask value w =
      locked-cases p files d valid offset u32 true (update_body m offset mask value) w _ _ _
        (λ v same. (
          _,
          ap
              (λ s.
                let word = merge ((m.read offset u32 s).0 % 2 ^ 32) mask value in
                (
                  ok word,
                  record v {
                    mem = m.write offset u32 word (m.read offset u32 s).1;
                    log = bus_write offset u32 word ∷ bus_read offset u32 ∷ v.log;
                  },
                ))
              same,
          refl,
          refl,
        ))
