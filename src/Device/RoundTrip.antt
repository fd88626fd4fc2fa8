-- ===== src/Device/RoundTrip.antt =====
-- A write followed by a read of the same place through a `Device` (src/device.rs).
use native.Mathlib.Nat.{mod-mod}
use mmreg.Device.Calls.{Succeeds, IsAccessError, read-cases, write-cases}
use mmreg.Device.Chain.{bind_ok}
use mmreg.Device.Check.{check_access_iff}
use mmreg.Device.Guard.{Fails}
use mmreg.Device.Sequence.Success.{IsServing}
use mmreg.Device.{Device, Log, LockFiles, World, check_access, pure, read, write, read_narrow}
use mmreg.Error.{MmregError}
use mmreg.Memory.{Width, width_bits, Mapper, Platform, IsPlatform, IsPlain}
use mmreg.Prelude.{
  ℕ, ◌%◌, ◌^◌, Bool, true, false, ok, Result, ◌≡◌, ◌⊎◌, inl, inr, sym, ap, ◌∙◌, err-ne-ok,
  none-ne-some,
}

-- A read of what a write may access is allowed too.
read_allowed :
    (p : Platform) (d : Device) (offset : ℕ) (width : Width) (a : ℕ)
    → check_access p d offset width true ≡ ok a
    → check_access p d offset width false ≡ ok a
read_allowed p d offset width a h =
    let (allowed, at) = (check_access_iff p d offset width true a).0 h in
    (check_access_iff p d offset width false a).1 (
      record {
        writable = λ t. absurd cc;
        offset_aligned = allowed.offset_aligned;
        address_aligned = allowed.address_aligned;
        addressable = allowed.addressable;
        inside = allowed.inside;
      },
      at,
    )

-- An allowed access cannot fail when the lock files serve.
must_succeed :
    {Mem A : Type 0} (p : Platform) (files : LockFiles) (d : Device) (offset : ℕ) (width : Width)
    (writes : Bool) (a : ℕ) {value : A} {mem : Mem} {events : Log} {w : World Mem}
    {r : Result MmregError A × World Mem}
    → IsServing files
    → check_access p d offset width writes ≡ ok a
    → Fails (IsAccessError p files d offset width writes) w r
      ⊎ Succeeds p d offset width writes value mem events w r
    → Succeeds p d offset width writes value mem events w r
must_succeed p files d offset width writes a serving allowed (inr s) = s
must_succeed p files d offset width writes a serving allowed (inl f) = elim f.cause [
  | inl refused ↦ absurd (err-ne-ok (sym refused ∙ allowed))
  | inr (inl (l, k, e)) ↦ absurd (none-ne-some (sym (serving.locks l k) ∙ e))
  | inr (inr (l, b, e)) ↦ absurd (none-ne-some (sym (serving.opens l b) ∙ e))
]

-- Over a mapper of plain memory, on a platform with valid page and `usize` widths, with lock files
-- that can all be opened and locked: if the device allows a write at an offset, then writing a value
-- succeeds, and reading the same width there then succeeds and returns the low bits of the value.
pub read_narrow-write :
    {Mem : Type 0} (p : Platform) (files : LockFiles) (m : Mapper Mem) (d : Device) (offset : ℕ)
    (width : Width) (value a : ℕ) (w : World Mem)
    → IsPlatform p
    → IsServing files
    → IsPlain m
    → check_access p d offset width true ≡ ok a
    → (v : World Mem) × (u : World Mem) × (write p files m d offset width value w ≡ (ok tt, v))
      × (read_narrow p files m d width offset v ≡ (ok (value % 2 ^ width_bits width), u))
unfolding read_narrow
read_narrow-write p files m d offset width value a w valid serving plain allowed =
    let s =
      must_succeed p files d offset width true a serving allowed
        (write-cases p files m d valid offset width value w) in
    let v = s.after in
    let t =
      must_succeed p files d offset width false a serving (read_allowed p d offset width a allowed)
        (read-cases p files m d valid offset width v) in
    let value_is : (m.read offset width v.mem).0 ≡ value % 2 ^ width_bits width =
      ap (λ mem. (m.read offset width mem).0) s.mem_is
      ∙ plain.read-write_self offset width value w.mem in
    (
      v,
      t.after,
      s.is,
      bind_ok (read p files m d offset width) (λ x. pure (x % 2 ^ width_bits width)) v t.is
          ∙ ap (λ (x : ℕ). (ok (x % 2 ^ width_bits width), t.after)) value_is
          ∙ ap (λ (x : ℕ). (ok x, t.after)) (mod-mod value (2 ^ width_bits width)),
    )
