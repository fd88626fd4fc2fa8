-- ===== src/Interface/Field.antt =====
-- Bit fields of registers through src/interface.rs: what a write of a field leaves in the memory.
use native.Mathlib.Nat.{mod-lt, mod-eq_of_lt, one-le-pow}
use mmreg.Bits.{test_bit, shift_left}
use mmreg.Device.Calls.{update_u32-cases}
use mmreg.Device.Chain.{bind_ok, bind_err}
use mmreg.Device.Merge.{merge-lt, field_of, field_of-merged, digit-merged}
use mmreg.Device.{Device, LockFiles, LockKey, Log, World, check_access, merge, pure, update_u32}
use mmreg.Interface.Access.{write_field}
use mmreg.Memory.{Mapper, Platform, IsPlatform, IsPlain, IsZeroExtended, u32}
use mmreg.Prelude.{
  ℕ, ◌-◌, ◌*◌, true, ◌&&◌, leb, if◌then◌else◌, ◌%◌, ◌^◌, ◌<◌, ok, ◌≡◌, inl, inr, sym, ap, ◌∙◌,
  arith, ok-eq, err-ne-ok, none, none-ne-some,
}
use mmreg.Register.Mask.{IsRange, field_width, mask-lt}
use mmreg.Register.{SubRegister, Register, mask}

module _ {Mem : Type 0} (p : Platform) (files : LockFiles) (m : Mapper Mem) (d : Device)
    (valid : IsPlatform p) (r : Register) (s : SubRegister) (value : ℕ) (w : World Mem) where
  -- The word of the register in a memory.
  abbrev pub word_in : Mem → ℕ
  word_in mem = (m.read r.offset u32 mem).0

  -- The word that the write of the field computes.
  abbrev written : ℕ
  written = merge (word_in w.mem % 2 ^ 32) (mask s) (shift_left 32 value s.lsb)

  write_field-done :
      (r' : Register) (w' : World Mem)
      → write_field p files m d (mask s) s.lsb value r w ≡ (ok r', w')
      → (r' ≡ record r { raw = written })
        × (w'.mem ≡ m.write r.offset u32 written (m.read r.offset u32 w.mem).1)
  unfolding write_field
  write_field-done r' w' h =
      elim (update_u32-cases p files m d valid r.offset (mask s) (shift_left 32 value s.lsb) w) [
        | inl f ↦
            let failed =
              bind_err (update_u32 p files m d r.offset (mask s) (shift_left 32 value s.lsb))
                (λ updated. pure (record r { raw = updated })) w f.is in
            absurd (err-ne-ok (ap (λ q. q.0) (sym failed ∙ h)))
        | inr t ↦
            let worked =
              bind_ok (update_u32 p files m d r.offset (mask s) (shift_left 32 value s.lsb))
                (λ updated. pure (record r { raw = updated })) w t.is in
            let same = sym worked ∙ h in
            (
              sym (ok-eq (ap (λ q. q.0) same)),
              ap (λ (q : World Mem). q.mem) (sym (ap (λ q. q.1) same)) ∙ t.mem_is,
            )
      ]

-- Over a mapper of plain memory whose reads are zero-extended, on a platform with valid page and
-- `usize` widths: when a field of a valid range, up to all 32 bits, has been written, the register's
-- word in the memory has the low bits of the value in that field, each other bit is as it was, and
-- the word is the value that the register records.
pub write_field-round_trip :
    {Mem : Type 0} (p : Platform) (files : LockFiles) (m : Mapper Mem) (d : Device)
    (r r' : Register) (s : SubRegister) (value : ℕ) (w w' : World Mem)
    → IsPlatform p
    → IsPlain m
    → IsZeroExtended m
    → IsRange s
    → write_field p files m d (mask s) s.lsb value r w ≡ (ok r', w')
    → (field_of s (m.read r.offset u32 w'.mem).0 ≡ value % 2 ^ field_width s)
      × ((i : ℕ)
          → test_bit i (m.read r.offset u32 w'.mem).0 ≡ (
              if leb s.lsb i && leb i s.msb
              then test_bit (i - s.lsb) value
              else test_bit i (m.read r.offset u32 w.mem).0))
      × (r'.raw ≡ (m.read r.offset u32 w'.mem).0)
write_field-round_trip p files m d r r' s value w w' valid plain extended v h =
    let old = (m.read r.offset u32 w.mem).0 in
    let low : old % 2 ^ 32 ≡ old = mod-eq_of_lt (extended.read-lt r.offset u32 w.mem) in
    let cut : old % 2 ^ 32 < 2 ^ 32 = mod-lt old (one-le-pow 32 2 (omega arith)) in
    let new = merge (old % 2 ^ 32) (mask s) (shift_left 32 value s.lsb) in
    let small : new < 2 ^ 32 =
      merge-lt (old % 2 ^ 32) (mask s) (shift_left 32 value s.lsb) cut (mask-lt s v)
        (mod-lt (value * 2 ^ s.lsb) (one-le-pow 32 2 (omega arith))) in
    let (raw_is, mem_is) = write_field-done p files m d valid r s value w r' w' h in
    let word : (m.read r.offset u32 w'.mem).0 ≡ new =
      ap (λ mem. (m.read r.offset u32 mem).0) mem_is
      ∙ plain.read-write_self r.offset u32 new (m.read r.offset u32 w.mem).1
      ∙ mod-eq_of_lt small in
    (
      ap (field_of s) word ∙ field_of-merged s v (old % 2 ^ 32) value cut,
      λ i.
          ap (test_bit i) word
          ∙ digit-merged s v (old % 2 ^ 32) value cut i
          ∙ ap
              (λ (t : ℕ).
                if leb s.lsb i && leb i s.msb then test_bit (i - s.lsb) value else test_bit i t)
              low,
      ap (λ (x : Register). x.raw) raw_is ∙ sym word,
    )

-- On a platform with valid page and `usize` widths, with lock files that can all be opened and
-- locked: if the device allows a 32-bit write at the register, writing a field of it succeeds.
pub write_field-succeeds :
    {Mem : Type 0} (p : Platform) (files : LockFiles) (m : Mapper Mem) (d : Device) (r : Register)
    (mask lsb value a : ℕ) (w : World Mem)
    → IsPlatform p
    → ((l : Log) (k : LockKey) → files.acquire_error l k ≡ none)
    → ((l : Log) (b : ℕ) → files.open_error l b ≡ none)
    → check_access p d r.offset u32 true ≡ ok a
    → (r' : Register) × (w' : World Mem) × (write_field p files m d mask lsb value r w
        ≡ (ok r', w'))
unfolding write_field
write_field-succeeds p files m d r mask lsb value a w valid locks opens allowed =
    elim (update_u32-cases p files m d valid r.offset mask (shift_left 32 value lsb) w) [
      | inl f ↦ elim f.cause [
        | inl refused ↦ absurd (err-ne-ok (sym refused ∙ allowed))
        | inr (inl (l, k, e)) ↦ absurd (none-ne-some (sym (locks l k) ∙ e))
        | inr (inr (l, b, e)) ↦ absurd (none-ne-some (sym (opens l b) ∙ e))
      ]
      | inr t ↦ (
        _,
        _,
        bind_ok (update_u32 p files m d r.offset mask (shift_left 32 value lsb))
            (λ updated. pure (record r { raw = updated })) w t.is,
      )
    ]
