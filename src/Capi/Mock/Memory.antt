-- ===== src/Capi/Mock/Memory.antt =====
-- The mock of the C interface is plain memory within its window (bindings/c/src/lib.rs).
use mmreg.Capi.Mock.{le_bytes, from_le_bytes, overwrite, mock_read, mock_write}
use mmreg.Memory.{Width, u8, u16, u32, u64, width_bytes, width_bits, Apart}
use mmreg.Preflight.{take, drop}
use mmreg.Prelude.{
  ℕ, zero, suc, ◌+◌, ◌/◌, ◌%◌, ◌^◌, ◌≤◌, true, List, [], ◌∷◌, leb, if◌then◌else◌, length, ◌≡◌, inl,
  inr, refl, ap, ◌∙◌, arith,
}

length-put : (a : ℕ) (bs mem : List ℕ) → length (overwrite a bs mem) ≡ length mem
unfolding overwrite
length-put zero [] mem = refl
length-put zero (b ∷ bs) [] = refl
length-put zero (b ∷ bs) (x ∷ mem) = ap suc (length-put zero bs mem)
length-put (suc a) bs [] = refl
length-put (suc a) bs (x ∷ mem) = ap suc (length-put a bs mem)

length-le_bytes : (n v : ℕ) → length (le_bytes n v) ≡ n
unfolding le_bytes
length-le_bytes zero v = refl
length-le_bytes (suc n) v = ap suc (length-le_bytes n (v / 256))

-- What was overwrite is there.
take-put :
    (a n : ℕ) (bs mem : List ℕ)
    → length bs ≡ n
    → a + n ≤ length mem
    → take n (drop a (overwrite a bs mem)) ≡ bs
unfolding overwrite take drop
take-put zero zero [] mem e h = refl
take-put zero zero (b ∷ bs) mem e h = absurd (omega arith)
take-put zero (suc n) [] mem e h = absurd (omega arith)
take-put zero (suc n) (b ∷ bs) [] e h = absurd (omega arith)
take-put zero (suc n) (b ∷ bs) (x ∷ mem) e h =
    ap (λ t. b ∷ t) (take-put zero n bs mem (omega arith) (omega arith))
take-put (suc a) n bs [] e h = absurd (omega arith)
take-put (suc a) n bs (x ∷ mem) e h = take-put a n bs mem e (omega arith)

-- Bytes before, and bytes after what was overwrite.
take-before : (n a : ℕ) (bs mem : List ℕ) → n ≤ a → take n (overwrite a bs mem) ≡ take n mem
unfolding overwrite take
take-before zero a bs mem h = refl
take-before (suc n) zero bs mem h = absurd (omega arith)
take-before (suc n) (suc a) bs [] h = refl
take-before (suc n) (suc a) bs (x ∷ mem) h = ap (λ t. x ∷ t) (take-before n a bs mem (omega arith))

take-drop_before :
    (b n a : ℕ) (bs mem : List ℕ)
    → b + n ≤ a
    → take n (drop b (overwrite a bs mem)) ≡ take n (drop b mem)
unfolding overwrite drop
take-drop_before zero n a bs mem h = take-before n a bs mem (omega arith)
take-drop_before (suc b) n zero bs mem h = absurd (omega arith)
take-drop_before (suc b) n (suc a) bs [] h = refl
take-drop_before (suc b) n (suc a) bs (x ∷ mem) h = take-drop_before b n a bs mem (omega arith)

drop-after :
    (b a : ℕ) (bs mem : List ℕ) → a + length bs ≤ b → drop b (overwrite a bs mem) ≡ drop b mem
unfolding overwrite drop
drop-after b zero [] mem h = refl
drop-after zero zero (x ∷ bs) mem h = absurd (omega arith)
drop-after (suc b) zero (x ∷ bs) [] h = refl
drop-after (suc b) zero (x ∷ bs) (y ∷ mem) h = drop-after b zero bs mem (omega arith)
drop-after zero (suc a) bs mem h = absurd (omega arith)
drop-after (suc b) (suc a) bs [] h = refl
drop-after (suc b) (suc a) bs (y ∷ mem) h = drop-after b a bs mem (omega arith)

-- The first bytes of a number, read back.
from_le_bytes-le_bytes :
    (w : Width) (v : ℕ) → from_le_bytes (le_bytes (width_bytes w) v) ≡ v % 2 ^ width_bits w
unfolding from_le_bytes le_bytes
from_le_bytes-le_bytes u8 v = omega arith
from_le_bytes-le_bytes u16 v = omega arith
from_le_bytes-le_bytes u32 v = omega arith
from_le_bytes-le_bytes u64 v = omega arith

-- Of a write of the mock within its memory: the memory keeps its length, a read at the same place
-- and width gives the value cut to the width, and a read that touches no common byte gives what it
-- gave before.
pub mock_write-IsPlain :
    (a b : ℕ) (v w : Width) (x : ℕ) (mem : List ℕ)
    → a + width_bytes v ≤ length mem
    → (length (mock_write a v x mem) ≡ length mem)
      × (mock_read a v (mock_write a v x mem) ≡ x % 2 ^ width_bits v)
      × (Apart a v b w → mock_read b w (mock_write a v x mem) ≡ mock_read b w mem)
unfolding mock_read mock_write
mock_write-IsPlain a b v w x mem h =
    let inside : leb (a + width_bytes v) (length mem) ≡ true = ground arith in
    let bytes = le_bytes (width_bytes v) x in
    let size = length-put a bytes mem in
    rw inside (
      size,
      rw (size, inside)
          (ap from_le_bytes
              (take-put a (width_bytes v) bytes mem (length-le_bytes (width_bytes v) x) h)
            ∙ from_le_bytes-le_bytes v x),
      λ apart. rw size (
          ap (λ t. if leb (b + width_bytes w) (length mem) then from_le_bytes t else 0)
            (untouched apart)),
    )
  where
    untouched :
        Apart a v b w
        → take (width_bytes w) (drop b (overwrite a (le_bytes (width_bytes v) x) mem))
          ≡ take (width_bytes w) (drop b mem)
    untouched (inl after) = ap (take (width_bytes w)) (
        drop-after b a (le_bytes (width_bytes v) x) mem
          (omega (arith, length-le_bytes (width_bytes v) x)))
    untouched (inr before) =
        take-drop_before b (width_bytes w) a (le_bytes (width_bytes v) x) mem before
