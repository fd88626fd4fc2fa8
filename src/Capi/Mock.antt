-- ===== src/Capi/Mock.antt =====
-- The in-memory mapper of the C interface: bindings/c/src/lib.rs, `CapiMockMapper`. Its memory is
-- the bytes of the vector.
pub mod Memory
use mmreg.Error.{MmregError, out_of_bounds_access}
use mmreg.Memory.{Width, width_bytes, Mapper}
use mmreg.Preflight.{take, drop}
use mmreg.Prelude.{
  ℕ, zero, suc, ◌+◌, ◌-◌, ◌*◌, ◌/◌, ◌%◌, ◌^◌, Bool, true, false, List, [], ◌∷◌, ◌++◌, ltb, leb,
  if◌then◌else◌, length, codes, Result, ok, err,
}

-- `MOCK_MAX_SIZE`.
abbrev pub mock_max_size : ℕ
mock_max_size = 16 * 2 ^ 20

unfoldable pub zeros : ℕ → List ℕ
zeros zero = []
zeros (suc n) = 0 ∷ zeros n

-- `CapiMockMapper::map`: the memory grows to the size of the window.
unfoldable pub mock_map : ℕ → List ℕ → Result MmregError (List ℕ)
unfolding zeros
mock_map size mem =
    if ltb mock_max_size size
    then err (out_of_bounds_access (codes "MMREG_O_MOCK") 0 size mock_max_size)
    else ok (mem ++ zeros (size - length mem))

-- `to_le_bytes`, the first bytes, and `from_le_bytes`.
unfoldable pub le_bytes : ℕ → ℕ → List ℕ
le_bytes zero v = []
le_bytes (suc n) v = (v % 256) ∷ le_bytes n (v / 256)

unfoldable pub from_le_bytes : List ℕ → ℕ
from_le_bytes [] = 0
from_le_bytes (b ∷ bs) = b + 256 * from_le_bytes bs

-- `copy_from_slice` at an offset.
unfoldable pub overwrite : ℕ → List ℕ → List ℕ → List ℕ
overwrite zero [] mem = mem
overwrite zero (b ∷ bs) [] = []
overwrite zero (b ∷ bs) (x ∷ mem) = b ∷ overwrite zero bs mem
overwrite (suc offset) bs [] = []
overwrite (suc offset) bs (x ∷ mem) = x ∷ overwrite offset bs mem

-- `CapiMockMapper::read`: 0 beyond the end.
unfoldable pub mock_read : ℕ → Width → List ℕ → ℕ
unfolding take drop from_le_bytes
mock_read offset width mem =
    if leb (offset + width_bytes width) (length mem)
    then from_le_bytes (take (width_bytes width) (drop offset mem))
    else 0

-- `CapiMockMapper::write`: nothing beyond the end.
unfoldable pub mock_write : ℕ → Width → ℕ → List ℕ → List ℕ
unfolding overwrite le_bytes
mock_write offset width value mem =
    if leb (offset + width_bytes width) (length mem)
    then overwrite offset (le_bytes (width_bytes width) value) mem
    else mem

abbrev pub mock_mapper : Mapper (List ℕ)
mock_mapper = record {
  read = λ offset width mem. (mock_read offset width mem, mem);
  write = mock_write;
}
