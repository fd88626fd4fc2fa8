-- ===== src/Preflight/Cells.antt =====
-- Device Tree `reg` properties: src/memcheck.rs (`read_dt_cells`, `read_be_cells`, `reg_covers`,
-- `reg_file_covers`, `find_owning_device`). A property is its bytes.
pub mod Encoded
use mmreg.Preflight.{FileSystem, join, parent, any, find, take, drop}
use mmreg.Opening.Resolve.{Owner}
use mmreg.Prelude.{
  ℕ, zero, suc, ◌+◌, ◌*◌, ◌/◌, ◌%◌, ◌-◌, ◌^◌, min, max, bit_or, Bool, true, false, ◌&&◌, List, [],
  ◌∷◌, Option, none, some, length, ltb, leb, ◌==◌, if◌then◌else◌, Text, codes, and_then,
}
use mmreg.Strings.{checked_add}
use mmreg.Bits.{shift_left}

-- `u32::from_be_bytes`.
abbrev pub from_be_bytes : ℕ → ℕ → ℕ → ℕ → ℕ
from_be_bytes a b c d = ((a * 256 + b) * 256 + c) * 256 + d

unfoldable pub first_word : List ℕ → Option ℕ
first_word (a ∷ b ∷ c ∷ d ∷ rest) = some (from_be_bytes a b c d)
first_word _ = none

-- `read_dt_cells`.
unfoldable pub read_dt_cells : FileSystem → Text → Option ℕ
unfolding first_word
read_dt_cells fs path = and_then (fs.read path) λ bytes.
    and_then (first_word bytes) λ cells. if leb 1 cells && leb cells 4 then some cells else none

-- `chunks_exact(4)`, read as words.
unfoldable pub words : List ℕ → List ℕ
words (a ∷ b ∷ c ∷ d ∷ rest) = from_be_bytes a b c d ∷ words rest
words _ = []

-- One step of the fold over the words.
unfoldable pub push_word : ℕ → ℕ → ℕ
push_word acc w = bit_or (shift_left 64 acc 32) w

unfoldable pub fold_words : ℕ → List ℕ → ℕ
fold_words acc [] = acc
fold_words acc (w ∷ ws) = fold_words (push_word acc w) ws

-- `read_be_cells`.
unfoldable pub read_be_cells : List ℕ → ℕ
unfolding words fold_words push_word
read_be_cells bytes = fold_words 0 (words bytes)

-- The first chunks of a size.
unfoldable pub chunks : ℕ → ℕ → List ℕ → List (List ℕ)
unfolding take drop
chunks zero size xs = []
chunks (suc n) size xs = take size xs ∷ chunks n size (drop size xs)

-- `chunks_exact`.
unfoldable pub chunks_exact : ℕ → List ℕ → List (List ℕ)
unfolding chunks
chunks_exact size xs = chunks (length xs / size) size xs

-- An entry of `addr_cells` address cells covers the bytes from `target` up to `end`.
unfoldable pub entry_covers : ℕ → ℕ → ℕ → List ℕ → Bool
unfolding read_be_cells take drop
entry_covers target end addr_cells e =
    let start = read_be_cells (take (addr_cells * 4) e) in
    let len = read_be_cells (drop (addr_cells * 4) e) in
    ltb 0 len && leb start target && leb end (min (start + len) (2 ^ 64 - 1))

unfoldable pub layout_covers : List ℕ → ℕ → ℕ → ℕ × ℕ → Bool
unfolding chunks_exact entry_covers any
layout_covers buf target end (addr_cells, size_cells) =
    let entry = (addr_cells + size_cells) * 4 in
    length buf % entry == 0 && any (entry_covers target end addr_cells) (chunks_exact entry buf)

-- The layouts to try.
unfoldable pub layouts : Option (ℕ × ℕ) → List (ℕ × ℕ)
layouts (some c) = c ∷ []
layouts none = (2, 2) ∷ (1, 1) ∷ (2, 1) ∷ []

-- `reg_covers`.
unfoldable pub reg_covers : List ℕ → ℕ → ℕ → Option (ℕ × ℕ) → Bool
unfolding checked_add layouts layout_covers any
reg_covers buf target size cells = elim (checked_add target (max size 1)) [
  | none ↦ false
  | some end ↦ any (layout_covers buf target end) (layouts cells)
]

-- The cell sizes that the parent of a node declares.
unfoldable pub cells_of : FileSystem → Text → Option (ℕ × ℕ)
unfolding read_dt_cells parent join
cells_of fs of_node = and_then (fs.canonicalize of_node) λ node. and_then (parent node) λ above.
    and_then (read_dt_cells fs (join above (codes "#address-cells")))
      λ a. and_then (read_dt_cells fs (join above (codes "#size-cells"))) λ s. some (a, s)

-- `reg_file_covers`.
unfoldable pub reg_file_covers : FileSystem → Text → ℕ → ℕ → Bool
unfolding reg_covers cells_of parent
reg_file_covers fs reg_path target size = elim (fs.read reg_path) [
  | none ↦ false
  | some buf ↦ reg_covers buf target size (and_then (parent reg_path) (cells_of fs))
]

abbrev pub reg_of : Text → Text → Text
reg_of devices name = join (join devices name) (codes "of_node/reg")

abbrev pub owner_at : Text → Text → Owner
owner_at devices name = record { name = name; path = join devices name }

abbrev pub owner_named : Text → Option Text → Option Owner
owner_named devices none = none
owner_named devices (some name) = some (owner_at devices name)

-- `find_owning_device`.
unfoldable pub find_owning_device : FileSystem → Text → ℕ → ℕ → Option Owner
unfolding reg_file_covers join find
find_owning_device fs devices target size = elim (fs.read_dir devices) [
  | none ↦ none
  | some names ↦
      owner_named devices
        (find (λ name. reg_file_covers fs (reg_of devices name) target size) names)
]
