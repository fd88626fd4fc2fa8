-- ===== src/Iomem.antt =====
-- The list of physical memory in /proc/iomem: src/memcheck.rs (`parse_iomem`, `iomem_entry`,
-- `starts_with_ignore_case`). A file is its lines, as `read_line` returns them.
pub mod Leaves
use mmreg.Error.{MmregError, blueprint_system_ram}
use mmreg.Prelude.{
  ℕ, zero, suc, ◌+◌, ◌-◌, ◌^◌, max, Bool, true, false, not, ◌&&◌, ◌||◌, List, [], ◌∷◌, Option, none,
  some, ltb, leb, ◌==◌, if◌then◌else◌, Text, codes, Result, ok, err, ◌>>=◌, and_then,
}
use mmreg.Strings.{trim, split_once, from_str_radix, to_lower}

-- `start-end : resource`, with the indentation of its line.
pub record Entry : Type 0 where
  pub indent : ℕ
  pub first : ℕ
  pub last : ℕ
  pub resource : Text

-- `line.len() - line.trim_start_matches(' ').len()`.
unfoldable pub indent_of : Text → ℕ
indent_of [] = 0
indent_of (c ∷ cs) = let rest = indent_of cs in if c == b' ' then suc rest else 0

-- `iomem_entry`.
unfoldable pub iomem_entry : Text → Option Entry
iomem_entry line = and_then (split_once (codes " : ") line) λ (range, resource).
    and_then (split_once (codes "-") (trim range)) λ (start, end).
      and_then (from_str_radix start 16) λ first. and_then (from_str_radix end 16) λ last.
        some
          (record { indent = indent_of line; first = first; last = last; resource = trim resource })

-- `.filter(|&(_, end, _)| end != 0)`: other readers than root see zeros.
unfoldable pub usable_entry : Text → Option Entry
usable_entry line = and_then (iomem_entry line) λ e. if e.last == 0 then none else some e

-- `starts_with_ignore_case`, of a prefix in ASCII.
unfoldable pub starts_with_ignore_case : Text → Text → Bool
starts_with_ignore_case t [] = true
starts_with_ignore_case [] (p ∷ ps) = false
starts_with_ignore_case (c ∷ cs) (p ∷ ps) =
    to_lower c == to_lower p && starts_with_ignore_case cs ps

-- `RESTRICTED_IOMEM`.
abbrev pub restricted_iomem : List Text
restricted_iomem =
    codes "system ram"
    ∷ codes "kernel "
    ∷ codes "crash kernel"
    ∷ codes "reserved"
    ∷ codes "acpi "
    ∷ []

unfoldable pub any_prefix : Text → List Text → Bool
any_prefix resource [] = false
any_prefix resource (p ∷ ps) = starts_with_ignore_case resource p || any_prefix resource ps

-- The variables of the loop.
pub record Progress : Type 0 where
  pub listed : Bool
  pub pending_cover : Option ℕ

module _ (target size last : ℕ) where
  unfoldable pub is_restricted : Entry → Bool
  is_restricted e = leb target e.last && leb e.first last && any_prefix e.resource restricted_iomem

  unfoldable pub covers : Entry → Bool
  covers e = leb e.first target && leb last e.last

  -- An entry after one that covers the range: that one is a leaf unless this one is inside it.
  unfoldable pub settle : Entry → Progress → Progress
  settle e s = elim s.pending_cover [
    | none ↦ s
    | some prev_indent ↦ record {
      listed = if leb e.indent prev_indent then true else s.listed;
      pending_cover = none;
    }
  ]

  -- What the loop does with an entry.
  unfoldable pub visit : Entry → Progress → Result MmregError Progress
  unfolding settle is_restricted covers
  visit e s =
      let settled = settle e s in
      if is_restricted e
      then err (blueprint_system_ram target size e.resource)
      else ok (if covers e then record settled { pending_cover = some e.indent } else settled)

  -- The loop, and the end of the function.
  unfoldable pub read_lines : Progress → List Text → Result MmregError Bool
  unfolding usable_entry visit
  read_lines s [] = elim s.pending_cover [ none ↦ ok s.listed | some i ↦ ok true ]
  read_lines s (line ∷ lines) = elim (usable_entry line) [
    | none ↦ read_lines s lines
    | some e ↦ (visit e s >>= λ next. read_lines next lines)
  ]

-- `parse_iomem`.
unfoldable pub parse_iomem : List Text → ℕ → ℕ → Result MmregError Bool
unfolding read_lines
parse_iomem lines target size =
    let last = target + (max size 1 - 1) in
    if ltb last (2 ^ 64)
    then read_lines target size last (record { listed = false; pending_cover = none }) lines
    else ok false
