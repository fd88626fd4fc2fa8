-- ===== src/Preflight.antt =====
-- What src/memcheck.rs looks up in sysfs, debugfs and the Device Tree before a range is mapped: the
-- file system it reads, and the operations of Rust's `Path` that it calls, on texts. A path has no
-- empty, `.` or `..` components.
pub mod Cells
pub mod Clocks
pub mod Checks
pub mod Search
use mathlib.Core.List.{reverse}
use mmreg.Prelude.{
  ℕ, zero, suc, Bool, true, false, not, ◌||◌, ◌&&◌, List, [], ◌∷◌, ◌++◌, Option, none, some, ◌==◌,
  if◌then◌else◌, Text, text_eq, codes,
}
use mmreg.Strings.{strip_prefix, to_lower}

-- A file system that does not change while it is read. File names are UTF-8.
pub record FileSystem : Type 0 where
  -- `fs::read`
  pub read : Text → Option (List ℕ)
  -- `fs::read_to_string`
  pub read_to_string : Text → Option Text
  -- the lines of a file that can be opened, as `read_line` returns them
  pub lines : Text → Option (List Text)
  -- the names of the entries of a directory that can be read, in its order
  pub read_dir : Text → Option (List Text)
  -- `fs::canonicalize`
  pub canonicalize : Text → Option Text
  pub exists : Text → Bool

-- A path that a `/` is put after before another is appended.
unfoldable pub needs_separator : Text → Bool
needs_separator [] = false
needs_separator (c ∷ []) = not (c == b'/')
needs_separator (c ∷ d ∷ p) = needs_separator (d ∷ p)

unfoldable pub append_path : Text → Text → Text
unfolding needs_separator
append_path p q = if needs_separator p then p ++ codes "/" ++ q else p ++ q

-- `Path::join`: an absolute path replaces the first.
unfoldable pub join : Text → Text → Text
unfolding append_path
join p [] = append_path p []
join p (c ∷ cs) = if c == b'/' then c ∷ cs else append_path p (c ∷ cs)

-- The part before the first `/`, and what follows it.
unfoldable pub cut_slash : Text → Text × Option Text
cut_slash [] = ([], none)
cut_slash (c ∷ cs) =
    let rest = cut_slash cs in if c == b'/' then ([], some cs) else (c ∷ rest.0, rest.1)

-- `Path::file_name`.
unfoldable pub file_name : Text → Option Text
unfolding cut_slash
file_name p = elim (reverse (cut_slash (reverse p)).0) [ [] ↦ none | c ∷ cs ↦ some (c ∷ cs) ]

-- `Path::parent`.
unfoldable pub parent : Text → Option Text
unfolding cut_slash
parent [] = none
parent (c ∷ []) = if c == b'/' then none else some []
parent (c ∷ d ∷ p) = elim (cut_slash (reverse (c ∷ d ∷ p))).1 [
  | none ↦ some []
  | some [] ↦ some (codes "/")
  | some (e ∷ above) ↦ some (reverse (e ∷ above))
]

-- The texts between `/`.
unfoldable pub components : Text → List Text
components [] = [] ∷ []
components (c ∷ cs) =
    let rest = components cs in
    if c == b'/'
    then [] ∷ rest
    else elim rest [ [] ↦ (c ∷ []) ∷ [] | first ∷ others ↦ (c ∷ first) ∷ others ]

-- `any` of an iterator.
unfoldable pub any {ℓ} : {A : Type ℓ} → (A → Bool) → List A → Bool
any p [] = false
any p (x ∷ xs) = p x || any p xs

-- `find` of an iterator.
unfoldable pub find {ℓ} : {A : Type ℓ} → (A → Bool) → List A → Option A
find p [] = none
find p (x ∷ xs) = let rest = find p xs in if p x then some x else rest

-- `eq_ignore_ascii_case`.
unfoldable pub eq_ignore_case : Text → Text → Bool
eq_ignore_case [] [] = true
eq_ignore_case (a ∷ as') (b ∷ bs) = to_lower a == to_lower b && eq_ignore_case as' bs
eq_ignore_case _ _ = false

-- `starts_with`.
unfoldable pub starts_with : Text → Text → Bool
starts_with t prefix = elim (strip_prefix prefix t) [ some rest ↦ true | none ↦ false ]

-- `contains` of a text in a text.
unfoldable pub contains_text : Text → Text → Bool
contains_text [] u = starts_with [] u
contains_text (c ∷ cs) u = starts_with (c ∷ cs) u || contains_text cs u

unfoldable pub take {ℓ} : {A : Type ℓ} → ℕ → List A → List A
take zero xs = []
take (suc n) [] = []
take (suc n) (x ∷ xs) = x ∷ take n xs

unfoldable pub drop {ℓ} : {A : Type ℓ} → ℕ → List A → List A
drop zero xs = xs
drop (suc n) [] = []
drop (suc n) (x ∷ xs) = drop n xs
