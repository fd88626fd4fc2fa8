-- ===== src/Error/Format.antt =====
-- What the messages of src/error.rs are made with: numbers as `{}`, `{:X}` and `{:08X}` print them,
-- and `join`.
use mmreg.Prelude.{
  ℕ, zero, suc, ◌+◌, ◌-◌, ◌/◌, ◌%◌, Bool, List, [], ◌∷◌, ◌++◌, Option, none, some, ltb,
  if◌then◌else◌, ◌==◌, Text, codes,
}
use mmreg.Strings.{strip_prefix}

abbrev digit : ℕ → ℕ
digit d = if ltb d 10 then b'0' + d else b'A' + d - 10

-- The digits of a number, so many at most.
unfoldable pub digits : ℕ → ℕ → ℕ → Text
digits base zero v = []
digits base (suc n) v =
    let rest = digits base n (v / base) in
    if ltb v base then digit v ∷ [] else rest ++ digit (v % base) ∷ []

-- The digits of a number, so many exactly.
unfoldable pub fixed_digits : ℕ → ℕ → Text
fixed_digits zero v = []
fixed_digits (suc n) v = fixed_digits n (v / 16) ++ digit (v % 16) ∷ []

-- `{}` and `{:X}`, of 64 bits.
unfoldable pub decimal : ℕ → Text
unfolding digits
decimal v = digits 10 20 v

unfoldable pub hex : ℕ → Text
unfolding digits
hex v = digits 16 16 v

-- `{:08X}`, of 32 bits.
unfoldable pub hex_word : ℕ → Text
unfolding fixed_digits
hex_word v = fixed_digits 8 v

-- `join(", ")`.
unfoldable pub join_names : List Text → Text
join_names [] = []
join_names (t ∷ []) = t
join_names (t ∷ u ∷ us) = t ++ codes ", " ++ join_names (u ∷ us)

-- `Path::starts_with("/dev")`: the path or one below it.
abbrev pub is_under : Option Text → Bool
is_under none = Bool.false
is_under (some []) = Bool.true
is_under (some (c ∷ cs)) = c == b'/'

unfoldable pub lock_remedy : Text → Text
unfolding strip_prefix
lock_remedy lock_path =
    if is_under (strip_prefix (codes "/dev") lock_path)
    then codes "Give the user read access to the UIO device (udev rule or group membership)."
    else codes
        "Check permissions on the lock file or pre-create the lock directory (`sudo mkdir -m 1777 -p /run/lock/mmreg`)."
