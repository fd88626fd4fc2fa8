-- ===== src/Validation/Json.antt =====
-- The reader of JSON in src/validation.rs (`json::Parser`): white space, single bytes, and the loops
-- over members and elements. The state is the input that is left, as scalar values: all bytes that
-- the reader acts on are ASCII, and other characters are consumed whole.
pub mod Quoted
pub mod Numbers
pub mod Skip
pub mod Within
pub mod Readers
pub mod Gives
use mmreg.Message.{ProfileMessage, expected_byte, end_expected}
use mmreg.Prelude.{
  ℕ, zero, suc, Bool, true, false, ◌||◌, List, [], ◌∷◌, Option, none, some, ◌==◌, if◌then◌else◌,
  Text, length,
}
use mmreg.Strings.{encode_utf8}

-- The outcome of reading. `out_of_fuel` has no counterpart in the code.
pub data Outcome (A : Type 0) : Type 0 where
  done : A → Outcome A
  failed : ProfileMessage → Outcome A
  out_of_fuel : Outcome A

-- Reads an `A` from the front of the input that is left.
abbrev pub Parser : Type 0 → Type 0
Parser A = Text → Outcome (A × Text)

abbrev pub pure : {A : Type 0} → A → Parser A
pure a t = done (a, t)

abbrev pub fail : {A : Type 0} → ProfileMessage → Parser A
fail e t = failed e

abbrev pub continue : {A B : Type 0} → Outcome (A × Text) → (A → Parser B) → Outcome (B × Text)
continue (done (a, rest)) f = f a rest
continue (failed e) f = failed e
continue out_of_fuel f = out_of_fuel

infixl 5 ◌>>=◌ ◌>>◌
abbrev pub ◌>>=◌ : {A B : Type 0} → Parser A → (A → Parser B) → Parser B
◌>>=◌ p f t = continue (p t) f

abbrev pub ◌>>◌ : {A B : Type 0} → Parser A → Parser B → Parser B
p >> q = p >>= λ _. q

abbrev pub is_space : ℕ → Bool
is_space c = c == b' ' || c == 9 || c == 10 || c == 13

-- `skip_ws`.
unfoldable pub skip_ws : Text → Text
skip_ws [] = []
skip_ws (c ∷ cs) = let rest = skip_ws cs in if is_space c then rest else c ∷ cs

abbrev pub first_of : Text → Option ℕ
first_of [] = none
first_of (c ∷ cs) = some c

-- `peek`: white space is skipped, the character stays.
unfoldable pub peek : Parser (Option ℕ)
unfolding skip_ws
peek t = let rest = skip_ws t in done (first_of rest, rest)

-- `self.pos += 1` after a `peek` that found a character.
abbrev pub advance : Parser (Unit {0})
advance [] = done (tt, [])
advance (c ∷ cs) = done (tt, cs)

-- The byte at which a character starts.
abbrev pub lead_byte : ℕ → ℕ
lead_byte c = elim (encode_utf8 c) [ [] ↦ c | b ∷ bs ↦ b ]

-- A byte of the input, or the error that tells what was found.
abbrev pub expect_first : ℕ → Parser (Unit {0})
expect_first expected [] = failed (end_expected expected)
expect_first expected (c ∷ cs) =
    if c == expected then done (tt, cs) else failed (expected_byte expected (lead_byte c))

-- `expect`.
unfoldable pub expect : ℕ → Parser (Unit {0})
unfolding skip_ws
expect expected t = expect_first expected (skip_ws t)

-- What follows an item of a list.
pub data Follows : Type 0 where
  comma closed other : Follows

abbrev pub follows : ℕ → Option ℕ → Follows
follows close none = other
follows close (some c) = if c == b',' then comma else if c == close then closed else other

-- What follows an item decides: the next item, the end, or an error.
abbrev pub after_item : {S : Type 0} → ProfileMessage → (S → Parser S) → S → Follows → Parser S
after_item wrong again s comma = advance >> again s
after_item wrong again s closed = advance >> pure s
after_item wrong again s other = fail wrong

-- The loops of `skip_value`, `parse_object` and `parse_profile`: an item, then a comma and the next
-- item, or the closing byte.
unfoldable pub items : {S : Type 0} → ℕ → ProfileMessage → (S → Parser S) → ℕ → S → Parser S
unfolding peek
items close wrong item zero s t = out_of_fuel
items close wrong item (suc fuel) s t =
    continue (item s t)
      λ s'. peek >>= λ c. after_item wrong (items close wrong item fuel) s' (follows close c)

abbrev pub first_is : ℕ → Option ℕ → Bool
first_is close none = false
first_is close (some c) = c == close

-- Such a list after its opening byte; it may be empty. Each item takes input, so that the length of
-- the input is fuel enough.
unfoldable pub list_of : {S : Type 0} → ℕ → ProfileMessage → (S → Parser S) → S → Parser S
unfolding peek items
list_of close wrong item s = peek >>= λ c.
    if first_is close c
    then (advance >> pure s)
    else (λ t. items close wrong item (suc (length t)) s t)
