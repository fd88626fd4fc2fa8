-- ===== src/Validation/Json/Within.antt =====
-- The reader of JSON (src/validation.rs) never runs out of fuel and never lengthens its input.
use mmreg.Message.{ProfileMessage}
use mmreg.Prelude.{
  ℕ, zero, suc, ◌≤◌, ◌<◌, Bool, true, false, [], ◌∷◌, some, ◌==◌, if◌then◌else◌, Text, length,
  arith,
}
use mmreg.Validation.Json.{
  Outcome, done, failed, out_of_fuel, Parser, pure, continue, ◌>>=◌, skip_ws, is_space, first_of,
  peek, advance, expect, expect_first, Follows, follows, comma, closed, other, after_item, first_is,
  items, list_of,
}

-- The reading ended, and if it succeeded it left at most `n` characters.
abbrev pub IsWithin : {A : Type 0} → ℕ → Outcome (A × Text) → Type 0
IsWithin n (done (a, rest)) = length rest ≤ n
IsWithin n (failed e) = Unit
IsWithin n out_of_fuel = ⊥

-- A reader that keeps to its input, whatever that is.
abbrev pub IsReader : {A : Type 0} → Parser A → Type 0
IsReader p = (t : Text) → IsWithin (length t) (p t)

pub IsWithin-continue :
    {A B : Type 0} (n k : ℕ) (m : Outcome (A × Text)) (f : A → Parser B)
    → IsWithin n m
    → ((a : A) (rest : Text) → length rest ≤ n → IsWithin k (f a rest))
    → IsWithin k (continue m f)
IsWithin-continue n k (done (a, rest)) f h g = g a rest h
IsWithin-continue n k (failed e) f h g = tt
IsWithin-continue n k out_of_fuel f h g = elim h [ ]

pub IsWithin-le :
    {A : Type 0} (n k : ℕ) (m : Outcome (A × Text)) → n ≤ k → IsWithin n m → IsWithin k m
IsWithin-le n k (done (a, rest)) le h = omega arith
IsWithin-le n k (failed e) le h = tt
IsWithin-le n k out_of_fuel le h = elim h [ ]

pub IsWithin-if :
    {A : Type 0} (n : ℕ) (b : Bool) (x y : Outcome (A × Text))
    → IsWithin n x
    → IsWithin n y
    → IsWithin n (if b then x else y)
IsWithin-if n true x y h g = h
IsWithin-if n false x y h g = g

pub IsReader-bind :
    {A B : Type 0} (p : Parser A) (f : A → Parser B)
    → IsReader p
    → ((a : A) → IsReader (f a))
    → IsReader (p >>= f)
IsReader-bind p f h g t =
    IsWithin-continue (length t) (length t) (p t) f (h t)
      (λ a rest le. IsWithin-le (length rest) (length t) (f a rest) le (g a rest))

pub IsReader-pure : {A : Type 0} (a : A) → IsReader (pure a)
IsReader-pure a t = omega arith

pub IsReader-if :
    {A : Type 0} (b : Bool) (p q : Parser A)
    → IsReader p
    → IsReader q
    → IsReader (if b then p else q)
IsReader-if true p q h g = h
IsReader-if false p q h g = g

pub length-skip_ws : (t : Text) → length (skip_ws t) ≤ length t
unfolding skip_ws
length-skip_ws [] = omega arith
length-skip_ws (c ∷ cs) =
    elim (is_space c) as (λ b. length (if b then skip_ws cs else c ∷ cs) ≤ suc (length cs)) [
      | true ↦ omega (arith, length-skip_ws cs)
      | false ↦ omega arith
    ]

pub peek-IsReader : IsReader peek
unfolding peek
peek-IsReader t = length-skip_ws t

pub advance-IsReader : IsReader advance
advance-IsReader [] = omega arith
advance-IsReader (c ∷ cs) = omega arith

pub expect-IsReader : (e : ℕ) → IsReader (expect e)
unfolding expect
expect-IsReader e t = first (skip_ws t) (length-skip_ws t)
  where
    first : (s : Text) → length s ≤ length t → IsWithin (length t) (expect_first e s)
    first [] h = tt
    first (c ∷ cs) h = IsWithin-if (length t) (c == e) _ _ (omega arith) tt

module _ {S : Type 0} (close : ℕ) (wrong : ProfileMessage) (item : S → Parser S)
    (reads : (s : S) → IsReader (item s)) where
  after_item-IsWithin :
      (again : S → Parser S) (n : ℕ) (s : S) (u : Text)
      → length u ≤ n
      → ((v : Text) → length v < length u → IsWithin (length v) (again s v))
      → IsWithin n (after_item wrong again s (follows close (first_of u)) u)
  after_item-IsWithin again n s [] le rest = tt
  after_item-IsWithin again n s (c ∷ cs) le rest = decide (follows close (some c))
    where
      decide : (f : Follows) → IsWithin n (after_item wrong again s f (c ∷ cs))
      decide comma = IsWithin-le (length cs) n (again s cs) (omega arith) (rest cs (omega arith))
      decide closed = omega arith
      decide other = tt

  pub items-IsWithin :
      (fuel : ℕ) (s : S) (t : Text)
      → length t < fuel
      → IsWithin (length t) (items close wrong item fuel s t)
  unfolding items peek
  items-IsWithin zero s t h = absurd (omega arith)
  items-IsWithin (suc fuel) s t h =
      IsWithin-continue (length t) (length t) (item s t) _ (reads s t) (λ s' rest le.
        after_item-IsWithin (items close wrong item fuel) (length t) s' (skip_ws rest)
          (omega (arith, length-skip_ws rest))
          (λ v less. items-IsWithin fuel s' v (omega (arith, length-skip_ws rest))))

  pub list_of-IsReader : (s : S) → IsReader (list_of close wrong item s)
  unfolding list_of
  list_of-IsReader s = IsReader-bind peek _ peek-IsReader (λ c.
      IsReader-if (first_is close c) _ _
        (IsReader-bind advance (λ _. pure s) advance-IsReader (λ _. IsReader-pure s))
        (λ t. items-IsWithin (suc (length t)) s t (omega arith)))
