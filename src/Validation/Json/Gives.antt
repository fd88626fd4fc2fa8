-- ===== src/Validation/Json/Gives.antt =====
-- What the readers of JSON in src/validation.rs return when they succeed.
use mmreg.Message.{
  ProfileMessage, IntMessage, invalid_json_number, invalid_token, expected_integer, exceeds_word,
}
use mmreg.Parse.Value.{parse_u64_radix_iff}
use mmreg.Parse.{parse_u64_radix}
use mmreg.Prelude.{
  ℕ, zero, suc, ◌^◌, ◌<◌, Bool, true, false, [], ◌∷◌, Option, none, some, ltb, ◌==◌, if◌then◌else◌,
  Text, length, ◌&&◌, ok, err, Result, err-ne-ok, ok-eq, ◌≡◌, refl, arith, some-eq, some-eq,
  none-ne-some,
}
use mmreg.Strings.{from_str_radix, radix_digits, to_digit, checked_mul, checked_add}
use mmreg.Validation.Json.{
  Outcome, done, failed, out_of_fuel, Parser, pure, fail, continue, ◌>>=◌, ◌>>◌, peek, advance,
  Follows, comma, closed, other, follows, after_item, items, first_is, list_of, expect,
}
use mmreg.Validation.Json.Numbers.{
  give, give_integer, token_value, quoted_u64, bare_u64, span, is_token_byte, NumberStart, quoted,
  bare, neither, number_start, parse_u64, parse_u32,
}
use mmreg.Validation.Json.Quoted.{parse_string}
use mmreg.Validation.Json.Skip.{member, parse_object}

-- If the reading succeeded, its value has a property.
abbrev pub Ensures : {A : Type 0} → (A → Type 0) → Outcome (A × Text) → Type 0
Ensures P (done (a, rest)) = P a
Ensures P (failed e) = Unit
Ensures P out_of_fuel = Unit

abbrev pub Gives : {A : Type 0} → (A → Type 0) → Parser A → Type 0
Gives P p = (t : Text) → Ensures P (p t)

pub Gives-bind :
    {A B : Type 0} (P : A → Type 0) (Q : B → Type 0) (p : Parser A) (f : A → Parser B)
    → Gives P p
    → ((a : A) → P a → Gives Q (f a))
    → Gives Q (p >>= f)
Gives-bind {A} P Q p f h g t = go (p t) (h t)
  where
    go : (o : Outcome (A × Text)) → Ensures P o → Ensures Q (continue o f)
    go (done (a, rest)) e = g a e rest
    go (failed x) e = tt
    go out_of_fuel e = tt

-- A reader of whose value nothing is asked.
pub Gives-any : {A : Type 0} (p : Parser A) → Gives (λ _. Unit {0}) p
Gives-any {A} p t = go (p t)
  where
    go : (o : Outcome (A × Text)) → Ensures (λ _. Unit {0}) o
    go (done (a, rest)) = tt
    go (failed x) = tt
    go out_of_fuel = tt

module _ {S : Type 0} (P : S → Type 0) (close : ℕ) (wrong : ProfileMessage) (item : S → Parser S)
    (keeps : (s : S) → P s → Gives P (item s)) where
  after_item-Gives :
      (again : S → Parser S) (s : S)
      → P s
      → Gives P (again s)
      → (f : Follows) → Gives P (after_item wrong again s f)
  after_item-Gives again s h g comma =
      Gives-bind (λ _. Unit) P advance (λ _. again s) (Gives-any advance) (λ _ _. g)
  after_item-Gives again s h g closed =
      Gives-bind (λ _. Unit) P advance (λ _. pure s) (Gives-any advance) (λ _ _ t. h)
  after_item-Gives again s h g other = λ t. tt

  items-Gives : (fuel : ℕ) (s : S) → P s → Gives P (items close wrong item fuel s)
  unfolding items
  items-Gives zero s h t = tt
  items-Gives (suc fuel) s h t =
      Gives-bind P P (item s)
        (λ s'. peek >>= λ c. after_item wrong (items close wrong item fuel) s' (follows close c))
        (keeps s h)
        (λ s' h'.
          Gives-bind (λ _. Unit) P peek
            (λ c. after_item wrong (items close wrong item fuel) s' (follows close c))
            (Gives-any peek)
            (λ c _.
              after_item-Gives (items close wrong item fuel) s' h' (items-Gives fuel s' h')
                (follows close c)))
        t

  pub list_of-Gives : (s : S) → P s → Gives P (list_of close wrong item s)
  unfolding list_of
  list_of-Gives s h =
      Gives-bind (λ _. Unit) P peek _ (Gives-any peek) (λ c _. go (first_is close c))
    where
      go :
          (b : Bool)
          → Gives P (
              if b then (advance >> pure s) else (λ t. items close wrong item (suc (length t)) s t))
      go true t = Gives-bind (λ _. Unit) P advance (λ _. pure s) (Gives-any advance) (λ _ _ u. h) t
      go false t = items-Gives (suc (length t)) s h t

pub parse_object-Gives :
    {S : Type 0} (P : S → Type 0) (on_field : S → Text → Parser S)
    → ((s : S) (key : Text) → P s → Gives P (on_field s key))
    → (s : S) → P s
    → Gives P (parse_object on_field s)
unfolding parse_object member
parse_object-Gives P on_field keeps s h =
    Gives-bind (λ _. Unit) P (expect b'{') _ (Gives-any (expect b'{'))
      (λ _ _.
        list_of-Gives P b'}' _ (member on_field)
          (λ t g.
            Gives-bind (λ _. Unit) P parse_string _ (Gives-any parse_string)
              (λ key _.
                Gives-bind (λ _. Unit) P (expect b':') _ (Gives-any (expect b':'))
                  (λ _ _. keeps t key g)))
          s h)

checked_add-lt : (a b : ℕ) {w : ℕ} → checked_add a b ≡ some w → w < 2 ^ 64
unfolding checked_add
checked_add-lt a b e = ground arith

-- The result is below 2^64 if that of every later digit is.
digit-lt :
    (radix acc c : ℕ) (cs : Text) {v : ℕ}
    → ((w : ℕ) → w < 2 ^ 64 → radix_digits radix w cs ≡ some v → v < 2 ^ 64)
    → radix_digits radix acc (c ∷ cs) ≡ some v
    → v < 2 ^ 64
unfolding radix_digits
digit-lt radix acc c cs {v} later = go (to_digit c radix)
  where
    add :
        (d w : ℕ) (o : Option ℕ)
        → checked_add w d ≡ o
        → elim o [ none ↦ none | some u ↦ radix_digits radix u cs ] ≡ some v
        → v < 2 ^ 64
    add d w none q e = absurd (none-ne-some e)
    add d w (some u) q e = later u (checked_add-lt w d q) e

    times :
        (d : ℕ) (o : Option ℕ)
        → elim o [
          | none ↦ none
          | some w ↦ elim (checked_add w d) [ none ↦ none | some u ↦ radix_digits radix u cs ]
        ]
          ≡ some v
        → v < 2 ^ 64
    times d none e = absurd (none-ne-some e)
    times d (some w) e = add d w (checked_add w d) refl e

    go :
        (o : Option ℕ)
        → elim o [
          | none ↦ none
          | some d ↦ elim (checked_mul acc radix) [
            | none ↦ none
            | some w ↦ elim (checked_add w d) [ none ↦ none | some u ↦ radix_digits radix u cs ]
          ]
        ]
          ≡ some v
        → v < 2 ^ 64
    go none e = absurd (none-ne-some e)
    go (some d) e = times d (checked_mul acc radix) e

radix_digits-lt :
    (radix acc : ℕ) (t : Text) {v : ℕ}
    → acc < 2 ^ 64
    → radix_digits radix acc t ≡ some v
    → v < 2 ^ 64
unfolding radix_digits
radix_digits-lt radix acc [] h e = omega (arith, some-eq e)
radix_digits-lt radix acc (c ∷ cs) {v} h e =
    digit-lt radix acc c cs (λ w. radix_digits-lt radix w cs) e

-- What a number of the standard library's parser is below.
from_str_radix-lt : (t : Text) (radix : ℕ) {v : ℕ} → from_str_radix t radix ≡ some v → v < 2 ^ 64
unfolding from_str_radix
from_str_radix-lt [] radix e = absurd (none-ne-some e)
from_str_radix-lt (c ∷ []) radix {v} e = ground (arith, radix_digits-lt radix 0 (c ∷ []) {v = v})
from_str_radix-lt (c ∷ d ∷ cs) radix {v} e =
    ground (
      arith,
      radix_digits-lt radix 0 (d ∷ cs) {v = v},
      radix_digits-lt radix 0 (c ∷ d ∷ cs) {v = v},
    )

token_value-lt : (t : Text) → (v : ℕ) → token_value t ≡ ok v → v < 2 ^ 64
token_value-lt t v =
    go (ltb 1 (length t) && elim t [ [] ↦ false | c ∷ cs ↦ c == b'0' ]) (from_str_radix t 10)
      (λ u. from_str_radix-lt t 10)
  where
    go :
        (b : Bool) (o : Option ℕ)
        → ((u : ℕ) → o ≡ some u → u < 2 ^ 64)
        → (if b
            then err (invalid_json_number t)
            else elim o [ some u ↦ ok u | none ↦ err (invalid_token t) ])
          ≡ ok v
        → v < 2 ^ 64
    go true o h e = absurd (err-ne-ok e)
    go false none h e = absurd (err-ne-ok e)
    go false (some u) h e = omega (arith, h u refl, ok-eq e)

Gives-fail : {A : Type 0} (P : A → Type 0) (e : ProfileMessage) → Gives P (fail e)
Gives-fail P e t = tt

bare_u64-Gives : Gives (λ v. v < 2 ^ 64) bare_u64
unfolding bare_u64
bare_u64-Gives t =
    go (token_value (span is_token_byte t).0) (token_value-lt (span is_token_byte t).0)
  where
    go :
        (r : Result ProfileMessage ℕ)
        → ((v : ℕ) → r ≡ ok v → v < 2 ^ 64)
        → Ensures (λ v. v < 2 ^ 64) (give r (span is_token_byte t).1)
    go (ok v) h = h v refl
    go (err e) h = tt

quoted_u64-Gives : (s : Text) → Gives (λ v. v < 2 ^ 64) (quoted_u64 s)
unfolding quoted_u64
quoted_u64-Gives s t =
    go (parse_u64_radix s 10) (λ v e. ((parse_u64_radix_iff s 10 v (omega arith)).0 e).fits)
  where
    go :
        (r : Result IntMessage ℕ)
        → ((v : ℕ) → r ≡ ok v → v < 2 ^ 64)
        → Ensures (λ v. v < 2 ^ 64) (give_integer r t)
    go (ok v) h = h v refl
    go (err e) h = tt

pub parse_u64-Gives : Gives (λ v. v < 2 ^ 64) parse_u64
unfolding parse_u64
parse_u64-Gives =
    Gives-bind (λ _. Unit) (λ v. v < 2 ^ 64) peek
      (λ c. elim (number_start c) [
        | quoted ↦ (parse_string >>= quoted_u64)
        | bare ↦ bare_u64
        | neither ↦ fail expected_integer
      ])
      (Gives-any peek) (λ c _. go (number_start c))
  where
    go :
        (s : NumberStart)
        → Gives
            (λ v. v < 2 ^ 64)
            (elim s [
              | quoted ↦ (parse_string >>= quoted_u64)
              | bare ↦ bare_u64
              | neither ↦ fail expected_integer
            ])
    go quoted =
        Gives-bind (λ _. Unit) _ parse_string quoted_u64 (Gives-any parse_string)
          (λ s _. quoted_u64-Gives s)
    go bare = bare_u64-Gives
    go neither = λ t. tt

pub parse_u32-Gives : Gives (λ v. v < 2 ^ 32) parse_u32
unfolding parse_u32
parse_u32-Gives =
    Gives-bind (λ _. Unit) _ parse_u64 _ (Gives-any parse_u64)
      (λ v _ t. go v t (ltb v (2 ^ 32)) (λ h. ground arith))
  where
    go :
        (v : ℕ) (t : Text) (b : Bool)
        → (b ≡ true → v < 2 ^ 32)
        → Ensures (λ u. u < 2 ^ 32) ((if b then pure v else fail (exceeds_word v)) t)
    go v t true h = h refl
    go v t false h = tt
