-- ===== src/Prelude/Results.antt =====
-- Fallible results, as Rust's `Result<A, E>`.
use mathlib.Core.Path.{◌≡◌, refl, sym, ◌∙◌}
use mathlib.Core.Logic.{◌⊎◌, inl, inr}
use mathlib.Core.Bool.{Bool, true, false}
use mmreg.Prelude.Tests.{if◌then◌else◌}
use mathlib.Core.Option.{Option, none, some}

pub data Result (E : Type 0) (A : Type 0) : Type 0 where
  ok : A → Result E A
  err : E → Result E A

infixl 5 ◌>>=◌ ◌>>◌
abbrev pub ◌>>=◌ : {E A B : Type 0} → Result E A → (A → Result E B) → Result E B
err e >>= next = err e
ok v >>= next = next v

-- `ok_or`
abbrev pub ok_or : {E A : Type 0} → Option A → E → Result E A
ok_or none e = err e
ok_or (some a) e = ok a

-- `Option::and_then`
abbrev pub and_then : {A B : Type 0} → Option A → (A → Option B) → Option B
and_then none f = none
and_then (some a) f = f a

-- `if refused { return Err(e); }`
abbrev pub refuse : {E : Type 0} → Bool → E → Result E (Unit {0})
refuse true e = err e
refuse false e = ok tt

abbrev pub ◌>>◌ : {E B : Type 0} → Result E (Unit {0}) → Result E B → Result E B
first >> second = first >>= λ _. second

-- The result is a success.
abbrev pub IsOk : {E A : Type 0} → Result E A → Type 0
IsOk (ok a) = Unit
IsOk (err e) = ⊥

pub >>=-eq-ok :
    {E A B : Type 0} (r : Result E A) (next : A → Result E B) {w : B}
    → (r >>= next) ≡ ok w
    → (v : A) × (r ≡ ok v) × (next v ≡ ok w)
>>=-eq-ok (err e) next h = cc
>>=-eq-ok (ok v) next h = (v, refl, h)

pub and_then-eq-some :
    {A B : Type 0} (o : Option A) (next : A → Option B) {w : B}
    → and_then o next ≡ some w
    → (v : A) × (o ≡ some v) × (next v ≡ some w)
and_then-eq-some none next h = cc
and_then-eq-some (some v) next h = (v, refl, h)

pub Result-cases :
    {E A : Type 0} (r : Result E A) → ((a : A) × (r ≡ ok a)) ⊎ ((e : E) × (r ≡ err e))
Result-cases (ok a) = inl (a, refl)
Result-cases (err e) = inr (e, refl)

pub ok-eq : {E A : Type 0} {a b : A} → ◌≡◌ {A = Result E A} (ok a) (ok b) → a ≡ b
ok-eq h = cc

pub some-eq : {A : Type 0} {a b : A} → ◌≡◌ {A = Option A} (some a) (some b) → a ≡ b
some-eq h = cc

pub none-ne-some : {A : Type 0} {a : A} → ◌≡◌ {A = Option A} none (some a) → ⊥
none-ne-some h = cc

pub err-ne-ok : {E A : Type 0} {e : E} {a : A} → ◌≡◌ {A = Result E A} (err e) (ok a) → ⊥
err-ne-ok h = cc

pub ok_or-eq-ok : {E A : Type 0} (o : Option A) (e : E) {a : A} → ok_or o e ≡ ok a → o ≡ some a
ok_or-eq-ok none e h = cc
ok_or-eq-ok (some a) e h = cc

-- A bind whose first result is known.
pub >>=-at :
    {E A B : Type 0} (m : Result E A) (f : A → Result E B) {a : A} {r : Result E B}
    → m ≡ ok a
    → (m >>= f) ≡ r
    → f a ≡ r
>>=-at m f h k = sym (λ i. h i >>= f) ∙ k

-- An early return that was not taken.
pub unless-ok :
    {E A : Type 0} (b : Bool) (e : E) (k : Result E A) {v : A}
    → (if b then err e else k) ≡ ok v
    → (b ≡ false) × (k ≡ ok v)
unless-ok true e k h = cc
unless-ok false e k h = (refl, h)
