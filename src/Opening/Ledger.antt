-- ===== src/Opening/Ledger.antt =====
-- What the log of a window's resources (src/device.rs, `DeviceBuilder::open`) says is still held.
use mmreg.Error.{MmregError}
use mmreg.Opening.Mapping.{call}
use mmreg.Opening.{
  Resource, mapping, power, took, dropped, OpenLog, OpenWorld, Action, ◌>>=◌, lift, on_error,
  Opened,
}
use mmreg.Prelude.{List, [], ◌∷◌, Option, none, some, Text, Result, ok, err}

-- The second log continues the first, and all that it took since then it dropped again, the last
-- thing first.
pub data IsBalanced : OpenLog → OpenLog → Type 0 where
  level : {l : OpenLog} → IsBalanced l l
  bracket :
      {l m n : OpenLog} (r : Resource)
      → IsBalanced l m
      → IsBalanced (took r ∷ m) n
      → IsBalanced l (dropped r ∷ n)

pub IsBalanced-trans : {a b c : OpenLog} → IsBalanced a b → IsBalanced b c → IsBalanced a c
IsBalanced-trans h level = h
IsBalanced-trans h (bracket r g k) = bracket r (IsBalanced-trans h g) k

-- The second log continues the first, and holds the resources besides, the last one first.
pub data Holds (l : OpenLog) : List Resource → OpenLog → Type 0 where
  nothing : {m : OpenLog} → IsBalanced l m → Holds l [] m
  one_more :
      {rs : List Resource} {m n : OpenLog} (r : Resource)
      → Holds l rs m
      → IsBalanced (took r ∷ m) n
      → Holds l (r ∷ rs) n

pub Holds-take :
    {l m : OpenLog} {rs : List Resource} (r : Resource)
    → Holds l rs m
    → Holds l (r ∷ rs) (took r ∷ m)
Holds-take r h = one_more r h level

pub Holds-trans :
    {l m n : OpenLog} {rs : List Resource} → Holds l rs m → IsBalanced m n → Holds l rs n
Holds-trans (nothing h) k = nothing (IsBalanced-trans h k)
Holds-trans (one_more r h g) k = one_more r h (IsBalanced-trans g k)

pub Holds-drop :
    {l n : OpenLog} {rs : List Resource} {r : Resource}
    → Holds l (r ∷ rs) n
    → Holds l rs (dropped r ∷ n)
Holds-drop (one_more r h g) = Holds-trans h (bracket r level g)

pub IsBalanced-of : {l m : OpenLog} → Holds l [] m → IsBalanced l m
IsBalanced-of (nothing h) = h

-- The log after a call, by its result.
unfoldable pub Leaves :
    {Mem A : Type 0}
    → (OpenLog → Type 0)
    → (A → OpenLog → Type 0)
    → Result MmregError A × OpenWorld Mem
    → Type 0
Leaves E P (ok a, w) = P a w.log
Leaves E P (err x, w) = E w.log

pub Leaves-bind :
    {Mem A B : Type 0} (E : OpenLog → Type 0) (P : A → OpenLog → Type 0) (Q : B → OpenLog → Type 0)
    (m : Action Mem A) (f : A → Action Mem B) (w : OpenWorld Mem)
    → Leaves E P (m w)
    → ((a : A) (v : OpenWorld Mem) → P a v.log → Leaves E Q (f a v))
    → Leaves E Q ((m >>= f) w)
unfolding ◌>>=◌ Leaves
Leaves-bind {Mem} {A} {B} E P Q m f w = go (m w)
  where
    go :
        (q : Result MmregError A × OpenWorld Mem)
        → Leaves E P q
        → ((a : A) (v : OpenWorld Mem) → P a v.log → Leaves E Q (f a v))
        → Leaves E Q (elim q.0 as (λ x. Result MmregError B × OpenWorld Mem) [
          | ok a ↦ f a q.1
          | err e ↦ (err e, q.1)
        ])
    go (ok a, v) h g = g a v h
    go (err x, v) h g = h

pub Leaves-on_error :
    {Mem A : Type 0} (E : OpenLog → Type 0) (F : OpenLog → Type 0) (P : A → OpenLog → Type 0)
    (cleanup : OpenWorld Mem → OpenWorld Mem) (m : Action Mem A) (w : OpenWorld Mem)
    → Leaves E P (m w)
    → ((v : OpenWorld Mem) → E v.log → F (cleanup v).log)
    → Leaves F P (on_error cleanup m w)
unfolding on_error Leaves
Leaves-on_error {Mem} {A} E F P cleanup m w = go (m w)
  where
    go :
        (q : Result MmregError A × OpenWorld Mem)
        → Leaves E P q
        → ((v : OpenWorld Mem) → E v.log → F (cleanup v).log)
        → Leaves F P (elim q.0 as (λ x. Result MmregError A × OpenWorld Mem) [
          | ok a ↦ (ok a, q.1)
          | err e ↦ (err e, cleanup q.1)
        ])
    go (ok a, v) h g = h
    go (err x, v) h g = g v h

pub Leaves-done :
    {Mem A : Type 0} (E : OpenLog → Type 0) (P : A → OpenLog → Type 0) (a : A) (w : OpenWorld Mem)
    → P a w.log
    → Leaves E P (ok a, w)
unfolding Leaves
Leaves-done E P a w h = h

pub Leaves-fail :
    {Mem A : Type 0} (E : OpenLog → Type 0) (P : A → OpenLog → Type 0) (x : MmregError)
    (w : OpenWorld Mem)
    → E w.log
    → Leaves E P (err x, w)
unfolding Leaves
Leaves-fail E P x w h = h

-- A result that needs no state.
pub Leaves-lift :
    {Mem A : Type 0} (I : OpenLog → Type 0) (r : Result MmregError A) (w : OpenWorld Mem)
    → I w.log
    → Leaves I (λ (_ : A). I) (lift {Mem = Mem} r w)
unfolding Leaves
Leaves-lift I (ok a) w h = h
Leaves-lift I (err x) w h = h

pub Leaves-call :
    {Mem : Type 0} (I : OpenLog → Type 0) (fails : OpenLog → Option Text)
    (error : Text → MmregError) (w : OpenWorld Mem)
    → I w.log
    → Leaves I (λ (_ : Unit {0}). I) (call {Mem = Mem} fails error w)
unfolding call Leaves
Leaves-call {Mem} I fails error w = go (fails w.log)
  where
    go :
        (o : Option Text)
        → I w.log
        → Leaves {Mem = Mem} {A = Unit {0}} I
            (λ _. I)
            (elim o [ some e ↦ (err (error e), w) | none ↦ (ok tt, w) ])
    go none h = h
    go (some e) h = h

-- What a power guard holds.
abbrev pub guard_list : Option Text → List Resource
guard_list none = []
guard_list (some owner) = power owner ∷ []

-- What a device holds.
abbrev pub resources : Opened → List Resource
resources o = mapping o.backend ∷ guard_list o.guard
