-- ===== src/Device/Chain.antt =====
-- The outcome of a chain of calls from the outcome of its first call.
use mmreg.Error.{MmregError}
use mmreg.Prelude.{ok, err, Result, ◌≡◌, refl}
use mmreg.Device.{World, Call, ◌>>=◌}

module _ {Mem A B : Type 0} (m : Call Mem A) (f : A → Call Mem B) (w : World Mem) where
  pub bind_ok : {a : A} {v : World Mem} → m w ≡ (ok a, v) → (m >>= f) w ≡ f a v
  bind_ok h = λ i. elim (h i).0 [ ok a ↦ f a (h i).1 | err e ↦ (err e, (h i).1) ]

  pub bind_err : {e : MmregError} {v : World Mem} → m w ≡ (err e, v) → (m >>= f) w ≡ (err e, v)
  bind_err h = λ i. elim (h i).0 [ ok a ↦ f a (h i).1 | err e ↦ (err e, (h i).1) ]

  pub bind_cong : (m' : Call Mem A) → m w ≡ m' w → (m >>= f) w ≡ (m' >>= f) w
  bind_cong m' h = λ i. elim (h i).0 [ ok a ↦ f a (h i).1 | err e ↦ (err e, (h i).1) ]

outcome_id :
    {Mem A : Type 0} (q : Result MmregError A × World Mem)
    → q ≡ (elim q.0 [ ok a ↦ (ok a, q.1) | err e ↦ (err e, q.1) ])
outcome_id (ok a, v) = refl
outcome_id (err e, v) = refl

pub bind_pure : {Mem A : Type 0} (m : Call Mem A) (w : World Mem) → m w ≡ (m >>= λ a v. (ok a, v)) w
bind_pure m w = outcome_id (m w)
