-- ===== src/Validation/Execute.antt =====
-- When the checks of a safety profile (src/validation.rs) pass, and what a failure reports.
use mathlib.Core.Path.{subst}
use mmreg.Error.{MmregError, validation_hook_failed}
use mmreg.Prelude.{
  ℕ, List, [], ◌∷◌, ◌++◌, ◌==◌, Bool-cases, Text, Result, ok, err, bit_and, ◌≡◌, ◌≢◌, ◌↔◌, ◌⊎◌, inl,
  inr, refl, ap, ◌∙◌, arith,
}
use mmreg.Validation.{ValidationCheck, SafetyProfile, Reader, run_check, run_checks, execute_with}

-- The state in which the checks left are run, after those of a list have passed.
pub data Passes {S : Type 0} (read_fn : Reader S) : S → List ValidationCheck → S → Type 0 where
  none_left : {s : S} → Passes read_fn s [] s
  passed :
      {s t u : S} {c : ValidationCheck} {cs : List ValidationCheck} (actual : ℕ)
      → read_fn c.addr s ≡ (ok actual, t)
      → bit_and actual c.mask ≡ bit_and c.expected c.mask
      → Passes read_fn t cs u
      → Passes read_fn s (c ∷ cs) u

-- A check that stops the run: its register cannot be read, or its masked bits differ.
pub record Stops {S : Type 0} (read_fn : Reader S) (profile_name : Text) (s : S)
    (checks : List ValidationCheck) (e : MmregError) (t : S) : Type 0 where
  pub before : List ValidationCheck
  pub check : ValidationCheck
  pub after : List ValidationCheck
  pub split : checks ≡ before ++ (check ∷ after)
  pub at : S
  pub passes : Passes read_fn s before at
  pub reason :
      (read_fn check.addr at ≡ (err e, t))
      ⊎ ((actual : ℕ) × (read_fn check.addr at ≡ (ok actual, t))
          × (bit_and actual check.mask ≢ bit_and check.expected check.mask)
          × (e
              ≡ validation_hook_failed profile_name check.name check.addr check.mask check.expected
                  actual))

run_check-pass :
    (name : Text) (c : ValidationCheck) (actual : ℕ)
    → bit_and actual c.mask ≡ bit_and c.expected c.mask
    → run_check name c actual ≡ ok tt
unfolding run_check
run_check-pass name c actual h = ground arith

run_check-cases :
    (name : Text) (c : ValidationCheck) (actual : ℕ)
    → ((bit_and actual c.mask ≡ bit_and c.expected c.mask) × (run_check name c actual ≡ ok tt))
      ⊎ ((bit_and actual c.mask ≢ bit_and c.expected c.mask)
          × (run_check name c actual
              ≡ err (validation_hook_failed name c.name c.addr c.mask c.expected actual)))
unfolding run_check
run_check-cases name c actual =
    elim (Bool-cases (bit_and actual c.mask == bit_and c.expected c.mask)) [
      | inl same ↦ inl (ground arith, rw (same, run_check))
      | inr other ↦ inr (ground arith, rw (other, run_check))
    ]

Stops-here :
    {S : Type 0} {read_fn : Reader S} {name : Text} (s t : S) (c : ValidationCheck)
    (cs : List ValidationCheck) (e : MmregError)
    → ((read_fn c.addr s ≡ (err e, t))
        ⊎ ((actual : ℕ) × (read_fn c.addr s ≡ (ok actual, t))
            × (bit_and actual c.mask ≢ bit_and c.expected c.mask)
            × (e ≡ validation_hook_failed name c.name c.addr c.mask c.expected actual)))
    → Stops read_fn name s (c ∷ cs) e t
Stops-here s t c cs e why = record {
  before = [];
  check = c;
  after = cs;
  split = refl;
  at = s;
  passes = none_left;
  reason = why;
}

module _ {S : Type 0} (read_fn : Reader S) (name : Text) where
  after_read :
      (s : S) (c : ValidationCheck) (cs : List ValidationCheck) (r : Result MmregError ℕ) (t : S)
      → read_fn c.addr s ≡ (r, t)
      → run_checks read_fn name (c ∷ cs) s ≡ (elim r [
        | ok actual ↦ elim (run_check name c actual) [
          | ok _ ↦ run_checks read_fn name cs t
          | err e ↦ (err e, t)
        ]
        | err e ↦ (err e, t)
      ])
  unfolding run_checks
  after_read s c cs r t h = λ i. elim (h i).0 [
    | ok actual ↦ elim (run_check name c actual) [
      | ok _ ↦ run_checks read_fn name cs (h i).1
      | err e ↦ (err e, (h i).1)
    ]
    | err e ↦ (err e, (h i).1)
  ]

  -- The outcome of a run, described by its checks.
  abbrev Outcome : S → List ValidationCheck → Result MmregError (Unit {0}) × S → Type 0
  Outcome s cs (ok _, t) = Passes read_fn s cs t
  Outcome s cs (err e, t) = Stops read_fn name s cs e t

  run_checks-Outcome :
      (cs : List ValidationCheck) (s : S) → Outcome s cs (run_checks read_fn name cs s)
  unfolding run_checks
  run_checks-Outcome [] s = none_left
  run_checks-Outcome (c ∷ cs) s = first (run_checks-Outcome cs) (read_fn c.addr s) refl
    where
      later :
          (t : S) (actual : ℕ)
          → read_fn c.addr s ≡ (ok actual, t)
          → bit_and actual c.mask ≡ bit_and c.expected c.mask
          → (q : Result MmregError (Unit {0}) × S) → Outcome t cs q
          → Outcome s (c ∷ cs) q
      later t actual e same (ok _, u) p = passed actual e same p
      later t actual e same (err x, u) p = record {
        before = c ∷ p.before;
        check = p.check;
        after = p.after;
        split = ap (λ l. c ∷ l) p.split;
        at = p.at;
        passes = passed actual e same p.passes;
        reason = p.reason;
      }

      first :
          ((t : S) → Outcome t cs (run_checks read_fn name cs t))
          → (q : Result MmregError ℕ × S) → read_fn c.addr s ≡ q
          → Outcome s (c ∷ cs) (elim q.0 [
            | ok actual ↦ elim (run_check name c actual) [
              | ok _ ↦ run_checks read_fn name cs q.1
              | err e ↦ (err e, q.1)
            ]
            | err e ↦ (err e, q.1)
          ])
      first ih (ok actual, t) e = elim (run_check-cases name c actual) [
        | inl (same, r) ↦ rw r (later t actual e same (run_checks read_fn name cs t) (ih t))
        | inr (other, r) ↦ rw r (Stops-here s t c cs _ (inr (actual, e, other, refl)))
      ]
      first ih (err x, t) e = Stops-here s t c cs x (inl e)

  run_checks_of-Passes :
      {s t : S} {cs : List ValidationCheck}
      → Passes read_fn s cs t
      → run_checks read_fn name cs s ≡ (ok tt, t)
  unfolding run_checks
  run_checks_of-Passes none_left = refl
  run_checks_of-Passes (passed {s} {t} {u} {c} {cs} actual e same p) =
      after_read s c cs (ok actual) t e
      ∙ ap (λ q. elim q [ ok _ ↦ run_checks read_fn name cs t | err x ↦ (err x, t) ])
          (run_check-pass name c actual same)
      ∙ run_checks_of-Passes p

-- The run succeeds exactly if every check passes, in order, from the state that the one before
-- left; it ends in the state that the last one left.
pub execute_with_iff :
    {S : Type 0} (profile : SafetyProfile) (read_fn : Reader S) (s t : S)
    → (execute_with profile read_fn s ≡ (ok tt, t)) ↔ Passes read_fn s profile.checks t
unfolding execute_with
execute_with_iff profile read_fn s t = (
  λ h.
      subst (Outcome read_fn profile.name s profile.checks) h
        (run_checks-Outcome read_fn profile.name profile.checks s),
  λ p. run_checks_of-Passes read_fn profile.name p,
)

-- A run that fails stops at a check that does not pass: those before it have passed, and either its
-- register could not be read, with the reader's error, or its masked bits differ, and the error
-- names the check. The state is the one that its read left, so later registers are not read.
pub execute_with-Stops :
    {S : Type 0} (profile : SafetyProfile) (read_fn : Reader S) (s t : S) (e : MmregError)
    → execute_with profile read_fn s ≡ (err e, t)
    → Stops read_fn profile.name s profile.checks e t
unfolding execute_with
execute_with-Stops profile read_fn s t e h =
    subst (Outcome read_fn profile.name s profile.checks) h
      (run_checks-Outcome read_fn profile.name profile.checks s)

-- A reader that keeps a property of its state.
pub run_checks-keeps :
    {S : Type 0} (P : S → Type 0) (read_fn : Reader S) (name : Text)
    → ((a : ℕ) (s : S) → P s → P (read_fn a s).1)
    → (cs : List ValidationCheck) (s : S) → P s
    → P (run_checks read_fn name cs s).1
unfolding run_checks
run_checks-keeps P read_fn name keeps [] s h = h
run_checks-keeps {S} P read_fn name keeps (c ∷ cs) s h =
    go (read_fn c.addr s).0 (keeps c.addr s h)
      (run_checks-keeps P read_fn name keeps cs (read_fn c.addr s).1 (keeps c.addr s h))
  where
    go :
        (r : Result MmregError ℕ)
        → P (read_fn c.addr s).1
        → P (run_checks read_fn name cs (read_fn c.addr s).1).1
        → P
            (elim r as (λ x. Result MmregError (Unit {0}) × S) [
              | ok actual ↦ elim (run_check name c actual) [
                | ok _ ↦ run_checks read_fn name cs (read_fn c.addr s).1
                | err e ↦ (err e, (read_fn c.addr s).1)
              ]
              | err e ↦ (err e, (read_fn c.addr s).1)
            ]).1
    go (err e) now later = now
    go (ok actual) now later = test (run_check name c actual)
      where
        test :
            (t : Result MmregError (Unit {0}))
            → P
                (elim t as (λ x. Result MmregError (Unit {0}) × S) [
                  | ok _ ↦ run_checks read_fn name cs (read_fn c.addr s).1
                  | err e ↦ (err e, (read_fn c.addr s).1)
                ]).1
        test (ok _) = later
        test (err e) = now
