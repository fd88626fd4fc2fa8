-- ===== src/Preflight/Checks/Passing.antt =====
-- Rules for the checks of src/memcheck.rs that pass (`preflight_check_device`).
use mathlib.Core.Path.{subst}
use mmreg.Error.{MmregError}
use mmreg.Preflight.Checks.{for_each, for_entries}
use mmreg.Preflight.{FileSystem}
use mmreg.Prelude.{
  Bool, true, false, List, [], ◌∷◌, Option, none, some, if◌then◌else◌, Text, Result, ok, err, ◌>>=◌,
  ◌>>◌, All, ◌≡◌, ◌↔◌, refl, sym, ◌∙◌, some-eq, none-ne-some, err-ne-ok,
}

-- A result that is a success.
abbrev pub Passes : {A : Type 0} → Result MmregError A → Type 0
Passes {A} r = (a : A) × (r ≡ ok a)

module _ (fs : FileSystem) where
  -- What holds of the text of a file, if it can be read.
  abbrev pub IfReadable : Text → (Text → Type 0) → Type 0
  IfReadable path P = (raw : Text) → fs.read_to_string path ≡ some raw → P raw

  -- What holds of each entry of a directory, if it can be read.
  abbrev pub OfEntries : Text → (Text → Type 0) → Type 0
  OfEntries dir P = (names : List Text) → fs.read_dir dir ≡ some names → All P names

  pub Passes-then :
      {A P Q : Type 0} (r : Result MmregError (Unit {0})) (s : Result MmregError A)
      → (Passes r ↔ P)
      → (Passes s ↔ Q)
      → Passes (r >> s) ↔ (P × Q)
  Passes-then (ok tt) s f g = (λ h. (f.0 (tt, refl), g.0 h), λ (p, q). g.1 q)
  Passes-then (err e) s f g =
      (λ (a, h). absurd (err-ne-ok h), λ (p, q). let (a, h) = f.1 p in absurd (err-ne-ok h))

  pub IfReadable-iff :
      {R : Type 0} {P Q : Text → Type 0} (path : Text)
      → R ↔ IfReadable path P
      → ((raw : Text) → P raw ↔ Q raw)
      → R ↔ IfReadable path Q
  IfReadable-iff path f g =
      (λ r raw h. (g raw).0 (f.0 r raw h), λ q. f.1 (λ raw h. (g raw).1 (q raw h)))

  -- A check of the text of a file.
  pub file_check :
      (path : Text) (test : Text → Bool) (e : Text → MmregError)
      → Passes (elim (fs.read_to_string path) [
        | none ↦ ok tt
        | some raw ↦ if test raw then ok tt else err (e raw)
      ])
        ↔ IfReadable path (λ raw. test raw ≡ true)
  file_check path test e = go (fs.read_to_string path) refl
    where
      judged :
          (raw : Text) (b : Bool)
          → test raw ≡ b
          → Passes {A = Unit {0}} (if b then ok tt else err (e raw)) ↔ (test raw ≡ true)
      judged raw true h = (λ _. h, λ _. (tt, refl))
      judged raw false h = (λ (a, k). absurd (err-ne-ok k), λ k. cc)

      go :
          (o : Option Text)
          → fs.read_to_string path ≡ o
          → Passes (elim o [ none ↦ ok tt | some raw ↦ if test raw then ok tt else err (e raw) ])
            ↔ IfReadable path (λ raw. test raw ≡ true)
      go none h = (λ _ raw k. absurd (none-ne-some (sym h ∙ k)), λ _. (tt, refl))
      go (some raw) h =
          let here = judged raw (test raw) refl in
          (
            λ p other k. subst (λ t. test t ≡ true) (some-eq (sym h ∙ k)) (here.0 p),
            λ p. here.1 (p raw h),
          )

  pub guarded :
      {P : Type 0} (b : Bool) (r : Result MmregError (Unit {0}))
      → (Passes r ↔ P)
      → Passes (if b then r else ok tt) ↔ (b ≡ true → P)
  guarded true r f = (λ p _. f.0 p, λ p. f.1 (p refl))
  guarded false r f = (λ p h. cc, λ p. (tt, refl))

  pub for_each-All :
      (dev_name : Text) (f : Text → Result MmregError (Unit {0})) (P : Text → Type 0)
      → ((name : Text) → Passes (f name) ↔ P name)
      → (names : List Text) → Passes (for_each fs dev_name f names) ↔ All P names
  unfolding for_each
  for_each-All dev_name f P each [] = (λ _. tt, λ _. (tt, refl))
  for_each-All dev_name f P each (name ∷ names) =
      Passes-then (f name) (for_each fs dev_name f names) (each name)
        (for_each-All dev_name f P each names)

  pub for_entries-OfEntries :
      (dev_name dir : Text) (f : Text → Result MmregError (Unit {0})) (P : Text → Type 0)
      → ((name : Text) → Passes (f name) ↔ P name)
      → Passes (for_entries fs dev_name dir f) ↔ OfEntries dir P
  unfolding for_entries
  for_entries-OfEntries dev_name dir f P each = go (fs.read_dir dir) refl
    where
      go :
          (o : Option (List Text))
          → fs.read_dir dir ≡ o
          → Passes (elim o [ none ↦ ok tt | some names ↦ for_each fs dev_name f names ])
            ↔ OfEntries dir P
      go none h = (λ _ names k. absurd (none-ne-some (sym h ∙ k)), λ _. (tt, refl))
      go (some names) h =
          let here = for_each-All dev_name f P each names in
          (
            λ p other k. subst (λ t. All P t) (some-eq (sym h ∙ k)) (here.0 p),
            λ p. here.1 (p names h),
          )

  pub Passes-keep :
      {P Q : Type 0} (r : Result MmregError (List Text)) (s : Result MmregError (Unit {0}))
      → (Passes r ↔ P)
      → (Passes s ↔ Q)
      → Passes (r >>= λ more. s >> ok more) ↔ (P × Q)
  Passes-keep (ok w) (ok tt) f g = (λ _. (f.0 (w, refl), g.0 (tt, refl)), λ _. (w, refl))
  Passes-keep (ok w) (err e) f g =
      (λ (a, h). absurd (err-ne-ok h), λ (p, q). let (a, h) = g.1 q in absurd (err-ne-ok h))
  Passes-keep (err e) s f g =
      (λ (a, h). absurd (err-ne-ok h), λ (p, q). let (a, h) = f.1 p in absurd (err-ne-ok h))
