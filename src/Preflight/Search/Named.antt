-- ===== src/Preflight/Search/Named.antt =====
-- Finding a UIO device by its name (src/memcheck.rs, `find_uio_by_name`).
use mathlib.Core.Path.{subst}
use mmreg.Preflight.Search.{
  text_leb, insert, sort, uio_name, matches_of, available_of, searched, only_device,
  find_uio_by_name, or_else,
}
use mmreg.Preflight.{FileSystem, join}
use mmreg.Prelude.{
  ◌+◌, false, List, [], ◌∷◌, Option, none, some, if◌then◌else◌, Text, text_eq, text_eq_iff, length,
  ok, ◌≡◌, ◌≢◌, ◌⊎◌, ◌↔◌, inl, inr, refl, sym, ap, ◌∙◌, arith, some-eq, ok-eq, none-ne-some,
  err-ne-ok, Bool-cases,
}
use mmreg.Strings.{trim}

length-insert : (t : Text) (us : List Text) → length (insert t us) ≡ length us + 1
unfolding insert
length-insert t [] = omega arith
length-insert t (u ∷ us) = elim (Bool-cases (text_leb t u)) [
  | inl below ↦ rw below (omega arith)
  | inr above ↦ rw above (omega (arith, length-insert t us))
]

length-sort : (ts : List Text) → length (sort ts) ≡ length ts
unfolding sort
length-sort [] = refl
length-sort (t ∷ ts) = length-insert t (sort ts) ∙ omega (arith, length-sort ts)

-- A sorted list of one text is that text.
sort-single : (ts : List Text) (d : Text) → sort ts ≡ d ∷ [] → ts ≡ d ∷ []
sort-single [] d h = absurd (omega (arith, length-sort [], ap length h))
sort-single (t ∷ []) d h = unfold sort insert in h
sort-single (t ∷ u ∷ ts) d h = absurd (omega (arith, length-sort (t ∷ u ∷ ts), ap length h))

module _ (fs : FileSystem) (sysfs_uio dev_root target : Text) where
  abbrev pub IsNamed : Text → Type 0
  IsNamed entry = uio_name fs sysfs_uio entry ≡ some target

  abbrev pub NoneNamed : List Text → Type 0
  NoneNamed [] = Unit
  NoneNamed (entry ∷ entries) = (IsNamed entry → ⊥) × NoneNamed entries

  -- One entry has the name, and no other.
  abbrev pub OnlyNamed : Text → List Text → Type 0
  OnlyNamed e [] = ⊥
  OnlyNamed e (entry ∷ entries) =
      (IsNamed entry × (entry ≡ e) × NoneNamed entries)
      ⊎ ((IsNamed entry → ⊥) × OnlyNamed e entries)

  matches_of-step :
      (entry : Text) (entries : List Text)
      → (IsNamed entry
          × (matches_of fs sysfs_uio dev_root target (entry ∷ entries)
              ≡ join dev_root entry ∷ matches_of fs sysfs_uio dev_root target entries))
        ⊎ ((IsNamed entry → ⊥)
            × (matches_of fs sysfs_uio dev_root target (entry ∷ entries)
                ≡ matches_of fs sysfs_uio dev_root target entries))
  unfolding matches_of
  matches_of-step entry entries = go (uio_name fs sysfs_uio entry) refl
    where
      rest : List Text
      rest = matches_of fs sysfs_uio dev_root target entries

      add : Option Text → List Text
      add o = elim o [
        | none ↦ rest
        | some found ↦ if text_eq found target then join dev_root entry ∷ rest else rest
      ]

      go :
          (o : Option Text)
          → uio_name fs sysfs_uio entry ≡ o
          → (IsNamed entry × (add o ≡ join dev_root entry ∷ rest))
            ⊎ ((IsNamed entry → ⊥) × (add o ≡ rest))
      go none h = inr (λ k. none-ne-some (sym h ∙ k), refl)
      go (some found) h = elim (Bool-cases (text_eq found target)) [
        | inl same ↦ inl (
          h ∙ ap some ((text_eq_iff found target).0 same),
          ap (λ b. if b then join dev_root entry ∷ rest else rest) same,
        )
        | inr other ↦ inr (
          λ k. differ found other (some-eq (sym h ∙ k)),
          ap (λ b. if b then join dev_root entry ∷ rest else rest) other,
        )
      ]
        where
          differ : (t : Text) → text_eq t target ≡ false → t ≡ target → ⊥
          differ t h k = cc (h, (text_eq_iff t target).1 k)

  matches_of-NoneNamed :
      (entries : List Text)
      → (matches_of fs sysfs_uio dev_root target entries ≡ []) ↔ NoneNamed entries
  matches_of-NoneNamed [] = unfold matches_of in (λ _. tt, λ _. refl)
  matches_of-NoneNamed (entry ∷ entries) =
      go (matches_of-step entry entries) (matches_of-NoneNamed entries)
    where
      rest : List Text
      rest = matches_of fs sysfs_uio dev_root target entries

      go :
          {l : List Text}
          → (IsNamed entry × (l ≡ join dev_root entry ∷ rest)) ⊎ ((IsNamed entry → ⊥) × (l ≡ rest))
          → (rest ≡ []) ↔ NoneNamed entries
          → (l ≡ []) ↔ NoneNamed (entry ∷ entries)
      go (inl (named, e)) ih = (λ h. cc (h, e), λ n. absurd (n.0 named))
      go (inr (other, e)) ih = (λ h. (other, ih.0 (sym e ∙ h)), λ n. e ∙ ih.1 n.1)

  matches_of-OnlyNamed :
      (device : Text) (entries : List Text)
      → (matches_of fs sysfs_uio dev_root target entries ≡ device ∷ [])
        ↔ ((e : Text) × OnlyNamed e entries × (device ≡ join dev_root e))
  matches_of-OnlyNamed device [] = unfold matches_of in (λ h. cc, λ (e, only, _). absurd only)
  matches_of-OnlyNamed device (entry ∷ entries) =
      go (matches_of-step entry entries) (matches_of-NoneNamed entries)
        (matches_of-OnlyNamed device entries)
    where
      rest : List Text
      rest = matches_of fs sysfs_uio dev_root target entries

      go :
          {l : List Text}
          → (IsNamed entry × (l ≡ join dev_root entry ∷ rest)) ⊎ ((IsNamed entry → ⊥) × (l ≡ rest))
          → (rest ≡ []) ↔ NoneNamed entries
          → (rest ≡ device ∷ []) ↔ ((e : Text) × OnlyNamed e entries × (device ≡ join dev_root e))
          → (l ≡ device ∷ [])
            ↔ ((e : Text) × OnlyNamed e (entry ∷ entries) × (device ≡ join dev_root e))
      go (inl (named, e)) alone ih = (
        λ h. (entry, inl (named, refl, alone.0 (cc (h, e))), cc (h, e)),
        λ (x, only, place). elim only [
          | inl (_, same, none_left) ↦ cc (e, same, place, alone.1 none_left)
          | inr (other, _) ↦ absurd (other named)
        ],
      )
      go (inr (other, e)) alone ih = (
        λ h. let (x, only, place) = ih.0 (sym e ∙ h) in (x, inr (other, only), place),
        λ (x, only, place). elim only [
          | inl (named, _, _) ↦ absurd (other named)
          | inr (_, later) ↦ e ∙ ih.1 (x, later, place)
        ],
      )

chosen-single :
    (fs : FileSystem) (name : Text) (available devices : List Text) (device : Text)
    → (only_device fs name available devices ≡ ok device) ↔ (devices ≡ device ∷ [])
chosen-single fs name available [] device = (λ h. absurd (err-ne-ok h), λ h. cc)
chosen-single fs name available (d ∷ []) device = (λ h. ap (λ t. t ∷ []) (ok-eq h), λ h. cc)
chosen-single fs name available (a ∷ b ∷ ds) device = (λ h. absurd (err-ne-ok h), λ h. cc)

sort-of_single : (ts : List Text) (d : Text) → ts ≡ d ∷ [] → sort ts ≡ d ∷ []
sort-of_single ts d h = ap sort h ∙ unfold sort insert in refl

-- A device is found by its name exactly if the trimmed name is not blank, the directory can be read,
-- and one entry of it, and no other, has that name; the device is that entry's node.
pub find_uio_by_name_iff :
    (fs : FileSystem) (sysfs_uio dev_root name device : Text)
    → (find_uio_by_name fs sysfs_uio dev_root name ≡ ok device) ↔ (
        (trim name ≢ [])
        × (entries : List Text) × (fs.read_dir sysfs_uio ≡ some entries)
        × (e : Text) × OnlyNamed fs sysfs_uio dev_root (trim name) e entries
        × (device ≡ join dev_root e))
unfolding find_uio_by_name searched
find_uio_by_name_iff fs sysfs_uio dev_root name device =
    let entries = searched fs sysfs_uio (trim name) in
    let found = matches_of fs sysfs_uio dev_root (trim name) entries in
    let picked =
      chosen-single fs name (sort (available_of fs sysfs_uio [] entries)) (sort found) device in
    let only = matches_of-OnlyNamed fs sysfs_uio dev_root (trim name) device entries in
    looked_at (trim name) (
      λ h. only.0 (sort-single found device (picked.0 h)),
      λ h. picked.1 (sort-of_single found device (only.1 h)),
    )
  where
    Found : Text → List Text → Type 0
    Found target entries =
        (e : Text) × OnlyNamed fs sysfs_uio dev_root target e entries × (device ≡ join dev_root e)

    readable :
        {R : Type 0} (target : Text) (o : Option (List Text))
        → fs.read_dir sysfs_uio ≡ o
        → target ≢ []
        → R ↔ Found target (or_else o [])
        → R ↔ (
            (target ≢ [])
            × (entries : List Text) × (fs.read_dir sysfs_uio ≡ some entries)
            × (e : Text) × OnlyNamed fs sysfs_uio dev_root target e entries
            × (device ≡ join dev_root e))
    readable target none h ne f = (λ r. absurd (f.0 r).1, λ x. absurd (none-ne-some (sym h ∙ x.2)))
    readable target (some entries) h ne f = (
      λ r. let (e, only, place) = f.0 r in (ne, entries, h, e, only, place),
      λ (_, other, k, e, only, place).
          f.1
            (e, subst (OnlyNamed fs sysfs_uio dev_root target e) (some-eq (sym k ∙ h)) only, place),
    )

    looked_at :
        {R : Type 0} (target : Text)
        → R ↔ Found target (searched fs sysfs_uio target)
        → R ↔ (
            (target ≢ [])
            × (entries : List Text) × (fs.read_dir sysfs_uio ≡ some entries)
            × (e : Text) × OnlyNamed fs sysfs_uio dev_root target e entries
            × (device ≡ join dev_root e))
    looked_at [] f = (λ r. absurd (f.0 r).1, λ x. absurd (x.0 refl))
    looked_at (c ∷ cs) f = readable (c ∷ cs) (fs.read_dir sysfs_uio) refl (λ h. cc) f
