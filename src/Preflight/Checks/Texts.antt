-- ===== src/Preflight/Checks/Texts.antt =====
-- What the pre-flight checks read in a status (src/memcheck.rs): texts up to the case of letters.
use mmreg.Preflight.Checks.{is_bad_status, is_usable_status}
use mmreg.Preflight.{any, eq_ignore_case}
use mmreg.Prelude.{
  Bool, true, false, ◌||◌, [], ◌∷◌, ==_iff, Text, text_eq, text_eq_iff, codes, map, ◌≡◌, ◌⊎◌, ◌↔◌,
  refl, arith,
}
use mmreg.Strings.{to_lower}

-- A text is a word, up to the case of letters.
abbrev pub Spells : Text → Text → Type 0
Spells t word = map to_lower t ≡ map to_lower word

pub eq_ignore_case_iff : (t word : Text) → (eq_ignore_case t word ≡ true) ↔ Spells t word
unfolding eq_ignore_case
eq_ignore_case_iff [] [] = (λ h. refl, λ h. refl)
eq_ignore_case_iff [] (d ∷ word) = (λ h. cc, λ h. cc)
eq_ignore_case_iff (c ∷ t) [] = (λ h. cc, λ h. cc)
eq_ignore_case_iff (c ∷ t) (d ∷ word) =
    ground (arith, ==_iff (to_lower c) (to_lower d), eq_ignore_case_iff t word)

-- The status of a device that may be used: none, or one of two words.
pub is_usable_status_iff :
    (t : Text)
    → (is_usable_status t ≡ true) ↔ ((t ≡ []) ⊎ Spells t (codes "okay") ⊎ Spells t (codes "ok"))
unfolding is_usable_status
is_usable_status_iff t =
    any_of (text_eq t []) (eq_ignore_case t (codes "okay")) (eq_ignore_case t (codes "ok"))
      (text_eq_iff t []) (eq_ignore_case_iff t (codes "okay")) (eq_ignore_case_iff t (codes "ok"))
  where
    any_of :
        (a b c : Bool) {A B C : Type 0}
        → (a ≡ true) ↔ A
        → (b ≡ true) ↔ B
        → (c ≡ true) ↔ C
        → ((a || b || c) ≡ true) ↔ (A ⊎ B ⊎ C)
    any_of a b c f g h = ground arith

-- The status of a device that is awake is none of three words.
pub is_bad_status_iff :
    (t : Text)
    → (is_bad_status t ≡ false) ↔ (
        (Spells t (codes "suspended") → ⊥)
        × (Spells t (codes "suspending") → ⊥)
        × (Spells t (codes "error") → ⊥))
unfolding is_bad_status any
is_bad_status_iff t =
    none_of (eq_ignore_case t (codes "suspended")) (eq_ignore_case t (codes "suspending"))
      (eq_ignore_case t (codes "error")) (eq_ignore_case_iff t (codes "suspended"))
      (eq_ignore_case_iff t (codes "suspending")) (eq_ignore_case_iff t (codes "error"))
  where
    denied : {A : Type 0} (a : Bool) → (a ≡ true) ↔ A → (a ≡ false) ↔ (A → ⊥)
    denied true f = (λ h x. cc, λ n. absurd (n (f.0 refl)))
    denied false f = (λ h x. cc (f.1 x), λ n. refl)

    split :
        (a b c : Bool)
        → ((a || (b || (c || false))) ≡ false) ↔ ((a ≡ false) × (b ≡ false) × (c ≡ false))
    split a b c = ground arith

    none_of :
        (a b c : Bool) {A B C : Type 0}
        → (a ≡ true) ↔ A
        → (b ≡ true) ↔ B
        → (c ≡ true) ↔ C
        → ((a || (b || (c || false))) ≡ false) ↔ ((A → ⊥) × (B → ⊥) × (C → ⊥))
    none_of a b c f g h = (
      λ e.
          let (x, y, z) = (split a b c).0 e in
          ((denied a f).0 x, (denied b g).0 y, (denied c h).0 z),
      λ (x, y, z). (split a b c).1 ((denied a f).1 x, (denied b g).1 y, (denied c h).1 z),
    )
