-- ===== src/Interface/Lookup.antt =====
-- What the lookups of src/interface.rs find.
use mathlib.Core.Path.{subst}
use mmreg.Interface.{Interface, position, register_index, field_mask, field}
use mmreg.Prelude.{
  ℕ, suc, List, [], ◌∷◌, some, Text, text_eq, text_eq_iff, ok, ok_or, and_then, ◌==◌, get_elem?,
  ◌≡◌, inl, inr, refl, sym, ap, ◌∙◌, arith, Bool-cases, >>=-eq-ok, ok_or-eq-ok, and_then-eq-some,
  some-eq, ok-eq, unless-ok,
}
use mmreg.Register.Mask.{IsRange, IsRange-cases, mask_invalid}
use mmreg.Register.{SubRegister, Register, mask, subregister, find_subregister}

-- A register with a name, at a place of a list.
pub record IsAt (name : Text) (rs : List Register) (n : ℕ) (r : Register) : Type 0 where
  pub at : get_elem? rs n ≡ some r
  pub named : r.name ≡ name

position-IsAt :
    (name : Text) (rs : List Register) {n : ℕ} {r : Register}
    → position name rs ≡ some (n, r)
    → IsAt name rs n r
unfolding position
position-IsAt name [] h = cc
position-IsAt name (x ∷ xs) {n} {r} h = elim (Bool-cases (text_eq x.name name)) [
  | inl same ↦
      let pair : (0, x) ≡ (n, r) = some-eq (sym (rw (same, position) refl) ∙ h) in
      subst (λ (q : ℕ × Register). IsAt name (x ∷ xs) q.0 q.1) pair
        (record { at = refl; named = (text_eq_iff x.name name).0 same })
  | inr other ↦
      let later : and_then (position name xs) (λ (k, s). some (suc k, s)) ≡ some (n, r) =
        sym (rw (other, position) refl) ∙ h in
      let (q, found, same) =
        and_then-eq-some (position name xs) (λ (k, s). some (suc k, s)) later in
      let rest = position-IsAt name xs found in
      subst (λ (q : ℕ × Register). IsAt name (x ∷ xs) q.0 q.1) (some-eq same)
        (record { at = rest.at; named = rest.named })
]

find_subregister-named :
    (name : Text) (ss : List SubRegister) {s : SubRegister}
    → find_subregister name ss ≡ some s
    → s.name ≡ name
unfolding find_subregister
find_subregister-named name [] h = cc
find_subregister-named name (x ∷ xs) h = elim (Bool-cases (text_eq x.name name)) [
  | inl same ↦
      let it : x ≡ _ = some-eq (sym (rw (same, find_subregister) refl) ∙ h) in
      ap (λ (t : SubRegister). t.name) (sym it) ∙ (text_eq_iff x.name name).0 same
  | inr other ↦ find_subregister-named name xs (sym (rw (other, find_subregister) refl) ∙ h)
]

-- What `field` has found: a register and a subregister of these names, the range of the latter, and
-- its mask.
pub record IsField (i : Interface) (reg_name sub_name : Text) (n k l : ℕ) : Type 0 where
  pub register : Register
  pub is_at : IsAt reg_name i.registers n register
  pub child : SubRegister
  pub is_child : subregister register sub_name ≡ some child
  pub child_named : child.name ≡ sub_name
  pub range : IsRange child
  pub mask_is : k ≡ mask child
  pub lsb_is : l ≡ child.lsb

field_mask-IsRange :
    (n : ℕ) (r : Register) (s : SubRegister) {q : ℕ × ℕ × ℕ}
    → field_mask n r s ≡ ok q
    → IsRange s × ((n, mask s, s.lsb) ≡ q)
unfolding field_mask
field_mask-IsRange n r s h =
    let (some_bit, same) = unless-ok (mask s == 0) _ _ h in
    elim (IsRange-cases s) [
      | inl v ↦ (v, ok-eq same)
      | inr bad ↦ absurd (ground (arith, some_bit, mask_invalid s bad))
    ]

-- When `field` succeeds, it has found a register of the one name, at the index that it returns, and
-- in it a subregister of the other, whose range is valid; the mask and the shift are the latter's.
pub field-IsField :
    (i : Interface) (reg_name sub_name : Text) (n k l : ℕ)
    → field i reg_name sub_name ≡ ok (n, k, l)
    → IsField i reg_name sub_name n k l
unfolding field register_index subregister
field-IsField i reg_name sub_name n k l h =
    let ((m, r), found, later) = >>=-eq-ok (register_index i reg_name) _ h in
    let (s, child, last) = >>=-eq-ok (ok_or (subregister r sub_name) _) _ later in
    let is_at =
      position-IsAt reg_name i.registers (ok_or-eq-ok (position reg_name i.registers) _ found) in
    let is_child = ok_or-eq-ok (subregister r sub_name) _ child in
    let (range, same) = field_mask-IsRange m r s last in
    record {
      register = r;
      is_at = subst (λ x. IsAt reg_name i.registers x r) (ap (λ q. q.0) same) is_at;
      child = s;
      is_child = is_child;
      child_named = find_subregister-named sub_name r.children is_child;
      range = range;
      mask_is = sym (ap (λ q. q.1) same);
      lsb_is = sym (ap (λ q. q.2) same);
    }
