-- ===== src/Parse/Prefix.antt =====
-- The prefixes and signs of a number, as src/parse.rs documents them.
use mathlib.Core.Path.{subst}
use mmreg.Parse.{split_prefix, refused_start}
use mmreg.Prelude.{
  ℕ, false, ◌&&◌, ◌||◌, [], ◌∷◌, ◌==◌, if◌then◌else◌, Text, ◌≡◌, ◌≢◌, ◌↔◌, ◌⊎◌, inl, inr, refl, sym,
  ◌∙◌, arith, Bool-cases,
}
use mmreg.Strings.{strip_prefix}

-- A text starts with a prefix: a zero and a letter, in lower or upper case.
abbrev pub StartsWith : ℕ → ℕ → Text → Text → Type 0
StartsWith lower upper t rest = (t ≡ b'0' ∷ lower ∷ rest) ⊎ (t ≡ b'0' ∷ upper ∷ rest)

-- The digits of a text and their radix: 16 after `0x`, 10 after `0d`, else the default.
pub data Prefixed (t : Text) (default_radix : ℕ) : Text → ℕ → Type 0 where
  hexadecimal : (rest : Text) → StartsWith b'x' b'X' t rest → Prefixed t default_radix rest 16
  decimal : (rest : Text) → StartsWith b'd' b'D' t rest → Prefixed t default_radix rest 10
  plain :
      ((rest : Text) → StartsWith b'x' b'X' t rest → ⊥)
      → ((rest : Text) → StartsWith b'd' b'D' t rest → ⊥)
      → Prefixed t default_radix t default_radix

-- A text that is not empty and has no sign.
abbrev pub IsUnsigned : Text → Type 0
IsUnsigned t = (c : ℕ) × (cs : Text) × (t ≡ c ∷ cs) × (c ≢ b'+') × (c ≢ b'-')

pub refused_start_iff : (t : Text) → (refused_start t ≡ false) ↔ IsUnsigned t
unfolding refused_start
refused_start_iff [] = (λ h. cc, λ (c, cs, e, plus, minus). cc)
refused_start_iff (c ∷ cs) = (
  λ h. (c, cs, refl, ground arith, ground arith),
  λ (d, ds, e, plus, minus). let same : c ≡ d = cc in ground arith,
)

split_two :
    (c d r : ℕ) (cs : Text)
    → split_prefix (c ∷ d ∷ cs) r ≡ (
        if c == b'0' && (d == b'x' || d == b'X')
        then (cs, 16)
        else if c == b'0' && (d == b'd' || d == b'D')
        then (cs, 10)
        else (c ∷ d ∷ cs, r))
unfolding split_prefix strip_prefix
split_two c d r cs = ground arith

split_one : (c r : ℕ) → split_prefix (c ∷ []) r ≡ (c ∷ [], r)
unfolding split_prefix strip_prefix
split_one c r = ground arith

-- The prefix that `split_prefix` finds is the one that the text has.
pub split_prefix-Prefixed :
    (t : Text) (r : ℕ) → Prefixed t r (split_prefix t r).0 (split_prefix t r).1
unfolding split_prefix strip_prefix
split_prefix-Prefixed [] r = plain (λ rest h. ground arith) (λ rest h. ground arith)
split_prefix-Prefixed (c ∷ []) r =
    subst (λ q. Prefixed (c ∷ []) r q.0 q.1) (sym (split_one c r))
      (plain (λ rest h. ground arith) (λ rest h. ground arith))
split_prefix-Prefixed (c ∷ d ∷ cs) r =
    subst (λ q. Prefixed (c ∷ d ∷ cs) r q.0 q.1) (sym (split_two c d r cs))
      (elim (Bool-cases (c == b'0' && (d == b'x' || d == b'X'))) [
        | inl hex ↦ rw hex (hexadecimal cs (ground arith))
        | inr not_hex ↦ elim (Bool-cases (c == b'0' && (d == b'd' || d == b'D'))) [
          | inl dec ↦ rw (not_hex, dec) (decimal cs (ground arith))
          | inr not_dec ↦
              rw (not_hex, not_dec) (plain (λ rest h. ground arith) (λ rest h. ground arith))
        ]
      ])

-- A text has one prefix at most.
pub Prefixed-split_prefix :
    {t rest : Text} {r radix : ℕ} → Prefixed t r rest radix → split_prefix t r ≡ (rest, radix)
unfolding split_prefix strip_prefix
Prefixed-split_prefix {r = r} (hexadecimal rest (inl e)) = rw e refl
Prefixed-split_prefix {r = r} (hexadecimal rest (inr e)) = rw e refl
Prefixed-split_prefix {r = r} (decimal rest (inl e)) = rw e refl
Prefixed-split_prefix {r = r} (decimal rest (inr e)) = rw e refl
Prefixed-split_prefix {t} {r = r} (plain no_hex no_dec) = unprefixed t r no_hex no_dec
  where
    unprefixed :
        (t : Text) (r : ℕ)
        → ((rest : Text) → StartsWith b'x' b'X' t rest → ⊥)
        → ((rest : Text) → StartsWith b'd' b'D' t rest → ⊥)
        → split_prefix t r ≡ (t, r)
    unprefixed [] r no_hex no_dec = refl
    unprefixed (c ∷ []) r no_hex no_dec = split_one c r
    unprefixed (c ∷ d ∷ cs) r no_hex no_dec =
        elim (Bool-cases (c == b'0' && (d == b'x' || d == b'X'))) [
          | inl hex ↦ absurd (no_hex cs (ground arith))
          | inr not_hex ↦ elim (Bool-cases (c == b'0' && (d == b'd' || d == b'D'))) [
            | inl dec ↦ absurd (no_dec cs (ground arith))
            | inr not_dec ↦ split_two c d r cs ∙ rw (not_hex, not_dec) refl
          ]
        ]
