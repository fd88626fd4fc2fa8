-- ===== src/Preflight/Clocks/Gated.antt =====
-- When the clock summary refuses a device (src/memcheck.rs, `check_clk_summary`).
use mmreg.Error.{MmregError, zombie_clock_gated}
use mmreg.Preflight.Clocks.{
  Row, evaluate_clock_state, line_tokens, parse_clk_summary_row, row_concerns, judge_row,
  judge_consumer, check_lines, check_clk_summary, clock_of, warn_idle,
}
use mmreg.Prelude.{
  ℕ, Bool, true, false, List, [], ◌∷◌, Option, none, some, ◌==◌, if◌then◌else◌, Text, member,
  Result, ok, err, ◌>>=◌, ◌≡◌, ◌⊎◌, inl, inr, refl, sym, ap, ◌∙◌, arith, some-eq, none-ne-some,
  Bool-cases,
}

open_gate : (c : ℕ) → (c == b'N') ≡ false → c ≡ b'N' → ⊥
open_gate c h e = ground arith

split_sum : {A B C : Type 0} → A ⊎ B → A ⊎ (B ⊎ C)
split_sum (inl a) = inl a
split_sum (inr b) = inr (inl b)

module _ (dev_name : Text) (names : List Text) where
  -- A line below a clock's row, before the next row, that names the device.
  abbrev pub IsUsedBelow : List Text → Type 0
  IsUsedBelow [] = ⊥
  IsUsedBelow (line ∷ lines) =
      (parse_clk_summary_row (line_tokens line) ≡ none)
      × ((member dev_name (line_tokens line) ≡ true) ⊎ IsUsedBelow lines)

  -- The row of a clock that hardware has switched off, and that concerns the device: by the clock's
  -- name, or as its consumer on the row or below.
  abbrev pub HasGatedClock : List Text → Type 0
  HasGatedClock [] = ⊥
  HasGatedClock (line ∷ lines) =
      ((row : Row) × (parse_clk_summary_row (line_tokens line) ≡ some row)
        × (row.hw_enable ≡ some b'N')
        × ((row_concerns dev_name names (line_tokens line) ≡ true) ⊎ IsUsedBelow lines))
      ⊎ HasGatedClock lines

  -- The row before these lines is that of a gated clock which they use.
  abbrev IsGatedAbove : Option Row → List Text → Type 0
  IsGatedAbove none lines = ⊥
  IsGatedAbove (some row) lines = (row.hw_enable ≡ some b'N') × IsUsedBelow lines

  -- A result refuses the device for a gated clock, if `P`, and accepts it otherwise.
  abbrev pub Refuses : Text → Type 0 → Result MmregError (List Text) → Type 0
  Refuses path P r =
      (P × (clk : Text) × (r ≡ err (zombie_clock_gated dev_name clk path)))
      ⊎ ((P → ⊥) × (warnings : List Text) × (r ≡ ok warnings))

  evaluate-Refuses :
      (path clk : Text) (row : Row) (warnings : List Text)
      → Refuses path
          (row.hw_enable ≡ some b'N')
          (evaluate_clock_state dev_name clk row path warnings)
  unfolding evaluate_clock_state
  evaluate-Refuses path clk row warnings = go row.hw_enable refl
    where
      go :
          (flag : Option ℕ)
          → row.hw_enable ≡ flag
          → Refuses path
              (row.hw_enable ≡ some b'N')
              (evaluate_clock_state dev_name clk row path warnings)
      go none h = inr (
        λ g. none-ne-some (sym h ∙ g),
        warn_idle dev_name clk row.enable_count path warnings,
        ground arith,
      )
      go (some c) h = elim (Bool-cases (c == b'N')) [
        | inl gated ↦ inl (ground arith, clk, ground arith)
        | inr open_clock ↦ inr (
          λ g. open_gate c open_clock (some-eq (sym h ∙ g)),
          if c == b'Y' then warnings else warn_idle dev_name clk row.enable_count path warnings,
          ground arith,
        )
      ]

  Refuses-map :
      (path : Text) {P Q : Type 0} (r : Result MmregError (List Text))
      → (P → Q)
      → (Q → P)
      → Refuses path P r
      → Refuses path Q r
  Refuses-map path r f g (inl (p, clk, h)) = inl (f p, clk, h)
  Refuses-map path r f g (inr (np, w, h)) = inr (λ q. np (g q), w, h)

  Refuses-if :
      (path : Text) {P : Type 0} (b : Bool) (r : Result MmregError (List Text))
      (warnings : List Text)
      → Refuses path P r
      → Refuses path ((b ≡ true) × P) (if b then r else ok warnings)
  Refuses-if path true r warnings (inl (p, clk, h)) = inl ((refl, p), clk, h)
  Refuses-if path true r warnings (inr (np, w, h)) = inr (λ q. np q.1, w, h)
  Refuses-if path false r warnings h = inr (λ q. cc q.0, warnings, refl)

  Refuses-bind :
      (path : Text) {P Q : Type 0} (r : Result MmregError (List Text))
      (next : List Text → Result MmregError (List Text))
      → Refuses path P r
      → ((w : List Text) → Refuses path Q (next w))
      → Refuses path (P ⊎ Q) (r >>= next)
  Refuses-bind path r next (inl (p, clk, h)) k = inl (inl p, clk, ap (λ r. r >>= next) h)
  Refuses-bind path {P} {Q} r next (inr (np, w, h)) k = go (k w)
    where
      same : (r >>= next) ≡ next w
      same = ap (λ r. r >>= next) h

      go : Refuses path Q (next w) → Refuses path (P ⊎ Q) (r >>= next)
      go (inl (q, clk, e)) = inl (inr q, clk, same ∙ e)
      go (inr (nq, v, e)) = inr (λ x. elim x [ inl p ↦ np p | inr q ↦ nq q ], v, same ∙ e)

  not_above : (state : Option Row) → IsGatedAbove state [] → ⊥
  not_above none g = g
  not_above (some row) g = g.1

  -- What a line that is not a row adds.
  abbrev ConsumedBy : Option Row → Text → Type 0
  ConsumedBy none line = ⊥
  ConsumedBy (some row) line =
      (member dev_name (line_tokens line) ≡ true) × (row.hw_enable ≡ some b'N')

  judge_consumer-Refuses :
      (path clock : Text) (line : Text) (state : Option Row) (warnings : List Text)
      → Refuses path
          (ConsumedBy state line)
          (judge_consumer dev_name path (line_tokens line) clock state warnings)
  unfolding judge_consumer
  judge_consumer-Refuses path clock line none warnings = inr (λ g. g, warnings, refl)
  judge_consumer-Refuses path clock line (some row) warnings =
      Refuses-if path (member dev_name (line_tokens line)) _ warnings
        (evaluate-Refuses path clock row warnings)

  row_above :
      (state : Option Row) (line : Text) (lines : List Text) {row : Row}
      → parse_clk_summary_row (line_tokens line) ≡ some row
      → IsGatedAbove state (line ∷ lines)
      → ⊥
  row_above none line lines h g = g
  row_above (some above) line lines h g = none-ne-some (sym g.1.0 ∙ h)

  consumed :
      (state : Option Row) (line : Text) (lines : List Text)
      → parse_clk_summary_row (line_tokens line) ≡ none
      → ConsumedBy state line ⊎ IsGatedAbove state lines
      → IsGatedAbove state (line ∷ lines)
  consumed none line lines h (inl x) = x
  consumed none line lines h (inr x) = x
  consumed (some row) line lines h (inl x) = (x.1, (h, inl x.0))
  consumed (some row) line lines h (inr x) = (x.0, (h, inr x.1))

  consumed_back :
      (state : Option Row) (line : Text) (lines : List Text)
      → IsGatedAbove state (line ∷ lines)
      → ConsumedBy state line ⊎ IsGatedAbove state lines
  consumed_back none line lines x = absurd x
  consumed_back (some row) line lines (gated, (h, inl x)) = inl (x, gated)
  consumed_back (some row) line lines (gated, (h, inr x)) = inr (gated, x)

  check_lines-Refuses :
      (path clock : Text) (state : Option Row) (warnings lines : List Text)
      → Refuses path
          (IsGatedAbove state lines ⊎ HasGatedClock lines)
          (check_lines dev_name names path clock state warnings lines)
  unfolding check_lines judge_row
  check_lines-Refuses path clock state warnings [] =
      inr (λ x. elim x [ inl g ↦ not_above state g | inr g ↦ g ], warnings, refl)
  check_lines-Refuses path clock state warnings (line ∷ lines) =
      go (parse_clk_summary_row (line_tokens line)) refl
        (λ clk st w. check_lines-Refuses path clk st w lines)
    where
      go :
          (found : Option Row)
          → parse_clk_summary_row (line_tokens line) ≡ found
          → ((clk : Text) (st : Option Row) (w : List Text)
              → Refuses path
                  (IsGatedAbove st lines ⊎ HasGatedClock lines)
                  (check_lines dev_name names path clk st w lines))
          → Refuses path
              (IsGatedAbove state (line ∷ lines) ⊎ HasGatedClock (line ∷ lines))
              (elim found [
                | some row ↦
                    judge_row dev_name names path (line_tokens line) row warnings >>= λ more.
                    check_lines dev_name names path
                      (clock_of dev_name (line_tokens line))
                      (some row)
                      more
                      lines
                | none ↦
                    judge_consumer dev_name path (line_tokens line) clock state warnings >>= λ more.
                    check_lines dev_name names path clock state more lines
              ])
      go (some row) h ih =
          Refuses-map path _
            (λ x. elim x [
              | inl here ↦ inr (inl (row, h, here.1, inl here.0))
              | inr (inl below) ↦ inr (inl (row, h, below.0, inr below.1))
              | inr (inr later) ↦ inr (inr later)
            ])
            (λ x. elim x [
              | inl above ↦ absurd (row_above state line lines h above)
              | inr (inl (other, found, gated, inl concerned)) ↦
                  inl (concerned, ap Row.hw_enable (some-eq (sym h ∙ found)) ∙ gated)
              | inr (inl (other, found, gated, inr below)) ↦
                  inr (inl (ap Row.hw_enable (some-eq (sym h ∙ found)) ∙ gated, below))
              | inr (inr later) ↦ inr (inr later)
            ])
            (Refuses-bind path _ _
              (Refuses-if path (row_concerns dev_name names (line_tokens line)) _ warnings
                (evaluate-Refuses path (clock_of dev_name (line_tokens line)) row warnings))
              (λ w. ih (clock_of dev_name (line_tokens line)) (some row) w))
      go none h ih =
          Refuses-map path _
            (λ x. elim x [
              | inl here ↦ inl (consumed state line lines h (inl here))
              | inr (inl below) ↦ inl (consumed state line lines h (inr below))
              | inr (inr later) ↦ inr (inr later)
            ])
            (λ x. elim x [
              | inl above ↦ split_sum (consumed_back state line lines above)
              | inr (inl (row, found, _, _)) ↦ absurd (none-ne-some (sym h ∙ found))
              | inr (inr later) ↦ inr (inr later)
            ])
            (Refuses-bind path _ _ (judge_consumer-Refuses path clock line state warnings)
              (λ w. ih clock state w))

  -- The clock summary refuses a device exactly if it has the row of a clock that hardware has
  -- switched off, and that row names one of the device's clocks or the device, or the device is
  -- named on a line below it, before the next row. Otherwise it is accepted with some warnings.
  pub check_clk_summary-Refuses :
      (path : Text) (warnings lines : List Text)
      → Refuses path (HasGatedClock lines) (check_clk_summary dev_name names path warnings lines)
  unfolding check_clk_summary
  check_clk_summary-Refuses path warnings lines =
      Refuses-map path _ (λ x. elim x [ inl g ↦ absurd g | inr g ↦ g ]) inr
        (check_lines-Refuses path [] none warnings lines)
