-- ===== src/LockTests.antt =====
-- A run of the lock of src/lock.rs: a thread takes it, takes it again, and drops one of its guards.
use mmreg.Lock.Exclusion.{guards_exclude, Held_iff}
use mmreg.Lock.{
  unowned, attempt, owned_by, release, Flock, System, update, reenters, takes, drops, Reachable,
  start, next,
}
use mmreg.Prelude.{
  ℕ, ◌≤◌, Option, none, some, ◌==◌, if◌then◌else◌, ◌≡◌, ◌≢◌, ◌↔◌, refl, sym, ◌∙◌, arith, some-eq,
  none-ne-some,
}

-- The kernel's lock as its holder.
abbrev unlock : ℕ → Option ℕ → Option ℕ
unlock p none = none
unlock p (some q) = if q == p then none else some q

unlock-drops : (p : ℕ) (k : Option ℕ) → ¬ (unlock p k ≡ some p)
unlock-drops p none h = none-ne-some h
unlock-drops p (some q) h = ground arith

unlock-keeps : (p q : ℕ) (k : Option ℕ) → q ≢ p → k ≡ some q → unlock p k ≡ some q
unlock-keeps p q none d h = absurd (none-ne-some h)
unlock-keeps p q (some r) d h = ground arith

unlock-adds_none : (p q : ℕ) (k : Option ℕ) → unlock p k ≡ some q → k ≡ some q
unlock-adds_none p q none h = h
unlock-adds_none p q (some r) h = ground arith

abbrev holder : Flock (Option ℕ)
holder = record {
  Held = λ p k. k ≡ some p;
  Granted = λ p k l. (k ≡ none) × (l ≡ some p);
  unlock = unlock;
  exclusive = λ h g. some-eq (sym h ∙ g);
  granted_holds = λ g. g.1;
  granted_keeps = λ g h. absurd (none-ne-some (sym g.0 ∙ h));
  unlock_drops = λ {p} {k} h. unlock-drops p k h;
  unlock_keeps = λ {p} {q} {k} d h. unlock-keeps p q k d h;
  unlock_adds_none = λ {p} {q} {k} h. unlock-adds_none p q k h;
}

abbrev process : ℕ
process = 1

abbrev thread : ℕ
thread = 7

abbrev system0 : System (Option ℕ)
system0 = record { locks = λ p. unowned; kernel = none; guards = λ p t. 0 }

abbrev system1 : System (Option ℕ)
system1 = update 1 7 (owned_by 7) (some 1) 1 system0

abbrev system2 : System (Option ℕ)
system2 = update 1 7 (record { owner = some 7; depth = 2 }) (some 1) 2 system1

abbrev system3 : System (Option ℕ)
system3 = update 1 7 (record { owner = some 7; depth = 1 }) (some 1) 1 system2

system3-Reachable : Reachable holder system3
unfolding attempt release
system3-Reachable =
    next
      (next (next (start none (λ p h. none-ne-some h)) (takes 1 7 (some 1) refl (refl, refl)))
        (reenters 1 7 (record { owner = some 7; depth = 2 }) refl))
      (drops 1 7 (omega arith))

guards_exclude_example : (process ≡ process) × (thread ≡ thread)
guards_exclude_example =
    guards_exclude holder system3 process process thread thread system3-Reachable (omega arith)
      (omega arith)

Held_iff_example : (system3.kernel ≡ some 1) ↔ ((t : ℕ) × (1 ≤ system3.guards 1 t))
Held_iff_example = Held_iff holder system3 1 system3-Reachable
