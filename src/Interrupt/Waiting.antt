-- ===== src/Interrupt/Waiting.antt =====
-- When waiting for an interrupt (src/mmio.rs, src/device.rs) ends, and with what.
use mmreg.Device.{Device}
use mmreg.Error.{uio_required}
use mmreg.Interrupt.{
  IoError, Transfer, moved, interrupted, refused, Poll, timed_out, poll_interrupted, poll_refused,
  ready, read_count, wait, has_uio_file, irq_result, irq_wait, poll_timeout_ms, unexpected_eof,
}
use mmreg.Opening.{Backend}
use mmreg.Prelude.{
  ℕ, ◌+◌, ◌-◌, ◌*◌, ◌/◌, ◌^◌, ◌≤◌, ◌<◌, Bool, true, false, List, [], ◌∷◌, Option, none, some, ltb,
  ◌==◌, if◌then◌else◌, Text, Result, ok, err, codes, Bool-cases, ◌↔◌, some-eq, ok-eq, err-ne-ok,
  none-ne-some, ◌≡◌, ◌≢◌, ◌⊎◌, inl, inr, refl, sym, ap, ◌∙◌, arith,
}

-- A result of `poll` after which waiting goes on: an interruption, or a timeout before the deadline.
abbrev pub GoesOn : ℕ → Poll → Type 0
GoesOn end (timed_out now) = now < end
GoesOn end poll_interrupted = Unit
GoesOn end (poll_refused e) = ⊥
GoesOn end (ready b ts count) = ⊥

-- The timeout at or after the deadline, after results that go on.
abbrev pub RunsOut : ℕ → List Poll → Type 0
RunsOut end [] = ⊥
RunsOut end (timed_out now ∷ ps) = (end ≤ now) ⊎ ((now < end) × RunsOut end ps)
RunsOut end (poll_interrupted ∷ ps) = RunsOut end ps
RunsOut end (poll_refused e ∷ ps) = ⊥
RunsOut end (ready b ts count ∷ ps) = ⊥

read_count-some : (ts : List Transfer) (count : ℕ) → read_count ts count ≢ some (ok none)
unfolding read_count
read_count-some [] count h = none-ne-some h
read_count-some (moved n ∷ ts) count h = go (n == 4) h
  where
    go :
        (b : Bool)
        → (if b then some (ok (some count)) else some (err unexpected_eof)) ≡ some (ok none)
        → ⊥
    go true h = none-ne-some (sym (ok-eq (some-eq h)))
    go false h = err-ne-ok (some-eq h)
read_count-some (interrupted ∷ ts) count h = read_count-some ts count h
read_count-some (refused e ∷ ts) count h = err-ne-ok (some-eq h)

-- The loop reports a timeout only at a time that is not before the deadline.
wait-RunsOut : (end : ℕ) (ps : List Poll) → wait (some end) ps ≡ some (ok none) → RunsOut end ps
unfolding wait
wait-RunsOut end [] h = absurd (none-ne-some h)
wait-RunsOut end (timed_out now ∷ ps) h = go (ltb now end) refl h (λ g. wait-RunsOut end ps g)
  where
    go :
        (b : Bool)
        → ltb now end ≡ b
        → (if b then wait (some end) ps else some (ok none)) ≡ some (ok none)
        → (wait (some end) ps ≡ some (ok none) → RunsOut end ps)
        → RunsOut end (timed_out now ∷ ps)
    go true early h later = inr (ground arith, later h)
    go false late h later = inl (ground arith)
wait-RunsOut end (poll_interrupted ∷ ps) h = wait-RunsOut end ps h
wait-RunsOut end (poll_refused e ∷ ps) h = absurd (err-ne-ok (some-eq h))
wait-RunsOut end (ready true ts count ∷ ps) h = absurd (read_count-some ts count h)
wait-RunsOut end (ready false ts count ∷ ps) h = absurd (err-ne-ok (some-eq h))

wait-of_RunsOut : (end : ℕ) (ps : List Poll) → RunsOut end ps → wait (some end) ps ≡ some (ok none)
unfolding wait
wait-of_RunsOut end [] r = elim r [ ]
wait-of_RunsOut end (timed_out now ∷ ps) (inl late) = ground arith
wait-of_RunsOut end (timed_out now ∷ ps) (inr (early, r)) =
    let later = wait-of_RunsOut end ps r in ground (arith, later)
wait-of_RunsOut end (poll_interrupted ∷ ps) r = wait-of_RunsOut end ps r
wait-of_RunsOut end (poll_refused e ∷ ps) r = elim r [ ]
wait-of_RunsOut end (ready b ts count ∷ ps) r = elim r [ ]

irq_result-none :
    (text : IoError → Text) (d : Device) (r : Option (Result IoError (Option ℕ)))
    → irq_result text d r ≡ some (ok none)
    → r ≡ some (ok none)
irq_result-none text d none h = absurd (none-ne-some h)
irq_result-none text d (some (ok a)) h = ap (λ x. some (ok x)) (ok-eq (some-eq h))
irq_result-none text d (some (err e)) h = absurd (err-ne-ok (some-eq h))

-- On a device that has a UIO descriptor, `irq_wait` reports a timeout exactly if, after results of
-- `poll` that are interruptions or timeouts before the deadline, `poll` runs out of time when the
-- clock shows the deadline or more: never early, and never because a signal came in.
pub irq_wait_iff :
    (text : IoError → Text) (d : Device) (backend : Backend) (end : ℕ) (ps : List Poll)
    → has_uio_file backend ≡ true
    → (irq_wait text d backend (some end) ps ≡ some (ok none)) ↔ RunsOut end ps
unfolding irq_wait
irq_wait_iff text d backend end ps file =
    let open_file : irq_wait text d backend (some end) ps ≡ irq_result text d (wait (some end) ps) =
      ap
        (λ b.
          if b
          then irq_result text d (wait (some end) ps)
          else some (err (uio_required (codes "irq_wait"))))
        file in
    (
      λ h. wait-RunsOut end ps (irq_result-none text d (wait (some end) ps) (sym open_file ∙ h)),
      λ r. open_file ∙ ap (irq_result text d) (wait-of_RunsOut end ps r),
    )

-- The timeout that is given to `poll` fits 31 bits, and is the time that is left in milliseconds,
-- rounded up, so that `poll` does not return just before the deadline; unless that is more than 31
-- bits hold.
pub poll_timeout_ms_lem :
    (end now : ℕ)
    → (ms : ℕ) × (poll_timeout_ms (some end) now ≡ some ms)
      × (ms < 2 ^ 31)
      × (((end - now ≤ ms * 1_000_000) × (ms * 1_000_000 < end - now + 1_000_000))
          ⊎ (ms ≡ 2 ^ 31 - 1))
unfolding poll_timeout_ms
poll_timeout_ms_lem end now =
    let left = (end - now + 999_999) / 1_000_000 in
    elim (Bool-cases (ltb left (2 ^ 31))) [
      | inl fits ↦ (
        left,
        ap (λ b. if b then some left else some (2 ^ 31 - 1)) fits,
        ground arith,
        inl (omega arith, omega arith),
      )
      | inr big ↦ (
        2 ^ 31 - 1,
        ap (λ b. if b then some left else some (2 ^ 31 - 1)) big,
        omega arith,
        inr refl,
      )
    ]
