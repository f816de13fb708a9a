-- ===== src/Node/Contact/Held.antt =====
-- A level is accepted only after it was held.
use mathlib.Core.Path.{subst}
use radio_sensors.Prelude.{
  ℕ, ◌≡◌, ◌⊎◌, inl, inr, refl, sym, ◌∙◌, ap, Bool, true, false, not, List, [], ◌∷◌, Bool-cases,
  arith,
}
use radio_sensors.Schedule.{interval_elapsed}
use radio_sensors.Node.Contact.{
  unchanged, Input, change_to, confirm, MinimumPhaseFilter, new_filter, filter_update,
}

-- The updates of a filter, the last one first: when, and the level.
abbrev pub Updates : Type 0
Updates = List (ℕ × Bool)

unfoldable pub run_filter : MinimumPhaseFilter → Updates → MinimumPhaseFilter
run_filter f [] = f
run_filter f (u ∷ us) = (filter_update (run_filter f us) u.0 u.1).0

-- The last updates, back to one at `since`, all have the level.
abbrev pub IsHeldSince : Bool → ℕ → Updates → Type 0
IsHeldSince level since [] = ⊥
IsHeldSince level since (u ∷ us) = (u.1 ≡ level) × ((u.0 ≡ since) ⊎ IsHeldSince level since us)

-- What is pending is the level that is not accepted.
abbrev IsWaiting : MinimumPhaseFilter → Updates → Type 0
IsWaiting f us = f.is_pending ≡ true → IsHeldSince (not f.accepted) f.pending_since us

-- The cases of an update, each with what it leaves.
update_cases :
    (f : MinimumPhaseFilter) (now : ℕ) (high : Bool)
    → ((filter_update f now high).0.is_pending ≡ false)
      ⊎ ((high ≡ not f.accepted)
          × ((filter_update f now high).0.accepted ≡ f.accepted)
          × (((filter_update f now high).0.pending_since ≡ now)
              ⊎ ((f.is_pending ≡ true)
                  × ((filter_update f now high).0.pending_since ≡ f.pending_since))))
unfolding filter_update
update_cases f now high =
    cases (Bool-cases high) (Bool-cases f.accepted) (Bool-cases f.is_pending)
      (Bool-cases (interval_elapsed now f.pending_since f.minimum_phase_ms))
  where
    Cases : Type 0
    Cases =
        ((filter_update f now high).0.is_pending ≡ false)
        ⊎ ((high ≡ not f.accepted)
            × ((filter_update f now high).0.accepted ≡ f.accepted)
            × (((filter_update f now high).0.pending_since ≡ now)
                ⊎ ((f.is_pending ≡ true)
                    × ((filter_update f now high).0.pending_since ≡ f.pending_since))))

    cases :
        (high ≡ true) ⊎ (high ≡ false)
        → (f.accepted ≡ true) ⊎ (f.accepted ≡ false)
        → (f.is_pending ≡ true) ⊎ (f.is_pending ≡ false)
        → (interval_elapsed now f.pending_since f.minimum_phase_ms ≡ true)
          ⊎ (interval_elapsed now f.pending_since f.minimum_phase_ms ≡ false)
        → Cases
    cases (inl a) (inl b) c d = inl (ground (arith, a, b))
    cases (inr a) (inr b) c d = inl (ground (arith, a, b))
    cases (inl a) (inr b) (inl c) (inl d) = inl (ground (arith, a, b, c, d))
    cases (inr a) (inl b) (inl c) (inl d) = inl (ground (arith, a, b, c, d))
    cases (inl a) (inr b) (inl c) (inr d) = inr (
      ground (arith, a, b, c, d),
      ground (arith, a, b, c, d),
      inr (c, ground (arith, a, b, c, d)),
    )
    cases (inr a) (inl b) (inl c) (inr d) = inr (
      ground (arith, a, b, c, d),
      ground (arith, a, b, c, d),
      inr (c, ground (arith, a, b, c, d)),
    )
    cases (inl a) (inr b) (inr c) d =
        inr (ground (arith, a, b, c), ground (arith, a, b, c), inl (ground (arith, a, b, c)))
    cases (inr a) (inl b) (inr c) d =
        inr (ground (arith, a, b, c), ground (arith, a, b, c), inl (ground (arith, a, b, c)))

update-IsWaiting :
    (f : MinimumPhaseFilter) (u : ℕ × Bool) (us : Updates)
    → IsWaiting f us
    → IsWaiting (filter_update f u.0 u.1).0 (u ∷ us)
update-IsWaiting f u us w h = elim (update_cases f u.0 u.1) [
  | inl e ↦ absurd (ground (arith, h, e))
  | inr (level, same, inl e) ↦ (level ∙ sym (ap not same), inl (sym e))
  | inr (level, same, inr (p, e)) ↦ (
    level ∙ sym (ap not same),
    inr (
        subst (λ b. IsHeldSince (not b) (filter_update f u.0 u.1).0.pending_since us) (sym same)
          (subst (λ (since : ℕ). IsHeldSince (not f.accepted) since us) (sym e) (w p))),
  )
]

run_filter-IsWaiting :
    (minimum : ℕ) (initial : Bool) (us : Updates)
    → IsWaiting (run_filter (new_filter minimum initial) us) us
unfolding run_filter new_filter
run_filter-IsWaiting minimum initial [] h = absurd (ground (arith, h))
run_filter-IsWaiting minimum initial (u ∷ us) h =
    update-IsWaiting (run_filter (new_filter minimum initial) us) u us
      (run_filter-IsWaiting minimum initial us) h

run_filter-minimum :
    (f : MinimumPhaseFilter) (us : Updates)
    → (run_filter f us).minimum_phase_ms ≡ f.minimum_phase_ms
unfolding run_filter filter_update
run_filter-minimum f [] = refl
run_filter-minimum f (u ∷ us) = ground (arith, run_filter-minimum f us)

-- What an update that reports a change found.
change_found :
    (f : MinimumPhaseFilter) (now : ℕ) (high : Bool)
    → (filter_update f now high).1 ≡ change_to high
    → (high ≡ not f.accepted)
      × (f.is_pending ≡ true)
      × (interval_elapsed now f.pending_since f.minimum_phase_ms ≡ true)
unfolding filter_update
change_found f now true h = ground (arith, h)
change_found f now false h = ground (arith, h)

-- After any updates, a level is reported as accepted only if all updates since some time had it,
-- and the minimum phase has elapsed since then.
pub filter_update_held :
    (minimum now : ℕ) (initial high : Bool) (us : Updates)
    → (filter_update (run_filter (new_filter minimum initial) us) now high).1 ≡ change_to high
    → (since : ℕ) × IsHeldSince high since us × (interval_elapsed now since minimum ≡ true)
unfolding new_filter
filter_update_held minimum now initial high us h =
    let f = run_filter (new_filter minimum initial) us in
    let (level, p, elapsed) = change_found f now high h in
    (
      f.pending_since,
      subst (λ b. IsHeldSince b f.pending_since us) (sym level)
          (run_filter-IsWaiting minimum initial us p),
      rw (run_filter-minimum (new_filter minimum initial) us) at elapsed,
    )

-- A confirmation reports a change exactly if the level that it keeps changed, and then it reports that level.
pub confirm_change :
    (I : Input) (high : Bool) (s : I.State)
    → (((confirm I high s).2 ≡ unchanged) × ((confirm I high s).0 ≡ high))
      ⊎ (((confirm I high s).0 ≡ not high) × ((confirm I high s).2 ≡ change_to (not high)))
unfolding confirm
confirm_change I true s = ground arith
confirm_change I false s = ground arith
