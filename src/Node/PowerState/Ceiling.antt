-- ===== src/Node/PowerState/Ceiling.antt =====
-- The node's level stays at its ceiling or below.
use radio_sensors.Prelude.{ℕ, ◌≤◌, ◌≡◌, Bool, true, List, [], ◌∷◌, arith}
use radio_sensors.Node.PowerState.{PowerDecision, after_acknowledged, after_unacknowledged}

-- What became of a report: an acknowledgement, with the target that it brings, or none, with the
-- number of reports without one.
pub data Outcome : Type 0 where
  acknowledged : Bool → ℕ → Outcome
  unacknowledged : ℕ → Outcome

abbrev pub decide : ℕ → PowerDecision → Outcome → PowerDecision
decide ceiling d (acknowledged has_target target) =
    after_acknowledged d.level d.fallback has_target target ceiling
decide ceiling d (unacknowledged failures) =
    after_unacknowledged d.level d.fallback failures ceiling

unfoldable pub decisions : ℕ → PowerDecision → List Outcome → PowerDecision
decisions ceiling d [] = d
decisions ceiling d (o ∷ os) = decisions ceiling (decide ceiling d o) os

abbrev pub IsCapped : ℕ → PowerDecision → Type 0
IsCapped ceiling d = (d.level ≤ ceiling) × (d.fallback ≡ true → d.level ≡ ceiling)

decide-IsCapped :
    (ceiling : ℕ) (d : PowerDecision) (o : Outcome)
    → IsCapped ceiling d
    → IsCapped ceiling (decide ceiling d o)
unfolding after_acknowledged after_unacknowledged
decide-IsCapped ceiling d (acknowledged has_target target) w =
    (ground (arith, w.0), λ e. ground (arith, w.0, w.1, e))
decide-IsCapped ceiling d (unacknowledged failures) w =
    (ground (arith, w.0), λ e. ground (arith, w.0, w.1, e))

-- Whatever became of the reports, a node at its ceiling or below, at the ceiling if in fallback,
-- stays so.
pub decisions-IsCapped :
    (ceiling : ℕ) (d : PowerDecision) (os : List Outcome)
    → IsCapped ceiling d
    → IsCapped ceiling (decisions ceiling d os)
unfolding decisions
decisions-IsCapped ceiling d [] w = w
decisions-IsCapped ceiling d (o ∷ os) w =
    decisions-IsCapped ceiling (decide ceiling d o) os (decide-IsCapped ceiling d o w)
