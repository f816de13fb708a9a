-- ===== src/Node/PowerState.antt =====
-- node/lib/NodeCore/include/RadioPowerState.h: the node's own transmit power.
pub mod Ceiling
use radio_sensors.Prelude.{ℕ, Bool, true, false, not, ◌&&◌, ◌||◌, ltb, leb, ◌==◌, if◌then◌else◌}

abbrev pub fallback_reports : ℕ
fallback_reports = 3

abbrev pub max_telemetry_attempts : ℕ
max_telemetry_attempts = 3

unfoldable pub telemetry_attempts : ℕ → Bool → ℕ
telemetry_attempts unacknowledged urgent =
    if urgent || ltb unacknowledged fallback_reports then max_telemetry_attempts else 1

pub record PowerDecision : Type 0 where
  pub change : Bool
  pub level : ℕ
  pub fallback : Bool

unfoldable pub after_acknowledged : ℕ → Bool → Bool → ℕ → ℕ → PowerDecision
after_acknowledged level fallback has_target target ceiling =
    let wanted = if ltb ceiling target then ceiling else target in
    if not has_target
    then record { change = false; level = level; fallback = fallback }
    else if wanted == level && not fallback
    then record { change = false; level = level; fallback = fallback }
    else record { change = true; level = wanted; fallback = false }

unfoldable pub after_unacknowledged : ℕ → Bool → ℕ → ℕ → PowerDecision
after_unacknowledged level fallback failures ceiling =
    if ltb failures fallback_reports || leb ceiling level
    then record { change = false; level = level; fallback = fallback }
    else record { change = true; level = ceiling; fallback = true }
