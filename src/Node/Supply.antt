-- ===== src/Node/Supply.antt =====
-- node/lib/NodeCore/include/SupplyVoltage.h: the supply voltage that a node reports, and the gate
-- that keeps its radio off while the supply is low.
pub mod Gate
use radio_sensors.Prelude.{ℕ, Bool, true, false, not, ◌&&◌, ltb, leb, if◌then◌else◌}
use radio_sensors.Schedule.{interval_elapsed}

-- LoadedSupplyVoltage, by its member `afterPrevious_`.
abbrev pub no_previous : ℕ
no_previous = 0xffff

unfoldable pub report : ℕ → ℕ → ℕ
report after_previous before_transmission =
    if ltb before_transmission after_previous then before_transmission else after_previous

abbrev pub recheck_ms : ℕ
recheck_ms = 60000

pub record SupplyGate : Type 0 where
  pub minimum_exclusive_millivolts : ℕ
  pub low_at : ℕ
  pub is_low : Bool

unfoldable pub new_gate : ℕ → SupplyGate
new_gate minimum = record { minimum_exclusive_millivolts = minimum; low_at = 0; is_low = false }

unfoldable pub gate_holding : SupplyGate → ℕ → Bool
gate_holding g now = g.is_low && not (interval_elapsed now g.low_at recheck_ms)

unfoldable pub measured : SupplyGate → ℕ → ℕ → SupplyGate × Bool
measured g now supply =
    let low = leb supply g.minimum_exclusive_millivolts in
    (record g { is_low = low; low_at = if low then now else g.low_at }, not low)
