-- ===== src/Node/Supply/Gate.antt =====
-- The gate is open only behind a measurement above the minimum.
use radio_sensors.Prelude.{ℕ, ◌≤◌, ◌<◌, ◌≡◌, ◌↔◌, refl, true, List, [], ◌∷◌, sub32, arith}
use radio_sensors.Node.Supply.{SupplyGate, new_gate, gate_holding, measured, recheck_ms}

-- The measurements of a gate, the last one first: when, and the millivolts.
unfoldable pub run_gate : SupplyGate → List (ℕ × ℕ) → SupplyGate
run_gate g [] = g
run_gate g (m ∷ ms) = (measured (run_gate g ms) m.0 m.1).0

run_gate-minimum :
    (g : SupplyGate) (ms : List (ℕ × ℕ))
    → (run_gate g ms).minimum_exclusive_millivolts ≡ g.minimum_exclusive_millivolts
unfolding run_gate measured
run_gate-minimum g [] = refl
run_gate-minimum g (m ∷ ms) = run_gate-minimum g ms

-- Behind any measurements, the gate holds exactly if the last one was at the minimum or below and is
-- less than a minute old.
pub gate_holding_iff :
    (minimum now since supply : ℕ) (ms : List (ℕ × ℕ))
    → (gate_holding (run_gate (new_gate minimum) ((since, supply) ∷ ms)) now ≡ true)
      ↔ ((supply ≤ minimum) × (sub32 now since < recheck_ms))
unfolding run_gate measured gate_holding new_gate
gate_holding_iff minimum now since supply ms =
    let same : (run_gate (new_gate minimum) ms).minimum_exclusive_millivolts ≡ minimum =
      run_gate-minimum (new_gate minimum) ms in
    (λ h. ground (arith, same, h), λ p. ground (arith, same, p))

-- A measurement permits transmitting exactly if it is above the minimum, whatever was measured before.
pub measured_iff :
    (minimum now supply : ℕ) (ms : List (ℕ × ℕ))
    → ((measured (run_gate (new_gate minimum) ms) now supply).1 ≡ true) ↔ (minimum < supply)
unfolding measured new_gate
measured_iff minimum now supply ms =
    let same : (run_gate (new_gate minimum) ms).minimum_exclusive_millivolts ≡ minimum =
      run_gate-minimum (new_gate minimum) ms in
    (λ h. ground (arith, same, h), λ p. ground (arith, same, p))
