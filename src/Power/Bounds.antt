-- ===== src/Power/Bounds.antt =====
-- The range of every level that the gateway asks for, and of the running sum.
use radio_sensors.Prelude.{ℕ, ◌*◌, ◌≤◌, arith}
use radio_sensors.Prelude.Int.{nat_abs, nat_abs-+ℤ-le}
use radio_sensors.Power.{
  Report, ControlState, note_fallback, restart, count_report, take_in, observe, change_policy,
}

-- The sum is that of `reports` int16_t values at most, so that it fits an int32_t.
pub record IsSummed (s : ControlState) : Type 0 where
  pub reports_le : s.reports ≤ 255
  pub sum_le : nat_abs s.rssi_sum ≤ 32768 * s.reports

-- The floor and the level wanted stay under the node's ceiling.
pub record IsBounded (ceiling : ℕ) (s : ControlState) : Type 0 where
  pub floor_le : s.floor ≤ ceiling
  pub desired_le : s.desired ≤ ceiling
  pub summed : IsSummed s

note_fallback-IsSummed :
    (s : ControlState) (ceiling : ℕ) (r : Report)
    → IsSummed s
    → IsSummed (note_fallback s ceiling r)
unfolding note_fallback
note_fallback-IsSummed s ceiling r v = ground arith

restart-IsSummed : (s : ControlState) (r : Report) → IsSummed s → IsSummed (restart s r)
unfolding restart
restart-IsSummed s r v = ground arith

count_report-IsSummed :
    (s : ControlState) (r : Report)
    → nat_abs r.rssi ≤ 32768
    → IsSummed s
    → IsSummed (count_report s r)
unfolding count_report
count_report-IsSummed s r h v = ground (arith, nat_abs-+ℤ-le s.rssi_sum r.rssi)

take_in-IsSummed :
    (s : ControlState) (ceiling : ℕ) (r : Report)
    → nat_abs r.rssi ≤ 32768
    → IsSummed s
    → IsSummed (take_in s ceiling r)
unfolding take_in
take_in-IsSummed s ceiling r h v =
    count_report-IsSummed _ r h (restart-IsSummed _ r (note_fallback-IsSummed s ceiling r v))

take_in-floor-le :
    (s : ControlState) (ceiling : ℕ) (r : Report)
    → s.floor ≤ ceiling
    → (take_in s ceiling r).floor ≤ ceiling
unfolding take_in note_fallback restart count_report
take_in-floor-le s ceiling r h = ground arith

-- Taking in any report keeps the state within its bounds, under every policy.
pub observe-IsBounded :
    (s : ControlState) (policy ceiling : ℕ) (r : Report)
    → nat_abs r.rssi ≤ 32768
    → IsBounded ceiling s
    → IsBounded ceiling (observe s policy ceiling r).0
unfolding observe
observe-IsBounded s policy ceiling r h v = record {
  floor_le = take_in-floor-le s ceiling r v.floor_le;
  desired_le = ground arith;
  summed =
      let t = take_in-IsSummed s ceiling r h v.summed in
      record { reports_le = t.reports_le; sum_le = t.sum_le };
}

-- So does a change of the policy.
pub change_policy-IsBounded :
    (s : ControlState) (policy ceiling : ℕ)
    → IsBounded ceiling s
    → IsBounded ceiling (change_policy s policy ceiling).0
unfolding change_policy
change_policy-IsBounded s policy ceiling v = ground arith
