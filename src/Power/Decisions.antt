-- ===== src/Power/Decisions.antt =====
-- What the control asks for: under a fixed policy, inside the target window, after a fallback.
use Prim.Native.Nat.{min, max}
use radio_sensors.Prelude.{
  ℕ, ◌+◌, ◌-◌, ◌≤◌, ◌≡◌, inl, inr, true, not, ◌&&◌, arith, ltb, if◌then◌else◌, Bool-cases,
}
use radio_sensors.Prelude.Int.{ℤ, ◌<ℤ◌, ltb_ℤ, quot_ℤ}
use radio_sensors.Power.{
  Report, ControlState, policy_auto, fixed_policy, is_fixed_policy, fixed_level, valid_policy,
  max_radio_power_level, target_rssi_low, target_rssi_high, reports_per_decision, min_level,
  note_fallback, restart, count_report, step_down, step_up, adjust, decide, take_in, observe,
  fallback_margin, max_step_down, max_step_up,
}

-- The registry's encoding of a fixed level: it is fixed, valid, and reads back.
pub fixed_policy_lem :
    (level : ℕ)
    → level ≤ max_radio_power_level
    → (is_fixed_policy (fixed_policy level) ≡ true)
      × (valid_policy (fixed_policy level) ≡ true)
      × (fixed_level (fixed_policy level) ≡ level)
unfolding fixed_policy is_fixed_policy valid_policy fixed_level
fixed_policy_lem level h = ground arith

-- A fixed policy asks for its level, or the ceiling if that is lower, after every report.
pub observe-fixed :
    (s : ControlState) (level ceiling : ℕ) (r : Report)
    → level ≤ max_radio_power_level
    → (observe s (fixed_policy level) ceiling r).1 ≡ min_level level ceiling
unfolding observe decide
observe-fixed s level ceiling r h = ground (arith, fixed_policy_lem level h)

module _ (desired level : ℕ) (average : ℤ) where
  adjust_down :
      level ≤ max_radio_power_level
      → target_rssi_high <ℤ average
      → adjust desired level average ≡ level - max_step_down
  unfolding adjust step_down
  adjust_down h a = ground arith

  adjust_up :
      level ≤ max_radio_power_level
      → average <ℤ target_rssi_low
      → adjust desired level average ≡ level + max_step_up
  unfolding adjust step_up
  adjust_up h a = ground arith

  adjust_keep :
      ¬ (target_rssi_high <ℤ average)
      → ¬ (average <ℤ target_rssi_low)
      → adjust desired level average ≡ desired
  unfolding adjust
  adjust_keep h a = ground arith

-- The level wanted before a decision: a report of a fallback is taken at its word.
abbrev pub wanted : ControlState → Report → ℕ
wanted s r = if s.known && not r.fallback then s.desired else r.level

-- The floor with a report: a node's first report of a fallback sets it three levels above the level
-- that failed, or at the ceiling.
abbrev pub floor_with : ControlState → ℕ → Report → ℕ
floor_with s ceiling r =
    if r.fallback && s.known && not s.fallback
    then min ceiling (s.reported_level + fallback_margin)
    else s.floor

-- What the control asks for, where `n` reports at the level have this average.
abbrev pub decision : ControlState → ℕ → Report → ℕ → ℤ → ℕ
decision s ceiling r n average =
    min
      (if ltb n reports_per_decision
        then wanted s r
        else max (floor_with s ceiling r) (
            if ltb_ℤ target_rssi_high average
            then r.level - max_step_down
            else if ltb_ℤ average target_rssi_low
            then r.level + max_step_up
            else wanted s r))
      ceiling

module _ (s : ControlState) (ceiling : ℕ) (r : Report) where
  pub floor_taken :
      s.reported_level ≤ max_radio_power_level
      → (take_in s ceiling r).floor ≡ floor_with s ceiling r
  unfolding take_in count_report restart note_fallback
  floor_taken h = ground arith

  pub floor_kept : (r.fallback ≡ true → s.fallback ≡ true) → (take_in s ceiling r).floor ≡ s.floor
  unfolding take_in count_report restart note_fallback
  floor_kept h = elim (Bool-cases r.fallback) [
    | inl f ↦ ground (arith, h f)
    | inr f ↦ ground (arith, f)
  ]

  -- The answer by the count and the sum that the report leaves.
  pub observe-decision :
      s.reported_level ≤ max_radio_power_level
      → r.level ≤ max_radio_power_level
      → (observe s policy_auto ceiling r).1
        ≡ decision s ceiling r
            (take_in s ceiling r).reports
            (quot_ℤ (take_in s ceiling r).rssi_sum (take_in s ceiling r).reports)
  unfolding observe decide is_fixed_policy
  observe-decision m h =
      let a = quot_ℤ (take_in s ceiling r).rssi_sum (take_in s ceiling r).reports in
      ground (
        arith,
        floor_taken m,
        adjust_down (wanted s r) r.level a,
        adjust_up (wanted s r) r.level a,
        adjust_keep (wanted s r) r.level a,
      )

  -- A decision stays above the floor that the report leaves, and under the ceiling.
  pub observe-ge-floor :
      reports_per_decision ≤ (take_in s ceiling r).reports
      → min (take_in s ceiling r).floor ceiling ≤ (observe s policy_auto ceiling r).0.desired
  unfolding observe decide is_fixed_policy
  observe-ge-floor h = ground arith
