-- ===== src/Power.antt =====
-- shared/RadioProtocol/include/RadioPowerControl.h: the policy encoding, and the control of one
-- node's transmit power by the gateway. Levels and policies are uint8_t, an RSSI is an int16_t.
pub mod Bounds
pub mod Decisions
pub mod History
use radio_sensors.Prelude.{
  ℕ, ◌+◌, ◌-◌, ◌%◌, ◌≤◌, ◌≡◌, Bool, true, false, not, ◌&&◌, ◌||◌, ltb, leb, ◌==◌, if◌then◌else◌,
  sub8,
}
use radio_sensors.Prelude.Int.{ℤ, pos, negsuc, ◌+ℤ◌, ◌-ℤ◌, ltb_ℤ, quot_ℤ, to_u8}

abbrev pub max_radio_power_level : ℕ
max_radio_power_level = 31

abbrev pub policy_auto : ℕ
policy_auto = 0

unfoldable pub fixed_policy : ℕ → ℕ
fixed_policy level = (level + 1) % 256

unfoldable pub is_fixed_policy : ℕ → Bool
is_fixed_policy policy = not (policy == policy_auto)

unfoldable pub fixed_level : ℕ → ℕ
fixed_level policy = sub8 policy 1

unfoldable pub valid_policy : ℕ → Bool
valid_policy policy = leb policy (max_radio_power_level + 1)

abbrev pub target_rssi_low : ℤ
target_rssi_low = negsuc 84

abbrev pub target_rssi_high : ℤ
target_rssi_high = negsuc 74

abbrev pub target_rssi_center : ℤ
target_rssi_center = negsuc 79

abbrev pub reports_per_decision : ℕ
reports_per_decision = 3

abbrev pub max_step_down : ℕ
max_step_down = 3

abbrev pub max_step_up : ℕ
max_step_up = 6

abbrev pub fallback_margin : ℕ
fallback_margin = 3

pub record Report : Type 0 where
  pub level : ℕ
  pub fallback : Bool
  pub rssi : ℤ

pub record ControlState : Type 0 where
  pub known : Bool
  pub reported_level : ℕ
  pub fallback : Bool
  pub reports : ℕ
  pub rssi_sum : ℤ
  pub floor : ℕ
  pub desired : ℕ

abbrev pub no_level : ℕ
no_level = 0xff

abbrev pub min_level : ℕ → ℕ → ℕ
min_level left right = if ltb left right then left else right

unfoldable pub change_policy : ControlState → ℕ → ℕ → ControlState × ℕ
unfolding is_fixed_policy fixed_level
change_policy state policy ceiling =
    let s = record state { reports = 0; rssi_sum = pos 0 } in
    let fixed = min_level (fixed_level policy) ceiling in
    let last = min_level state.reported_level ceiling in
    if is_fixed_policy policy
    then (record s { desired = fixed }, fixed)
    else if state.known
    then (record s { desired = last }, last)
    else (s, no_level)

-- The floor that a new fallback sets.
unfoldable pub note_fallback : ControlState → ℕ → Report → ControlState
note_fallback state ceiling report =
    if report.fallback && state.known && not state.fallback
    then record state { floor = min_level ceiling ((state.reported_level + fallback_margin) % 256) }
    else state

-- A new average starts at another level.
unfoldable pub restart : ControlState → Report → ControlState
restart state report =
    if not state.known || not (report.level == state.reported_level)
    then record state { reports = 0; rssi_sum = pos 0 }
    else state

-- The report's level and RSSI are taken in.
unfoldable pub count_report : ControlState → Report → ControlState
count_report state report =
    let s = record state {
      known = true;
      reported_level = report.level;
      fallback = report.fallback;
    } in
    if ltb s.reports 255
    then record s { reports = s.reports + 1; rssi_sum = s.rssi_sum +ℤ report.rssi }
    else s

unfoldable pub step_down : ℤ → ℕ
unfolding ◌-ℤ◌ to_u8
step_down average =
    let excess = average -ℤ target_rssi_center in
    if ltb_ℤ (pos max_step_down) excess then max_step_down else to_u8 excess

unfoldable pub step_up : ℤ → ℕ
unfolding ◌-ℤ◌ to_u8
step_up average =
    let deficit = target_rssi_center -ℤ average in
    if ltb_ℤ (pos max_step_up) deficit then max_step_up else to_u8 deficit

-- The level that an average asks for, where `desired` was wanted.
unfoldable pub adjust : ℕ → ℕ → ℤ → ℕ
adjust desired level average =
    if ltb_ℤ target_rssi_high average
    then if ltb (step_down average) level then level - step_down average else 0
    else if ltb_ℤ average target_rssi_low
    then (level + step_up average) % 256
    else desired

-- The body of `observe` behind the counting; `desired` is the level wanted so far.
unfoldable pub decide : ControlState → ℕ → ℕ → ℕ → ℕ
decide s policy desired level =
    let asked = adjust desired level (quot_ℤ s.rssi_sum s.reports) in
    if is_fixed_policy policy
    then fixed_level policy
    else if leb reports_per_decision s.reports
    then if ltb asked s.floor then s.floor else asked
    else desired

-- The state after the report is taken in, before the decision.
unfoldable pub take_in : ControlState → ℕ → Report → ControlState
take_in state ceiling report =
    count_report (restart (note_fallback state ceiling report) report) report

unfoldable pub observe : ControlState → ℕ → ℕ → Report → ControlState × ℕ
observe state policy ceiling report =
    let keep_desired = state.known && not report.fallback in
    let s = take_in state ceiling report in
    let wanted = if keep_desired then state.desired else report.level in
    let desired = min_level (decide s policy wanted report.level) ceiling in
    (record s { desired = desired }, desired)
