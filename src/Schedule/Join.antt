-- ===== src/Schedule/Join.antt =====
-- JoinRetrySchedule of TelemetrySchedule.h, and the polling of it while a node is unconfigured or
-- provisional.
pub mod Attempts
use radio_sensors.Prelude.{ℕ, ◌+◌, Bool, true, false, not, ◌&&◌, ltb, if◌then◌else◌}
use radio_sensors.Schedule.{interval_elapsed}

abbrev pub burst_interval_ms : ℕ
burst_interval_ms = 300000

abbrev pub burst_attempts_limit : ℕ
burst_attempts_limit = 12

abbrev pub provisional_interval_ms : ℕ
provisional_interval_ms = 3600000

pub record JoinRetrySchedule : Type 0 where
  pub last_attempt : ℕ
  pub burst_attempts : ℕ
  pub attempted_once : Bool

unfoldable pub new_join : JoinRetrySchedule
new_join = record { last_attempt = 0; burst_attempts = 0; attempted_once = false }

unfoldable pub due : JoinRetrySchedule → ℕ → Bool → Bool
due s now provisional =
    if not s.attempted_once
    then true
    else if ltb s.burst_attempts burst_attempts_limit
    then interval_elapsed now s.last_attempt burst_interval_ms
    else provisional && interval_elapsed now s.last_attempt provisional_interval_ms

unfoldable pub attempted : JoinRetrySchedule → ℕ → Bool → JoinRetrySchedule
attempted s now requested_by_button =
    let burst : ℕ = if requested_by_button then 0 else s.burst_attempts in
    record s {
      burst_attempts = if ltb burst burst_attempts_limit then burst + 1 else burst;
      last_attempt = now;
      attempted_once = true;
    }
