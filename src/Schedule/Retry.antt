-- ===== src/Schedule/Retry.antt =====
-- RadioRetryBackoff and HintedSessionPolicy of TelemetrySchedule.h.
pub mod Delays
use radio_sensors.Prelude.{
  ℕ, zero, suc, ◌+◌, Bool, true, false, not, ◌&&◌, ◌||◌, ltb, if◌then◌else◌,
}
use radio_sensors.Schedule.{interval_elapsed}

abbrev pub last_level : ℕ
last_level = 2

abbrev pub silent_day_ms : ℕ
silent_day_ms = 86400000

abbrev pub silent_day_delay_ms : ℕ
silent_day_delay_ms = 3600000

-- The table `delays`; the level that indexes it does not pass `last_level`.
abbrev pub delays : ℕ → ℕ
delays zero = 60000
delays (suc zero) = 300000
delays (suc (suc _)) = 900000

pub record RadioRetryBackoff : Type 0 where
  pub first_failed_at : ℕ
  pub failed_at : ℕ
  pub delay_ms : ℕ
  pub failure_level : ℕ
  pub enabled : Bool
  pub waiting : Bool
  pub silent_for_day : Bool

-- The constructors of RadioRetryBackoff: `none()` gives `false`, the public one `true`.
unfoldable pub new_backoff : Bool → RadioRetryBackoff
new_backoff enabled = record {
  first_failed_at = 0;
  failed_at = 0;
  delay_ms = 0;
  failure_level = 0;
  enabled = enabled;
  waiting = false;
  silent_for_day = false;
}

unfoldable pub allowed : RadioRetryBackoff → ℕ → Bool
allowed b now = not b.enabled || not b.waiting || interval_elapsed now b.failed_at b.delay_ms

-- The level and the silence that a failure leads to.
unfoldable pub escalate : RadioRetryBackoff → ℕ → RadioRetryBackoff
escalate b now =
    if not b.waiting
    then record b { first_failed_at = now; failure_level = 0; silent_for_day = false }
    else record b {
      failure_level =
          if ltb b.failure_level last_level then b.failure_level + 1 else b.failure_level;
      silent_for_day =
          if interval_elapsed now b.first_failed_at silent_day_ms then true else b.silent_for_day;
    }

unfoldable pub failed : RadioRetryBackoff → ℕ → RadioRetryBackoff
unfolding escalate
failed b now =
    let e = escalate b now in
    record e {
      failed_at = now;
      delay_ms = if e.silent_for_day then silent_day_delay_ms else delays e.failure_level;
      waiting = true;
    }

unfoldable pub succeeded : RadioRetryBackoff → RadioRetryBackoff
succeeded b = record b { waiting = false }

abbrev pub minimum_interval_ms : ℕ
minimum_interval_ms = 300000

pub record HintedSessionPolicy : Type 0 where
  pub unanswered : RadioRetryBackoff
  pub last_session : ℕ
  pub has_session : Bool

unfoldable pub new_policy : HintedSessionPolicy
unfolding new_backoff
new_policy = record { unanswered = new_backoff true; last_session = 0; has_session = false }

unfoldable pub session_allowed : HintedSessionPolicy → ℕ → Bool
unfolding allowed
session_allowed p now =
    (not p.has_session || interval_elapsed now p.last_session minimum_interval_ms)
    && allowed p.unanswered now

unfoldable pub session_finished : HintedSessionPolicy → ℕ → Bool → HintedSessionPolicy
unfolding failed succeeded
session_finished p now answered = record p {
  last_session = now;
  has_session = true;
  unanswered = if answered then succeeded p.unanswered else failed p.unanswered now;
}
