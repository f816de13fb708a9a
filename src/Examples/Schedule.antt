-- ===== src/Examples/Schedule.antt =====
-- TelemetrySchedule.h at concrete times.
use radio_sensors.Prelude.{
  ◌+◌, ◌≡◌, ◌≤◌, refl, true, false, [], ◌∷◌, arith, leb, sub32, if◌then◌else◌,
}
use radio_sensors.Schedule.Reports.{
  new_binary, binary_state_changed, binary_due, new_counter, counter_due, counter_sent, adaptive,
  new_climate, climate_due, climate_attempted,
}
use radio_sensors.Schedule.Reports.Due.{
  changed, urgency_taken, binary_run, changed_due_until_sent, urgent_attempts,
  urgent_attempts-le-changes, pulses, counter_due-sent, climate_due-attempted,
}
use radio_sensors.Schedule.Retry.{
  new_backoff, failed, allowed, silent_day_delay_ms, new_policy, session_allowed, session_finished,
}
use radio_sensors.Schedule.Retry.Delays.{
  new_backoff-IsPaced, failed_delay, outage, delay-outage, delay-outage_silent,
  session_allowed-finished,
}
use radio_sensors.Schedule.Join.{new_join, due, attempted}
use radio_sensors.Schedule.Join.Attempts.{attempts, attempts-le-burst, due-attempted}

changed_due_until_sent_example :
    binary_due
      (binary_run (binary_state_changed (new_binary 3600000)) (urgency_taken ∷ changed ∷ []))
      7
    ≡ true
changed_due_until_sent_example =
    changed_due_until_sent (new_binary 3600000) (urgency_taken ∷ changed ∷ []) 7 (tt, (tt, tt))

urgent_attempts-le-changes_test :
    urgent_attempts (new_binary 3600000) (changed ∷ urgency_taken ∷ urgency_taken ∷ []) ≤ 1
urgent_attempts-le-changes_test =
    urgent_attempts-le-changes 3600000 (changed ∷ urgency_taken ∷ urgency_taken ∷ [])

counter_due-sent_test : counter_due (pulses 2 (counter_sent new_counter 1000)) 61000 ≡ true
unfolding new_counter
counter_due-sent_test = counter_due-sent new_counter 2 1000 61000 refl

climate_due-attempted_test :
    climate_due (climate_attempted (new_climate (adaptive 60000 900000 2500)) 5 2400).0 60005
    ≡ false
unfolding new_climate adaptive
climate_due-attempted_test =
    climate_due-attempted (new_climate (adaptive 60000 900000 2500)) 5 2400 60005

failed_delay_test :
    let f = failed (new_backoff true) 1000 in
    (60000 ≤ f.delay_ms)
    × (f.delay_ms ≤ silent_day_delay_ms)
    × ((if (new_backoff true).waiting then (new_backoff true).delay_ms else 0) ≤ f.delay_ms)
    × (allowed f 60999 ≡ leb f.delay_ms (sub32 60999 1000))
failed_delay_test =
    failed_delay (new_backoff true) 1000 60999 (new_backoff-IsPaced true)
      (unfold new_backoff in refl)

delay-outage_example : (outage (new_backoff true) (1000 ∷ 61000 ∷ 361000 ∷ [])).delay_ms ≡ 900000
delay-outage_example =
    delay-outage (new_backoff true) 1000 (61000 ∷ 361000 ∷ []) (unfold new_backoff in refl)
      (omega arith)

waiting_backoff : (failed (new_backoff true) 1000).waiting ≡ true
unfolding failed
waiting_backoff = refl

first_failure : (failed (new_backoff true) 1000).first_failed_at ≡ 1000
unfolding failed new_backoff
first_failure = refl

delay-outage_silent_test :
    (outage (failed (new_backoff true) 1000) (86401000 ∷ 5 ∷ [])).delay_ms ≡ 3600000
delay-outage_silent_test =
    delay-outage_silent (failed (new_backoff true) 1000) 86401000 (5 ∷ []) waiting_backoff
      (omega (arith, first_failure))

session_allowed-finished_test :
    session_allowed (session_finished new_policy 1000 true) 301000 ≡ true
session_allowed-finished_test =
    session_allowed-finished new_policy 1000 301000 true (unfold new_policy in refl)

attempts-le-burst_example : attempts new_join false (0 ∷ 300000 ∷ []) + 0 ≤ 12
unfolding new_join
attempts-le-burst_example =
    attempts-le-burst new_join (0 ∷ 300000 ∷ []) (record { limit = omega arith; fresh = λ e. refl })

due-attempted_test : due (attempted new_join 1000 true) 301000 false ≡ true
due-attempted_test = due-attempted new_join 1000 301000 true false
