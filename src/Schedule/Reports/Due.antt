-- ===== src/Schedule/Reports/Due.antt =====
-- When a report is due, over histories of events.
use radio_sensors.Prelude.{
  ℕ, zero, suc, ◌+◌, ◌≤◌, ◌≡◌, refl, ◌∙◌, true, List, [], ◌∷◌, arith, leb, ltb, ◌==◌, if◌then◌else◌,
  sub32, All,
}
use radio_sensors.Schedule.Reports.{
  ClimateReportSchedule, climate_due, climate_attempted, BinaryReportSchedule, new_binary,
  binary_state_changed, binary_due, binary_take_urgent, binary_sent, CounterReportSchedule,
  pulse_recorded, counter_due, counter_sent, interval_for_millivolts, event_node_keep_alive_ms,
  counter_minimum_report_ms,
}

-- After an attempt the next climate report is due exactly when the interval for the voltage that
-- the attempt measured is over, whatever the schedule was before.
pub climate_due-attempted :
    (s : ClimateReportSchedule) (at supply now : ℕ)
    → let p = s.policy in
      climate_due (climate_attempted s at supply).0 now
      ≡ leb
          (if ltb p.low_charge_threshold_mv supply
            then p.charged_interval_ms
            else p.low_charge_interval_ms)
          (sub32 now at)
unfolding climate_due climate_attempted interval_for_millivolts
climate_due-attempted s at supply now = ground arith

-- What happens to a binary schedule.
pub data BinaryEvent : Type 0 where
  changed urgency_taken : BinaryEvent
  sent : ℕ → BinaryEvent

pub binary_step : BinaryReportSchedule → BinaryEvent → BinaryReportSchedule
binary_step s changed = binary_state_changed s
binary_step s urgency_taken = (binary_take_urgent s).0
binary_step s (sent now) = binary_sent s now

pub binary_run : BinaryReportSchedule → List BinaryEvent → BinaryReportSchedule
binary_run s [] = s
binary_run s (e ∷ es) = binary_run (binary_step s e) es

-- No transmission succeeds.
abbrev pub IsUnsent : BinaryEvent → Type 0
IsUnsent (sent now) = ⊥
IsUnsent _ = Unit {0}

state_changed_kept :
    (s : BinaryReportSchedule) (es : List BinaryEvent) (now : ℕ)
    → s.state_changed ≡ true
    → All IsUnsent es
    → binary_due (binary_run s es) now ≡ true
unfolding binary_run binary_step
state_changed_kept s [] now h u = unfold binary_due in ground arith
state_changed_kept s (changed ∷ es) now h u =
    state_changed_kept (binary_state_changed s) es now (unfold binary_state_changed in refl) u.1
state_changed_kept s (urgency_taken ∷ es) now h u =
    state_changed_kept (binary_take_urgent s).0 es now (unfold binary_take_urgent in h) u.1
state_changed_kept s (sent t ∷ es) now h u = absurd u.0

-- A changed contact is due at every time until a transmission succeeds, whatever else happens.
pub changed_due_until_sent :
    (s : BinaryReportSchedule) (es : List BinaryEvent) (now : ℕ)
    → All IsUnsent es
    → binary_due (binary_run (binary_state_changed s) es) now ≡ true
changed_due_until_sent s es now u =
    state_changed_kept (binary_state_changed s) es now (unfold binary_state_changed in refl) u

-- The attempts that were urgent, and the changes of state.
pub urgent_attempts : BinaryReportSchedule → List BinaryEvent → ℕ
urgent_attempts s [] = 0
urgent_attempts s (changed ∷ es) = urgent_attempts (binary_state_changed s) es
urgent_attempts s (urgency_taken ∷ es) =
    (if (binary_take_urgent s).1 then 1 else 0) + urgent_attempts (binary_take_urgent s).0 es
urgent_attempts s (sent now ∷ es) = urgent_attempts (binary_sent s now) es

abbrev pub changes : List BinaryEvent → ℕ
changes [] = 0
changes (changed ∷ es) = suc (changes es)
changes (_ ∷ es) = changes es

urgent_attempts-le :
    (s : BinaryReportSchedule) (es : List BinaryEvent)
    → urgent_attempts s es ≤ (if s.urgent then 1 else 0) + changes es
unfolding urgent_attempts binary_state_changed binary_take_urgent binary_sent
urgent_attempts-le s [] = ground arith
urgent_attempts-le s (changed ∷ es) = ground (arith, urgent_attempts-le (binary_state_changed s) es)
urgent_attempts-le s (urgency_taken ∷ es) =
    ground (arith, urgent_attempts-le (binary_take_urgent s).0 es)
urgent_attempts-le s (sent now ∷ es) = ground (arith, urgent_attempts-le (binary_sent s now) es)

-- From a new schedule, retry backoff is skipped at most once for each change of state.
pub urgent_attempts-le-changes :
    (interval : ℕ) (es : List BinaryEvent) → urgent_attempts (new_binary interval) es ≤ changes es
urgent_attempts-le-changes interval es =
    let h = urgent_attempts-le (new_binary interval) es in unfold new_binary in omega (arith, h)

-- Pulses that are recorded one after the other.
pub pulses : ℕ → CounterReportSchedule → CounterReportSchedule
pulses zero s = s
pulses (suc n) s = pulses n (pulse_recorded s)

pulses_again : (n : ℕ) (s : CounterReportSchedule) → pulses n (pulse_recorded s) ≡ pulse_recorded s
unfolding pulses
pulses_again zero s = refl
pulses_again (suc n) s = pulses_again n (pulse_recorded s) ∙ (unfold pulse_recorded in refl)

-- After a report was sent, with no count set since, the next one is due after an hour if no pulse
-- was recorded, and after a minute if there were any.
pub counter_due-sent :
    (s : CounterReportSchedule) (n at now : ℕ)
    → s.keep_alive.interval_ms ≡ event_node_keep_alive_ms
    → counter_due (pulses n (counter_sent s at)) now
      ≡ leb (if n == 0 then event_node_keep_alive_ms else counter_minimum_report_ms) (sub32 now at)
unfolding pulses counter_due counter_sent pulse_recorded
counter_due-sent s zero at now h = ground arith
counter_due-sent s (suc n) at now h = rw (pulses_again n (counter_sent s at)) (ground arith)
