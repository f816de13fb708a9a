-- ===== src/Schedule/Reports.antt =====
-- The report schedules of TelemetrySchedule.h: ClimateReportPolicy, ClimateReportSchedule,
-- RollingKeepAlive, BinaryReportSchedule and CounterReportSchedule.
pub mod Due
use radio_sensors.Prelude.{ℕ, Bool, true, false, not, ◌&&◌, ◌||◌, ltb, if◌then◌else◌}
use radio_sensors.Schedule.{interval_elapsed}

abbrev pub event_node_keep_alive_ms : ℕ
event_node_keep_alive_ms = 3600000

abbrev pub counter_minimum_report_ms : ℕ
counter_minimum_report_ms = 60000

pub record ClimateReportPolicy : Type 0 where
  pub charged_interval_ms : ℕ
  pub low_charge_interval_ms : ℕ
  pub low_charge_threshold_mv : ℕ

unfoldable pub fixed : ℕ → ClimateReportPolicy
fixed interval_ms = record {
  charged_interval_ms = interval_ms;
  low_charge_interval_ms = interval_ms;
  low_charge_threshold_mv = 0;
}

unfoldable pub adaptive : ℕ → ℕ → ℕ → ClimateReportPolicy
adaptive charged low threshold = record {
  charged_interval_ms = charged;
  low_charge_interval_ms = low;
  low_charge_threshold_mv = threshold;
}

unfoldable pub interval_for_millivolts : ClimateReportPolicy → ℕ → ℕ
interval_for_millivolts p supply =
    if ltb p.low_charge_threshold_mv supply then p.charged_interval_ms else p.low_charge_interval_ms

pub record ClimateReportSchedule : Type 0 where
  pub policy : ClimateReportPolicy
  pub interval_ms : ℕ
  pub last_attempt : ℕ
  pub has_attempt : Bool

-- The member functions of ClimateReportSchedule.
unfoldable pub new_climate : ClimateReportPolicy → ClimateReportSchedule
new_climate policy = record {
  policy = policy;
  interval_ms = 0;
  last_attempt = 0;
  has_attempt = false;
}

unfoldable pub climate_due : ClimateReportSchedule → ℕ → Bool
climate_due s now = not s.has_attempt || interval_elapsed now s.last_attempt s.interval_ms

unfoldable pub climate_attempted : ClimateReportSchedule → ℕ → ℕ → ClimateReportSchedule × ℕ
climate_attempted s now supply =
    let interval = interval_for_millivolts s.policy supply in
    (record s { interval_ms = interval; last_attempt = now; has_attempt = true }, interval)

pub record RollingKeepAlive : Type 0 where
  pub interval_ms : ℕ
  pub last_successful_transmission : ℕ
  pub has_successful_transmission : Bool

-- The member functions of RollingKeepAlive.
unfoldable pub new_keep_alive : ℕ → RollingKeepAlive
new_keep_alive interval_ms = record {
  interval_ms = interval_ms;
  last_successful_transmission = 0;
  has_successful_transmission = false;
}

unfoldable pub keep_alive_due : RollingKeepAlive → ℕ → Bool
keep_alive_due k now =
    not k.has_successful_transmission
    || interval_elapsed now k.last_successful_transmission k.interval_ms

unfoldable pub keep_alive_sent : RollingKeepAlive → ℕ → RollingKeepAlive
keep_alive_sent k now = record k {
  last_successful_transmission = now;
  has_successful_transmission = true;
}

unfoldable pub set_interval : RollingKeepAlive → ℕ → RollingKeepAlive
set_interval k interval_ms = record k { interval_ms = interval_ms }

pub record BinaryReportSchedule : Type 0 where
  pub keep_alive : RollingKeepAlive
  pub state_changed : Bool
  pub urgent : Bool

-- The member functions of BinaryReportSchedule.
unfoldable pub new_binary : ℕ → BinaryReportSchedule
unfolding new_keep_alive
new_binary interval_ms = record {
  keep_alive = new_keep_alive interval_ms;
  state_changed = false;
  urgent = false;
}

unfoldable pub binary_state_changed : BinaryReportSchedule → BinaryReportSchedule
binary_state_changed s = record s { state_changed = true; urgent = true }

unfoldable pub binary_due : BinaryReportSchedule → ℕ → Bool
unfolding keep_alive_due
binary_due s now = s.state_changed || keep_alive_due s.keep_alive now

unfoldable pub binary_take_urgent : BinaryReportSchedule → BinaryReportSchedule × Bool
binary_take_urgent s = (record s { urgent = false }, s.urgent)

unfoldable pub binary_sent : BinaryReportSchedule → ℕ → BinaryReportSchedule
unfolding keep_alive_sent
binary_sent s now = record s {
  state_changed = false;
  keep_alive = keep_alive_sent s.keep_alive now;
}

pub record CounterReportSchedule : Type 0 where
  pub keep_alive : RollingKeepAlive
  pub last_successful_transmission : ℕ
  pub has_successful_transmission : Bool
  pub count_changed : Bool
  pub immediate_report_pending : Bool
  pub urgent : Bool

-- The member functions of CounterReportSchedule.
unfoldable pub new_counter : CounterReportSchedule
unfolding new_keep_alive
new_counter = record {
  keep_alive = new_keep_alive event_node_keep_alive_ms;
  last_successful_transmission = 0;
  has_successful_transmission = false;
  count_changed = false;
  immediate_report_pending = false;
  urgent = false;
}

unfoldable pub pulse_recorded : CounterReportSchedule → CounterReportSchedule
pulse_recorded s = record s { count_changed = true }

unfoldable pub count_set : CounterReportSchedule → CounterReportSchedule
count_set s = record s { count_changed = true; immediate_report_pending = true; urgent = true }

unfoldable pub counter_take_urgent : CounterReportSchedule → CounterReportSchedule × Bool
counter_take_urgent s = (record s { urgent = false }, s.urgent)

unfoldable pub counter_due : CounterReportSchedule → ℕ → Bool
unfolding keep_alive_due
counter_due s now =
    s.immediate_report_pending
    || keep_alive_due s.keep_alive now
    || (s.count_changed
        && s.has_successful_transmission
        && interval_elapsed now s.last_successful_transmission counter_minimum_report_ms)

unfoldable pub counter_sent : CounterReportSchedule → ℕ → CounterReportSchedule
unfolding keep_alive_sent
counter_sent s now = record s {
  count_changed = false;
  immediate_report_pending = false;
  last_successful_transmission = now;
  has_successful_transmission = true;
  keep_alive = keep_alive_sent s.keep_alive now;
}
