-- ===== src/Schedule.antt =====
-- node/lib/NodeCore/include/TelemetrySchedule.h: when a node reports, retries and joins. Times are
-- uint32_t milliseconds that wrap.
pub mod Reports
pub mod Retry
pub mod Join
use radio_sensors.Prelude.{ℕ, Bool, leb, sub32}

abbrev pub interval_elapsed : ℕ → ℕ → ℕ → Bool
interval_elapsed now since interval = leb interval (sub32 now since)
