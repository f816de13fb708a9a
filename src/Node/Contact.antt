-- ===== src/Node/Contact.antt =====
-- node/lib/NodeCore/include/ConfirmedInput.h: the confirmation of a polled contact's changes.
-- The template's input is a record of its two operations, which may change its state.
pub mod Held
use radio_sensors.Prelude.{ℕ, Bool, true, false, not, Option, none, some, ◌&&◌, ◌||◌, if◌then◌else◌}
use radio_sensors.Schedule.{interval_elapsed}

pub data InputChange : Type 0 where
  unchanged fell rose : InputChange

-- `sample` gives the level, `none` if the contact did not stabilize.
pub record Input : Type 1 where
  pub State : Type 0
  pub read_once : State → State × Bool
  pub sample : State → State × Option Bool

abbrev pub same_level : Bool → Bool → Bool
same_level true b = b
same_level false b = not b

abbrev pub change_to : Bool → InputChange
change_to high = if high then rose else fell

-- ConfirmedInput::update, from `high_` and the input's state.
unfoldable pub confirm : (I : Input) → Bool → I.State → Bool × I.State × InputChange
confirm I high s =
    let (s1, level) = I.read_once s in
    if same_level level high
    then (high, s1, unchanged)
    else let (s2, sampled) = I.sample s1 in
      elim sampled [
        | none ↦ (high, s2, unchanged)
        | some stable ↦
            if same_level stable high then (high, s2, unchanged) else (stable, s2, change_to stable)
      ]

pub record MinimumPhaseFilter : Type 0 where
  pub minimum_phase_ms : ℕ
  pub pending_since : ℕ
  pub accepted : Bool
  pub is_pending : Bool

unfoldable pub new_filter : ℕ → Bool → MinimumPhaseFilter
new_filter minimum_phase initial_high = record {
  minimum_phase_ms = minimum_phase;
  pending_since = 0;
  accepted = initial_high;
  is_pending = false;
}

-- MinimumPhaseFilter::update
unfoldable pub filter_update : MinimumPhaseFilter → ℕ → Bool → MinimumPhaseFilter × InputChange
filter_update f now high =
    if same_level high f.accepted
    then (record f { is_pending = false }, unchanged)
    else if not f.is_pending
    then (record f { is_pending = true; pending_since = now }, unchanged)
    else if not (interval_elapsed now f.pending_since f.minimum_phase_ms)
    then (f, unchanged)
    else (record f { accepted = high; is_pending = false }, change_to high)
