-- ===== src/Examples/Power.antt =====
-- RadioPowerControl.h at a node that reports level 20.
use Prim.Native.Nat.{min}
use radio_sensors.Prelude.{◌+◌, ◌≡◌, ◌≤◌, refl, [], ◌∷◌, true, false, arith}
use radio_sensors.Prelude.Int.{negsuc, ◌+ℤ◌, quot_ℤ}
use radio_sensors.Power.{
  ControlState, Report, policy_auto, fixed_policy, min_level, note_fallback, restart, count_report,
  take_in, observe, decide, adjust, step_down, step_up, is_fixed_policy,
}
use radio_sensors.Power.Bounds.{IsBounded, observe-IsBounded}
use radio_sensors.Power.Decisions.{observe-fixed}
use radio_sensors.Power.History.{observed, observe-auto, fallback_raises}

-- Two reports at level 20, at -60 dBm each.
abbrev loud : ControlState
loud = record {
  known = true;
  reported_level = 20;
  fallback = false;
  reports = 2;
  rssi_sum = negsuc 119;
  floor = 5;
  desired = 20;
}

abbrev loud_report : Report
loud_report = record { level = 20; fallback = false; rssi = negsuc 59 }

abbrev fallback_report : Report
fallback_report = record { level = 20; fallback = true; rssi = negsuc 99 }

observe-loud : (observe loud policy_auto 31 loud_report).1 ≡ 17
unfolding observe take_in note_fallback restart count_report decide adjust step_down step_up
    is_fixed_policy ◌+ℤ◌ quot_ℤ
observe-loud = refl

observe-IsBounded_example : IsBounded 31 (observe loud policy_auto 31 loud_report).0
observe-IsBounded_example =
    observe-IsBounded loud policy_auto 31 loud_report (omega arith) (omega arith)

observe-fixed_test : (observe loud (fixed_policy 25) 22 loud_report).1 ≡ min_level 25 22
observe-fixed_test = observe-fixed loud 25 22 loud_report (omega arith)

-- A node falls back from level 20 to its ceiling, and says so in three reports.
abbrev at_ceiling : Report
at_ceiling = record { level = 31; fallback = true; rssi = negsuc 49 }

abbrev loud_steady : Report
loud_steady = record { level = 31; fallback = false; rssi = negsuc 49 }

fallback_raises_example :
    min 31 (20 + 3) ≤ (observed 31 loud (loud_steady ∷ at_ceiling ∷ at_ceiling ∷ [])).desired
fallback_raises_example =
    fallback_raises 31 loud (omega arith) at_ceiling (omega arith) refl refl refl
      (loud_steady ∷ at_ceiling ∷ []) (λ e. refl, (λ e. refl, tt)) (omega arith)

-- Two more reports at -60 dBm ask for a level three lower.
observe-auto_example :
    (observe (observed 31 loud (loud_report ∷ [])) policy_auto 31 loud_report).1 ≡ 17
unfolding observed observe take_in note_fallback restart count_report decide adjust step_down
    is_fixed_policy ◌+ℤ◌ quot_ℤ
observe-auto_example =
    observe-auto 31 loud (omega arith) (loud_report ∷ []) loud_report (omega arith)
      (omega arith, (omega arith, tt))
