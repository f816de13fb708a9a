-- ===== src/Button/Safety.antt =====
-- What a reset needs, and the states that the button can reach.
use radio_sensors.Prelude.{ℕ, ◌≤◌, ◌<◌, ◌≡◌, ◌↔◌, Bool, true, false, [], ◌∷◌, arith, sub32}
use radio_sensors.Button.{
  ResetButton, confirm_reset, hold_ms, confirm_window_ms, new_button, update, History, replay,
}

-- A released button is not armed and hides no release; a button that waits is up and not armed;
-- one whose release is hidden is not armed.
pub record IsConsistent (b : ResetButton) : Type 0 where
  pub up_disarmed : b.pressed ≡ false → (b.armed ≡ false) × (b.suppress_release ≡ false)
  pub waiting_up : b.waiting ≡ true → (b.pressed ≡ false) × (b.armed ≡ false)
  pub hidden_disarmed : b.suppress_release ≡ true → b.armed ≡ false

-- A new button is consistent, and `update` keeps it so at every level and time.
pub update-IsConsistent :
    (b : ResetButton) (p : Bool) (now : ℕ) → IsConsistent b → IsConsistent (update b p now).0
unfolding update
update-IsConsistent b true now v = ground arith
update-IsConsistent b false now v = ground arith

pub new_button-IsConsistent : IsConsistent new_button
unfolding new_button
new_button-IsConsistent = ground arith

pub replay-IsConsistent : (h : History) → IsConsistent (replay h)
unfolding replay
replay-IsConsistent [] = new_button-IsConsistent
replay-IsConsistent ((p, now) ∷ h) = update-IsConsistent (replay h) p now (replay-IsConsistent h)

-- A reset is confirmed exactly by a press of a released button that waits, inside the window.
pub confirm_reset_iff_window :
    (b : ResetButton) (p : Bool) (now : ℕ)
    → ((update b p now).1 ≡ confirm_reset) ↔ (
        (p ≡ true)
        × (b.pressed ≡ false)
        × (b.waiting ≡ true)
        × (sub32 now b.released_at < confirm_window_ms))
unfolding update
confirm_reset_iff_window b true now = (ground arith, ground arith)
confirm_reset_iff_window b false now = (ground arith, ground arith)

-- A button starts to wait only by the release of a press that was seen held for `hold_ms`.
pub waiting_needs_armed :
    (b : ResetButton) (p : Bool) (now : ℕ)
    → b.waiting ≡ false
    → (update b p now).0.waiting ≡ true
    → (p ≡ false) × (b.pressed ≡ true) × (b.armed ≡ true) × ((update b p now).0.released_at ≡ now)
unfolding update
waiting_needs_armed b true now h e = ground arith
waiting_needs_armed b false now h e = ground arith

pub armed_needs_hold :
    (b : ResetButton) (p : Bool) (now : ℕ)
    → b.armed ≡ false
    → (update b p now).0.armed ≡ true
    → (p ≡ true) × (b.pressed ≡ true) × (hold_ms ≤ sub32 now b.pressed_at)
unfolding update
armed_needs_hold b true now h e = ground arith
armed_needs_hold b false now h e = ground arith
