-- ===== src/Button/Gesture.antt =====
-- The whole gesture behind a confirmed reset, read off the history of levels.
use radio_sensors.Prelude.{
  ℕ, ◌≤◌, ◌<◌, ◌≡◌, inl, inr, Bool, true, false, [], ◌∷◌, arith, sub32, Bool-cases,
}
use radio_sensors.Button.{
  ResetButton, confirm_reset, hold_ms, confirm_window_ms, new_button, update, History, replay,
}
use radio_sensors.Button.Safety.{
  IsConsistent, update-IsConsistent, replay-IsConsistent, confirm_reset_iff_window,
  waiting_needs_armed, armed_needs_hold,
}

-- The button is down since `start`, with no release in between.
pub data Held (start : ℕ) : History → Type 0 where
  first : {h : History} → Held start ((true, start) ∷ h)
  more : {t : ℕ} {h : History} → Held start h → Held start ((true, t) ∷ h)

-- The button is down, and was seen down `hold_ms` after it was pressed.
pub data LongHeld : History → Type 0 where
  reached :
      {start t : ℕ} {h : History}
      → Held start ((true, t) ∷ h)
      → hold_ms ≤ sub32 t start
      → LongHeld ((true, t) ∷ h)
  still : {t : ℕ} {h : History} → LongHeld h → LongHeld ((true, t) ∷ h)

-- The button was released at `at` after a long hold, and has not been pressed since.
pub data Released (at : ℕ) : History → Type 0 where
  up : {h : History} → LongHeld h → Released at ((false, at) ∷ h)
  idle : {t : ℕ} {h : History} → Released at h → Released at ((false, t) ∷ h)

record Explains (h : History) (b : ResetButton) : Type 0 where
  held : b.pressed ≡ true → Held b.pressed_at h
  long : b.armed ≡ true → LongHeld h
  released : b.waiting ≡ true → Released b.released_at h

pressed_after : (b : ResetButton) (p : Bool) (now : ℕ) → (update b p now).0.pressed ≡ p
unfolding update
pressed_after b true now = ground arith
pressed_after b false now = ground arith

pressed_at_kept :
    (b : ResetButton) (now : ℕ) → b.pressed ≡ true → (update b true now).0.pressed_at ≡ b.pressed_at
unfolding update
pressed_at_kept b now e = ground arith

pressed_at_set :
    (b : ResetButton) (now : ℕ) → b.pressed ≡ false → (update b true now).0.pressed_at ≡ now
unfolding update
pressed_at_set b now e = ground arith

released_at_kept :
    (b : ResetButton) (now : ℕ)
    → IsConsistent b
    → b.waiting ≡ true
    → (update b false now).0.released_at ≡ b.released_at
unfolding update
released_at_kept b now v e = ground arith

waiting_ends : (b : ResetButton) (now : ℕ) → IsConsistent b → (update b true now).0.waiting ≡ false
unfolding update
waiting_ends b now v = ground arith

module _ (b : ResetButton) (now : ℕ) (h : History) (v : IsConsistent b) (x : Explains h b) where
  Held-step :
      (p : Bool)
      → (update b p now).0.pressed ≡ true
      → Held (update b p now).0.pressed_at ((p, now) ∷ h)
  Held-step false e = cc (pressed_after b false now)
  Held-step true e = elim (Bool-cases b.pressed) [
    | inl down ↦ rw (pressed_at_kept b now down) (more (x.held down))
    | inr raised ↦ rw (pressed_at_set b now raised) first
  ]

  long_step : (p : Bool) → (update b p now).0.armed ≡ true → LongHeld ((p, now) ∷ h)
  long_step false e =
      cc ((update-IsConsistent b false now v).up_disarmed (pressed_after b false now)).0
  long_step true e = elim (Bool-cases b.armed) [
    | inl old ↦ still (x.long old)
    | inr new ↦ let f = armed_needs_hold b true now new e in reached (more (x.held f.1)) f.2
  ]

  Released-step :
      (p : Bool)
      → (update b p now).0.waiting ≡ true
      → Released (update b p now).0.released_at ((p, now) ∷ h)
  Released-step true e = cc (waiting_ends b now v)
  Released-step false e = elim (Bool-cases b.waiting) [
    | inl old ↦ rw (released_at_kept b now v old) (idle (x.released old))
    | inr new ↦ let f = waiting_needs_armed b false now new e in rw f.3 (up (x.long f.2))
  ]

Explains-replay : (h : History) → Explains h (replay h)
unfolding replay
Explains-replay [] = record {
  held = unfold new_button in λ e. cc;
  long = unfold new_button in λ e. cc;
  released = unfold new_button in λ e. cc;
}
Explains-replay ((p, now) ∷ h) =
    let v = replay-IsConsistent h in
    let x = Explains-replay h in
    record {
      held = Held-step (replay h) now h v x p;
      long = long_step (replay h) now h v x p;
      released = Released-step (replay h) now h v x p;
    }

-- Whatever levels a new button is fed, a reset is confirmed only by a press that follows, within
-- `confirm_window_ms`, the release of a press that was held without a break for `hold_ms` at least.
pub confirm_reset-Released :
    (h : History) (p : Bool) (now : ℕ)
    → (update (replay h) p now).1 ≡ confirm_reset
    → (p ≡ true) × (at : ℕ) × Released at h × (sub32 now at < confirm_window_ms)
confirm_reset-Released h p now e =
    let f = (confirm_reset_iff_window (replay h) p now).0 e in
    (f.0, (replay h).released_at, (Explains-replay h).released f.2, f.3)
