-- ===== src/Button.antt =====
-- shared/RadioProtocol/include/ResetButton.h: the class `ResetButton`, one call of `update` for
-- each debounced level. Times are uint32_t milliseconds that wrap.
pub mod Safety
pub mod Gesture
use radio_sensors.Prelude.{
  ℕ, Bool, true, false, not, ◌&&◌, ◌||◌, List, [], ◌∷◌, ltb, leb, if◌then◌else◌, sub32,
}

pub data Action : Type 0 where
  none short_press confirm_reset : Action

abbrev pub short_press_ms : ℕ
short_press_ms = 1000

abbrev pub hold_ms : ℕ
hold_ms = 10000

abbrev pub confirm_window_ms : ℕ
confirm_window_ms = 5000

pub record ResetButton : Type 0 where
  pub pressed : Bool
  pub armed : Bool
  pub waiting : Bool
  pub suppress_release : Bool
  pub pressed_at : ℕ
  pub released_at : ℕ

unfoldable pub new_button : ResetButton
new_button = record {
  pressed = false;
  armed = false;
  waiting = false;
  suppress_release = false;
  pressed_at = 0;
  released_at = 0;
}

-- The window of the confirming press closes.
unfoldable pub expire : ResetButton → ℕ → ResetButton
expire b now =
    if b.waiting && leb confirm_window_ms (sub32 now b.released_at)
    then record b { waiting = false }
    else b

-- The last test of `update`, which every branch without an early return reaches.
unfoldable pub arm : ResetButton → ℕ → ResetButton × Action
arm b now =
    if b.pressed && not b.suppress_release && leb hold_ms (sub32 now b.pressed_at)
    then (record b { armed = true }, none)
    else (b, none)

-- `pressed != pressed_` and `pressed`.
unfoldable pub press : ResetButton → ℕ → ResetButton × Action
unfolding arm
press b now =
    if b.waiting
    then (
      record b {
        pressed = true;
        pressed_at = now;
        waiting = false;
        armed = false;
        suppress_release = true;
      },
      confirm_reset,
    )
    else arm (record b { pressed = true; pressed_at = now }) now

-- `pressed != pressed_` and not `pressed`.
unfoldable pub release : ResetButton → ℕ → ResetButton × Action
unfolding arm
release b now =
    if b.suppress_release
    then (record b { pressed = false; suppress_release = false }, none)
    else if b.armed
    then arm (record b { pressed = false; armed = false; waiting = true; released_at = now }) now
    else if ltb (sub32 now b.pressed_at) short_press_ms
    then (record b { pressed = false }, short_press)
    else arm (record b { pressed = false }) now

unfoldable pub level : ResetButton → Bool → ℕ → ResetButton × Action
unfolding press release arm
level b true now = if b.pressed then arm b now else press b now
level b false now = if b.pressed then release b now else arm b now

unfoldable pub update : ResetButton → Bool → ℕ → ResetButton × Action
unfolding expire level
update b pressed now = level (expire b now) pressed now

unfoldable pub confirming : ResetButton → Bool
confirming b = b.armed || b.waiting

-- A button's history: the levels fed to it since its construction, each with its time, the
-- latest first.
abbrev pub History : Type 0
History = List (Bool × ℕ)

unfoldable pub replay : History → ResetButton
replay [] = new_button
replay ((pressed, now) ∷ before) = (update (replay before) pressed now).0
