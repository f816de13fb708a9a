-- ===== src/Examples/Button.antt =====
-- ResetButton.h at concrete levels.
use radio_sensors.Prelude.{◌≡◌, ◌<◌, ◌↔◌, refl, ℕ, true, false, [], ◌∷◌, sub32}
use radio_sensors.Button.{
  History, confirm_reset, short_press, new_button, confirm_window_ms, update, replay,
}
use radio_sensors.Button.Gesture.{Released, confirm_reset-Released}
use radio_sensors.Button.Safety.{confirm_reset_iff_window}

-- Held from 0 to 10 s, then released at 11 s.
abbrev held_and_released : History
held_and_released = (false, 11000) ∷ (true, 10000) ∷ (true, 0) ∷ []

confirmed_run : (update (replay held_and_released) true 15999).1 ≡ confirm_reset
unfolding replay update new_button
confirmed_run = refl

short_run : (update (replay ((true, 5) ∷ [])) false 1004).1 ≡ short_press
unfolding replay update new_button
short_run = refl

confirm_reset-Released_example :
    (true ≡ true) × (at : ℕ) × Released at held_and_released × (sub32 15999 at < confirm_window_ms)
confirm_reset-Released_example = confirm_reset-Released held_and_released true 15999 confirmed_run

confirm_reset_iff_window_test :
    ((update (replay held_and_released) true 15999).1 ≡ confirm_reset) ↔ (
      (true ≡ true)
      × ((replay held_and_released).pressed ≡ false)
      × ((replay held_and_released).waiting ≡ true)
      × (sub32 15999 (replay held_and_released).released_at < confirm_window_ms))
confirm_reset_iff_window_test = confirm_reset_iff_window (replay held_and_released) true 15999
