-- ===== src/Prelude/Bits.antt =====
-- Masks on one byte, each checked by a table.
use Prim.Native.Nat.{ℕ, zero, suc, ◌/◌, ◌%◌, ◌<◌, bit_and}
use mathlib.Core.Bool.{Bool, true, ◌&&◌}
use mathlib.Core.Path.{◌≡◌, refl}
use native.Mathlib.Omega.{arith}
use radio_sensors.Prelude.Tests.{◌==◌, ==_iff}

unfoldable pub holds_below : ℕ → (ℕ → Bool) → Bool
holds_below zero p = true
holds_below (suc n) p = p n && holds_below n p

pub holds_below→holds : (n : ℕ) (p : ℕ → Bool) (x : ℕ) → holds_below n p ≡ true → x < n → p x ≡ true
unfolding holds_below
holds_below→holds zero p x h lt = absurd (omega arith)
holds_below→holds (suc n) p x h lt = ground (arith, holds_below→holds n p x)

module _ (f g : ℕ → ℕ) where
  pub eq_by_table : (n : ℕ) → holds_below n (λ x. f x == g x) ≡ true → (x : ℕ) → x < n → f x ≡ g x
  eq_by_table n t x h = (==_iff (f x) (g x)).0 (holds_below→holds n (λ y. f y == g y) x t h)

-- The high three bits and the low five bits of a header byte.
pub bit_and-high_three : (x : ℕ) → x < 256 → bit_and x 0xe0 / 32 ≡ x / 32
unfolding holds_below
bit_and-high_three = eq_by_table (λ x. bit_and x 0xe0 / 32) (λ x. x / 32) 256 refl

pub bit_and-low_five : (x : ℕ) → x < 256 → bit_and x 0x1f ≡ x % 32
unfolding holds_below
bit_and-low_five = eq_by_table (λ x. bit_and x 0x1f) (λ x. x % 32) 256 refl
