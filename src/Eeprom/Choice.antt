-- ===== src/Eeprom/Choice.antt =====
-- The choice between two slots: what is chosen after one is lost, and after one is newly written.
use radio_sensors.Prelude.{ℕ, ◌<◌, ◌≡◌, ◌⊎◌, inl, inr, refl, Option, none, some, arith, IsByte}
use radio_sensors.Eeprom.{
  StoreState, choose_slot, generation_is_newer, next_slot, next_generation, holding,
}

pub next_generation-IsByte : (st : StoreState) → IsByte (next_generation st)
unfolding next_generation
next_generation-IsByte st = ground arith

module _ {A : Type 0} (generation : A → ℕ) where
  -- A slot that is not the chosen one is lost.
  pub choose_slot-lost_first :
      (a b : Option A)
      → next_slot (choose_slot generation a b).0 ≡ 0
      → (choose_slot generation none b).1 ≡ (choose_slot generation a b).1
  unfolding next_slot choose_slot
  choose_slot-lost_first none none h = refl
  choose_slot-lost_first none (some b) h = refl
  choose_slot-lost_first (some a) none h = ground arith
  choose_slot-lost_first (some a) (some b) h = ground arith

  pub choose_slot-lost_second :
      (a b : Option A)
      → next_slot (choose_slot generation a b).0 ≡ 1
      → (choose_slot generation a none).1 ≡ (choose_slot generation a b).1
  unfolding next_slot choose_slot
  choose_slot-lost_second none none h = refl
  choose_slot-lost_second none (some b) h = ground arith
  choose_slot-lost_second (some a) none h = refl
  choose_slot-lost_second (some a) (some b) h = ground arith

  -- A value of the next generation is chosen.
  pub choose_slot-next_first :
      (a b : Option A) (v : A)
      → ((x : A) → a ≡ some x ⊎ (b ≡ some x) → generation x < 256)
      → next_slot (choose_slot generation a b).0 ≡ 0
      → generation v ≡ next_generation (choose_slot generation a b).0
      → choose_slot generation (some v) b ≡ (holding 0 (generation v), some v)
  unfolding next_slot choose_slot next_generation generation_is_newer
  choose_slot-next_first none none v lt h g = refl
  choose_slot-next_first none (some b) v lt h g = ground (arith, lt b (inr refl))
  choose_slot-next_first (some a) none v lt h g = refl
  choose_slot-next_first (some a) (some b) v lt h g = ground (arith, lt b (inr refl))

  pub choose_slot-next_second :
      (a b : Option A) (v : A)
      → ((x : A) → a ≡ some x ⊎ (b ≡ some x) → generation x < 256)
      → next_slot (choose_slot generation a b).0 ≡ 1
      → generation v ≡ next_generation (choose_slot generation a b).0
      → choose_slot generation a (some v) ≡ (holding 1 (generation v), some v)
  unfolding next_slot choose_slot next_generation generation_is_newer
  choose_slot-next_second none none v lt h g = refl
  choose_slot-next_second none (some b) v lt h g = refl
  choose_slot-next_second (some a) none v lt h g = ground (arith, lt a (inl refl))
  choose_slot-next_second (some a) (some b) v lt h g = ground (arith, lt a (inl refl))

  pub next_slot-choose_slot :
      (a b : Option A)
      → (next_slot (choose_slot generation a b).0 ≡ 0)
        ⊎ (next_slot (choose_slot generation a b).0 ≡ 1)
  unfolding next_slot choose_slot
  next_slot-choose_slot none none = inl refl
  next_slot-choose_slot none (some b) = inl refl
  next_slot-choose_slot (some a) none = inr refl
  next_slot-choose_slot (some a) (some b) = ground arith
