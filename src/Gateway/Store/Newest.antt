-- ===== src/Gateway/Store/Newest.antt =====
-- Which of two slots is chosen, after one of them was lost or written.
use radio_sensors.Prelude.{ℕ, ◌^◌, ◌<◌, ◌≡◌, ◌⊎◌, inl, inr, refl, true, Option, none, some, arith}
use radio_sensors.Gateway.Store.{holding, newest_of, next_generation, target_slot}

module _ {M : Type 0} (d : M) where
  -- The value that is not in the target slot survives the loss of the target slot.
  pub newest_of-lost_first :
      (a b : Option (M × ℕ))
      → (newest_of d a b).is_loaded ≡ true
      → target_slot (newest_of d a b) ≡ 0
      → newest_of d none b ≡ newest_of d a b
  unfolding newest_of
  newest_of-lost_first none b h t = refl
  newest_of-lost_first (some x) none h t = ground (arith, t)
  newest_of-lost_first (some x) (some y) h t = ground (arith, t)

  pub newest_of-lost_second :
      (a b : Option (M × ℕ))
      → (newest_of d a b).is_loaded ≡ true
      → target_slot (newest_of d a b) ≡ 1
      → newest_of d a none ≡ newest_of d a b
  unfolding newest_of
  newest_of-lost_second a none h t = refl
  newest_of-lost_second none (some y) h t = ground (arith, t)
  newest_of-lost_second (some x) (some y) h t = ground (arith, t)

  -- A value of the next generation in the target slot is chosen.
  pub newest_of-first :
      (a b : Option (M × ℕ)) (v : M)
      → ((x : M × ℕ) → (a ≡ some x) ⊎ (b ≡ some x) → x.1 < 2 ^ 32)
      → target_slot (newest_of d a b) ≡ 0
      → newest_of d (some (v, next_generation (newest_of d a b))) b
        ≡ holding 0 (v, next_generation (newest_of d a b))
  unfolding newest_of
  newest_of-first none none v lt t = refl
  newest_of-first none (some y) v lt t = ground (arith, lt y (inr refl), t)
  newest_of-first (some x) none v lt t = ground (arith, t)
  newest_of-first (some x) (some y) v lt t = ground (arith, lt x (inl refl), lt y (inr refl), t)

  pub newest_of-second :
      (a b : Option (M × ℕ)) (v : M)
      → ((x : M × ℕ) → (a ≡ some x) ⊎ (b ≡ some x) → x.1 < 2 ^ 32)
      → target_slot (newest_of d a b) ≡ 1
      → newest_of d a (some (v, next_generation (newest_of d a b)))
        ≡ holding 1 (v, next_generation (newest_of d a b))
  unfolding newest_of
  newest_of-second none none v lt t = ground (arith, t)
  newest_of-second none (some y) v lt t = ground (arith, t)
  newest_of-second (some x) none v lt t = ground (arith, lt x (inl refl), t)
  newest_of-second (some x) (some y) v lt t = ground (arith, lt x (inl refl), lt y (inr refl), t)

  pub target_slot-newest_of :
      (a b : Option (M × ℕ))
      → (target_slot (newest_of d a b) ≡ 0) ⊎ (target_slot (newest_of d a b) ≡ 1)
  unfolding newest_of
  target_slot-newest_of none none = inl refl
  target_slot-newest_of none (some y) = inl refl
  target_slot-newest_of (some x) none = inr refl
  target_slot-newest_of (some x) (some y) = ground arith
