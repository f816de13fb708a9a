-- ===== src/Registry/Removal.antt =====
-- Removal by swapping the last entry in, over any list.
use radio_sensors.Prelude.{
  suc, ◌≡◌, refl, ap, sym, ◌∙◌, ◌⊎◌, inl, inr, Bool, true, false, List, [], ◌∷◌, none, some, arith,
  length, All, Bool-cases, Option-cases,
}
use radio_sensors.Registry.{find_first, put_second, last_to_front, swap_remove}
use radio_sensors.Registry.Table.{
  Pairwise, All-last_to_front, Pairwise-last_to_front, length-last_to_front,
}

-- No two entries pass the test.
abbrev pub AtMostOne : {A : Type 0} → (A → Bool) → List A → Type 0
AtMostOne q = Pairwise (λ a b. q a ≡ true → q b ≡ true → ⊥)

module _ {A : Type 0} (q : A → Bool) where
  find_first-behind :
      (x : A) (xs ys : List A)
      → find_first q xs ≡ find_first q ys
      → find_first q (x ∷ xs) ≡ find_first q (x ∷ ys)
  unfolding find_first
  find_first-behind x xs ys h = rw h

  find_first-skip : (x : A) (xs : List A) → q x ≡ false → find_first q (x ∷ xs) ≡ find_first q xs
  unfolding find_first
  find_first-skip x xs h = rw h

  find_first-none : (xs : List A) → All (λ a. q a ≡ false) xs → find_first q xs ≡ none
  unfolding find_first
  find_first-none [] v = refl
  find_first-none (x ∷ xs) v = rw v.0 (find_first-none xs v.1)

  find_first-put_second :
      (x : A) (ys : List A)
      → All (λ b. q x ≡ true → q b ≡ true → ⊥) ys
      → find_first q (put_second x ys) ≡ find_first q (x ∷ ys)
  unfolding find_first
  find_first-put_second x [] v = refl
  find_first-put_second x (l ∷ rest) v = ground (arith, v.0)

  -- The order of the entries does not matter to a search that one entry at most passes.
  find_first-last_to_front :
      (xs : List A) → AtMostOne q xs → find_first q (last_to_front xs) ≡ find_first q xs
  unfolding last_to_front
  find_first-last_to_front [] u = refl
  find_first-last_to_front (x ∷ xs) u =
      find_first-put_second x (last_to_front xs) (All-last_to_front _ xs u.0)
      ∙ find_first-behind x _ _ (find_first-last_to_front xs u.1)

module _ {A : Type 0} (p : A → Bool) where
  swap_remove_cases :
      (x : A) (xs zs : List A)
      → swap_remove p (x ∷ xs) ≡ some zs
      → ((p x ≡ true) × (zs ≡ last_to_front xs))
        ⊎ ((ys : List A) × (p x ≡ false) × (swap_remove p xs ≡ some ys) × (zs ≡ x ∷ ys))
  unfolding swap_remove
  swap_remove_cases x xs zs h = elim (Bool-cases (p x)) [
    | inl e ↦ inl (e, ground arith)
    | inr e ↦ elim (Option-cases (swap_remove p xs)) [
      | inl gone ↦ absurd (ground arith)
      | inr (ys, found) ↦ inr (ys, e, found, ground arith)
    ]
  ]

  pub All-swap_remove {κ} :
      (P : A → Type κ) (xs zs : List A) → swap_remove p xs ≡ some zs → All P xs → All P zs
  All-swap_remove P [] zs h v = unfold swap_remove in cc
  All-swap_remove P (x ∷ xs) zs h v = elim (swap_remove_cases x xs zs h) [
    | inl (_, e) ↦ rw e (All-last_to_front P xs v.1)
    | inr (ys, _, h', e) ↦ rw e (v.0, All-swap_remove P xs ys h' v.1)
  ]

  pub Pairwise-swap_remove {κ} :
      (R : A → A → Type κ) (xs zs : List A)
      → ((a b : A) → R a b → R b a)
      → swap_remove p xs ≡ some zs
      → Pairwise R xs
      → Pairwise R zs
  Pairwise-swap_remove R [] zs flip h v = unfold swap_remove in cc
  Pairwise-swap_remove R (x ∷ xs) zs flip h v = elim (swap_remove_cases x xs zs h) [
    | inl (_, e) ↦ rw e (Pairwise-last_to_front R xs flip v.1)
    | inr (ys, _, h', e) ↦
        rw e (All-swap_remove (R x) xs ys h' v.0, Pairwise-swap_remove R xs ys flip h' v.1)
  ]

  pub length-swap_remove :
      (xs zs : List A) → swap_remove p xs ≡ some zs → suc (length zs) ≡ length xs
  length-swap_remove [] zs h = unfold swap_remove in cc
  length-swap_remove (x ∷ xs) zs h = elim (swap_remove_cases x xs zs h) [
    | inl (_, e) ↦ rw e (ap suc (length-last_to_front xs))
    | inr (ys, _, h', e) ↦ rw e (ap suc (length-swap_remove xs ys h'))
  ]

  -- Where the removal fails, the search does.
  pub swap_remove-none : (xs : List A) → swap_remove p xs ≡ none → find_first p xs ≡ none
  unfolding find_first swap_remove
  swap_remove-none [] h = refl
  swap_remove-none (x ∷ xs) h = ground (arith, swap_remove-none xs)

  pub find_first-swap_remove :
      (xs zs : List A) → AtMostOne p xs → swap_remove p xs ≡ some zs → find_first p zs ≡ none
  find_first-swap_remove [] zs u h = unfold swap_remove in cc
  find_first-swap_remove (x ∷ xs) zs u h = elim (swap_remove_cases x xs zs h) [
    | inl (here, e) ↦
        rw e (find_first-last_to_front p xs u.1 ∙ find_first-none p xs (All-others here xs u.0))
    | inr (ys, away, h', e) ↦
        rw e (find_first-skip p x ys away ∙ find_first-swap_remove xs ys u.1 h')
  ]
    where
      All-others :
          {y : A}
          → p y ≡ true
          → (ys : List A) → All (λ b. p y ≡ true → p b ≡ true → ⊥) ys
          → All (λ b. p b ≡ false) ys
      All-others here [] v = tt
      All-others here (b ∷ ys) v = (ground (arith, v.0 here), All-others here ys v.1)

  -- A search for another entry finds what it found before.
  pub find_first-swap_remove_other :
      (q : A → Bool) (xs zs : List A)
      → ((a : A) → p a ≡ true → q a ≡ false)
      → AtMostOne q xs
      → swap_remove p xs ≡ some zs
      → find_first q zs ≡ find_first q xs
  find_first-swap_remove_other q [] zs apart u h = unfold swap_remove in cc
  find_first-swap_remove_other q (x ∷ xs) zs apart u h = elim (swap_remove_cases x xs zs h) [
    | inl (here, e) ↦
        rw e (find_first-last_to_front q xs u.1 ∙ sym (find_first-skip q x xs (apart x here)))
    | inr (ys, _, h', e) ↦
        rw e (find_first-behind q x _ _ (find_first-swap_remove_other q xs ys apart u.1 h'))
  ]
