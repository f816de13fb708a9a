-- ===== src/Gateway/Erase.antt =====
-- Erasing the first entry that passes a test, the others moved down by one.
use radio_sensors.Prelude.{
  ◌+◌, ◌≤◌, ◌≡◌, refl, ap, ◌∙◌, inl, inr, Bool, true, false, List, [], ◌∷◌, ◌++◌, none, some, arith,
  length, All, Bool-cases, if◌then◌else◌,
}
use radio_sensors.Registry.{find_first}
use radio_sensors.Registry.Table.{Pairwise}
use radio_sensors.Registry.Removal.{AtMostOne}

module _ {A : Type 0} (p : A → Bool) where
  unfoldable pub erase_first : List A → List A
  erase_first [] = []
  erase_first (x ∷ xs) = if p x then xs else x ∷ erase_first xs

  pub All-erase_first {κ} : (P : A → Type κ) (xs : List A) → All P xs → All P (erase_first xs)
  unfolding erase_first
  All-erase_first P [] v = v
  All-erase_first P (x ∷ xs) v = elim (Bool-cases (p x)) [
    | inl e ↦ rw e v.1
    | inr e ↦ rw e (v.0, All-erase_first P xs v.1)
  ]

  pub Pairwise-erase_first {κ} :
      (R : A → A → Type κ) (xs : List A) → Pairwise R xs → Pairwise R (erase_first xs)
  unfolding erase_first
  Pairwise-erase_first R [] v = v
  Pairwise-erase_first R (x ∷ xs) v = elim (Bool-cases (p x)) [
    | inl e ↦ rw e v.1
    | inr e ↦ rw e (All-erase_first (R x) xs v.0, Pairwise-erase_first R xs v.1)
  ]

  pub length-erase_first-le : (xs : List A) → length (erase_first xs) ≤ length xs
  unfolding erase_first
  length-erase_first-le [] = omega arith
  length-erase_first-le (x ∷ xs) = ground (arith, length-erase_first-le xs)

  -- Where the search finds an entry, one entry goes.
  pub length-erase_first :
      (xs : List A) (a : A) → find_first p xs ≡ some a → length (erase_first xs) + 1 ≡ length xs
  unfolding erase_first find_first
  length-erase_first [] a h = cc
  length-erase_first (x ∷ xs) a h = ground (arith, length-erase_first xs a)

  pub find_first-erase_first : (xs : List A) → AtMostOne p xs → find_first p (erase_first xs) ≡ none
  unfolding erase_first find_first
  find_first-erase_first [] u = refl
  find_first-erase_first (x ∷ xs) u = elim (Bool-cases (p x)) [
    | inl e ↦ rw e (gone xs e u.0)
    | inr e ↦ rw (e, e) (find_first-erase_first xs u.1)
  ]
    where
      gone :
          (ys : List A)
          → p x ≡ true
          → All (λ b. p x ≡ true → p b ≡ true → ⊥) ys
          → find_first p ys ≡ none
      gone [] e v = refl
      gone (y ∷ ys) e v = ground (arith, gone ys e v.1, v.0 e)

  -- A search for other entries finds what it found before.
  pub find_first-erase_first_other :
      (q : A → Bool) (xs : List A)
      → ((a : A) → p a ≡ true → q a ≡ false)
      → find_first q (erase_first xs) ≡ find_first q xs
  unfolding erase_first find_first
  find_first-erase_first_other q [] apart = refl
  find_first-erase_first_other q (x ∷ xs) apart =
      ground (arith, apart x, find_first-erase_first_other q xs apart)

  pub find_first-erase_first_kept :
      (q : A → Bool) (xs : List A) (a : A)
      → find_first q xs ≡ some a
      → p a ≡ false
      → find_first q (erase_first xs) ≡ some a
  unfolding erase_first find_first
  find_first-erase_first_kept q [] a h n = cc
  find_first-erase_first_kept q (x ∷ xs) a h n = elim (Bool-cases (q x)) [
    | inl e ↦
        let same : x ≡ a = ground (arith, h, e) in
        let away : p x ≡ false = ap p same ∙ n in rw (away, e) (ap some same)
    | inr e ↦ elim (Bool-cases (p x)) [
      | inl f ↦ rw f (rw e at h)
      | inr f ↦ rw (f, e) (find_first-erase_first_kept q xs a (rw e at h) n)
    ]
  ]

module _ {A : Type 0} (q : A → Bool) where
  pub find_first-append :
      (xs ys : List A) (a : A) → find_first q xs ≡ some a → find_first q (xs ++ ys) ≡ some a
  unfolding find_first
  find_first-append [] ys a h = cc
  find_first-append (x ∷ xs) ys a h = ground (arith, find_first-append xs ys a)

  pub find_first-append_new :
      (xs : List A) (y : A)
      → find_first q xs ≡ none
      → q y ≡ true
      → find_first q (xs ++ (y ∷ [])) ≡ some y
  unfolding find_first
  find_first-append_new [] y h e = rw e
  find_first-append_new (x ∷ xs) y h e = ground (arith, find_first-append_new xs y)

  pub find_first-erase_first_none :
      (p : A → Bool) (xs : List A) → find_first q xs ≡ none → find_first q (erase_first p xs) ≡ none
  unfolding find_first erase_first
  find_first-erase_first_none p [] h = refl
  find_first-erase_first_none p (x ∷ xs) h = ground (arith, find_first-erase_first_none p xs)
