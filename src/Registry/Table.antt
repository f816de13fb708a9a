-- ===== src/Registry/Table.antt =====
-- The array operations of the registry over any list: what a search finds, and what a write in
-- place and a removal keep.
use mathlib.Core.Path.{subst}
use radio_sensors.Prelude.{
  ℕ, zero, suc, ◌≡◌, refl, ap, ◌∙◌, ◌↔◌, inl, inr, Bool, true, false, List, [], ◌∷◌, ◌++◌, some,
  arith, length, All, Bool-cases, Bytes, same_bytes,
}
use radio_sensors.Wire.JoinRequest.{device_uid_size, DeviceUid}
use radio_sensors.Registry.{find_first, modify_first, put_second, last_to_front, same_uid}

pub same_bytes→eq : (n : ℕ) (u v : Bytes n) → same_bytes n u v ≡ true → u ≡ v
same_bytes→eq zero u v h = refl
same_bytes→eq (suc n) u v h = ground (arith, same_bytes→eq n u.1 v.1)

pub same_bytes_refl : (n : ℕ) (u : Bytes n) → same_bytes n u u ≡ true
same_bytes_refl zero u = refl
same_bytes_refl (suc n) u = ground (arith, same_bytes_refl n u.1)

pub same_uid_iff : (u v : DeviceUid) → (same_uid u v ≡ true) ↔ (u ≡ v)
unfolding same_uid
same_uid_iff u v =
    (same_bytes→eq device_uid_size u v, λ e. rw e (same_bytes_refl device_uid_size v))

module _ {A : Type 0} (p : A → Bool) where
  -- A search finds an entry that passes.
  pub find_first-passes : (xs : List A) (a : A) → find_first p xs ≡ some a → p a ≡ true
  unfolding find_first
  find_first-passes [] a h = cc
  find_first-passes (x ∷ xs) a h = ground (arith, find_first-passes xs a)

  pub All-find_first {κ} :
      (P : A → Type κ) (xs : List A) (a : A) → All P xs → find_first p xs ≡ some a → P a
  unfolding find_first
  All-find_first P [] a v h = cc
  All-find_first P (x ∷ xs) a v h = elim (Bool-cases (p x)) [
    | inl e ↦ subst P (cc) v.0
    | inr e ↦ All-find_first P xs a v.1 (rw (e, find_first) at h)
  ]

  pub All-modify_first {κ} :
      (P : A → Type κ) (f : A → A) (xs : List A)
      → ((a : A) → p a ≡ true → P a → P (f a))
      → All P xs
      → All P (modify_first p f xs)
  unfolding modify_first
  All-modify_first P f [] keep v = v
  All-modify_first P f (x ∷ xs) keep v = elim (Bool-cases (p x)) [
    | inl e ↦ rw e (keep x e v.0, v.1)
    | inr e ↦ rw e (v.0, All-modify_first P f xs keep v.1)
  ]

  pub length-modify_first : (f : A → A) (xs : List A) → length (modify_first p f xs) ≡ length xs
  unfolding modify_first
  length-modify_first f [] = refl
  length-modify_first f (x ∷ xs) = ground (arith, length-modify_first f xs)

  pub find_first-modify_first_other :
      (q : A → Bool) (f : A → A) (xs : List A)
      → ((a : A) → p a ≡ true → q a ≡ false)
      → ((a : A) → p a ≡ true → q (f a) ≡ false)
      → find_first q (modify_first p f xs) ≡ find_first q xs
  unfolding find_first modify_first
  find_first-modify_first_other q f [] apart kept = refl
  find_first-modify_first_other q f (x ∷ xs) apart kept =
      ground (arith, apart x, kept x, find_first-modify_first_other q f xs apart kept)

  pub find_first-modify_first :
      (f : A → A) (xs : List A) (a : A)
      → ((b : A) → p b ≡ true → p (f b) ≡ true)
      → find_first p xs ≡ some a
      → find_first p (modify_first p f xs) ≡ some (f a)
  unfolding find_first modify_first
  find_first-modify_first f [] a kept h = cc
  find_first-modify_first f (x ∷ xs) a kept h =
      ground (arith, kept x, find_first-modify_first f xs a kept)

abbrev pub Pairwise {κ} : {A : Type 0} → (A → A → Type κ) → List A → Type κ
Pairwise R [] = Unit {κ}
Pairwise R (x ∷ xs) = All (R x) xs × Pairwise R xs

module _ {A : Type 0} where
  pub All-append_one {κ} :
      (P : A → Type κ) (xs : List A) (a : A) → All P xs → P a → All P (xs ++ (a ∷ []))
  All-append_one P [] a v h = (h, tt)
  All-append_one P (x ∷ xs) a v h = (v.0, All-append_one P xs a v.1 h)

  pub Pairwise-append_one {κ} :
      (R : A → A → Type κ) (xs : List A) (a : A)
      → Pairwise R xs
      → All (λ x. R x a) xs
      → Pairwise R (xs ++ (a ∷ []))
  Pairwise-append_one R [] a v h = (tt, tt)
  Pairwise-append_one R (x ∷ xs) a v h =
      (All-append_one (R x) xs a v.0 h.0, Pairwise-append_one R xs a v.1 h.1)

  All-put_second {κ} :
      (P : A → Type κ) (x : A) (xs : List A) → P x → All P xs → All P (put_second x xs)
  All-put_second P x [] h v = (h, v)
  All-put_second P x (l ∷ rest) h v = (v.0, (h, v.1))

  pub All-last_to_front {κ} : (P : A → Type κ) (xs : List A) → All P xs → All P (last_to_front xs)
  unfolding last_to_front
  All-last_to_front P [] v = v
  All-last_to_front P (x ∷ xs) v =
      All-put_second P x (last_to_front xs) v.0 (All-last_to_front P xs v.1)

  Pairwise-put_second {κ} :
      (R : A → A → Type κ) (x : A) (xs : List A)
      → ((a b : A) → R a b → R b a)
      → All (R x) xs
      → Pairwise R xs
      → Pairwise R (put_second x xs)
  Pairwise-put_second R x [] flip h v = (tt, tt)
  Pairwise-put_second R x (l ∷ rest) flip h v = ((flip x l h.0, v.0), (h.1, v.1))

  pub Pairwise-last_to_front {κ} :
      (R : A → A → Type κ) (xs : List A)
      → ((a b : A) → R a b → R b a)
      → Pairwise R xs
      → Pairwise R (last_to_front xs)
  unfolding last_to_front
  Pairwise-last_to_front R [] flip v = v
  Pairwise-last_to_front R (x ∷ xs) flip v =
      Pairwise-put_second R x (last_to_front xs) flip (All-last_to_front (R x) xs v.0)
        (Pairwise-last_to_front R xs flip v.1)

  pub length-last_to_front : (xs : List A) → length (last_to_front xs) ≡ length xs
  unfolding last_to_front
  length-last_to_front [] = refl
  length-last_to_front (x ∷ xs) =
      length-put_second x (last_to_front xs) ∙ ap suc (length-last_to_front xs)
    where
      length-put_second : (y : A) (ys : List A) → length (put_second y ys) ≡ suc (length ys)
      length-put_second y [] = refl
      length-put_second y (l ∷ rest) = refl

-- Each entry of the second list is related to each of the first.
abbrev pub AllBefore : {A : Type 0} → (A → A → Type 0) → List A → List A → Type 0
AllBefore R previous = All (λ x. All (λ p. R p x) previous)

module _ {A : Type 0} (R : A → A → Type 0) where
  All-append_one_iff :
      (x : A) (qs : List A) (r : A)
      → All (λ p. R p x) (qs ++ (r ∷ [])) ↔ (All (λ p. R p x) qs × R r x)
  All-append_one_iff x [] r = (λ v. (tt, v.0), λ v. (v.1, tt))
  All-append_one_iff x (q ∷ qs) r =
      let ih = All-append_one_iff x qs r in
      (λ v. ((v.0, (ih.0 v.1).0), (ih.0 v.1).1), λ v. (v.0.0, ih.1 (v.0.1, v.1)))

  pub AllBefore-append_one :
      (ps rs : List A) (r : A)
      → AllBefore R (ps ++ (r ∷ [])) rs ↔ (AllBefore R ps rs × All (R r) rs)
  AllBefore-append_one ps [] r = (λ _. (tt, tt), λ _. tt)
  AllBefore-append_one ps (x ∷ rs) r =
      let ih = AllBefore-append_one ps rs r in
      let here = All-append_one_iff x ps r in
      (
        λ v. (((here.0 v.0).0, (ih.0 v.1).0), ((here.0 v.0).1, (ih.0 v.1).1)),
        λ v. (here.1 (v.0.0, v.1.0), ih.1 (v.0.1, v.1.1)),
      )
