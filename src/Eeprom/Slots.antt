-- ===== src/Eeprom/Slots.antt =====
-- What a sequence of EEPROM writes does to the blocks inside and outside of its range, and what an
-- interrupted save leaves in a store with two slots.
use radio_sensors.Prelude.{
  ℕ, zero, suc, ◌+◌, ◌≤◌, ◌<◌, ◌≡◌, ◌⊎◌, refl, ap, ◌∙◌, List, [], ◌∷◌, ◌++◌, arith, All, length,
  take, IsByte,
}
use radio_sensors.Eeprom.{Storage, perform, read_block, writes_from}

-- A write is outside of a block.
abbrev pub Apart : ℕ → ℕ → ℕ × ℕ → Type 0
Apart address n w = w.0 < address ⊎ (address + n ≤ w.0)

-- A write is inside of a block, behind its first byte.
abbrev pub Behind : ℕ → ℕ → ℕ × ℕ → Type 0
Behind address n w = (address < w.0) × (w.0 < address + n)

module _ {A : Type 0} (P Q : A → Type 0) where
  pub All-map : ((x : A) → P x → Q x) → (xs : List A) → All P xs → All Q xs
  All-map f [] h = tt
  All-map f (x ∷ xs) h = (f x h.0, All-map f xs h.1)

module _ {A : Type 0} (P : A → Type 0) where
  pub All-take : (k : ℕ) (xs : List A) → All P xs → All P (take k xs)
  All-take zero xs h = tt
  All-take (suc k) [] h = tt
  All-take (suc k) (x ∷ xs) h = (h.0, All-take k xs h.1)

  pub All-append : (xs ys : List A) → All P xs → All P ys → All P (xs ++ ys)
  All-append [] ys h g = g
  All-append (x ∷ xs) ys h g = (h.0, All-append xs ys h.1 g)

module _ {A : Type 0} where
  pub take-append :
      (k : ℕ) (xs : List A) (y : A) → k < length xs + 1 → take k (xs ++ (y ∷ [])) ≡ take k xs
  take-append zero xs y h = refl
  take-append (suc k) [] y h = absurd (omega arith)
  take-append (suc k) (x ∷ xs) y h = ap (λ t. x ∷ t) (take-append k xs y (omega arith))

pub writes_from-Behind :
    (first n address : ℕ) (bs : List ℕ)
    → first < address
    → address + length bs ≤ first + n
    → All (Behind first n) (writes_from address bs)
unfolding writes_from
writes_from-Behind first n address [] h k = tt
writes_from-Behind first n address (b ∷ bs) h k =
    ((h, omega arith), writes_from-Behind first n (address + 1) bs (omega arith) (omega arith))

pub ∷-cong : {x y : ℕ} {xs ys : List ℕ} → x ≡ y → xs ≡ ys → (x ∷ xs) ≡ (y ∷ ys)
∷-cong e f = cc

pub Behind→Apart :
    (first n other m : ℕ)
    → other + m ≤ first + 1 ⊎ (first + n ≤ other)
    → (w : ℕ × ℕ) → Behind first n w
    → Apart other m w
Behind→Apart first n other m h w b = ground arith

module _ (E : Storage) where
  pub read-perform :
      (ws : List (ℕ × ℕ)) (s : E.State) (address : ℕ)
      → All (Apart address 1) ws
      → E.read (perform E ws s) address ≡ E.read s address
  read-perform [] s address h = refl
  read-perform (w ∷ ws) s address h =
      read-perform ws (E.update s w.0 w.1) address h.1
      ∙ E.read-update_other s w.0 w.1 address (λ e. ground arith)

  pub read_block-perform :
      (n : ℕ) (ws : List (ℕ × ℕ)) (s : E.State) (address : ℕ)
      → All (Apart address n) ws
      → read_block E (perform E ws s) address n ≡ read_block E s address n
  read_block-perform zero ws s address h = refl
  read_block-perform (suc n) ws s address h =
      ∷-cong
        (read-perform ws s address
          (All-map (Apart address (suc n)) (Apart address 1) (λ w g. ground arith) ws h))
        (read_block-perform n ws s (address + 1)
          (All-map (Apart address (suc n)) (Apart (address + 1) n) (λ w g. ground arith) ws h))

  pub perform-append :
      (xs ys : List (ℕ × ℕ)) (s : E.State) → perform E (xs ++ ys) s ≡ perform E ys (perform E xs s)
  perform-append [] ys s = refl
  perform-append (x ∷ xs) ys s = perform-append xs ys (E.update s x.0 x.1)

  pub read_block-writes_from :
      (bs : List ℕ) (s : E.State) (address : ℕ)
      → All IsByte bs
      → read_block E (perform E (writes_from address bs) s) address (length bs) ≡ bs
  unfolding writes_from
  read_block-writes_from [] s address h = refl
  read_block-writes_from (b ∷ bs) s address h =
      ∷-cong
        (read-perform (writes_from (address + 1) bs) (E.update s address b) address (
            All-map (Behind address (suc (length bs))) (Apart address 1) (λ w g. ground arith)
              (writes_from (address + 1) bs)
              (writes_from-Behind address (suc (length bs)) (address + 1) bs (omega arith)
                (omega arith)))
          ∙ E.read-update s address b h.0)
        (read_block-writes_from bs (E.update s address b) (address + 1) h.1)
