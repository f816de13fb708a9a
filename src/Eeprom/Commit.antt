-- ===== src/Eeprom/Commit.antt =====
-- A save into one of two slots, interrupted before a write or complete. The codec of the slots is a
-- parameter; Eeprom/Config and Eeprom/Counter give theirs.
use radio_sensors.Prelude.{
  ℕ, zero, suc, ◌+◌, ◌≤◌, ◌<◌, ◌≡◌, ◌⊎◌, inl, inr, refl, sym, ap, ◌∙◌, List, [], ◌∷◌, ◌++◌, Option,
  none, some, arith, All, length, take, IsByte, if◌then◌else◌, ◌==◌, length-append,
}
use radio_sensors.Eeprom.{
  Storage, StoreState, perform, read_block, choose_slot, commit, next_slot, next_generation,
  holding,
}
use radio_sensors.Eeprom.Choice.{
  choose_slot-lost_first, choose_slot-lost_second, choose_slot-next_first, choose_slot-next_second,
  next_slot-choose_slot,
}
use radio_sensors.Eeprom.Slots.{
  Apart, Behind, All-map, All-take, All-append, take-append, read-perform, read_block-perform,
  perform-append, ∷-cong,
}

-- A commit writes inside of its block.
pub commit-Apart :
    (n m address other : ℕ) (middle : List (ℕ × ℕ)) (b : ℕ)
    → All (Behind address n) middle
    → 1 ≤ n
    → other + m ≤ address ⊎ (address + n ≤ other)
    → All (Apart other m) (commit address middle b)
unfolding commit
commit-Apart n m address other middle b h l apart = (
  ground arith,
  All-append (Apart other m) middle ((address, b) ∷ [])
      (All-map (Behind address n) (Apart other m) (λ w g. ground arith) middle h)
      (ground arith, tt),
)

module _ (E : Storage) where
  -- Before its last write, a save has either written nothing or cleared the slot's first byte.
  pub read-interrupted :
      (k n address : ℕ) (middle : List (ℕ × ℕ)) (b : ℕ) (s : E.State)
      → All (Behind address n) middle
      → k < length (commit address middle b)
      → (perform E (take k (commit address middle b)) s ≡ s)
        ⊎ (E.read (perform E (take k (commit address middle b)) s) address ≡ 0)
  unfolding commit
  read-interrupted zero n address middle b s h lt = inl refl
  read-interrupted (suc k) n address middle b s h lt = inr (
      ap (λ ws. E.read (perform E ws (E.update s address 0)) address)
        (take-append k middle (address, b)
          (omega (arith, length-append middle ((address, b) ∷ []))))
      ∙ read-perform E (take k middle) (E.update s address 0) address (
          All-take (Apart address 1) k middle
            (All-map (Behind address n) (Apart address 1) (λ w g. ground arith) middle h))
      ∙ E.read-update s address 0 (omega arith))

  -- The other slot keeps its bytes, whenever the save stops.
  pub read_block-commit_other :
      (k n m address other : ℕ) (middle : List (ℕ × ℕ)) (b : ℕ) (s : E.State)
      → All (Behind address n) middle
      → 1 ≤ n
      → other + m ≤ address ⊎ (address + n ≤ other)
      → read_block E (perform E (take k (commit address middle b)) s) other m
        ≡ read_block E s other m
  unfolding commit
  read_block-commit_other k n m address other middle b s h l apart =
      read_block-perform E m (take k (commit address middle b)) s other (
        All-take (Apart other m) k (commit address middle b)
          (commit-Apart n m address other middle b h l apart))

module _ (E : Storage) where
  -- The last write sets the first byte of a block; the others are those of the writes before.
  pub read_block-last :
      (ws : List (ℕ × ℕ)) (s : E.State) (address n b : ℕ)
      → IsByte b
      → read_block E (perform E (ws ++ ((address, b) ∷ [])) s) address (suc n)
        ≡ b ∷ read_block E (perform E ws s) (address + 1) n
  read_block-last ws s address n b h =
      ap (λ t. read_block E t address (suc n)) (perform-append E ws ((address, b) ∷ []) s)
      ∙ ∷-cong (E.read-update (perform E ws s) address b h) (
          read_block-perform E n ((address, b) ∷ []) (perform E ws s) (address + 1)
            (ground arith, tt))

-- A store whose slots stand at two addresses.
module _ (E : Storage) {A : Type 0} (generation : A → ℕ) (decode : List ℕ → Option A)
    (m a b : ℕ) where
  abbrev pub load_slots : E.State → StoreState × Option A
  load_slots s =
      choose_slot generation (decode (read_block E s a (suc m))) (decode (read_block E s b (suc m)))

  -- The address that a save writes to.
  abbrev pub target : E.State → ℕ
  target s = if next_slot (load_slots s).0 == 0 then a else b

  pub load_slots-interrupted :
      (k : ℕ) (middle : List (ℕ × ℕ)) (first : ℕ) (s : E.State)
      → a + suc m ≤ b
      → ((l : List ℕ) → decode (0 ∷ l) ≡ none)
      → All (Behind (target s) (suc m)) middle
      → k < length (commit (target s) middle first)
      → (load_slots (perform E (take k (commit (target s) middle first)) s)).1 ≡ (load_slots s).1
  load_slots-interrupted k middle first s disjoint cleared h lt =
      cases
        (next_slot-choose_slot generation (decode (read_block E s a (suc m)))
          (decode (read_block E s b (suc m))))
        (read-interrupted E k (suc m) (target s) middle first s h lt)
    where
      after : E.State
      after = perform E (take k (commit (target s) middle first)) s

      cases :
          (next_slot (load_slots s).0 ≡ 0) ⊎ (next_slot (load_slots s).0 ≡ 1)
          → (after ≡ s) ⊎ (E.read after (target s) ≡ 0)
          → (load_slots after).1 ≡ (load_slots s).1
      cases slot (inl e) = ap (λ t. (load_slots t).1) e
      cases (inl slot) (inr z) =
          let t : target s ≡ a = ground arith in
          let lost : decode (read_block E after a (suc m)) ≡ none =
            ap (λ x. decode (x ∷ read_block E after (a + 1) m)) (ap (E.read after) (sym t) ∙ z)
            ∙ cleared (read_block E after (a + 1) m) in
          let kept : read_block E after b (suc m) ≡ read_block E s b (suc m) =
            read_block-commit_other E k (suc m) (suc m) (target s) b middle first s h (omega arith)
              (inr (omega (arith, t))) in
          ap (λ o. (choose_slot generation o (decode (read_block E after b (suc m)))).1) lost
          ∙ ap (λ l. (choose_slot generation none (decode l)).1) kept
          ∙ choose_slot-lost_first generation (decode (read_block E s a (suc m)))
              (decode (read_block E s b (suc m))) slot
      cases (inr slot) (inr z) =
          let t : target s ≡ b = ground arith in
          let lost : decode (read_block E after b (suc m)) ≡ none =
            ap (λ x. decode (x ∷ read_block E after (b + 1) m)) (ap (E.read after) (sym t) ∙ z)
            ∙ cleared (read_block E after (b + 1) m) in
          let kept : read_block E after a (suc m) ≡ read_block E s a (suc m) =
            read_block-commit_other E k (suc m) (suc m) (target s) a middle first s h (omega arith)
              (inl (omega (arith, t))) in
          ap (λ o. (choose_slot generation (decode (read_block E after a (suc m))) o).1) lost
          ∙ ap (λ l. (choose_slot generation (decode l) none).1) kept
          ∙ choose_slot-lost_second generation (decode (read_block E s a (suc m)))
              (decode (read_block E s b (suc m))) slot

  -- A save that is complete is what the next load finds.
  pub load_slots_complete :
      (middle : List (ℕ × ℕ)) (first : ℕ) (s : E.State) (v : A)
      → a + suc m ≤ b
      → ((t : E.State) (address : ℕ) (x : A)
          → decode (read_block E t address (suc m)) ≡ some x
          → generation x < 256)
      → All (Behind (target s) (suc m)) middle
      → decode (read_block E (perform E (commit (target s) middle first) s) (target s) (suc m))
        ≡ some v
      → generation v ≡ next_generation (load_slots s).0
      → load_slots (perform E (commit (target s) middle first) s)
        ≡ (holding (next_slot (load_slots s).0) (generation v), some v)
  load_slots_complete middle first s v disjoint small h e g = cases (
      next_slot-choose_slot generation (decode (read_block E s a (suc m)))
        (decode (read_block E s b (suc m))))
    where
      after : E.State
      after = perform E (commit (target s) middle first) s

      small_both :
          (x : A)
          → (decode (read_block E s a (suc m)) ≡ some x)
            ⊎ (decode (read_block E s b (suc m)) ≡ some x)
          → generation x < 256
      small_both x (inl p) = small s a x p
      small_both x (inr p) = small s b x p

      cases :
          (next_slot (load_slots s).0 ≡ 0) ⊎ (next_slot (load_slots s).0 ≡ 1)
          → load_slots after ≡ (holding (next_slot (load_slots s).0) (generation v), some v)
      cases (inl slot) =
          let t : target s ≡ a = ground arith in
          let kept : read_block E after b (suc m) ≡ read_block E s b (suc m) =
            read_block-perform E (suc m) (commit (target s) middle first) s b (
              commit-Apart (suc m) (suc m) (target s) b middle first h (omega arith)
                (inr (omega (arith, t)))) in
          ap (λ o. choose_slot generation o (decode (read_block E after b (suc m))))
            (ap (λ x. decode (read_block E after x (suc m))) (sym t) ∙ e)
          ∙ ap (λ l. choose_slot generation (some v) (decode l)) kept
          ∙ choose_slot-next_first generation (decode (read_block E s a (suc m)))
              (decode (read_block E s b (suc m))) v small_both slot g
          ∙ ap (λ i. (holding i (generation v), some v)) (sym slot)
      cases (inr slot) =
          let t : target s ≡ b = ground arith in
          let kept : read_block E after a (suc m) ≡ read_block E s a (suc m) =
            read_block-perform E (suc m) (commit (target s) middle first) s a (
              commit-Apart (suc m) (suc m) (target s) a middle first h (omega arith)
                (inl (omega (arith, t)))) in
          ap (λ o. choose_slot generation (decode (read_block E after a (suc m))) o)
            (ap (λ x. decode (read_block E after x (suc m))) (sym t) ∙ e)
          ∙ ap (λ l. choose_slot generation (decode l) (some v)) kept
          ∙ choose_slot-next_second generation (decode (read_block E s a (suc m)))
              (decode (read_block E s b (suc m))) v small_both slot g
          ∙ ap (λ i. (holding i (generation v), some v)) (sym slot)
