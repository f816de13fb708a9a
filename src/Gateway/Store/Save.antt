-- ===== src/Gateway/Store/Save.antt =====
-- DualSlotStore: what a load finds after a save that succeeded, failed or was cut off.
use mathlib.Core.Path.{subst}
use radio_sensors.Prelude.{
  ℕ, ◌^◌, ◌<◌, ◌≡◌, ◌≢◌, ◌⊎◌, inl, inr, refl, sym, ap, ◌∙◌, true, false, ◌&&◌, List, none, some,
  arith, ◌==◌, if◌then◌else◌, and_then, Bool-cases, Option-cases,
}
use radio_sensors.Gateway.Store.{
  Codec, SlotStorage, Members, loaded, holding, newest_of, next_generation, target_slot, slot_value,
  load, verify, save,
}
use radio_sensors.Gateway.Store.Newest.{
  newest_of-lost_first, newest_of-lost_second, newest_of-first, newest_of-second,
  target_slot-newest_of,
}

module _ {M : Type 0} (C : Codec M) (S : SlotStorage) where
  -- A storage in which one slot alone differs.
  abbrev pub OtherKept : S.State → S.State → ℕ → Type 0
  OtherKept s s' target =
      S.read s' (if target == 0 then 1 else 0) ≡ S.read s (if target == 0 then 1 else 0)

  abbrev pub IsSmall : S.State → Type 0
  IsSmall s =
      (x : M × ℕ) → (slot_value C S s 0 ≡ some x) ⊎ (slot_value C S s 1 ≡ some x) → x.1 < 2 ^ 32

  slot_value-IsU32 : (s : S.State) (i : ℕ) (x : M × ℕ) → slot_value C S s i ≡ some x → x.1 < 2 ^ 32
  slot_value-IsU32 s i x e = elim (Option-cases (S.read s i)) [
    | inl g ↦ absurd (ground (arith, g, e))
    | inr (b, g) ↦ C.decode-IsU32 b x.0 x.1 (S.read-IsByte s i b g) (ground (arith, g, e))
  ]

  slot_value-IsSmall : (s : S.State) → IsSmall s
  slot_value-IsSmall s x (inl e) = slot_value-IsU32 s 0 x e
  slot_value-IsSmall s x (inr e) = slot_value-IsU32 s 1 x e

  -- The members after a load of a storage whose target slot holds the next value.
  pub load-next :
      (s s' : S.State) (v : M)
      → OtherKept s s' (target_slot (load C S s).0)
      → slot_value C S s' (target_slot (load C S s).0) ≡ some (v, next_generation (load C S s).0)
      → (load C S s').0 ≡ holding (target_slot (load C S s).0) (v, next_generation (load C S s).0)
  unfolding load
  load-next s s' v k w =
      elim (target_slot-newest_of C.default_value (slot_value C S s 0) (slot_value C S s 1)) [
        | inl t ↦
            ap (λ a. newest_of C.default_value a (slot_value C S s' 1)) (first t)
            ∙ ap (λ r. newest_of C.default_value (some (v, next)) (and_then r C.decode))
                (subst (λ i. OtherKept s s' i) t k)
            ∙ newest_of-first C.default_value (slot_value C S s 0) (slot_value C S s 1) v
                (slot_value-IsSmall s) t
            ∙ ap (λ i. holding i (v, next)) (sym t)
        | inr t ↦
            ap (λ r. newest_of C.default_value (and_then r C.decode) (slot_value C S s' 1))
              (subst (λ i. OtherKept s s' i) t k)
            ∙ ap (λ b. newest_of C.default_value (slot_value C S s 0) b)
                (subst (λ i. slot_value C S s' i ≡ some (v, next)) t w)
            ∙ newest_of-second C.default_value (slot_value C S s 0) (slot_value C S s 1) v
                (slot_value-IsSmall s) t
            ∙ ap (λ i. holding i (v, next)) (sym t)
      ]
    where
      next : ℕ
      next = next_generation (newest_of C.default_value (slot_value C S s 0) (slot_value C S s 1))

      first :
          target_slot (newest_of C.default_value (slot_value C S s 0) (slot_value C S s 1)) ≡ 0
          → slot_value C S s' 0 ≡ some (v, next)
      first t = subst (λ i. slot_value C S s' i ≡ some (v, next)) t w

  pub target_slot-other :
      (s : S.State)
      → (if target_slot (load C S s).0 == 0 then 1 else 0) ≢ target_slot (load C S s).0
  unfolding load
  target_slot-other s =
      elim (target_slot-newest_of C.default_value (slot_value C S s 0) (slot_value C S s 1)) [
        | inl t ↦ ground (arith, t)
        | inr t ↦ ground (arith, t)
      ]

  -- A read back that passes found the value under the next generation.
  verified :
      (st : Members M) (s : S.State) (v : M)
      → (verify C S st s v).2 ≡ true
      → (slot_value C S s (target_slot st) ≡ some (v, next_generation st))
        × (verify C S st s v ≡ (holding (target_slot st) (v, next_generation st), s, true))
  unfolding verify
  verified st s v h = cases (Option-cases (slot_value C S s (target_slot st)))
    where
      Found : Type 0
      Found =
          (slot_value C S s (target_slot st) ≡ some (v, next_generation st))
          × (verify C S st s v ≡ (holding (target_slot st) (v, next_generation st), s, true))

      same :
          (found : M × ℕ)
          → slot_value C S s (target_slot st) ≡ some found
          → ((found.1 == next_generation st) && C.equal found.0 v ≡ true)
            ⊎ ((found.1 == next_generation st) && C.equal found.0 v ≡ false)
          → Found
      same found e (inr n) = absurd (ground (arith, h, e, n))
      same found e (inl p) =
          let value : found.0 ≡ v = C.equal→eq found.0 v (ground (arith, p)) in
          let number : found.1 ≡ next_generation st = ground (arith, p) in
          (
            e ∙ ap (λ x. some (x, found.1)) value ∙ ap (λ g. some (v, g)) number,
            ground (arith, e, p),
          )

      cases :
          (slot_value C S s (target_slot st) ≡ none)
            ⊎ ((found : M × ℕ) × (slot_value C S s (target_slot st) ≡ some found))
          → Found
      cases (inl e) = absurd (ground (arith, h, e))
      cases (inr (found, e)) = same found e (Bool-cases _)

  -- What a save that succeeds did: nothing, as the value is the current one, or a write of the
  -- target slot, in which the value is read back.
  saved :
      (st : Members M) (s : S.State) (v : M)
      → (save C S st s v).2 ≡ true
      → ((st.current ≡ v) × (save C S st s v ≡ (st, s, true)))
        ⊎ ((bytes : List ℕ) × (slot_value C S (S.write s (target_slot st) bytes).0 (target_slot st)
              ≡ some (v, next_generation st))
            × (save C S st s v ≡ (
              holding (target_slot st) (v, next_generation st),
              (S.write s (target_slot st) bytes).0,
              true,
            )))
  unfolding save
  saved st s v h =
      cases (Bool-cases (st.is_loaded && C.equal st.current v))
        (Option-cases (C.encode v (next_generation st)))
    where
      Done : Type 0
      Done =
          ((st.current ≡ v) × (save C S st s v ≡ (st, s, true)))
          ⊎ ((bytes : List ℕ) × (slot_value C S (S.write s (target_slot st) bytes).0
                  (target_slot st)
                ≡ some (v, next_generation st))
              × (save C S st s v ≡ (
                holding (target_slot st) (v, next_generation st),
                (S.write s (target_slot st) bytes).0,
                true,
              )))

      cases :
          ((st.is_loaded && C.equal st.current v) ≡ true)
            ⊎ ((st.is_loaded && C.equal st.current v) ≡ false)
          → (C.encode v (next_generation st) ≡ none)
            ⊎ ((bytes : List ℕ) × (C.encode v (next_generation st) ≡ some bytes))
          → Done
      cases (inl p) o = inl (C.equal→eq st.current v (ground (arith, p)), ground (arith, p))
      cases (inr n) (inl e) = absurd (ground (arith, h, n, e))
      cases (inr n) (inr (bytes, e)) =
          let done : (S.write s (target_slot st) bytes).1 ≡ true = ground (arith, h, n, e) in
          let read : (verify C S st (S.write s (target_slot st) bytes).0 v).2 ≡ true =
            ground (arith, h, n, e, done) in
          let found = verified st (S.write s (target_slot st) bytes).0 v read in
          inr (bytes, found.0, ground (arith, n, e, done, found.1))

  -- A save through members that a load gave, if it succeeds, leaves members whose value is the one
  -- saved, and a load of the storage after it gives these members.
  pub save_complete :
      (s : S.State) (v : M)
      → (save C S (load C S s).0 s v).2 ≡ true
      → ((load C S (save C S (load C S s).0 s v).1).0 ≡ (save C S (load C S s).0 s v).0)
        × ((save C S (load C S s).0 s v).0.current ≡ v)
  save_complete s v h =
      let st = (load C S s).0 in
      elim (saved st s v h) [
        | inl (same, e) ↦ (rw e refl, rw e same)
        | inr (bytes, found, e) ↦ (
          ap (λ r. (load C S r.1).0) e
              ∙ load-next s (S.write s (target_slot st) bytes).0 v
                  (S.read-write_other s _ _ bytes (target_slot-other s)) found
              ∙ sym (ap (λ r. r.0) e),
          ap (λ r. r.0.current) e,
        )
      ]

  load-loaded :
      (s : S.State) → (load C S s).0.is_loaded ≡ true → load C S s ≡ ((load C S s).0, loaded)
  unfolding load
  load-loaded s h = ground (arith, h)

  load-kept :
      (s s' : S.State)
      → (load C S s).0.is_loaded ≡ true
      → OtherKept s s' (target_slot (load C S s).0)
      → (slot_value C S s' (target_slot (load C S s).0) ≡ none)
        ⊎ (S.read s' (target_slot (load C S s).0) ≡ S.read s (target_slot (load C S s).0))
      → (load C S s').0 ≡ (load C S s).0
  unfolding load
  load-kept s s' h k w =
      let d = C.default_value in
      elim (target_slot-newest_of d (slot_value C S s 0) (slot_value C S s 1)) [
        | inl t ↦
            ap (λ r. newest_of d (slot_value C S s' 0) (and_then r C.decode))
              (subst (λ i. OtherKept s s' i) t k)
            ∙ elim w [
              | inl g ↦
                  ap (λ r. newest_of d r (slot_value C S s 1))
                    (subst (λ i. slot_value C S s' i ≡ none) t g)
                  ∙ newest_of-lost_first d (slot_value C S s 0) (slot_value C S s 1) h t
              | inr g ↦
                  ap (λ r. newest_of d (and_then r C.decode) (slot_value C S s 1))
                    (subst (λ i. S.read s' i ≡ S.read s i) t g)
            ]
        | inr t ↦
            ap (λ r. newest_of d (and_then r C.decode) (slot_value C S s' 1))
              (subst (λ i. OtherKept s s' i) t k)
            ∙ elim w [
              | inl g ↦
                  ap (λ r. newest_of d (slot_value C S s 0) r)
                    (subst (λ i. slot_value C S s' i ≡ none) t g)
                  ∙ newest_of-lost_second d (slot_value C S s 0) (slot_value C S s 1) h t
              | inr g ↦
                  ap (λ r. newest_of d (slot_value C S s 0) (and_then r C.decode))
                    (subst (λ i. S.read s' i ≡ S.read s i) t g)
            ]
      ]

  -- If a load finds a value, and then the slot that a save would write is read as it was or can
  -- not be decoded any more, while the other slot is read as it was, a load finds the same value.
  pub save_interrupted :
      (s s' : S.State)
      → (load C S s).0.is_loaded ≡ true
      → OtherKept s s' (target_slot (load C S s).0)
      → (slot_value C S s' (target_slot (load C S s).0) ≡ none)
        ⊎ (S.read s' (target_slot (load C S s).0) ≡ S.read s (target_slot (load C S s).0))
      → load C S s' ≡ load C S s
  save_interrupted s s' h k w =
      let same = load-kept s s' h k w in
      load-loaded s' (ap (λ m. m.is_loaded) same ∙ h)
      ∙ ap (λ m. (m, loaded)) same
      ∙ sym (load-loaded s h)
