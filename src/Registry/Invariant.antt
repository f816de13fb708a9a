-- ===== src/Registry/Invariant.antt =====
-- What holds of the registry at all times: a full array, valid records, and no two nodes with one
-- ID or one UID.
pub mod Restore
pub mod Reserve
pub mod Changes
use radio_sensors.Prelude.{
  ℕ, zero, suc, ◌+◌, ◌-◌, ◌≤◌, ◌≡◌, ◌≢◌, ◌⊎◌, inl, inr, refl, sym, ◌∙◌, Bool-cases, Bool, true,
  false, List, [], ◌∷◌, ◌++◌, Option, none, some, arith, length, All,
}
use radio_sensors.Power.{max_radio_power_level, valid_policy}
use radio_sensors.Registry.{
  NodeRecord, NodeRegistry, blank, blanks, max_nodes, first_node_id, last_node_id, pending, active,
  disabled, has_id, has_uid, new_registry, modify_first, modify_by_node_id, find_first,
}
use radio_sensors.Registry.Name.{valid_display_name}
use radio_sensors.Registry.Updates.{stored_name}
use radio_sensors.Registry.Table.{Pairwise, same_bytes→eq, All-modify_first, length-modify_first}

-- A record that `restore` would accept.
pub record IsRecord (r : NodeRecord) : Type 0 where
  pub id_first : first_node_id ≤ r.node_id
  pub id_last : r.node_id ≤ last_node_id
  pub assigned : r.profile_id ≢ 0
  pub named : valid_display_name (some (stored_name r)) r.display_name_length ≡ true
  pub power_le : r.max_power_level ≤ max_radio_power_level
  pub policy_ok : valid_policy r.power_policy ≡ true
  pub state_ok : (r.state ≡ pending) ⊎ ((r.state ≡ active) ⊎ (r.state ≡ disabled))

abbrev pub Apart : NodeRecord → NodeRecord → Type 0
Apart a b = (a.node_id ≢ b.node_id) × (a.device_uid ≢ b.device_uid)

pub Apart-sym : (a b : NodeRecord) → Apart a b → Apart b a
Apart-sym a b h = (λ e. h.0 (sym e), λ e. h.1 (sym e))

pub record IsRegistry (r : NodeRegistry) : Type 0 where
  pub sized : length r.live + length r.spare ≡ max_nodes
  pub blank_spare : All (λ s. s ≡ blank) r.spare
  pub records : All IsRecord r.live
  pub distinct : Pairwise Apart r.live

blanks-blank : (n : ℕ) → All (λ s. s ≡ blank) (blanks n)
blanks-blank zero = tt
blanks-blank (suc n) = (refl, blanks-blank n)

length-blanks : (n : ℕ) → length (blanks n) ≡ n
length-blanks zero = refl
length-blanks (suc n) = omega (arith, length-blanks n)

-- A registry from valid records that are apart, with the rest of its array blank.
pub IsRegistry-blanks :
    (live : List NodeRecord)
    → length live ≤ max_nodes
    → All IsRecord live
    → Pairwise Apart live
    → IsRegistry (record { live = live; spare = blanks (max_nodes - length live) })
IsRegistry-blanks live h v d = record {
  sized = omega (arith, length-blanks (max_nodes - length live));
  blank_spare = blanks-blank (max_nodes - length live);
  records = v;
  distinct = d;
}

pub new_registry-IsRegistry : IsRegistry new_registry
unfolding new_registry
new_registry-IsRegistry = IsRegistry-blanks [] (omega arith) tt tt

-- A write through a pointer that leaves the ID and the UID, and the record valid.
module _ (p : NodeRecord → Bool) (f : NodeRecord → NodeRecord)
    (same : (a : NodeRecord)
      → ((f a).node_id ≡ a.node_id) × ((f a).device_uid ≡ a.device_uid)) where
  Apart-modify_first :
      (x : NodeRecord) (xs : List NodeRecord)
      → All (Apart x) xs
      → All (Apart x) (modify_first p f xs)
  Apart-modify_first x xs =
      All-modify_first p (Apart x) f xs
        (λ a _ h. (λ e. h.0 (e ∙ (same a).0), λ e. h.1 (e ∙ (same a).1)))

  Apart-modified : (x : NodeRecord) (xs : List NodeRecord) → All (Apart x) xs → All (Apart (f x)) xs
  Apart-modified x [] v = tt
  Apart-modified x (y ∷ ys) v =
      ((λ e. v.0.0 (sym (same x).0 ∙ e), λ e. v.0.1 (sym (same x).1 ∙ e)), Apart-modified x ys v.1)

  Pairwise-modify_first :
      (xs : List NodeRecord) → Pairwise Apart xs → Pairwise Apart (modify_first p f xs)
  unfolding modify_first
  Pairwise-modify_first [] v = v
  Pairwise-modify_first (x ∷ xs) v = elim (Bool-cases (p x)) [
    | inl e ↦ rw e (Apart-modified x xs v.0, v.1)
    | inr e ↦ rw e (Apart-modify_first x xs v.0, Pairwise-modify_first xs v.1)
  ]

  pub modify_first-IsRegistry :
      (r : NodeRegistry)
      → ((a : NodeRecord) → p a ≡ true → IsRecord a → IsRecord (f a))
      → IsRegistry r
      → IsRegistry (record r { live = modify_first p f r.live })
  modify_first-IsRegistry r keep v = record {
    sized = omega (arith, v.sized, length-modify_first p f r.live);
    blank_spare = v.blank_spare;
    records = All-modify_first p IsRecord f r.live keep v.records;
    distinct = Pairwise-modify_first r.live v.distinct;
  }
