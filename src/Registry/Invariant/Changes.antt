-- ===== src/Registry/Invariant/Changes.antt =====
-- Every operation but `reserve` keeps the invariant, and `restore` establishes it.
use radio_sensors.Prelude.{
  ℕ, zero, suc, ◌≤◌, ◌≡◌, ◌≢◌, ◌⊎◌, inl, inr, refl, ap, true, List, [], ◌∷◌, Option, none, some,
  arith, length, take, &&-split, leb, Option-cases, to_list,
}
use radio_sensors.Power.{max_radio_power_level, valid_policy}
use radio_sensors.Wire.JoinRequest.{DeviceUid}
use radio_sensors.Wire.Session.{NodeInfo}
use radio_sensors.Registry.{
  NodeRegistry, has_id, modify_by_node_id, capped_policy, confirm, disable, remove, set_state,
  switch_off, active, swap_remove,
}
use radio_sensors.Registry.Name.{valid_display_name, valid_points}
use radio_sensors.Registry.Updates.{
  padded, set_name, rename, set_policy, set_power_policy, set_info, update_info,
}
use radio_sensors.Registry.Removal.{All-swap_remove, Pairwise-swap_remove, length-swap_remove}
use radio_sensors.Registry.Invariant.{
  IsRecord, IsRegistry, Apart, Apart-sym, modify_first-IsRegistry,
}

pub capped_policy-valid :
    (policy ceiling : ℕ)
    → valid_policy policy ≡ true
    → valid_policy (capped_policy policy ceiling) ≡ true
unfolding valid_policy
capped_policy-valid policy ceiling h = ground arith

-- An operation that leaves the registry, or makes one change that keeps the invariant.
kept_or : {r r' s : NodeRegistry} → (s ≡ r) ⊎ (s ≡ r') → IsRegistry r → IsRegistry r' → IsRegistry s
kept_or (inl e) v w = rw e v
kept_or (inr e) v w = rw e w

-- A write to a record that changes neither its ID nor its UID.
module _ (r : NodeRegistry) (v : IsRegistry r) (id : ℕ) where
  activated : IsRegistry (modify_by_node_id id (set_state active) r)
  activated =
      modify_first-IsRegistry (has_id id) (set_state active) (λ b. (refl, refl)) r
        (λ b _ w. ground (arith, w)) v

  switched_off : IsRegistry (modify_by_node_id id switch_off r)
  switched_off =
      modify_first-IsRegistry (has_id id) switch_off (λ b. (refl, refl)) r
        (λ b _ w. ground (arith, w)) v

  policy_set :
      (policy : ℕ)
      → valid_policy policy ≡ true
      → IsRegistry (modify_by_node_id id (set_policy policy) r)
  policy_set policy h =
      modify_first-IsRegistry (has_id id) (set_policy policy) (λ b. (refl, refl)) r
        (λ b _ w. ground (arith, w)) v

  info_set :
      (info : NodeInfo)
      → info.profile_id ≢ 0
      → info.max_power_level ≤ max_radio_power_level
      → IsRegistry (modify_by_node_id id (set_info info) r)
  info_set info h k =
      modify_first-IsRegistry (has_id id) (set_info info) (λ b. (refl, refl)) r
        (λ b _ w. ground (arith, w, capped_policy-valid b.power_policy info.max_power_level)) v

-- A confirmation keeps the invariant, whatever the UID, the ID and the nonce.
pub confirm-IsRegistry :
    (r : NodeRegistry) (uid : Option DeviceUid) (id nonce : ℕ)
    → IsRegistry r
    → IsRegistry (confirm r uid id nonce).0
confirm-IsRegistry r uid id nonce v = kept_or cases v (activated r v id)
  where
    cases :
        ((confirm r uid id nonce).0 ≡ r)
        ⊎ ((confirm r uid id nonce).0 ≡ modify_by_node_id id (set_state active) r)
    cases = unfold confirm in ground arith

-- Disabling a node keeps the invariant.
pub disable-IsRegistry : (r : NodeRegistry) (id : ℕ) → IsRegistry r → IsRegistry (disable r id).0
disable-IsRegistry r id v = kept_or cases v (switched_off r v id)
  where
    cases : ((disable r id).0 ≡ r) ⊎ ((disable r id).0 ≡ modify_by_node_id id switch_off r)
    cases = unfold disable in ground arith

-- Removing a node keeps the invariant: the array stays full, and its freed slot is blank.
pub remove-IsRegistry : (r : NodeRegistry) (id : ℕ) → IsRegistry r → IsRegistry (remove r id).0
unfolding remove
remove-IsRegistry r id v = elim (Option-cases (swap_remove (has_id id) r.live)) [
  | inl e ↦ rw (e, remove) v
  | inr (live, e) ↦
      rw (e, remove)
        (record {
          sized = omega (arith, v.sized, length-swap_remove (has_id id) r.live live e);
          blank_spare = (refl, v.blank_spare);
          records = All-swap_remove (has_id id) IsRecord r.live live e v.records;
          distinct = Pairwise-swap_remove (has_id id) Apart r.live live Apart-sym e v.distinct;
        })
]

-- Setting a power policy keeps the invariant: an invalid one is refused.
pub set_power_policy-IsRegistry :
    (r : NodeRegistry) (id policy : ℕ) → IsRegistry r → IsRegistry (set_power_policy r id policy).0
set_power_policy-IsRegistry r id policy v = elim cases [
  | inl e ↦ rw e v
  | inr (h, e) ↦ rw e (policy_set r v id policy h)
]
  where
    cases :
        ((set_power_policy r id policy).0 ≡ r)
        ⊎ ((valid_policy policy ≡ true)
            × ((set_power_policy r id policy).0 ≡ modify_by_node_id id (set_policy policy) r))
    cases = unfold set_power_policy in ground arith

-- Taking in a node's identity keeps the invariant, where the identity is one that `decodeNodeInfo`
-- accepts.
pub update_info-IsRegistry :
    (r : NodeRegistry) (id : ℕ) (uid : Option DeviceUid) (info : NodeInfo)
    → info.profile_id ≢ 0
    → info.max_power_level ≤ max_radio_power_level
    → IsRegistry r
    → IsRegistry (update_info r id uid info).0
update_info-IsRegistry r id uid info h k v = kept_or cases v (info_set r v id info h k)
  where
    cases :
        ((update_info r id uid info).0 ≡ r)
        ⊎ ((update_info r id uid info).0 ≡ modify_by_node_id id (set_info info) r)
    cases = unfold update_info in ground arith

take-padded :
    (n size : ℕ) (bytes : List ℕ)
    → size ≤ n
    → size ≤ length bytes
    → take size (to_list n (padded n size bytes)) ≡ take size bytes
take-padded n zero bytes h k = refl
take-padded zero (suc size) bytes h k = absurd (omega arith)
take-padded (suc n) (suc size) [] h k = absurd (omega arith)
take-padded (suc n) (suc size) (x ∷ xs) h k =
    ap (◌∷◌ x) (take-padded n size xs (omega arith) (omega arith))

-- A name that was accepted is stored so that it would be accepted again.
stored_name-valid :
    (bytes : List ℕ) (size : ℕ)
    → size ≤ length bytes
    → valid_display_name (some bytes) size ≡ true
    → valid_display_name (some (to_list 48 (padded 48 size bytes))) size ≡ true
unfolding valid_display_name
stored_name-valid bytes size h v =
    let (short, points) = &&-split (leb size 48) _ v in
    rw (take-padded 48 size bytes (ground arith) h) v

name_set :
    (r : NodeRegistry) (id : ℕ) (bytes : List ℕ) (size : ℕ)
    → size ≤ length bytes
    → valid_display_name (some bytes) size ≡ true
    → IsRegistry r
    → IsRegistry (modify_by_node_id id (set_name bytes size) r)
name_set r id bytes size h n v =
    modify_first-IsRegistry (has_id id) (set_name bytes size) (λ b. (refl, refl)) r
      (λ b _ w. record {
        id_first = w.id_first;
        id_last = w.id_last;
        assigned = w.assigned;
        named = stored_name-valid bytes size h n;
        power_le = w.power_le;
        policy_ok = w.policy_ok;
        state_ok = w.state_ok;
      })
      v

-- Renaming a node keeps the invariant, where `size` bytes stand behind the pointer: an invalid
-- name is refused, and a valid one is stored so that it stays valid.
pub rename-IsRegistry :
    (r : NodeRegistry) (id : ℕ) (bytes : List ℕ) (size : ℕ)
    → size ≤ length bytes
    → IsRegistry r
    → IsRegistry (rename r id (some bytes) size).0
rename-IsRegistry r id bytes size h v = elim cases [
  | inl e ↦ rw e v
  | inr (n, e) ↦ rw e (name_set r id bytes size h n v)
]
  where
    cases :
        ((rename r id (some bytes) size).0 ≡ r)
        ⊎ ((valid_display_name (some bytes) size ≡ true)
            × ((rename r id (some bytes) size).0 ≡ modify_by_node_id id (set_name bytes size) r))
    cases = unfold rename in ground arith

-- Without a name behind the pointer only the empty name is taken.
pub rename_null-IsRegistry :
    (r : NodeRegistry) (id size : ℕ) → IsRegistry r → IsRegistry (rename r id none size).0
rename_null-IsRegistry r id size v = elim cases [
  | inl e ↦ rw e v
  | inr (n, e) ↦ rw e (name_set r id [] size (omega (arith, n)) (rw n empty_valid) v)
]
  where
    cases :
        ((rename r id none size).0 ≡ r)
        ⊎ ((size ≡ 0) × ((rename r id none size).0 ≡ modify_by_node_id id (set_name [] size) r))
    cases = unfold rename valid_display_name in ground arith

    empty_valid : valid_display_name (some []) 0 ≡ true
    empty_valid = unfold valid_display_name valid_points in refl
