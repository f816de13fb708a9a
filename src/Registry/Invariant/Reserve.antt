-- ===== src/Registry/Invariant/Reserve.antt =====
-- `reserve` keeps the invariant, and what it answers.
use radio_sensors.Prelude.{
  ℕ, ◌≤◌, ◌<◌, ◌≡◌, ◌≢◌, ◌⊎◌, inl, inr, refl, List, [], ◌∷◌, none, some, arith, length,
  length-append, All, Bool-cases, Option-cases,
}
use radio_sensors.Power.{max_radio_power_level, valid_policy}
use radio_sensors.Wire.JoinRequest.{JoinRequest, DeviceUid, unassigned_profile_id}
use radio_sensors.Registry.{
  NodeRecord, NodeRegistry, max_nodes, has_id, has_uid, find_first, find_by_uid, modify_by_uid,
  renew, fill, add_record, allocate_node_id, reserve, reserve_existing, reserve_new, blank,
  unprovisioned_node_id,
}
use radio_sensors.Registry.Name.{valid_display_name, valid_points}
use radio_sensors.Registry.Table.{Pairwise-append_one, All-append_one, same_uid_iff}
use radio_sensors.Registry.Allocate.{allocate_node_id-Allocated}
use radio_sensors.Registry.Invariant.{IsRecord, IsRegistry, Apart, modify_first-IsRegistry}
use radio_sensors.Registry.Invariant.Changes.{capped_policy-valid}

-- A request that `decodeJoinRequest` may return.
pub record IsAdmissible (q : JoinRequest) : Type 0 where
  pub assigned : q.profile_id ≢ unassigned_profile_id
  pub power_le : q.max_power_level ≤ max_radio_power_level

renewed :
    (r : NodeRegistry) (q : JoinRequest)
    → IsAdmissible q
    → IsRegistry r
    → IsRegistry (modify_by_uid q.device_uid (renew q) r)
renewed r q a v =
    modify_first-IsRegistry (has_uid q.device_uid) (renew q) (λ b. (refl, refl)) r
      (λ b _ w. ground (arith, w, a.power_le, capped_policy-valid b.power_policy q.max_power_level))
      v

All-other_ids :
    (id : ℕ) (xs : List NodeRecord)
    → find_first (has_id id) xs ≡ none
    → All (λ x. x.node_id ≢ id) xs
unfolding find_first
All-other_ids id [] h = tt
All-other_ids id (x ∷ xs) h = elim (Bool-cases (has_id id x)) [
  | inl e ↦ absurd (ground (arith, e))
  | inr e ↦ (ground (arith, e), All-other_ids id xs (rw e at h))
]

All-other_uids :
    (uid : DeviceUid) (xs : List NodeRecord)
    → find_first (has_uid uid) xs ≡ none
    → All (λ x. x.device_uid ≢ uid) xs
unfolding find_first
All-other_uids uid [] h = tt
All-other_uids uid (x ∷ xs) h = elim (Bool-cases (has_uid uid x)) [
  | inl e ↦ absurd (ground (arith, e))
  | inr e ↦ (λ s. cc (e, (same_uid_iff x.device_uid uid).1 s), All-other_uids uid xs (rw e at h))
]

All-Apart :
    (n : NodeRecord) (xs : List NodeRecord)
    → All (λ x. x.node_id ≢ n.node_id) xs
    → All (λ x. x.device_uid ≢ n.device_uid) xs
    → All (λ x. Apart x n) xs
All-Apart n [] v w = tt
All-Apart n (x ∷ xs) v w = ((v.0, w.0), All-Apart n xs v.1 w.1)

fill-IsRecord :
    (q : JoinRequest) (id : ℕ) (slot : NodeRecord)
    → IsAdmissible q
    → 1 ≤ id
    → id < 100
    → slot ≡ blank
    → IsRecord (fill q id slot)
fill-IsRecord q id slot a low high e = rw e (record {
  id_first = low;
  id_last = omega arith;
  assigned = a.assigned;
  named = unfold valid_display_name valid_points in refl;
  power_le = a.power_le;
  policy_ok = unfold valid_policy in refl;
  state_ok = inl refl;
})

module _ (q : JoinRequest) (a : IsAdmissible q) (id : ℕ) (low : 1 ≤ id) (high : id < 100) where
  -- The new record in the array, by the part of it behind `count_`.
  added :
      (live spare : List NodeRecord)
      → length live < max_nodes
      → find_first (has_id id) live ≡ none
      → find_first (has_uid q.device_uid) live ≡ none
      → IsRegistry (record { live = live; spare = spare })
      → IsRegistry (add_record (record { live = live; spare = spare }) q id)
  unfolding add_record
  added live [] room i u v = absurd (omega (arith, v.sized))
  added live (slot ∷ rest) room i u v =
      let new = fill q id slot in
      record {
        sized = omega (arith, v.sized, length-append live (new ∷ []));
        blank_spare = v.blank_spare.1;
        records =
            All-append_one IsRecord live new v.records
              (fill-IsRecord q id slot a low high v.blank_spare.0);
        distinct =
            Pairwise-append_one Apart live new v.distinct
              (All-Apart new live (All-other_ids id live i) (All-other_uids q.device_uid live u));
      }

reserve_new-IsRegistry :
    (r : NodeRegistry) (q : JoinRequest)
    → IsAdmissible q
    → find_by_uid r q.device_uid ≡ none
    → IsRegistry r
    → IsRegistry (reserve_new r q).0
reserve_new-IsRegistry r q a u v = elim kept [
  | inl e ↦ rw e v
  | inr (room, used, e) ↦ elim (allocate_node_id-Allocated r) [
    | inl (z, _) ↦ absurd (used z)
    | inr (low, high, free, _) ↦
        rw e (added q a (allocate_node_id r) low high r.live r.spare room free u v)
  ]
]
  where
    kept :
        ((reserve_new r q).0 ≡ r)
        ⊎ ((length r.live < max_nodes)
            × (allocate_node_id r ≢ unprovisioned_node_id)
            × ((reserve_new r q).0 ≡ add_record r q (allocate_node_id r)))
    kept = unfold reserve_new in ground arith

-- Every request that `decodeJoinRequest` can return leaves the registry valid, on every branch.
pub reserve-IsRegistry :
    (r : NodeRegistry) (q : JoinRequest)
    → IsAdmissible q
    → IsRegistry r
    → IsRegistry (reserve r q).0
reserve-IsRegistry r q a v = elim (Option-cases (find_by_uid r q.device_uid)) [
  | inl u ↦ elim (new u) [ inl e ↦ rw e v | inr e ↦ rw e (reserve_new-IsRegistry r q a u v) ]
  | inr (x, u) ↦ elim (old x u) [ inl e ↦ rw e v | inr e ↦ rw e (renewed r q a v) ]
]
  where
    new :
        find_by_uid r q.device_uid ≡ none
        → ((reserve r q).0 ≡ r) ⊎ ((reserve r q).0 ≡ (reserve_new r q).0)
    new u = unfold reserve in ground (arith, u)

    old :
        (x : NodeRecord)
        → find_by_uid r q.device_uid ≡ some x
        → ((reserve r q).0 ≡ r) ⊎ ((reserve r q).0 ≡ modify_by_uid q.device_uid (renew q) r)
    old x u = unfold reserve reserve_existing in ground (arith, u)
