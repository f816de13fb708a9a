-- ===== src/Registry/Lookup.antt =====
-- What the registry finds after an operation.
use radio_sensors.Prelude.{
  ℕ, ◌≤◌, ◌<◌, ◌≡◌, ◌≢◌, ◌⊎◌, inl, inr, refl, sym, Bool, true, false, List, [], ◌∷◌, ◌++◌, none,
  some, arith, length, All, Bool-cases, Option-cases, ◌==◌, ==_refl, zeros, if◌then◌else◌,
}
use radio_sensors.Power.{policy_auto}
use radio_sensors.Wire.JoinRequest.{JoinRequest, DeviceUid}
use radio_sensors.Registry.{
  NodeRecord, NodeRegistry, max_nodes, has_id, has_uid, find_first, find_by_uid, find_by_node_id,
  fill, add_record, allocate_node_id, reserve, reserve_new, confirm, remove, swap_remove, blank,
  ReserveStatus, ConfirmStatus, set_state, active, pending, same_uid, modify_by_node_id,
}
use radio_sensors.Registry.Table.{same_uid_iff, find_first-modify_first, Pairwise}
use radio_sensors.Registry.Removal.{
  AtMostOne, swap_remove-none, find_first-swap_remove, find_first-swap_remove_other,
}
use radio_sensors.Registry.Allocate.{allocate_node_id-Allocated, allocate_node_id-ne-zero}
use radio_sensors.Registry.Invariant.{IsRegistry, Apart}
use radio_sensors.Registry.Invariant.Reserve.{IsAdmissible}

module _ (q : NodeRecord → Bool) where
  find_first-append_none :
      (xs : List NodeRecord) (a : NodeRecord)
      → find_first q xs ≡ none
      → q a ≡ true
      → find_first q (xs ++ (a ∷ [])) ≡ some a
  unfolding find_first
  find_first-append_none [] a h k = ground arith
  find_first-append_none (x ∷ xs) a h k = ground (arith, find_first-append_none xs a)

  find_first-append_some :
      (xs ys : List NodeRecord) (a : NodeRecord)
      → find_first q xs ≡ some a
      → find_first q (xs ++ ys) ≡ some a
  unfolding find_first
  find_first-append_some [] ys a h = cc
  find_first-append_some (x ∷ xs) ys a h = ground (arith, find_first-append_some xs ys a)

-- One ID is one node's.
AtMostOne-id : (id : ℕ) (xs : List NodeRecord) → Pairwise Apart xs → AtMostOne (has_id id) xs
AtMostOne-id id [] v = tt
AtMostOne-id id (x ∷ xs) v = (others xs v.0, AtMostOne-id id xs v.1)
  where
    others :
        (ys : List NodeRecord)
        → All (Apart x) ys
        → All (λ b. has_id id x ≡ true → has_id id b ≡ true → ⊥) ys
    others [] w = tt
    others (y ∷ ys) w = ((λ e f. w.0.0 (ground arith)), others ys w.1)

-- The two results of `remove`.
module _ (r : NodeRegistry) (id : ℕ) where
  remove-missing : swap_remove (has_id id) r.live ≡ none → remove r id ≡ (r, false)
  unfolding remove
  remove-missing e = rw (e, remove)

  remove-found :
      (live : List NodeRecord)
      → swap_remove (has_id id) r.live ≡ some live
      → (remove r id).0.live ≡ live
  unfolding remove
  remove-found live e = rw (e, remove)

-- After a removal, no record has the ID, and every other ID finds the record that it found before.
pub find_by_node_id-remove :
    (r : NodeRegistry) (id j : ℕ)
    → IsRegistry r
    → find_by_node_id (remove r id).0 j ≡ (if id == j then none else find_by_node_id r j)
find_by_node_id-remove r id j v = elim (Option-cases (swap_remove (has_id id) r.live)) [
  | inl e ↦ rw (remove-missing r id e) (elim (Bool-cases (id == j)) [
    | inl same ↦ rw (same, ← (id_eq same)) (swap_remove-none (has_id id) r.live e)
    | inr other ↦ rw other
  ])
  | inr (live, e) ↦ rw (remove-found r id live e) (elim (Bool-cases (id == j)) [
    | inl same ↦
        rw (same, ← (id_eq same))
          (find_first-swap_remove (has_id id) r.live live (AtMostOne-id id r.live v.distinct) e)
    | inr other ↦ rw other (
        find_first-swap_remove_other (has_id id) (has_id j) r.live live
          (λ a h. ground (arith, other)) (AtMostOne-id j r.live v.distinct) e)
  ])
]
  where
    id_eq : (id == j) ≡ true → id ≡ j
    id_eq h = ground arith

add_record-blank :
    (q : JoinRequest) (id : ℕ) (live spare : List NodeRecord)
    → length live < max_nodes
    → IsRegistry (record { live = live; spare = spare })
    → (add_record (record { live = live; spare = spare }) q id).live
      ≡ live ++ (fill q id blank ∷ [])
unfolding add_record
add_record-blank q id live [] room v = absurd (omega (arith, v.sized))
add_record-blank q id live (slot ∷ rest) room v = rw (v.blank_spare.0)

-- The record of a new node: pending, under automatic power control, without a name, and with the
-- fields of its request.
abbrev pub new_node : JoinRequest → ℕ → NodeRecord
new_node q id = record {
  device_uid = q.device_uid;
  node_id = id;
  profile_id = q.profile_id;
  firmware = q.firmware;
  state = pending;
  request_nonce = q.request_nonce;
  display_name_length = 0;
  display_name = zeros 48;
  max_power_level = q.max_power_level;
  power_policy = policy_auto;
}

module _ (r : NodeRegistry) (q : JoinRequest) (a : IsAdmissible q) (v : IsRegistry r)
    (u : find_by_uid r q.device_uid ≡ none) (room : length r.live < max_nodes) where
  reserve_creates : reserve r q ≡ (
    add_record r q (allocate_node_id r),
    record { status = ReserveStatus.created; node_id = allocate_node_id r },
  )
  unfolding reserve reserve_new
  reserve_creates = ground (arith, u, a.assigned, allocate_node_id-ne-zero r room)

  allocated :
      (1 ≤ allocate_node_id r)
      × (allocate_node_id r ≤ 99)
      × (find_by_node_id r (allocate_node_id r) ≡ none)
  allocated = elim (allocate_node_id-Allocated r) [
    | inl (z, _) ↦ absurd (allocate_node_id-ne-zero r room z)
    | inr (low, high, free, _) ↦ (low, omega arith, free)
  ]

  -- A request with a profile that is not 0 and a power level of 31 at most, from a node that a
  -- well-formed registry does not know and has room for, is given an ID from 1 to 99 that was free.
  -- The ID and the UID then find its record, which is pending, under automatic power control and
  -- without a name, and has the UID, the profile, the firmware, the nonce and the level of the request.
  pub reserve_created :
      let (r', answer) = reserve r q in
      (answer.status ≡ ReserveStatus.created)
      × (1 ≤ answer.node_id)
      × (answer.node_id ≤ 99)
      × (find_by_node_id r answer.node_id ≡ none)
      × (find_by_node_id r' answer.node_id ≡ some (new_node q answer.node_id))
      × (find_by_uid r' q.device_uid ≡ some (new_node q answer.node_id))
  reserve_created =
      let id = allocate_node_id r in
      let (low, high, free) = allocated in
      rw reserve_creates (
        rw (add_record-blank q id r.live r.spare room v) (
          refl,
          low,
          high,
          free,
          find_first-append_none (has_id id) r.live (fill q id blank) free (==_refl id),
          find_first-append_none (has_uid q.device_uid) r.live (fill q id blank) u
              ((same_uid_iff q.device_uid q.device_uid).1 refl),
        ))

  -- The ID that a new node is given is the lowest free one.
  pub reserve_lowest : (j : ℕ) → 1 ≤ j → j < (reserve r q).1.node_id → find_by_node_id r j ≢ none
  reserve_lowest j low below e = elim (allocate_node_id-Allocated r) [
    | inl (z, _) ↦ allocate_node_id-ne-zero r room z
    | inr (_, _, _, used) ↦ let (b, f) = used j low (rw reserve_creates at below) in cc (e, f)
  ]

  -- The nodes that were there keep their records.
  pub reserve_keeps :
      (j : ℕ) (b : NodeRecord)
      → find_by_node_id r j ≡ some b
      → find_by_node_id (reserve r q).0 j ≡ some b
  reserve_keeps j b e = rw reserve_creates (
      rw (add_record-blank q (allocate_node_id r) r.live r.spare room v)
        (find_first-append_some (has_id j) r.live _ b e))

module _ (r : NodeRegistry) (id : ℕ) (x : NodeRecord) where
  found_again :
      find_by_node_id r id ≡ some x
      → find_by_node_id (modify_by_node_id id (set_state active) r) id ≡ some (set_state active x)
  found_again e = find_first-modify_first (has_id id) (set_state active) r.live x (λ b h. h) e

  -- A pending node that answers with its UID and the nonce of its request becomes active, and the
  -- same confirmation, received again, changes nothing more.
  pub confirm_twice :
      find_by_node_id r id ≡ some x
      → x.state ≡ pending
      → let (r', answer) = confirm r (some x.device_uid) id x.request_nonce in
        (answer ≡ ConfirmStatus.confirmed)
        × (find_by_node_id r' id ≡ some (set_state active x))
        × (confirm r' (some x.device_uid) id x.request_nonce ≡ (r', ConfirmStatus.already_active))
  unfolding confirm
  confirm_twice e p =
      let same = (same_uid_iff x.device_uid x.device_uid).1 refl in
      ground (arith, same, found_again e)

  -- No other UID and no other nonce confirms a node: the registry is left as it was.
  pub confirm_refused :
      (uid : DeviceUid) (nonce : ℕ)
      → find_by_node_id r id ≡ some x
      → (uid ≢ x.device_uid) ⊎ (nonce ≢ x.request_nonce)
      → ((confirm r (some uid) id nonce).0 ≡ r)
        × ((confirm r (some uid) id nonce).1 ≢ ConfirmStatus.confirmed)
  unfolding confirm
  confirm_refused uid nonce e (inl h) = elim (Bool-cases (same_uid x.device_uid uid)) [
    | inl s ↦ absurd (h (sym ((same_uid_iff x.device_uid uid).0 s)))
    | inr d ↦ ground (arith, e, d)
  ]
  confirm_refused uid nonce e (inr h) = ground (arith, e)
