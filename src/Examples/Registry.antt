-- ===== src/Examples/Registry.antt =====
-- NodeRegistry.cpp at a registry of two nodes.
use radio_sensors.Prelude.{
  ℕ, ◌+◌, ◌≡◌, ◌≢◌, ◌<◌, ◌≤◌, ◌↔◌, refl, inr, true, List, [], ◌∷◌, some, none, arith, All, zeros,
  length,
}
use radio_sensors.Wire.JoinRequest.{JoinRequest, DeviceUid}
use radio_sensors.Registry.{
  NodeRecord, NodeRegistry, blank, fill, new_registry, reserve, reserve_new, add_record, find_first,
  find_by_node_id, find_by_uid, allocate_node_id, allocate_from, same_uid, confirm, remove,
  set_state, active, ReserveStatus, ConfirmStatus,
}
use radio_sensors.Registry.Updates.{restore}
use radio_sensors.Registry.Table.{Pairwise}
use radio_sensors.Registry.Invariant.{IsRecord, IsRegistry, Apart, new_registry-IsRegistry}
use radio_sensors.Registry.Invariant.Reserve.{IsAdmissible}
use radio_sensors.Registry.Invariant.Restore.{restore_iff_records}
use radio_sensors.Registry.Lookup.{
  new_node, find_by_node_id-remove, reserve_created, reserve_lowest, reserve_keeps, confirm_twice,
  confirm_refused,
}
use radio_sensors.Registry.History.{
  Operation, run, apply, run-IsRegistry, reserves, confirms, removes, renames, sets_power_policy,
  restores,
}

abbrev pub uid_of : ℕ → DeviceUid
uid_of n = (n, zeros 9)

abbrev pub request_of : ℕ → JoinRequest
request_of n = record {
  device_uid = uid_of n;
  profile_id = 6;
  firmware = record { major = 1; minor = 0; patch = 0 };
  request_nonce = 1000 + n;
  max_power_level = 31;
}

request_of-IsAdmissible : (n : ℕ) → IsAdmissible (request_of n)
request_of-IsAdmissible n = omega arith

abbrev pub two_nodes : NodeRegistry
two_nodes = run new_registry (reserves (request_of 1) ∷ reserves (request_of 2) ∷ [])

pub two_nodes-IsRegistry : IsRegistry two_nodes
two_nodes-IsRegistry =
    run-IsRegistry (reserves (request_of 1) ∷ reserves (request_of 2) ∷ [])
      (request_of-IsAdmissible 1, (request_of-IsAdmissible 2, tt))

abbrev history : List Operation
history =
    reserves (request_of 1)
    ∷ confirms (some (uid_of 1)) 1 1001
    ∷ sets_power_policy 1 20
    ∷ removes 1
    ∷ renames 2 none 0
    ∷ restores (some (blank ∷ [])) 1
    ∷ restores none 0
    ∷ []

run-IsRegistry_example : IsRegistry (run new_registry history)
run-IsRegistry_example =
    run-IsRegistry history
      (request_of-IsAdmissible 1, (tt, (tt, (tt, (tt, (omega arith, (tt, tt)))))))

find_by_node_id-remove_example :
    find_by_node_id (remove two_nodes 1).0 2 ≡ find_by_node_id two_nodes 2
find_by_node_id-remove_example = find_by_node_id-remove two_nodes 1 2 two_nodes-IsRegistry

no_nodes : find_by_uid new_registry (uid_of 3) ≡ none
unfolding new_registry find_first
no_nodes = refl

no_records : length new_registry.live < 64
unfolding new_registry
no_records = omega arith

reserve_created_example :
    let (r', answer) = reserve new_registry (request_of 3) in
    (answer.status ≡ ReserveStatus.created)
    × (1 ≤ answer.node_id)
    × (answer.node_id ≤ 99)
    × (find_by_node_id new_registry answer.node_id ≡ none)
    × (find_by_node_id r' answer.node_id ≡ some (new_node (request_of 3) answer.node_id))
    × (find_by_uid r' (uid_of 3) ≡ some (new_node (request_of 3) answer.node_id))
reserve_created_example =
    reserve_created new_registry (request_of 3) (request_of-IsAdmissible 3) new_registry-IsRegistry
      no_nodes no_records

-- The second of two nodes, as `reserve` leaves it.
abbrev second_node : NodeRecord
second_node = fill (request_of 2) 2 blank

second_found : find_by_node_id two_nodes 2 ≡ some second_node
unfolding run apply new_registry reserve reserve_new add_record find_first allocate_node_id
    allocate_from same_uid
second_found = refl

third_unknown : find_by_uid two_nodes (uid_of 3) ≡ none
unfolding run apply new_registry reserve reserve_new add_record find_first allocate_node_id
    allocate_from same_uid
third_unknown = refl

two_records : length two_nodes.live < 64
unfolding run apply new_registry reserve reserve_new add_record find_first allocate_node_id
    allocate_from same_uid
two_records = omega arith

third_id : (reserve two_nodes (request_of 3)).1.node_id ≡ 3
unfolding run apply new_registry reserve reserve_new add_record find_first allocate_node_id
    allocate_from same_uid
third_id = refl

reserve_lowest_example : find_by_node_id two_nodes 2 ≢ none
reserve_lowest_example =
    reserve_lowest two_nodes (request_of 3) (request_of-IsAdmissible 3) two_nodes-IsRegistry
      third_unknown two_records 2 (omega arith) (omega (arith, third_id))

reserve_keeps_test : find_by_node_id (reserve two_nodes (request_of 3)).0 2 ≡ some second_node
reserve_keeps_test =
    reserve_keeps two_nodes (request_of 3) (request_of-IsAdmissible 3) two_nodes-IsRegistry
      third_unknown two_records 2 second_node second_found

confirm_twice_test :
    let (r', answer) = confirm two_nodes (some (uid_of 2)) 2 1002 in
    (answer ≡ ConfirmStatus.confirmed)
    × (find_by_node_id r' 2 ≡ some (set_state active second_node))
    × (confirm r' (some (uid_of 2)) 2 1002 ≡ (r', ConfirmStatus.already_active))
confirm_twice_test = confirm_twice two_nodes 2 second_node second_found refl

confirm_refused_example :
    ((confirm two_nodes (some (uid_of 2)) 2 7).0 ≡ two_nodes)
    × ((confirm two_nodes (some (uid_of 2)) 2 7).1 ≢ ConfirmStatus.confirmed)
confirm_refused_example =
    confirm_refused two_nodes 2 second_node (uid_of 2) 7 second_found (inr (omega arith))

restore_iff_records_example :
    ((restore new_registry (some (second_node ∷ second_node ∷ [])) 2).1 ≡ true) ↔ (
      (2 ≤ 64)
      × All IsRecord (second_node ∷ second_node ∷ [])
      × Pairwise Apart (second_node ∷ second_node ∷ []))
restore_iff_records_example = restore_iff_records new_registry (second_node ∷ second_node ∷ []) 2
