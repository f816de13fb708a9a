-- ===== src/Registry/Updates.antt =====
-- NodeRegistry.cpp: `rename`, `setPowerPolicy`, `updateInfo` and `restore`.
use radio_sensors.Prelude.{
  ℕ, zero, suc, ◌-◌, Bool, true, false, not, ◌&&◌, ◌||◌, List, [], ◌∷◌, ◌++◌, Option, none, some,
  take, ltb, leb, ◌==◌, if◌then◌else◌, Bytes, to_list,
}
use radio_sensors.Power.{max_radio_power_level, is_fixed_policy, fixed_level, valid_policy}
use radio_sensors.Wire.JoinRequest.{DeviceUid, unassigned_profile_id}
use radio_sensors.Wire.Session.{NodeInfo}
use radio_sensors.Registry.{
  NodeRecord, NodeRegistry, RenameStatus, PowerPolicyStatus, InfoStatus, find_by_node_id,
  modify_by_node_id, capped_policy, uid_equals, same_uid, firmware_equals, active, pending,
  disabled, max_nodes, first_node_id, last_node_id, blanks,
}
use radio_sensors.Registry.Name.{node_display_name_size, valid_display_name}

-- memcmp over `count` bytes gives 0.
abbrev pub same_prefix : ℕ → List ℕ → List ℕ → Bool
same_prefix zero xs ys = true
same_prefix (suc n) [] ys = false
same_prefix (suc n) (x ∷ xs) [] = false
same_prefix (suc n) (x ∷ xs) (y ∷ ys) = x == y && same_prefix n xs ys

-- memset with zeros, then memcpy of `count` bytes.
abbrev pub padded : (n : ℕ) → ℕ → List ℕ → Bytes n
padded zero count xs = tt
padded (suc n) zero xs = (0, padded n zero xs)
padded (suc n) (suc count) [] = (0, padded n count [])
padded (suc n) (suc count) (x ∷ xs) = (x, padded n count xs)

abbrev pub name_bytes : Option (List ℕ) → List ℕ
name_bytes none = []
name_bytes (some bytes) = bytes

abbrev pub set_name : List ℕ → ℕ → NodeRecord → NodeRecord
set_name bytes size r = record r {
  display_name = padded node_display_name_size size bytes;
  display_name_length = size;
}

abbrev pub stored_name : NodeRecord → List ℕ
stored_name r = to_list node_display_name_size r.display_name

unfoldable pub rename : NodeRegistry → ℕ → Option (List ℕ) → ℕ → NodeRegistry × RenameStatus
rename r id display_name size =
    let bytes = name_bytes display_name in
    if not (valid_display_name display_name size)
    then (r, RenameStatus.invalid_name)
    else elim (find_by_node_id r id) [
      | none ↦ (r, RenameStatus.not_found)
      | some found ↦
          if found.display_name_length == size
            && (size == 0 || same_prefix size (stored_name found) bytes)
          then (r, RenameStatus.no_change)
          else (modify_by_node_id id (set_name bytes size) r, RenameStatus.renamed)
    ]

abbrev pub set_policy : ℕ → NodeRecord → NodeRecord
set_policy policy r = record r { power_policy = policy }

unfoldable pub set_power_policy : NodeRegistry → ℕ → ℕ → NodeRegistry × PowerPolicyStatus
set_power_policy r id policy = elim (find_by_node_id r id) [
  | none ↦ (r, PowerPolicyStatus.not_found)
  | some found ↦
      if not (valid_policy policy)
        || (is_fixed_policy policy && ltb found.max_power_level (fixed_level policy))
      then (r, PowerPolicyStatus.invalid_policy)
      else if found.power_policy == policy
      then (r, PowerPolicyStatus.no_change)
      else (modify_by_node_id id (set_policy policy) r, PowerPolicyStatus.updated)
]

abbrev pub set_info : NodeInfo → NodeRecord → NodeRecord
set_info info r = record r {
  profile_id = info.profile_id;
  firmware = info.firmware;
  max_power_level = info.max_power_level;
  power_policy = capped_policy r.power_policy info.max_power_level;
}

unfoldable pub update_info :
    NodeRegistry → ℕ → Option DeviceUid → NodeInfo → NodeRegistry × InfoStatus
update_info r id uid info = elim (find_by_node_id r id) [
  | none ↦ (r, InfoStatus.not_found)
  | some found ↦
      let profile_changed = not (found.profile_id == info.profile_id) in
      if not (found.state == active) || not (uid_equals found.device_uid uid)
      then (r, InfoStatus.not_found)
      else if not profile_changed
          && firmware_equals found.firmware info.firmware
          && found.max_power_level == info.max_power_level
      then (r, InfoStatus.no_change)
      else (
        modify_by_node_id id (set_info info) r,
        if profile_changed then InfoStatus.profile_changed else InfoStatus.updated,
      )
]

-- The tests of `restore` on one record, and on a record with one before it.
unfoldable pub valid_record : NodeRecord → Bool
valid_record r =
    leb first_node_id r.node_id
    && leb r.node_id last_node_id
    && not (r.profile_id == unassigned_profile_id)
    && valid_display_name (some (stored_name r)) r.display_name_length
    && leb r.max_power_level max_radio_power_level
    && valid_policy r.power_policy
    && (r.state == pending || r.state == active || r.state == disabled)

abbrev pub clash : NodeRecord → NodeRecord → Bool
clash previous r = previous.node_id == r.node_id || same_uid previous.device_uid r.device_uid

unfoldable pub clashes : List NodeRecord → NodeRecord → Bool
clashes [] r = false
clashes (p ∷ ps) r = clash p r || clashes ps r

-- The two loops of `restore`, with the records that are passed and those to come.
unfoldable pub valid_records : List NodeRecord → List NodeRecord → Bool
valid_records previous [] = true
valid_records previous (r ∷ rest) =
    valid_record r && not (clashes previous r) && valid_records (previous ++ (r ∷ [])) rest

unfoldable pub restore : NodeRegistry → Option (List NodeRecord) → ℕ → NodeRegistry × Bool
restore r none count =
    if not (count == 0) || ltb max_nodes count
    then (r, false)
    else (record { live = []; spare = blanks max_nodes }, true)
restore r (some records) count =
    let given = take count records in
    if ltb max_nodes count || not (valid_records [] given)
    then (r, false)
    else (record { live = given; spare = blanks (max_nodes - count) }, true)
