-- ===== src/Registry.antt =====
-- shared/RadioProtocol: NodeRegistry.h and NodeRegistry.cpp, the gateway's table of nodes.
-- The array `records_[64]` is split at `count_`: `live` is what stands below it and `spare` the
-- rest, so that `count_` is the length of `live`. A state is a raw byte, since the loaders cast one.
pub mod Name
pub mod Updates
pub mod Table
pub mod Removal
pub mod Allocate
pub mod Invariant
pub mod Lookup
pub mod History
pub mod Snapshot
pub mod Store
use radio_sensors.Prelude.{
  ℕ, zero, suc, ◌+◌, ◌≡◌, Bool, true, false, not, ◌&&◌, ◌||◌, List, [], ◌∷◌, ◌++◌, Option, none,
  some, length, take, get_or, ltb, leb, ◌==◌, if◌then◌else◌, Bytes, zeros, to_list, same_bytes,
  read_bytes,
}
use radio_sensors.Power.{
  max_radio_power_level, policy_auto, is_fixed_policy, fixed_level, valid_policy,
}
use radio_sensors.Wire.JoinRequest.{
  device_uid_size, DeviceUid, FirmwareVersion, JoinRequest, unassigned_profile_id,
}
use radio_sensors.Wire.Session.{NodeInfo}
use Name.{node_display_name_size, valid_display_name}

abbrev pub max_nodes : ℕ
max_nodes = 64

abbrev pub first_node_id : ℕ
first_node_id = 1

abbrev pub last_node_id : ℕ
last_node_id = 99

abbrev pub unprovisioned_node_id : ℕ
unprovisioned_node_id = 0

-- The enumerators of NodeState.
abbrev pub pending : ℕ
pending = 1

abbrev pub active : ℕ
active = 2

abbrev pub disabled : ℕ
disabled = 3

pub record NodeRecord : Type 0 where
  pub device_uid : DeviceUid
  pub node_id : ℕ
  pub profile_id : ℕ
  pub firmware : FirmwareVersion
  pub state : ℕ
  pub request_nonce : ℕ
  pub display_name_length : ℕ
  pub display_name : Bytes node_display_name_size
  pub max_power_level : ℕ
  pub power_policy : ℕ

-- `NodeRecord{}`
abbrev pub blank : NodeRecord
blank = record {
  device_uid = zeros device_uid_size;
  node_id = 0;
  profile_id = 0;
  firmware = record { major = 0; minor = 0; patch = 0 };
  state = 0;
  request_nonce = 0;
  display_name_length = 0;
  display_name = zeros node_display_name_size;
  max_power_level = 0;
  power_policy = 0;
}

pub record NodeRegistry : Type 0 where
  pub live : List NodeRecord
  pub spare : List NodeRecord

abbrev pub blanks : ℕ → List NodeRecord
blanks zero = []
blanks (suc n) = blank ∷ blanks n

unfoldable pub new_registry : NodeRegistry
new_registry = record { live = []; spare = blanks max_nodes }

pub data PowerPolicyStatus : Type 0 where
  updated no_change not_found invalid_policy : PowerPolicyStatus

pub data RenameStatus : Type 0 where
  renamed no_change not_found invalid_name : RenameStatus

pub data InfoStatus : Type 0 where
  updated profile_changed no_change not_found : InfoStatus

pub data ReserveStatus : Type 0 where
  created existing_pending_updated existing_active existing_disabled : ReserveStatus
  invalid_profile_id profile_conflict full : ReserveStatus

pub record ReserveResult : Type 0 where
  pub status : ReserveStatus
  pub node_id : ℕ

pub data ConfirmStatus : Type 0 where
  confirmed already_active not_found not_pending identity_mismatch nonce_mismatch : ConfirmStatus

-- The first record that passes a test, and a write through the pointer to it.
module _ {A : Type 0} (p : A → Bool) where
  unfoldable pub find_first : List A → Option A
  find_first [] = none
  find_first (x ∷ xs) = if p x then some x else find_first xs

  unfoldable pub modify_first : (A → A) → List A → List A
  modify_first f [] = []
  modify_first f (x ∷ xs) = if p x then f x ∷ xs else x ∷ modify_first f xs

-- `uidEquals` at two pointers that are not null.
unfoldable pub same_uid : DeviceUid → DeviceUid → Bool
same_uid = same_bytes device_uid_size

-- `none` is a null pointer, which equals nothing.
abbrev pub uid_equals : DeviceUid → Option DeviceUid → Bool
uid_equals left none = false
uid_equals left (some right) = same_uid left right

abbrev pub firmware_equals : FirmwareVersion → FirmwareVersion → Bool
firmware_equals a b = a.major == b.major && a.minor == b.minor && a.patch == b.patch

abbrev pub has_uid : DeviceUid → NodeRecord → Bool
has_uid uid r = same_uid r.device_uid uid

abbrev pub has_id : ℕ → NodeRecord → Bool
has_id id r = r.node_id == id

abbrev pub find_by_uid : NodeRegistry → DeviceUid → Option NodeRecord
find_by_uid r uid = find_first (has_uid uid) r.live

abbrev pub find_by_node_id : NodeRegistry → ℕ → Option NodeRecord
find_by_node_id r id = find_first (has_id id) r.live

-- The write through `findMutableByUid` and `findMutableByNodeId`.
abbrev pub modify_by_uid : DeviceUid → (NodeRecord → NodeRecord) → NodeRegistry → NodeRegistry
modify_by_uid uid f r = record r { live = modify_first (has_uid uid) f r.live }

abbrev pub modify_by_node_id : ℕ → (NodeRecord → NodeRecord) → NodeRegistry → NodeRegistry
modify_by_node_id id f r = record r { live = modify_first (has_id id) f r.live }

-- The loop of `allocateNodeId` with the rounds that are left.
unfoldable pub allocate_from : ℕ → ℕ → List NodeRecord → ℕ
allocate_from zero candidate live = unprovisioned_node_id
allocate_from (suc rounds) candidate live =
    let next = allocate_from rounds (candidate + 1) live in
    elim (find_first (has_id candidate) live) [ none ↦ candidate | some _ ↦ next ]

unfoldable pub allocate_node_id : NodeRegistry → ℕ
allocate_node_id r = allocate_from last_node_id first_node_id r.live

-- A fixed power level above a lowered ceiling returns to automatic control.
abbrev pub capped_policy : ℕ → ℕ → ℕ
capped_policy policy ceiling =
    if is_fixed_policy policy && ltb ceiling (fixed_level policy) then policy_auto else policy

-- `reserve` at a pending record of the same node.
abbrev pub renew : JoinRequest → NodeRecord → NodeRecord
renew request existing = record existing {
  firmware = request.firmware;
  request_nonce = request.request_nonce;
  max_power_level = request.max_power_level;
  power_policy = capped_policy existing.power_policy request.max_power_level;
}

abbrev pub result : ReserveStatus → ℕ → ReserveResult
result status node_id = record { status = status; node_id = node_id }

unfoldable pub reserve_existing :
    NodeRegistry → JoinRequest → NodeRecord → NodeRegistry × ReserveResult
reserve_existing r request existing =
    if not (existing.profile_id == request.profile_id)
    then (r, result ReserveStatus.profile_conflict existing.node_id)
    else if existing.state == active
    then (r, result ReserveStatus.existing_active existing.node_id)
    else if existing.state == disabled
    then (r, result ReserveStatus.existing_disabled existing.node_id)
    else (
      modify_by_uid request.device_uid (renew request) r,
      result ReserveStatus.existing_pending_updated existing.node_id,
    )

-- What is written to the slot of a new record; its name is what the slot holds.
abbrev pub fill : JoinRequest → ℕ → NodeRecord → NodeRecord
fill request node_id slot = record slot {
  device_uid = request.device_uid;
  node_id = node_id;
  profile_id = request.profile_id;
  firmware = request.firmware;
  state = pending;
  request_nonce = request.request_nonce;
  max_power_level = request.max_power_level;
  power_policy = policy_auto;
}

-- `records_[count_++]` with its new contents; `[]` is the slot past the array's end, which the
-- test on `count_` excludes.
unfoldable pub add_record : NodeRegistry → JoinRequest → ℕ → NodeRegistry
add_record r request node_id = elim r.spare [
  | [] ↦ r
  | slot ∷ rest ↦ record { live = r.live ++ (fill request node_id slot ∷ []); spare = rest }
]

unfoldable pub reserve_new : NodeRegistry → JoinRequest → NodeRegistry × ReserveResult
reserve_new r request =
    let node_id = allocate_node_id r in
    if leb max_nodes (length r.live)
    then (r, result ReserveStatus.full unprovisioned_node_id)
    else if node_id == unprovisioned_node_id
    then (r, result ReserveStatus.full unprovisioned_node_id)
    else (add_record r request node_id, result ReserveStatus.created node_id)

unfoldable pub reserve : NodeRegistry → JoinRequest → NodeRegistry × ReserveResult
reserve r request =
    if request.profile_id == unassigned_profile_id
    then (r, result ReserveStatus.invalid_profile_id unprovisioned_node_id)
    else elim (find_by_uid r request.device_uid) [
      | some existing ↦ reserve_existing r request existing
      | none ↦ reserve_new r request
    ]

abbrev pub set_state : ℕ → NodeRecord → NodeRecord
set_state state r = record r { state = state }

unfoldable pub confirm : NodeRegistry → Option DeviceUid → ℕ → ℕ → NodeRegistry × ConfirmStatus
confirm r uid id nonce = elim (find_by_node_id r id) [
  | none ↦ (r, ConfirmStatus.not_found)
  | some found ↦
      if not (uid_equals found.device_uid uid)
      then (r, ConfirmStatus.identity_mismatch)
      else if not (found.request_nonce == nonce)
      then (r, ConfirmStatus.nonce_mismatch)
      else if found.state == active
      then (r, ConfirmStatus.already_active)
      else if not (found.state == pending)
      then (r, ConfirmStatus.not_pending)
      else (modify_by_node_id id (set_state active) r, ConfirmStatus.confirmed)
]

abbrev pub switch_off : NodeRecord → NodeRecord
switch_off r = record r { state = disabled; request_nonce = 0 }

unfoldable pub disable : NodeRegistry → ℕ → NodeRegistry × Bool
disable r id = elim (find_by_node_id r id) [
  | none ↦ (r, false)
  | some found ↦
      if found.state == disabled then (r, false) else (modify_by_node_id id switch_off r, true)
]

-- The last entry of a list before the others.
abbrev pub put_second {ℓ} : {A : Type ℓ} → A → List A → List A
put_second x [] = x ∷ []
put_second x (l ∷ rest) = l ∷ x ∷ rest

unfoldable pub last_to_front {ℓ} : {A : Type ℓ} → List A → List A
last_to_front [] = []
last_to_front (x ∷ xs) = put_second x (last_to_front xs)

-- `records_[index] = records_[count_ - 1]` at the first match, and the last entry dropped.
unfoldable pub swap_remove : {A : Type 0} → (A → Bool) → List A → Option (List A)
swap_remove p [] = none
swap_remove p (x ∷ xs) =
    let rest = swap_remove p xs in
    if p x then some (last_to_front xs) else elim rest [ none ↦ none | some ys ↦ some (x ∷ ys) ]

unfoldable pub remove : NodeRegistry → ℕ → NodeRegistry × Bool
remove r id = elim (swap_remove (has_id id) r.live) [
  | none ↦ (r, false)
  | some live ↦ (record { live = live; spare = blank ∷ r.spare }, true)
]
