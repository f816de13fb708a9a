-- ===== src/Registry/History.antt =====
-- The registry over any sequence of its operations.
use radio_sensors.Prelude.{ℕ, ◌≤◌, ◌≢◌, List, [], ◌∷◌, Option, none, some, length, All}
use radio_sensors.Power.{max_radio_power_level}
use radio_sensors.Wire.JoinRequest.{JoinRequest, DeviceUid}
use radio_sensors.Wire.Session.{NodeInfo}
use radio_sensors.Registry.{
  NodeRecord, NodeRegistry, new_registry, reserve, confirm, disable, remove,
}
use radio_sensors.Registry.Updates.{rename, set_power_policy, update_info, restore}
use radio_sensors.Registry.Invariant.{IsRegistry, new_registry-IsRegistry}
use radio_sensors.Registry.Invariant.Reserve.{IsAdmissible, reserve-IsRegistry}
use radio_sensors.Registry.Invariant.Restore.{restore-IsRegistry, restore_null-IsRegistry}
use radio_sensors.Registry.Invariant.Changes.{
  confirm-IsRegistry, disable-IsRegistry, remove-IsRegistry, rename-IsRegistry,
  rename_null-IsRegistry, set_power_policy-IsRegistry, update_info-IsRegistry,
}

pub data Operation : Type 0 where
  reserves : JoinRequest → Operation
  confirms : Option DeviceUid → ℕ → ℕ → Operation
  disables removes : ℕ → Operation
  renames : ℕ → Option (List ℕ) → ℕ → Operation
  sets_power_policy : ℕ → ℕ → Operation
  updates_info : ℕ → Option DeviceUid → NodeInfo → Operation
  restores : Option (List NodeRecord) → ℕ → Operation

unfoldable pub apply : NodeRegistry → Operation → NodeRegistry
apply r (reserves q) = (reserve r q).0
apply r (confirms uid id nonce) = (confirm r uid id nonce).0
apply r (disables id) = (disable r id).0
apply r (removes id) = (remove r id).0
apply r (renames id bytes size) = (rename r id bytes size).0
apply r (sets_power_policy id policy) = (set_power_policy r id policy).0
apply r (updates_info id uid info) = (update_info r id uid info).0
apply r (restores records count) = (restore r records count).0

-- What the callers guarantee: requests and identities that came through their decoders, so that the
-- profile is not 0 and the power level is in range, and sizes that do not pass the bytes behind a
-- pointer that is not null. A restored list is arbitrary.
abbrev pub IsGuarded : Operation → Type 0
IsGuarded (reserves q) = IsAdmissible q
IsGuarded (renames id (some bytes) size) = size ≤ length bytes
IsGuarded (updates_info id uid info) =
    (info.profile_id ≢ 0) × (info.max_power_level ≤ max_radio_power_level)
IsGuarded (restores (some records) count) = count ≤ length records
IsGuarded _ = Unit {0}

apply-IsRegistry :
    (r : NodeRegistry) (o : Operation) → IsGuarded o → IsRegistry r → IsRegistry (apply r o)
unfolding apply
apply-IsRegistry r (reserves q) g v = reserve-IsRegistry r q g v
apply-IsRegistry r (confirms uid id nonce) g v = confirm-IsRegistry r uid id nonce v
apply-IsRegistry r (disables id) g v = disable-IsRegistry r id v
apply-IsRegistry r (removes id) g v = remove-IsRegistry r id v
apply-IsRegistry r (renames id none size) g v = rename_null-IsRegistry r id size v
apply-IsRegistry r (renames id (some bytes) size) g v = rename-IsRegistry r id bytes size g v
apply-IsRegistry r (sets_power_policy id policy) g v = set_power_policy-IsRegistry r id policy v
apply-IsRegistry r (updates_info id uid info) g v = update_info-IsRegistry r id uid info g.0 g.1 v
apply-IsRegistry r (restores none count) g v = restore_null-IsRegistry r count v
apply-IsRegistry r (restores (some records) count) g v = restore-IsRegistry r records count g v

unfoldable pub run : NodeRegistry → List Operation → NodeRegistry
run r [] = r
run r (o ∷ os) = run (apply r o) os

run_from-IsRegistry :
    (r : NodeRegistry) (os : List Operation)
    → All IsGuarded os
    → IsRegistry r
    → IsRegistry (run r os)
unfolding run
run_from-IsRegistry r [] g v = v
run_from-IsRegistry r (o ∷ os) g v =
    run_from-IsRegistry (apply r o) os g.1 (apply-IsRegistry r o g.0 v)

-- After any sequence of operations on a new registry, where the requests of reserve and the
-- identities of updateInfo have a profile that is not 0 and a power level of 31 at most, and the sizes
-- given to rename and restore do not pass what stands behind a pointer that is not null: the array is
-- full, its unused slots are blank, every record is one that `restore` accepts, and no two nodes
-- share an ID or a UID.
pub run-IsRegistry : (os : List Operation) → All IsGuarded os → IsRegistry (run new_registry os)
run-IsRegistry os g = run_from-IsRegistry new_registry os g new_registry-IsRegistry
