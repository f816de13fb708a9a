-- ===== src/Node/Commissioning.antt =====
-- node/lib/NodeCore/src/CommissioningService.cpp: how a node joins. The radio driver and the clock
-- are parameters; the store of the configuration is an interface, which NetworkConfigStore fills; the
-- build's constants are fields of a record.
mod Drivers
pub mod Confirmed
pub mod Joined
use radio_sensors.Prelude.{
  ℕ, zero, suc, ◌+◌, ◌*◌, ◌/◌, ◌%◌, ◌^◌, bit_xor, Bool, true, false, not, ◌&&◌, List, [], ◌∷◌,
  Option, none, some, ◌==◌, if◌then◌else◌, Bytes, to_list, zeros,
}
use radio_sensors.Prelude.Result.{Result, ok, err}
use radio_sensors.Wire.JoinRequest.{
  device_uid_size, DeviceUid, FirmwareVersion, JoinRequest, encode_join_request, join_request_size,
}
use radio_sensors.Wire.Commissioning.{
  JoinAccept, JoinConfirm, JoinComplete, decode_join_accept, encode_join_confirm,
  decode_join_complete, join_accept_size, join_confirm_size, join_complete_size,
}
use radio_sensors.Registry.{same_uid}
use radio_sensors.Eeprom.Config.{NetworkConfig, ProvisioningState}
pub use Drivers.{NodeRadio, ConfigStore, EepromConfigs, eeprom_configs, Build}

abbrev pub accept_window_ms : ℕ
accept_window_ms = 2500

abbrev pub complete_window_ms : ℕ
complete_window_ms = 1000

abbrev pub confirm_attempts : ℕ
confirm_attempts = 3

abbrev pub is_active_state : ProvisioningState → Bool
is_active_state ProvisioningState.active = true
is_active_state _ = false

-- `active` and `provisional`, of the configuration.
abbrev pub is_active : NetworkConfig → Bool
is_active c = is_active_state c.state && not (c.node_id == 0)

abbrev pub is_provisional : NetworkConfig → Bool
is_provisional c = not (is_active c) && not (c.node_id == 0)

-- The loop of `createNonce` over the UID.
unfoldable pub mixed : ℕ → List ℕ → ℕ
mixed value [] = value
mixed value (b ∷ bs) = mixed (bit_xor value b * 16777619 % 2 ^ 32) bs

-- createNonce, at a reading of the clock.
unfoldable pub create_nonce : ℕ → DeviceUid → ℕ
unfolding mixed
create_nonce micros uid =
    let value = mixed (bit_xor micros 0xa5c31f27) (to_list device_uid_size uid) in
    let left = bit_xor value (value * 2 ^ 13 % 2 ^ 32) in
    let right = bit_xor left (left / 2 ^ 17) in bit_xor right (right * 2 ^ 5 % 2 ^ 32)

-- `NetworkConfig{}`
abbrev pub no_config : NetworkConfig
no_config = record {
  generation = 0;
  state = ProvisioningState.provisional;
  node_id = 0;
  gateway_id = 0;
  network_id = 0;
  installation_key = zeros 16;
  request_nonce = 0;
}

pub record Node (R : NodeRadio) (C : ConfigStore) : Type 0 where
  pub radio : R.State
  pub store : C.State
  pub config : NetworkConfig
  pub device_uid : DeviceUid
  pub profile_id : ℕ
  pub factory_key : Bytes 16
  pub has_credentials : Bool

-- The value of a status that is Ok, and what satisfies a test.
abbrev pub accepted : {E A : Type 0} → Result E A → (A → Bool) → Option A
accepted (ok a) p = if p a then some a else none
accepted (err e) p = none

module _ (R : NodeRadio) (C : ConfigStore) (build : Build) where
  abbrev pub asleep : Node R C → Node R C
  asleep n = record n { radio = R.sleep n.radio }

  -- What `confirmJoin` takes for the completion of its join.
  abbrev pub completion : Node R C → Option (List ℕ) → Option JoinComplete
  completion n none = none
  completion n (some bytes) =
      accepted (decode_join_complete (some bytes) join_complete_size)
        (λ c. same_uid c.device_uid n.device_uid && c.request_nonce == n.config.request_nonce)

  -- The node becomes active, and its configuration is saved.
  abbrev pub activated : Node R C → Node R C × Bool
  activated n =
      let config = record n.config { state = ProvisioningState.active } in
      let saved = C.save n.store config in
      (
        record n {
          config = record config { generation = saved.1 };
          store = saved.0;
          radio = R.sleep n.radio;
        },
        saved.2,
      )

  -- One round of the loop: the node behind the attempt, and the frame that it received.
  abbrev pub attempted : Node R C → List ℕ → Node R C × Option (List ℕ)
  attempted n frame =
      let received =
        R.receive (R.send n.radio n.config.gateway_id frame) complete_window_ms n.config.gateway_id
          join_complete_size in
      (record n { radio = received.0 }, received.1)

  unfoldable pub try_confirm : ℕ → Node R C → List ℕ → Node R C × Bool
  try_confirm zero n frame = (asleep n, false)
  try_confirm (suc left) n frame =
      let after = attempted n frame in
      let rest = try_confirm left after.0 frame in
      elim (completion after.0 after.1) [ none ↦ rest | some c ↦ activated after.0 ]

  unfoldable pub confirm_join : Node R C → Node R C × Bool
  unfolding try_confirm
  confirm_join n =
      let ready = record n { radio = R.use_operational_profile n.radio n.config } in
      let confirm : JoinConfirm = record {
        device_uid = n.device_uid;
        request_nonce = n.config.request_nonce;
      } in
      elim (encode_join_confirm confirm (some []) join_confirm_size) [
        | err e ↦ (asleep ready, false)
        | ok frame ↦ try_confirm confirm_attempts ready frame
      ]

  abbrev pub join_request : Node R C → ℕ → JoinRequest
  join_request n micros = record {
    device_uid = n.device_uid;
    profile_id = n.profile_id;
    firmware = build.firmware;
    request_nonce = create_nonce micros n.device_uid;
    max_power_level = build.max_power_level;
  }

  -- What `requestJoin` takes for the answer to its request.
  abbrev pub answer : Node R C → JoinRequest → Option (List ℕ) → Option JoinAccept
  answer n request none = none
  answer n request (some bytes) = accepted (decode_join_accept (some bytes) join_accept_size) (λ a.
      same_uid a.device_uid n.device_uid
      && a.request_nonce == request.request_nonce
      && a.gateway_node_id == build.gateway_id)

  abbrev pub joined_config : NetworkConfig → JoinAccept → NetworkConfig
  joined_config c a = record c {
    state = ProvisioningState.provisional;
    node_id = a.assigned_node_id;
    gateway_id = a.gateway_node_id;
    network_id = a.network_id;
    installation_key = a.installation_key;
    request_nonce = a.request_nonce;
  }

  -- The node with the configuration of an answer, which is saved.
  abbrev pub joined : Node R C → JoinAccept → Node R C × Bool
  joined n a =
      let saved = C.save n.store (joined_config n.config a) in
      (
        record n {
          config = record (joined_config n.config a) { generation = saved.1 };
          store = saved.0;
        },
        saved.2,
      )

  unfoldable pub request_join : Node R C → ℕ → Node R C × Bool
  unfolding create_nonce confirm_join
  request_join n micros =
      let ready = record n { radio = R.use_commissioning_profile n.radio n.factory_key } in
      let request = join_request n micros in
      elim (encode_join_request request (some []) join_request_size) [
        | err e ↦ (asleep ready, false)
        | ok frame ↦
            let received =
              R.receive (R.send ready.radio build.gateway_id frame) accept_window_ms
                build.gateway_id join_accept_size in
            let after = record n { radio = received.0 } in
            elim (answer after request received.1) [
              | none ↦ (asleep after, false)
              | some a ↦
                  let (next, saved) = joined after a in
                  if not saved
                  then (asleep next, false)
                  else confirm_join
                      (record next { radio = R.use_operational_profile next.radio next.config })
            ]
      ]

  unfoldable pub advance : Node R C → ℕ → Node R C × Bool
  unfolding confirm_join request_join
  advance n micros =
      if is_active n.config
      then (n, true)
      else let configured = R.ensure_configured n.radio in
        let ready = record n { radio = configured.0 } in
        if not configured.1
        then (ready, false)
        else if is_provisional n.config
        then confirm_join ready
        else request_join ready micros

  unfoldable pub reset_network : Node R C → Node R C × Bool
  reset_network n =
      if not n.has_credentials
      then (n, false)
      else (record n { store = C.factory_reset n.store; config = no_config }, true)
