-- ===== src/Examples/Eeprom.antt =====
-- The EEPROM stores at concrete inputs, on a storage of 2^32 cells that start erased.
use radio_sensors.Prelude.{
  true, ltb, inl, ℕ, ◌%◌, ◌≡◌, refl, [], ◌∷◌, none, some, arith, take, if◌then◌else◌, ◌==◌, zeros,
  and_then,
}
use radio_sensors.Eeprom.{
  Storage, Saved, new_store, perform, holding, next_slot, next_generation, choose_slot, commit,
  writes_from, crc16_ccitt, crc_from,
}
use radio_sensors.Eeprom.Config.{
  NetworkConfig, IsConfig, ProvisioningState, load_config, save_config, save_from, config_writes,
  sealed_config, factory_reset, decode_network_config, encode_network_config,
  encode_factory_credentials, decode_factory_credentials, combined,
}
use radio_sensors.Eeprom.Config.RoundTrip.{
  decode-encode_network_config, decode-encode_factory_credentials,
}
use radio_sensors.Eeprom.SetCount.{
  SetCountResult, SetCountStatus, IsResult, load_set_count, save_set_count, save_set_count_from,
  set_count_writes, sealed_set_count, encode_set_count_result, decode_set_count_result,
}
use radio_sensors.Eeprom.SetCount.Save.{
  decode-encode_set_count_result, save_set_count_complete, save_set_count-interrupted,
}
use radio_sensors.Eeprom.Counter.{
  CounterState, record_at, load_counter, save_counter, counter_writes,
}
use radio_sensors.Eeprom.Counter.Ring.{Ring}
use radio_sensors.Eeprom.Counter.Interrupted.{save_counter-Ring, save_counter-interrupted}
use radio_sensors.Eeprom.Config.Save.{
  save_config_complete, save_config-interrupted, load_config-factory_reset,
}

abbrev pub ram : Storage
ram = record {
  State = ℕ → ℕ;
  read = λ s a. s a % 256;
  update = λ s a v b. if b == a then v else s b;
  read_byte = λ s a. omega arith;
  read-update = λ s a v h. ground arith;
  read-update_other = λ s a v b h. ground arith;
}

abbrev pub erased : ℕ → ℕ
erased address = 255

abbrev config : NetworkConfig
config = record {
  generation = 0;
  state = ProvisioningState.active;
  node_id = 7;
  gateway_id = 1;
  network_id = 33;
  installation_key = (9, zeros 15);
  request_nonce = 0x12345678;
}

config-IsConfig : IsConfig config
config-IsConfig = record {
  bytes = ground arith;
  node_id = ground arith;
  gateway_id = ground arith;
  ids_differ = ground arith;
  key = ground arith;
  nonce_u32 = omega arith;
}

abbrev saved_config : Saved NetworkConfig
saved_config = record {
  writes = config_writes 0 (sealed_config config);
  state = holding 0 0;
  value = config;
}

-- The checksum's published check value, of the digits from 1 to 9.
crc16_check : crc16_ccitt (49 ∷ 50 ∷ 51 ∷ 52 ∷ 53 ∷ 54 ∷ 55 ∷ 56 ∷ 57 ∷ []) ≡ 0x29b1
unfolding crc16_ccitt crc_from
crc16_check = refl

decode-encode_network_config_test :
    and_then
      (encode_network_config config (some []) 32)
      (λ written. decode_network_config (some written) 32)
    ≡ some config
decode-encode_network_config_test =
    decode-encode_network_config config [] 32 config-IsConfig (omega arith)

save_config_complete_example :
    (saved : Saved NetworkConfig) × (save_config ram new_store erased config ≡ some saved)
    × (saved.value ≡ record config { generation = 0 })
    × (load_config ram (perform ram saved.writes erased) ≡ (saved.state, some saved.value))
unfolding load_config next_generation choose_slot decode_network_config
save_config_complete_example =
    save_config_complete ram new_store erased config config-IsConfig (λ e. ground arith)

save_config-interrupted_example :
    (load_config ram (perform ram (take 20 saved_config.writes) erased)).1
    ≡ (load_config ram erased).1
unfolding save_config save_from load_config encode_network_config next_slot next_generation
    choose_slot decode_network_config config_writes commit writes_from
save_config-interrupted_example =
    save_config-interrupted ram new_store erased config saved_config 20 config-IsConfig
      (λ e. ground arith) refl (omega arith)

load_config-factory_reset_test :
    load_config ram (factory_reset ram erased).0 ≡ ((factory_reset ram erased).1, none)
load_config-factory_reset_test = load_config-factory_reset ram erased

decode-encode_factory_credentials_test :
    and_then
      (encode_factory_credentials (9, zeros 15) (some []) 32)
      (λ written. decode_factory_credentials (some written) 32)
    ≡ some (9, zeros 15)
unfolding combined
decode-encode_factory_credentials_test =
    decode-encode_factory_credentials (9, zeros 15) [] 32 (λ e. ground arith) (omega arith)

abbrev pub first_result : SetCountResult
first_result = record {
  generation = 0;
  status = SetCountStatus.pending;
  command_id = 513;
  old_count = 70000;
  applied_count = 0x89abcdef;
}

first_result-IsResult : IsResult first_result
first_result-IsResult = record {
  byte = omega arith;
  id_u16 = omega arith;
  counts_u32 = (omega arith, omega arith);
}

abbrev saved_result : Saved SetCountResult
saved_result = record {
  writes = set_count_writes 64 (sealed_set_count first_result);
  state = holding 0 0;
  value = first_result;
}

decode-encode_set_count_result_test :
    and_then
      (encode_set_count_result first_result (some []) 20)
      (λ written. decode_set_count_result (some written) 16)
    ≡ some first_result
decode-encode_set_count_result_test =
    decode-encode_set_count_result first_result [] 20 first_result-IsResult (omega arith)

save_set_count_complete_test :
    (saved : Saved SetCountResult) × (save_set_count ram new_store erased first_result ≡ some saved)
    × (saved.value ≡ record first_result { generation = 0 })
    × (load_set_count ram (perform ram saved.writes erased) ≡ (saved.state, some saved.value))
unfolding load_set_count next_generation choose_slot decode_set_count_result
save_set_count_complete_test =
    save_set_count_complete ram new_store erased first_result first_result-IsResult
      (λ e. ground arith)

save_set_count-interrupted_test :
    (load_set_count ram (perform ram (take 9 saved_result.writes) erased)).1
    ≡ (load_set_count ram erased).1
unfolding save_set_count save_set_count_from load_set_count encode_set_count_result next_slot
    next_generation choose_slot decode_set_count_result set_count_writes commit writes_from
save_set_count-interrupted_test =
    save_set_count-interrupted ram new_store erased first_result saved_result 9
      first_result-IsResult (λ e. ground arith) refl (omega arith)

-- A ring whose first record alone is written, with the count 0.
abbrev ring_cells : ℕ → ℕ
ring_cells address = if ltb address 96 then 255 else if ltb address 101 then 0 else 255

abbrev ring_state : CounterState
ring_state = record {
  initialized = true;
  has_value = true;
  current_slot = 0;
  current_sequence = 0;
  current_count = 0;
}

ring_cells-Ring : Ring ram ring_cells ring_state
unfolding record_at
ring_cells-Ring = record {
  live = (refl, refl);
  slot_lt = omega arith;
  sequence_lt = omega arith;
  current = (refl, refl);
  others = λ j l d. inl (ground arith);
}

save_counter-Ring_example :
    Ring ram
      (perform ram (save_counter ram ring_state ring_cells 70000).0 ring_cells)
      (save_counter ram ring_state ring_cells 70000).1
    × (load_counter ram (perform ram (save_counter ram ring_state ring_cells 70000).0 ring_cells)
        ≡ (save_counter ram ring_state ring_cells 70000).1)
    × ((save_counter ram ring_state ring_cells 70000).1.current_count ≡ 70000)
save_counter-Ring_example =
    save_counter-Ring ram ring_cells ring_state 70000 ring_cells-Ring (omega arith)

save_counter-interrupted_example :
    load_counter ram
      (perform ram (take 4 (save_counter ram ring_state ring_cells 70000).0) ring_cells)
    ≡ ring_state
unfolding save_counter counter_writes writes_from
save_counter-interrupted_example =
    save_counter-interrupted ram ring_cells ring_state 70000 4 ring_cells-Ring (omega arith)
