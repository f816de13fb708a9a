-- ===== src/Examples/Node.antt =====
-- The users, the reports and the node's decisions at concrete inputs.
use radio_sensors.Prelude.{
  Option, ℕ, ◌≡◌, refl, inl, true, false, List, [], ◌∷◌, some, none, arith, zeros,
}
use radio_sensors.Prelude.Int.{negsuc, to_u8}
use radio_sensors.Prelude.Result.{ok, ◌>>=◌}
use radio_sensors.Wire.Telemetry.{
  TelemetryPrefix, TelemetryAck, decode_telemetry, encode_telemetry_ack, decode_telemetry_ack,
  valid_temperature, valid_humidity, valid_pressure,
}
use radio_sensors.Wire.Telemetry.RoundTrip.{
  Reading, IsPrefix, encode_reading, frame_size, view_of, received, decode-encode_telemetry,
  decode-encode_telemetry_ack,
}
use radio_sensors.Gateway.Users.{
  UserTable, PasswordCredential, no_user, create, valid_username, valid_characters,
  valid_credential, username_exists, has_enabled_admin,
}
use radio_sensors.Gateway.Users.Accounts.{IsTable}
use radio_sensors.Gateway.Users.Accounts.History.{
  UserOperation, apply_user, run_users, run_users-IsTable, run_users_admin,
}
use radio_sensors.Schedule.{interval_elapsed}
use radio_sensors.Node.Contact.{filter_update, new_filter, change_to}
use radio_sensors.Node.Contact.Held.{run_filter, IsHeldSince, filter_update_held}
use radio_sensors.Wire.{decode_frame}
use radio_sensors.Wire.Commissioning.{
  encode_join_confirm, decode_join_complete, decode_join_confirm,
}
use radio_sensors.Registry.{same_uid}
use radio_sensors.Eeprom.{new_store}
use radio_sensors.Node.Commissioning.{
  NodeRadio, eeprom_configs, Build, Node, no_config, is_active, advance, confirm_join, try_confirm,
}
use radio_sensors.Node.Commissioning.Confirmed.{WasCompleted}
use radio_sensors.Node.Commissioning.Joined.{advance_completed}
use radio_sensors.Examples.Eeprom.{ram, erased}
use radio_sensors.Node.PowerState.{PowerDecision}
use radio_sensors.Node.PowerState.Ceiling.{Outcome, IsCapped, decisions, decisions-IsCapped}

abbrev prefix : TelemetryPrefix
prefix = record { supply_millivolts = 2950; radio_state = 12; downlink_rssi = negsuc 70 }

prefix-IsPrefix : IsPrefix prefix
unfolding to_u8
prefix-IsPrefix = record { unreserved = refl; supply_u16 = omega arith; rssi_i8 = refl }

abbrev outdoor : Reading
outdoor = Reading.climate_thp (negsuc 512) 7350 10132

outdoor_valid :
    (valid_temperature (negsuc 512) ≡ true)
    × (valid_humidity 7350 ≡ true)
    × (valid_pressure 10132 ≡ true)
unfolding valid_temperature valid_humidity valid_pressure
outdoor_valid = (refl, refl, refl)

decode-encode_telemetry_example :
    (encode_reading prefix outdoor (some []) 11 >>= λ written.
    decode_telemetry (some written) (frame_size outdoor))
    ≡ ok (view_of prefix outdoor [])
decode-encode_telemetry_example =
    decode-encode_telemetry prefix outdoor [] 11 prefix-IsPrefix outdoor_valid (omega arith)

abbrev target_out_of_range : TelemetryAck
target_out_of_range = record { command_pending = true; has_power_target = true; power_target = 40 }

decode-encode_telemetry_ack_example :
    (let sent = encode_telemetry_ack target_out_of_range (some []) 2 in
      decode_telemetry_ack sent.0 sent.1)
    ≡ received target_out_of_range
decode-encode_telemetry_ack_example =
    decode-encode_telemetry_ack target_out_of_range [] 2 (omega arith)

abbrev no_accounts : UserTable
no_accounts = record {
  next_user_id = 1;
  users = [];
  spare = no_user ∷ no_user ∷ no_user ∷ no_user ∷ [];
}

no_accounts-IsTable : IsTable no_accounts
no_accounts-IsTable = record {
  sized = refl;
  below_next = tt;
  numbered = tt;
  distinct = tt;
  next_u32 = omega arith;
  has_admin = inl refl;
}

abbrev password : PasswordCredential
password = record {
  algorithm = 1;
  iterations = 10000;
  salt = (1, zeros 15);
  hash_bytes = (2, zeros 31);
}

-- "ab" becomes an administrator, "cd" a viewer, and the administrator can neither be changed to a
-- viewer nor removed.
abbrev account_history : List UserOperation
account_history =
    UserOperation.creates (some (97 ∷ 98 ∷ [])) 2 1 true password
    ∷ UserOperation.creates (some (99 ∷ 100 ∷ [])) 2 2 true password
    ∷ UserOperation.updates 1 (some (97 ∷ 98 ∷ [])) 2 2 true none
    ∷ UserOperation.removes 1
    ∷ []

run_users-IsTable_example : IsTable (run_users no_accounts account_history)
run_users-IsTable_example = run_users-IsTable no_accounts account_history no_accounts-IsTable

-- A reed that closes at 100 ms and is still closed at 150 ms.
reported :
    (filter_update (run_filter (new_filter 40 false) ((100, true) ∷ (50, false) ∷ [])) 150 true).1
    ≡ change_to true
unfolding filter_update run_filter new_filter
reported = refl

filter_update_held_example :
    (since : ℕ) × IsHeldSince true since ((100, true) ∷ (50, false) ∷ [])
    × (interval_elapsed 150 since 40 ≡ true)
filter_update_held_example =
    filter_update_held 40 150 false true ((100, true) ∷ (50, false) ∷ []) reported

abbrev starting : PowerDecision
starting = record { change = false; level = 10; fallback = false }

abbrev outcomes : List Outcome
outcomes =
    Outcome.acknowledged true 31 ∷ Outcome.unacknowledged 3 ∷ Outcome.acknowledged true 4 ∷ []

starting-IsCapped : IsCapped 20 starting
starting-IsCapped = (omega arith, λ e. absurd (ground (arith, e)))

decisions-IsCapped_example : IsCapped 20 (decisions 20 starting outcomes)
decisions-IsCapped_example = decisions-IsCapped 20 starting outcomes starting-IsCapped

abbrev one_admin : UserTable
one_admin =
    run_users no_accounts (UserOperation.creates (some (97 ∷ 98 ∷ [])) 2 1 true password ∷ [])

one_admin_found : has_enabled_admin one_admin.users ≡ true
unfolding run_users apply_user create valid_username valid_characters valid_credential
    username_exists has_enabled_admin
one_admin_found = refl

run_users_admin_test : has_enabled_admin (run_users one_admin account_history).users ≡ true
run_users_admin_test = run_users_admin one_admin account_history one_admin_found

abbrev rest_of : List (List ℕ) → List (List ℕ)
rest_of [] = []
rest_of (f ∷ fs) = fs

abbrev first_of : List (List ℕ) → Option (List ℕ)
first_of [] = none
first_of (f ∷ fs) = some f

-- A call of the radio, as it stands in the log of the radio below.
data RadioCall : Type 0 where
  profile_changed checked slept : RadioCall
  sent_to heard_from : ℕ → RadioCall

-- A radio that gives the frames of a list, one for each call, and logs its calls, the latest first.
abbrev script : NodeRadio
script = record {
  State = List (List ℕ) × List RadioCall;
  use_commissioning_profile = λ s key. (s.0, profile_changed ∷ s.1);
  use_operational_profile = λ s config. (s.0, profile_changed ∷ s.1);
  ensure_configured = λ s. ((s.0, checked ∷ s.1), true);
  send = λ s to frame. (s.0, sent_to to ∷ s.1);
  receive = λ s window from size. ((rest_of s.0, heard_from from ∷ s.1), first_of s.0);
  sleep = λ s. (s.0, slept ∷ s.1);
}

abbrev build : Build
build = record {
  gateway_id = 100;
  max_power_level = 23;
  firmware = record { major = 1; minor = 1; patch = 0 };
}

-- A node that has joined as node 5, with nonce 77, and whose completion comes at the second attempt.
abbrev completion_frame : List ℕ
completion_frame = 71 ∷ 9 ∷ 0 ∷ 0 ∷ 0 ∷ 0 ∷ 0 ∷ 0 ∷ 0 ∷ 0 ∷ 0 ∷ 77 ∷ 0 ∷ 0 ∷ 0 ∷ []

abbrev joining : Node script (eeprom_configs ram)
joining = record {
  radio = ([] ∷ completion_frame ∷ [], []);
  store = record { cells = erased; members = new_store };
  config = record no_config { node_id = 5; gateway_id = 100; network_id = 7; request_nonce = 77 };
  device_uid = (9, zeros 9);
  profile_id = 6;
  factory_key = zeros 16;
  has_credentials = true;
}

became_active : is_active (advance script (eeprom_configs ram) build joining 1).0.config ≡ true
unfolding advance confirm_join try_confirm encode_join_confirm decode_join_complete
    decode_join_confirm decode_frame same_uid
became_active = refl

advance_completed_example :
    WasCompleted script
      (eeprom_configs ram)
      build
      joining.radio
      joining.device_uid
      (advance script (eeprom_configs ram) build joining 1).0.config
      (advance script (eeprom_configs ram) build joining 1).0.radio
advance_completed_example =
    advance_completed script (eeprom_configs ram) build joining 1 refl became_active
