-- ===== src/Wire/Telemetry.antt =====
-- shared/RadioProtocol/include/TelemetryFrames.h: the reports of the nodes, and the acknowledgement
-- that answers one. An int16_t or int8_t is a ℤ, written as the word that the cast gives.
pub mod RoundTrip
use radio_sensors.Prelude.{
  ℕ, ◌+◌, ◌-◌, ◌%◌, bit_and, bit_or, Bool, true, false, not, ◌&&◌, ◌||◌, List, [], ◌∷◌, ◌++◌,
  Option, none, some, take, drop, ltb, leb, ◌==◌, if◌then◌else◌, byte_at,
}
use radio_sensors.Prelude.Int.{ℤ, pos, negsuc, ltb_ℤ, to_u8}
use radio_sensors.Prelude.Result.{Result, ok, ◌>>=◌, ◌>>◌, check, non_null}
use radio_sensors.Power.{max_radio_power_level}
use radio_sensors.Wire.{FrameKind, encode_header, store, write_u16_le, write_u32_le, read_u16_le}

-- INT16_MIN, UINT16_MAX and INT8_MIN
abbrev pub invalid_temperature_value : ℤ
invalid_temperature_value = negsuc 32767

abbrev pub invalid_humidity_value : ℕ
invalid_humidity_value = 65535

abbrev pub invalid_pressure_value : ℕ
invalid_pressure_value = 65535

abbrev pub no_downlink_rssi : ℤ
no_downlink_rssi = negsuc 127

abbrev pub minimum_temperature_centi_degrees : ℤ
minimum_temperature_centi_degrees = negsuc 7999

abbrev pub maximum_temperature_centi_degrees : ℤ
maximum_temperature_centi_degrees = pos 12500

abbrev pub maximum_humidity_centi_percent : ℕ
maximum_humidity_centi_percent = 10000

abbrev pub minimum_pressure_deci_hectopascals : ℕ
minimum_pressure_deci_hectopascals = 3000

abbrev pub maximum_pressure_deci_hectopascals : ℕ
maximum_pressure_deci_hectopascals = 11000

abbrev pub radio_power_level_mask : ℕ
radio_power_level_mask = 0x1f

abbrev pub radio_fallback : ℕ
radio_fallback = 0x20

abbrev pub radio_state_reserved_mask : ℕ
radio_state_reserved_mask = 0xc0

abbrev pub telemetry_prefix_size : ℕ
telemetry_prefix_size = 5

abbrev pub voltage_telemetry_size : ℕ
voltage_telemetry_size = 5

abbrev pub temperature_telemetry_size : ℕ
temperature_telemetry_size = 7

abbrev pub climate_th_telemetry_size : ℕ
climate_th_telemetry_size = 9

abbrev pub climate_thp_telemetry_size : ℕ
climate_thp_telemetry_size = 11

abbrev pub binary_telemetry_size : ℕ
binary_telemetry_size = 6

abbrev pub counter_telemetry_size : ℕ
counter_telemetry_size = 9

abbrev pub binary_climate_th_telemetry_size : ℕ
binary_climate_th_telemetry_size = 10

abbrev pub binary_temperature_telemetry_size : ℕ
binary_temperature_telemetry_size = 8

abbrev pub telemetry_ack_command_pending : ℕ
telemetry_ack_command_pending = 1

abbrev pub telemetry_ack_power_target : ℕ
telemetry_ack_power_target = 2

pub data TelemetryError : Type 0 where
  output_too_small wrong_length wrong_header invalid_radio_state : TelemetryError
  invalid_state invalid_temperature invalid_humidity invalid_pressure : TelemetryError

pub record TelemetryPrefix : Type 0 where
  pub supply_millivolts : ℕ
  pub radio_state : ℕ
  pub downlink_rssi : ℤ

pub record TelemetryView : Type 0 where
  pub supply_millivolts : ℕ
  pub radio_state : ℕ
  pub downlink_rssi : ℤ
  pub profile_payload : List ℕ
  pub profile_payload_size : ℕ

pub record TelemetryAck : Type 0 where
  pub command_pending : Bool
  pub has_power_target : Bool
  pub power_target : ℕ

unfoldable pub encode_radio_state : ℕ → Bool → ℕ
encode_radio_state power_level fallback =
    bit_or (bit_and power_level radio_power_level_mask) (if fallback then radio_fallback else 0)
    % 256

unfoldable pub radio_power_level : ℕ → ℕ
radio_power_level radio_state = bit_and radio_state radio_power_level_mask

unfoldable pub downlink_rssi_value : ℤ → ℤ
downlink_rssi_value rssi =
    if ltb_ℤ rssi (negsuc 126) then negsuc 126 else if ltb_ℤ (pos 0) rssi then pos 0 else rssi

-- static_cast<uint16_t> and static_cast<int8_t>
abbrev pub to_u16 : ℤ → ℕ
to_u16 (pos n) = n % 65536
to_u16 (negsuc n) = 65535 - n % 65536

abbrev pub of_u8 : ℕ → ℤ
of_u8 b = if ltb b 128 then pos b else negsuc (255 - b)

unfoldable pub valid_temperature : ℤ → Bool
valid_temperature value =
    to_u16 value == 32768
    || (not (ltb_ℤ value minimum_temperature_centi_degrees)
        && not (ltb_ℤ maximum_temperature_centi_degrees value))

unfoldable pub valid_humidity : ℕ → Bool
valid_humidity value = value == invalid_humidity_value || leb value maximum_humidity_centi_percent

unfoldable pub valid_pressure : ℕ → Bool
valid_pressure value =
    value == invalid_pressure_value
    || (leb minimum_pressure_deci_hectopascals value
        && leb value maximum_pressure_deci_hectopascals)

-- A write behind the first `i` bytes of the output.
abbrev pub store_at : ℕ → List ℕ → List ℕ → List ℕ
store_at i bytes buffer = take i buffer ++ store bytes (drop i buffer)

unfoldable pub begin_telemetry :
    TelemetryPrefix → Option (List ℕ) → ℕ → ℕ → Result TelemetryError (List ℕ)
begin_telemetry prefix output capacity required = do
  check (bit_and prefix.radio_state radio_state_reserved_mask == 0) invalid_radio_state
  buffer ← non_null output output_too_small
  check (leb required capacity) output_too_small
  ok (
      store
        (encode_header FrameKind.telemetry
          ∷ prefix.radio_state
          ∷ to_u8 prefix.downlink_rssi
          ∷ write_u16_le prefix.supply_millivolts)
        buffer)

unfoldable pub decode_telemetry : Option (List ℕ) → ℕ → Result TelemetryError TelemetryView
decode_telemetry input size = do
  bytes ← non_null input wrong_length
  check (leb telemetry_prefix_size size) wrong_length
  check (byte_at bytes 0 == encode_header FrameKind.telemetry) wrong_header
  check (bit_and (byte_at bytes 1) radio_state_reserved_mask == 0) invalid_radio_state
  ok (record {
    supply_millivolts = read_u16_le bytes 3;
    radio_state = byte_at bytes 1;
    downlink_rssi = of_u8 (byte_at bytes 2);
    profile_payload = drop telemetry_prefix_size bytes;
    profile_payload_size = size - telemetry_prefix_size;
  })

unfoldable pub encode_voltage_telemetry :
    TelemetryPrefix → Option (List ℕ) → ℕ → Result TelemetryError (List ℕ)
unfolding begin_telemetry
encode_voltage_telemetry prefix output capacity =
    begin_telemetry prefix output capacity voltage_telemetry_size

unfoldable pub encode_temperature_telemetry :
    TelemetryPrefix → ℤ → Option (List ℕ) → ℕ → Result TelemetryError (List ℕ)
unfolding begin_telemetry valid_temperature
encode_temperature_telemetry prefix temperature output capacity = do
  check (valid_temperature temperature) invalid_temperature
  written ← begin_telemetry prefix output capacity temperature_telemetry_size
  ok (store_at 5 (write_u16_le (to_u16 temperature)) written)

unfoldable pub encode_climate_th_telemetry :
    TelemetryPrefix → ℤ → ℕ → Option (List ℕ) → ℕ → Result TelemetryError (List ℕ)
unfolding begin_telemetry valid_temperature valid_humidity
encode_climate_th_telemetry prefix temperature humidity output capacity = do
  check (valid_temperature temperature) invalid_temperature
  check (valid_humidity humidity) invalid_humidity
  written ← begin_telemetry prefix output capacity climate_th_telemetry_size
  ok (store_at 7 (write_u16_le humidity) (store_at 5 (write_u16_le (to_u16 temperature)) written))

unfoldable pub encode_climate_thp_telemetry :
    TelemetryPrefix → ℤ → ℕ → ℕ → Option (List ℕ) → ℕ → Result TelemetryError (List ℕ)
unfolding begin_telemetry valid_temperature valid_humidity valid_pressure
encode_climate_thp_telemetry prefix temperature humidity pressure output capacity = do
  check (valid_temperature temperature) invalid_temperature
  check (valid_humidity humidity) invalid_humidity
  check (valid_pressure pressure) invalid_pressure
  written ← begin_telemetry prefix output capacity climate_thp_telemetry_size
  ok (
      store_at 9 (write_u16_le pressure) (
        store_at 7 (write_u16_le humidity)
          (store_at 5 (write_u16_le (to_u16 temperature)) written)))

unfoldable pub encode_binary_telemetry :
    TelemetryPrefix → ℕ → Option (List ℕ) → ℕ → Result TelemetryError (List ℕ)
unfolding begin_telemetry
encode_binary_telemetry prefix state output capacity = do
  check (leb state 1) invalid_state
  written ← begin_telemetry prefix output capacity binary_telemetry_size
  ok (store_at 5 (state ∷ []) written)

unfoldable pub encode_counter_telemetry :
    TelemetryPrefix → ℕ → Option (List ℕ) → ℕ → Result TelemetryError (List ℕ)
unfolding begin_telemetry
encode_counter_telemetry prefix count output capacity = do
  written ← begin_telemetry prefix output capacity counter_telemetry_size
  ok (store_at 5 (write_u32_le count) written)

unfoldable pub encode_binary_climate_th_telemetry :
    TelemetryPrefix → ℕ → ℤ → ℕ → Option (List ℕ) → ℕ → Result TelemetryError (List ℕ)
unfolding begin_telemetry valid_temperature valid_humidity
encode_binary_climate_th_telemetry prefix state temperature humidity output capacity = do
  check (leb state 1) invalid_state
  check (valid_temperature temperature) invalid_temperature
  check (valid_humidity humidity) invalid_humidity
  written ← begin_telemetry prefix output capacity binary_climate_th_telemetry_size
  ok (
      store_at 8 (write_u16_le humidity)
        (store_at 6 (write_u16_le (to_u16 temperature)) (store_at 5 (state ∷ []) written)))

unfoldable pub encode_binary_temperature_telemetry :
    TelemetryPrefix → ℕ → ℤ → Option (List ℕ) → ℕ → Result TelemetryError (List ℕ)
unfolding begin_telemetry valid_temperature
encode_binary_temperature_telemetry prefix state temperature output capacity = do
  check (leb state 1) invalid_state
  check (valid_temperature temperature) invalid_temperature
  written ← begin_telemetry prefix output capacity binary_temperature_telemetry_size
  ok (store_at 6 (write_u16_le (to_u16 temperature)) (store_at 5 (state ∷ []) written))

-- The output after the call, and the size that it returns.
unfoldable pub encode_telemetry_ack : TelemetryAck → Option (List ℕ) → ℕ → Option (List ℕ) × ℕ
encode_telemetry_ack ack none capacity = (none, 0)
encode_telemetry_ack ack (some buffer) capacity =
    let target = ack.has_power_target && leb ack.power_target max_radio_power_level in
    let flags =
      bit_or (if ack.command_pending then telemetry_ack_command_pending else 0)
        (if target then telemetry_ack_power_target else 0) in
    let size = if flags == 0 then 0 else if target then 2 else 1 in
    if size == 0 || ltb capacity size
    then (some buffer, 0)
    else (some (store (flags ∷ (if target then ack.power_target ∷ [] else [])) buffer), size)

unfoldable pub decode_telemetry_ack : Option (List ℕ) → ℕ → TelemetryAck
decode_telemetry_ack none size = record {
  command_pending = false;
  has_power_target = false;
  power_target = 0;
}
decode_telemetry_ack (some bytes) size =
    if size == 0
    then record { command_pending = false; has_power_target = false; power_target = 0 }
    else let pending = not (bit_and (byte_at bytes 0) telemetry_ack_command_pending == 0) in
      if not (bit_and (byte_at bytes 0) telemetry_ack_power_target == 0)
        && leb 2 size
        && leb (byte_at bytes 1) max_radio_power_level
      then record {
        command_pending = pending;
        has_power_target = true;
        power_target = byte_at bytes 1;
      }
      else record { command_pending = pending; has_power_target = false; power_target = 0 }
