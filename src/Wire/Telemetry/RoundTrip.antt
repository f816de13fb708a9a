-- ===== src/Wire/Telemetry/RoundTrip.antt =====
-- A report and an acknowledgement are read back as they were written.
use radio_sensors.Prelude.{
  ℕ, ◌+◌, ◌-◌, ◌%◌, ◌≤◌, ◌*◌, ◌/◌, ◌^◌, ◌≡◌, ◌≢◌, refl, Bool, true, false, ◌&&◌, List, [], ◌∷◌,
  ◌++◌, Option, some, drop, arith, leb, if◌then◌else◌, bit_and, IsU16,
}
use radio_sensors.Prelude.Bits.{eq_by_table, holds_below}
use radio_sensors.Prelude.Int.{ℤ, pos, negsuc, to_u8}
use radio_sensors.Prelude.Result.{Result, ok, ◌>>=◌}
use radio_sensors.Power.{max_radio_power_level}
use radio_sensors.Wire.{write_u16_le, write_u32_le}
use radio_sensors.Wire.Telemetry.{
  TelemetryError, TelemetryPrefix, TelemetryView, TelemetryAck, encode_radio_state,
  radio_power_level, downlink_rssi_value, to_u16, of_u8, valid_temperature, valid_humidity,
  valid_pressure, begin_telemetry, decode_telemetry, encode_voltage_telemetry,
  encode_temperature_telemetry, encode_climate_th_telemetry, encode_climate_thp_telemetry,
  encode_binary_telemetry, encode_counter_telemetry, encode_binary_climate_th_telemetry,
  encode_binary_temperature_telemetry, encode_telemetry_ack, decode_telemetry_ack, no_downlink_rssi,
  voltage_telemetry_size, temperature_telemetry_size, climate_th_telemetry_size,
  climate_thp_telemetry_size, binary_telemetry_size, counter_telemetry_size,
  binary_climate_th_telemetry_size, binary_temperature_telemetry_size,
}

-- The level and the fallback flag are told apart in the state byte, which has no reserved bit.
pub radio_power_level-encode_radio_state :
    (level : ℕ) (fallback : Bool)
    → level ≤ max_radio_power_level
    → (radio_power_level (encode_radio_state level fallback) ≡ level)
      × (bit_and (encode_radio_state level fallback) 0xc0 ≡ 0)
      × (bit_and (encode_radio_state level fallback) 0x20 ≡ (if fallback then 0x20 else 0))
unfolding encode_radio_state radio_power_level holds_below
radio_power_level-encode_radio_state level true h = (
  eq_by_table (λ x. radio_power_level (encode_radio_state x true)) (λ x. x) 32 refl level
      (omega arith),
  eq_by_table (λ x. bit_and (encode_radio_state x true) 0xc0) (λ x. 0) 32 refl level (omega arith),
  eq_by_table (λ x. bit_and (encode_radio_state x true) 0x20) (λ x. 0x20) 32 refl level
      (omega arith),
)
radio_power_level-encode_radio_state level false h = (
  eq_by_table (λ x. radio_power_level (encode_radio_state x false)) (λ x. x) 32 refl level
      (omega arith),
  eq_by_table (λ x. bit_and (encode_radio_state x false) 0xc0) (λ x. 0) 32 refl level (omega arith),
  eq_by_table (λ x. bit_and (encode_radio_state x false) 0x20) (λ x. 0) 32 refl level (omega arith),
)

-- A strength that a node notes is read back from its byte, and is never the value that stands for none.
pub downlink_rssi_value-byte :
    (rssi : ℤ)
    → (of_u8 (to_u8 (downlink_rssi_value rssi)) ≡ downlink_rssi_value rssi)
      × (to_u8 (downlink_rssi_value rssi) ≢ to_u8 no_downlink_rssi)
unfolding downlink_rssi_value to_u8
downlink_rssi_value-byte (pos n) = (ground arith, ground arith)
downlink_rssi_value-byte (negsuc n) = (ground arith, ground arith)

-- The measurements of a report, one constructor for each of the profiles' frames.
pub data Reading : Type 0 where
  voltage : Reading
  temperature : ℤ → Reading
  climate_th : ℤ → ℕ → Reading
  climate_thp : ℤ → ℕ → ℕ → Reading
  contact : ℕ → Reading
  count : ℕ → Reading
  contact_climate_th : ℕ → ℤ → ℕ → Reading
  contact_temperature : ℕ → ℤ → Reading

abbrev pub encode_reading :
    TelemetryPrefix → Reading → Option (List ℕ) → ℕ → Result TelemetryError (List ℕ)
encode_reading p voltage = encode_voltage_telemetry p
encode_reading p (temperature t) = encode_temperature_telemetry p t
encode_reading p (climate_th t h) = encode_climate_th_telemetry p t h
encode_reading p (climate_thp t h b) = encode_climate_thp_telemetry p t h b
encode_reading p (contact s) = encode_binary_telemetry p s
encode_reading p (count n) = encode_counter_telemetry p n
encode_reading p (contact_climate_th s t h) = encode_binary_climate_th_telemetry p s t h
encode_reading p (contact_temperature s t) = encode_binary_temperature_telemetry p s t

abbrev pub frame_size : Reading → ℕ
frame_size voltage = voltage_telemetry_size
frame_size (temperature _) = temperature_telemetry_size
frame_size (climate_th _ _) = climate_th_telemetry_size
frame_size (climate_thp _ _ _) = climate_thp_telemetry_size
frame_size (contact _) = binary_telemetry_size
frame_size (count _) = counter_telemetry_size
frame_size (contact_climate_th _ _ _) = binary_climate_th_telemetry_size
frame_size (contact_temperature _ _) = binary_temperature_telemetry_size

-- What a profile's payload holds: states as a byte, words little-endian.
abbrev pub reading_bytes : Reading → List ℕ
reading_bytes voltage = []
reading_bytes (temperature t) = write_u16_le (to_u16 t)
reading_bytes (climate_th t h) = write_u16_le (to_u16 t) ++ write_u16_le h
reading_bytes (climate_thp t h b) = write_u16_le (to_u16 t) ++ (write_u16_le h ++ write_u16_le b)
reading_bytes (contact s) = s ∷ []
reading_bytes (count n) = write_u32_le n
reading_bytes (contact_climate_th s t h) = s ∷ (write_u16_le (to_u16 t) ++ write_u16_le h)
reading_bytes (contact_temperature s t) = s ∷ write_u16_le (to_u16 t)

-- The measurements that the encoders let through.
abbrev pub IsReading : Reading → Type 0
IsReading voltage = Unit {0}
IsReading (temperature t) = valid_temperature t ≡ true
IsReading (climate_th t h) = (valid_temperature t ≡ true) × (valid_humidity h ≡ true)
IsReading (climate_thp t h b) =
    (valid_temperature t ≡ true) × (valid_humidity h ≡ true) × (valid_pressure b ≡ true)
IsReading (contact s) = s ≤ 1
IsReading (count n) = Unit {0}
IsReading (contact_climate_th s t h) =
    (s ≤ 1) × (valid_temperature t ≡ true) × (valid_humidity h ≡ true)
IsReading (contact_temperature s t) = (s ≤ 1) × (valid_temperature t ≡ true)

pub record IsPrefix (p : TelemetryPrefix) : Type 0 where
  pub unreserved : bit_and p.radio_state 0xc0 ≡ 0
  pub supply_u16 : IsU16 p.supply_millivolts
  pub rssi_i8 : of_u8 (to_u8 p.downlink_rssi) ≡ p.downlink_rssi

abbrev pub view_of : TelemetryPrefix → Reading → List ℕ → TelemetryView
view_of p r buffer = record {
  supply_millivolts = p.supply_millivolts;
  radio_state = p.radio_state;
  downlink_rssi = p.downlink_rssi;
  profile_payload = reading_bytes r ++ drop (frame_size r) buffer;
  profile_payload_size = frame_size r - 5;
}

module _ (p : TelemetryPrefix) (w : IsPrefix p) where
  supply_read :
      p.supply_millivolts % 256 + p.supply_millivolts / 2 ^ 8 % 256 * 2 ^ 8 ≡ p.supply_millivolts
  supply_read = omega (arith, w.supply_u16)

-- Into any buffer of the frame's size or more, any report is encoded whose prefix has no reserved
-- state bits and words in range and whose measurements are in range, and what stands there is decoded
-- to the prefix and the payload that holds the measurements.
pub decode-encode_telemetry :
    (p : TelemetryPrefix) (r : Reading) (buffer : List ℕ) (capacity : ℕ)
    → IsPrefix p
    → IsReading r
    → frame_size r ≤ capacity
    → (encode_reading p r (some buffer) capacity >>= λ written.
        decode_telemetry (some written) (frame_size r))
      ≡ ok (view_of p r buffer)
unfolding begin_telemetry decode_telemetry encode_voltage_telemetry encode_temperature_telemetry
    encode_climate_th_telemetry encode_climate_thp_telemetry encode_binary_telemetry
    encode_counter_telemetry encode_binary_climate_th_telemetry encode_binary_temperature_telemetry
decode-encode_telemetry p voltage buffer capacity w v h =
    ground (arith, w.unreserved, w.rssi_i8, supply_read p w)
decode-encode_telemetry p _ buffer capacity w v h =
    ground (arith, w.unreserved, w.rssi_i8, supply_read p w)

-- What a decoder makes of an acknowledgement: a target out of range is dropped.
abbrev pub received : TelemetryAck → TelemetryAck
received ack =
    if ack.has_power_target && leb ack.power_target max_radio_power_level
    then record ack { has_power_target = true }
    else record ack { has_power_target = false; power_target = 0 }

-- Any acknowledgement, the empty one included, is read back from two bytes or more, without a
-- target that is out of range.
pub decode-encode_telemetry_ack :
    (ack : TelemetryAck) (buffer : List ℕ) (capacity : ℕ)
    → 2 ≤ capacity
    → (let sent = encode_telemetry_ack ack (some buffer) capacity in
        decode_telemetry_ack sent.0 sent.1)
      ≡ received ack
unfolding encode_telemetry_ack decode_telemetry_ack
decode-encode_telemetry_ack ack buffer capacity h = ground arith
