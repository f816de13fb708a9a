-- ===== src/Wire/JoinRequest.antt =====
-- shared/RadioProtocol/include/JoinRequest.h.
pub mod RoundTrip
use radio_sensors.Prelude.{
  ℕ, ◌+◌, ◌≤◌, ◌<◌, ◌≢◌, Bool, not, List, [], ◌∷◌, ◌++◌, Option, some, ltb, leb, ◌==◌, byte_at,
  Bytes, AllBytes, IsByte, IsU16, IsU32, to_list, read_bytes,
}
use radio_sensors.Prelude.Result.{Result, ok, ◌>>=◌, ◌>>◌, check, non_null, map_error}
use radio_sensors.Wire.{
  FrameKind, DecodeError, encode_header, decode_frame, same_kind, store, write_u16_le, write_u32_le,
  read_u16_le, read_u32_le,
}
use radio_sensors.Power.{max_radio_power_level}

abbrev pub device_uid_size : ℕ
device_uid_size = 10

abbrev pub join_request_size : ℕ
join_request_size = 21

abbrev pub unassigned_profile_id : ℕ
unassigned_profile_id = 0

abbrev pub DeviceUid : Type 0
DeviceUid = Bytes device_uid_size

pub record FirmwareVersion : Type 0 where
  pub major : ℕ
  pub minor : ℕ
  pub patch : ℕ

pub record JoinRequest : Type 0 where
  pub device_uid : DeviceUid
  pub profile_id : ℕ
  pub firmware : FirmwareVersion
  pub request_nonce : ℕ
  pub max_power_level : ℕ

pub data JoinRequestError : Type 0 where
  output_too_small empty_frame unsupported_version unsupported_kind : JoinRequestError
  wrong_frame_kind wrong_length invalid_profile_id invalid_power_level : JoinRequestError

-- The switch on the status of `decodeFrame`.
abbrev pub frame_error : DecodeError → JoinRequestError
frame_error DecodeError.empty_frame = empty_frame
frame_error DecodeError.unsupported_version = unsupported_version
frame_error DecodeError.unsupported_kind = unsupported_kind

abbrev join_request_bytes : JoinRequest → List ℕ
join_request_bytes r =
    encode_header FrameKind.join_request
    ∷ (to_list device_uid_size r.device_uid
        ++ (write_u16_le r.profile_id
            ++ (r.firmware.major
                ∷ r.firmware.minor
                ∷ r.firmware.patch
                ∷ (write_u32_le r.request_nonce ++ (r.max_power_level ∷ [])))))

unfoldable pub encode_join_request :
    JoinRequest → Option (List ℕ) → ℕ → Result JoinRequestError (List ℕ)
encode_join_request request output output_size = do
  buffer ← non_null output output_too_small
  check (leb join_request_size output_size) output_too_small
  check (not (request.profile_id == unassigned_profile_id)) invalid_profile_id
  check (leb request.max_power_level max_radio_power_level) invalid_power_level
  ok (store (join_request_bytes request) buffer)

unfoldable pub decode_join_request : Option (List ℕ) → ℕ → Result JoinRequestError JoinRequest
unfolding decode_frame
decode_join_request pointer size = do
  frame ← map_error frame_error (decode_frame pointer size)
  check (same_kind frame.kind FrameKind.join_request) wrong_frame_kind
  check (size == join_request_size) wrong_length
  data' ← non_null pointer empty_frame
  let profile_id = read_u16_le data' 11
  check (not (profile_id == unassigned_profile_id)) invalid_profile_id
  check (leb (byte_at data' 20) max_radio_power_level) invalid_power_level
  ok (record {
    device_uid = read_bytes device_uid_size data' 1;
    profile_id = profile_id;
    firmware = record {
      major = byte_at data' 13;
      minor = byte_at data' 14;
      patch = byte_at data' 15;
    };
    request_nonce = read_u32_le data' 16;
    max_power_level = byte_at data' 20;
  })

-- What the types of the fields say, and what the protocol asks of a request.
pub record IsRequest (r : JoinRequest) : Type 0 where
  pub uid_bytes : AllBytes device_uid_size r.device_uid
  pub profile_u16 : IsU16 r.profile_id
  pub nonce_u32 : IsU32 r.request_nonce
  pub assigned : r.profile_id ≢ unassigned_profile_id
  pub power_le : r.max_power_level ≤ max_radio_power_level
