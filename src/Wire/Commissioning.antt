-- ===== src/Wire/Commissioning.antt =====
-- shared/RadioProtocol/include/CommissioningFrames.h: the frames of the join exchange.
pub mod RoundTrip
use radio_sensors.Prelude.{
  ℕ, ◌≢◌, Bool, not, ◌||◌, List, [], ◌∷◌, ◌++◌, Option, leb, ◌==◌, byte_at, Bytes, AllBytes, IsByte,
  IsU32, to_list, read_bytes,
}
use radio_sensors.Prelude.Result.{Result, ok, ◌>>=◌, ◌>>◌, check, non_null, map_error}
use radio_sensors.Wire.{
  FrameKind, DecodeError, encode_header, decode_frame, same_kind, store, write_u32_le, read_u32_le,
}
use radio_sensors.Wire.JoinRequest.{device_uid_size, DeviceUid}

abbrev pub installation_key_size : ℕ
installation_key_size = 16

abbrev pub join_accept_size : ℕ
join_accept_size = 34

abbrev pub join_confirm_size : ℕ
join_confirm_size = 15

abbrev pub join_complete_size : ℕ
join_complete_size = 15

pub record JoinAccept : Type 0 where
  pub device_uid : DeviceUid
  pub request_nonce : ℕ
  pub assigned_node_id : ℕ
  pub gateway_node_id : ℕ
  pub network_id : ℕ
  pub installation_key : Bytes installation_key_size

pub record JoinConfirm : Type 0 where
  pub device_uid : DeviceUid
  pub request_nonce : ℕ

abbrev pub JoinComplete : Type 0
JoinComplete = JoinConfirm

pub data CommissioningError : Type 0 where
  output_too_small empty_frame unsupported_version unsupported_kind : CommissioningError
  wrong_frame_kind wrong_length invalid_node_id : CommissioningError

abbrev pub map_frame_status : DecodeError → CommissioningError
map_frame_status DecodeError.empty_frame = empty_frame
map_frame_status DecodeError.unsupported_version = unsupported_version
map_frame_status DecodeError.unsupported_kind = unsupported_kind

-- The test on the two node IDs that both directions make.
abbrev pub bad_node_ids : ℕ → ℕ → Bool
bad_node_ids assigned gateway =
    assigned == 0 || assigned == gateway || assigned == 255 || gateway == 0 || gateway == 255

abbrev join_accept_bytes : JoinAccept → List ℕ
join_accept_bytes v =
    encode_header FrameKind.join_accept
    ∷ (to_list device_uid_size v.device_uid
        ++ (write_u32_le v.request_nonce
            ++ (v.assigned_node_id
                ∷ v.gateway_node_id
                ∷ v.network_id
                ∷ to_list installation_key_size v.installation_key)))

unfoldable pub encode_join_accept :
    JoinAccept → Option (List ℕ) → ℕ → Result CommissioningError (List ℕ)
encode_join_accept value output capacity = do
  buffer ← non_null output output_too_small
  check (leb join_accept_size capacity) output_too_small
  check (not (bad_node_ids value.assigned_node_id value.gateway_node_id)) invalid_node_id
  ok (store (join_accept_bytes value) buffer)

unfoldable pub decode_join_accept : Option (List ℕ) → ℕ → Result CommissioningError JoinAccept
unfolding decode_frame
decode_join_accept pointer size = do
  frame ← map_error map_frame_status (decode_frame pointer size)
  check (same_kind frame.kind FrameKind.join_accept) wrong_frame_kind
  check (size == join_accept_size) wrong_length
  bytes ← non_null pointer empty_frame
  check (not (bad_node_ids (byte_at bytes 15) (byte_at bytes 16))) invalid_node_id
  ok (record {
    device_uid = read_bytes device_uid_size bytes 1;
    request_nonce = read_u32_le bytes 11;
    assigned_node_id = byte_at bytes 15;
    gateway_node_id = byte_at bytes 16;
    network_id = byte_at bytes 17;
    installation_key = read_bytes installation_key_size bytes 18;
  })

abbrev confirm_bytes : FrameKind → JoinConfirm → List ℕ
confirm_bytes kind v =
    encode_header kind ∷ (to_list device_uid_size v.device_uid ++ write_u32_le v.request_nonce)

unfoldable pub encode_join_confirm :
    JoinConfirm → Option (List ℕ) → ℕ → Result CommissioningError (List ℕ)
encode_join_confirm value output capacity = do
  buffer ← non_null output output_too_small
  check (leb join_confirm_size capacity) output_too_small
  ok (store (confirm_bytes FrameKind.join_confirm value) buffer)

unfoldable pub decode_join_confirm : Option (List ℕ) → ℕ → Result CommissioningError JoinConfirm
unfolding decode_frame
decode_join_confirm pointer size = do
  frame ← map_error map_frame_status (decode_frame pointer size)
  check (same_kind frame.kind FrameKind.join_confirm) wrong_frame_kind
  check (size == join_confirm_size) wrong_length
  bytes ← non_null pointer empty_frame
  ok (record {
    device_uid = read_bytes device_uid_size bytes 1;
    request_nonce = read_u32_le bytes 11;
  })

unfoldable pub encode_join_complete :
    JoinComplete → Option (List ℕ) → ℕ → Result CommissioningError (List ℕ)
encode_join_complete value output capacity = do
  buffer ← non_null output output_too_small
  check (leb join_complete_size capacity) output_too_small
  ok (store (confirm_bytes FrameKind.join_complete value) buffer)

unfoldable pub decode_join_complete : Option (List ℕ) → ℕ → Result CommissioningError JoinComplete
unfolding decode_frame
decode_join_complete pointer size = do
  frame ← map_error map_frame_status (decode_frame pointer size)
  check (same_kind frame.kind FrameKind.join_complete) wrong_frame_kind
  check (size == join_complete_size) wrong_length
  bytes ← non_null pointer empty_frame
  ok (record {
    device_uid = read_bytes device_uid_size bytes 1;
    request_nonce = read_u32_le bytes 11;
  })

-- The values that a gateway may send.
pub record IsAccept (v : JoinAccept) : Type 0 where
  pub nonce_u32 : IsU32 v.request_nonce
  pub ids_differ : v.assigned_node_id ≢ v.gateway_node_id
  pub assigned_node : (v.assigned_node_id ≢ 0) × (v.assigned_node_id ≢ 255)
  pub gateway_node : (v.gateway_node_id ≢ 0) × (v.gateway_node_id ≢ 255)
