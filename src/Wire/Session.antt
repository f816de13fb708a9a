-- ===== src/Wire/Session.antt =====
-- shared/RadioProtocol/include/CommandSessionFrames.h: the frames of a command session, and the
-- commands that they carry.
pub mod RoundTrip
use radio_sensors.Prelude.{
  ℕ, zero, suc, ◌+◌, ◌-◌, ◌%◌, Bool, true, false, not, ◌&&◌, ◌||◌, List, [], ◌∷◌, ◌++◌, Option,
  none, some, take, leb, ◌==◌, if◌then◌else◌, byte_at, Bytes, to_list,
}
use radio_sensors.Prelude.Result.{Result, ok, ◌>>=◌, ◌>>◌, check, non_null, map_error}
use radio_sensors.Power.{max_radio_power_level}
use radio_sensors.Wire.{
  FrameKind, DecodeError, encode_header, decode_frame, same_kind, store, write_u16_le, write_u32_le,
  read_u16_le, read_u32_le,
}
use radio_sensors.Wire.JoinRequest.{FirmwareVersion, unassigned_profile_id}

abbrev pub command_ready_size : ℕ
command_ready_size = 5

abbrev pub command_envelope_size : ℕ
command_envelope_size = 8

abbrev pub max_command_argument_size : ℕ
max_command_argument_size = 8

abbrev pub max_command_result_data_size : ℕ
max_command_result_data_size = 8

abbrev pub max_command_size : ℕ
max_command_size = command_envelope_size + max_command_argument_size

abbrev pub max_command_result_size : ℕ
max_command_result_size = command_envelope_size + max_command_result_data_size

abbrev pub set_count_argument_size : ℕ
set_count_argument_size = 4

abbrev pub set_count_result_size : ℕ
set_count_result_size = 8

abbrev pub read_info_result_size : ℕ
read_info_result_size = 6

-- The enumerators of CommandType; a type on the wire stays a raw byte.
abbrev pub set_count : ℕ
set_count = 1

abbrev pub read_info : ℕ
read_info = 2

pub data CommandStatus : Type 0 where
  applied unsupported invalid_argument storage_failure : CommandStatus

-- The enumerators' values, and `static_cast<CommandStatus>` at a valid one.
abbrev pub status_code : CommandStatus → ℕ
status_code applied = 0
status_code unsupported = 1
status_code invalid_argument = 2
status_code storage_failure = 3

abbrev pub status_of : ℕ → CommandStatus
status_of zero = applied
status_of (suc zero) = unsupported
status_of (suc (suc zero)) = invalid_argument
status_of (suc (suc (suc _))) = storage_failure

pub record Command : Type 0 where
  pub session_nonce : ℕ
  pub command_id : ℕ
  pub type : ℕ
  pub argument_size : ℕ
  pub arguments : Bytes max_command_argument_size

pub record CommandResult : Type 0 where
  pub session_nonce : ℕ
  pub command_id : ℕ
  pub status : CommandStatus
  pub data_size : ℕ
  pub data_bytes : Bytes max_command_result_data_size

pub record NodeInfo : Type 0 where
  pub profile_id : ℕ
  pub firmware : FirmwareVersion
  pub max_power_level : ℕ

pub data SessionError : Type 0 where
  output_too_small empty_frame unsupported_version unsupported_kind : SessionError
  wrong_frame_kind wrong_length invalid_command_id invalid_status : SessionError

abbrev pub map_command_session_frame_status : DecodeError → SessionError
map_command_session_frame_status DecodeError.empty_frame = empty_frame
map_command_session_frame_status DecodeError.unsupported_version = unsupported_version
map_command_session_frame_status DecodeError.unsupported_kind = unsupported_kind

unfoldable pub encode_command_session_frame :
    FrameKind → ℕ → Option (List ℕ) → ℕ → Result SessionError (List ℕ)
encode_command_session_frame kind session_nonce output capacity = do
  buffer ← non_null output output_too_small
  check (leb command_ready_size capacity) output_too_small
  ok (store (encode_header kind ∷ write_u32_le session_nonce) buffer)

unfoldable pub decode_command_session_frame :
    Option (List ℕ) → ℕ → FrameKind → Result SessionError ℕ
unfolding decode_frame
decode_command_session_frame pointer size expected_kind = do
  frame ← map_error map_command_session_frame_status (decode_frame pointer size)
  check (same_kind frame.kind expected_kind) wrong_frame_kind
  check (size == command_ready_size) wrong_length
  bytes ← non_null pointer empty_frame
  ok (read_u32_le bytes 1)

unfoldable pub encode_command_ready : ℕ → Option (List ℕ) → ℕ → Result SessionError (List ℕ)
unfolding encode_command_session_frame
encode_command_ready = encode_command_session_frame FrameKind.command_ready

unfoldable pub decode_command_ready : Option (List ℕ) → ℕ → Result SessionError ℕ
unfolding decode_command_session_frame
decode_command_ready pointer size =
    decode_command_session_frame pointer size FrameKind.command_ready

unfoldable pub encode_no_command : ℕ → Option (List ℕ) → ℕ → Result SessionError (List ℕ)
unfolding encode_command_session_frame
encode_no_command = encode_command_session_frame FrameKind.no_command

unfoldable pub decode_no_command : Option (List ℕ) → ℕ → Result SessionError ℕ
unfolding decode_command_session_frame
decode_no_command pointer size = decode_command_session_frame pointer size FrameKind.no_command

abbrev pub command_frame_size : Command → ℕ
command_frame_size command = command_envelope_size + command.argument_size

abbrev pub command_result_frame_size : CommandResult → ℕ
command_result_frame_size result = command_envelope_size + result.data_size

-- The loop that reads `count` bytes into an array and leaves the array's other bytes.
abbrev pub read_into : (n : ℕ) → ℕ → List ℕ → ℕ → Bytes n → Bytes n
read_into zero count bytes i old = old
read_into (suc n) zero bytes i old = old
read_into (suc n) (suc count) bytes i old = (byte_at bytes i, read_into n count bytes (i + 1) old.1)

unfoldable pub encode_command : Command → Option (List ℕ) → ℕ → Result SessionError (List ℕ)
encode_command command output capacity = do
  check (not (command.command_id == 0)) invalid_command_id
  check (leb command.argument_size max_command_argument_size) wrong_length
  buffer ← non_null output output_too_small
  check (leb (command_frame_size command) capacity) output_too_small
  ok (
      store
        (encode_header FrameKind.command
          ∷ (write_u32_le command.session_nonce
              ++ (write_u16_le command.command_id
                  ++ (command.type
                      ∷ take command.argument_size
                          (to_list max_command_argument_size command.arguments)))))
        buffer)

-- `old` is what the caller's structure held.
unfoldable pub decode_command : Option (List ℕ) → ℕ → Command → Result SessionError Command
unfolding decode_frame
decode_command pointer size old = do
  frame ← map_error map_command_session_frame_status (decode_frame pointer size)
  check (same_kind frame.kind FrameKind.command) wrong_frame_kind
  check (leb command_envelope_size size && leb size max_command_size) wrong_length
  bytes ← non_null pointer empty_frame
  let command_id = read_u16_le bytes 5
  check (not (command_id == 0)) invalid_command_id
  let argument_size = (size - command_envelope_size) % 256
  ok (record {
    session_nonce = read_u32_le bytes 1;
    command_id = command_id;
    type = byte_at bytes 7;
    argument_size = argument_size;
    arguments =
        read_into max_command_argument_size argument_size bytes command_envelope_size old.arguments;
  })

abbrev pub valid_command_status : ℕ → Bool
valid_command_status status = leb status (status_code storage_failure)

unfoldable pub encode_command_result :
    CommandResult → Option (List ℕ) → ℕ → Result SessionError (List ℕ)
encode_command_result result output capacity = do
  check (not (result.command_id == 0)) invalid_command_id
  check (valid_command_status (status_code result.status)) invalid_status
  check (leb result.data_size max_command_result_data_size) wrong_length
  buffer ← non_null output output_too_small
  check (leb (command_result_frame_size result) capacity) output_too_small
  ok (
      store
        (encode_header FrameKind.command_result
          ∷ (write_u32_le result.session_nonce
              ++ (write_u16_le result.command_id
                  ++ (status_code result.status
                      ∷ take result.data_size
                          (to_list max_command_result_data_size result.data_bytes)))))
        buffer)

unfoldable pub decode_command_result :
    Option (List ℕ) → ℕ → CommandResult → Result SessionError CommandResult
unfolding decode_frame
decode_command_result pointer size old = do
  frame ← map_error map_command_session_frame_status (decode_frame pointer size)
  check (same_kind frame.kind FrameKind.command_result) wrong_frame_kind
  check (leb command_envelope_size size && leb size max_command_result_size) wrong_length
  bytes ← non_null pointer empty_frame
  let command_id = read_u16_le bytes 5
  check (not (command_id == 0)) invalid_command_id
  check (valid_command_status (byte_at bytes 7)) invalid_status
  let data_size = (size - command_envelope_size) % 256
  ok (record {
    session_nonce = read_u32_le bytes 1;
    command_id = command_id;
    status = status_of (byte_at bytes 7);
    data_size = data_size;
    data_bytes =
        read_into max_command_result_data_size data_size bytes command_envelope_size old.data_bytes;
  })

-- The argument size of a known command type, `none` for an unknown one.
abbrev pub command_argument_size : ℕ → Option ℕ
command_argument_size type =
    if type == set_count
    then some set_count_argument_size
    else if type == read_info
    then some 0
    else none

-- `has_arguments` says that the pointer to the arguments is not null.
unfoldable pub valid_command_arguments : ℕ → Bool → ℕ → Bool
valid_command_arguments type has_arguments size = elim (command_argument_size type) [
  | none ↦ false
  | some expected ↦ size == expected && (size == 0 || has_arguments)
]

unfoldable pub command_result_data_size : ℕ → CommandStatus → ℕ
command_result_data_size type status =
    if not (status_code status == status_code applied)
    then 0
    else if type == set_count
    then set_count_result_size
    else if type == read_info
    then read_info_result_size
    else 0

-- ProfileIds.h
abbrev pub pulse_counter : ℕ
pulse_counter = 6

unfoldable pub profile_supports_command : ℕ → ℕ → Bool
profile_supports_command profile_id type =
    if type == set_count then profile_id == pulse_counter else type == read_info

unfoldable pub encode_node_info : NodeInfo → Option (List ℕ) → ℕ → Option (List ℕ)
encode_node_info info none capacity = none
encode_node_info info (some buffer) capacity =
    if not (leb read_info_result_size capacity)
      || info.profile_id == unassigned_profile_id
      || not (leb info.max_power_level max_radio_power_level)
    then none
    else some (
        store
          (write_u16_le info.profile_id
            ++ (info.firmware.major ∷ info.firmware.minor ∷ info.firmware.patch
                ∷ info.max_power_level ∷ []))
          buffer)

unfoldable pub decode_node_info : Option (List ℕ) → ℕ → Option NodeInfo
decode_node_info none size = none
decode_node_info (some bytes) size =
    let profile_id = read_u16_le bytes 0 in
    if not (size == read_info_result_size)
      || profile_id == unassigned_profile_id
      || not (leb (byte_at bytes 5) max_radio_power_level)
    then none
    else some (record {
      profile_id = profile_id;
      firmware = record {
        major = byte_at bytes 2;
        minor = byte_at bytes 3;
        patch = byte_at bytes 4;
      };
      max_power_level = byte_at bytes 5;
    })
