-- ===== src/Wire.antt =====
-- shared/RadioProtocol/include: the frames of the radio protocol. RadioProtocol.h, the header byte
-- and `decodeFrame`; and the integer codecs of JoinRequest.h.
-- A pointer is an `Option` of the bytes that it points at, `none` for nullptr, with the size or the
-- capacity as an argument of its own, as in the source. A status is a `Result`: the value that the
-- function writes for `Ok`, or the error code.
pub mod Header
pub mod JoinRequest
pub mod Commissioning
pub mod Session
pub mod Telemetry
use radio_sensors.Prelude.{
  ℕ, zero, suc, ◌+◌, ◌-◌, ◌*◌, ◌/◌, ◌%◌, ◌^◌, bit_and, bit_or, Bool, List, [], ◌∷◌, ◌++◌, Option,
  none, some, length, drop, byte_at, ltb, leb, ◌==◌, if◌then◌else◌,
}
use radio_sensors.Prelude.Result.{Result, ok, ◌>>=◌, ◌>>◌, check, non_null}

abbrev pub protocol_major : ℕ
protocol_major = 2

abbrev pub version_shift : ℕ
version_shift = 5

abbrev pub version_mask : ℕ
version_mask = 0xe0

abbrev pub kind_mask : ℕ
kind_mask = 0x1f

abbrev pub header_size : ℕ
header_size = 1

pub data FrameKind : Type 0 where
  telemetry join_request join_accept join_confirm command command_result error : FrameKind
  join_complete command_ready no_command : FrameKind

-- The enumerators' values, and `static_cast<FrameKind>` at a known one.
abbrev pub kind_code : FrameKind → ℕ
kind_code telemetry = 0
kind_code join_request = 1
kind_code join_accept = 2
kind_code join_confirm = 3
kind_code command = 4
kind_code command_result = 5
kind_code error = 6
kind_code join_complete = 7
kind_code command_ready = 8
kind_code no_command = 9

abbrev pub kind_of : ℕ → FrameKind
kind_of zero = telemetry
kind_of (suc zero) = join_request
kind_of (suc (suc zero)) = join_accept
kind_of (suc (suc (suc zero))) = join_confirm
kind_of (suc (suc (suc (suc zero)))) = command
kind_of (suc (suc (suc (suc (suc zero))))) = command_result
kind_of (suc (suc (suc (suc (suc (suc zero)))))) = error
kind_of (suc (suc (suc (suc (suc (suc (suc zero))))))) = join_complete
kind_of (suc (suc (suc (suc (suc (suc (suc (suc zero)))))))) = command_ready
kind_of (suc (suc (suc (suc (suc (suc (suc (suc (suc _))))))))) = no_command

pub data DecodeError : Type 0 where
  empty_frame unsupported_version unsupported_kind : DecodeError

pub record FrameView : Type 0 where
  pub kind : FrameKind
  pub payload : List ℕ
  pub payload_size : ℕ

abbrev pub is_known_frame_kind : ℕ → Bool
is_known_frame_kind raw = leb raw (kind_code no_command)

abbrev pub encode_header : FrameKind → ℕ
encode_header kind =
    bit_or (protocol_major * 2 ^ version_shift) (bit_and (kind_code kind) kind_mask) % 256

unfoldable pub decode_frame : Option (List ℕ) → ℕ → Result DecodeError FrameView
decode_frame pointer size = do
  bytes ← non_null pointer empty_frame
  check (leb header_size size) empty_frame
  let header = byte_at bytes 0
  check (bit_and header version_mask / 2 ^ version_shift == protocol_major) unsupported_version
  let raw = bit_and header kind_mask
  check (is_known_frame_kind raw) unsupported_kind
  ok (record {
    kind = kind_of raw;
    payload = drop header_size bytes;
    payload_size = size - header_size;
  })

-- `a == b` on the enumeration.
abbrev pub same_kind : FrameKind → FrameKind → Bool
same_kind a b = kind_code a == kind_code b

-- The buffer behind `output` after bytes are written from its start on.
abbrev pub store : List ℕ → List ℕ → List ℕ
store bytes buffer = bytes ++ drop (length bytes) buffer

-- writeUint16Le, writeUint32Le: the bytes that they write.
abbrev pub write_u16_le : ℕ → List ℕ
write_u16_le value = value % 256 ∷ value / 2 ^ 8 % 256 ∷ []

abbrev pub write_u32_le : ℕ → List ℕ
write_u32_le value =
    value % 256 ∷ value / 2 ^ 8 % 256 ∷ value / 2 ^ 16 % 256 ∷ value / 2 ^ 24 % 256 ∷ []

-- readUint16Le, readUint32Le at an offset. The shifted bytes share no bit, so `|` is `+`.
abbrev pub read_u16_le : List ℕ → ℕ → ℕ
read_u16_le bytes i = byte_at bytes i + byte_at bytes (i + 1) * 2 ^ 8

abbrev pub read_u32_le : List ℕ → ℕ → ℕ
read_u32_le bytes i =
    byte_at bytes i
    + byte_at bytes (i + 1) * 2 ^ 8
    + byte_at bytes (i + 2) * 2 ^ 16
    + byte_at bytes (i + 3) * 2 ^ 24
