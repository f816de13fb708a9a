-- ===== src/Gateway/Book/Codec.antt =====
-- shared/RadioProtocol/src/GatewayStorage.cpp: encodeCommandBook and decodeCommandBook.
pub mod RoundTrip
use radio_sensors.Prelude.{
  ℕ, zero, suc, ◌+◌, ◌-◌, ◌*◌, ◌≡◌, Bool, not, List, [], ◌∷◌, ◌++◌, Option, leb, ◌==◌, byte_at,
  Bytes, to_list, read_bytes, take, drop, length,
}
use radio_sensors.Prelude.Result.{Result, ok, ◌>>=◌, ◌>>◌, check, non_null}
use radio_sensors.Wire.{store, write_u16_le, write_u32_le, read_u16_le}
use radio_sensors.Wire.JoinRequest.{device_uid_size}
use radio_sensors.Wire.Session.{max_command_argument_size, max_command_result_data_size}
use radio_sensors.Gateway.{
  CodecError, all_zero, output_too_small, invalid_reserved_data, invalid_count,
}
use radio_sensors.Gateway.Snapshot.{crc32, header_bytes, validate_header, write_u64_le, read_u64_le}
use radio_sensors.Gateway.Book.{CommandRecord, CommandBook, max_command_records}
use radio_sensors.Gateway.Book.Validate.{validate_command_book}

abbrev pub commands_snapshot_size : ℕ
commands_snapshot_size = 820

abbrev pub command_records_offset : ℕ
command_records_offset = 16

abbrev pub stored_command_size : ℕ
stored_command_size = 50

-- 'R' 'S' 'C' 'B'
abbrev pub commands_magic : Bytes 4
commands_magic = (82, (83, (67, (66, tt))))

abbrev pub record_bytes : CommandRecord → List ℕ
record_bytes r =
    to_list device_uid_size r.device_uid
    ++ (r.node_id
        ∷ (write_u16_le r.command_id
            ++ (r.type
                ∷ r.argument_size
                ∷ (to_list max_command_argument_size r.arguments
                    ++ (r.state
                        ∷ r.status
                        ∷ r.result_size
                        ∷ (to_list max_command_result_data_size r.result_bytes
                            ++ (write_u64_le r.queued_at ++ write_u64_le r.completed_at)))))))

abbrev pub record_of : List ℕ → CommandRecord
record_of stored = record {
  device_uid = read_bytes device_uid_size stored 0;
  node_id = byte_at stored 10;
  command_id = read_u16_le stored 11;
  type = byte_at stored 13;
  argument_size = byte_at stored 14;
  arguments = read_bytes max_command_argument_size stored 15;
  state = byte_at stored 23;
  status = byte_at stored 24;
  result_size = byte_at stored 25;
  result_bytes = read_bytes max_command_result_data_size stored 26;
  queued_at = read_u64_le stored 34;
  completed_at = read_u64_le stored 42;
}

unfoldable pub records_bytes : List CommandRecord → List ℕ
records_bytes [] = []
records_bytes (r ∷ rs) = record_bytes r ++ records_bytes rs

-- The loop over the records, with the bytes from the next one on.
unfoldable pub read_records : ℕ → List ℕ → List CommandRecord
read_records zero stored = []
read_records (suc n) stored = record_of stored ∷ read_records n (drop stored_command_size stored)

-- What `memset` left.
unfoldable pub zero_bytes : ℕ → List ℕ
zero_bytes zero = []
zero_bytes (suc n) = 0 ∷ zero_bytes n

abbrev pub book_payload : CommandBook → List ℕ
book_payload book =
    length book.records
    ∷ 0
    ∷ (write_u16_le book.next_command_id
        ++ (records_bytes book.records
            ++ zero_bytes ((max_command_records - length book.records) * stored_command_size)))

abbrev pub book_bytes : CommandBook → ℕ → List ℕ
book_bytes book generation =
    header_bytes commands_magic generation commands_snapshot_size ++ book_payload book

unfoldable pub encode_command_book :
    CommandBook → ℕ → Option (List ℕ) → ℕ → Result CodecError (List ℕ)
encode_command_book book generation output capacity = do
  buffer ← non_null output output_too_small
  check (leb commands_snapshot_size capacity) output_too_small
  validate_command_book book
  ok (
      store (book_bytes book generation ++ write_u32_le (crc32 (book_bytes book generation)))
        buffer)

unfoldable pub decode_command_book : Option (List ℕ) → ℕ → Result CodecError (CommandBook × ℕ)
decode_command_book pointer size = do
  header ← validate_header pointer size commands_magic commands_snapshot_size
  let bytes = header.0
  check (byte_at bytes 13 == 0) invalid_reserved_data
  let count = byte_at bytes 12
  check (leb count max_command_records) invalid_count
  let candidate : CommandBook = record {
    next_command_id = read_u16_le bytes 14;
    records = read_records count (drop command_records_offset bytes);
  }
  check
      (all_zero (
        take ((max_command_records - count) * stored_command_size)
          (drop (count * stored_command_size) (drop command_records_offset bytes))))
      invalid_reserved_data
  validate_command_book candidate
  ok (candidate, header.1)
