-- ===== src/Registry/Snapshot.antt =====
-- shared/RadioProtocol/src/RegistryPersistence.cpp: the snapshot of a registry. Its `crc32` is, line
-- for line, that of the gateway's other snapshots.
pub mod RoundTrip
use radio_sensors.Prelude.{
  ℕ, zero, suc, ◌+◌, ◌-◌, ◌*◌, ◌%◌, Bool, true, false, not, ◌&&◌, List, [], ◌∷◌, ◌++◌, Option, none,
  some, leb, ltb, ◌==◌, if◌then◌else◌, byte_at, Bytes, to_list, read_bytes, take, drop, length,
  and_then,
}
use radio_sensors.Prelude.Result.{Result, ok, err, ◌>>=◌, ◌>>◌, check, non_null}
use radio_sensors.Wire.{store, write_u16_le, write_u32_le, read_u16_le, read_u32_le}
use radio_sensors.Wire.JoinRequest.{device_uid_size}
use radio_sensors.Gateway.Snapshot.{crc32, magic_at}
use radio_sensors.Registry.{NodeRecord, NodeRegistry, max_nodes, blanks}
use radio_sensors.Registry.Name.{node_display_name_size}
use radio_sensors.Registry.Updates.{restore}

abbrev pub registry_storage_version : ℕ
registry_storage_version = 3

abbrev pub registry_header_size : ℕ
registry_header_size = 12

abbrev pub stored_node_record_size : ℕ
stored_node_record_size = 21 + 1 + node_display_name_size + 2

abbrev pub registry_crc_size : ℕ
registry_crc_size = 4

abbrev pub max_registry_snapshot_size : ℕ
max_registry_snapshot_size =
    registry_header_size + max_nodes * stored_node_record_size + registry_crc_size

pub data SnapshotError : Type 0 where
  output_too_small invalid_size invalid_magic unsupported_version : SnapshotError
  invalid_record_count crc_mismatch invalid_registry : SnapshotError

-- 'R' 'S' 'N' 'R'
abbrev pub registry_magic : Bytes 4
registry_magic = (82, (83, (78, (82, tt))))

abbrev pub node_bytes : NodeRecord → List ℕ
node_bytes r =
    to_list device_uid_size r.device_uid
    ++ (r.node_id
        ∷ (write_u16_le r.profile_id
            ++ (r.firmware.major
                ∷ r.firmware.minor
                ∷ r.firmware.patch
                ∷ r.state
                ∷ (write_u32_le r.request_nonce
                    ++ (r.display_name_length
                        ∷ (to_list node_display_name_size r.display_name
                            ++ (r.max_power_level ∷ r.power_policy ∷ [])))))))

unfoldable pub nodes_bytes : List NodeRecord → List ℕ
nodes_bytes [] = []
nodes_bytes (r ∷ rs) = node_bytes r ++ nodes_bytes rs

abbrev pub registry_bytes : NodeRegistry → ℕ → List ℕ
registry_bytes registry generation =
    to_list 4 registry_magic
    ++ (write_u16_le registry_storage_version
        ++ (write_u32_le generation
            ++ (length registry.live % 256 ∷ 0 ∷ nodes_bytes registry.live)))

-- The output, and the encoded size.
unfoldable pub encode_registry_snapshot :
    NodeRegistry → ℕ → Option (List ℕ) → ℕ → Result SnapshotError (List ℕ × ℕ)
encode_registry_snapshot registry generation output output_size = do
  let required =
      registry_header_size + length registry.live * stored_node_record_size + registry_crc_size
  buffer ← non_null output output_too_small
  check (leb required output_size) output_too_small
  ok (
    store
        (registry_bytes registry generation
          ++ write_u32_le (crc32 (registry_bytes registry generation)))
        buffer,
    required,
  )

abbrev pub node_of : List ℕ → NodeRecord
node_of stored = record {
  device_uid = read_bytes device_uid_size stored 0;
  node_id = byte_at stored 10;
  profile_id = read_u16_le stored 11;
  firmware = record {
    major = byte_at stored 13;
    minor = byte_at stored 14;
    patch = byte_at stored 15;
  };
  state = byte_at stored 16;
  request_nonce = read_u32_le stored 17;
  display_name_length = byte_at stored 21;
  display_name = read_bytes node_display_name_size stored 22;
  max_power_level = byte_at stored 70;
  power_policy = byte_at stored 71;
}

-- The loop over the records, with the bytes from the next one on; it stops at a length out of range.
unfoldable pub read_nodes : ℕ → List ℕ → Result SnapshotError (List NodeRecord)
read_nodes zero stored = ok []
read_nodes (suc n) stored = do
  check (leb (byte_at stored 21) node_display_name_size) invalid_registry
  rest ← read_nodes n (drop stored_node_record_size stored)
  ok (node_of stored ∷ rest)

-- The tests of the decoder, and the registry that is restored behind them.
unfoldable pub restored_from : List ℕ → ℕ → NodeRegistry → Result SnapshotError NodeRegistry
restored_from bytes size registry = do
  check (leb (registry_header_size + registry_crc_size) size) invalid_size
  check (magic_at registry_magic bytes) invalid_magic
  check (read_u16_le bytes 4 == registry_storage_version) unsupported_version
  let count = byte_at bytes 10
  check (leb count max_nodes) invalid_record_count
  check (size == registry_header_size + count * stored_node_record_size + registry_crc_size)
      invalid_size
  check
      (read_u32_le bytes (size - registry_crc_size)
        == crc32 (take (size - registry_crc_size) bytes))
      crc_mismatch
  records ← read_nodes count (drop registry_header_size bytes)
  let restored = restore registry (some (records ++ blanks (max_nodes - count))) count
  check restored.1 invalid_registry
  ok restored.0

-- The registry and the generation that a snapshot gives to a registry.
unfoldable pub decode_registry_snapshot :
    Option (List ℕ) → ℕ → NodeRegistry → Result SnapshotError (NodeRegistry × ℕ)
decode_registry_snapshot pointer size registry = do
  bytes ← non_null pointer invalid_size
  restored ← restored_from bytes size registry
  ok (restored, read_u32_le bytes 6)
