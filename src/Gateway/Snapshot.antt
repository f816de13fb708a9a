-- ===== src/Gateway/Snapshot.antt =====
-- shared/RadioProtocol/src/GatewayStorage.cpp: the header and the checksum of a snapshot, and the
-- installation secrets.
pub mod RoundTrip
use radio_sensors.Prelude.{
  ℕ, zero, suc, ◌+◌, ◌-◌, ◌*◌, ◌/◌, ◌%◌, ◌^◌, ◌≤◌, ◌≡◌, ◌≢◌, bit_and, bit_or, bit_xor, Bool, true,
  false, not, ◌&&◌, ◌||◌, List, [], ◌∷◌, ◌++◌, Option, none, some, leb, ◌==◌, if◌then◌else◌,
  byte_at, Bytes, zeros, to_list, read_bytes, take, drop, IsByte, IsU32, AllBytes, arith,
}
use radio_sensors.Prelude.Result.{Result, ok, err, ◌>>=◌, ◌>>◌, check, non_null}
use radio_sensors.Wire.{store, write_u16_le, write_u32_le, read_u16_le, read_u32_le}
use radio_sensors.Gateway.{
  CodecError, all_zero, output_too_small, invalid_size, invalid_magic, unsupported_version,
  crc_mismatch, invalid_flags, invalid_value,
}

abbrev pub storage_version : ℕ
storage_version = 2

-- One round of the inner loop of `crc32`; the mask is all ones or zero.
abbrev pub crc32_bit : ℕ → ℕ
crc32_bit crc = if bit_and crc 1 == 0 then crc / 2 else bit_xor (crc / 2) 0xedb88320

abbrev pub crc32_bits : ℕ → ℕ → ℕ
crc32_bits zero crc = crc
crc32_bits (suc n) crc = crc32_bits n (crc32_bit crc)

unfoldable pub crc32_from : ℕ → List ℕ → ℕ
crc32_from crc [] = crc
crc32_from crc (b ∷ bs) = crc32_from (crc32_bits 8 (bit_xor crc b)) bs

-- `~` on a uint32_t.
unfoldable pub crc32 : List ℕ → ℕ
unfolding crc32_from
crc32 bytes = 2 ^ 32 - 1 - crc32_from 0xffffffff bytes % 2 ^ 32

-- write64 and read64
abbrev pub write_u64_le : ℕ → List ℕ
write_u64_le value = write_u32_le (value % 2 ^ 32) ++ write_u32_le (value / 2 ^ 32)

abbrev pub read_u64_le : List ℕ → ℕ → ℕ
read_u64_le bytes i = read_u32_le bytes i + read_u32_le bytes (i + 4) * 2 ^ 32

-- writeHeader
abbrev pub header_bytes : Bytes 4 → ℕ → ℕ → List ℕ
header_bytes magic generation size =
    to_list 4 magic
    ++ (write_u16_le storage_version ++ (write_u32_le generation ++ write_u16_le size))

abbrev pub magic_at : Bytes 4 → List ℕ → Bool
magic_at magic bytes =
    byte_at bytes 0 == magic.0
    && byte_at bytes 1 == magic.1.0
    && byte_at bytes 2 == magic.1.1.0
    && byte_at bytes 3 == magic.1.1.1.0

-- validateHeader: the snapshot's bytes and its generation.
unfoldable pub validate_header : Option (List ℕ) → ℕ → Bytes 4 → ℕ → Result CodecError (List ℕ × ℕ)
validate_header pointer size magic expected = do
  bytes ← non_null pointer invalid_size
  check (size == expected && read_u16_le bytes 10 == expected) invalid_size
  check (magic_at magic bytes) invalid_magic
  check (read_u16_le bytes 4 == storage_version) unsupported_version
  check (read_u32_le bytes (size - 4) == crc32 (take (size - 4) bytes)) crc_mismatch
  ok (bytes, read_u32_le bytes 6)

abbrev pub secrets_snapshot_size : ℕ
secrets_snapshot_size = 67

-- 'R' 'S' 'G' 'S'
abbrev pub secrets_magic : Bytes 4
secrets_magic = (82, (83, (71, (83, tt))))

pub record InstallationSecrets : Type 0 where
  pub installation_key_present : Bool
  pub device_secret_present : Bool
  pub operational_network_id : ℕ
  pub installation_key : Bytes 16
  pub device_secret : Bytes 32

unfoldable pub validate_secrets : InstallationSecrets → Result CodecError (Unit {0})
validate_secrets v = do
  check (not (v.operational_network_id == 0)) invalid_value
  check (v.installation_key_present || all_zero (to_list 16 v.installation_key)) invalid_value
  check (v.device_secret_present || all_zero (to_list 32 v.device_secret)) invalid_value

abbrev pub secrets_flags : InstallationSecrets → ℕ
secrets_flags v =
    (if v.installation_key_present then 1 else 0) + (if v.device_secret_present then 2 else 0)

abbrev pub secrets_bytes : InstallationSecrets → ℕ → List ℕ
secrets_bytes v generation =
    header_bytes secrets_magic generation secrets_snapshot_size
    ++ (write_u16_le (secrets_flags v)
        ++ (v.operational_network_id
            ∷ (to_list 16 v.installation_key ++ to_list 32 v.device_secret)))

unfoldable pub encode_secrets :
    InstallationSecrets → ℕ → Option (List ℕ) → ℕ → Result CodecError (List ℕ)
encode_secrets v generation output capacity = do
  buffer ← non_null output output_too_small
  check (leb secrets_snapshot_size capacity) output_too_small
  validate_secrets v
  ok (
      store (secrets_bytes v generation ++ write_u32_le (crc32 (secrets_bytes v generation)))
        buffer)

-- `flags & ~3` is not 0 from 4 on; the bits of the other flags are its remainders.
unfoldable pub decode_secrets : Option (List ℕ) → ℕ → Result CodecError (InstallationSecrets × ℕ)
decode_secrets pointer size = do
  header ← validate_header pointer size secrets_magic secrets_snapshot_size
  let bytes = header.0
  let flags = read_u16_le bytes 12
  check (leb flags 3) invalid_flags
  let candidate : InstallationSecrets = record {
    installation_key_present = not (flags % 2 == 0);
    device_secret_present = not (flags / 2 % 2 == 0);
    operational_network_id = byte_at bytes 14;
    installation_key = read_bytes 16 bytes 15;
    device_secret = read_bytes 32 bytes 31;
  }
  validate_secrets candidate
  ok (candidate, header.1)
