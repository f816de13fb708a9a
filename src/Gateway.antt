-- ===== src/Gateway.antt =====
-- shared/RadioProtocol: what the gateway keeps and stores. The command book, the users, and the
-- snapshots that hold them. This file has the helpers of GatewayStorage.cpp that they share.
pub mod Erase
pub mod Book
pub mod Snapshot
pub mod Store
pub mod Users
use radio_sensors.Prelude.{ℕ, ◌&&◌, Bool, true, List, [], ◌∷◌, drop, leb, ◌==◌, Bytes, to_list}

-- CodecStatus, but for Ok.
pub data CodecError : Type 0 where
  output_too_small invalid_size invalid_magic unsupported_version crc_mismatch : CodecError
  invalid_reserved_data invalid_flags invalid_string invalid_value invalid_count : CodecError
  duplicate_value missing_admin : CodecError

abbrev pub all_zero : List ℕ → Bool
all_zero [] = true
all_zero (b ∷ bs) = b == 0 && all_zero bs

abbrev pub zero_padded : (n : ℕ) → Bytes n → ℕ → Bool
zero_padded capacity bytes used = leb used capacity && all_zero (drop used (to_list capacity bytes))
