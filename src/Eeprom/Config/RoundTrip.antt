-- ===== src/Eeprom/Config/RoundTrip.antt =====
-- The factory credentials and the network configuration are read back as they were written.
use radio_sensors.Prelude.{
  ℕ, ◌≡◌, ◌≢◌, ◌≤◌, ◌+◌, List, none, some, arith, Bytes, AllBytes, IsByte, All, Bool, not, ◌&&◌,
  ◌||◌, false, if◌then◌else◌, ◌*◌, ◌^◌, refl, ==_iff, ==_refl, true, ◌<◌, ◌/◌, ◌%◌, ◌==◌, to_list,
  and_then,
}
use radio_sensors.Eeprom.{crc16_ccitt}
use radio_sensors.Eeprom.Checksum.{crc16_ccitt-IsU16}
use radio_sensors.Wire.{store, read_u16_le}
use radio_sensors.Eeprom.Config.{
  NetworkConfig, IsConfig, encode_network_config, decode_network_config, network_config_slot_size,
  config_bytes, credential_bytes, encode_factory_credentials, decode_factory_credentials,
  factory_credential_size, combined, config_slot, sealed_config, sealed_credentials,
  factory_trailer, complement,
}

-- The configuration that stands in a slot.
pub decode-sealed_config : (v : NetworkConfig) → IsConfig v → config_slot (sealed_config v) ≡ some v
unfolding decode_network_config
decode-sealed_config v c = ground (arith, crc16_ccitt-IsU16 (config_bytes v))

pub encode_network_config-sealed :
    (v : NetworkConfig) (buffer : List ℕ) (capacity : ℕ)
    → IsConfig v
    → network_config_slot_size ≤ capacity
    → encode_network_config v (some buffer) capacity ≡ some (store (sealed_config v) buffer)
unfolding encode_network_config
encode_network_config-sealed v buffer capacity c h = ground arith

pub sealed_config-AllBytes : (v : NetworkConfig) → IsConfig v → All IsByte (sealed_config v)
sealed_config-AllBytes v c = ground arith

-- Into any buffer of the slot's size or more, a configuration in range is encoded, and what stands
-- there is decoded to it.
pub decode-encode_network_config :
    (v : NetworkConfig) (buffer : List ℕ) (capacity : ℕ)
    → IsConfig v
    → network_config_slot_size ≤ capacity
    → and_then
        (encode_network_config v (some buffer) capacity)
        (λ written. decode_network_config (some written) network_config_slot_size)
      ≡ some v
unfolding encode_network_config decode_network_config
decode-encode_network_config v buffer capacity c h =
    ground (arith, crc16_ccitt-IsU16 (config_bytes v))

three_tests :
    (p q r : Bool)
    → p ≡ true
    → q ≡ true
    → r ≡ true
    → (p && q && r && true && true && true && true) ≡ true
three_tests p q r e f g = ground arith

accepted :
    {A : Type 0} (x : A) (h t z : Bool)
    → h ≡ true
    → t ≡ true
    → z ≡ false
    → (if not true || not h || not t || z then none else some x) ≡ some x
accepted x h t z e f g = ground arith

not_zero : (n : ℕ) → n ≢ 0 → (n == 0) ≡ false
not_zero n h = ground arith

two_bytes : (n : ℕ) → n < 65536 → n % 256 + n / 256 % 256 * 2 ^ 8 ≡ n
two_bytes n h = omega arith

module _ (key : Bytes 16) (buffer : List ℕ) where
  trailer-sealed_credentials : factory_trailer (store (sealed_credentials key) buffer) ≡ true
  trailer-sealed_credentials =
      three_tests _ _ _ (==_refl (complement (crc16_ccitt (credential_bytes key) % 256)))
        (==_refl (complement (crc16_ccitt (credential_bytes key) / 256 % 256)))
        ((==_iff (read_u16_le (store (sealed_credentials key) buffer) 24)
            (crc16_ccitt (credential_bytes key))).1
          (two_bytes (crc16_ccitt (credential_bytes key))
            (crc16_ccitt-IsU16 (credential_bytes key))))

  decode-sealed_credentials :
      combined 16 key ≢ 0
      → decode_factory_credentials
          (some (store (sealed_credentials key) buffer))
          factory_credential_size
        ≡ some key
  unfolding decode_factory_credentials
  decode-sealed_credentials c =
      accepted key true _ _ refl trailer-sealed_credentials (not_zero (combined 16 key) c)

-- Into any buffer of the block's size or more, a key that is not zero is encoded, and what stands
-- there is decoded to it.
pub decode-encode_factory_credentials :
    (key : Bytes 16) (buffer : List ℕ) (capacity : ℕ)
    → combined 16 key ≢ 0
    → factory_credential_size ≤ capacity
    → and_then
        (encode_factory_credentials key (some buffer) capacity)
        (λ written. decode_factory_credentials (some written) factory_credential_size)
      ≡ some key
unfolding encode_factory_credentials
decode-encode_factory_credentials key buffer capacity c h =
    ground (arith, decode-sealed_credentials key buffer c)

-- A slot of bytes that is decoded to a configuration is the one that it is encoded to, and the
-- configuration is in range.
pub encode-decode_network_config :
    (slot : Bytes 32) (v : NetworkConfig)
    → AllBytes 32 slot
    → decode_network_config (some (to_list 32 slot)) network_config_slot_size ≡ some v
    → IsConfig v × (sealed_config v ≡ to_list 32 slot)
unfolding decode_network_config
encode-decode_network_config slot v b e = ground (arith, crc16_ccitt-IsU16 (config_bytes v))
