-- ===== src/Eeprom/Config.antt =====
-- node/lib/NodeCore/include/NodeStorage.h: the factory credentials and the network configuration,
-- with the store that keeps the configuration in two slots.
pub mod RoundTrip
pub mod Save
use radio_sensors.Prelude.{
  ℕ, zero, suc, ◌+◌, ◌-◌, ◌/◌, ◌%◌, ◌≢◌, ◌<◌, ◌≤◌, bit_or, Bool, true, not, ◌&&◌, ◌||◌, List, [],
  ◌∷◌, ◌++◌, Option, none, some, leb, ◌==◌, if◌then◌else◌, byte_at, Bytes, IsByte, IsU32, AllBytes,
  zeros, to_list, read_bytes, take, drop,
}
use radio_sensors.Wire.{store, write_u16_le, write_u32_le, read_u16_le, read_u32_le}
use radio_sensors.Eeprom.{
  Storage, StoreState, Saved, crc16_ccitt, choose_slot, next_generation, next_slot, holding,
  new_store, commit, writes_from, read_block,
}

abbrev pub factory_credential_size : ℕ
factory_credential_size = 32

abbrev pub network_config_slot_size : ℕ
network_config_slot_size = 32

abbrev pub network_config_slot_a : ℕ
network_config_slot_a = 0x00

abbrev pub network_config_slot_b : ℕ
network_config_slot_b = 0x20

pub data ProvisioningState : Type 0 where
  provisional active : ProvisioningState

abbrev pub state_code : ProvisioningState → ℕ
state_code provisional = 1
state_code active = 2

-- `static_cast<ProvisioningState>` at a valid value.
abbrev pub state_of : ℕ → ProvisioningState
state_of zero = provisional
state_of (suc zero) = provisional
state_of (suc (suc _)) = active

pub record NetworkConfig : Type 0 where
  pub generation : ℕ
  pub state : ProvisioningState
  pub node_id : ℕ
  pub gateway_id : ℕ
  pub network_id : ℕ
  pub installation_key : Bytes 16
  pub request_nonce : ℕ

-- The loop that combines the bytes of a key; FactoryCredentials is its key.
unfoldable pub combined : (n : ℕ) → Bytes n → ℕ
combined zero u = 0
combined (suc n) u = bit_or u.0 (combined n u.1)

-- `static_cast<uint8_t>(~x)` at a byte.
abbrev pub complement : ℕ → ℕ
complement x = 255 - x % 256

-- 'R' 'S' 'F' 'C', the schema, the type, and two bytes that are zero.
abbrev pub credential_bytes : Bytes 16 → List ℕ
credential_bytes key = 82 ∷ 83 ∷ 70 ∷ 67 ∷ 1 ∷ 1 ∷ 0 ∷ 0 ∷ to_list 16 key

abbrev pub sealed_credentials : Bytes 16 → List ℕ
sealed_credentials key =
    credential_bytes key
    ++ (crc16_ccitt (credential_bytes key) % 256
        ∷ crc16_ccitt (credential_bytes key) / 256 % 256
        ∷ complement (crc16_ccitt (credential_bytes key) % 256)
        ∷ complement (crc16_ccitt (credential_bytes key) / 256 % 256)
        ∷ 0
        ∷ 0
        ∷ 0
        ∷ 0
        ∷ [])

unfoldable pub encode_factory_credentials : Bytes 16 → Option (List ℕ) → ℕ → Option (List ℕ)
encode_factory_credentials key none capacity = none
encode_factory_credentials key (some buffer) capacity =
    if not (leb factory_credential_size capacity) || combined 16 key == 0
    then none
    else some (store (sealed_credentials key) buffer)

abbrev pub factory_header : List ℕ → Bool
factory_header input =
    byte_at input 0 == 82
    && byte_at input 1 == 83
    && byte_at input 2 == 70
    && byte_at input 3 == 67
    && byte_at input 4 == 1
    && byte_at input 5 == 1
    && byte_at input 6 == 0
    && byte_at input 7 == 0

abbrev pub factory_trailer : List ℕ → Bool
factory_trailer input =
    byte_at input 26 == complement (byte_at input 24)
    && byte_at input 27 == complement (byte_at input 25)
    && read_u16_le input 24 == crc16_ccitt (take 24 input)
    && byte_at input 28 == 0
    && byte_at input 29 == 0
    && byte_at input 30 == 0
    && byte_at input 31 == 0

unfoldable pub decode_factory_credentials : Option (List ℕ) → ℕ → Option (Bytes 16)
decode_factory_credentials none size = none
decode_factory_credentials (some input) size =
    if not (size == factory_credential_size)
      || not (factory_header input)
      || not (factory_trailer input)
      || combined 16 (read_bytes 16 input 8) == 0
    then none
    else some (read_bytes 16 input 8)

-- The test on the two node IDs that both directions make.
abbrev pub bad_ids : ℕ → ℕ → Bool
bad_ids node gateway = node == 0 || node == 255 || gateway == 0 || gateway == 255 || node == gateway

-- 'R' 'N' and the schema, then the fields; the bytes before the checksum.
abbrev pub config_bytes : NetworkConfig → List ℕ
config_bytes v =
    82
    ∷ 78
    ∷ 2
    ∷ v.generation
    ∷ state_code v.state
    ∷ v.node_id
    ∷ v.gateway_id
    ∷ v.network_id
    ∷ (to_list 16 v.installation_key ++ (write_u32_le v.request_nonce ++ (0 ∷ 0 ∷ [])))

-- A slot: the fields and the checksum.
abbrev pub sealed_config : NetworkConfig → List ℕ
sealed_config v = config_bytes v ++ write_u16_le (crc16_ccitt (config_bytes v))

-- `state` is one of the two enumerators by its type, so the test on it is not written out.
unfoldable pub encode_network_config : NetworkConfig → Option (List ℕ) → ℕ → Option (List ℕ)
encode_network_config value none capacity = none
encode_network_config value (some buffer) capacity =
    if not (leb network_config_slot_size capacity) || bad_ids value.node_id value.gateway_id
    then none
    else some (store (sealed_config value) buffer)

unfoldable pub decode_network_config : Option (List ℕ) → ℕ → Option NetworkConfig
decode_network_config none size = none
decode_network_config (some input) size =
    if not (size == network_config_slot_size)
      || not (byte_at input 0 == 82 && byte_at input 1 == 78 && byte_at input 2 == 2)
      || not (read_u16_le input 30 == crc16_ccitt (take 30 input))
      || not (byte_at input 4 == 1 || byte_at input 4 == 2)
      || bad_ids (byte_at input 5) (byte_at input 6)
      || not (byte_at input 28 == 0 && byte_at input 29 == 0)
    then none
    else some (record {
      generation = byte_at input 3;
      state = state_of (byte_at input 4);
      node_id = byte_at input 5;
      gateway_id = byte_at input 6;
      network_id = byte_at input 7;
      installation_key = read_bytes 16 input 8;
      request_nonce = read_u32_le input 24;
    })

-- The bytes of a slot, and an array of that size that was just cleared.
abbrev pub blank_slot : List ℕ
blank_slot = to_list 32 (zeros 32)

-- The writes of `save`: both magic bytes are cleared, the rest is written, then the magic bytes.
unfoldable pub config_writes : ℕ → List ℕ → List (ℕ × ℕ)
config_writes address bytes =
    commit address
      ((address + 1, 0)
        ∷ (writes_from (address + 2) (drop 2 bytes) ++ ((address + 1, byte_at bytes 1) ∷ [])))
      (byte_at bytes 0)

-- The decoding of one slot.
abbrev pub config_slot : List ℕ → Option NetworkConfig
config_slot bytes = decode_network_config (some bytes) network_config_slot_size

-- `save` behind the test on `initialized_`.
unfoldable pub save_from : StoreState → NetworkConfig → Option (Saved NetworkConfig)
save_from now v =
    let value = record v { generation = next_generation now } in
    let address = if next_slot now == 0 then network_config_slot_a else network_config_slot_b in
    elim (encode_network_config value (some blank_slot) network_config_slot_size) [
      | none ↦ none
      | some bytes ↦ some (record {
        writes = config_writes address bytes;
        state = holding (next_slot now) value.generation;
        value = value;
      })
    ]

-- NetworkConfigStore and FactoryCredentialStore.
module _ (E : Storage) where
  unfoldable pub load_credentials : E.State → Option (Bytes 16)
  load_credentials s =
      decode_factory_credentials (some (read_block E s 0 factory_credential_size))
        factory_credential_size

  unfoldable pub load_config : E.State → StoreState × Option NetworkConfig
  load_config s =
      choose_slot (λ v. v.generation)
        (config_slot (read_block E s network_config_slot_a network_config_slot_size))
        (config_slot (read_block E s network_config_slot_b network_config_slot_size))

  unfoldable pub save_config : StoreState → E.State → NetworkConfig → Option (Saved NetworkConfig)
  unfolding save_from
  save_config st s v = save_from (if st.initialized then st else (load_config s).0) v

  unfoldable pub factory_reset : E.State → E.State × StoreState
  factory_reset s = (
    E.update
        (E.update (E.update (E.update s network_config_slot_a 0) (network_config_slot_a + 1) 0)
          network_config_slot_b 0)
        (network_config_slot_b + 1) 0,
    record new_store { initialized = true },
  )

-- A configuration whose fields are in range.
pub record IsConfig (v : NetworkConfig) : Type 0 where
  pub bytes : IsByte v.generation × IsByte v.network_id
  pub node_id : (v.node_id ≢ 0) × (v.node_id < 255)
  pub gateway_id : (v.gateway_id ≢ 0) × (v.gateway_id < 255)
  pub ids_differ : v.node_id ≢ v.gateway_id
  pub key : AllBytes 16 v.installation_key
  pub nonce_u32 : IsU32 v.request_nonce
