-- ===== src/Examples/Stores.antt =====
-- The stores at a storage of two slots that reads back what it was given.
use mathlib.Core.Path.{subst}
use radio_sensors.Prelude.{
  ℕ, zero, suc, ◌≡◌, ◌≢◌, refl, inl, true, false, List, [], ◌∷◌, Option, some, none, arith, All,
  zeros, IsByte, ◌==◌, if◌then◌else◌, ◌%◌,
}
use radio_sensors.Prelude.Result.{ok, ◌>>=◌}
use radio_sensors.Gateway.Snapshot.{
  InstallationSecrets, crc32, crc32_from, validate_header, validate_secrets, encode_secrets,
  decode_secrets,
}
use radio_sensors.Gateway.Snapshot.RoundTrip.{sealed}
use radio_sensors.Gateway.Store.{
  slot_value, SlotStorage, Members, LoadStatus, load, save, newest_of, take_newer, is_newer, verify,
}
use radio_sensors.Gateway.Store.Save.{save_complete, save_interrupted}
use radio_sensors.Gateway.Store.Secrets.{secrets_codec, secrets_equal}
use radio_sensors.Examples.Registry.{two_nodes, two_nodes-IsRegistry}
use radio_sensors.Registry.{
  new_registry, reserve, reserve_new, find_first, allocate_node_id, allocate_from, add_record,
  same_uid,
}
use radio_sensors.Registry.History.{run, apply}
use radio_sensors.Registry.Snapshot.{
  nodes_bytes, registry_bytes, encode_registry_snapshot, decode_registry_snapshot,
  max_registry_snapshot_size,
}
use radio_sensors.Registry.Snapshot.RoundTrip.{IsStored, decode-encode_registry_snapshot}
use radio_sensors.Registry.Store.{
  load_registry, save_registry, next_generation, target_slot, loaded,
}
use radio_sensors.Registry.Store.Save.{save_registry_complete}

-- uint8_t
unfoldable as_bytes : List ℕ → List ℕ
as_bytes [] = []
as_bytes (b ∷ bs) = b % 256 ∷ as_bytes bs

as_bytes-IsByte : (bs : List ℕ) → All IsByte (as_bytes bs)
unfolding as_bytes
as_bytes-IsByte [] = tt
as_bytes-IsByte (b ∷ bs) = (omega arith, as_bytes-IsByte bs)

abbrev Slots : Type 0
Slots = Option (List ℕ) × Option (List ℕ)

abbrev slot_read : Slots → ℕ → Option (List ℕ)
slot_read s zero = s.0
slot_read s (suc zero) = s.1
slot_read s (suc (suc _)) = none

abbrev target_slot_of : Members InstallationSecrets → ℕ
target_slot_of = radio_sensors.Gateway.Store.target_slot

abbrev AreBytes : Option (List ℕ) → Type 0
AreBytes none = Unit {0}
AreBytes (some bytes) = All IsByte bytes

-- Two slots that hold bytes.
pub record TwoSlots : Type 0 where
  pub slots : Slots
  pub first_bytes : AreBytes slots.0
  pub second_bytes : AreBytes slots.1

abbrev write_slot : TwoSlots → ℕ → List ℕ → TwoSlots
write_slot s zero bytes = record {
  slots = (some (as_bytes bytes), s.slots.1);
  first_bytes = as_bytes-IsByte bytes;
  second_bytes = s.second_bytes;
}
write_slot s (suc zero) bytes = record {
  slots = (s.slots.0, some (as_bytes bytes));
  first_bytes = s.first_bytes;
  second_bytes = as_bytes-IsByte bytes;
}
write_slot s (suc (suc _)) bytes = s

read_other :
    (s : TwoSlots) (i j : ℕ) (bytes : List ℕ)
    → j ≢ i
    → slot_read (write_slot s i bytes).slots j ≡ slot_read s.slots j
read_other s zero zero bytes d = absurd (d refl)
read_other s zero (suc zero) bytes d = refl
read_other s zero (suc (suc j)) bytes d = refl
read_other s (suc zero) zero bytes d = refl
read_other s (suc zero) (suc zero) bytes d = absurd (d refl)
read_other s (suc zero) (suc (suc j)) bytes d = refl
read_other s (suc (suc i)) j bytes d = refl

some_bytes : (o : Option (List ℕ)) (bytes : List ℕ) → AreBytes o → o ≡ some bytes → All IsByte bytes
some_bytes o bytes v e = subst AreBytes e v

read_bytes_ok :
    (s : TwoSlots) (i : ℕ) (bytes : List ℕ) → slot_read s.slots i ≡ some bytes → All IsByte bytes
read_bytes_ok s zero bytes e = some_bytes s.slots.0 bytes s.first_bytes e
read_bytes_ok s (suc zero) bytes e = some_bytes s.slots.1 bytes s.second_bytes e
read_bytes_ok s (suc (suc i)) bytes e = absurd (ground (arith, e))

abbrev flash : SlotStorage
flash = record {
  State = TwoSlots;
  exists = λ s i. true;
  read = λ s i. slot_read s.slots i;
  write = λ s i bytes. (write_slot s i bytes, true);
  read-write_other = λ s i j bytes d. read_other s i j bytes d;
  read-IsByte = λ s i bytes e. read_bytes_ok s i bytes e;
}

abbrev erased : TwoSlots
erased = record { slots = (none, none); first_bytes = tt; second_bytes = tt }

abbrev secrets : InstallationSecrets
secrets = record {
  installation_key_present = true;
  device_secret_present = false;
  operational_network_id = 100;
  installation_key = (7, zeros 15);
  device_secret = zeros 32;
}

secrets_saved :
    (save secrets_codec flash (load secrets_codec flash erased).0 erased secrets).2 ≡ true
unfolding save load verify newest_of take_newer as_bytes encode_secrets decode_secrets
    validate_secrets validate_header crc32 crc32_from secrets_equal
secrets_saved = refl

save_complete_example :
    ((load secrets_codec flash
        (save secrets_codec flash (load secrets_codec flash erased).0 erased secrets).1).0
      ≡ (save secrets_codec flash (load secrets_codec flash erased).0 erased secrets).0)
    × ((save secrets_codec flash (load secrets_codec flash erased).0 erased secrets).0.current
        ≡ secrets)
save_complete_example = save_complete secrets_codec flash erased secrets secrets_saved

-- The storage after the secrets were saved, and with what a write that is cut off may leave.
abbrev saved_once : TwoSlots
saved_once = (save secrets_codec flash (load secrets_codec flash erased).0 erased secrets).1

abbrev cut_off : TwoSlots
cut_off = write_slot saved_once 1 (82 ∷ 83 ∷ [])

saved_loaded : (load secrets_codec flash saved_once).0.is_loaded ≡ true
unfolding save load verify newest_of take_newer as_bytes encode_secrets decode_secrets
    validate_secrets validate_header crc32 crc32_from secrets_equal
saved_loaded = refl

other_kept :
    slot_read cut_off.slots
      (if target_slot_of (load secrets_codec flash saved_once).0 == 0 then 1 else 0)
    ≡ slot_read saved_once.slots
        (if target_slot_of (load secrets_codec flash saved_once).0 == 0 then 1 else 0)
unfolding save load verify newest_of take_newer as_bytes encode_secrets decode_secrets
    validate_secrets validate_header crc32 crc32_from secrets_equal
other_kept = refl

target_lost :
    slot_value secrets_codec flash cut_off (target_slot_of (load secrets_codec flash saved_once).0)
    ≡ none
unfolding save load verify newest_of take_newer as_bytes encode_secrets decode_secrets
    validate_secrets validate_header crc32 crc32_from secrets_equal
target_lost = refl

save_interrupted_example : load secrets_codec flash cut_off ≡ load secrets_codec flash saved_once
save_interrupted_example =
    save_interrupted secrets_codec flash saved_once cut_off saved_loaded other_kept
      (inl target_lost)

two_nodes-IsStored : All IsStored two_nodes.live
unfolding run apply reserve reserve_new find_first allocate_node_id allocate_from add_record
    same_uid new_registry
two_nodes-IsStored = (
  record { profile_u16 = omega arith; nonce_u32 = omega arith },
  (record { profile_u16 = omega arith; nonce_u32 = omega arith }, tt),
)

decode-encode_registry_snapshot_example :
    (encode_registry_snapshot two_nodes 7 (some []) max_registry_snapshot_size >>= λ sent.
    decode_registry_snapshot (some sent.0) sent.1 new_registry)
    ≡ ok (two_nodes, 7)
decode-encode_registry_snapshot_example =
    decode-encode_registry_snapshot two_nodes new_registry 7 [] max_registry_snapshot_size
      two_nodes-IsRegistry two_nodes-IsStored (omega arith) (omega arith)

read_back :
    slot_read
      (write_slot erased
        (target_slot (load_registry flash erased).0)
        (sealed (registry_bytes two_nodes (next_generation (load_registry flash erased).0)))).slots
      (target_slot (load_registry flash erased).0)
    ≡ some (sealed (registry_bytes two_nodes (next_generation (load_registry flash erased).0)))
unfolding load_registry newest_of take_newer as_bytes run apply reserve reserve_new find_first
    allocate_node_id allocate_from add_record same_uid new_registry nodes_bytes crc32 crc32_from
read_back = refl

save_registry_complete_example :
    ((save_registry flash (load_registry flash erased).0 erased two_nodes).2 ≡ true)
    × (load_registry flash (save_registry flash (load_registry flash erased).0 erased two_nodes).1
        ≡ (
          (save_registry flash (load_registry flash erased).0 erased two_nodes).0,
          two_nodes,
          loaded,
        ))
save_registry_complete_example =
    save_registry_complete flash erased two_nodes two_nodes-IsRegistry two_nodes-IsStored refl
      read_back
