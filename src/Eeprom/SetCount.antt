-- ===== src/Eeprom/SetCount.antt =====
-- node/lib/NodeCore/include/CounterStorage.h: the result of the last SET_COUNT command, and the
-- store that keeps it in two slots.
pub mod Save
use radio_sensors.Prelude.{
  ℕ, zero, suc, ◌+◌, ◌-◌, ◌%◌, ◌<◌, ◌≡◌, Bool, true, not, ◌&&◌, ◌||◌, List, [], ◌∷◌, ◌++◌, Option,
  none, some, leb, ◌==◌, if◌then◌else◌, byte_at, IsByte, IsU16, IsU32, zeros, to_list, take, drop,
}
use radio_sensors.Wire.{store, write_u16_le, write_u32_le, read_u16_le, read_u32_le}
use radio_sensors.Eeprom.{
  Storage, StoreState, Saved, crc16_ccitt, choose_slot, next_generation, next_slot, holding,
  writes_from, commit, read_block,
}

abbrev pub set_count_slot_size : ℕ
set_count_slot_size = 16

abbrev pub set_count_slot_a : ℕ
set_count_slot_a = 0x40

abbrev pub set_count_slot_b : ℕ
set_count_slot_b = set_count_slot_a + set_count_slot_size

pub data SetCountStatus : Type 0 where
  pending applied : SetCountStatus

abbrev pub set_count_code : SetCountStatus → ℕ
set_count_code pending = 1
set_count_code applied = 2

-- `static_cast<SetCountStatus>` at a valid value.
abbrev pub set_count_status_of : ℕ → SetCountStatus
set_count_status_of zero = pending
set_count_status_of (suc zero) = pending
set_count_status_of (suc (suc _)) = applied

pub record SetCountResult : Type 0 where
  pub generation : ℕ
  pub status : SetCountStatus
  pub command_id : ℕ
  pub old_count : ℕ
  pub applied_count : ℕ

-- The bytes before the checksum, and the slot.
abbrev pub set_count_bytes : SetCountResult → List ℕ
set_count_bytes v =
    0xc7
    ∷ 1
    ∷ v.generation
    ∷ set_count_code v.status
    ∷ (write_u16_le v.command_id ++ (write_u32_le v.old_count ++ write_u32_le v.applied_count))

abbrev pub sealed_set_count : SetCountResult → List ℕ
sealed_set_count v = set_count_bytes v ++ write_u16_le (crc16_ccitt (set_count_bytes v))

-- `status` is one of the two enumerators by its type, so the test on it is not written out.
unfoldable pub encode_set_count_result : SetCountResult → Option (List ℕ) → ℕ → Option (List ℕ)
encode_set_count_result value none capacity = none
encode_set_count_result value (some buffer) capacity =
    if not (leb set_count_slot_size capacity)
    then none
    else some (store (sealed_set_count value) buffer)

unfoldable pub decode_set_count_result : Option (List ℕ) → ℕ → Option SetCountResult
decode_set_count_result none size = none
decode_set_count_result (some input) size =
    if not (size == set_count_slot_size)
      || not (byte_at input 0 == 0xc7 && byte_at input 1 == 1)
      || not (read_u16_le input 14 == crc16_ccitt (take 14 input))
      || not (byte_at input 3 == 1 || byte_at input 3 == 2)
    then none
    else some (record {
      generation = byte_at input 2;
      status = set_count_status_of (byte_at input 3);
      command_id = read_u16_le input 4;
      old_count = read_u32_le input 6;
      applied_count = read_u32_le input 10;
    })

-- The decoding of one slot.
abbrev pub set_count_slot : List ℕ → Option SetCountResult
set_count_slot bytes = decode_set_count_result (some bytes) set_count_slot_size

-- The writes of `save`: the first byte is cleared, the rest is written, then the first byte.
unfoldable pub set_count_writes : ℕ → List ℕ → List (ℕ × ℕ)
set_count_writes address bytes =
    commit address (writes_from (address + 1) (drop 1 bytes)) (byte_at bytes 0)

-- `save` behind the test on `initialized_`.
unfoldable pub save_set_count_from : StoreState → SetCountResult → Option (Saved SetCountResult)
save_set_count_from now v =
    let value = record v { generation = next_generation now } in
    let address = if next_slot now == 0 then set_count_slot_a else set_count_slot_b in
    elim (encode_set_count_result value (some (to_list 16 (zeros 16))) set_count_slot_size) [
      | none ↦ none
      | some bytes ↦ some (record {
        writes = set_count_writes address bytes;
        state = holding (next_slot now) value.generation;
        value = value;
      })
    ]

-- SetCountStore.
module _ (E : Storage) where
  unfoldable pub load_set_count : E.State → StoreState × Option SetCountResult
  load_set_count s =
      choose_slot (λ v. v.generation)
        (set_count_slot (read_block E s set_count_slot_a set_count_slot_size))
        (set_count_slot (read_block E s set_count_slot_b set_count_slot_size))

  unfoldable pub save_set_count :
      StoreState → E.State → SetCountResult → Option (Saved SetCountResult)
  unfolding save_set_count_from
  save_set_count st s v =
      save_set_count_from (if st.initialized then st else (load_set_count s).0) v

-- A result whose fields are in range.
pub record IsResult (v : SetCountResult) : Type 0 where
  pub byte : IsByte v.generation
  pub id_u16 : IsU16 v.command_id
  pub counts_u32 : IsU32 v.old_count × IsU32 v.applied_count
