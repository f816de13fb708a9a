-- ===== src/Eeprom/SetCount/Save.antt =====
-- SetCountStore: a save that is cut off leaves the old result, a complete one the new.
use radio_sensors.Prelude.{
  ℕ, ◌+◌, ◌≤◌, ◌<◌, ◌≡◌, refl, sym, ap, ◌∙◌, true, List, ◌∷◌, none, some, some-injective, arith,
  All, length, take, drop, IsByte, if◌then◌else◌, ◌==◌, and_then,
}
use radio_sensors.Eeprom.{
  Storage, StoreState, Saved, perform, read_block, writes_from, commit, next_slot, next_generation,
  holding,
}
use radio_sensors.Eeprom.Checksum.{crc16_ccitt-IsU16}
use radio_sensors.Eeprom.Choice.{next_generation-IsByte}
use radio_sensors.Eeprom.Slots.{Behind, read_block-writes_from, writes_from-Behind}
use radio_sensors.Eeprom.Commit.{load_slots-interrupted, load_slots_complete, read_block-last}
use radio_sensors.Eeprom.SetCount.{
  SetCountResult, IsResult, set_count_slot, set_count_writes, load_set_count, save_set_count,
  save_set_count_from, sealed_set_count, set_count_bytes, encode_set_count_result,
  decode_set_count_result, set_count_slot_size, set_count_slot_a, set_count_slot_b,
}

-- Into any buffer of the slot's size or more, a result in range is encoded, and what stands there
-- is decoded to it.
pub decode-encode_set_count_result :
    (v : SetCountResult) (buffer : List ℕ) (capacity : ℕ)
    → IsResult v
    → set_count_slot_size ≤ capacity
    → and_then
        (encode_set_count_result v (some buffer) capacity)
        (λ written. decode_set_count_result (some written) set_count_slot_size)
      ≡ some v
unfolding encode_set_count_result decode_set_count_result
decode-encode_set_count_result v buffer capacity c h =
    ground (arith, crc16_ccitt-IsU16 (set_count_bytes v))

decode-sealed_set_count :
    (v : SetCountResult) → IsResult v → set_count_slot (sealed_set_count v) ≡ some v
unfolding decode_set_count_result
decode-sealed_set_count v c = ground (arith, crc16_ccitt-IsU16 (set_count_bytes v))

sealed_set_count-AllBytes : (v : SetCountResult) → IsResult v → All IsByte (sealed_set_count v)
sealed_set_count-AllBytes v c = ground arith

set_count_slot-cleared : (bytes : List ℕ) → set_count_slot (0 ∷ bytes) ≡ none
unfolding decode_set_count_result
set_count_slot-cleared bytes = refl

save_set_count_from_lem :
    (now : StoreState) (v : SetCountResult)
    → save_set_count_from now v
      ≡ some (record {
        writes =
            set_count_writes
              (if next_slot now == 0 then set_count_slot_a else set_count_slot_b)
              (sealed_set_count (record v { generation = next_generation now }));
        state = holding (next_slot now) (next_generation now);
        value = record v { generation = next_generation now };
      })
unfolding save_set_count_from encode_set_count_result
save_set_count_from_lem now v = refl

abbrev rest_writes : ℕ → SetCountResult → List (ℕ × ℕ)
rest_writes address v = writes_from (address + 1) (drop 1 (sealed_set_count v))

rest_writes-Behind :
    (address : ℕ) (v : SetCountResult) → All (Behind address 16) (rest_writes address v)
rest_writes-Behind address v =
    writes_from-Behind address 16 (address + 1) (drop 1 (sealed_set_count v)) (omega arith)
      (omega arith)

-- The members are those of the last load, or no load was made.
abbrev pub AgreesCount : (E : Storage) → StoreState → E.State → Type 0
AgreesCount E st s = st.initialized ≡ true → st ≡ (load_set_count E s).0

module _ (E : Storage) where
  set_count_slot-generation :
      (s : E.State) (address : ℕ) (x : SetCountResult)
      → set_count_slot (read_block E s address 16) ≡ some x
      → x.generation < 256
  unfolding decode_set_count_result
  set_count_slot-generation s address x e = ground (arith, E.read_byte s (address + 1 + 1))

  -- The slot after the whole save.
  slot_complete :
      (address : ℕ) (v : SetCountResult) (s : E.State)
      → IsResult v
      → read_block E (perform E (commit address (rest_writes address v) 0xc7) s) address 16
        ≡ sealed_set_count v
  unfolding commit
  slot_complete address v s c =
      read_block-last E ((address, 0) ∷ rest_writes address v) s address 15 0xc7 (omega arith)
      ∙ ap (λ l. 0xc7 ∷ l)
          (read_block-writes_from E (drop 1 (sealed_set_count v)) (E.update s address 0)
            (address + 1) (sealed_set_count-AllBytes v c).1)

  current-AgreesCount :
      (st : StoreState) (s : E.State)
      → AgreesCount E st s
      → (if st.initialized then st else (load_set_count E s).0) ≡ (load_set_count E s).0
  current-AgreesCount st s g = ground arith

  save_set_count-atomic :
      (st : StoreState) (s : E.State) (v : SetCountResult)
      → IsResult v
      → AgreesCount E st s
      → (saved : Saved SetCountResult) × (save_set_count E st s v ≡ some saved)
        × (saved.value ≡ record v { generation = next_generation (load_set_count E s).0 })
        × ((k : ℕ)
            → k < length saved.writes
            → (load_set_count E (perform E (take k saved.writes) s)).1 ≡ (load_set_count E s).1)
        × (load_set_count E (perform E saved.writes s) ≡ (saved.state, some saved.value))
  unfolding save_set_count load_set_count set_count_writes
  save_set_count-atomic st s v c g = (
    _,
    ap (λ now. save_set_count_from now v) (current-AgreesCount st s g)
        ∙ save_set_count_from_lem (load_set_count E s).0 v,
    refl,
    (λ k lt.
        load_slots-interrupted E (λ x. x.generation) set_count_slot 15 64 80 k rest 0xc7 s
          (omega arith) set_count_slot-cleared (rest_writes-Behind address new) lt),
    load_slots_complete E (λ x. x.generation) set_count_slot 15 64 80 rest 0xc7 s new (omega arith)
        set_count_slot-generation (rest_writes-Behind address new)
        (ap set_count_slot (slot_complete address new s ranged)
          ∙ decode-sealed_set_count new ranged)
        refl,
  )
    where
      new : SetCountResult
      new = record v { generation = next_generation (load_set_count E s).0 }

      ranged : IsResult new
      ranged = record {
        byte = next_generation-IsByte (load_set_count E s).0;
        id_u16 = c.id_u16;
        counts_u32 = c.counts_u32;
      }

      address : ℕ
      address = if next_slot (load_set_count E s).0 == 0 then set_count_slot_a else set_count_slot_b

      rest : List (ℕ × ℕ)
      rest = rest_writes address new

  -- From a store that agrees with the storage, a result in range is saved under the next
  -- generation, and after all the writes a load finds it, with the members that the save left.
  pub save_set_count_complete :
      (st : StoreState) (s : E.State) (v : SetCountResult)
      → IsResult v
      → AgreesCount E st s
      → (saved : Saved SetCountResult) × (save_set_count E st s v ≡ some saved)
        × (saved.value ≡ record v { generation = next_generation (load_set_count E s).0 })
        × (load_set_count E (perform E saved.writes s) ≡ (saved.state, some saved.value))
  save_set_count_complete st s v c g =
      let r = save_set_count-atomic st s v c g in (r.0, r.1, r.2, r.4)

  -- A save of a result in range, from a store that agrees with the storage, that stops before its
  -- last write leaves the result that a load finds as it was.
  pub save_set_count-interrupted :
      (st : StoreState) (s : E.State) (v : SetCountResult) (saved : Saved SetCountResult) (k : ℕ)
      → IsResult v
      → AgreesCount E st s
      → save_set_count E st s v ≡ some saved
      → k < length saved.writes
      → (load_set_count E (perform E (take k saved.writes) s)).1 ≡ (load_set_count E s).1
  save_set_count-interrupted st s v saved k c g e lt =
      let r = save_set_count-atomic st s v c g in
      let same = some-injective (sym r.1 ∙ e) in
      ap (λ w. (load_set_count E (perform E (take k w.writes) s)).1) (sym same)
      ∙ r.3 k (omega (arith, ap (λ w. length w.writes) same))
