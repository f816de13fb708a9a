-- ===== src/Eeprom/Counter.antt =====
-- node/lib/NodeCore/include/CounterStorage.h: CounterStore, which keeps the count in a ring of
-- records, each with a sequence number from 0 to 254.
pub mod Ring
pub mod Save
pub mod Interrupted
use radio_sensors.Prelude.{
  ℕ, zero, suc, ◌+◌, ◌-◌, ◌*◌, ◌%◌, ◌≤◌, ◌<◌, ◌≡◌, Bool, true, false, not, ◌&&◌, ◌||◌, List, [],
  ◌∷◌, ◌++◌, Option, none, some, ltb, leb, ◌==◌, if◌then◌else◌, arith, length,
}
use radio_sensors.Wire.{write_u32_le, read_u32_le}
use radio_sensors.Eeprom.{Storage, writes_from, perform, read_block}
use radio_sensors.Eeprom.SetCount.{set_count_slot_b, set_count_slot_size}

abbrev pub counter_ring_start : ℕ
counter_ring_start = set_count_slot_b + set_count_slot_size

abbrev pub counter_record_size : ℕ
counter_record_size = 5

abbrev pub counter_record_count : ℕ
counter_record_count = 32

unfoldable pub counter_sequence_is_newer : ℕ → ℕ → Bool
counter_sequence_is_newer candidate current =
    let delta = if leb current candidate then candidate - current else candidate + 255 - current in
    not (delta == 0) && ltb delta 128

-- The members of CounterStore.
pub record CounterState : Type 0 where
  pub initialized : Bool
  pub has_value : Bool
  pub current_slot : ℕ
  pub current_sequence : ℕ
  pub current_count : ℕ

-- The newest record that the loop of `load` has met.
pub record Newest : Type 0 where
  pub sequence : ℕ
  pub slot : ℕ
  pub count : ℕ

abbrev pub record_address : ℕ → ℕ
record_address slot = counter_ring_start + slot * counter_record_size

-- One round: an erased record is passed over.
unfoldable pub newer_record : Option Newest → Newest → Option Newest
unfolding counter_sequence_is_newer
newer_record none r = if r.sequence == 0xff then none else some r
newer_record (some best) r =
    if r.sequence == 0xff
    then some best
    else if counter_sequence_is_newer r.sequence best.sequence
    then some r
    else some best

-- The members after a load that found nothing, or this record.
abbrev pub loaded_counter : Option Newest → CounterState
loaded_counter none = record {
  initialized = true;
  has_value = false;
  current_slot = counter_record_count - 1;
  current_sequence = 0;
  current_count = 0;
}
loaded_counter (some r) = record {
  initialized = true;
  has_value = true;
  current_slot = r.slot;
  current_sequence = r.sequence;
  current_count = r.count;
}

unfoldable pub next_sequence : CounterState → ℕ
next_sequence st =
    if not st.has_value
    then 0
    else if st.current_sequence == 0xfe
    then 0
    else (st.current_sequence + 1) % 256

-- The writes of `save`: the count, and then the sequence that makes the record valid.
unfoldable pub counter_writes : ℕ → ℕ → ℕ → List (ℕ × ℕ)
counter_writes slot sequence count =
    writes_from (record_address slot + 1) (write_u32_le count)
    ++ ((record_address slot, sequence) ∷ [])

module _ (E : Storage) where
  unfoldable pub record_at : E.State → ℕ → Newest
  record_at s slot = record {
    sequence = E.read s (record_address slot);
    slot = slot;
    count = read_u32_le (read_block E s (record_address slot + 1) 4) 0;
  }

  -- The loop with the rounds that are left.
  unfoldable pub newest_from : ℕ → ℕ → Option Newest → E.State → Option Newest
  unfolding newer_record record_at
  newest_from zero slot best s = best
  newest_from (suc rounds) slot best s =
      newest_from rounds (slot + 1) (newer_record best (record_at s slot)) s

  unfoldable pub load_counter : E.State → CounterState
  unfolding newest_from
  load_counter s = loaded_counter (newest_from counter_record_count 0 none s)

  -- The writes of `save`, and the members after them.
  unfoldable pub save_counter : CounterState → E.State → ℕ → List (ℕ × ℕ) × CounterState
  unfolding next_sequence counter_writes
  save_counter st s count =
      let now = if st.initialized then st else load_counter s in
      let slot = (now.current_slot + 1) % counter_record_count in
      if now.has_value && count == now.current_count then ([], now) else (
        counter_writes slot (next_sequence now) count,
        record {
          initialized = true;
          has_value = true;
          current_slot = slot;
          current_sequence = next_sequence now;
          current_count = count;
        },
      )
