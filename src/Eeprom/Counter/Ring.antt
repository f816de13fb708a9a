-- ===== src/Eeprom/Counter/Ring.antt =====
-- CounterStore: in a ring whose sequences follow one another, a load finds the current record, also
-- after a save that is cut off.
use radio_sensors.Prelude.{
  ℕ, zero, suc, ◌+◌, ◌-◌, ◌%◌, ◌≤◌, ◌<◌, ◌≡◌, ◌≢◌, ◌⊎◌, inl, inr, refl, ap, ◌∙◌, true, false,
  Option, none, some, arith, ◌==◌, Bool-cases, ==_iff,
}
use radio_sensors.Eeprom.{Storage}
use radio_sensors.Eeprom.Counter.{
  record_address, loaded_counter, CounterState, Newest, counter_sequence_is_newer, newer_record,
  record_at, newest_from, load_counter,
}

-- A sequence that is behind another one by less than half of the cycle is older, and not newer.
pub counter_sequence_is_newer_behind :
    (current age : ℕ)
    → current < 255
    → 1 ≤ age
    → age < 128
    → (counter_sequence_is_newer current ((current + 255 - age) % 255) ≡ true)
      × (counter_sequence_is_newer ((current + 255 - age) % 255) current ≡ false)
unfolding counter_sequence_is_newer
counter_sequence_is_newer_behind current age h l m = ground arith

-- A record that a load passes over, or that is older.
abbrev Older : ℕ → ℕ → Type 0
Older current q =
    (q ≡ 255)
    ⊎ ((counter_sequence_is_newer current q ≡ true) × (counter_sequence_is_newer q current ≡ false))

-- What the loop holds before it meets the current record.
abbrev Before : ℕ → Option Newest → Type 0
Before current none = Unit {0}
Before current (some r) = counter_sequence_is_newer current r.sequence ≡ true

newer_record-Before :
    (current : ℕ) (best : Option Newest) (r : Newest)
    → Before current best
    → Older current r.sequence
    → Before current (newer_record best r)
unfolding newer_record counter_sequence_is_newer
newer_record-Before current none r b o = ground arith
newer_record-Before current (some best) r b o = ground arith

newer_record_current :
    (best : Option Newest) (r : Newest)
    → r.sequence < 255
    → Before r.sequence best
    → newer_record best r ≡ some r
unfolding newer_record
newer_record_current none r h b = ground arith
newer_record_current (some best) r h b = ground arith

newer_record-Older :
    (best r : Newest) → Older best.sequence r.sequence → newer_record (some best) r ≡ some best
unfolding newer_record
newer_record-Older best r o = ground arith

module _ (E : Storage) (s : E.State) (current : ℕ) where
  abbrev OthersOlder : ℕ → ℕ → Type 0
  OthersOlder slot n =
      (j : ℕ)
      → slot ≤ j
      → j < slot + n
      → j ≢ current
      → Older (record_at E s current).sequence (record_at E s j).sequence

  newest_from_after :
      (rounds slot : ℕ)
      → current < slot
      → OthersOlder slot rounds
      → newest_from E rounds slot (some (record_at E s current)) s ≡ some (record_at E s current)
  unfolding newest_from
  newest_from_after zero slot h o = refl
  newest_from_after (suc rounds) slot h o =
      ap (λ best. newest_from E rounds (slot + 1) best s)
        (newer_record-Older (record_at E s current) (record_at E s slot)
          (o slot (omega arith) (omega arith) (λ e. omega arith)))
      ∙ newest_from_after rounds (slot + 1) (omega arith)
          (λ j l m n. o j (omega arith) (omega arith) n)

  newest_from_current :
      (rounds slot : ℕ) (best : Option Newest)
      → slot ≤ current
      → current < slot + rounds
      → (record_at E s current).sequence < 255
      → Before (record_at E s current).sequence best
      → OthersOlder slot rounds
      → newest_from E rounds slot best s ≡ some (record_at E s current)
  unfolding newest_from
  newest_from_current zero slot best l h q b o = absurd (omega arith)
  newest_from_current (suc rounds) slot best l h q b o = cases (Bool-cases (slot == current)) (λ d.
      newest_from_current rounds (slot + 1) (newer_record best (record_at E s slot))
        (omega (arith, d)) (omega arith) q
        (newer_record-Before (record_at E s current).sequence best (record_at E s slot) b
          (o slot (omega arith) (omega arith) d))
        (λ j m n e. o j (omega arith) (omega arith) e))
    where
      cases :
          ((slot == current) ≡ true) ⊎ ((slot == current) ≡ false)
          → (slot ≢ current
              → newest_from E rounds (slot + 1) (newer_record best (record_at E s slot)) s
                ≡ some (record_at E s current))
          → newest_from E rounds (slot + 1) (newer_record best (record_at E s slot)) s
            ≡ some (record_at E s current)
      cases (inl e) again =
          let same : slot ≡ current = (==_iff slot current).0 e in
          ap (λ c. newest_from E rounds (slot + 1) (newer_record best (record_at E s c)) s) same
          ∙ ap (λ r. newest_from E rounds (slot + 1) r s)
              (newer_record_current best (record_at E s current) q b)
          ∙ newest_from_after rounds (slot + 1) (omega (arith, same))
              (λ j m n d. o j (omega arith) (omega arith) d)
      cases (inr e) again = again (λ d. ground arith)

-- The store's ring: the members are those of the current record, and a record that is not erased
-- has the sequence of its age, the number of saves since it was written.
pub record Ring (E : Storage) (s : E.State) (st : CounterState) : Type 0 where
  pub live : (st.initialized ≡ true) × (st.has_value ≡ true)
  pub slot_lt : st.current_slot < 32
  pub sequence_lt : st.current_sequence < 255
  pub current :
      (E.read s (record_address st.current_slot) ≡ st.current_sequence)
      × ((record_at E s st.current_slot).count ≡ st.current_count)
  pub others :
      (j : ℕ)
      → j < 32
      → j ≢ st.current_slot
      → (E.read s (record_address j) ≡ 255)
        ⊎ (E.read s (record_address j)
            ≡ (st.current_sequence + 255 - (st.current_slot + 32 - j) % 32) % 255)

module _ (E : Storage) where
  Ring-Older :
      (s : E.State) (st : CounterState)
      → Ring E s st
      → (j : ℕ) → j < 32
      → j ≢ st.current_slot
      → Older (E.read s (record_address st.current_slot)) (E.read s (record_address j))
  Ring-Older s st r j l d = cases (r.others j l d)
    where
      age : ℕ
      age = (st.current_slot + 32 - j) % 32

      cases :
          (E.read s (record_address j) ≡ 255)
            ⊎ (E.read s (record_address j) ≡ (st.current_sequence + 255 - age) % 255)
          → Older (E.read s (record_address st.current_slot)) (E.read s (record_address j))
      cases (inl e) = inl e
      cases (inr e) = inr (
          ground (
            arith,
            e,
            r.current.0,
            r.slot_lt,
            d,
            l,
            counter_sequence_is_newer_behind st.current_sequence age r.sequence_lt,
          ))

  Ring-members :
      (s : E.State) (st : CounterState)
      → Ring E s st
      → loaded_counter (some (record_at E s st.current_slot)) ≡ st
  unfolding record_at
  Ring-members s st r = ground arith

  -- A load of a ring finds the members of its current record.
  pub load_counter-Ring : (s : E.State) (st : CounterState) → Ring E s st → load_counter E s ≡ st
  unfolding load_counter record_at
  load_counter-Ring s st r =
      ap loaded_counter (
        newest_from_current E s st.current_slot 32 0 none (omega arith) (omega (arith, r.slot_lt))
          (omega (arith, r.current.0, r.sequence_lt)) tt
          (λ j l m d. Ring-Older s st r j (omega arith) d))
      ∙ Ring-members s st r
