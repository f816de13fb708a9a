-- ===== src/Eeprom/Counter/Save.antt =====
-- CounterStore: what the writes of a save leave of the ring.
use radio_sensors.Prelude.{
  ℕ, ◌+◌, ◌-◌, ◌%◌, ◌<◌, ◌≡◌, ◌≢◌, ◌⊎◌, inl, inr, refl, sym, ap, ◌∙◌, true, false, arith, List, [],
  ◌∷◌, ◌==◌, All, take, Bool-cases, ==_iff, IsU32, byte_at, if◌then◌else◌,
}
use radio_sensors.Wire.{write_u32_le, read_u32_le}
use radio_sensors.Eeprom.{Storage, perform, read_block, writes_from}
use radio_sensors.Eeprom.Slots.{
  All-append, Apart, Behind, All-map, All-take, writes_from-Behind, read-perform,
  read_block-perform, read_block-writes_from,
}
use radio_sensors.Eeprom.Commit.{read_block-last}
use radio_sensors.Eeprom.Counter.{
  CounterState, record_address, counter_writes, record_at, next_sequence,
}
use radio_sensors.Eeprom.Counter.Ring.{Ring}

-- The writes of the count stand behind the sequence of their record.
pub count_writes-Behind :
    (slot count : ℕ)
    → All
        (Behind (record_address slot) 5)
        (writes_from (record_address slot + 1) (write_u32_le count))
count_writes-Behind slot count =
    writes_from-Behind (record_address slot) 5 (record_address slot + 1) (write_u32_le count)
      (omega arith) (omega arith)

-- Cells that a record's count does not hold: a sequence, and another record's count.
Behind→Apart_sequence :
    (slot j : ℕ) (w : ℕ × ℕ) → Behind (record_address slot) 5 w → Apart (record_address j) 1 w
Behind→Apart_sequence slot j w h = ground arith

Behind→Apart_count :
    (slot j : ℕ)
    → j ≢ slot
    → (w : ℕ × ℕ) → Behind (record_address slot) 5 w
    → Apart (record_address j + 1) 4 w
Behind→Apart_count slot j d w h = ground arith

module _ (E : Storage) where
  -- Before the last write of a save, the ring is as it was.
  pub Ring-count_writes :
      (s : E.State) (st : CounterState) (slot count k : ℕ)
      → Ring E s st
      → slot ≢ st.current_slot
      → Ring E
          (perform E (take k (writes_from (record_address slot + 1) (write_u32_le count))) s)
          st
  unfolding record_at
  Ring-count_writes s st slot count k r d = record {
    live = r.live;
    slot_lt = r.slot_lt;
    sequence_lt = r.sequence_lt;
    current = (
      sequence_kept st.current_slot ∙ r.current.0,
      ap (λ l. read_u32_le l 0) count_kept ∙ r.current.1,
    );
    others = λ j l n. subst_ring j (r.others j l n);
  }
    where
      written : List (ℕ × ℕ)
      written = take k (writes_from (record_address slot + 1) (write_u32_le count))

      behind : All (Behind (record_address slot) 5) written
      behind =
          All-take (Behind (record_address slot) 5) k
            (writes_from (record_address slot + 1) (write_u32_le count))
            (count_writes-Behind slot count)

      sequence_kept :
          (j : ℕ) → E.read (perform E written s) (record_address j) ≡ E.read s (record_address j)
      sequence_kept j = read-perform E written s (record_address j) (
          All-map (Behind (record_address slot) 5) (Apart (record_address j) 1)
            (Behind→Apart_sequence slot j) written behind)

      count_kept :
          read_block E (perform E written s) (record_address st.current_slot + 1) 4
          ≡ read_block E s (record_address st.current_slot + 1) 4
      count_kept = read_block-perform E 4 written s (record_address st.current_slot + 1) (
          All-map (Behind (record_address slot) 5) (Apart (record_address st.current_slot + 1) 4)
            (Behind→Apart_count slot st.current_slot (λ e. d (sym e))) written behind)

      subst_ring :
          (j : ℕ)
          → (E.read s (record_address j) ≡ 255)
            ⊎ (E.read s (record_address j)
                ≡ (st.current_sequence + 255 - (st.current_slot + 32 - j) % 32) % 255)
          → (E.read (perform E written s) (record_address j) ≡ 255)
            ⊎ (E.read (perform E written s) (record_address j)
                ≡ (st.current_sequence + 255 - (st.current_slot + 32 - j) % 32) % 255)
      subst_ring j (inl e) = inl (sequence_kept j ∙ e)
      subst_ring j (inr e) = inr (sequence_kept j ∙ e)

abbrev pub next_slot_of : CounterState → ℕ
next_slot_of st = (st.current_slot + 1) % 32

-- The members after a save that writes.
abbrev pub advanced : CounterState → ℕ → CounterState
advanced st count = record {
  initialized = true;
  has_value = true;
  current_slot = next_slot_of st;
  current_sequence = next_sequence st;
  current_count = count;
}

read_u32_le-write_u32_le : (count : ℕ) → IsU32 count → read_u32_le (write_u32_le count) 0 ≡ count
read_u32_le-write_u32_le count h = omega arith

-- The ages of the other records grow by one.
next_age :
    (sequence slot j q : ℕ)
    → sequence < 255
    → slot < 32
    → j < 32
    → j ≢ slot
    → j ≢ (slot + 1) % 32
    → q ≡ (sequence + 255 - (slot + 32 - j) % 32) % 255
    → q
      ≡ ((if sequence == 0xfe then 0 else (sequence + 1) % 256)
          + 255
          - ((slot + 1) % 32 + 32 - j) % 32)
        % 255
next_age sequence slot j q a b c d e f = ground arith

first_age :
    (sequence slot : ℕ)
    → sequence < 255
    → slot < 32
    → sequence
      ≡ ((if sequence == 0xfe then 0 else (sequence + 1) % 256)
          + 255
          - ((slot + 1) % 32 + 32 - slot) % 32)
        % 255
first_age sequence slot a b = ground arith

next_sequence-live :
    (st : CounterState)
    → st.has_value ≡ true
    → next_sequence st
      ≡ (if st.current_sequence == 0xfe then 0 else (st.current_sequence + 1) % 256)
unfolding next_sequence
next_sequence-live st h = ground arith

next_sequence_lt : (st : CounterState) → st.current_sequence < 255 → next_sequence st < 255
unfolding next_sequence
next_sequence_lt st h = ground arith

either : {x y n : ℕ} → x ≡ y → (y ≡ 255) ⊎ (y ≡ n) → (x ≡ 255) ⊎ (x ≡ n)
either e h = ground arith

module _ (E : Storage) (s : E.State) (st : CounterState) (count : ℕ) where
  abbrev pub after_save : E.State
  after_save = perform E (counter_writes (next_slot_of st) (next_sequence st) count) s

  -- The new record.
  block-after_save :
      st.current_sequence < 255
      → read_block E after_save (record_address (next_slot_of st)) 5
        ≡ next_sequence st ∷ write_u32_le count
  unfolding counter_writes
  block-after_save h =
      read_block-last E (writes_from (record_address (next_slot_of st) + 1) (write_u32_le count)) s
        (record_address (next_slot_of st)) 4 (next_sequence st)
        (omega (arith, next_sequence_lt st h))
      ∙ ap (λ l. next_sequence st ∷ l)
          (read_block-writes_from E (write_u32_le count) s (record_address (next_slot_of st) + 1)
            (ground arith))

  -- The sequences of the other records.
  sequence-after_save :
      (j : ℕ)
      → j ≢ next_slot_of st
      → E.read after_save (record_address j) ≡ E.read s (record_address j)
  unfolding counter_writes
  sequence-after_save j d =
      read-perform E (counter_writes (next_slot_of st) (next_sequence st) count) s
        (record_address j)
        (All-append (Apart (record_address j) 1)
          (writes_from (record_address (next_slot_of st) + 1) (write_u32_le count))
          ((record_address (next_slot_of st), next_sequence st) ∷ [])
          (All-map (Behind (record_address (next_slot_of st)) 5) (Apart (record_address j) 1)
            (Behind→Apart_sequence (next_slot_of st) j)
            (writes_from (record_address (next_slot_of st) + 1) (write_u32_le count))
            (count_writes-Behind (next_slot_of st) count))
          (ground arith, tt))

  pub Ring-after_save : Ring E s st → IsU32 count → Ring E after_save (advanced st count)
  unfolding record_at
  Ring-after_save r u = record {
    live = (refl, refl);
    slot_lt = omega arith;
    sequence_lt = next_sequence_lt st r.sequence_lt;
    current = (
      ap (λ l. byte_at l 0) (block-after_save r.sequence_lt),
      ap (λ l. read_u32_le l 1) (block-after_save r.sequence_lt) ∙ read_u32_le-write_u32_le count u,
    );
    others =
        λ j l d. either (sequence-after_save j d) (aged j l d (Bool-cases (j == st.current_slot)));
  }
    where
      aged :
          (j : ℕ)
          → j < 32
          → j ≢ next_slot_of st
          → ((j == st.current_slot) ≡ true) ⊎ ((j == st.current_slot) ≡ false)
          → (E.read s (record_address j) ≡ 255)
            ⊎ (E.read s (record_address j)
                ≡ (next_sequence st + 255 - (next_slot_of st + 32 - j) % 32) % 255)
      aged j l d (inl e) =
          let same : j ≡ st.current_slot = (==_iff j st.current_slot).0 e in
          inr (
            ap (λ i. E.read s (record_address i)) same
            ∙ r.current.0
            ∙ first_age st.current_sequence st.current_slot r.sequence_lt r.slot_lt
            ∙ ap (λ n. (n + 255 - (next_slot_of st + 32 - st.current_slot) % 32) % 255)
                (sym (next_sequence-live st r.live.1))
            ∙ ap (λ i. (next_sequence st + 255 - (next_slot_of st + 32 - i) % 32) % 255) (sym same))
      aged j l d (inr e) = older j l d (λ i. ground arith) (r.others j l (λ i. ground arith))
        where
          older :
              (j : ℕ)
              → j < 32
              → j ≢ next_slot_of st
              → j ≢ st.current_slot
              → (E.read s (record_address j) ≡ 255)
                ⊎ (E.read s (record_address j)
                    ≡ (st.current_sequence + 255 - (st.current_slot + 32 - j) % 32) % 255)
              → (E.read s (record_address j) ≡ 255)
                ⊎ (E.read s (record_address j)
                    ≡ (next_sequence st + 255 - (next_slot_of st + 32 - j) % 32) % 255)
          older j l d n (inl e) = inl e
          older j l d n (inr e) = inr (
              next_age st.current_sequence st.current_slot j (E.read s (record_address j))
                r.sequence_lt r.slot_lt l n d e
              ∙ ap (λ q. (q + 255 - (next_slot_of st + 32 - j) % 32) % 255)
                  (sym (next_sequence-live st r.live.1)))
