-- ===== src/Eeprom/Counter/Interrupted.antt =====
-- CounterStore: a save that is cut off leaves the old count, a complete one the new.
use mathlib.Core.Path.{subst}
use radio_sensors.Prelude.{
  ℕ, ◌+◌, ◌<◌, ◌≡◌, ◌⊎◌, inl, inr, refl, sym, ap, ◌∙◌, true, false, arith, List, [], ◌∷◌, ◌==◌,
  ==_iff, take, length, length-append, IsU32, Bool-cases,
}
use radio_sensors.Wire.{write_u32_le}
use radio_sensors.Eeprom.{Storage, perform, writes_from}
use radio_sensors.Eeprom.Slots.{take-append}
use radio_sensors.Eeprom.Counter.{
  CounterState, record_address, counter_writes, load_counter, save_counter, next_sequence,
}
use radio_sensors.Eeprom.Counter.Ring.{Ring, load_counter-Ring}
use radio_sensors.Eeprom.Counter.Save.{advanced, next_slot_of, Ring-after_save, Ring-count_writes}

module _ (E : Storage) where
  -- The two branches of a save from a ring.
  save_counter-kept :
      (s : E.State) (st : CounterState) (count : ℕ)
      → Ring E s st
      → (count == st.current_count) ≡ true
      → save_counter E st s count ≡ ([], st)
  unfolding save_counter
  save_counter-kept s st count r e = ground (arith, r.live.0, r.live.1)

  save_counter-advanced :
      (s : E.State) (st : CounterState) (count : ℕ)
      → Ring E s st
      → (count == st.current_count) ≡ false
      → save_counter E st s count
        ≡ (counter_writes (next_slot_of st) (next_sequence st) count, advanced st count)
  unfolding save_counter
  save_counter-advanced s st count r e = ground (arith, r.live.0, r.live.1)

  -- A save of a uint32_t from a ring leaves a ring, in which a load finds that count and the members
  -- that the save left.
  pub save_counter-Ring :
      (s : E.State) (st : CounterState) (count : ℕ)
      → Ring E s st
      → IsU32 count
      → Ring E (perform E (save_counter E st s count).0 s) (save_counter E st s count).1
        × (load_counter E (perform E (save_counter E st s count).0 s)
            ≡ (save_counter E st s count).1)
        × ((save_counter E st s count).1.current_count ≡ count)
  save_counter-Ring s st count r u = cases (Bool-cases (count == st.current_count))
    where
      Kept : List (ℕ × ℕ) × CounterState → Type 0
      Kept saved =
          Ring E (perform E saved.0 s) saved.1
          × (load_counter E (perform E saved.0 s) ≡ saved.1)
          × (saved.1.current_count ≡ count)

      cases :
          ((count == st.current_count) ≡ true) ⊎ ((count == st.current_count) ≡ false)
          → Kept (save_counter E st s count)
      cases (inl e) =
          subst Kept (sym (save_counter-kept s st count r e))
            (r, load_counter-Ring E s st r, sym ((==_iff count st.current_count).0 e))
      cases (inr e) =
          let ring = Ring-after_save E s st count r u in
          subst Kept (sym (save_counter-advanced s st count r e))
            (ring, load_counter-Ring E _ (advanced st count) ring, refl)

  -- A save from a ring that stops before its last write leaves what a load finds as it was.
  pub save_counter-interrupted :
      (s : E.State) (st : CounterState) (count k : ℕ)
      → Ring E s st
      → k < length (save_counter E st s count).0
      → load_counter E (perform E (take k (save_counter E st s count).0) s) ≡ st
  unfolding counter_writes
  save_counter-interrupted s st count k r lt = cases (Bool-cases (count == st.current_count))
    where
      Lost : List (ℕ × ℕ) × CounterState → Type 0
      Lost saved = k < length saved.0 → load_counter E (perform E (take k saved.0) s) ≡ st

      count_part : List (ℕ × ℕ)
      count_part = writes_from (record_address (next_slot_of st) + 1) (write_u32_le count)

      last : ℕ × ℕ
      last = (record_address (next_slot_of st), next_sequence st)

      cases :
          ((count == st.current_count) ≡ true) ⊎ ((count == st.current_count) ≡ false)
          → load_counter E (perform E (take k (save_counter E st s count).0) s) ≡ st
      cases (inl e) =
          subst Lost (sym (save_counter-kept s st count r e)) (λ l. absurd (omega arith)) lt
      cases (inr e) =
          subst Lost (sym (save_counter-advanced s st count r e))
            (λ l.
              ap (λ ws. load_counter E (perform E ws s))
                (take-append k count_part last
                  (omega (arith, l, length-append count_part (last ∷ []))))
              ∙ load_counter-Ring E _ st
                  (Ring-count_writes E s st (next_slot_of st) count k r (omega (arith, r.slot_lt))))
            lt
