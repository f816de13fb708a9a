-- ===== src/Eeprom/Config/Save.antt =====
-- NetworkConfigStore: a save that is cut off leaves the old configuration, a complete one the new.
use radio_sensors.Prelude.{
  some-injective, ℕ, ◌+◌, ◌<◌, ◌≡◌, refl, sym, ap, ◌∙◌, true, List, [], ◌∷◌, ◌++◌, none, some,
  arith, All, length, take, drop, if◌then◌else◌, ◌==◌,
}
use radio_sensors.Eeprom.{
  Storage, StoreState, Saved, perform, read_block, writes_from, commit, choose_slot, new_store,
  next_slot, next_generation, holding,
}
use radio_sensors.Eeprom.Choice.{next_generation-IsByte}
use radio_sensors.Eeprom.Slots.{
  Behind, read-perform, read_block-writes_from, All-append, writes_from-Behind,
}
use radio_sensors.Eeprom.Commit.{load_slots-interrupted, load_slots_complete, read_block-last}
use radio_sensors.Eeprom.Config.{
  NetworkConfig, IsConfig, config_slot, config_writes, load_config, save_config, save_from,
  sealed_config, blank_slot, factory_reset, network_config_slot_a, network_config_slot_b,
  decode_network_config,
}
use radio_sensors.Eeprom.Config.RoundTrip.{
  decode-sealed_config, sealed_config-AllBytes, encode_network_config-sealed,
}

-- The members are those of the last load, or no load was made.
abbrev pub Agrees : (E : Storage) → StoreState → E.State → Type 0
Agrees E st s = st.initialized ≡ true → st ≡ (load_config E s).0

abbrev next_value : (E : Storage) → E.State → NetworkConfig → NetworkConfig
next_value E s v = record v { generation = next_generation (load_config E s).0 }

abbrev slot_address : (E : Storage) → E.State → ℕ
slot_address E s =
    if next_slot (load_config E s).0 == 0 then network_config_slot_a else network_config_slot_b

-- What a save does with a configuration in range.
save_from-Config :
    (now : StoreState) (v : NetworkConfig)
    → IsConfig (record v { generation = next_generation now })
    → save_from now v
      ≡ some (record {
        writes =
            config_writes
              (if next_slot now == 0 then network_config_slot_a else network_config_slot_b)
              (sealed_config (record v { generation = next_generation now }));
        state = holding (next_slot now) (next_generation now);
        value = record v { generation = next_generation now };
      })
unfolding save_from
save_from-Config now v c = ground (
  arith,
  encode_network_config-sealed (record v { generation = next_generation now }) blank_slot 32 c
      (omega arith),
)

module _ (E : Storage) where
  current-Agrees :
      (st : StoreState) (s : E.State)
      → Agrees E st s
      → (if st.initialized then st else (load_config E s).0) ≡ (load_config E s).0
  current-Agrees st s g = ground arith

abbrev middle_writes : ℕ → NetworkConfig → List (ℕ × ℕ)
middle_writes address v =
    (address + 1, 0)
    ∷ (writes_from (address + 2) (drop 2 (sealed_config v)) ++ ((address + 1, 78) ∷ []))

middle_writes-Behind :
    (address : ℕ) (v : NetworkConfig) → All (Behind address 32) (middle_writes address v)
middle_writes-Behind address v = (
  (omega arith, omega arith),
  All-append (Behind address 32) (writes_from (address + 2) (drop 2 (sealed_config v)))
      ((address + 1, 78) ∷ [])
      (writes_from-Behind address 32 (address + 2) (drop 2 (sealed_config v)) (omega arith)
        (omega arith))
      ((omega arith, omega arith), tt),
)

config_slot-cleared : (bytes : List ℕ) → config_slot (0 ∷ bytes) ≡ none
unfolding decode_network_config
config_slot-cleared bytes = refl

module _ (E : Storage) where
  config_slot-generation :
      (s : E.State) (address : ℕ) (x : NetworkConfig)
      → config_slot (read_block E s address 32) ≡ some x
      → x.generation < 256
  unfolding decode_network_config
  config_slot-generation s address x e = ground (arith, E.read_byte s (address + 1 + 1 + 1))

  -- The slot after the whole save.
  slot_complete :
      (address : ℕ) (v : NetworkConfig) (s : E.State)
      → IsConfig v
      → read_block E (perform E (commit address (middle_writes address v) 82) s) address 32
        ≡ sealed_config v
  unfolding commit
  slot_complete address v s c =
      read_block-last E ((address, 0) ∷ middle_writes address v) s address 31 82 (omega arith)
      ∙ ap (λ l. 82 ∷ l)
          (read_block-last E
              ((address, 0)
                ∷ (address + 1, 0)
                ∷ writes_from (address + 2) (drop 2 (sealed_config v)))
              s (address + 1) 30 78 (omega arith)
            ∙ ap (λ l. 78 ∷ l)
                (ap
                    (λ a.
                      read_block E
                        (perform E (writes_from (address + 2) (drop 2 (sealed_config v))) cleared) a
                        30)
                    (two_steps address)
                  ∙ read_block-writes_from E (drop 2 (sealed_config v)) cleared (address + 2)
                      (sealed_config-AllBytes v c).1.1))
    where
      cleared : E.State
      cleared = E.update (E.update s address 0) (address + 1) 0

      two_steps : (a : ℕ) → a + 1 + 1 ≡ a + 2
      two_steps a = omega arith

module _ (E : Storage) where
  save_config-atomic :
      (st : StoreState) (s : E.State) (v : NetworkConfig)
      → IsConfig v
      → Agrees E st s
      → (saved : Saved NetworkConfig) × (save_config E st s v ≡ some saved)
        × (saved.value ≡ record v { generation = next_generation (load_config E s).0 })
        × ((k : ℕ)
            → k < length saved.writes
            → (load_config E (perform E (take k saved.writes) s)).1 ≡ (load_config E s).1)
        × (load_config E (perform E saved.writes s) ≡ (saved.state, some saved.value))
  unfolding save_config load_config config_writes
  save_config-atomic st s v c g = (
    _,
    ap (λ now. save_from now v) (current-Agrees E st s g)
        ∙ save_from-Config (load_config E s).0 v ranged,
    refl,
    (λ k lt.
        load_slots-interrupted E (λ x. x.generation) config_slot 31 0 32 k middle 82 s (omega arith)
          config_slot-cleared (middle_writes-Behind address new) lt),
    load_slots_complete E (λ x. x.generation) config_slot 31 0 32 middle 82 s new (omega arith)
        (config_slot-generation E) (middle_writes-Behind address new)
        (ap config_slot (slot_complete E address new s ranged) ∙ decode-sealed_config new ranged)
        refl,
  )
    where
      new : NetworkConfig
      new = record v { generation = next_generation (load_config E s).0 }

      ranged : IsConfig new
      ranged = record {
        bytes = (next_generation-IsByte (load_config E s).0, c.bytes.1);
        node_id = c.node_id;
        gateway_id = c.gateway_id;
        ids_differ = c.ids_differ;
        key = c.key;
        nonce_u32 = c.nonce_u32;
      }

      address : ℕ
      address = slot_address E s

      middle : List (ℕ × ℕ)
      middle = middle_writes address new

  -- From a store that agrees with the storage, a configuration in range is saved under the next
  -- generation, and after all the writes a load finds it, with the members that the save left.
  pub save_config_complete :
      (st : StoreState) (s : E.State) (v : NetworkConfig)
      → IsConfig v
      → Agrees E st s
      → (saved : Saved NetworkConfig) × (save_config E st s v ≡ some saved)
        × (saved.value ≡ record v { generation = next_generation (load_config E s).0 })
        × (load_config E (perform E saved.writes s) ≡ (saved.state, some saved.value))
  save_config_complete st s v c g = let r = save_config-atomic st s v c g in (r.0, r.1, r.2, r.4)

  -- A save of a configuration in range, from a store that agrees with the storage, that stops before
  -- its last write leaves the configuration that a load finds as it was.
  pub save_config-interrupted :
      (st : StoreState) (s : E.State) (v : NetworkConfig) (saved : Saved NetworkConfig) (k : ℕ)
      → IsConfig v
      → Agrees E st s
      → save_config E st s v ≡ some saved
      → k < length saved.writes
      → (load_config E (perform E (take k saved.writes) s)).1 ≡ (load_config E s).1
  save_config-interrupted st s v saved k c g e lt =
      let r = save_config-atomic st s v c g in
      let same = some-injective (sym r.1 ∙ e) in
      ap (λ w. (load_config E (perform E (take k w.writes) s)).1) (sym same)
      ∙ r.3 k (omega (arith, ap (λ w. length w.writes) same))

  load_config-cleared :
      (t : E.State)
      → E.read t 0 ≡ 0
      → E.read t 32 ≡ 0
      → load_config E t ≡ (record new_store { initialized = true }, none)
  unfolding load_config choose_slot
  load_config-cleared t y z =
      ap (λ o. choose_slot generation o (config_slot (read_block E t 32 32)))
        (ap (λ x. config_slot (x ∷ read_block E t 1 31)) y
          ∙ config_slot-cleared (read_block E t 1 31))
      ∙ ap (λ o. choose_slot generation none o)
          (ap (λ x. config_slot (x ∷ read_block E t 33 31)) z
            ∙ config_slot-cleared (read_block E t 33 31))
    where
      generation : NetworkConfig → ℕ
      generation v = v.generation

  -- After a factory reset no configuration is found, and the store's members are those that the
  -- load leaves.
  pub load_config-factory_reset :
      (s : E.State) → load_config E (factory_reset E s).0 ≡ ((factory_reset E s).1, none)
  unfolding factory_reset
  load_config-factory_reset s =
      load_config-cleared (factory_reset E s).0
        (read-perform E ((1, 0) ∷ (32, 0) ∷ (33, 0) ∷ []) (E.update s 0 0) 0 (ground arith)
          ∙ E.read-update s 0 0 (omega arith))
        (read-perform E ((33, 0) ∷ []) (E.update (E.update (E.update s 0 0) 1 0) 32 0) 32
            (ground arith)
          ∙ E.read-update (E.update (E.update s 0 0) 1 0) 32 0 (omega arith))
