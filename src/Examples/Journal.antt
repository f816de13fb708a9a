-- ===== src/Examples/Journal.antt =====
-- The SET_COUNT journal on the EEPROM stores, over erased cells.
use radio_sensors.Prelude.{◌≡◌, ◌⊎◌, refl, false, some, none, arith}
use radio_sensors.Eeprom.{
  new_store, next_slot, next_generation, choose_slot, generation_is_newer, commit, writes_from,
  crc16_ccitt,
}
use radio_sensors.Eeprom.Counter.{
  load_counter, save_counter, newest_from, counter_writes, next_sequence,
}
use radio_sensors.Eeprom.SetCount.{
  load_set_count, save_set_count, save_set_count_from, set_count_writes, encode_set_count_result,
  decode_set_count_result,
}
use radio_sensors.Eeprom.Journal.{
  Journal, SetCountOutcome, EepromStores, eeprom_stores, apply, apply_new, complete_pending,
  recover,
}
use radio_sensors.Eeprom.Journal.Redelivery.{Reports, apply_redelivered, recover_redelivered}
use radio_sensors.Examples.Eeprom.{ram, erased, first_result}

abbrev unread : EepromStores ram
unread = record {
  cells = erased;
  counter = record {
    initialized = false;
    has_value = false;
    current_slot = 31;
    current_sequence = 0;
    current_count = 0;
  };
  results = new_store;
}

abbrev new_journal : Journal (eeprom_stores ram)
new_journal = record { store = unread; last = none }

-- Command 3 sets the count from 12 to 500, and comes again when it is 507.
count_applied : (apply (eeprom_stores ram) new_journal 3 500 12).2 ≡ SetCountOutcome.applied
unfolding apply apply_new complete_pending save_counter load_counter newest_from counter_writes
    next_sequence load_set_count save_set_count save_set_count_from set_count_writes
    encode_set_count_result decode_set_count_result next_slot next_generation choose_slot commit
    writes_from crc16_ccitt
count_applied = refl

apply_redelivered_example :
    ((apply (eeprom_stores ram) new_journal 3 500 12).1 ≡ 500)
    × Reports 3 12 500 (apply (eeprom_stores ram) new_journal 3 500 12).3
    × (apply (eeprom_stores ram) (apply (eeprom_stores ram) new_journal 3 500 12).0 3 500 507 ≡ (
      (apply (eeprom_stores ram) new_journal 3 500 12).0,
      507,
      SetCountOutcome.redelivered,
      (apply (eeprom_stores ram) new_journal 3 500 12).3,
    ))
apply_redelivered_example =
    apply_redelivered (eeprom_stores ram) new_journal 3 500 12 500 507 (omega arith) count_applied

-- The node stopped when the pending result was stored and the count was not.
abbrev stopped : Journal (eeprom_stores ram)
stopped = record { store = ((eeprom_stores ram).save_result unread first_result).0; last = none }

stopped_found : ((eeprom_stores ram).load_result stopped.store).1 ≡ some first_result
unfolding load_set_count save_set_count save_set_count_from set_count_writes encode_set_count_result
    decode_set_count_result next_slot next_generation choose_slot commit writes_from crc16_ccitt
    generation_is_newer
stopped_found = refl

recover_redelivered_example :
    let (j', recovered) = recover (eeprom_stores ram) stopped 5 in
    let answer = apply (eeprom_stores ram) j' 513 0 9 in
    (recovered ≡ 0x89abcdef)
    × ((answer.2 ≡ SetCountOutcome.storage_failure)
        ⊎ ((answer.2 ≡ SetCountOutcome.redelivered) × Reports 513 70000 0x89abcdef answer.3))
recover_redelivered_example =
    recover_redelivered (eeprom_stores ram) stopped 5 first_result (omega arith) stopped_found 0 9
