-- ===== src/Eeprom/Journal.antt =====
-- node/lib/NodeCore/include/CounterStorage.h: SetCountJournal, over an interface to its two stores,
-- the count's, by its save, and the results', by its save and its load. `eeprom_stores` fills the
-- interface with CounterStore and SetCountStore.
pub mod Redelivery
use radio_sensors.Prelude.{ℕ, Bool, true, false, not, ◌&&◌, Option, none, some, ◌==◌, if◌then◌else◌}
use radio_sensors.Eeprom.{Storage, StoreState, next_generation, perform}
use radio_sensors.Eeprom.Counter.{CounterState, save_counter}
use radio_sensors.Eeprom.SetCount.{SetCountStatus, SetCountResult, load_set_count, save_set_count}

-- The stores' state, and their calls. `save_result` takes its argument by reference: it gives the
-- generation that it wrote to it, whether it succeeded or not.
pub record JournalStores : Type 1 where
  pub State : Type 0
  pub save_count : State → ℕ → State × Bool
  pub save_result : State → SetCountResult → State × ℕ × Bool
  pub load_result : State → State × Option SetCountResult

-- The members of the stores on the EEPROM, and the EEPROM.
pub record EepromStores (E : Storage) : Type 0 where
  pub cells : E.State
  pub counter : CounterState
  pub results : StoreState

abbrev pub eeprom_stores : Storage → JournalStores
eeprom_stores E = record {
  State = EepromStores E;
  save_count = λ s count.
      (let saved = save_counter E s.counter s.cells count in
        (record s { cells = perform E saved.0 s.cells; counter = saved.1 }, true));
  save_result = λ s r.
      (let now = if s.results.initialized then s.results else (load_set_count E s.cells).0 in
        elim (save_set_count E s.results s.cells r) [
          | none ↦ (record s { results = now }, next_generation now, false)
          | some saved ↦ (
            record s { cells = perform E saved.writes s.cells; results = saved.state },
            saved.value.generation,
            true,
          )
        ]);
  load_result =
      λ s. (let loaded = load_set_count E s.cells in (record s { results = loaded.0 }, loaded.1));
}

pub data SetCountOutcome : Type 0 where
  applied redelivered storage_failure : SetCountOutcome

abbrev pub is_pending_status : SetCountStatus → Bool
is_pending_status SetCountStatus.pending = true
is_pending_status SetCountStatus.applied = false

abbrev pub is_pending : SetCountResult → Bool
is_pending r = is_pending_status r.status

-- SetCountJournal with its stores; `last` is `none` while `hasResult_` is false.
pub record Journal (S : JournalStores) : Type 0 where
  pub store : S.State
  pub last : Option SetCountResult

abbrev pub with_applied : SetCountResult → SetCountResult
with_applied r = record r { status = SetCountStatus.applied }

-- What a save leaves of the result that it was given.
abbrev pub with_generation : ℕ → SetCountResult → SetCountResult
with_generation generation r = record r { generation = generation }

module _ (S : JournalStores) where
  -- completePending of a result: the journal, the count, and whether both saves succeeded.
  unfoldable pub complete_pending : Journal S → SetCountResult → Journal S × ℕ × Bool
  complete_pending j r =
      let counted = S.save_count j.store r.applied_count in
      let written = S.save_result counted.0 (with_applied r) in
      if not counted.1
      then (record { store = counted.0; last = some r }, r.applied_count, false)
      else (
        record { store = written.0; last = some (with_generation written.1 (with_applied r)) },
        r.applied_count,
        written.2,
      )

  -- recover: the journal and the count after it.
  unfoldable pub recover : Journal S → ℕ → Journal S × ℕ
  unfolding complete_pending
  recover j count =
      let loaded = S.load_result j.store in
      elim loaded.1 [
        | none ↦ (record { store = loaded.0; last = none }, count)
        | some r ↦
            let found : Journal S = record { store = loaded.0; last = some r } in
            let done = complete_pending found r in
            if is_pending r then (done.0, done.1) else (found, count)
      ]

  abbrev pub pending_result : ℕ → ℕ → ℕ → SetCountResult
  pending_result id requested count = record {
    generation = 0;
    status = SetCountStatus.pending;
    command_id = id;
    old_count = count;
    applied_count = requested;
  }

  -- apply to a command that has no result yet.
  unfoldable pub apply_new :
      Journal S → ℕ → ℕ → ℕ → Journal S × ℕ × SetCountOutcome × Option SetCountResult
  unfolding complete_pending
  apply_new j id requested count =
      let written = S.save_result j.store (pending_result id requested count) in
      let next = with_generation written.1 (pending_result id requested count) in
      let done = complete_pending (record { store = written.0; last = some next }) next in
      if not written.2
      then (record j { store = written.0 }, count, storage_failure, none)
      else if not done.2
      then (done.0, done.1, storage_failure, none)
      else (done.0, done.1, applied, done.0.last)

  -- apply: the journal, the count, the outcome and the result, if it is written.
  unfoldable pub apply :
      Journal S → ℕ → ℕ → ℕ → Journal S × ℕ × SetCountOutcome × Option SetCountResult
  unfolding apply_new complete_pending
  apply j id requested count = elim j.last [
    | none ↦ apply_new j id requested count
    | some r ↦
        let done = complete_pending j r in
        if not (not (id == 0) && r.command_id == id)
        then apply_new j id requested count
        else if not (is_pending r)
        then (j, count, redelivered, some r)
        else if not done.2
        then (done.0, done.1, storage_failure, none)
        else (done.0, done.1, redelivered, done.0.last)
  ]

  abbrev pub cleared : ℕ → SetCountResult
  cleared count = record {
    generation = 0;
    status = SetCountStatus.applied;
    command_id = 0;
    old_count = count;
    applied_count = count;
  }

  unfoldable pub forget_command_ids : Journal S → ℕ → Journal S
  forget_command_ids j count = elim j.last [
    | none ↦ j
    | some r ↦
        let written = S.save_result j.store (cleared count) in
        if r.command_id == 0
        then j
        else if not written.2
        then record j { store = written.0 }
        else record { store = written.0; last = some (with_generation written.1 (cleared count)) }
  ]
