-- ===== src/Eeprom/Journal/Redelivery.antt =====
-- A SET_COUNT command that is delivered again is not applied again, with or without a restart of
-- the node in between.
use radio_sensors.Prelude.{
  ℕ, ◌≡◌, ◌≢◌, ◌⊎◌, inl, inr, Option, some, arith, refl, true, Bool-cases, Option-cases, sym, ap,
  ◌∙◌, if◌then◌else◌,
}
use radio_sensors.Eeprom.SetCount.{SetCountStatus, SetCountResult}
use radio_sensors.Eeprom.Journal.{
  JournalStores, Journal, SetCountOutcome, apply, apply_new, complete_pending, recover, is_pending,
  applied, redelivered, storage_failure, pending_result, with_generation, with_applied,
}

-- The result of a command that was applied: its ID, the count before it and the count it set.
abbrev pub Reports : ℕ → ℕ → ℕ → Option SetCountResult → Type 0
Reports id old requested answer =
    (generation : ℕ) × (answer
      ≡ some (record {
        generation = generation;
        status = SetCountStatus.applied;
        command_id = id;
        old_count = old;
        applied_count = requested;
      }))

status-cases : (s : SetCountStatus) → (s ≡ SetCountStatus.pending) ⊎ (s ≡ SetCountStatus.applied)
status-cases SetCountStatus.pending = inl refl
status-cases SetCountStatus.applied = inr refl

module _ (S : JournalStores) where
  -- The generation that the second of the two saves of a result gives it.
  abbrev last_generation : Journal S → ℕ → ℕ → ℕ → ℕ
  last_generation j id requested count =
      let written = S.save_result j.store (pending_result S id requested count) in
      let next = with_generation written.1 (pending_result S id requested count) in
      let counted = S.save_count written.0 requested in
      (S.save_result counted.0 (with_applied next)).1

  apply_new-Reports :
      (j : Journal S) (id requested count : ℕ)
      → (apply_new S j id requested count).2 ≡ applied
      → Reports id count requested (apply_new S j id requested count).3
        × ((apply_new S j id requested count).0.last ≡ (apply_new S j id requested count).3)
        × ((apply_new S j id requested count).1 ≡ requested)
  unfolding apply_new complete_pending
  apply_new-Reports j id requested count e = (
    (last_generation j id requested count, ground (arith, e)),
    ground (arith, e),
    ground (arith, e),
  )

  -- An apply that answers Applied is one to a command without a result.
  apply-applied :
      (j : Journal S) (id requested count : ℕ)
      → (apply S j id requested count).2 ≡ applied
      → apply S j id requested count ≡ apply_new S j id requested count
  unfolding apply
  apply-applied j id requested count e = elim (Option-cases j.last) [
    | inl l ↦ ground (arith, l)
    | inr (r, l) ↦ ground (arith, l, e)
  ]

  -- A journal whose last result is applied answers its command with it.
  apply-answered :
      (j : Journal S) (r : SetCountResult) (again later : ℕ)
      → r.command_id ≢ 0
      → j.last ≡ some r
      → r.status ≡ SetCountStatus.applied
      → apply S j r.command_id again later ≡ (j, later, redelivered, some r)
  unfolding apply
  apply-answered j r again later h l a = ground (arith, l, a, h)

  -- A command with an ID that was applied sets its count and reports its ID, the count before it and
  -- the count that it set. When it comes again before any other command, whatever it asks for and whatever the count is
  -- by then, it is answered with the same result: the journal and the count stay as they are.
  pub apply_redelivered :
      (j : Journal S) (id requested count again later : ℕ)
      → id ≢ 0
      → (apply S j id requested count).2 ≡ applied
      → ((apply S j id requested count).1 ≡ requested)
        × Reports id count requested (apply S j id requested count).3
        × (apply S (apply S j id requested count).0 id again later ≡ (
          (apply S j id requested count).0,
          later,
          redelivered,
          (apply S j id requested count).3,
        ))
  apply_redelivered j id requested count again later h e =
      let same = apply-applied j id requested count e in
      let ((generation, told), kept, counted) =
        apply_new-Reports j id requested count (ap (λ x. x.2) (sym same) ∙ e) in
      rw same (
        counted,
        (generation, told),
        apply-answered (apply_new S j id requested count).0 _ again later h (kept ∙ told) refl
            ∙ ap (λ x. ((apply_new S j id requested count).0, later, redelivered, x)) (sym told),
      )

  -- The answer to a command that has a result: that result, or a failure of the storage.
  abbrev Answered :
      SetCountResult → Journal S × ℕ × SetCountOutcome × Option SetCountResult → Type 0
  Answered r answer =
      (answer.2 ≡ storage_failure)
      ⊎ ((answer.2 ≡ redelivered) × Reports r.command_id r.old_count r.applied_count answer.3)

  apply-completed_result :
      (j : Journal S) (r : SetCountResult) (generation again later : ℕ)
      → r.command_id ≢ 0
      → j.last ≡ some (with_generation generation (with_applied r))
      → Answered r (apply S j r.command_id again later)
  apply-completed_result j r generation again later h l =
      let told =
        apply-answered j (with_generation generation (with_applied r)) again later h l refl in
      rw told (inr (refl, (generation, refl)))

  -- A pending result is completed first.
  apply-unfinished :
      (j : Journal S) (r : SetCountResult) (again later : ℕ)
      → r.command_id ≢ 0
      → j.last ≡ some r
      → r.status ≡ SetCountStatus.pending
      → Answered r (apply S j r.command_id again later)
  apply-unfinished j r again later h l p = elim (Bool-cases (complete_pending S j r).2) [
    | inr failed ↦ inl (unfold apply in ground (arith, l, p, h, failed))
    | inl done ↦
        let (generation, told) = completed done in
        inr (
          unfold apply in ground (arith, l, p, h, done),
          (generation, unfold apply in ground (arith, l, p, h, done, told)),
        )
  ]
    where
      completed :
          (complete_pending S j r).2 ≡ true
          → Reports r.command_id r.old_count r.applied_count (complete_pending S j r).0.last
      completed done = (
        (S.save_result (S.save_count j.store r.applied_count).0 (with_applied r)).1,
        unfold complete_pending in ground (arith, done),
      )

  -- A journal that recovers finds the result of the last command, which may be pending.
  module _ (j : Journal S) (count : ℕ) (r : SetCountResult) (h : r.command_id ≢ 0)
      (found : (S.load_result j.store).1 ≡ some r) where
    abbrev reloaded : Journal S
    reloaded = record { store = (S.load_result j.store).0; last = some r }

    recover-applied : r.status ≡ SetCountStatus.applied → recover S j count ≡ (reloaded, count)
    unfolding recover
    recover-applied a = ground (arith, found, a)

    recover-pending :
        r.status ≡ SetCountStatus.pending
        → recover S j count ≡ ((complete_pending S reloaded r).0, (complete_pending S reloaded r).1)
    unfolding recover
    recover-pending p = ground (arith, found, p)

    -- After a restart, a command with an ID whose result is stored, pending or applied, is never applied as a
    -- new one: recovery sets the count that a pending result asks for and leaves it otherwise, and
    -- when the command comes again, it is answered with its result, or with a failure of the storage.
    pub recover_redelivered :
        (again later : ℕ)
        → let (j', recovered) = recover S j count in
          let answer = apply S j' r.command_id again later in
          (recovered ≡ (if is_pending r then r.applied_count else count))
          × ((answer.2 ≡ storage_failure)
              ⊎ ((answer.2 ≡ redelivered)
                  × Reports r.command_id r.old_count r.applied_count answer.3))
    recover_redelivered again later = elim (status-cases r.status) [
      | inr a ↦ rw (recover-applied a) (
        ground (arith, a),
        apply-completed_result reloaded r r.generation again later h (ground (arith, a)),
      )
      | inl p ↦ rw (recover-pending p) (
        unfold complete_pending in ground (arith, p),
        elim (Bool-cases (S.save_count reloaded.store r.applied_count).1) [
          | inr lost ↦
              apply-unfinished (complete_pending S reloaded r).0 r again later h
                (unfold complete_pending in ground (arith, lost)) p
          | inl counted ↦
              apply-completed_result (complete_pending S reloaded r).0 r
                (S.save_result (S.save_count reloaded.store r.applied_count).0 (with_applied r)).1
                again later h (unfold complete_pending in ground (arith, counted))
        ],
      )
    ]
