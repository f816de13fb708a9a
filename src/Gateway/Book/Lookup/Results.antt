-- ===== src/Gateway/Book/Lookup/Results.antt =====
-- What a result, a cancellation and a removal change of the book.
use mathlib.Core.Path.{fun_ext}
use radio_sensors.Prelude.{
  ℕ, zero, suc, ◌+◌, ◌≤◌, ◌≡◌, ◌≢◌, ◌⊎◌, inl, inr, refl, sym, ap, ◌∙◌, true, false, ltb, Bytes,
  byte_at, List, Option, some, none, arith, Bool-cases, Option-cases, ◌==◌, ==_iff, ◌↔◌,
  if◌then◌else◌,
}
use radio_sensors.Wire.JoinRequest.{DeviceUid}
use radio_sensors.Wire.Session.{read_into, command_result_data_size}
use radio_sensors.Registry.{same_uid}
use radio_sensors.Registry.Table.{
  same_uid_iff, find_first-modify_first, find_first-modify_first_other,
}
use radio_sensors.Gateway.Erase.{find_first-erase_first, find_first-erase_first_other}
use radio_sensors.Gateway.Book.{
  CommandRecord, CommandBook, completed_now, not_pending, pending, of_node, find_record, finish,
  complete, completed, cancel, remove_node, bytes_of,
}
use radio_sensors.Gateway.Book.Invariant.{IsBook, Apart→AtMostOne}
use radio_sensors.Gateway.Book.Invariant.Queue.{forgotten}
use radio_sensors.Gateway.Book.Invariant.Complete.{finished}

-- The book as a function from nodes, changed at one node.
abbrev pub update_at :
    (ℕ → Option CommandRecord) → ℕ → Option CommandRecord → ℕ → Option CommandRecord
update_at f id w j = if j == id then w else f j

module _ (book : CommandBook) (v : IsBook book) (id : ℕ) where
  find-forgotten : find_record (forgotten book id) ≡ update_at (find_record book) id none
  find-forgotten = fun_ext λ j. elim (Bool-cases (j == id)) [
    | inl e ↦ rw e (
        ap (λ i. find_record (forgotten book id) i) ((==_iff j id).0 e)
        ∙ find_first-erase_first (of_node id) book.records
            (Apart→AtMostOne id book.records v.distinct))
    | inr e ↦ rw e (
        find_first-erase_first_other (of_node id) (of_node j) book.records
          (λ y q. ground (arith, q, e)))
  ]

  -- Removing a node, as a change to the function: its record goes, and the answer says whether there
  -- was one.
  pub find-remove_node :
      (find_record (remove_node book id).0 ≡ update_at (find_record book) id none)
      × (((remove_node book id).1 ≡ true) ↔ (find_record book id ≢ none))
  find-remove_node = elim (Option-cases (find_record book id)) [
    | inl e ↦
        let same : remove_node book id ≡ (book, false) = unfold remove_node in ground (arith, e) in
        rw same (fun_ext (λ j. untouched j e), (λ h. ground (arith, h), λ h. absurd (h e)))
    | inr (r, e) ↦
        let same : remove_node book id ≡ (forgotten book id, true) =
          unfold remove_node in ground (arith, e) in
        rw same (find-forgotten, ((λ h g. ground (arith, e, g)), λ h. refl))
  ]
    where
      untouched :
          (j : ℕ)
          → find_record book id ≡ none
          → find_record book j ≡ update_at (find_record book) id none j
      untouched j e = elim (Bool-cases (j == id)) [
        | inl f ↦ rw f (ap (find_record book) ((==_iff j id).0 f) ∙ e)
        | inr f ↦ rw f refl
      ]

  -- Cancelling, as a change to the function: a pending command goes, and nothing else does.
  pub find-cancel :
      (r : CommandRecord)
      → find_record book id ≡ some r
      → (r.state ≡ pending
          → (find_record (cancel book id).0 ≡ update_at (find_record book) id none)
            × ((cancel book id).1 ≡ true))
        × (r.state ≢ pending → cancel book id ≡ (book, false))
  find-cancel r e = (
    λ p.
        (let same : cancel book id ≡ (forgotten book id, true) =
            unfold cancel in ground (arith, e, p) in
          rw same (find-forgotten, refl)),
    λ n. unfold cancel in ground (arith, e, n),
  )

find-complete-finish :
    (book : CommandBook) (uid : DeviceUid) (id command status : ℕ) (pointer : Option (List ℕ))
    (size now : ℕ) (r : CommandRecord)
    → find_record book id ≡ some r
    → (complete book (some uid) id command status pointer size now).1 ≡ completed_now
    → find_record (complete book (some uid) id command status pointer size now).0
      ≡ update_at (find_record book) id (some (finish status (bytes_of pointer) size now r))
find-complete-finish book uid id command status pointer size now r f c =
    let same : (complete book (some uid) id command status pointer size now).0
        ≡ finished book uid id command status pointer size now =
      unfold complete in ground (arith, f, c) in
    rw same (
      fun_ext λ j. elim (Bool-cases (j == id)) [
        | inl e ↦ rw e (
            ap (find_record (finished book uid id command status pointer size now))
              ((==_iff j id).0 e)
            ∙ find_first-modify_first (of_node id) (finish status (bytes_of pointer) size now)
                book.records r (λ b p. p) f)
        | inr e ↦ rw e (
            find_first-modify_first_other (of_node id) (of_node j)
              (finish status (bytes_of pointer) size now) book.records (λ a p. ground (arith, p, e))
              (λ a p. ground (arith, p, e)))
      ])

-- The bytes of an array with an index below `size` replaced by those of a list.
abbrev pub replaced : (n : ℕ) → ℕ → List ℕ → ℕ → Bytes n → Bytes n
replaced zero size bytes i old = tt
replaced (suc n) size bytes i old =
    (if ltb i size then byte_at bytes i else old.0, replaced n size bytes (i + 1) old.1)

replaced_none :
    (n size : ℕ) (bytes : List ℕ) (i : ℕ) (old : Bytes n)
    → size ≤ i
    → replaced n size bytes i old ≡ old
replaced_none zero size bytes i old h = refl
replaced_none (suc n) size bytes i old h =
    ground (arith, replaced_none n size bytes (i + 1) old.1 (omega arith))

read_into-replaced :
    (n size count : ℕ) (bytes : List ℕ) (i : ℕ) (old : Bytes n)
    → size ≡ i + count
    → read_into n count bytes i old ≡ replaced n size bytes i old
read_into-replaced zero size count bytes i old e = refl
read_into-replaced (suc n) size zero bytes i old e =
    sym (replaced_none (suc n) size bytes i old (omega arith))
read_into-replaced (suc n) size (suc count) bytes i old e =
    ground (arith, read_into-replaced n size count bytes (i + 1) old.1 (omega arith))

-- A record with a result of `size` bytes, and the time.
abbrev pub with_result : ℕ → Option (List ℕ) → ℕ → ℕ → CommandRecord → CommandRecord
with_result status pointer size now r = record {
  device_uid = r.device_uid;
  node_id = r.node_id;
  command_id = r.command_id;
  type = r.type;
  argument_size = r.argument_size;
  arguments = r.arguments;
  state = completed;
  status = status;
  result_size = size;
  result_bytes = replaced 8 size (bytes_of pointer) 0 r.result_bytes;
  queued_at = r.queued_at;
  completed_at = now;
}

finish-with_result :
    (status : ℕ) (pointer : Option (List ℕ)) (size now : ℕ) (r : CommandRecord)
    → size ≤ 8
    → finish status (bytes_of pointer) size now r ≡ with_result status pointer size now r
finish-with_result status pointer size now r h =
    ground (arith, read_into-replaced 8 size size (bytes_of pointer) 0 r.result_bytes (omega arith))

-- A result that is taken changes the book, as a function from nodes to records, at its node alone.
-- There the record is completed: it has the status, the size and the time of the result and the bytes
-- that came with it, and its other fields, and the bytes beyond the size, stay.
pub find-complete :
    (book : CommandBook) (uid : DeviceUid) (id command status : ℕ) (pointer : Option (List ℕ))
    (size now : ℕ) (r : CommandRecord)
    → find_record book id ≡ some r
    → (complete book (some uid) id command status pointer size now).1 ≡ completed_now
    → find_record (complete book (some uid) id command status pointer size now).0
      ≡ update_at (find_record book) id (some (with_result status pointer size now r))
find-complete book uid id command status pointer size now r f c =
    find-complete-finish book uid id command status pointer size now r f c
    ∙ ap (λ x. update_at (find_record book) id (some x))
        (finish-with_result status pointer size now r sized)
  where
    sized : size ≤ 8
    sized = unfold complete command_result_data_size in ground (arith, f, c)

-- A command that has its result, or a record of another physical node or command, takes none: the
-- book stays as it is.
pub complete_refused :
    (book : CommandBook) (uid : DeviceUid) (id command status : ℕ) (pointer : Option (List ℕ))
    (size now : ℕ) (r : CommandRecord)
    → find_record book id ≡ some r
    → (r.state ≢ pending) ⊎ ((r.command_id ≢ command) ⊎ (r.device_uid ≢ uid))
    → complete book (some uid) id command status pointer size now ≡ (book, not_pending)
complete_refused book uid id command status pointer size now r f (inl n) =
    unfold complete in ground (arith, f, n)
complete_refused book uid id command status pointer size now r f (inr (inl n)) =
    unfold complete in ground (arith, f, n)
complete_refused book uid id command status pointer size now r f (inr (inr n)) =
    elim (Bool-cases (same_uid r.device_uid uid)) [
      | inl e ↦ absurd (n ((same_uid_iff r.device_uid uid).0 e))
      | inr e ↦ unfold complete in ground (arith, f, e)
    ]

-- A result that is taken and then received again is refused, and the book stays as it is.
pub complete_once :
    (book : CommandBook) (uid : DeviceUid) (id command status : ℕ) (pointer : Option (List ℕ))
    (size now later : ℕ)
    → (complete book (some uid) id command status pointer size now).1 ≡ completed_now
    → complete
        (complete book (some uid) id command status pointer size now).0
        (some uid)
        id
        command
        status
        pointer
        size
        later
      ≡ ((complete book (some uid) id command status pointer size now).0, not_pending)
complete_once book uid id command status pointer size now later c =
    elim (Option-cases (find_record book id)) [
      | inl e ↦ absurd (unfold complete in ground (arith, e, c))
      | inr (r, e) ↦
          complete_refused (complete book (some uid) id command status pointer size now).0 uid id
            command status pointer size later (with_result status pointer size now r)
            (ap (λ g. g id) (find-complete book uid id command status pointer size now r e c)
              ∙ update_at_self (find_record book) id _)
            (inl (λ h. ground (arith, h)))
    ]
  where
    update_at_self :
        (g : ℕ → Option CommandRecord) (i : ℕ) (w : Option CommandRecord) → update_at g i w i ≡ w
    update_at_self g i w = ground arith
