-- ===== src/Gateway/Book/Lookup.antt =====
-- What a search of the book finds after each operation: the book as a map from nodes to records.
pub mod Results
use mathlib.Core.Path.{fun_ext}
use radio_sensors.Prelude.{
  ℕ, ◌≤◌, ◌≡◌, ◌≢◌, ◌⊎◌, inl, inr, refl, sym, ap, ◌∙◌, true, false, List, [], ◌∷◌, Option, some,
  none, length, arith, Bool-cases, Option-cases, ◌==◌, ==_iff, ◌↔◌, if◌then◌else◌,
}
use radio_sensors.Wire.JoinRequest.{DeviceUid}
use radio_sensors.Wire.Session.{valid_command_arguments}
use radio_sensors.Registry.{find_first, same_uid}
use radio_sensors.Registry.Table.{
  same_uid_iff, find_first-modify_first, find_first-modify_first_other,
}
use radio_sensors.Gateway.Erase.{
  erase_first, find_first-erase_first, find_first-erase_first_other, find_first-erase_first_kept,
  find_first-append, find_first-append_new, find_first-erase_first_none,
}
use radio_sensors.Gateway.Book.{
  CommandRecord, CommandBook, queued, busy, completed_now, not_pending, pending, of_node,
  is_completed, find_record, new_record, make_room, append_record, queue, finish, complete, cancel,
  remove_node, bytes_of, is_some,
}
use radio_sensors.Gateway.Book.Invariant.{IsBook, Apart→AtMostOne}
use radio_sensors.Gateway.Book.Invariant.Queue.{
  append_record_full, append_record_room, queue_absent, queue_present, forgotten,
}
use radio_sensors.Gateway.Book.Invariant.Complete.{finished}

-- Making room keeps what is pending.
make_room-kept :
    (rs ss : List CommandRecord) (j : ℕ) (r : CommandRecord)
    → make_room rs ≡ some ss
    → find_first (of_node j) rs ≡ some r
    → r.state ≡ pending
    → find_first (of_node j) ss ≡ some r
make_room-kept rs ss j r h f p = elim (Bool-cases (length rs == 16)) [
  | inr room ↦ let same : rs ≡ ss = unfold make_room in ground (arith, room) in rw (sym same) f
  | inl full ↦ elim (Option-cases (find_first is_completed rs)) [
    | inl gone ↦ absurd (unfold make_room in ground (arith, full, gone))
    | inr (a, found) ↦
        let same : erase_first is_completed rs ≡ ss =
          unfold make_room in ground (arith, full, found) in
        rw (sym same)
          (find_first-erase_first_kept is_completed (of_node j) rs r f (ground (arith, p)))
  ]
]

-- Making room brings no record of a node that had none.
make_room-none :
    (rs ss : List CommandRecord) (j : ℕ)
    → make_room rs ≡ some ss
    → find_first (of_node j) rs ≡ none
    → find_first (of_node j) ss ≡ none
make_room-none rs ss j h f = elim (Bool-cases (length rs == 16)) [
  | inr room ↦ let same : rs ≡ ss = unfold make_room in ground (arith, room) in rw (sym same) f
  | inl full ↦ elim (Option-cases (find_first is_completed rs)) [
    | inl gone ↦ absurd (unfold make_room in ground (arith, full, gone))
    | inr (a, found) ↦
        let same : erase_first is_completed rs ≡ ss =
          unfold make_room in ground (arith, full, found) in
        rw (sym same) (find_first-erase_first_none (of_node j) is_completed rs f)
  ]
]

module _ (book : CommandBook) (uid : DeviceUid) (id type : ℕ) (bytes : List ℕ) (size now : ℕ) where
  append_record-kept :
      (j : ℕ) (r : CommandRecord)
      → find_record book j ≡ some r
      → r.state ≡ pending
      → find_record (append_record book uid id type bytes size now).0 j ≡ some r
  append_record-kept j r f p = elim (Option-cases (make_room book.records)) [
    | inl e ↦ rw (append_record_full book uid id type bytes size now e) f
    | inr (rs, e) ↦ rw (append_record_room book uid id type bytes size now rs e) (
        find_first-append (of_node j) rs (new_record book uid id type bytes size now ∷ []) r
          (make_room-kept book.records rs j r e f p))
  ]

  append_record-found :
      find_record book id ≡ none
      → (append_record book uid id type bytes size now).1 ≡ queued
      → (find_record (append_record book uid id type bytes size now).0 id
          ≡ some (new_record book uid id type bytes size now))
        × ((append_record book uid id type bytes size now).2 ≡ some book.next_command_id)
  append_record-found f q = elim (Option-cases (make_room book.records)) [
    | inl e ↦
        absurd
          (ground (arith, ap (λ t. t.1) (append_record_full book uid id type bytes size now e), q))
    | inr (rs, e) ↦ rw (append_record_room book uid id type bytes size now rs e) (
      find_first-append_new (of_node id) rs (new_record book uid id type bytes size now)
          (make_room-none book.records rs id e f) (ground arith),
      refl,
    )
  ]

-- The pending command of another node is found as before, whatever is queued, also where the queue
-- evicts a record.
pub queue_keeps :
    (book : CommandBook) (uid : Option DeviceUid) (id type : ℕ) (arguments : Option (List ℕ))
    (size now j : ℕ) (r : CommandRecord)
    → find_record book j ≡ some r
    → r.state ≡ pending
    → j ≢ id
    → find_record (queue book uid id type arguments size now).0 j ≡ some r
queue_keeps book none id type arguments size now j r f p d = unfold queue in f
queue_keeps book (some uid) id type arguments size now j r f p d =
    elim (Option-cases (find_record book id)) [
      | inl e ↦ elim (queue_absent book uid id type arguments size now e) [
        | inl same ↦ rw same f
        | inr a ↦ rw a.3 (append_record-kept book uid id type (bytes_of arguments) size now j r f p)
      ]
      | inr (x, e) ↦ elim (queue_present book uid id type arguments size now x e) [
        | inl same ↦ rw same f
        | inr a ↦ rw a.3 (
            append_record-kept (forgotten book id) uid id type (bytes_of arguments) size now j r
              (find_first-erase_first_other (of_node id) (of_node j) book.records
                  (λ y q. ground (arith, q, d))
                ∙ f)
              p)
      ]
    ]

-- A command that was queued is the record that its node's search finds, pending, and its ID is the
-- next of the sequence.
pub queue_found :
    (book : CommandBook) (uid : DeviceUid) (id type : ℕ) (arguments : Option (List ℕ))
    (size now : ℕ)
    → IsBook book
    → (queue book (some uid) id type arguments size now).1 ≡ queued
    → (find_record (queue book (some uid) id type arguments size now).0 id
        ≡ some (new_record book uid id type (bytes_of arguments) size now))
      × ((queue book (some uid) id type arguments size now).2 ≡ some book.next_command_id)
queue_found book uid id type arguments size now v q = elim (Option-cases (find_record book id)) [
  | inl e ↦
      let taken : queue book (some uid) id type arguments size now
          ≡ append_record book uid id type (bytes_of arguments) size now =
        unfold queue in ground (arith, e, q) in
      rw taken (
        append_record-found book uid id type (bytes_of arguments) size now e
          (ap (λ t. t.1) (sym taken) ∙ q))
  | inr (x, e) ↦
      let taken : queue book (some uid) id type arguments size now
          ≡ append_record (forgotten book id) uid id type (bytes_of arguments) size now =
        unfold queue in ground (arith, e, q) in
      rw taken (
        append_record-found (forgotten book id) uid id type (bytes_of arguments) size now
          (find_first-erase_first (of_node id) book.records
            (Apart→AtMostOne id book.records v.distinct))
          (ap (λ t. t.1) (sym taken) ∙ q))
]

-- While a node's command is pending, another valid one is refused and changes nothing.
pub queue_busy :
    (book : CommandBook) (uid : DeviceUid) (id type : ℕ) (arguments : Option (List ℕ))
    (size now : ℕ) (r : CommandRecord)
    → find_record book id ≡ some r
    → r.state ≡ pending
    → same_uid r.device_uid uid ≡ true
    → 1 ≤ id
    → id ≤ 99
    → valid_command_arguments type (is_some arguments) size ≡ true
    → queue book (some uid) id type arguments size now ≡ (book, busy, none)
unfolding queue
queue_busy book uid id type arguments size now r f p s l m h = ground (arith, f, p, s, h)
