-- ===== src/Gateway/Book/Invariant/Queue.antt =====
-- `queue` keeps a book that a snapshot can hold.
use radio_sensors.Prelude.{
  ℕ, ◌≤◌, ◌≡◌, ◌⊎◌, inl, inr, Bool, true, List, [], ◌∷◌, ◌++◌, Option, none, some, arith,
  Option-cases, length-append,
}
use radio_sensors.Wire.JoinRequest.{DeviceUid}
use radio_sensors.Wire.Session.{valid_command_arguments}
use radio_sensors.Gateway.Erase.{
  erase_first, All-erase_first, Pairwise-erase_first, length-erase_first-le, find_first-erase_first,
}
use radio_sensors.Gateway.Book.{
  queued, capacity_reached, CommandRecord, CommandBook, of_node, find_record, with_records,
  new_record, next_id, make_room, append_record, queue, bytes_of, is_some,
}
use radio_sensors.Gateway.Book.Validate.{valid_command_record}
use radio_sensors.Gateway.Book.Invariant.{
  Apart, IsBook, new_record-valid, NoneOf, find_first→NoneOf, Apart→AtMostOne, make_room-AreRecords,
  append-AreRecords, IsBook-with_records, AreRecords-IsBook,
}

module _ (book : CommandBook) (uid : DeviceUid) (id type : ℕ) (bytes : List ℕ) (size now : ℕ) where
  pub append_record_full :
      make_room book.records ≡ none
      → append_record book uid id type bytes size now ≡ (book, capacity_reached, none)
  unfolding append_record
  append_record_full e = ground (arith, e)

  pub append_record_room :
      (rs : List CommandRecord)
      → make_room book.records ≡ some rs
      → append_record book uid id type bytes size now ≡ (
        record {
          next_command_id = next_id book.next_command_id;
          records = rs ++ (new_record book uid id type bytes size now ∷ []);
        },
        queued,
        some book.next_command_id,
      )
  unfolding append_record
  append_record_room rs e = ground (arith, e)

  append_record-IsBook :
      (has : Bool)
      → IsBook book
      → NoneOf id book.records
      → 1 ≤ id
      → id ≤ 99
      → valid_command_arguments type has size ≡ true
      → IsBook (append_record book uid id type bytes size now).0
  append_record-IsBook has v n l m h = elim (Option-cases (make_room book.records)) [
    | inl e ↦ rw (append_record_full e) v
    | inr (rs, e) ↦
        let (a, n', fits) =
          make_room-AreRecords book.records rs id v.count_le (AreRecords-IsBook book v) n e in
        let whole =
          append-AreRecords rs (new_record book uid id type bytes size now) a n'
            (new_record-valid book uid id type bytes has size now l m v.next_id_ne h) in
        rw (append_record_room rs e) (record {
          next_id_ne = ground (arith, v.next_id_u16);
          next_id_u16 = ground (arith, v.next_id_u16);
          count_le =
              omega (arith, length-append rs (new_record book uid id type bytes size now ∷ []));
          records_valid = whole.all_valid;
          distinct = whole.apart;
        })
  ]

-- The book after the node's record goes.
pub forgotten-IsBook :
    (book : CommandBook) (id : ℕ)
    → IsBook book
    → IsBook (with_records book (erase_first (of_node id) book.records))
forgotten-IsBook book id v =
    IsBook-with_records book (erase_first (of_node id) book.records) v
      (omega (arith, length-erase_first-le (of_node id) book.records, v.count_le))
      (record {
        all_valid =
            All-erase_first (of_node id) (λ r. valid_command_record r ≡ true) book.records
              v.records_valid;
        apart = Pairwise-erase_first (of_node id) Apart book.records v.distinct;
      })

abbrev pub forgotten : CommandBook → ℕ → CommandBook
forgotten book id = with_records book (erase_first (of_node id) book.records)

-- The ways through `queue`: it leaves the book, or adds a record where there is none of the node.
module _ (book : CommandBook) (uid : DeviceUid) (id type : ℕ) (arguments : Option (List ℕ))
    (size now : ℕ) where
  abbrev pub Accepted : CommandBook → Type 0
  Accepted from =
      (1 ≤ id)
      × (id ≤ 99)
      × (valid_command_arguments type (is_some arguments) size ≡ true)
      × (queue book (some uid) id type arguments size now
          ≡ append_record from uid id type (bytes_of arguments) size now)

  pub queue_absent :
      find_record book id ≡ none
      → ((queue book (some uid) id type arguments size now).0 ≡ book) ⊎ Accepted book
  unfolding queue
  queue_absent e = ground (arith, e)

  pub queue_present :
      (r : CommandRecord)
      → find_record book id ≡ some r
      → ((queue book (some uid) id type arguments size now).0 ≡ book) ⊎ Accepted (forgotten book id)
  unfolding queue
  queue_present r e = ground (arith, e)

  queue_present-IsBook : IsBook book → IsBook (queue book (some uid) id type arguments size now).0
  queue_present-IsBook v = elim (Option-cases (find_record book id)) [
    | inl e ↦ elim (queue_absent e) [
      | inl same ↦ rw same v
      | inr (l, m, h, same) ↦ rw same (
          append_record-IsBook book uid id type (bytes_of arguments) size now (is_some arguments) v
            (find_first→NoneOf id book.records e) l m h)
    ]
    | inr (r, e) ↦ elim (queue_present r e) [
      | inl same ↦ rw same v
      | inr (l, m, h, same) ↦ rw same (
          append_record-IsBook (forgotten book id) uid id type (bytes_of arguments) size now
            (is_some arguments) (forgotten-IsBook book id v)
            (find_first→NoneOf id (erase_first (of_node id) book.records) (
              find_first-erase_first (of_node id) book.records
                (Apart→AtMostOne id book.records v.distinct)))
            l m h)
    ]
  ]

pub queue-IsBook :
    (book : CommandBook) (uid : Option DeviceUid) (id type : ℕ) (arguments : Option (List ℕ))
    (size now : ℕ)
    → IsBook book
    → IsBook (queue book uid id type arguments size now).0
queue-IsBook book none id type arguments size now v = unfold queue in v
queue-IsBook book (some uid) id type arguments size now v =
    queue_present-IsBook book uid id type arguments size now v
