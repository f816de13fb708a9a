-- ===== src/Gateway/Book/Invariant.antt =====
-- Every operation keeps a book that a snapshot can hold.
pub mod Queue
pub mod Complete
use mathlib.Core.Path.{subst}
use radio_sensors.Prelude.{
  ℕ, zero, suc, ◌+◌, ◌%◌, ◌≤◌, ◌<◌, ◌≡◌, ◌≢◌, ◌⊎◌, inl, inr, refl, sym, ap, ◌∙◌, Bool, true, false,
  not, ◌&&◌, ◌||◌, List, [], ◌∷◌, ◌++◌, Option, none, some, length, drop, ltb, leb, ◌==◌,
  if◌then◌else◌, Bytes, zeros, to_list, arith, All, Bool-cases, Option-cases, length-append,
  some-injective,
}
use radio_sensors.Prelude.Result.{Result, ok, err}
use radio_sensors.Wire.JoinRequest.{DeviceUid}
use radio_sensors.Wire.Session.{
  valid_command_arguments, command_result_data_size, read_into, status_of,
}
use radio_sensors.Registry.{find_first, modify_first}
use radio_sensors.Registry.Table.{
  Pairwise, All-append_one, Pairwise-append_one, All-modify_first, length-modify_first,
  All-find_first,
}
use radio_sensors.Gateway.{zero_padded}
use radio_sensors.Gateway.Erase.{
  erase_first, All-erase_first, Pairwise-erase_first, length-erase_first, length-erase_first-le,
  find_first-erase_first,
}
use radio_sensors.Gateway.Book.{
  queued, capacity_reached, not_pending, CommandRecord, CommandBook, max_command_records, pending,
  completed, storage_failure, of_node, is_completed, find_record, with_records, new_record, next_id,
  make_room, append_record, queue, finish, complete, cancel, remove_node, clear, bytes_of, is_some,
  default_command_book,
}
use radio_sensors.Gateway.Book.Validate.{
  valid_command_record, has_duplicate, validate_records, validate_command_book,
}

abbrev pub Apart : CommandRecord → CommandRecord → Type 0
Apart a b = a.node_id ≢ b.node_id

pub record IsBook (book : CommandBook) : Type 0 where
  pub next_id_ne : book.next_command_id ≢ 0
  pub next_id_u16 : book.next_command_id < 65536
  pub count_le : length book.records ≤ 16
  pub records_valid : All (λ r. valid_command_record r ≡ true) book.records
  pub distinct : Pairwise Apart book.records

-- `uint8_t` and `size_t` arguments of the right size are 0 or 4.
sizes :
    (type : ℕ) (has : Bool) (size : ℕ)
    → valid_command_arguments type has size ≡ true
    → (size ≡ 0) ⊎ (size ≡ 4)
unfolding valid_command_arguments
sizes type has size h = ground arith

valid_command_arguments-present :
    (type : ℕ) (has : Bool) (size : ℕ)
    → valid_command_arguments type has size ≡ true
    → valid_command_arguments type true size ≡ true
unfolding valid_command_arguments
valid_command_arguments-present type has size h = ground arith

new_record-valid :
    (book : CommandBook) (uid : DeviceUid) (id type : ℕ) (bytes : List ℕ) (has : Bool)
    (size now : ℕ)
    → 1 ≤ id
    → id ≤ 99
    → book.next_command_id ≢ 0
    → valid_command_arguments type has size ≡ true
    → valid_command_record (new_record book uid id type bytes size now) ≡ true
unfolding valid_command_record
new_record-valid book uid id type bytes has size now l m n h = cases (sizes type has size h)
  where
    cases :
        (size ≡ 0) ⊎ (size ≡ 4)
        → valid_command_record (new_record book uid id type bytes size now) ≡ true
    cases (inl e) = rw e (
        ground (
          arith,
          ap (valid_command_arguments type true) (sym e)
              ∙ valid_command_arguments-present type has size h,
        ))
    cases (inr e) = rw e (
        ground (
          arith,
          ap (valid_command_arguments type true) (sym e)
              ∙ valid_command_arguments-present type has size h,
        ))

-- The result sizes of the commands that succeed, and of those that do not.
result_sizes :
    (type status : ℕ)
    → (command_result_data_size type (status_of status) ≡ 0)
      ⊎ ((command_result_data_size type (status_of status) ≡ 6)
          ⊎ (command_result_data_size type (status_of status) ≡ 8))
unfolding command_result_data_size
result_sizes type status = ground arith

finish-valid :
    (r : CommandRecord) (status : ℕ) (bytes : List ℕ) (size now : ℕ)
    → valid_command_record r ≡ true
    → r.state ≡ pending
    → status < 3
    → size ≡ command_result_data_size r.type (status_of status)
    → valid_command_record (finish status bytes size now r) ≡ true
unfolding valid_command_record
finish-valid r status bytes size now v p l e = cases (result_sizes r.type status)
  where
    cases :
        (command_result_data_size r.type (status_of status) ≡ 0)
          ⊎ ((command_result_data_size r.type (status_of status) ≡ 6)
              ⊎ (command_result_data_size r.type (status_of status) ≡ 8))
        → valid_command_record (finish status bytes size now r) ≡ true
    cases (inl f) = rw (e ∙ f) (ground (arith, v, p, l, f))
    cases (inr (inl f)) = rw (e ∙ f) (ground (arith, v, p, l, f))
    cases (inr (inr f)) = rw (e ∙ f) (ground (arith, v, p, l, f))

-- No record of a list is one of the node.
abbrev NoneOf : ℕ → List CommandRecord → Type 0
NoneOf id = All (λ r. r.node_id ≢ id)

find_first→NoneOf :
    (id : ℕ) (rs : List CommandRecord) → find_first (of_node id) rs ≡ none → NoneOf id rs
unfolding find_first
find_first→NoneOf id [] h = tt
find_first→NoneOf id (r ∷ rs) h = elim (Bool-cases (r.node_id == id)) [
  | inl e ↦ absurd (ground (arith, e))
  | inr e ↦ (ground (arith, e), find_first→NoneOf id rs (rw e at h))
]

pub Apart→AtMostOne :
    (id : ℕ) (rs : List CommandRecord)
    → Pairwise Apart rs
    → Pairwise (λ a b. of_node id a ≡ true → of_node id b ≡ true → ⊥) rs
Apart→AtMostOne id [] d = tt
Apart→AtMostOne id (r ∷ rs) d = (others rs d.0, Apart→AtMostOne id rs d.1)
  where
    others :
        (ss : List CommandRecord)
        → All (Apart r) ss
        → All (λ b. of_node id r ≡ true → of_node id b ≡ true → ⊥) ss
    others [] v = tt
    others (x ∷ ss) v = ((λ p q. v.0 (ground (arith, p, q))), others ss v.1)

-- The records of a book, without its ID.
record AreRecords (rs : List CommandRecord) : Type 0 where
  all_valid : All (λ r. valid_command_record r ≡ true) rs
  apart : Pairwise Apart rs

make_room-AreRecords :
    (rs ss : List CommandRecord) (id : ℕ)
    → length rs ≤ 16
    → AreRecords rs
    → NoneOf id rs
    → make_room rs ≡ some ss
    → AreRecords ss × NoneOf id ss × (length ss ≤ 15)
make_room-AreRecords rs ss id l v n h = elim (Bool-cases (length rs == 16)) [
  | inr room ↦
      let same : rs ≡ ss = unfold make_room in ground (arith, room) in
      rw (sym same) (v, n, ground (arith, room))
  | inl full ↦ elim (Option-cases (find_first is_completed rs)) [
    | inl gone ↦ absurd (unfold make_room in ground (arith, full, gone))
    | inr (a, found) ↦
        let same : erase_first is_completed rs ≡ ss =
          unfold make_room in ground (arith, full, found) in
        rw (sym same) (
          record {
            all_valid =
                All-erase_first is_completed (λ r. valid_command_record r ≡ true) rs v.all_valid;
            apart = Pairwise-erase_first is_completed Apart rs v.apart;
          },
          All-erase_first is_completed (λ r. r.node_id ≢ id) rs n,
          omega (arith, length-erase_first is_completed rs a found),
        )
  ]
]

append-AreRecords :
    (rs : List CommandRecord) (r : CommandRecord)
    → AreRecords rs
    → NoneOf r.node_id rs
    → valid_command_record r ≡ true
    → AreRecords (rs ++ (r ∷ []))
append-AreRecords rs r v n h = record {
  all_valid = All-append_one (λ x. valid_command_record x ≡ true) rs r v.all_valid h;
  apart = Pairwise-append_one Apart rs r v.apart n;
}

IsBook-with_records :
    (book : CommandBook) (rs : List CommandRecord)
    → IsBook book
    → length rs ≤ 16
    → AreRecords rs
    → IsBook (with_records book rs)
IsBook-with_records book rs v l a = record {
  next_id_ne = v.next_id_ne;
  next_id_u16 = v.next_id_u16;
  count_le = l;
  records_valid = a.all_valid;
  distinct = a.apart;
}

AreRecords-IsBook : (book : CommandBook) → IsBook book → AreRecords book.records
AreRecords-IsBook book v = record { all_valid = v.records_valid; apart = v.distinct }
