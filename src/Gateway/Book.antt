-- ===== src/Gateway/Book.antt =====
-- shared/RadioProtocol/src/CommandBook.cpp, with the book's records and its validation of
-- GatewayStorage.h and GatewayStorage.cpp. `records_` up to `count` is the list, oldest first; the
-- slots behind are written before they are read.
pub mod Validate
pub mod Invariant
pub mod History
pub mod Lookup
pub mod Codec
use radio_sensors.Prelude.{
  ℕ, ◌+◌, ◌%◌, ◌^◌, Bool, true, false, not, ◌&&◌, ◌||◌, List, [], ◌∷◌, ◌++◌, Option, none, some,
  length, drop, ltb, leb, ◌==◌, if◌then◌else◌, Bytes, zeros, to_list,
}
use radio_sensors.Prelude.Result.{Result, ok, err}
use radio_sensors.Wire.JoinRequest.{device_uid_size, DeviceUid}
use radio_sensors.Wire.Session.{
  max_command_argument_size, max_command_result_data_size, valid_command_arguments,
  valid_command_status, command_result_data_size, status_of, read_into,
}
use radio_sensors.Registry.{find_first, modify_first, same_uid, first_node_id, last_node_id}
use radio_sensors.Gateway.Erase.{erase_first}

abbrev pub max_command_records : ℕ
max_command_records = 16

-- The enumerators of CommandState; a record holds a raw byte, since a snapshot may hold any.
abbrev pub pending : ℕ
pending = 1

abbrev pub completed : ℕ
completed = 2

-- The enumerator of CommandStatus for a failure of the node's storage.
abbrev pub storage_failure : ℕ
storage_failure = 3

pub record CommandRecord : Type 0 where
  pub device_uid : DeviceUid
  pub node_id : ℕ
  pub command_id : ℕ
  pub type : ℕ
  pub argument_size : ℕ
  pub arguments : Bytes max_command_argument_size
  pub state : ℕ
  pub status : ℕ
  pub result_size : ℕ
  pub result_bytes : Bytes max_command_result_data_size
  pub queued_at : ℕ
  pub completed_at : ℕ

pub record CommandBook : Type 0 where
  pub next_command_id : ℕ
  pub records : List CommandRecord

abbrev pub default_command_book : CommandBook
default_command_book = record { next_command_id = 1; records = [] }

pub data QueueStatus : Type 0 where
  queued busy invalid_node invalid_arguments capacity_reached : QueueStatus

pub data CompleteStatus : Type 0 where
  completed_now retry not_pending invalid_result : CompleteStatus

abbrev pub of_node : ℕ → CommandRecord → Bool
of_node id r = r.node_id == id

abbrev pub is_completed : CommandRecord → Bool
is_completed r = r.state == completed

-- `find`
abbrev pub find_record : CommandBook → ℕ → Option CommandRecord
find_record book id = find_first (of_node id) book.records

abbrev pub with_records : CommandBook → List CommandRecord → CommandBook
with_records book records = record book { records = records }

-- The record that `queue` writes.
abbrev pub new_record : CommandBook → DeviceUid → ℕ → ℕ → List ℕ → ℕ → ℕ → CommandRecord
new_record book uid id type arguments size now = record {
  device_uid = uid;
  node_id = id;
  command_id = book.next_command_id;
  type = type;
  argument_size = size % 256;
  arguments = read_into max_command_argument_size size arguments 0 (zeros 8);
  state = pending;
  status = 0;
  result_size = 0;
  result_bytes = zeros 8;
  queued_at = now;
  completed_at = 0;
}

abbrev pub next_id : ℕ → ℕ
next_id id = if id == 0xffff then 1 else (id + 1) % 2 ^ 16

-- The records with room for one more: a full book loses its oldest result. `none` if it has none.
unfoldable pub make_room : List CommandRecord → Option (List CommandRecord)
unfolding find_first erase_first
make_room records =
    if not (length records == max_command_records)
    then some records
    else elim (find_first is_completed records) [
      | none ↦ none
      | some _ ↦ some (erase_first is_completed records)
    ]

-- `queue` behind its tests; the last part of the result is the command's ID.
unfoldable pub append_record :
    CommandBook → DeviceUid → ℕ → ℕ → List ℕ → ℕ → ℕ → CommandBook × QueueStatus × Option ℕ
append_record book uid id type arguments size now = elim (make_room book.records) [
  | none ↦ (book, capacity_reached, none)
  | some records ↦ (
    record {
      next_command_id = next_id book.next_command_id;
      records = records ++ (new_record book uid id type arguments size now ∷ []);
    },
    queued,
    some book.next_command_id,
  )
]

-- The bytes behind a pointer that the size tests have found to be not null, or not read.
abbrev pub bytes_of : Option (List ℕ) → List ℕ
bytes_of none = []
bytes_of (some bytes) = bytes

abbrev pub is_some {ℓ} : {A : Type ℓ} → Option A → Bool
is_some none = false
is_some (some a) = true

unfoldable pub queue :
    CommandBook
    → Option DeviceUid
    → ℕ
    → ℕ
    → Option (List ℕ)
    → ℕ
    → ℕ
    → CommandBook × QueueStatus × Option ℕ
queue book none id type arguments size now = (book, invalid_node, none)
queue book (some uid) id type arguments size now =
    let bytes = bytes_of arguments in
    if ltb id first_node_id || ltb last_node_id id
    then (book, invalid_node, none)
    else if not (valid_command_arguments type (is_some arguments) size)
    then (book, invalid_arguments, none)
    else elim (find_record book id) [
      | none ↦ append_record book uid id type bytes size now
      | some r ↦
          if r.state == pending && same_uid r.device_uid uid
          then (book, busy, none)
          else append_record (with_records book (erase_first (of_node id) book.records)) uid id type
              bytes size now
    ]

-- What `complete` writes to the record.
abbrev pub finish : ℕ → List ℕ → ℕ → ℕ → CommandRecord → CommandRecord
finish status bytes size now r = record r {
  state = completed;
  status = status;
  result_size = size % 256;
  result_bytes = read_into max_command_result_data_size size bytes 0 r.result_bytes;
  completed_at = now;
}

unfoldable pub complete :
    CommandBook
    → Option DeviceUid
    → ℕ
    → ℕ
    → ℕ
    → Option (List ℕ)
    → ℕ
    → ℕ
    → CommandBook × CompleteStatus
complete book none id command status pointer size now = (book, not_pending)
complete book (some uid) id command status pointer size now =
    let bytes = bytes_of pointer in
    elim (find_record book id) [
      | none ↦ (book, not_pending)
      | some r ↦
          if not (r.state == pending)
            || not (r.command_id == command)
            || not (same_uid r.device_uid uid)
          then (book, not_pending)
          else if not (valid_command_status status)
          then (book, invalid_result)
          else if status == storage_failure
          then (book, retry)
          else if not (size == command_result_data_size r.type (status_of status))
              || (not (size == 0) && not (is_some pointer))
          then (book, invalid_result)
          else (
            with_records book
                (modify_first (of_node id) (finish status bytes size now) book.records),
            completed_now,
          )
    ]

unfoldable pub cancel : CommandBook → ℕ → CommandBook × Bool
cancel book id = elim (find_record book id) [
  | none ↦ (book, false)
  | some r ↦
      if not (r.state == pending)
      then (book, false)
      else (with_records book (erase_first (of_node id) book.records), true)
]

unfoldable pub remove_node : CommandBook → ℕ → CommandBook × Bool
remove_node book id = elim (find_record book id) [
  | none ↦ (book, false)
  | some _ ↦ (with_records book (erase_first (of_node id) book.records), true)
]

unfoldable pub clear : CommandBook → CommandBook
clear book = record { next_command_id = book.next_command_id; records = [] }
