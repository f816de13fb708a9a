-- ===== src/Examples/Gateway.antt =====
-- The gateway's stores at a book of two commands, at the secrets, and at a storage of two slots.
use radio_sensors.Prelude.{
  ℕ, ◌≡◌, ◌<◌, ◌↔◌, refl, inl, inr, List, [], ◌∷◌, Option, some, none, arith, All, zeros,
}
use radio_sensors.Prelude.Result.{ok, ◌>>=◌}
use radio_sensors.Wire.JoinRequest.{DeviceUid}
use radio_sensors.Wire.Session.{valid_command_arguments, command_result_data_size}
use radio_sensors.Registry.{same_uid}
use radio_sensors.Gateway.Book.Invariant.{IsBook}
use radio_sensors.Gateway.Book.{
  CompleteStatus, CommandRecord, CommandBook, default_command_book, queue, complete, new_record,
  find_record, bytes_of, append_record, make_room,
}
use radio_sensors.Gateway.Book.History.{
  BookOperation, run, validate_command_book-run, validate_command_book_iff-Book,
}
use radio_sensors.Gateway.Book.Lookup.{queue_keeps}
use radio_sensors.Gateway.Book.Lookup.Results.{
  complete_once, complete_refused, find-complete, update_at, with_result,
}
use radio_sensors.Gateway.Book.Validate.{validate_command_book}
use radio_sensors.Gateway.Book.Codec.{
  encode_command_book, decode_command_book, commands_snapshot_size,
}
use radio_sensors.Gateway.Book.Codec.RoundTrip.{IsStored, decode-encode_command_book}

abbrev uid_of : ℕ → DeviceUid
uid_of n = (n, zeros 9)

-- A SET_COUNT for node 5 and a READ_INFO for node 7.
abbrev count_bytes : Option (List ℕ)
count_bytes = some (1 ∷ 0 ∷ 0 ∷ 0 ∷ [])

abbrev two_commands : CommandBook
two_commands =
    (queue (queue default_command_book (some (uid_of 1)) 5 1 count_bytes 4 1000).0 (some (uid_of 2))
      7 2 none 0 2000).0

abbrev count_record : CommandRecord
count_record = new_record default_command_book (uid_of 1) 5 1 (bytes_of count_bytes) 4 1000

count_found : find_record two_commands 5 ≡ some count_record
unfolding queue append_record make_room valid_command_arguments
count_found = refl

-- The result of the SET_COUNT: the old count and the new one.
abbrev count_result : Option (List ℕ)
count_result = some (9 ∷ 0 ∷ 0 ∷ 0 ∷ 1 ∷ 0 ∷ 0 ∷ 0 ∷ [])

count_completed :
    (complete two_commands (some (uid_of 1)) 5 1 0 count_result 8 3000).1
    ≡ CompleteStatus.completed_now
unfolding queue append_record make_room complete valid_command_arguments same_uid
    command_result_data_size
count_completed = refl

abbrev book_history : List BookOperation
book_history =
    BookOperation.queues (some (uid_of 1)) 5 1 count_bytes 4 1000
    ∷ BookOperation.queues (some (uid_of 2)) 7 2 none 0 2000
    ∷ BookOperation.completes (some (uid_of 1)) 5 1 0 count_result 8 3000
    ∷ BookOperation.cancels 7
    ∷ BookOperation.removes 5
    ∷ BookOperation.clears
    ∷ []

validate_command_book-run_example :
    validate_command_book (run default_command_book book_history) ≡ ok tt
validate_command_book-run_example = validate_command_book-run book_history

two_commands-next : two_commands.next_command_id < 65536
unfolding queue append_record make_room valid_command_arguments
two_commands-next = omega arith

validate_command_book_iff-Book_example :
    (validate_command_book two_commands ≡ ok tt) ↔ IsBook two_commands
validate_command_book_iff-Book_example =
    validate_command_book_iff-Book two_commands two_commands-next

queue_keeps_example :
    find_record (queue two_commands (some (uid_of 3)) 9 2 none 0 4000).0 5 ≡ some count_record
queue_keeps_example =
    queue_keeps two_commands (some (uid_of 3)) 9 2 none 0 4000 5 count_record count_found refl
      (omega arith)

find-complete_example :
    find_record (complete two_commands (some (uid_of 1)) 5 1 0 count_result 8 3000).0
    ≡ update_at (find_record two_commands) 5 (some (with_result 0 count_result 8 3000 count_record))
find-complete_example =
    find-complete two_commands (uid_of 1) 5 1 0 count_result 8 3000 count_record count_found
      count_completed

complete_refused_test :
    complete two_commands (some (uid_of 1)) 5 2 0 count_result 8 3000
    ≡ (two_commands, CompleteStatus.not_pending)
complete_refused_test =
    complete_refused two_commands (uid_of 1) 5 2 0 count_result 8 3000 count_record count_found
      (inr (inl (omega arith)))

complete_once_example :
    complete
      (complete two_commands (some (uid_of 1)) 5 1 0 count_result 8 3000).0
      (some (uid_of 1))
      5
      1
      0
      count_result
      8
      5000
    ≡ (
      (complete two_commands (some (uid_of 1)) 5 1 0 count_result 8 3000).0,
      CompleteStatus.not_pending,
    )
complete_once_example =
    complete_once two_commands (uid_of 1) 5 1 0 count_result 8 3000 5000 count_completed

two_commands-valid : validate_command_book two_commands ≡ ok tt
unfolding run
two_commands-valid = validate_command_book-run (
    BookOperation.queues (some (uid_of 1)) 5 1 count_bytes 4 1000
    ∷ BookOperation.queues (some (uid_of 2)) 7 2 none 0 2000
    ∷ [])

two_commands-IsStored : All IsStored two_commands.records
unfolding queue append_record make_room valid_command_arguments
two_commands-IsStored = (
  record { id_u16 = omega arith; queued_u64 = omega arith; completed_u64 = omega arith },
  (record { id_u16 = omega arith; queued_u64 = omega arith; completed_u64 = omega arith }, tt),
)

decode-encode_command_book_example :
    (encode_command_book two_commands 7 (some []) 820 >>= λ written.
    decode_command_book (some written) commands_snapshot_size)
    ≡ ok (two_commands, 7)
decode-encode_command_book_example =
    decode-encode_command_book two_commands 7 [] 820 two_commands-valid two_commands-IsStored
      two_commands-next (omega arith) (omega arith)
