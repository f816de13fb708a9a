-- ===== src/Gateway/Book/Validate.antt =====
-- shared/RadioProtocol/src/GatewayStorage.cpp: validCommandRecord and validateCommandBook.
use radio_sensors.Prelude.{
  ℕ, Bool, true, false, not, ◌&&◌, ◌||◌, List, [], ◌∷◌, ◌++◌, length, ltb, leb, ◌==◌, if◌then◌else◌,
}
use radio_sensors.Prelude.Result.{Result, ok, err}
use radio_sensors.Wire.Session.{
  valid_command_arguments, valid_command_status, command_result_data_size, status_of,
}
use radio_sensors.Registry.{first_node_id, last_node_id}
use radio_sensors.Gateway.{CodecError, zero_padded}
use radio_sensors.Gateway.Book.{
  CommandRecord, CommandBook, max_command_records, pending, completed, storage_failure, of_node,
}

-- The part of `validCommandRecord` that depends on the state.
unfoldable pub valid_state : CommandRecord → Bool
unfolding command_result_data_size
valid_state r =
    if r.state == pending
    then r.status == 0 && r.result_size == 0 && r.completed_at == 0
    else if r.state == completed
    then valid_command_status r.status
      && not (r.status == storage_failure)
      && r.result_size == command_result_data_size r.type (status_of r.status)
    else false

unfoldable pub valid_command_record : CommandRecord → Bool
unfolding valid_state valid_command_arguments
valid_command_record r =
    leb first_node_id r.node_id
    && leb r.node_id last_node_id
    && not (r.command_id == 0)
    && zero_padded 8 r.arguments r.argument_size
    && zero_padded 8 r.result_bytes r.result_size
    && valid_command_arguments r.type true r.argument_size
    && valid_state r

unfoldable pub has_duplicate : List CommandRecord → ℕ → Bool
has_duplicate [] id = false
has_duplicate (r ∷ rs) id = of_node id r || has_duplicate rs id

-- The loops of `validateCommandBook`, with the records that are passed and those to come.
unfoldable pub validate_records :
    List CommandRecord → List CommandRecord → Result CodecError (Unit {0})
validate_records previous [] = ok tt
validate_records previous (r ∷ rest) =
    let later = validate_records (previous ++ (r ∷ [])) rest in
    if not (valid_command_record r)
    then err CodecError.invalid_value
    else if has_duplicate previous r.node_id
    then err CodecError.duplicate_value
    else later

unfoldable pub validate_command_book : CommandBook → Result CodecError (Unit {0})
unfolding validate_records
validate_command_book book =
    if ltb max_command_records (length book.records)
    then err CodecError.invalid_count
    else if book.next_command_id == 0
    then err CodecError.invalid_value
    else validate_records [] book.records
