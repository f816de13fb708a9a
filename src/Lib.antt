-- ===== src/Lib.antt =====
-- Sensor nodes report over an encrypted radio to a gateway. This library models the program's
-- own logic on both sides, and the protocol between them.
--
-- Parts, and where they stand:
-- - Wire, the radio frames, shared/RadioProtocol/include. Wire.antt is RadioProtocol.h with the
--   integer codecs of JoinRequest.h; Wire/JoinRequest, Wire/Commissioning and Wire/Session are
--   JoinRequest.h, CommissioningFrames.h and CommandSessionFrames.h. An encoder `encodeX` is
--   `encode_x`, a decoder `decodeX` is `decode_x`; their children RoundTrip hold the proofs.
-- - Registry, the gateway's table of nodes, shared/RadioProtocol/src/NodeRegistry.cpp.
--   Registry.antt has the record, the searches and reserve, confirm, disable and remove;
--   Registry/Updates has rename, setPowerPolicy, updateInfo and restore; Registry/Name has
--   validDisplayName. Table, Removal and Allocate prove laws of the array; Invariant and its
--   children prove what each operation keeps, Lookup what it finds, History all sequences of
--   operations. The requests that reserve takes are those that Wire/JoinRequest decodes.
-- - Power, shared/RadioProtocol/include/RadioPowerControl.h, the gateway's control of one node's
--   transmit power. Registry uses its policy encoding. Power/History is the control over the reports
--   of a node.
-- - Button, shared/RadioProtocol/include/ResetButton.h, `update` over a history of levels.
-- - Schedule, node/lib/NodeCore/include/TelemetrySchedule.h. Schedule/Reports has the report
--   schedules, Schedule/Retry the backoff and the hinted sessions, Schedule/Join the join
--   attempts.
-- - Eeprom, node/lib/NodeCore/include/NodeStorage.h and CounterStorage.h. Eeprom.antt has the
--   driver's interface, the checksum and what the stores with two slots share; Eeprom/Config has
--   the credentials and the network configuration with their stores, Eeprom/SetCount the result of
--   a SET_COUNT command with its store, Eeprom/Counter the ring of counts, Eeprom/Journal the
--   journal that applies such a command, over an interface that these two stores fill. Checksum,
--   Slots, Choice and Commit prove laws of the checksum, of sequences of writes and of the slots;
--   the children RoundTrip, Save, Ring, Interrupted and Redelivery those of the codecs, the stores
--   and the journal.
-- - Gateway, what the gateway keeps, shared/RadioProtocol/src/CommandBook.cpp, GatewayStorage.cpp
--   and UserManagement.cpp. Gateway/Book is the queue of commands to the nodes, which uses the
--   tables of Wire/Session; its children have the validation, the snapshot codec, and proofs of what
--   its operations keep and find. Gateway/Snapshot has the header, the checksum and the secrets;
--   Gateway/Store is DualSlotStore, with Store/Secrets as an instance; Gateway/Users the accounts.
-- - Registry/Snapshot and Registry/Store, shared/RadioProtocol/src/RegistryPersistence.cpp: the
--   registry's snapshot and its store, on the lemmas of Gateway/Store.
-- - Wire/Telemetry, shared/RadioProtocol/include/TelemetryFrames.h: reports, and what answers them.
-- - Node, node/lib/NodeCore/include: ConfirmedInput.h, RadioPowerState.h and SupplyVoltage.h; and
--   Node/Commissioning, node/lib/NodeCore/src/CommissioningService.cpp, in which a node joins by the
--   frames of Wire. Its child Drivers has the radio driver, a parameter, and an interface that the store
--   of the configuration fills; readings of the clock are arguments.
-- - Prelude, shared names, tests on numbers, lists, words, signed numbers, byte masks, results.
-- - Examples, tests at concrete inputs, and each theorem at an input that meets its hypotheses.
--
-- Modelling: a fixed-width word is a native number, wrapped by `%` where the source lets it wrap;
-- times are uint32_t milliseconds. An array uint8_t[n] is `Bytes n`, a nested tuple. A pointer is
-- an `Option`, `none` for nullptr. A status code is a `Result`: the value that `Ok` comes with,
-- or the error. A mutating method returns the new state. `|` of bytes that share no bit is `+`.
--
-- The EEPROM driver is a parameter, the record `Storage`: a cell keeps the last byte written to it.
-- A save gives the list of its writes, so that one that is cut off is a prefix of the list.
--
-- The drivers of the gateway's slots are a record `SlotStorage`: a write leaves the other slot as
-- it was, and what is read are bytes; that a write is read back is a hypothesis where it is needed.
-- The codec of a store is a record `Codec` with two laws, which the secrets and the registry meet.
--
-- Fuel: `valid_points` has as many rounds as there are bytes, and each round takes one at least;
-- the loop of `allocate_from` counts its 99 rounds, that of `newest_from` its 32, that of
-- `try_confirm` its three attempts.
--
-- Not modelled: the snapshots of the settings and of the authentication data, the gateway's
-- services, web server and updates, the node's drivers and runtime, the user interface, and
-- third-party libraries.
pub mod Prelude
pub mod Button
pub mod Power
pub mod Schedule
pub mod Wire
pub mod Registry
pub mod Eeprom
pub mod Gateway
pub mod Node
mod Examples
