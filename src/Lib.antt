-- ===== src/Lib.antt =====
-- Digital Objects Network: a model of the paths that a proof payload takes from a client to the state
-- of the network.
--
-- A client posts a payload to the relayer (services/relayer), which stores it as a job in Postgres
-- and whose worker sends it to Ethereum as a blob. The synchronizer (services/synchronizer) reads
-- the blobs of each slot back from the archiver (services/archiver), parses them (libs/payload) and
-- derives the next state: an array of all created objects and a set of spent nullifiers behind Merkle
-- roots. It commits each slot to a log in Postgres, and rolls the log back when the chain has
-- changed.
--
-- Files and sources:
--   Prelude          shared names; Hash, results of fallible code, lists measured by native numbers,
--                    and the machine integers of Rust with their wrap-around (Prelude/Int).
--   Payload/Blob     libs/payload/src/blob.rs: encode_simple_blob and decode_simple_blob.
--   Payload/Format   libs/payload/src/payload.rs, lib.rs and proof.rs: the binary format and
--                    parse_blob, with a Rust panic as an outcome of its own.
--   Relayer/Job      services/relayer/src/model.rs and libs/wire-types/src/relayer.rs.
--   Relayer/Store    services/relayer/src/db.rs: every query as a function on the rows, and row_to_job.
--   Relayer/Outside  the EthGateway trait of services/relayer/src/eth.rs, the clock and the
--                    database connection, and the monad of the worker: the rows and the answers to
--                    come are its state, and an error leaves by `?` with the state as it is then.
--   Relayer/Fees, Updates, Sending, Polling, Worker
--                    services/relayer/src/worker.rs: the arithmetic, the assignments to a job, the
--                    two handlers with all their branches, and the loop.
--   Relayer/Api      services/relayer/src/api.rs: the handlers of POST and GET /api/v1/proofs.
--   Relayer/System   the process as a step relation: requests, turns and restarts in any order.
--   Synchronizer/State, Containers
--                    services/synchronizer/src/don_state.rs and container_db.rs, and the grounding
--                    age of libs/txlib/src/lib.rs.
--   Synchronizer/Apply, Derivation
--                    services/synchronizer/src/state_machine.rs: apply_payload, parse_blobs and
--                    derive_slot_state.
--   Synchronizer/Log services/synchronizer/src/state_log_db.rs: the tables of slots, of the created
--                    index and of transaction statuses, their two transactions and the
--                    queries.
--   Synchronizer/Beacon, World
--                    libs/eth-clients/src/beacon/types.rs and common.rs; the clients as a parameter,
--                    and the node's state: the log and the answers to come.
--   Synchronizer/Blobs, Node
--                    services/synchronizer/src/node.rs: what is fetched for a slot (Blobs, Node), and
--                    its derivation and commit (Node/Slots).
--   Synchronizer/Sync
--                    services/synchronizer/src/sync_loop.rs and catchup.rs: the reorganisation
--                    checks, the head tracker (Sync/Heads), the batches (Sync/Batch) and the loops
--                    (Sync/Turns). Sync/Reads and Sync/Triples have the rules for runs that fail.
--   Archiver         services/archiver/src/api.rs: the endpoint that serves the blobs of a block.
-- Files named Examples hold concrete data, and the theorems applied to it.
--
-- Modelling choices. An unsigned integer is a native number, and wraps or saturates where the
-- source does; i32 and i64 are Prelude.Int's ℤ with the casts written out. A hash is its four field
-- elements; pod2's values are the hashes they are made from. A HashMap is an association list.
-- plonky2's proofs (whose reading and verification may panic), pod2's containers and hashing, base64, UUIDs, the Ethereum node, the clock and
-- the connection to Postgres are parameters, of which the theorems assume only what they name. A
-- database fault of the relayer loses a statement before it reaches the table; one of the
-- synchronizer may also hide that a transaction was carried out. The order that Postgres leaves
-- open among rows that tie is that of the list. Logging is left out.
--
-- Fuel and bounds. The worker and the sync loop run for a number of turns, the wait for the next
-- head for a number of wakeups, and the synchronizer for a number of starts, all of which the
-- theorems leave arbitrary. A row of relay_jobs decodes while its attempts are below 2^31 and its
-- block number below 2^63, the ranges of its columns. Slots stay below 2^31, the range of the log's
-- column. The chunks of a list are taken with the length of the list as fuel, which is enough since
-- each chunk takes at least one element. Everything else is structural recursion.
--
-- Not modelled: the synchronizer's API, the archiver's storage, the driver and SDK, transaction
-- building, the proof circuits, the requests of the Ethereum clients, and the interfaces and
-- applications; the text coding of database columns; the HTTP layer; sleeping.
pub mod Prelude
pub mod Payload
pub mod Relayer
pub mod Synchronizer
pub mod Archiver
