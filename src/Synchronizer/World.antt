-- ===== src/Synchronizer/World.antt =====
-- What the synchronizer's node talks to (services/synchronizer/src/node.rs), and its state: the log
-- and the answers to come. A failure leaves by `?`; a panic too, and no handler sees it.
use digital_objects_network.Prelude.{
  ℕ, List, Option, none, some, Bool, true, false, Result, ok, err,
}
use digital_objects_network.Prelude.Exec.{Exec}
use digital_objects_network.Synchronizer.Beacon.{BlockId, BlockHeader, Block, RpcBlock}
use digital_objects_network.Synchronizer.Log.{Log, LogError}

pub data Failure : Type 0 where
  node_error : Failure
  log_error : LogError → Failure
  container_error : Failure
  database_error : Failure
  wrong_blob_count : ℕ → ℕ → Failure
  missing_transactions : Failure
  bad_genesis_slot : Failure
  panicked : Failure

abbrev pub is_node_error : Failure → Bool
is_node_error node_error = true
is_node_error _ = false

-- What the wait for the next head wakes up on.
pub data Wakeup : Type 0 where
  shut_down : Wakeup
  interrupted : Wakeup
  head_check : Wakeup
  message : Option ℕ → Wakeup
  stream_down : Bool → Wakeup

-- `db_fault` tells whether the connection is lost at the next statement, and whether the database
-- still carries it out. A block or blobs that are not served yet are nothing.
pub record Gateway (E : Type 0) : Type 0 where
  pub get_block_header : BlockId → E → Result Failure (Option BlockHeader) × E
  pub get_block : ℕ → E → Result Failure (Option Block) × E
  pub get_execution_block : ℕ → Bool → E → Result Failure (Option RpcBlock) × E
  pub get_archived_blobs : ℕ → List ℕ → E → Result Failure (Option (List (List ℕ))) × E
  pub get_spec : E → Result Failure (Unit {0}) × E
  pub subscribe : E → Result Failure (Unit {0}) × E
  pub sync_containers : E → Result Failure (Unit {0}) × E
  pub db_fault : E → Option Bool × E
  pub shut_down_now : E → Bool × E
  pub wakeup : E → Wakeup × E

pub record World (E : Type 0) : Type 0 where
  pub log : Log
  pub env : E

abbrev pub Run : Type 0 → Type 0 → Type 0
Run E A = Exec (World E) Failure A

-- A call to the outside leaves the log alone.
abbrev pub ask : {E A : Type 0} → (E → Result Failure A × E) → Run E A
ask f w = ((f w.env).0, record w { env = (f w.env).1 })

abbrev pub peek : {E A : Type 0} → (E → A × E) → Run E A
peek f w = (ok (f w.env).0, record w { env = (f w.env).1 })

abbrev pub asked : {A : Type 0} → Result LogError A → Result Failure A
asked (ok a) = ok a
asked (err e) = err (log_error e)

-- A query, unless the connection loses it.
abbrev pub query_after : {E A : Type 0} → Option Bool → (Log → Result LogError A) → Run E A
query_after (some b) f w = (err database_error, w)
query_after none f w = (asked (f w.log), w)

abbrev pub written :
    {E : Type 0} → Result LogError Log → World E → Result Failure (Unit {0}) × World E
written (ok log) w = (ok tt, record w { log = log })
written (err e) w = (err (log_error e), w)

abbrev pub kept : Result LogError Log → Log → Log
kept (ok log) old = log
kept (err e) old = old

abbrev pub transact_after :
    {E : Type 0} → Option Bool → (Log → Result LogError Log) → Run E (Unit {0})
transact_after (some true) f w = (err database_error, record w { log = kept (f w.log) w.log })
transact_after (some false) f w = (err database_error, w)
transact_after none f w = written (f w.log) w

module _ {E : Type 0} (gateway : Gateway E) where
  abbrev pub query : {A : Type 0} → (Log → Result LogError A) → Run E A
  query f w =
      query_after (gateway.db_fault w.env).0 f (record w { env = (gateway.db_fault w.env).1 })

  abbrev pub transact : (Log → Result LogError Log) → Run E (Unit {0})
  transact f w =
      transact_after (gateway.db_fault w.env).0 f (record w { env = (gateway.db_fault w.env).1 })
