-- ===== src/Relayer/Outside.antt =====
-- What the relayer does not implement, as a parameter: the clock, the connection to Postgres and
-- the `EthGateway` trait of services/relayer/src/eth.rs over an Ethereum node. Each call moves a
-- state of the outside on and may fail. `Exec` is the async code over the rows and that state.
pub mod Effect
use digital_objects_network.Prelude.{
  true, false, ℕ, ℤ, List, Option, none, some, Bool, String, Result, ok, err,
}
use digital_objects_network.Relayer.Job.{RelayJob}
use digital_objects_network.Relayer.Store

pub record ReceiptOutcome : Type 0 where
  pub success : Bool
  pub block_number : Option ℕ

pub record FeeEstimate : Type 0 where
  pub base_fee_per_gas : ℕ
  pub max_priority_fee_per_gas : ℕ

pub record PendingTxFees : Type 0 where
  pub max_fee_per_gas : ℕ
  pub max_priority_fee_per_gas : ℕ
  pub max_fee_per_blob_gas : Option ℕ

pub record FeeOverrides : Type 0 where
  pub max_fee_per_gas : ℕ
  pub max_priority_fee_per_gas : ℕ
  pub max_fee_per_blob_gas : Option ℕ

-- `db_fault` tells whether the next statement is lost before it reaches the table.
pub record Outside (E : Type 0) : Type 0 where
  pub now_ts : E → ℤ × E
  pub db_fault : E → Option String × E
  pub submit_payload : List ℕ → ℕ → E → Result String String × E
  pub poll_receipt : String → E → Result String (Option ReceiptOutcome) × E
  pub get_next_nonce : E → Result String ℕ × E
  pub get_current_fees : E → Result String FeeEstimate × E
  pub get_pending_tx_fees : String → E → Result String (Option PendingTxFees) × E
  pub submit_payload_with_fees : List ℕ → ℕ → FeeOverrides → E → Result String String × E

pub record World (E : Type 0) : Type 0 where
  pub rows : List RelayJob
  pub env : E

abbrev pub Exec : Type 0 → Type 0 → Type 0
Exec E A = World E → Result String A × World E

abbrev pub pure : {E A : Type 0} → A → Exec E A
pure a w = (ok a, w)

-- `?` on the left of a continuation.
abbrev pub continue : {E A B : Type 0} → Result String A → (A → Exec E B) → Exec E B
continue (ok a) f w = f a w
continue (err e) f w = (err e, w)

infixl 5 ◌>>=◌ ◌>>◌
abbrev pub ◌>>=◌ : {E A B : Type 0} → Exec E A → (A → Exec E B) → Exec E B
◌>>=◌ m f w = continue (m w).0 f (m w).1

abbrev pub ◌>>◌ : {E B : Type 0} → Exec E (Unit {0}) → Exec E B → Exec E B
m >> k = m >>= λ _. k

-- A call whose `Result` is matched on and not passed up by `?`.
abbrev pub attempt : {E A : Type 0} → Exec E A → Exec E (Result String A)
attempt m w = (ok (m w).0, (m w).1)

abbrev pub fail : {E A : Type 0} → String → Exec E A
fail e w = (err e, w)

-- The caller logs a failure and goes on.
abbrev pub logged : {E : Type 0} → Exec E (Unit {0}) → Exec E (Unit {0})
logged m w = (ok tt, (m w).1)

-- A call to the outside leaves the rows alone.
abbrev pub ask : {E A : Type 0} → (E → Result String A × E) → Exec E A
ask f w = ((f w.env).0, record w { env = (f w.env).1 })

abbrev pub read : {E A : Type 0} → (E → A × E) → Exec E A
read f w = (ok (f w.env).0, record w { env = (f w.env).1 })

-- A statement runs on the table unless the connection loses it.
abbrev pub statement_after :
    {E A : Type 0} → Option String → (List RelayJob → Result String A × List RelayJob) → Exec E A
statement_after (some e) f w = (err e, w)
statement_after none f w = ((f w.rows).0, record w { rows = (f w.rows).1 })

pub data InsertJobResult : Type 0 where
  inserted : InsertJobResult
  existing : RelayJob → InsertJobResult

module _ {E : Type 0} (outside : Outside E) where
  open outside use {db_fault}

  abbrev pub statement : {A : Type 0} → (List RelayJob → Result String A × List RelayJob) → Exec E A
  statement f w = statement_after (db_fault w.env).0 f (record w { env = (db_fault w.env).1 })

  unfoldable pub put_job : RelayJob → Exec E (Unit {0})
  put_job job = statement (Store.put_job job)

  unfoldable pub get_job : String → Exec E (Option RelayJob)
  get_job id = statement (λ rows. (Store.decode_row (Store.get_job id rows), rows))

  abbrev pub conflicting : RelayJob → Option RelayJob → Exec E InsertJobResult
  conflicting job (some row) = pure (existing row)
  conflicting job none = fail "idempotent insert conflict but existing job not found"

  abbrev pub after_insert : RelayJob → Bool → Exec E InsertJobResult
  after_insert job true = pure inserted
  after_insert job false =
      statement (λ rows. (Store.decode_row (Store.get_job_by_tx_final job.tx_final rows), rows))
      >>= conflicting job

  -- The insertion, and the lookup of the row that it met.
  unfoldable pub insert_job : RelayJob → Exec E InsertJobResult
  insert_job job = statement (Store.insert_row job) >>= after_insert job
