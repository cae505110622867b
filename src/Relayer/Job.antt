-- ===== src/Relayer/Job.antt =====
-- services/relayer/src/model.rs, the `JobStatus` of libs/wire-types/src/relayer.rs and the worker's
-- knobs. Timestamps and counters are the integers of their Rust types; texts are native strings.
use digital_objects_network.Prelude.{
  ℕ, ℤ, List, Option, Bool, true, false, Hash, String, str_eq, if◌then◌else◌, Result, ok, err,
}

pub data JobStatus : Type 0 where
  queued sending submitted confirmed failed : JobStatus

unfoldable pub as_str : JobStatus → String
as_str queued = "queued"
as_str sending = "sending"
as_str submitted = "submitted"
as_str confirmed = "confirmed"
as_str failed = "failed"

unfoldable pub from_db_str : String → Result String JobStatus
from_db_str value =
    if str_eq value "queued"
    then ok queued
    else if str_eq value "sending"
    then ok sending
    else if str_eq value "submitted"
    then ok submitted
    else if str_eq value "confirmed"
    then ok confirmed
    else if str_eq value "failed"
    then ok failed
    else err value

abbrev pub is_terminal : JobStatus → Bool
is_terminal confirmed = true
is_terminal failed = true
is_terminal _ = false

-- The text of `last_error`: a message as it came, or the one the worker formats with a number.
pub data ErrorText : Type 0 where
  message : String → ErrorText
  receipt_timeout_after : ℕ → ErrorText

pub record RelayJob : Type 0 where
  pub job_id : String
  pub status : JobStatus
  pub payload_bytes : List ℕ
  pub tx_final : Hash
  pub state_root : Hash
  pub client_ref : Option String
  pub attempt_count : ℕ  -- u32
  pub tx_hash : Option String
  pub submitted_at : Option ℤ  -- i64
  pub block_number : Option ℕ  -- u64
  pub last_error : Option ErrorText
  pub next_attempt_at : Option ℤ  -- i64
  pub nonce : Option ℤ  -- i64
  pub bump_count : ℤ  -- i32
  pub prev_tx_hashes : List String  -- most recent last
  pub created_at : ℤ  -- i64
  pub updated_at : ℤ  -- i64

-- `WorkerConfig`; every number is unsigned.
pub record WorkerConfig : Type 0 where
  pub max_attempts : ℕ
  pub retry_initial_secs : ℕ
  pub retry_max_secs : ℕ
  pub receipt_poll_secs : ℕ
  pub receipt_timeout_secs : Option ℕ
  pub idle_sleep_ms : ℕ
  pub fee_bump_after_secs : Option ℕ
  pub fee_bump_multiplier_pct : ℕ
  pub fee_bump_max : ℕ
