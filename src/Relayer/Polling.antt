-- ===== src/Relayer/Polling.antt =====
-- services/relayer/src/worker.rs: receipt polling and fee bumps. Logging is left out.
pub mod Effects
pub mod Stopped
use mathlib.Core.List.{reverse}
use digital_objects_network.Prelude.{
  ℕ, ℤ, pos, List, [], ◌∷◌, Option, none, some, Bool, ◌&&◌, String, if◌then◌else◌, Result, ok, err,
  ltb,
}
use digital_objects_network.Prelude.Int.{
  as_i64, as_u64, as_u32, add_i64, mul_i64, saturating_sub_i64, leb_ℤ, i32_as_i64,
}
use digital_objects_network.Relayer.Job.{message, receipt_timeout_after, RelayJob, WorkerConfig}
use digital_objects_network.Relayer.Fees.{bumped_fees}
use digital_objects_network.Relayer.Outside.{
  ReceiptOutcome, FeeEstimate, PendingTxFees, Outside, Exec, pure, attempt, ask, read, put_job,
  ◌>>=◌, ◌>>◌, fail,
}
use digital_objects_network.Relayer.Updates.{
  is_permanent_error, next_poll, mark_confirmed, mark_bumped, mark_still_polling, stop_bumping,
  or_else,
}
use digital_objects_network.Relayer.Sending.{fail_job_with_block, schedule_retry_or_fail}

-- How a block of `poll_submitted_job` ends: by `return Ok(())`, or by falling through.
pub data Flow : Type 0 where
  returned : Flow
  carry_on : RelayJob → Flow

module _ {E : Type 0} (outside : Outside E) (cfg : WorkerConfig) where
  pub replace_tx : List ℕ → ℕ → Option PendingTxFees → FeeEstimate → Exec E (Option String)
  replace_tx payload_bytes nonce none network = pure none
  replace_tx payload_bytes nonce (some original) network = do
    tx_hash ← ask (
        outside.submit_payload_with_fees payload_bytes nonce
          (bumped_fees cfg.fee_bump_multiplier_pct network original))
    pure (some tx_hash)

  pub try_fee_bump : List ℕ → ℕ → String → Exec E (Option String)
  try_fee_bump payload_bytes nonce current_tx_hash = do
    network ← ask outside.get_current_fees
    original ← ask (outside.get_pending_tx_fees current_tx_hash)
    replace_tx payload_bytes nonce original network

  -- The scan over the previous hashes, in the order given.
  abbrev mined_or :
      String
      → Result String (Option ReceiptOutcome)
      → Exec E (Option (String × Option ℕ))
      → Exec E (Option (String × Option ℕ))
  mined_or hash (ok (some receipt)) rest =
      if receipt.success then pure (some (hash, receipt.block_number)) else rest
  mined_or hash (ok none) rest = rest
  mined_or hash (err e) rest = rest

  unfoldable pub find_mined : List String → Exec E (Option (String × Option ℕ))
  find_mined [] = pure none
  find_mined (hash ∷ hashes) = attempt (ask (outside.poll_receipt hash)) >>= λ receipt.
      mined_or hash receipt (find_mined hashes)

  -- The nonce was consumed: a previous hash that was mined confirms the job; without one the bumps
  -- stop. Both arms return.
  pub after_scan : RelayJob → ℤ → Option (String × Option ℕ) → Exec E Flow
  after_scan job now (some (hash, mined_block)) = do
    put_job outside (
        mark_confirmed now (or_else mined_block job.block_number)
          (record job { tx_hash = some hash }))
    pure returned
  after_scan job now none = do
    put_job outside (record (stop_bumping cfg now job) { next_attempt_at = next_poll cfg now })
    pure returned

  -- The nonce was not consumed, or could not be read.
  pub dropped_tx : RelayJob → ℤ → Exec E Flow
  dropped_tx job now = do
    put_job outside (stop_bumping cfg now job)
    pure (carry_on (stop_bumping cfg now job))

  pub after_missing_tx : RelayJob → ℤ → ℕ → Result String ℕ → Exec E Flow
  after_missing_tx job now nonce (ok current_nonce) =
      if ltb nonce current_nonce
      then (find_mined (reverse job.prev_tx_hashes) >>= after_scan job now)
      else dropped_tx job now
  after_missing_tx job now nonce (err e) = dropped_tx job now

  pub after_bump : RelayJob → ℤ → ℕ → String → Result String (Option String) → Exec E Flow
  after_bump job now nonce tx_hash (ok (some new_tx_hash)) = do
    put_job outside (mark_bumped cfg now tx_hash new_tx_hash job)
    pure returned
  after_bump job now nonce tx_hash (ok none) = do
    current_nonce ← attempt (ask outside.get_next_nonce)
    after_missing_tx job now nonce current_nonce
  after_bump job now nonce tx_hash (err e) = pure (carry_on job)

  -- `if let Some(bump_after) = …`, `if let (Some(submitted_at), Some(nonce)) = …` and the threshold.
  pub bump_is_due : ℕ → ℤ → ℤ → ℤ → Bool
  bump_is_due bump_after now submitted_at bump_count =
      leb_ℤ (mul_i64 (as_i64 bump_after) (add_i64 (i32_as_i64 bump_count) (pos 1)))
        (saturating_sub_i64 now submitted_at)
      && ltb (as_u32 bump_count) cfg.fee_bump_max

  pub maybe_bump : Option ℕ → Option ℤ → Option ℤ → RelayJob → ℤ → String → Exec E Flow
  maybe_bump (some bump_after) (some submitted_at) (some nonce) job now tx_hash =
      if bump_is_due bump_after now submitted_at job.bump_count
      then (attempt (try_fee_bump job.payload_bytes (as_u64 nonce) tx_hash)
          >>= after_bump job now (as_u64 nonce) tx_hash)
      else pure (carry_on job)
  maybe_bump _ _ _ job now tx_hash = pure (carry_on job)

  pub finish_poll : ℤ → Flow → Exec E (Unit {0})
  finish_poll now returned = pure tt
  finish_poll now (carry_on job) = put_job outside (mark_still_polling cfg now job)

  -- The `match` on the receipt.
  pub after_receipt :
      RelayJob → ℤ → String → Result String (Option ReceiptOutcome) → Exec E (Unit {0})
  after_receipt job now tx_hash (ok (some receipt)) =
      if receipt.success
      then put_job outside (mark_confirmed now receipt.block_number job)
      else fail_job_with_block outside cfg job now receipt.block_number
          (message "transaction reverted on-chain")
  after_receipt job now tx_hash (ok none) =
      maybe_bump cfg.fee_bump_after_secs job.submitted_at job.nonce job now tx_hash
      >>= finish_poll now
  after_receipt job now tx_hash (err e) =
      if is_permanent_error e
      then fail_job_with_block outside cfg job now job.block_number (message e)
      else schedule_retry_or_fail outside cfg job now e

  abbrev pub timed_out : Option ℕ → Option ℤ → ℤ → Option ℕ
  timed_out (some timeout_secs) (some submitted_at) now =
      if leb_ℤ (as_i64 timeout_secs) (saturating_sub_i64 now submitted_at)
      then some timeout_secs
      else none
  timed_out _ _ now = none

  pub poll_or_fail : RelayJob → ℤ → String → Option ℕ → Exec E (Unit {0})
  poll_or_fail job now tx_hash (some timeout_secs) =
      fail_job_with_block outside cfg job now job.block_number (receipt_timeout_after timeout_secs)
  poll_or_fail job now tx_hash none = do
    let job₁ = record job { updated_at = now }
    put_job outside job₁
    receipt ← attempt (ask (outside.poll_receipt tx_hash))
    after_receipt job₁ now tx_hash receipt

  pub poll_tx : RelayJob → ℤ → Option String → Exec E (Unit {0})
  poll_tx job now none = fail "submitted job missing tx_hash"
  poll_tx job now (some tx_hash) =
      poll_or_fail job now tx_hash (timed_out cfg.receipt_timeout_secs job.submitted_at now)

  pub poll_submitted_job : RelayJob → Exec E (Unit {0})
  poll_submitted_job job = do now ← read outside.now_ts; poll_tx job now job.tx_hash
