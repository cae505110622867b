-- ===== src/Relayer/Sending.antt =====
-- services/relayer/src/worker.rs: submission, failure and retries. Logging is left out.
pub mod Effects
pub mod Failure
use digital_objects_network.Prelude.{ℕ, ℤ, Option, String, if◌then◌else◌, Result, ok, err, leb}
use digital_objects_network.Relayer.Job.{ErrorText, message, RelayJob, WorkerConfig}
use digital_objects_network.Relayer.Outside.{
  Outside, Exec, attempt, ask, read, put_job, ◌>>=◌, ◌>>◌,
}
use digital_objects_network.Relayer.Updates.{start_sending, mark_submitted, mark_failed, mark_retry}

module _ {E : Type 0} (outside : Outside E) (cfg : WorkerConfig) where
  pub fail_job_with_block : RelayJob → ℤ → Option ℕ → ErrorText → Exec E (Unit {0})
  fail_job_with_block job now block_number reason =
      put_job outside (mark_failed now block_number reason job)

  pub schedule_retry_or_fail : RelayJob → ℤ → String → Exec E (Unit {0})
  schedule_retry_or_fail job now msg =
      if leb cfg.max_attempts job.attempt_count
      then put_job outside (mark_failed now job.block_number (message msg) job)
      else put_job outside (mark_retry cfg now msg job)

  pub after_submission : RelayJob → ℤ → ℕ → Result String String → Exec E (Unit {0})
  after_submission job now nonce (ok tx_hash) =
      put_job outside (mark_submitted cfg now nonce tx_hash job)
  after_submission job now nonce (err e) = schedule_retry_or_fail job now e

  pub send_queued_job : RelayJob → Exec E (Unit {0})
  send_queued_job job = do
    now ← read outside.now_ts
    let job₁ = start_sending now job
    put_job outside job₁
    nonce ← ask outside.get_next_nonce
    sent ← attempt (ask (outside.submit_payload job₁.payload_bytes nonce))
    after_submission job₁ now nonce sent
