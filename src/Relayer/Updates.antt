-- ===== src/Relayer/Updates.antt =====
-- The assignments to the `mut job` in services/relayer/src/worker.rs, block by block.
pub mod JobOk
use text.Mathlib.Text.{find?}
use digital_objects_network.Prelude.{
  ℕ, ℤ, pos, ◌+◌, ◌^◌, ◌-◌, min, [], ◌∷◌, ◌++◌, Option, none, some, Bool, String, is_some,
}
use digital_objects_network.Prelude.Int.{as_i64, as_i32, add_i32, add_i64}
use digital_objects_network.Relayer.Job.{
  queued, sending, submitted, confirmed, failed, ErrorText, message, RelayJob, WorkerConfig,
}
use digital_objects_network.Relayer.Fees.{backoff_secs}

pub is_permanent_error : String → Bool
is_permanent_error e = is_some (find? e "invalid tx hash")

-- The assignments to `job` in `send_queued_job`, before and after the submission.
pub start_sending : ℤ → RelayJob → RelayJob
start_sending now job = record job {
  status = sending;
  attempt_count = min (job.attempt_count + 1) (2 ^ 32 - 1);
  updated_at = now;
}

pub next_poll : WorkerConfig → ℤ → Option ℤ
next_poll cfg now = some (add_i64 now (as_i64 cfg.receipt_poll_secs))

pub mark_submitted : WorkerConfig → ℤ → ℕ → String → RelayJob → RelayJob
unfolding next_poll
mark_submitted cfg now nonce tx_hash job = record job {
  status = submitted;
  tx_hash = some tx_hash;
  submitted_at = some now;
  next_attempt_at = next_poll cfg now;
  last_error = none;
  nonce = some (as_i64 nonce);
  bump_count = pos 0;
  updated_at = now;
}

pub mark_confirmed : ℤ → Option ℕ → RelayJob → RelayJob
mark_confirmed now block_number job = record job {
  status = confirmed;
  block_number = block_number;
  next_attempt_at = none;
  last_error = none;
  updated_at = now;
}

pub mark_failed : ℤ → Option ℕ → ErrorText → RelayJob → RelayJob
mark_failed now block_number reason job = record job {
  status = failed;
  block_number = block_number;
  next_attempt_at = none;
  last_error = some reason;
  updated_at = now;
}

pub mark_retry : WorkerConfig → ℤ → String → RelayJob → RelayJob
mark_retry cfg now msg job = record job {
  status = queued;
  next_attempt_at = some (
      add_i64 now
        (as_i64 (backoff_secs job.attempt_count cfg.retry_initial_secs cfg.retry_max_secs)));
  last_error = some (message msg);
  updated_at = now;
}

pub mark_bumped : WorkerConfig → ℤ → String → String → RelayJob → RelayJob
unfolding next_poll
mark_bumped cfg now old_hash new_tx_hash job = record job {
  prev_tx_hashes = job.prev_tx_hashes ++ old_hash ∷ [];
  tx_hash = some new_tx_hash;
  bump_count = add_i32 job.bump_count (pos 1);
  next_attempt_at = next_poll cfg now;
  updated_at = now;
}

unfoldable pub mark_still_polling : WorkerConfig → ℤ → RelayJob → RelayJob
unfolding next_poll
mark_still_polling cfg now job = record job {
  status = submitted;
  next_attempt_at = next_poll cfg now;
  updated_at = now;
}

unfoldable pub stop_bumping : WorkerConfig → ℤ → RelayJob → RelayJob
stop_bumping cfg now job = record job { bump_count = as_i32 cfg.fee_bump_max; updated_at = now }

abbrev pub or_else : Option ℕ → Option ℕ → Option ℕ
or_else none b = b
or_else (some a) b = some a
