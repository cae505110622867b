-- ===== src/Relayer/Worker.antt =====
-- services/relayer/src/worker.rs: the dispatch of a due job and the worker's loop.
pub mod Invariant
use digital_objects_network.Prelude.{
  ℕ, zero, suc, Option, none, some, if◌then◌else◌, ok, is_some, ℤ, List, Result, String,
}
use digital_objects_network.Relayer.Job.{is_terminal, RelayJob, WorkerConfig}
use digital_objects_network.Relayer.Outside.{
  Outside, Exec, pure, read, statement, ◌>>=◌, ◌>>◌, logged,
}
use digital_objects_network.Relayer.Sending.{send_queued_job}
use digital_objects_network.Relayer.Polling.{poll_submitted_job}
use digital_objects_network.Relayer.Store

-- `recover_inflight_jobs` as a statement; the count of rows is only logged.
abbrev pub recover_rows : ℤ → List RelayJob → Result String (Unit {0}) × List RelayJob
recover_rows now rows = (ok tt, (Store.recover_inflight_jobs now rows).1)

module _ {E : Type 0} (outside : Outside E) (cfg : WorkerConfig) where
  pub process_due_job : RelayJob → Exec E (Unit {0})
  process_due_job job =
      if is_terminal job.status
      then pure tt
      else if is_some job.tx_hash
      then poll_submitted_job outside cfg job
      else send_queued_job outside cfg job

  abbrev process_picked : Option RelayJob → Exec E (Unit {0})
  process_picked none = pure tt
  process_picked (some job) = logged (process_due_job job)

  -- One turn of the loop of `run_worker` that is not stopped by the shutdown signal: a failure of
  -- `process_due_job` is only logged, one of the query ends the worker.
  pub worker_turn : Exec E (Unit {0})
  worker_turn = do
    now ← read outside.now_ts
    picked ← statement outside (λ rows. (Store.decode_row (Store.next_due_job now rows), rows))
    process_picked picked

  -- The turns before the shutdown signal, after the recovery at the start.
  pub worker_turns : ℕ → Exec E (Unit {0})
  worker_turns zero = pure tt
  worker_turns (suc n) = worker_turn >> worker_turns n

  pub run_worker : ℕ → Exec E (Unit {0})
  run_worker turns = do
    now ← read outside.now_ts
    statement outside (recover_rows now)
    worker_turns turns
