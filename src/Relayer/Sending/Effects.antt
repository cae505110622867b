-- ===== src/Relayer/Sending/Effects.antt =====
-- The submission and the retries of services/relayer/src/worker.rs write nothing but the job itself,
-- and keep the invariant of its row.
use digital_objects_network.Prelude.{
  ℕ, ℤ, ◌^◌, ◌<◌, ◌≡◌, Option, false, String, is_some, leb, Result, ok, err,
}
use digital_objects_network.Relayer.Job.{ErrorText, message, RelayJob, WorkerConfig}
use digital_objects_network.Relayer.Updates.JobOk.{
  JobOk, Descends, Descends-refl, Descends-start_sending, Descends-mark_submitted,
  Descends-mark_failed, Descends-mark_retry, tx_hash-start_sending,
}
use digital_objects_network.Relayer.Outside.{Outside, put_job}
use digital_objects_network.Relayer.Outside.Effect.{
  Effect, Effect-ask, Effect-read, Effect-attempt, Effect-bind, Effect-if, Effect-put_job,
}
use digital_objects_network.Relayer.Sending.{
  fail_job_with_block, schedule_retry_or_fail, after_submission, send_queued_job, start_sending,
}

module _ {E : Type 0} (outside : Outside E) (cfg : WorkerConfig)
    (max_ok : cfg.fee_bump_max < 2 ^ 32) (a : RelayJob) where
  pub put-Effect :
      (job : RelayJob) → Descends cfg a job → Effect (Descends cfg a) a.job_id (put_job outside job)
  put-Effect job v = Effect-put_job (Descends cfg a) a.job_id outside job v.0.same_id v

  pub fail_job_with_block-Effect :
      (job : RelayJob) (now : ℤ) (block_number : Option ℕ) (reason : ErrorText)
      → Descends cfg a job
      → Effect
          (Descends cfg a)
          a.job_id
          (fail_job_with_block outside cfg job now block_number reason)
  unfolding fail_job_with_block
  fail_job_with_block-Effect job now block_number reason v =
      put-Effect _ (Descends-mark_failed cfg max_ok a job now block_number reason v)

  pub schedule_retry_or_fail-Effect :
      (job : RelayJob) (now : ℤ) (msg : String)
      → Descends cfg a job
      → Effect (Descends cfg a) a.job_id (schedule_retry_or_fail outside cfg job now msg)
  unfolding schedule_retry_or_fail
  schedule_retry_or_fail-Effect job now msg v =
      Effect-if (Descends cfg a) a.job_id (leb cfg.max_attempts job.attempt_count)
        (put-Effect _ (Descends-mark_failed cfg max_ok a job now job.block_number (message msg) v))
        (put-Effect _ (Descends-mark_retry cfg max_ok a job now msg v))

  after_submission-Effect :
      (job : RelayJob) (now : ℤ) (nonce : ℕ) (sent : Result String String)
      → is_some job.tx_hash ≡ false
      → Descends cfg a job
      → Effect (Descends cfg a) a.job_id (after_submission outside cfg job now nonce sent)
  unfolding after_submission
  after_submission-Effect job now nonce (ok tx_hash) h v =
      put-Effect _ (Descends-mark_submitted cfg max_ok a job now nonce tx_hash h v)
  after_submission-Effect job now nonce (err e) h v = schedule_retry_or_fail-Effect job now e v

  pub send_queued_job-Effect :
      is_some a.tx_hash ≡ false
      → JobOk cfg a
      → Effect (Descends cfg a) a.job_id (send_queued_job outside cfg a)
  unfolding send_queued_job
  send_queued_job-Effect h v = Effect-bind _ _ (Effect-read _ _ outside.now_ts) λ now.
      let v₁ = Descends-start_sending cfg max_ok a a now (Descends-refl cfg max_ok a a v) in
      Effect-bind _ _ (put-Effect _ v₁) λ _.
        Effect-bind _ _ (Effect-ask _ _ outside.get_next_nonce) λ nonce.
          Effect-bind _ _
            (Effect-attempt _ _
              (Effect-ask _ _ (outside.submit_payload (start_sending now a).payload_bytes nonce)))
            λ sent. after_submission-Effect _ now nonce sent (rw (tx_hash-start_sending now a) h) v₁
