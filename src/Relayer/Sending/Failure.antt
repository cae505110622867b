-- ===== src/Relayer/Sending/Failure.antt =====
-- `send_queued_job` of services/relayer/src/worker.rs when the nonce cannot be read.
use digital_objects_network.Relayer.Job.{RelayJob, WorkerConfig}
use digital_objects_network.Relayer.Outside.{Outside, World, put_job}
use digital_objects_network.Relayer.Sending.{send_queued_job}
use digital_objects_network.Relayer.Store.{update_row, is_due, is_active, get_job}
use digital_objects_network.Relayer.Store.Rows.{put_job_found}
use digital_objects_network.Relayer.Updates.{start_sending}
use digital_objects_network.Relayer.Updates.JobOk.{start_sending-is_due, job_id-start_sending}
use digital_objects_network.Prelude.{ℤ, none, true, err, String, ◌≡◌, ◌≢◌, refl}

module _ {E : Type 0} (outside : Outside E) (cfg : WorkerConfig) (job : RelayJob) (w : World E)
    (connected : (env : E) → (outside.db_fault env).0 ≡ none) (e : String)
    (no_nonce : (env : E) → (outside.get_next_nonce env).0 ≡ err e) where
  -- While the database answers and the nonce cannot be read, an attempt at a due job in the table
  -- only marks it as being sent and counts the attempt, whatever the limit on attempts: the error is
  -- passed up, and the job is due at the very times at which it was due before.
  pub send_queued_job_no_nonce :
      (at : ℤ)
      → get_job job.job_id w.rows ≢ none
      → is_active job.status ≡ true
      → let job₁ = start_sending (outside.now_ts w.env).0 job in
        ((send_queued_job outside cfg job w).0 ≡ err e)
        × ((send_queued_job outside cfg job w).1.rows ≡ update_row job₁ w.rows)
        × (is_due at job₁ ≡ is_due at job)
  unfolding send_queued_job put_job
  send_queued_job_no_nonce at found active =
      let (now, env₁) = outside.now_ts w.env in
      let job₁ = start_sending now job in
      let found₁ : get_job job₁.job_id w.rows ≢ none = rw (job_id-start_sending now job) found in
      rw (connected env₁, put_job_found job₁ w.rows found₁, no_nonce (outside.db_fault env₁).1)
        (refl, refl, start_sending-is_due now at job active)
