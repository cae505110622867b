-- ===== src/Relayer/Worker/Invariant.antt =====
-- What the worker of services/relayer/src/worker.rs keeps of the whole table, turn after turn.
use digital_objects_network.Relayer.Outside.{◌>>=◌, read, statement}
use digital_objects_network.Prelude.{
  ◌∙◌, ℕ, ℤ, zero, suc, ◌^◌, ◌<◌, ◌≡◌, refl, Option, none, some, false, String, Result, ok, err,
  is_some, List, Bool-cases, inl, inr, true, ap,
}
use digital_objects_network.Relayer.Job.{RelayJob, WorkerConfig, is_terminal}
use digital_objects_network.Relayer.Worker.{
  process_due_job, process_picked, worker_turn, worker_turns, Outside, Exec, recover_rows,
  run_worker,
}
use digital_objects_network.Relayer.Outside.{World, statement_after, continue}
use digital_objects_network.Relayer.Updates.JobOk.{JobOk, Descends, SameJob}
use digital_objects_network.Relayer.Store.Decoding.{decode_row-some, Decodes, row_to_job-Decodes}
use digital_objects_network.Relayer.Store.{decode_row}
use digital_objects_network.Relayer.Store.Table.{
  TableOk, Evolves-refl, Evolves, next_due_job-get_job, is_due-unfinished, TableOk-update_row,
  Evolves-update_row, Evolves-trans,
}
use digital_objects_network.Relayer.Store.{next_due_job, get_job}
use digital_objects_network.Relayer.Outside.Effect.{Effect, Writes}
use digital_objects_network.Relayer.Polling.Effects.{poll_submitted_job-Effect}
use digital_objects_network.Relayer.Store.Rows.{All-get_job}
use digital_objects_network.Relayer.Sending.Effects.{send_queued_job-Effect}
use digital_objects_network.Relayer.Store.Recovery.{TableOk-recover, Evolves-recover}

module _ {E : Type 0} (outside : Outside E) (cfg : WorkerConfig)
    (max_ok : cfg.fee_bump_max < 2 ^ 32) where
  process_due_job-Effect :
      (a : RelayJob)
      → JobOk cfg a
      → is_terminal a.status ≡ false
      → Effect (Descends cfg a) a.job_id (process_due_job outside cfg a)
  unfolding process_due_job
  process_due_job-Effect a v busy = elim (Bool-cases (is_some a.tx_hash)) [
    | inl sent ↦ rw (busy, sent) (poll_submitted_job-Effect outside cfg max_ok a busy sent v)
    | inr unsent ↦ rw (busy, unsent) (send_queued_job-Effect outside cfg max_ok a unsent v)
  ]

  -- A turn, or any number of them, leaves a good table good and its rows recognisable.
  abbrev pub Sound : {A : Type 0} → Exec E A → Type 0
  Sound m =
      (w : World E) → TableOk cfg w.rows → TableOk cfg (m w).1.rows × Evolves w.rows (m w).1.rows

  Writes-sound :
      (a : RelayJob) (rows rows' : List RelayJob)
      → TableOk cfg rows
      → get_job a.job_id rows ≡ some a
      → is_terminal a.status ≡ false
      → Writes (Descends cfg a) a.job_id rows rows'
      → TableOk cfg rows' × Evolves rows rows'
  Writes-sound a rows rows' t e busy (inl same) = rw same (t, Evolves-refl rows)
  Writes-sound a rows rows' t e busy (inr (job, k, (s, v), same)) =
      let found : get_job job.job_id rows ≡ some a = rw k e in
      rw same
        (TableOk-update_row cfg rows a job t found s v, Evolves-update_row rows a job found busy s)

  picked_sound :
      (now : ℤ) (picked : Option RelayJob) (w : World E)
      → TableOk cfg w.rows
      → next_due_job now w.rows ≡ picked
      → TableOk cfg (process_picked outside cfg picked w).1.rows
        × Evolves w.rows (process_picked outside cfg picked w).1.rows
  picked_sound now none w t e = (t, Evolves-refl w.rows)
  picked_sound now (some a) w t e =
      let (found, due) = next_due_job-get_job now w.rows a t.ids_unique e in
      let busy = is_due-unfinished now a due in
      Writes-sound a w.rows _ t found busy (
        (process_due_job-Effect a (All-get_job (JobOk cfg) a.job_id w.rows a t.jobs_ok found)
            busy).writes
          w)

  decoded_sound :
      (now : ℤ) (decoded : Result String (Option RelayJob)) (w : World E)
      → TableOk cfg w.rows
      → decode_row (next_due_job now w.rows) ≡ decoded
      → TableOk cfg (continue decoded (process_picked outside cfg) w).1.rows
        × Evolves w.rows (continue decoded (process_picked outside cfg) w).1.rows
  decoded_sound now (err e) w t h = (t, Evolves-refl w.rows)
  decoded_sound now (ok none) w t h = (t, Evolves-refl w.rows)
  decoded_sound now (ok (some a)) w t h =
      picked_sound now (some a) w t (decode_row-some (next_due_job now w.rows) a h)

  query_sound :
      (now : ℤ) (fault : Option String) (w : World E)
      → TableOk cfg w.rows
      → let query = statement_after fault (λ rows. (decode_row (next_due_job now rows), rows)) w in
        TableOk cfg (continue query.0 (process_picked outside cfg) query.1).1.rows
        × Evolves w.rows (continue query.0 (process_picked outside cfg) query.1).1.rows
  query_sound now (some e) w t = (t, Evolves-refl w.rows)
  query_sound now none w t = decoded_sound now (decode_row (next_due_job now w.rows)) w t refl

  pub worker_turn-Sound : Sound (worker_turn outside cfg)
  unfolding worker_turn
  worker_turn-Sound w t = query_sound _ _ _ t

  continue-Sound :
      {A B : Type 0} (r : Result String A) (f : A → Exec E B) (w : World E)
      → TableOk cfg w.rows
      → ((x : A) → Sound (f x))
      → TableOk cfg (continue r f w).1.rows × Evolves w.rows (continue r f w).1.rows
  continue-Sound (ok x) f w t k = k x w t
  continue-Sound (err e) f w t k = (t, Evolves-refl w.rows)

  Sound-bind :
      {A B : Type 0} (m : Exec E A) (f : A → Exec E B)
      → Sound m
      → ((x : A) → Sound (f x))
      → Sound (m >>= f)
  Sound-bind m f h k w t =
      let (t₁, e₁) = h w t in
      let (t₂, e₂) = continue-Sound (m w).0 f (m w).1 t₁ k in
      (t₂, Evolves-trans w.rows (m w).1.rows _ e₁ e₂)

  worker_turns-Sound : (n : ℕ) → Sound (worker_turns outside cfg n)
  unfolding worker_turns
  worker_turns-Sound zero w t = (t, Evolves-refl w.rows)
  worker_turns-Sound (suc n) w t =
      Sound-bind (worker_turn outside cfg) _ worker_turn-Sound (λ _. worker_turns-Sound n) w t

  pub recover_sound :
      (now : ℤ) (fault : Option String) (w : World E)
      → TableOk cfg w.rows
      → let recover = statement_after fault (recover_rows now) w in
        TableOk cfg recover.1.rows × Evolves w.rows recover.1.rows
  recover_sound now (some e) w t = (t, Evolves-refl w.rows)
  recover_sound now none w t = (TableOk-recover cfg now w.rows t, Evolves-recover now w.rows)

  run_worker-Sound : (turns : ℕ) → Sound (run_worker outside cfg turns)
  unfolding run_worker
  run_worker-Sound turns =
      let after = worker_turns outside cfg turns in
      let recovered = λ (now : ℤ). statement outside (recover_rows now) in
      Sound-bind (read outside.now_ts) (λ now. recovered now >>= λ _. after)
        (λ w t. (t, Evolves-refl w.rows))
        λ now.
          Sound-bind (recovered now) (λ _. after) (λ w t. recover_sound now _ _ t)
            λ _. worker_turns-Sound turns

  -- From a table whose jobs satisfy the invariant and whose two keys are unique, the worker reaches
  -- such a table again after its recovery and any number of turns, whatever the clock, the node and
  -- the connection to the database do.
  pub run_worker-TableOk :
      (turns : ℕ) (w : World E)
      → TableOk cfg w.rows
      → TableOk cfg (run_worker outside cfg turns w).1.rows
  run_worker-TableOk turns w t = (run_worker-Sound turns w t).0

  -- Every row is found under its key after any run of the worker, with the same payload, hashes,
  -- client reference and creation time, and no fewer attempts, as the unsigned number that was bound.
  -- The row decodes to the job, unless its attempts have reached 2^31 or its block number 2^63.
  pub run_worker-SameJob :
      (turns : ℕ) (w : World E) (id : String) (a : RelayJob)
      → TableOk cfg w.rows
      → get_job id w.rows ≡ some a
      → (b : RelayJob) × (get_job id (run_worker outside cfg turns w).1.rows ≡ some b)
        × SameJob a b
        × Decodes b
  run_worker-SameJob turns w id a t e =
      let (b, f, p) = (run_worker-Sound turns w t).1 id a e in (b, f, p.0, row_to_job-Decodes b)

  -- No run of the worker changes anything in a confirmed or failed job.
  pub run_worker_finished :
      (turns : ℕ) (w : World E) (id : String) (a : RelayJob)
      → TableOk cfg w.rows
      → get_job id w.rows ≡ some a
      → is_terminal a.status ≡ true
      → get_job id (run_worker outside cfg turns w).1.rows ≡ some a
  run_worker_finished turns w id a t e h =
      let (b, f, p) = (run_worker-Sound turns w t).1 id a e in f ∙ ap some (p.1 h)
