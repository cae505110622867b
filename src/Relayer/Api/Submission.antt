-- ===== src/Relayer/Api/Submission.antt =====
-- What POST /api/v1/proofs does to the table (services/relayer/src/api.rs and db.rs).
use digital_objects_network.Relayer.Api.{
  Services, SubmitProofRequest, answer, accepted_202, ok_200, new_job, report, enqueue,
  verify_then_enqueue, check_then_verify, submit_proof, to_submit_response,
}
use digital_objects_network.Payload.Format.{
  Payload, Verdict, verified, foreign, unverified, panicked,
}
use digital_objects_network.Payload.Blob.{max_simple_blob_payload_bytes}
use digital_objects_network.Relayer.Job.{RelayJob, WorkerConfig}
use digital_objects_network.Relayer.Store.Table.{TableOk, Evolves}
use digital_objects_network.Relayer.Store.Decoding.{decode_row_fits, row_to_job_fits, BlockFits}
use digital_objects_network.Relayer.Store.{
  decode_row, row_to_job, get_job, get_job_by_tx_final, insert_row, is_due,
}
use digital_objects_network.Relayer.Store.Insertion.{
  Grows, insert_row-Grows, Grows-sound, insert_row_known, insert_row_new, get_job-append_new,
}
use digital_objects_network.Relayer.Updates.JobOk.{JobOk}
use digital_objects_network.Relayer.Outside.{
  World, Outside, inserted, existing, insert_job, conflicting, after_insert, continue,
  statement_after,
}
use digital_objects_network.Prelude.Int.{as_u32-zero}
use digital_objects_network.Prelude.{
  ℕ, ℤ, ◌≡◌, refl, List, Option, none, some, Result, ok, err, Bool, true, false, String, Hash,
  arith, inl, ltb, length, ◌<◌, ◌^◌, Bool-cases, inr, ◌≤◌, ◌++◌, ◌∷◌, [],
}

pub new_job-JobOk :
    (cfg : WorkerConfig) (id : String) (now : ℤ) (bytes : List ℕ) (tx root : Hash)
    (client : Option String)
    → JobOk cfg (new_job id now bytes tx root client)
unfolding new_job
new_job-JobOk cfg id now bytes tx root client = ground (arith, as_u32-zero)

module _ {E : Type 0} (outside : Outside E) where
  conflicting-rows :
      (job : RelayJob) (r : Option RelayJob) (w : World E) → (conflicting outside job r w).1 ≡ w
  conflicting-rows job none w = refl
  conflicting-rows job (some row) w = refl

  decoded-rows :
      (job : RelayJob) (r : Result String (Option RelayJob)) (w : World E)
      → (continue r (conflicting outside job) w).1.rows ≡ w.rows
  decoded-rows job (ok found) w = rw (conflicting-rows job found w)
  decoded-rows job (err e) w = refl

  select-rows :
      (job : RelayJob) (fault : Option String) (w : World E)
      → let found =
          statement_after fault
            (λ rows. (decode_row (get_job_by_tx_final job.tx_final rows), rows))
            w in
        (continue found.0 (conflicting outside job) found.1).1.rows ≡ w.rows
  select-rows job (some e) w = refl
  select-rows job none w = decoded-rows job (decode_row (get_job_by_tx_final job.tx_final w.rows)) w

  after_insert-rows :
      (job : RelayJob) (r : Result String Bool) (w : World E)
      → (continue r (after_insert outside job) w).1.rows ≡ w.rows
  after_insert-rows job (ok true) w = refl
  after_insert-rows job (ok false) w = select-rows job _ _
  after_insert-rows job (err e) w = refl

  insert-Grows :
      (cfg : WorkerConfig) (job : RelayJob) (fault : Option String) (w : World E)
      → JobOk cfg job
      → let done = statement_after fault (insert_row job) w in
        Grows cfg w.rows (continue done.0 (after_insert outside job) done.1).1.rows
  insert-Grows cfg job (some e) w v = inl refl
  insert-Grows cfg job none w v =
      rw
        (after_insert-rows job (insert_row job w.rows).0
          (record w { rows = (insert_row job w.rows).1 }))
        (insert_row-Grows cfg job w.rows v)

  insert_job-Grows :
      (cfg : WorkerConfig) (job : RelayJob) (w : World E)
      → JobOk cfg job
      → Grows cfg w.rows (insert_job outside job w).1.rows
  unfolding insert_job
  insert_job-Grows cfg job w v = insert-Grows cfg job _ _ v

module _ {E : Type 0} (outside : Outside E)
    (connected : (env : E) → (outside.db_fault env).0 ≡ none) (job : RelayJob) (w : World E) where
  insert_job_known :
      (row : RelayJob)
      → get_job_by_tx_final job.tx_final w.rows ≡ some row
      → row.attempt_count < 2 ^ 31
      → BlockFits row.block_number
      → ((insert_job outside job w).0 ≡ ok (existing row))
        × ((insert_job outside job w).1.rows ≡ w.rows)
  unfolding insert_job
  insert_job_known row e low fits =
      rw
        (
          connected w.env,
          insert_row_known job row w.rows e,
          connected (outside.db_fault w.env).1,
          e,
          decode_row_fits row low fits,
        )
        (refl, refl)

  insert_job_new :
      get_job_by_tx_final job.tx_final w.rows ≡ none
      → get_job job.job_id w.rows ≡ none
      → ((insert_job outside job w).0 ≡ ok inserted)
        × ((insert_job outside job w).1.rows ≡ w.rows ++ job ∷ [])
  unfolding insert_job
  insert_job_new e k = rw (connected w.env, insert_row_new job w.rows e k) (refl, refl)

module _ {E Proof : Type 0} (services : Services E Proof) (cfg : WorkerConfig) where
  verify-Grows :
      (client : Option String) (bytes : List ℕ) (verdict : Verdict Proof) (w : World E)
      → Grows cfg w.rows (verify_then_enqueue services client bytes verdict w).1.rows
  unfolding verify_then_enqueue enqueue
  verify-Grows client bytes (verified payload) w =
      insert_job-Grows services.outside cfg _ _
        (new_job-JobOk cfg _ _ bytes payload.tx_final payload.state_root client)
  verify-Grows client bytes foreign w = inl refl
  verify-Grows client bytes unverified w = inl refl
  verify-Grows client bytes panicked w = inl refl

  check-Grows :
      (client : Option String) (decoded : Option (List ℕ)) (w : World E)
      → Grows cfg w.rows (check_then_verify services client decoded w).1.rows
  unfolding check_then_verify
  check-Grows client none w = inl refl
  check-Grows client (some bytes) w =
      elim (Bool-cases (ltb max_simple_blob_payload_bytes (length bytes))) [
        | inl e ↦ rw e (inl refl)
        | inr e ↦ rw e (verify-Grows client bytes (services.parse_blob bytes) w)
      ]

  pub submit_proof_sound :
      (req : SubmitProofRequest) (w : World E)
      → TableOk cfg w.rows
      → TableOk cfg (submit_proof services req w).1.rows
        × Evolves w.rows (submit_proof services req w).1.rows
  unfolding submit_proof
  submit_proof_sound req w t =
      Grows-sound cfg w.rows _ t
        (check-Grows req.client_ref (services.decode_base64 req.payload_base64) w)

-- A request whose payload decodes, fits one blob and verifies.
pub record Verifies {E Proof : Type 0} (services : Services E Proof) (req : SubmitProofRequest)
    (bytes : List ℕ) (payload : Payload Proof) : Type 0 where
  pub decodes : services.decode_base64 req.payload_base64 ≡ some bytes
  pub fits : length bytes ≤ max_simple_blob_payload_bytes
  pub verifies : services.parse_blob bytes ≡ verified payload

module _ {E Proof : Type 0} (services : Services E Proof) (req : SubmitProofRequest)
    (bytes : List ℕ) (payload : Payload Proof) (request : Verifies services req bytes payload)
    (connected : (env : E) → (services.outside.db_fault env).0 ≡ none) (w : World E) where
  submit-enqueue : submit_proof services req w ≡ enqueue services req.client_ref bytes payload w
  unfolding submit_proof check_then_verify verify_then_enqueue
  submit-enqueue =
      let fits : ltb max_simple_blob_payload_bytes (length bytes) ≡ false =
        ground (arith, request.fits) in
      rw (request.decodes, fits, request.verifies)

  -- While the database answers, a proof whose `tx_final` is already in the table gets the job that
  -- is there, with the status 200, and the table stays as it is. The row's attempts are below 2^31
  -- and its block number below 2^63, so that it decodes.
  pub submit_proof_known :
      (row : RelayJob)
      → get_job_by_tx_final payload.tx_final w.rows ≡ some row
      → row.attempt_count < 2 ^ 31
      → BlockFits row.block_number
      → ((submit_proof services req w).0 ≡ answer (ok_200, to_submit_response row))
        × ((submit_proof services req w).1.rows ≡ w.rows)
  unfolding enqueue new_job report
  submit_proof_known row e low fits =
      let (now, env₁) = services.outside.now_ts w.env in
      let (job_id, env₂) = services.new_uuid env₁ in
      let (result, rows) =
        insert_job_known services.outside connected
          (new_job job_id now bytes payload.tx_final payload.state_root req.client_ref)
          (record w { env = env₂ }) row e low fits in
      rw (submit-enqueue, result, rows) (refl, refl)

  -- While the database answers, a proof with a new `tx_final`, under a fresh UUID, is accepted with
  -- the status 202: the job stands last in the table, queued, with the payload, no attempt made, and
  -- due from now on, and its row decodes.
  pub submit_proof_new :
      get_job_by_tx_final payload.tx_final w.rows ≡ none
      → get_job (services.new_uuid (services.outside.now_ts w.env).1).0 w.rows ≡ none
      → let (now, env₁) = services.outside.now_ts w.env in
        let id = (services.new_uuid env₁).0 in
        let job = new_job id now bytes payload.tx_final payload.state_root req.client_ref in
        ((submit_proof services req w).0 ≡ answer (accepted_202, to_submit_response job))
        × ((submit_proof services req w).1.rows ≡ w.rows ++ job ∷ [])
        × (get_job id (submit_proof services req w).1.rows ≡ some job)
        × (is_due now job ≡ true)
        × (row_to_job job ≡ ok job)
  unfolding enqueue new_job report
  submit_proof_new e k =
      let (now, env₁) = services.outside.now_ts w.env in
      let (job_id, env₂) = services.new_uuid env₁ in
      let job = new_job job_id now bytes payload.tx_final payload.state_root req.client_ref in
      let (result, rows) =
        insert_job_new services.outside connected job (record w { env = env₂ }) e k in
      rw (submit-enqueue, result, rows)
        (
          refl,
          refl,
          get_job-append_new w.rows job k,
          ground arith,
          row_to_job_fits job (omega arith) tt,
        )
