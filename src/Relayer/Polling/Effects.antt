-- ===== src/Relayer/Polling/Effects.antt =====
-- Receipt polling and fee bumps (services/relayer/src/worker.rs) write nothing but the job itself,
-- and keep the invariant of its row.
use digital_objects_network.Prelude.{
  ℕ, ℤ, ◌^◌, ◌<◌, ◌≡◌, List, [], ◌∷◌, Option, none, some, true, false, String, is_some, Result, ok,
  err, arith,
}
use digital_objects_network.Relayer.Job.{is_terminal, RelayJob, WorkerConfig}
use digital_objects_network.Relayer.Updates.{stop_bumping}
use digital_objects_network.Relayer.Updates.JobOk.{
  Descends, Descends-mark_still_polling, Descends-stop_bumping, status-stop_bumping,
  tx_hash-stop_bumping, Descends-mark_confirmed, JobOk, Descends-updated, Descends-mark_bumped,
  Descends-refl,
}
use digital_objects_network.Relayer.Outside.{
  ReceiptOutcome, FeeEstimate, PendingTxFees, Outside, Exec,
}
use digital_objects_network.Relayer.Outside.Effect.{
  Effect, Effect-pure, Effect-ask, Effect-attempt, Effect-bind, Effect-if, Effect-read,
}
use digital_objects_network.Relayer.Sending.Effects.{
  put-Effect, fail_job_with_block-Effect, schedule_retry_or_fail-Effect,
}
use digital_objects_network.Relayer.Fees.{bumped_fees}
use digital_objects_network.Relayer.Outside.Effect.{
  Yields, Yields-pure, Yields-bind, Yields-if, Effect-bind_Yields, Effect-fail,
}
use digital_objects_network.Relayer.Updates.JobOk.{Descends-mined, Descends-postponed}
use digital_objects_network.Prelude.{ltb}
use digital_objects_network.Prelude.Int.{as_u64, as_u32}
use digital_objects_network.Relayer.Updates.{or_else, is_permanent_error}
use digital_objects_network.Relayer.Outside.Effect.{Effect-if}
use digital_objects_network.Relayer.Polling.{
  dropped_tx, after_scan, after_missing_tx, after_bump, bump_is_due, maybe_bump, after_receipt,
  poll_or_fail, poll_tx, poll_submitted_job, reverse,
}
use digital_objects_network.Relayer.Polling.{
  Flow, returned, carry_on, replace_tx, try_fee_bump, find_mined, mined_or, finish_poll,
}

module _ {E : Type 0} (outside : Outside E) (cfg : WorkerConfig) (Q : RelayJob → Type 0)
    (id : String) where
  replace_tx-Effect :
      (payload_bytes : List ℕ) (nonce : ℕ) (original : Option PendingTxFees) (network : FeeEstimate)
      → Effect Q id (replace_tx outside cfg payload_bytes nonce original network)
  unfolding replace_tx
  replace_tx-Effect payload_bytes nonce none network = Effect-pure Q id none
  replace_tx-Effect payload_bytes nonce (some original) network =
      Effect-bind Q id
        (Effect-ask Q id (
          outside.submit_payload_with_fees payload_bytes nonce
            (bumped_fees cfg.fee_bump_multiplier_pct network original)))
        λ tx_hash. Effect-pure Q id (some tx_hash)

  try_fee_bump-Effect :
      (payload_bytes : List ℕ) (nonce : ℕ) (tx_hash : String)
      → Effect Q id (try_fee_bump outside cfg payload_bytes nonce tx_hash)
  unfolding try_fee_bump
  try_fee_bump-Effect payload_bytes nonce tx_hash =
      Effect-bind Q id (Effect-ask Q id outside.get_current_fees) λ network.
        Effect-bind Q id (Effect-ask Q id (outside.get_pending_tx_fees tx_hash))
          λ original. replace_tx-Effect payload_bytes nonce original network

  mined_or-Effect :
      (hash : String) (receipt : Result String (Option ReceiptOutcome))
      {rest : Exec E (Option (String × Option ℕ))}
      → Effect Q id rest
      → Effect Q id (mined_or outside cfg hash receipt rest)
  mined_or-Effect hash (ok (some receipt)) h =
      Effect-if Q id receipt.success (Effect-pure Q id (some (hash, receipt.block_number))) h
  mined_or-Effect hash (ok none) h = h
  mined_or-Effect hash (err e) h = h

  find_mined-Effect : (hashes : List String) → Effect Q id (find_mined outside cfg hashes)
  unfolding find_mined
  find_mined-Effect [] = Effect-pure Q id none
  find_mined-Effect (hash ∷ hashes) =
      Effect-bind Q id (Effect-attempt Q id (Effect-ask Q id (outside.poll_receipt hash)))
        λ receipt. mined_or-Effect hash receipt (find_mined-Effect hashes)

-- A job that is being polled: it descends from the row, is not finished and has a hash.
record IsPolled (cfg : WorkerConfig) (a job : RelayJob) : Type 0 where
  from_row : Descends cfg a job
  unfinished : is_terminal job.status ≡ false
  sent : is_some job.tx_hash ≡ true

IsPolled-stop_bumping :
    (cfg : WorkerConfig) (max_ok : cfg.fee_bump_max < 2 ^ 32) (a job : RelayJob) (now : ℤ)
    → IsPolled cfg a job
    → IsPolled cfg a (stop_bumping cfg now job)
IsPolled-stop_bumping cfg max_ok a job now v = record {
  from_row = Descends-stop_bumping cfg max_ok a job now v.from_row;
  unfinished = rw (status-stop_bumping cfg now job) v.unfinished;
  sent = rw (tx_hash-stop_bumping cfg now job) v.sent;
}

module _ {E : Type 0} (outside : Outside E) (cfg : WorkerConfig)
    (max_ok : cfg.fee_bump_max < 2 ^ 32) (a : RelayJob) where
  abbrev Q : RelayJob → Type 0
  Q = Descends cfg a

  -- What is handed on to the end of the poll is still polled.
  abbrev Hands : Flow → Type 0
  Hands returned = Unit {0}
  Hands (carry_on job) = IsPolled cfg a job

  finish_poll-Effect :
      (now : ℤ) (flow : Flow) → Hands flow → Effect Q a.job_id (finish_poll outside cfg now flow)
  unfolding finish_poll
  finish_poll-Effect now returned h = Effect-pure Q a.job_id tt
  finish_poll-Effect now (carry_on job) h =
      put-Effect outside cfg max_ok a _
        (Descends-mark_still_polling cfg max_ok a job now h.sent h.from_row)

  dropped_tx-Yields :
      (job : RelayJob) (now : ℤ)
      → IsPolled cfg a job
      → Yields Q a.job_id Hands (dropped_tx outside cfg job now)
  unfolding dropped_tx
  dropped_tx-Yields job now v =
      let v₁ = IsPolled-stop_bumping cfg max_ok a job now v in
      Yields-bind Q a.job_id Hands (put-Effect outside cfg max_ok a _ v₁.from_row)
        λ _. Yields-pure Q a.job_id Hands (carry_on (stop_bumping cfg now job)) v₁

  after_scan-Yields :
      (job : RelayJob) (now : ℤ) (mined : Option (String × Option ℕ))
      → IsPolled cfg a job
      → Yields Q a.job_id Hands (after_scan outside cfg job now mined)
  unfolding after_scan
  after_scan-Yields job now (some (hash, block)) v =
      Yields-bind Q a.job_id Hands
        (put-Effect outside cfg max_ok a _
          (Descends-mined cfg a job now hash (or_else block job.block_number) v.sent v.from_row))
        λ _. Yields-pure Q a.job_id Hands returned tt
  after_scan-Yields job now none v =
      Yields-bind Q a.job_id Hands
        (put-Effect outside cfg max_ok a _
          (Descends-postponed cfg max_ok a job now v.unfinished v.from_row))
        λ _. Yields-pure Q a.job_id Hands returned tt

  after_missing_tx-Yields :
      (job : RelayJob) (now : ℤ) (nonce : ℕ) (current : Result String ℕ)
      → IsPolled cfg a job
      → Yields Q a.job_id Hands (after_missing_tx outside cfg job now nonce current)
  unfolding after_missing_tx
  after_missing_tx-Yields job now nonce (ok current) v =
      Yields-if Q a.job_id Hands (ltb nonce current)
        (λ _.
          Yields-bind Q a.job_id Hands
            (find_mined-Effect outside cfg Q a.job_id (reverse job.prev_tx_hashes))
            λ mined. after_scan-Yields job now mined v)
        (dropped_tx-Yields job now v)
  after_missing_tx-Yields job now nonce (err e) v = dropped_tx-Yields job now v

  after_bump-Yields :
      (job : RelayJob) (now : ℤ) (nonce : ℕ) (tx_hash : String) (r : Result String (Option String))
      → as_u32 job.bump_count < cfg.fee_bump_max
      → IsPolled cfg a job
      → Yields Q a.job_id Hands (after_bump outside cfg job now nonce tx_hash r)
  unfolding after_bump
  after_bump-Yields job now nonce tx_hash (ok (some new_tx_hash)) below v =
      Yields-bind Q a.job_id Hands
        (put-Effect outside cfg max_ok a _ (
          Descends-mark_bumped cfg max_ok a job now tx_hash new_tx_hash v.unfinished v.sent below
            v.from_row))
        λ _. Yields-pure Q a.job_id Hands returned tt
  after_bump-Yields job now nonce tx_hash (ok none) below v =
      Yields-bind Q a.job_id Hands
        (Effect-attempt Q a.job_id (Effect-ask Q a.job_id outside.get_next_nonce))
        λ current. after_missing_tx-Yields job now nonce current v
  after_bump-Yields job now nonce tx_hash (err e) below v =
      Yields-pure Q a.job_id Hands (carry_on job) v

  bump_is_due-below :
      (bump_after : ℕ) (now submitted_at bump_count : ℤ)
      → bump_is_due outside cfg bump_after now submitted_at bump_count ≡ true
      → as_u32 bump_count < cfg.fee_bump_max
  unfolding bump_is_due
  bump_is_due-below bump_after now submitted_at bump_count h = ground arith

  maybe_bump-Yields :
      (bump_after : Option ℕ) (submitted_at nonce : Option ℤ) (job : RelayJob) (now : ℤ)
      (tx_hash : String)
      → IsPolled cfg a job
      → Yields Q a.job_id Hands
          (maybe_bump outside cfg bump_after submitted_at nonce job now tx_hash)
  unfolding maybe_bump
  maybe_bump-Yields (some bump_after) (some submitted_at) (some nonce) job now tx_hash v =
      Yields-if Q a.job_id Hands
        (bump_is_due outside cfg bump_after now submitted_at job.bump_count)
        (λ due.
          Yields-bind Q a.job_id Hands
            (Effect-attempt Q a.job_id
              (try_fee_bump-Effect outside cfg Q a.job_id job.payload_bytes (as_u64 nonce) tx_hash))
            λ r.
              after_bump-Yields job now (as_u64 nonce) tx_hash r
                (bump_is_due-below bump_after now submitted_at job.bump_count due) v)
        (Yields-pure Q a.job_id Hands (carry_on job) v)
  maybe_bump-Yields _ _ _ job now tx_hash v = Yields-pure Q a.job_id Hands (carry_on job) v

  after_receipt-Effect :
      (job : RelayJob) (now : ℤ) (tx_hash : String) (r : Result String (Option ReceiptOutcome))
      → IsPolled cfg a job
      → Effect Q a.job_id (after_receipt outside cfg job now tx_hash r)
  unfolding after_receipt
  after_receipt-Effect job now tx_hash (ok (some receipt)) v =
      Effect-if Q a.job_id receipt.success
        (put-Effect outside cfg max_ok a _
          (Descends-mark_confirmed cfg max_ok a job now receipt.block_number v.sent v.from_row))
        (fail_job_with_block-Effect outside cfg max_ok a job now _ _ v.from_row)
  after_receipt-Effect job now tx_hash (ok none) v =
      Effect-bind_Yields Q a.job_id Hands
        (maybe_bump-Yields cfg.fee_bump_after_secs job.submitted_at job.nonce job now tx_hash v)
        λ flow h. finish_poll-Effect now flow h
  after_receipt-Effect job now tx_hash (err e) v =
      Effect-if Q a.job_id (is_permanent_error e)
        (fail_job_with_block-Effect outside cfg max_ok a job now _ _ v.from_row)
        (schedule_retry_or_fail-Effect outside cfg max_ok a job now e v.from_row)

  poll_or_fail-Effect :
      (now : ℤ) (tx_hash : String) (timeout : Option ℕ)
      → IsPolled cfg a a
      → Effect Q a.job_id (poll_or_fail outside cfg a now tx_hash timeout)
  unfolding poll_or_fail
  poll_or_fail-Effect now tx_hash (some timeout_secs) v =
      fail_job_with_block-Effect outside cfg max_ok a a now _ _ v.from_row
  poll_or_fail-Effect now tx_hash none v =
      let v₁ = Descends-updated cfg max_ok a a now v.from_row in
      Effect-bind Q a.job_id (put-Effect outside cfg max_ok a _ v₁) λ _.
        Effect-bind Q a.job_id
          (Effect-attempt Q a.job_id (Effect-ask Q a.job_id (outside.poll_receipt tx_hash)))
          λ r.
            after_receipt-Effect _ now tx_hash r
              (record { from_row = v₁; unfinished = v.unfinished; sent = v.sent })

  poll_tx-Effect :
      (now : ℤ) (tx_hash : Option String)
      → IsPolled cfg a a
      → Effect Q a.job_id (poll_tx outside cfg a now tx_hash)
  unfolding poll_tx
  poll_tx-Effect now none v = Effect-fail Q a.job_id "submitted job missing tx_hash"
  poll_tx-Effect now (some tx_hash) v = poll_or_fail-Effect now tx_hash _ v

  pub poll_submitted_job-Effect :
      is_terminal a.status ≡ false
      → is_some a.tx_hash ≡ true
      → JobOk cfg a
      → Effect Q a.job_id (poll_submitted_job outside cfg a)
  unfolding poll_submitted_job
  poll_submitted_job-Effect busy sent v =
      Effect-bind Q a.job_id (Effect-read Q a.job_id outside.now_ts) λ now.
        poll_tx-Effect now a.tx_hash
          (record { from_row = Descends-refl cfg max_ok a a v; unfinished = busy; sent = sent })
