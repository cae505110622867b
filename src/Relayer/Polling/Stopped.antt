-- ===== src/Relayer/Polling/Stopped.antt =====
-- A job whose nonce was consumed and whose hashes have no receipt (services/relayer/src/worker.rs).
use mathlib.Core.List.{reverse}
use digital_objects_network.Relayer.Job.{RelayJob, WorkerConfig}
use digital_objects_network.Relayer.Outside.{Outside, World, put_job, pure, ◌>>◌}
use digital_objects_network.Relayer.Polling.{
  after_receipt, maybe_bump, bump_is_due, finish_poll, carry_on, returned, find_mined, after_scan,
  after_missing_tx,
}
use digital_objects_network.Relayer.Updates.{mark_still_polling, stop_bumping, next_poll}
use digital_objects_network.Prelude.Int.{as_u32, as_u32-as_i32}
use digital_objects_network.Prelude.{
  none, ℕ, ℤ, some, List, [], ◌∷◌, Option, ◌<◌, ◌^◌, lt→ltb, false, ok, String, ◌≡◌, ◌≤◌, refl,
  arith,
}

module _ {E : Type 0} (outside : Outside E) (cfg : WorkerConfig) where
  bump_is_due_stopped :
      (bump_after : ℕ) (now submitted_at bump_count : ℤ)
      → cfg.fee_bump_max ≤ as_u32 bump_count
      → bump_is_due outside cfg bump_after now submitted_at bump_count ≡ false
  unfolding bump_is_due
  bump_is_due_stopped bump_after now submitted_at bump_count h = ground arith

  maybe_bump_stopped :
      (bump_after : Option ℕ) (submitted_at nonce : Option ℤ) (job : RelayJob) (now : ℤ)
      (tx_hash : String)
      → cfg.fee_bump_max ≤ as_u32 job.bump_count
      → maybe_bump outside cfg bump_after submitted_at nonce job now tx_hash ≡ pure (carry_on job)
  unfolding maybe_bump
  maybe_bump_stopped (some bump_after) (some submitted_at) (some nonce) job now tx_hash h =
      rw (bump_is_due_stopped bump_after now submitted_at job.bump_count h)
  maybe_bump_stopped _ _ _ job now tx_hash h = refl

  after_receipt_stopped :
      (job : RelayJob) (now : ℤ) (tx_hash : String) (w : World E)
      → cfg.fee_bump_max ≤ as_u32 job.bump_count
      → after_receipt outside cfg job now tx_hash (ok none) w
        ≡ put_job outside (mark_still_polling cfg now job) w
  unfolding after_receipt finish_poll
  after_receipt_stopped job now tx_hash w h =
      rw (maybe_bump_stopped cfg.fee_bump_after_secs job.submitted_at job.nonce job now tx_hash h)

  -- The job after polls at these times that found no receipt.
  abbrev pub still_polled : List ℤ → RelayJob → RelayJob
  still_polled [] job = job
  still_polled (time ∷ times) job = still_polled times (mark_still_polling cfg time job)

  still_polled-bump_count :
      (times : List ℤ) (job : RelayJob) → (still_polled times job).bump_count ≡ job.bump_count
  unfolding mark_still_polling
  still_polled-bump_count [] job = refl
  still_polled-bump_count (time ∷ times) job =
      still_polled-bump_count times (mark_still_polling cfg time job)

  -- The job that is stored when the nonce was consumed and no known hash has a receipt.
  abbrev pub stopped : RelayJob → ℤ → RelayJob
  stopped job now = record (stop_bumping cfg now job) { next_attempt_at = next_poll cfg now }

  -- When the node has no pending transaction for a job, its nonce was consumed and the scan of its
  -- earlier hashes finds none of them mined, the job is stored with its hash and its count of bumps
  -- at the limit. From then on a poll without a receipt for that hash, after any number of such
  -- polls, asks the node nothing more, about the earlier hashes either: it only stores the next poll.
  -- The limit is a `u32`.
  pub after_missing_tx-stopped :
      (job : RelayJob) (now : ℤ) (nonce current_nonce : ℕ) (w : World E)
      → cfg.fee_bump_max < 2 ^ 32
      → nonce < current_nonce
      → (find_mined outside cfg (reverse job.prev_tx_hashes) w).0 ≡ ok none
      → (after_missing_tx outside cfg job now nonce (ok current_nonce) w
          ≡ (put_job outside (stopped job now) >> pure returned)
              (find_mined outside cfg (reverse job.prev_tx_hashes) w).1)
        × ((stopped job now).tx_hash ≡ job.tx_hash)
        × ((times : List ℤ) (later : ℤ) (tx_hash : String) (v : World E)
            → let polled = still_polled times (stopped job now) in
              after_receipt outside cfg polled later tx_hash (ok none) v
              ≡ put_job outside (mark_still_polling cfg later polled) v)
  unfolding after_missing_tx after_scan stop_bumping
  after_missing_tx-stopped job now nonce current_nonce w small consumed unmined =
      let limit = as_u32-as_i32 cfg.fee_bump_max small in
      (
        rw (lt→ltb nonce current_nonce consumed, unmined) refl,
        refl,
        λ times later tx_hash v.
            after_receipt_stopped (still_polled times (stopped job now)) later tx_hash v
              (rw (still_polled-bump_count times (stopped job now), limit) (omega arith)),
      )
