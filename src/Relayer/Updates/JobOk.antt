-- ===== src/Relayer/Updates/JobOk.antt =====
-- The invariant of one row of `relay_jobs`, and what the worker never changes in it.
use digital_objects_network.Prelude.{
  ℕ, ℤ, ◌^◌, ◌≤◌, ◌<◌, ◌≡◌, [], ◌∷◌, Option, none, true, false, String, arith, length,
  length-append, is_some, some, refl,
}
use digital_objects_network.Prelude.Int.{as_u32, as_u32-as_i32, as_u32-add_i32, as_u32-zero}
use digital_objects_network.Relayer.Job.{
  submitted, confirmed, failed, is_terminal, ErrorText, RelayJob, WorkerConfig,
}
use digital_objects_network.Relayer.Updates.{
  start_sending, mark_submitted, mark_confirmed, mark_failed, mark_retry, mark_bumped,
  mark_still_polling, stop_bumping, next_poll,
}
use digital_objects_network.Relayer.Store.{is_active, is_due}

-- A finished job is never scheduled; a confirmed one has a hash and no error, a failed one an error;
-- a submitted one has a hash; a job with a hash has the time and the nonce of its submission; one
-- without has no earlier hash; the bumps, and with them the earlier hashes, stay within the limit.
pub record JobOk (cfg : WorkerConfig) (job : RelayJob) : Type 0 where
  pub terminal_idle : is_terminal job.status ≡ true → job.next_attempt_at ≡ none
  pub confirmed_sent : job.status ≡ confirmed → is_some job.tx_hash ≡ true
  pub confirmed_clean : job.status ≡ confirmed → job.last_error ≡ none
  pub failed_explained : job.status ≡ failed → is_some job.last_error ≡ true
  pub submitted_sent : job.status ≡ submitted → is_some job.tx_hash ≡ true
  pub sent_dated : is_some job.tx_hash ≡ true → is_some job.submitted_at ≡ true
  pub sent_numbered : is_some job.tx_hash ≡ true → is_some job.nonce ≡ true
  pub unsent_fresh : is_some job.tx_hash ≡ false → job.prev_tx_hashes ≡ []
  pub bumps_bounded : as_u32 job.bump_count ≤ cfg.fee_bump_max
  pub hashes_bounded : length job.prev_tx_hashes ≤ as_u32 job.bump_count
  pub attempts_bounded : job.attempt_count < 2 ^ 32

-- The identity and the payload of a job stay, and its attempts are only counted up.
pub record SameJob (a b : RelayJob) : Type 0 where
  pub same_id : b.job_id ≡ a.job_id
  pub same_payload : b.payload_bytes ≡ a.payload_bytes
  pub same_tx_final : b.tx_final ≡ a.tx_final
  pub same_state_root : b.state_root ≡ a.state_root
  pub same_client : b.client_ref ≡ a.client_ref
  pub same_created : b.created_at ≡ a.created_at
  pub attempts_grow : a.attempt_count ≤ b.attempt_count

abbrev pub Descends : WorkerConfig → RelayJob → RelayJob → Type 0
Descends cfg a b = SameJob a b × JobOk cfg b

module _ (cfg : WorkerConfig) (max_ok : cfg.fee_bump_max < 2 ^ 32) (a job : RelayJob) where
  pub Descends-refl : JobOk cfg a → Descends cfg a a
  Descends-refl v = (ground arith, v)

  pub Descends-updated :
      (now : ℤ) → Descends cfg a job → Descends cfg a (record job { updated_at = now })
  Descends-updated now v = (ground arith, ground arith)

  pub Descends-start_sending :
      (now : ℤ) → Descends cfg a job → Descends cfg a (start_sending now job)
  unfolding start_sending
  Descends-start_sending now v = (ground arith, ground arith)

  pub Descends-mark_submitted :
      (now : ℤ) (nonce : ℕ) (tx_hash : String)
      → is_some job.tx_hash ≡ false
      → Descends cfg a job
      → Descends cfg a (mark_submitted cfg now nonce tx_hash job)
  unfolding mark_submitted
  Descends-mark_submitted now nonce tx_hash h v =
      (ground arith, ground (arith, as_u32-zero, v.1.unsent_fresh h))

  pub Descends-mark_confirmed :
      (now : ℤ) (block_number : Option ℕ)
      → is_some job.tx_hash ≡ true
      → Descends cfg a job
      → Descends cfg a (mark_confirmed now block_number job)
  unfolding mark_confirmed
  Descends-mark_confirmed now block_number h v = (ground arith, ground arith)

  pub Descends-mark_failed :
      (now : ℤ) (block_number : Option ℕ) (reason : ErrorText)
      → Descends cfg a job
      → Descends cfg a (mark_failed now block_number reason job)
  unfolding mark_failed
  Descends-mark_failed now block_number reason v = (ground arith, ground arith)

  pub Descends-mark_retry :
      (now : ℤ) (msg : String) → Descends cfg a job → Descends cfg a (mark_retry cfg now msg job)
  unfolding mark_retry
  Descends-mark_retry now msg v = (ground arith, ground arith)

  pub Descends-mark_bumped :
      (now : ℤ) (old_hash new_tx_hash : String)
      → is_terminal job.status ≡ false
      → is_some job.tx_hash ≡ true
      → as_u32 job.bump_count < cfg.fee_bump_max
      → Descends cfg a job
      → Descends cfg a (mark_bumped cfg now old_hash new_tx_hash job)
  unfolding mark_bumped
  Descends-mark_bumped now old_hash new_tx_hash busy h below v = (
    ground arith,
    ground (
      arith,
      as_u32-add_i32 job.bump_count (omega (arith, max_ok)),
      length-append job.prev_tx_hashes (old_hash ∷ []),
    ),
  )

  pub Descends-mark_still_polling :
      (now : ℤ)
      → is_some job.tx_hash ≡ true
      → Descends cfg a job
      → Descends cfg a (mark_still_polling cfg now job)
  unfolding mark_still_polling
  Descends-mark_still_polling now h v = (ground arith, ground arith)

  pub Descends-stop_bumping :
      (now : ℤ) → Descends cfg a job → Descends cfg a (stop_bumping cfg now job)
  unfolding stop_bumping
  Descends-stop_bumping now v =
      (ground arith, ground (arith, as_u32-as_i32 cfg.fee_bump_max max_ok))

pub tx_hash-start_sending :
    (now : ℤ) (job : RelayJob) → (start_sending now job).tx_hash ≡ job.tx_hash
unfolding start_sending
tx_hash-start_sending now job = refl

pub tx_hash-stop_bumping :
    (cfg : WorkerConfig) (now : ℤ) (job : RelayJob)
    → (stop_bumping cfg now job).tx_hash ≡ job.tx_hash
unfolding stop_bumping
tx_hash-stop_bumping cfg now job = refl

-- A job that stops bumping and is polled again later.
pub Descends-postponed :
    (cfg : WorkerConfig) (max_ok : cfg.fee_bump_max < 2 ^ 32) (a job : RelayJob) (now : ℤ)
    → is_terminal job.status ≡ false
    → Descends cfg a job
    → Descends cfg a (record (stop_bumping cfg now job) { next_attempt_at = next_poll cfg now })
unfolding stop_bumping
Descends-postponed cfg max_ok a job now busy v =
    (ground arith, ground (arith, as_u32-as_i32 cfg.fee_bump_max max_ok))

-- A previous hash that was mined becomes the job's hash.
pub Descends-mined :
    (cfg : WorkerConfig) (a job : RelayJob) (now : ℤ) (hash : String) (block_number : Option ℕ)
    → is_some job.tx_hash ≡ true
    → Descends cfg a job
    → Descends cfg a (mark_confirmed now block_number (record job { tx_hash = some hash }))
unfolding mark_confirmed
Descends-mined cfg a job now hash block_number h v = (ground arith, ground arith)

pub status-stop_bumping :
    (cfg : WorkerConfig) (now : ℤ) (job : RelayJob) → (stop_bumping cfg now job).status ≡ job.status
unfolding stop_bumping
status-stop_bumping cfg now job = refl

-- A job that starts sending keeps its place in the queue.
pub start_sending-is_due :
    (now at : ℤ) (job : RelayJob)
    → is_active job.status ≡ true
    → is_due at (start_sending now job) ≡ is_due at job
unfolding start_sending
start_sending-is_due now at job h = ground arith

pub job_id-start_sending : (now : ℤ) (job : RelayJob) → (start_sending now job).job_id ≡ job.job_id
unfolding start_sending
job_id-start_sending now job = refl
