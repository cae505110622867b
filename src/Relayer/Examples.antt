-- ===== src/Relayer/Examples.antt =====
-- The theorems on the relayer at concrete data.
mod Data
use digital_objects_network.Prelude.{
  List, ℤ, hash_eq, ℕ, pos, [], ◌∷◌, ◌++◌, none, some, true, Result, ok, err, String, Hash, ◌≡◌,
  ◌≢◌, refl, ◌+◌, ◌≤◌, arith, min, ◌^◌,
}
use digital_objects_network.Prelude.Int.{as_u32-zero, as_u32}
use digital_objects_network.Payload.Format.{Payload, verified}
use digital_objects_network.Relayer.Job.{RelayJob, WorkerConfig, queued, confirmed, submitted}
use digital_objects_network.Relayer.Store.{
  row_to_job, get_job, get_job_by_tx_final, is_due, update_row, next_due_job,
}
use digital_objects_network.Relayer.Store.Decoding.{Decodes}
use digital_objects_network.Relayer.Store.Table.{TableOk}
use digital_objects_network.Relayer.Store.Schedule.{IsPick, next_due_job-IsPick}
use digital_objects_network.Relayer.Updates.JobOk.{SameJob}
use digital_objects_network.Relayer.Outside.{
  Outside, World, FeeEstimate, PendingTxFees, put_job, pure, ◌>>◌,
}
use digital_objects_network.Relayer.Fees.{bumped_fees, backoff_secs, u64_max}
use digital_objects_network.Relayer.Fees.Bounds.{
  bumped_fees_double, backoff_secs-doubling_wait, doubling_wait, BlobDoubles,
}
use digital_objects_network.Relayer.Updates.{start_sending, mark_still_polling}
use digital_objects_network.Relayer.Sending.{send_queued_job}
use digital_objects_network.Relayer.Sending.Failure.{send_queued_job_no_nonce}
use digital_objects_network.Relayer.Polling.{after_receipt, after_missing_tx, find_mined, returned}
use digital_objects_network.Relayer.Polling.Stopped.{
  after_missing_tx-stopped, stopped, still_polled,
}
use digital_objects_network.Relayer.Worker.{run_worker, worker_turn}
use digital_objects_network.Relayer.Worker.Invariant.{
  run_worker-TableOk, run_worker-SameJob, run_worker_finished,
}
use digital_objects_network.Relayer.Api.{
  Services, SubmitProofRequest, submit_proof, answer, ok_200, accepted_202, to_submit_response,
  new_job,
}
use digital_objects_network.Relayer.Api.Submission.{Verifies, submit_proof_known, submit_proof_new}
use digital_objects_network.Relayer.System.{here, next, request, turn}
use digital_objects_network.Relayer.System.Safety.{Reach-TableOk, Reach-finished}
use digital_objects_network.Relayer.Examples.Data.{
  hash_one, services, silent_node, world, config, new_one, node, empty_world, done_two,
  world-TableOk, post, hash_two, two_found, payload_one, one_found, post-Verifies,
}

-- A request is answered before the first turn of the worker.
abbrev after_request : World ℕ
after_request = (submit_proof services post empty_world).1

Reach-TableOk_example : TableOk config (worker_turn node config after_request).1.rows
Reach-TableOk_example =
    Reach-TableOk services config (omega arith) {w = empty_world} refl
      (next (next here (request post)) turn)

Reach-finished_example : get_job "two" (worker_turn node config world).1.rows ≡ some done_two
Reach-finished_example =
    Reach-finished services config (omega arith) {w = world} "two" done_two world-TableOk
      (next here turn) two_found refl

run_worker-TableOk_example : TableOk config (run_worker node config 3 world).1.rows
run_worker-TableOk_example = run_worker-TableOk node config (omega arith) 3 world world-TableOk

run_worker-SameJob_example :
    (b : RelayJob) × (get_job "one" (run_worker node config 3 world).1.rows ≡ some b)
    × SameJob new_one b
    × Decodes b
run_worker-SameJob_example =
    run_worker-SameJob node config (omega arith) 3 world "one" new_one world-TableOk one_found

run_worker_finished_example : get_job "two" (run_worker node config 3 world).1.rows ≡ some done_two
run_worker_finished_example =
    run_worker_finished node config (omega arith) 3 world "two" done_two world-TableOk two_found
      refl

by_tx_found : get_job_by_tx_final hash_one world.rows ≡ some new_one
unfolding get_job_by_tx_final hash_eq
by_tx_found = refl

submit_proof_known_example :
    ((submit_proof services post world).0 ≡ answer (ok_200, to_submit_response new_one))
    × ((submit_proof services post world).1.rows ≡ world.rows)
submit_proof_known_example =
    submit_proof_known services post (11 ∷ []) payload_one post-Verifies (λ env. refl) world new_one
      by_tx_found (omega arith) tt

no_tx : get_job_by_tx_final hash_one empty_world.rows ≡ none
unfolding get_job_by_tx_final
no_tx = refl

no_job : get_job "new" empty_world.rows ≡ none
unfolding get_job
no_job = refl

abbrev posted : RelayJob
posted = new_job "new" (pos 10) (11 ∷ []) hash_one hash_two none

submit_proof_new_example :
    ((submit_proof services post empty_world).0 ≡ answer (accepted_202, to_submit_response posted))
    × ((submit_proof services post empty_world).1.rows ≡ empty_world.rows ++ posted ∷ [])
    × (get_job "new" (submit_proof services post empty_world).1.rows ≡ some posted)
    × (is_due (pos 10) posted ≡ true)
    × (row_to_job posted ≡ ok posted)
submit_proof_new_example =
    submit_proof_new services post (11 ∷ []) payload_one post-Verifies (λ env. refl) empty_world
      no_tx no_job

abbrev network : FeeEstimate
network = record { base_fee_per_gas = 30; max_priority_fee_per_gas = 2 }

abbrev original : PendingTxFees
original = record {
  max_fee_per_gas = 50;
  max_priority_fee_per_gas = 3;
  max_fee_per_blob_gas = some 4;
}

bumped_fees_double_example :
    ((100 ≤ (bumped_fees 100 network original).max_fee_per_gas)
      × (64 ≤ (bumped_fees 100 network original).max_fee_per_gas))
    × ((6 ≤ (bumped_fees 100 network original).max_priority_fee_per_gas)
        × (4 ≤ (bumped_fees 100 network original).max_priority_fee_per_gas))
    × BlobDoubles (some 4) (bumped_fees 100 network original).max_fee_per_blob_gas
bumped_fees_double_example = bumped_fees_double 100 network original (omega arith) (omega arith)

backoff_secs-doubling_wait_example : backoff_secs 70 2 (2 ^ 40) ≡ doubling_wait 2 (2 ^ 40) 69
backoff_secs-doubling_wait_example = backoff_secs-doubling_wait 69 2 (2 ^ 40) (omega arith)

next_due_job-IsPick_example : IsPick (pos 9) world.rows (next_due_job (pos 9) world.rows)
next_due_job-IsPick_example = next_due_job-IsPick (pos 9) world.rows

one_there : get_job "one" world.rows ≢ none
unfolding get_job
one_there e = cc

send_queued_job_no_nonce_example :
    ((send_queued_job silent_node config new_one world).0 ≡ err "no answer")
    × ((send_queued_job silent_node config new_one world).1.rows
        ≡ update_row (start_sending (pos 10) new_one) world.rows)
    × (is_due (pos 9) (start_sending (pos 10) new_one) ≡ is_due (pos 9) new_one)
send_queued_job_no_nonce_example =
    send_queued_job_no_nonce silent_node config new_one world (λ env. refl) "no answer"
      (λ env. refl) (pos 9) one_there refl

abbrev bumped_out : RelayJob
bumped_out = record new_one {
  status = submitted;
  tx_hash = some "0xdd";
  bump_count = pos 1;
  prev_tx_hashes = "0xcc" ∷ [];
}

no_receipt : (find_mined node config ("0xcc" ∷ []) world).0 ≡ ok none
unfolding find_mined
no_receipt = refl

after_missing_tx-stopped_example :
    (after_missing_tx node config bumped_out (pos 9) 4 (ok 5) world
      ≡ (put_job node (stopped node config bumped_out (pos 9)) >> pure returned)
          (find_mined node config ("0xcc" ∷ []) world).1)
    × ((stopped node config bumped_out (pos 9)).tx_hash ≡ some "0xdd")
    × ((times : List ℤ) (later : ℤ) (tx_hash : String) (v : World ℕ)
        → let polled = still_polled node config times (stopped node config bumped_out (pos 9)) in
          after_receipt node config polled later tx_hash (ok none) v
          ≡ put_job node (mark_still_polling config later polled) v)
after_missing_tx-stopped_example =
    after_missing_tx-stopped node config bumped_out (pos 9) 4 5 world (omega arith) (omega arith)
      no_receipt
