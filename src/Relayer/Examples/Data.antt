-- ===== src/Relayer/Examples/Data.antt =====
-- A node that takes every transaction and finds no receipt, a database that answers, a clock that
-- counts its readings, and a table of two jobs.
use digital_objects_network.Prelude.{
  hash_eq, ℕ, pos, [], ◌∷◌, none, some, Result, ok, err, String, Hash, ◌≡◌, refl, ◌+◌, arith,
}
use digital_objects_network.Prelude.Int.{as_u32-zero}
use digital_objects_network.Payload.Format.{Payload, verified}
use digital_objects_network.Relayer.Job.{RelayJob, WorkerConfig, queued, confirmed}
use digital_objects_network.Relayer.Store.{get_job, get_job_by_tx_final}
use digital_objects_network.Relayer.Store.Table.{TableOk}
use digital_objects_network.Relayer.Outside.{Outside, World}
use digital_objects_network.Relayer.Api.{Services, SubmitProofRequest}
use digital_objects_network.Relayer.Api.Submission.{Verifies}

abbrev pub node_with : Result String ℕ → Outside ℕ
node_with nonce = record {
  now_ts = λ n. (pos n, n + 1);
  db_fault = λ n. (none, n);
  submit_payload = λ bytes nonce n. (ok "0xaa", n);
  poll_receipt = λ hash n. (ok none, n);
  get_next_nonce = λ n. (nonce, n);
  get_current_fees = λ n. (ok (record { base_fee_per_gas = 10; max_priority_fee_per_gas = 1 }), n);
  get_pending_tx_fees = λ hash n. (ok none, n);
  submit_payload_with_fees = λ bytes nonce fees n. (ok "0xbb", n);
}

abbrev pub node : Outside ℕ
node = node_with (ok 3)

abbrev pub silent_node : Outside ℕ
silent_node = node_with (err "no answer")

abbrev pub config : WorkerConfig
config = record {
  max_attempts = 8;
  retry_initial_secs = 2;
  retry_max_secs = 60;
  receipt_poll_secs = 5;
  receipt_timeout_secs = none;
  idle_sleep_ms = 500;
  fee_bump_after_secs = some 180;
  fee_bump_multiplier_pct = 100;
  fee_bump_max = 5;
}

abbrev pub hash_one : Hash
hash_one = record { e0 = 1; e1 = 2; e2 = 3; e3 = 4 }

abbrev pub hash_two : Hash
hash_two = record { e0 = 5; e1 = 6; e2 = 7; e3 = 8 }

abbrev pub new_one : RelayJob
new_one = record {
  job_id = "one";
  status = queued;
  payload_bytes = 11 ∷ 209 ∷ [];
  tx_final = hash_one;
  state_root = hash_two;
  client_ref = none;
  attempt_count = 0;
  tx_hash = none;
  submitted_at = none;
  block_number = none;
  last_error = none;
  next_attempt_at = some (pos 7);
  nonce = none;
  bump_count = pos 0;
  prev_tx_hashes = [];
  created_at = pos 7;
  updated_at = pos 7;
}

abbrev pub done_two : RelayJob
done_two = record new_one {
  job_id = "two";
  status = confirmed;
  tx_final = hash_two;
  tx_hash = some "0xcc";
  submitted_at = some (pos 6);
  block_number = some 12;
  nonce = some (pos 2);
  next_attempt_at = none;
}

abbrev pub world : World ℕ
world = record { rows = new_one ∷ done_two ∷ []; env = 10 }

abbrev pub empty_world : World ℕ
empty_world = record { rows = []; env = 10 }

pub world-TableOk : TableOk config world.rows
unfolding get_job get_job_by_tx_final hash_eq
world-TableOk = record {
  jobs_ok = (ground (arith, as_u32-zero), (ground (arith, as_u32-zero), tt));
  ids_unique = (refl, (refl, tt));
  txs_unique = (refl, (refl, tt));
}

pub two_found : get_job "two" world.rows ≡ some done_two
unfolding get_job
two_found = refl

pub one_found : get_job "one" world.rows ≡ some new_one
unfolding get_job
one_found = refl

abbrev pub payload_one : Payload ℕ
payload_one = record {
  proof = 0;
  tx_final = hash_one;
  state_root = hash_two;
  nullifiers = [];
  created = [];
}

abbrev pub services : Services ℕ ℕ
services = record {
  outside = node;
  decode_base64 = λ text. some (11 ∷ []);
  parse_blob = λ bytes. verified payload_one;
  new_uuid = λ n. ("new", n);
}

abbrev pub post : SubmitProofRequest
post = record { payload_base64 = "Cw=="; client_ref = none }

pub post-Verifies : Verifies services post (11 ∷ []) payload_one
post-Verifies = record { decodes = refl; fits = omega arith; verifies = refl }
