-- ===== src/Relayer/Api.antt =====
-- services/relayer/src/api.rs: the handlers behind POST and GET /api/v1/proofs. Base64, the blob
-- parser and the UUID are parameters; the formatted parts of error texts are arguments.
pub mod Submission
use digital_objects_network.Payload.Blob.{max_simple_blob_payload_bytes}
use digital_objects_network.Payload.Format.{
  Payload, Verdict, verified, foreign, unverified, panicked,
}
use digital_objects_network.Prelude.{if◌then◌else◌, ok, err, ltb, length}
use digital_objects_network.Relayer.Job.{RelayJob, JobStatus, queued, ErrorText}
use digital_objects_network.Relayer.Outside.{
  Outside, World, InsertJobResult, inserted, existing, insert_job, get_job,
}
use digital_objects_network.Prelude.{ℕ, Result, Option, String, List, ℤ, Hash, none, some, pos, []}

pub record SubmitProofRequest : Type 0 where
  pub payload_base64 : String
  pub client_ref : Option String

pub record SubmitProofResponse : Type 0 where
  pub job_id : String
  pub status : JobStatus
  pub tx_final : Hash
  pub state_root : Hash
  pub attempt_count : ℕ
  pub created_at : ℤ

pub record JobStatusResponse : Type 0 where
  pub job_id : String
  pub status : JobStatus
  pub tx_hash : Option String
  pub block_number : Option ℕ
  pub attempt_count : ℕ
  pub last_error : Option ErrorText
  pub updated_at : ℤ
  pub created_at : ℤ
  pub tx_final : Hash
  pub state_root : Hash

pub data BadRequest : Type 0 where
  invalid_base64 : BadRequest
  exceeds_single_blob : ℕ → BadRequest
  verification_failed : BadRequest
  not_a_proof_payload : BadRequest

pub data ApiError : Type 0 where
  bad_request : BadRequest → ApiError
  not_found : String → ApiError
  internal : String → ApiError

pub data StatusCode : Type 0 where
  ok_200 accepted_202 : StatusCode

-- What the client gets: an answer, an error, or a dropped connection where the handler panics.
pub data Reply (A : Type 0) : Type 0 where
  answer : A → Reply A
  refuse : ApiError → Reply A
  crash : Reply A

abbrev pub to_submit_response : RelayJob → SubmitProofResponse
to_submit_response job = record {
  job_id = job.job_id;
  status = job.status;
  tx_final = job.tx_final;
  state_root = job.state_root;
  attempt_count = job.attempt_count;
  created_at = job.created_at;
}

abbrev pub to_status_response : RelayJob → JobStatusResponse
to_status_response job = record {
  job_id = job.job_id;
  status = job.status;
  tx_hash = job.tx_hash;
  block_number = job.block_number;
  attempt_count = job.attempt_count;
  last_error = job.last_error;
  updated_at = job.updated_at;
  created_at = job.created_at;
  tx_final = job.tx_final;
  state_root = job.state_root;
}

-- The job that `submit_proof` builds.
pub new_job : String → ℤ → List ℕ → Hash → Hash → Option String → RelayJob
new_job job_id now payload_bytes tx_final state_root client_ref = record {
  job_id = job_id;
  status = queued;
  payload_bytes = payload_bytes;
  tx_final = tx_final;
  state_root = state_root;
  client_ref = client_ref;
  attempt_count = 0;
  tx_hash = none;
  submitted_at = none;
  block_number = none;
  last_error = none;
  next_attempt_at = some now;
  nonce = none;
  bump_count = pos 0;
  prev_tx_hashes = [];
  created_at = now;
  updated_at = now;
}

pub record Services (E Proof : Type 0) : Type 0 where
  pub outside : Outside E
  pub decode_base64 : String → Option (List ℕ)
  pub parse_blob : List ℕ → Verdict Proof
  pub new_uuid : E → String × E

module _ {E Proof : Type 0} (services : Services E Proof) where
  open services use {outside, decode_base64, parse_blob, new_uuid}

  pub report : RelayJob → Result String InsertJobResult → Reply (StatusCode × SubmitProofResponse)
  report job (ok inserted) = answer (accepted_202, to_submit_response job)
  report job (ok (existing row)) = answer (ok_200, to_submit_response row)
  report job (err e) = refuse (internal e)

  -- From the clock on: the job is built and inserted.
  pub enqueue :
      Option String
      → List ℕ
      → Payload Proof
      → World E
      → Reply (StatusCode × SubmitProofResponse) × World E
  enqueue client_ref payload_bytes payload w =
      let (now, env₁) = outside.now_ts w.env in
      let (job_id, env₂) = new_uuid env₁ in
      let job = new_job job_id now payload_bytes payload.tx_final payload.state_root client_ref in
      let (result, w') = insert_job outside job (record w { env = env₂ }) in (report job result, w')

  pub verify_then_enqueue :
      Option String
      → List ℕ
      → Verdict Proof
      → World E
      → Reply (StatusCode × SubmitProofResponse) × World E
  verify_then_enqueue client_ref payload_bytes (verified payload) w =
      enqueue client_ref payload_bytes payload w
  verify_then_enqueue client_ref payload_bytes foreign w =
      (refuse (bad_request not_a_proof_payload), w)
  verify_then_enqueue client_ref payload_bytes unverified w =
      (refuse (bad_request verification_failed), w)
  verify_then_enqueue client_ref payload_bytes panicked w = (crash, w)

  pub check_then_verify :
      Option String → Option (List ℕ) → World E → Reply (StatusCode × SubmitProofResponse) × World E
  check_then_verify client_ref none w = (refuse (bad_request invalid_base64), w)
  check_then_verify client_ref (some payload_bytes) w =
      if ltb max_simple_blob_payload_bytes (length payload_bytes)
      then (refuse (bad_request (exceeds_single_blob (length payload_bytes))), w)
      else verify_then_enqueue client_ref payload_bytes (parse_blob payload_bytes) w

  pub submit_proof :
      SubmitProofRequest → World E → Reply (StatusCode × SubmitProofResponse) × World E
  submit_proof req w = check_then_verify req.client_ref (decode_base64 req.payload_base64) w

  pub status_of : String → Result String (Option RelayJob) → Reply JobStatusResponse
  status_of job_id (ok (some job)) = answer (to_status_response job)
  status_of job_id (ok none) = refuse (not_found job_id)
  status_of job_id (err e) = refuse (internal e)

  pub get_proof : String → World E → Reply JobStatusResponse × World E
  get_proof job_id w = let (found, w') = get_job outside job_id w in (status_of job_id found, w')
