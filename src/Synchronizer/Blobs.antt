-- ===== src/Synchronizer/Blobs.antt =====
-- services/synchronizer/src/node.rs: the blobs of a slot's target transactions (`get_blobs` and
-- `fetch_target_blobs`). A blob is its bytes, its commitment the versioned hash. Where the source
-- indexes a missing key or calls `expect` on nothing, the model fails with `panicked`.
pub mod Matching
use digital_objects_network.Payload.Blob.{BlobError, decode_simple_blob}
use digital_objects_network.Synchronizer.Beacon.{fetch_once_available}
use digital_objects_network.Synchronizer.Derivation.{BlobStatus, TargetTx, invalid_encoding}
use digital_objects_network.Synchronizer.State.{ExecutionBlock}
use digital_objects_network.Synchronizer.World.{
  Failure, node_error, wrong_blob_count, panicked, Gateway, Run, ask,
}
use digital_objects_network.Prelude.{
  ℕ, List, [], ◌∷◌, ◌++◌, Option, none, some, Bool, false, Result, ok, err, if◌then◌else◌, ◌==◌,
  ◌||◌, ◌+◌, ◌%◌, ◌^◌, length, ◌>>=◌,
}
use digital_objects_network.Prelude.Exec.{pure, lift, ◌>>=◌ as and_run}

-- `HashMap<B256, HeapBlob>`, the newest entry first.
abbrev pub BlobMap : Type 0
BlobMap = List (ℕ × List ℕ)

unfoldable pub blob_at : ℕ → BlobMap → Result Failure (List ℕ)
blob_at vh [] = err panicked
blob_at vh (entry ∷ entries) = if entry.0 == vh then ok entry.1 else blob_at vh entries

unfoldable pub is_asked : ℕ → List ℕ → Bool
is_asked vh [] = false
is_asked vh (v ∷ vs) = v == vh || is_asked vh vs

abbrev pub pop : List (List ℕ) → Result Failure (List ℕ × List (List ℕ))
pop [] = err panicked
pop (blob ∷ blobs) = ok (blob, blobs)

-- The loop of `get_blobs` over the block's commitments: each that was asked for takes the next blob.
unfoldable pub assign_blobs : List ℕ → List ℕ → List (List ℕ) → BlobMap → Result Failure BlobMap
unfolding is_asked
assign_blobs asked [] blobs blob_map = ok blob_map
assign_blobs asked (vh ∷ vhs) blobs blob_map =
    if is_asked vh asked
    then (pop blobs >>= λ popped. assign_blobs asked vhs popped.1 ((vh, popped.0) ∷ blob_map))
    else assign_blobs asked vhs blobs blob_map

-- What `get_blobs` makes of the blobs that were fetched.
unfoldable pub match_blobs : List ℕ → List ℕ → List (List ℕ) → Result Failure BlobMap
unfolding assign_blobs
match_blobs commitments asked blobs =
    if length blobs == length asked
    then assign_blobs asked commitments blobs []
    else err (wrong_blob_count (length asked) (length blobs))

unfoldable pub position_of : ℕ → List ℕ → Result Failure ℕ
position_of vh [] = err panicked
position_of vh (v ∷ vs) = if v == vh then ok 0 else (position_of vh vs >>= λ i. ok (i + 1))

pub record TargetBlobTx : Type 0 where
  pub tx_hash : ℕ
  pub versioned_hashes : List ℕ

pub record CanonicalPayload : Type 0 where
  pub committing_block_root : ℕ
  pub execution_block : ExecutionBlock
  pub kzg_blob_commitments : List ℕ
  pub target_blob_txs : List TargetBlobTx

-- A decoded blob with its index, or none with the error in its status.
abbrev pub decoded : ℕ → Result BlobError (List ℕ) → Option (ℕ × List ℕ) × BlobStatus
decoded i (ok bytes) = (some (i % 2 ^ 32, bytes), record { tx_final = none; error = none })
decoded i (err e) = (none, record { tx_final = none; error = some (invalid_encoding e) })

-- The inner loop of `fetch_target_blobs`.
unfoldable pub decode_blobs :
    List ℕ → BlobMap → List ℕ → Result Failure (List (Option (ℕ × List ℕ)) × List BlobStatus)
unfolding blob_at position_of
decode_blobs commitments blobs [] = ok ([], [])
decode_blobs commitments blobs (vh ∷ vhs) = do
  i ← position_of vh commitments
  blob ← blob_at vh blobs
  rest ← decode_blobs commitments blobs vhs
  let one = decoded i (decode_simple_blob blob)
  ok (one.0 ∷ rest.0, one.1 ∷ rest.1)

unfoldable pub decode_txs :
    List ℕ → BlobMap → List TargetBlobTx → Result Failure (List (TargetTx (List ℕ)))
unfolding decode_blobs
decode_txs commitments blobs [] = ok []
decode_txs commitments blobs (tx ∷ txs) = do
  parts ← decode_blobs commitments blobs tx.versioned_hashes
  rest ← decode_txs commitments blobs txs
  ok (record { blobs = parts.0; status = record { tx_hash = tx.tx_hash; blobs = parts.1 } } ∷ rest)

unfoldable pub hashes_of : List TargetBlobTx → List ℕ
hashes_of [] = []
hashes_of (tx ∷ txs) = tx.versioned_hashes ++ hashes_of txs

module _ {E : Type 0} (gateway : Gateway E) (retries : ℕ) where
  unfoldable pub get_blobs : ℕ → List ℕ → List ℕ → Run E BlobMap
  unfolding fetch_once_available match_blobs
  get_blobs root commitments asked =
      and_run
        (fetch_once_available node_error (ask (gateway.get_archived_blobs root asked)) retries)
        λ blobs. lift (match_blobs commitments asked blobs)

  abbrev pub blobs_of : CanonicalPayload → List TargetBlobTx → Run E (List (TargetTx (List ℕ)))
  blobs_of payload [] = pure []
  blobs_of payload (tx ∷ txs) =
      and_run
        (get_blobs payload.committing_block_root payload.kzg_blob_commitments
          (hashes_of (tx ∷ txs)))
        λ blobs. lift (decode_txs payload.kzg_blob_commitments blobs (tx ∷ txs))

  unfoldable pub fetch_target_blobs : CanonicalPayload → Run E (List (TargetTx (List ℕ)))
  fetch_target_blobs payload = blobs_of payload payload.target_blob_txs
