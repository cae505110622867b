-- ===== src/Synchronizer/Derivation.antt =====
-- services/synchronizer/src/state_machine.rs: the statuses of a slot's target transactions,
-- `parse_blobs` and `derive_slot_state`.
pub mod Applied
pub mod Parsing
pub mod Replay
pub mod Slot
use digital_objects_network.Prelude.{
  ℕ, Hash, Result, ok, List, [], ◌∷◌, ◌>>=◌, Option, none, some, ◌+◌, ◌%◌, ◌^◌,
}
use digital_objects_network.Payload.Format.{
  Payload, Verdict, verified, foreign, unverified, panicked,
}
use digital_objects_network.Payload.Blob.{BlobError}
use digital_objects_network.Synchronizer.State.{
  StateRoots, empty, ExecutionBlock, DonState, Hashing, state_header,
}
use digital_objects_network.Synchronizer.Containers.{
  HashMap, collect_onto, Backend, open_created, open_nullifiers, open_next_state_history,
}
use digital_objects_network.Synchronizer.Apply.{WorkingState, Rejection, apply_payload}

-- Why a blob was skipped or rejected.
pub data SkipReason : Type 0 where
  invalid_encoding : BlobError → SkipReason
  no_valid_proof : SkipReason
  not_verified : SkipReason
  rejected : Rejection → SkipReason

pub record BlobStatus : Type 0 where
  pub tx_final : Option Hash
  pub error : Option SkipReason

pub record TxStatus : Type 0 where
  pub tx_hash : ℕ
  pub blobs : List BlobStatus

pub record TargetTx (T : Type 0) : Type 0 where
  pub blobs : List (Option (ℕ × T))
  pub status : TxStatus

-- One blob of `parse_blobs`; nothing when the parser panics.
abbrev pub judged :
    {Proof : Type 0}
    → ℕ
    → BlobStatus
    → Verdict Proof
    → Option (Option (ℕ × Payload Proof) × BlobStatus)
judged i status (verified payload) =
    some (some (i, payload), record status { tx_final = some payload.tx_final })
judged i status foreign = some (none, record status { error = some no_valid_proof })
judged i status unverified = some (none, record status { error = some not_verified })
judged i status panicked = none

abbrev pub and_then : {A B : Type 0} → Option A → (A → Option B) → Option B
and_then none f = none
and_then (some a) f = f a

-- `ProofParser::parse_blob` or another implementation of the trait is the parameter `parse`.
module _ {Proof : Type 0} (parse : List ℕ → Verdict Proof) where
  abbrev pub parse_one :
      Option (ℕ × List ℕ) → BlobStatus → Option (Option (ℕ × Payload Proof) × BlobStatus)
  parse_one none status = some (none, status)
  parse_one (some (i, bytes)) status = judged i status (parse bytes)

  -- The inner loop of `parse_blobs`, over the blobs zipped with their statuses: the blobs kept and
  -- the statuses, those past the zip as they were.
  unfoldable pub parse_each :
      List (Option (ℕ × List ℕ))
      → List BlobStatus
      → Option (List (Option (ℕ × Payload Proof)) × List BlobStatus)
  parse_each [] statuses = some ([], statuses)
  parse_each (blob ∷ blobs) [] = some ([], [])
  parse_each (blob ∷ blobs) (status ∷ statuses) =
      and_then (parse_one blob status)
        λ one. and_then (parse_each blobs statuses) λ rest. some (one.0 ∷ rest.0, one.1 ∷ rest.1)

  unfoldable pub parse_tx : TargetTx (List ℕ) → Option (TargetTx (Payload Proof))
  unfolding parse_each
  parse_tx tx = and_then (parse_each tx.blobs tx.status.blobs) λ parsed. some (record {
    blobs = parsed.0;
    status = record { tx_hash = tx.status.tx_hash; blobs = parsed.1 };
  })

  unfoldable pub parse_blobs : List (TargetTx (List ℕ)) → Option (List (TargetTx (Payload Proof)))
  unfolding parse_tx
  parse_blobs [] = some []
  parse_blobs (tx ∷ txs) =
      and_then (parse_tx tx) λ parsed. and_then (parse_blobs txs) λ rest. some (parsed ∷ rest)

pub record DerivedSlot : Type 0 where
  pub state : DonState
  pub created_added : HashMap

abbrev pub or_empty : Option DonState → StateRoots
or_empty none = empty
or_empty (some state) = state.roots

-- `map_or(0, …)` on the counts of the base state.
abbrev pub count_or_zero : (DonState → ℕ) → Option DonState → ℕ
count_or_zero count none = 0
count_or_zero count (some state) = count state

-- A rejection goes to the status of its blob.
abbrev pub note_rejection : Option Rejection → BlobStatus → BlobStatus
note_rejection none status = status
note_rejection (some reason) status = record status { error = some (rejected reason) }

module _ {Arr Set MerkleProof E : Type 0} (backend : Backend Arr Set MerkleProof E) where
  open backend use {array_insert, array_commitment, set_commitment}

  module _ {Proof : Type 0} (prior_indices : HashMap) (block_number : ℕ) where
    -- One round of the inner loop of `derive_slot_state`.
    unfoldable pub apply_one :
        WorkingState Arr Set
        → Option (ℕ × Payload Proof)
        → BlobStatus
        → Result E (WorkingState Arr Set × BlobStatus)
    unfolding apply_payload
    apply_one working none status = ok (working, status)
    apply_one working (some (i, payload)) status =
        apply_payload backend working payload prior_indices block_number >>= λ (rejection, working).
        ok (working, note_rejection rejection status)

    unfoldable pub apply_blobs :
        WorkingState Arr Set
        → List (Option (ℕ × Payload Proof))
        → List BlobStatus
        → Result E (WorkingState Arr Set × List BlobStatus)
    unfolding apply_one
    apply_blobs working [] statuses = ok (working, statuses)
    apply_blobs working (blob ∷ blobs) [] = ok (working, [])
    apply_blobs working (blob ∷ blobs) (status ∷ statuses) =
        apply_one working blob status >>= λ (working, status).
        apply_blobs working blobs statuses >>= λ (working, statuses).
        ok (working, status ∷ statuses)

    unfoldable pub apply_txs :
        WorkingState Arr Set
        → List (TargetTx (Payload Proof))
        → Result E (WorkingState Arr Set × List (TargetTx (Payload Proof)))
    unfolding apply_blobs
    apply_txs working [] = ok (working, [])
    apply_txs working (tx ∷ txs) =
        apply_blobs working tx.blobs tx.status.blobs >>= λ (working, statuses).
        apply_txs working txs >>= λ (working, txs).
        ok (working, record tx { status = record tx.status { blobs = statuses } } ∷ txs)

  -- The working state that `derive_slot_state` starts from.
  unfoldable pub open_working : Option DonState → HashMap → Result E (WorkingState Arr Set)
  open_working base_state recent_state_roots = do
    let roots = or_empty base_state
    created ← open_created backend roots.created
    nullifiers ← open_nullifiers backend roots.nullifiers
    next_state_history ← open_next_state_history backend roots.next_state_history
    ok (record {
      created_count = count_or_zero (λ state. state.metadata.created_count) base_state;
      nullifier_count = count_or_zero (λ state. state.metadata.nullifier_count) base_state;
      created = created;
      nullifiers = nullifiers;
      next_state_history = next_state_history;
      recent_state_roots = collect_onto [] recent_state_roots;
      created_added = [];
    })

  -- What `derive_slot_state` makes of the working state once the payloads are applied.
  unfoldable pub close_slot :
      Hashing → Option DonState → ExecutionBlock → WorkingState Arr Set → Result E DerivedSlot
  unfolding state_header
  close_slot hashing base_state block working =
      let prior = (or_empty base_state).next_state_history in
      let root_count = count_or_zero (λ state. state.metadata.state_root_count) base_state in
      let new_state_root = hashing.header_hash (
        state_header hashing block (array_commitment working.created)
          (set_commitment working.nullifiers) prior) in
      array_insert working.next_state_history root_count new_state_root >>= λ next_state_history.
      ok (record {
        state = record {
          roots = record {
            created = array_commitment working.created;
            nullifiers = set_commitment working.nullifiers;
            prior_state_history = prior;
            next_state_history = array_commitment next_state_history;
          };
          metadata = record {
            state_root = new_state_root;
            block = block;
            created_count = working.created_count;
            nullifier_count = working.nullifier_count;
            state_root_count = (root_count + 1) % 2 ^ 64;
          };
        };
        created_added = working.created_added;
      })

  unfoldable pub derive_slot_state :
      {Proof : Type 0}
      → Hashing
      → Option DonState
      → HashMap
      → ExecutionBlock
      → List (TargetTx (Payload Proof))
      → HashMap
      → Result E (DerivedSlot × List (TargetTx (Payload Proof)))
  unfolding apply_txs open_working close_slot
  derive_slot_state hashing base_state recent_state_roots block target_txs prior_indices = do
    working ← open_working base_state recent_state_roots
    (working, target_txs) ← apply_txs prior_indices block.number working target_txs
    derived ← close_slot hashing base_state block working
    ok (derived, target_txs)
