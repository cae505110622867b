-- ===== src/Synchronizer/Node/Slots.antt =====
-- services/synchronizer/src/node.rs: deriving a slot from what was fetched, and committing it.
use digital_objects_network.Synchronizer.Blobs.{CanonicalPayload}
use digital_objects_network.Synchronizer.Containers.{HashMap}
use digital_objects_network.Synchronizer.Derivation.{
  DerivedSlot, TargetTx, TxStatus, parse_blobs, derive_slot_state,
}
use digital_objects_network.Synchronizer.Derivation.Applied.{offered}
use digital_objects_network.Synchronizer.Log.{
  created_indices, don_state_at_head, recent_state_roots,
}
use digital_objects_network.Synchronizer.Log.Commit as Commit
use digital_objects_network.Synchronizer.Node.{Node, SlotContext}
use digital_objects_network.Synchronizer.State.{DonState, ExecutionBlock}
use digital_objects_network.Synchronizer.World.{
  Failure, panicked, container_error, Run, ask, query, transact,
}
use digital_objects_network.Payload.Format.{Payload}
use digital_objects_network.Prelude.{ℕ, List, [], Option, none, some, Result, ok, err, ◌-◌, map}
use digital_objects_network.Prelude.Exec.{pure, lift, ◌>>=◌, ◌>>◌}

pub record ProcessedSlot : Type 0 where
  pub slot : ℕ
  pub block_root : Option ℕ
  pub derived : Option DerivedSlot
  pub tx_statuses : List TxStatus

abbrev pub or_panic : {A : Type 0} → Option A → Result Failure A
or_panic none = err panicked
or_panic (some a) = ok a

abbrev pub or_container_error : {Err A : Type 0} → Result Err A → Result Failure A
or_container_error (ok a) = ok a
or_container_error (err e) = err container_error

-- The oldest block whose state may still ground a payload, 50400 blocks before the head.
abbrev pub min_block_number : Option DonState → ℕ
min_block_number none = 0
min_block_number (some state) = state.metadata.block.number - 50400

abbrev pub status_of : {Proof : Type 0} → TargetTx (Payload Proof) → TxStatus
status_of tx = tx.status

module _ {Arr Set MerkleProof Err Proof E : Type 0}
    (node : Node Arr Set MerkleProof Err Proof E) where
  unfoldable pub derive_slot :
      Option DonState
      → HashMap
      → ExecutionBlock
      → List (TargetTx (List ℕ))
      → Run E (DerivedSlot × List TxStatus)
  unfolding parse_blobs offered derive_slot_state
  derive_slot base_state recent block target_txs = do
    target_txs ← lift (or_panic (parse_blobs node.parse target_txs))
    prior_indices ← query node.gateway (λ log. ok (created_indices log (offered target_txs)))
    derived ← lift (
        or_container_error (
          derive_slot_state node.backend node.hashing base_state recent block target_txs
            prior_indices))
    pure (derived.0, map status_of derived.1)

  abbrev pub derive_payload : SlotContext → Option CanonicalPayload → Run E ProcessedSlot
  derive_payload ctx none = pure (record {
    slot = ctx.slot;
    block_root = some ctx.beacon_block_root;
    derived = none;
    tx_statuses = [];
  })
  derive_payload ctx (some payload) = do
    base_state ← query node.gateway (λ log. ok (don_state_at_head log))
    recent ← query node.gateway (λ log. ok (recent_state_roots log (min_block_number base_state)))
    derived ← derive_slot base_state recent payload.execution_block ctx.target_txs
    pure (record {
      slot = ctx.slot;
      block_root = some ctx.beacon_block_root;
      derived = some derived.0;
      tx_statuses = derived.1;
    })

  unfoldable pub derive_from_context : SlotContext → Run E ProcessedSlot
  derive_from_context ctx = derive_payload ctx ctx.payload

  -- The Merkle nodes of a derived state reach the disk before its roots reach the log.
  abbrev pub flushed : Option DerivedSlot → Run E (Unit {0})
  flushed none = pure tt
  flushed (some derived) = ask node.gateway.sync_containers

  unfoldable pub commit_slot : ProcessedSlot → Run E (Unit {0})
  unfolding Commit.commit_slot
  commit_slot processed =
      flushed processed.derived
      >> transact node.gateway (
          Commit.commit_slot node.show processed.slot processed.block_root processed.derived
            processed.tx_statuses)
