-- ===== src/Synchronizer/Derivation/Replay.antt =====
-- A nullifier that a slot spent is not spent again in the rest of the slot.
use digital_objects_network.Payload.Format.{Payload}
use digital_objects_network.Synchronizer.Containers.Laws.{Lawful}
use digital_objects_network.Synchronizer.Containers.{HashMap, Backend}
use digital_objects_network.Synchronizer.Apply.{WorkingState, has, apply_payload}
use digital_objects_network.Synchronizer.Apply.Spending.{
  IsSpent, apply_payload-IsSpent, apply_payload_spent,
}
use digital_objects_network.Synchronizer.Derivation.Applied.{OneStep, apply_one_step}
use digital_objects_network.Synchronizer.Derivation.{
  BlobStatus, TargetTx, apply_one, apply_blobs, apply_txs,
}
use digital_objects_network.Prelude.{
  ℕ, Option, List, Hash, inl, ◌≡◌, inr, true, ok, ◌∷◌, none, bind_ok, ◌≢◌, sym, [],
}

module _ {Arr Set MerkleProof E : Type 0} (backend : Backend Arr Set MerkleProof E)
    (lawful : Lawful backend) (prior_indices : HashMap) {Proof : Type 0} (block_number : ℕ) where
  OneStep-IsSpent :
      (state : WorkingState Arr Set) (blob : Option (ℕ × Payload Proof))
      (after : WorkingState Arr Set) (h : Hash)
      → IsSpent backend lawful state.nullifiers h
      → OneStep backend prior_indices block_number state blob after
      → IsSpent backend lawful after.nullifiers h
  unfolding OneStep
  OneStep-IsSpent state blob after h s (inl e) = rw e s
  OneStep-IsSpent state blob after h s (inr (i, payload, e, k)) =
      apply_payload-IsSpent backend lawful state payload prior_indices block_number after h (inl s)
        k

  apply_blobs-IsSpent :
      (state : WorkingState Arr Set) (blobs : List (Option (ℕ × Payload Proof)))
      (statuses : List BlobStatus) (after : WorkingState Arr Set) (noted : List BlobStatus)
      (h : Hash)
      → IsSpent backend lawful state.nullifiers h
      → apply_blobs backend prior_indices block_number state blobs statuses ≡ ok (after, noted)
      → IsSpent backend lawful after.nullifiers h
  unfolding apply_blobs
  apply_blobs-IsSpent state [] statuses after noted h s e = let k : after ≡ state = cc in rw k s
  apply_blobs-IsSpent state (blob ∷ blobs) [] after noted h s e =
      let k : after ≡ state = cc in rw k s
  apply_blobs-IsSpent state (blob ∷ blobs) (status ∷ statuses) after noted h s e =
      let ((mid, status'), e₁, e₂) =
        bind_ok (apply_one backend prior_indices block_number state blob status) _ (after, noted)
          e in
      let ((last, statuses'), e₃, e₄) =
        bind_ok (apply_blobs backend prior_indices block_number mid blobs statuses) _ (after, noted)
          e₂ in
      let k : last ≡ after = cc in
      let one =
        apply_one_step backend prior_indices block_number state blob status mid status' e₁ in
      rw (sym k) (
        apply_blobs-IsSpent mid blobs statuses last statuses' h
          (OneStep-IsSpent state blob mid h s one) e₃)

  apply_txs-IsSpent :
      (state : WorkingState Arr Set) (txs : List (TargetTx (Payload Proof)))
      (after : WorkingState Arr Set) (noted : List (TargetTx (Payload Proof))) (h : Hash)
      → IsSpent backend lawful state.nullifiers h
      → apply_txs backend prior_indices block_number state txs ≡ ok (after, noted)
      → IsSpent backend lawful after.nullifiers h
  unfolding apply_txs
  apply_txs-IsSpent state [] after noted h s e = let k : after ≡ state = cc in rw k s
  apply_txs-IsSpent state (tx ∷ txs) after noted h s e =
      let ((mid, statuses'), e₁, e₂) =
        bind_ok (apply_blobs backend prior_indices block_number state tx.blobs tx.status.blobs) _
          (after, noted) e in
      let ((last, txs'), e₃, e₄) =
        bind_ok (apply_txs backend prior_indices block_number mid txs) _ (after, noted) e₂ in
      let k : last ≡ after = cc in
      rw (sym k) (
        apply_txs-IsSpent mid txs last txs' h
          (apply_blobs-IsSpent state tx.blobs tx.status.blobs mid statuses' h s e₁) e₃)

  -- No nullifier is spent twice in a slot: once a payload is applied, and whatever transactions are
  -- applied after it, a second payload that shares a nullifier with it is not applied. The
  -- containers are lawful.
  pub apply_txs_spent :
      (state : WorkingState Arr Set) (first second : Payload Proof)
      (mid late after : WorkingState Arr Set) (txs noted : List (TargetTx (Payload Proof)))
      (h : Hash)
      → has h first.nullifiers ≡ true
      → has h second.nullifiers ≡ true
      → apply_payload backend state first prior_indices block_number ≡ ok (none, mid)
      → apply_txs backend prior_indices block_number mid txs ≡ ok (late, noted)
      → apply_payload backend late second prior_indices block_number ≢ ok (none, after)
  apply_txs_spent state first second mid late after txs noted h f g e k =
      let s =
        apply_payload-IsSpent backend lawful state first prior_indices block_number mid h (inr f)
          e in
      apply_payload_spent backend lawful late second prior_indices block_number after h
        (apply_txs-IsSpent mid txs late noted h s k) g
