-- ===== src/Synchronizer/Derivation/Applied.antt =====
-- What the loops of `derive_slot_state` keep: the created array stays that of a list without
-- repetitions, and nullifiers stay spent.
use mathlib.Core.Path.{subst}
use digital_objects_network.Payload.Format.{Payload}
use digital_objects_network.Synchronizer.Containers.Laws.{Lawful}
use digital_objects_network.Synchronizer.Containers.{HashMap, Backend}
use digital_objects_network.Synchronizer.Apply.{WorkingState, has, apply_payload}
use digital_objects_network.Synchronizer.Apply.Created.{Sound}
use digital_objects_network.Synchronizer.Apply.Append.{apply_payload-Sound}
use digital_objects_network.Synchronizer.Apply.Inversion.{apply_payload_rejected}
use digital_objects_network.Synchronizer.Derivation.{
  BlobStatus, TargetTx, apply_one, apply_blobs, apply_txs,
}
use digital_objects_network.Prelude.{
  List, Option, ℕ, Hash, ◌≡◌, ok, length, ◌⊎◌, ◌∷◌, All, ◌++◌, [], true, inl, ◌≤◌, some, bind_ok,
  append_assoc, none, Option-cases, arith, length-append, ap, ◌∙◌, append-nil, inr, All-append_left,
  All-append_right, refl,
}

-- The objects that the payload of a blob, of the blobs and of the transactions would create.
unfoldable pub offered_one : {Proof : Type 0} → Option (ℕ × Payload Proof) → List Hash
offered_one none = []
offered_one (some (i, payload)) = payload.created

unfoldable pub offered_blobs : {Proof : Type 0} → List (Option (ℕ × Payload Proof)) → List Hash
offered_blobs [] = []
offered_blobs (blob ∷ blobs) = offered_one blob ++ offered_blobs blobs

unfoldable pub offered : {Proof : Type 0} → List (TargetTx (Payload Proof)) → List Hash
offered [] = []
offered (tx ∷ txs) = offered_blobs tx.blobs ++ offered txs

module _ {Arr Set MerkleProof E : Type 0} (backend : Backend Arr Set MerkleProof E)
    (prior_indices : HashMap) {Proof : Type 0} (block_number : ℕ) where
  -- A round leaves the state or applies a payload.
  unfoldable pub OneStep :
      WorkingState Arr Set → Option (ℕ × Payload Proof) → WorkingState Arr Set → Type 0
  OneStep state blob after =
      (after ≡ state)
      ⊎ ((i : ℕ) × (payload : Payload Proof) × (blob ≡ some (i, payload))
          × (apply_payload backend state payload prior_indices block_number ≡ ok (none, after)))

  pub apply_one_step :
      (state : WorkingState Arr Set) (blob : Option (ℕ × Payload Proof)) (status : BlobStatus)
      (after : WorkingState Arr Set) (noted : BlobStatus)
      → apply_one backend prior_indices block_number state blob status ≡ ok (after, noted)
      → OneStep state blob after
  unfolding apply_one OneStep
  apply_one_step state none status after noted h = inl (cc)
  apply_one_step state (some (i, payload)) status after noted h =
      let ((rejection, working), e, h₁) =
        bind_ok (apply_payload backend state payload prior_indices block_number) _ (after, noted)
          h in
      let same : working ≡ after = cc in
      elim (Option-cases rejection) [
        | inl n ↦
            let e₁ : ok (rejection, working) ≡ ok (none, after) =
              ap (λ r. ok (r, working)) n ∙ ap (λ w. ok (none, w)) same in
            inr (i, payload, refl, e ∙ e₁)
        | inr (reason, k) ↦
            let e₁ : ok (rejection, working) ≡ ok (some reason, after) =
              ap (λ r. ok (r, working)) k ∙ ap (λ w. ok (some reason, w)) same in
            inl (
              apply_payload_rejected backend state payload prior_indices block_number reason after
                (e ∙ e₁))
      ]

module _ {Arr Set MerkleProof E : Type 0} (backend : Backend Arr Set MerkleProof E)
    (prior_indices : HashMap) (asked base : List Hash) where
  -- The array grew by objects that were offered.
  unfoldable pub Grown : List Hash → List Hash → WorkingState Arr Set → Type 0
  Grown xs objs after =
      (zs : List Hash) × Sound backend prior_indices asked base after (xs ++ zs)
      × (length zs ≤ length objs)

  -- Two stretches in a row.
  Grown-then :
      (xs zs first second : List Hash) (after : WorkingState Arr Set)
      → length zs ≤ length first
      → Grown (xs ++ zs) second after
      → Grown xs (first ++ second) after
  unfolding Grown
  Grown-then xs zs first second after h (ws, s, k) = (
    zs ++ ws,
    subst (λ l. Sound backend prior_indices asked base after l) (append_assoc xs zs ws) s,
    omega (arith, length-append zs ws, length-append first second),
  )

module _ {Arr Set MerkleProof E : Type 0} (backend : Backend Arr Set MerkleProof E)
    (lawful : Lawful backend) (prior_indices : HashMap) (asked base : List Hash) {Proof : Type 0}
    (block_number : ℕ) where
  step-Grown :
      (state : WorkingState Arr Set) (blob : Option (ℕ × Payload Proof))
      (after : WorkingState Arr Set) (xs : List Hash)
      → Sound backend prior_indices asked base state xs
      → All (λ h. has h asked ≡ true) (offered_one blob)
      → OneStep backend prior_indices block_number state blob after
      → Grown backend prior_indices asked base xs (offered_one blob) after
  unfolding OneStep Grown offered_one
  step-Grown state blob after xs s a (inl e) = ([], rw (append-nil xs) (rw e s), omega arith)
  step-Grown state blob after xs s a (inr (i, payload, e, h)) =
      let e₁ : payload.created ≡ offered_one blob = rw e refl in
      (
        payload.created,
        apply_payload-Sound backend lawful prior_indices asked base state payload block_number xs
            after s (rw e₁ a) h,
        rw e₁ (omega arith),
      )

  blobs-Grown :
      (state : WorkingState Arr Set) (blobs : List (Option (ℕ × Payload Proof)))
      (statuses : List BlobStatus) (after : WorkingState Arr Set) (noted : List BlobStatus)
      (xs : List Hash)
      → Sound backend prior_indices asked base state xs
      → All (λ h. has h asked ≡ true) (offered_blobs blobs)
      → apply_blobs backend prior_indices block_number state blobs statuses ≡ ok (after, noted)
      → Grown backend prior_indices asked base xs (offered_blobs blobs) after
  unfolding apply_blobs offered_blobs Grown
  blobs-Grown state [] statuses after noted xs s a h =
      let e : after ≡ state = cc in ([], rw (append-nil xs) (rw e s), omega arith)
  blobs-Grown state (blob ∷ blobs) [] after noted xs s a h =
      let e : after ≡ state = cc in ([], rw (append-nil xs) (rw e s), omega arith)
  blobs-Grown state (blob ∷ blobs) (status ∷ statuses) after noted xs s a h =
      let ((mid, status'), e, h₁) =
        bind_ok (apply_one backend prior_indices block_number state blob status) _ (after, noted)
          h in
      let ((last, statuses'), e₁, h₂) =
        bind_ok (apply_blobs backend prior_indices block_number mid blobs statuses) _ (after, noted)
          h₁ in
      let same : ok (last, statuses') ≡ ok (after, statuses') =
        ap (λ w. ok (w, statuses')) (let k : last ≡ after = cc in k) in
      let (zs, s₁, k) =
        step-Grown state blob mid xs s
          (All-append_left (λ h. has h asked ≡ true) (offered_one blob) (offered_blobs blobs) a)
          (apply_one_step backend prior_indices block_number state blob status mid status' e) in
      Grown-then backend prior_indices asked base xs zs (offered_one blob) (offered_blobs blobs)
        after k
        (blobs-Grown mid blobs statuses after statuses' (xs ++ zs) s₁
          (All-append_right (λ h. has h asked ≡ true) (offered_one blob) (offered_blobs blobs) a)
          (e₁ ∙ same))

  pub txs-Grown :
      (state : WorkingState Arr Set) (txs : List (TargetTx (Payload Proof)))
      (after : WorkingState Arr Set) (noted : List (TargetTx (Payload Proof))) (xs : List Hash)
      → Sound backend prior_indices asked base state xs
      → All (λ h. has h asked ≡ true) (offered txs)
      → apply_txs backend prior_indices block_number state txs ≡ ok (after, noted)
      → Grown backend prior_indices asked base xs (offered txs) after
  unfolding apply_txs offered Grown
  txs-Grown state [] after noted xs s a h =
      let e : after ≡ state = cc in ([], rw (append-nil xs) (rw e s), omega arith)
  txs-Grown state (tx ∷ txs) after noted xs s a h =
      let ((mid, statuses'), e, h₁) =
        bind_ok (apply_blobs backend prior_indices block_number state tx.blobs tx.status.blobs) _
          (after, noted) h in
      let ((last, txs'), e₁, h₂) =
        bind_ok (apply_txs backend prior_indices block_number mid txs) _ (after, noted) h₁ in
      let same : ok (last, txs') ≡ ok (after, txs') =
        ap (λ w. ok (w, txs')) (let k : last ≡ after = cc in k) in
      let (zs, s₁, k) =
        blobs-Grown state tx.blobs tx.status.blobs mid statuses' xs s
          (All-append_left (λ h. has h asked ≡ true) (offered_blobs tx.blobs) (offered txs) a) e in
      Grown-then backend prior_indices asked base xs zs (offered_blobs tx.blobs) (offered txs) after
        k
        (txs-Grown mid txs after txs' (xs ++ zs) s₁
          (All-append_right (λ h. has h asked ≡ true) (offered_blobs tx.blobs) (offered txs) a)
          (e₁ ∙ same))
