-- ===== src/Synchronizer/Apply/Inversion.antt =====
-- What an outcome of `apply_payload` says of its checks and its mutations.
use digital_objects_network.Prelude.{
  ◌>>=◌, ℕ, ◌>>=◌, Result, ok, err, [], Option, none, some, ◌≡◌, refl, ◌≢◌, bind_ok, ◌∙◌, ap,
}
use digital_objects_network.Payload.Format.{Payload}
use digital_objects_network.Synchronizer.Containers.{HashMap, Backend}
use digital_objects_network.Synchronizer.Apply.{
  WorkingState, Rejection, unless_rejected, check_grounding, check_created, check_nullifiers,
  append_created, insert_nullifiers, commit_payload, apply_payload,
}

module _ {Arr Set MerkleProof E : Type 0} (backend : Backend Arr Set MerkleProof E) where
  -- The checks that an applied payload passed, and the two states on the way.
  unfoldable pub Accepted :
      {Proof : Type 0}
      → WorkingState Arr Set
      → Payload Proof
      → HashMap
      → ℕ
      → WorkingState Arr Set
      → Type 0
  Accepted state payload prior_indices block_number after =
      (check_grounding backend state.recent_state_roots payload.state_root block_number ≡ none)
      × (check_created backend state prior_indices [] payload.created ≡ ok none)
      × (check_nullifiers backend state.nullifiers [] payload.nullifiers ≡ ok none)
      × ((mid : WorkingState Arr Set) × (append_created backend state payload.created ≡ ok mid)
          × (insert_nullifiers backend mid payload.nullifiers ≡ ok after))

  unless_rejected_passed :
      (state : WorkingState Arr Set) (m : Result E (Option Rejection))
      (k : Result E (Option Rejection × WorkingState Arr Set)) (after : WorkingState Arr Set)
      → unless_rejected backend state m k ≡ ok (none, after)
      → (m ≡ ok none) × (k ≡ ok (none, after))
  unless_rejected_passed state (err e) k after h = cc
  unless_rejected_passed state (ok (some reason)) k after h = cc
  unless_rejected_passed state (ok none) k after h = (refl, h)

  unless_rejected_kept :
      (state : WorkingState Arr Set) (m : Result E (Option Rejection))
      (k : Result E (Option Rejection × WorkingState Arr Set)) (reason : Rejection)
      (after : WorkingState Arr Set)
      → (k ≡ ok (some reason, after) → after ≡ state)
      → unless_rejected backend state m k ≡ ok (some reason, after)
      → after ≡ state
  unless_rejected_kept state (err e) k reason after f h = cc
  unless_rejected_kept state (ok (some r)) k reason after f h = cc
  unless_rejected_kept state (ok none) k reason after f h = f h

  committed :
      {Proof : Type 0}
      → (state : WorkingState Arr Set) (payload : Payload Proof) (after : WorkingState Arr Set)
      → commit_payload backend state payload ≡ ok (none, after)
      → (mid : WorkingState Arr Set) × (append_created backend state payload.created ≡ ok mid)
        × (insert_nullifiers backend mid payload.nullifiers ≡ ok after)
  unfolding commit_payload
  committed state payload after h =
      let finish : WorkingState Arr Set → Result E (Option Rejection × WorkingState Arr Set) =
        λ state. ok (none, state) in
      let rest : WorkingState Arr Set → Result E (Option Rejection × WorkingState Arr Set) =
        λ state. insert_nullifiers backend state payload.nullifiers >>= finish in
      let (mid, e, h₁) =
        bind_ok (append_created backend state payload.created) rest (none, after) h in
      let (last, k, h₂) =
        bind_ok (insert_nullifiers backend mid payload.nullifiers) finish (none, after) h₁ in
      (mid, e, let e₁ : last ≡ after = cc in k ∙ ap ok e₁)

  never_commit_rejected :
      {Proof : Type 0}
      → (state : WorkingState Arr Set) (payload : Payload Proof) (reason : Rejection)
        (after : WorkingState Arr Set)
      → commit_payload backend state payload ≢ ok (some reason, after)
  unfolding commit_payload
  never_commit_rejected state payload reason after h =
      let finish : WorkingState Arr Set → Result E (Option Rejection × WorkingState Arr Set) =
        λ state. ok (none, state) in
      let rest : WorkingState Arr Set → Result E (Option Rejection × WorkingState Arr Set) =
        λ state. insert_nullifiers backend state payload.nullifiers >>= finish in
      let (mid, e, h₁) =
        bind_ok (append_created backend state payload.created) rest (some reason, after) h in
      let (last, k, h₂) =
        bind_ok (insert_nullifiers backend mid payload.nullifiers) finish (some reason, after) h₁ in
      cc

  pub apply_payload_applied :
      {Proof : Type 0}
      → (state : WorkingState Arr Set) (payload : Payload Proof) (prior_indices : HashMap)
        (block_number : ℕ) (after : WorkingState Arr Set)
      → apply_payload backend state payload prior_indices block_number ≡ ok (none, after)
      → Accepted state payload prior_indices block_number after
  unfolding apply_payload Accepted
  apply_payload_applied state payload prior_indices block_number after h =
      let m₁ : Result E (Option Rejection) =
        ok (check_grounding backend state.recent_state_roots payload.state_root block_number) in
      let m₂ = check_created backend state prior_indices [] payload.created in
      let m₃ = check_nullifiers backend state.nullifiers [] payload.nullifiers in
      let k₃ = commit_payload backend state payload in
      let k₂ = unless_rejected backend state m₃ k₃ in
      let k₁ = unless_rejected backend state m₂ k₂ in
      let (a, h₁) = unless_rejected_passed state m₁ k₁ after h in
      let (b, h₂) = unless_rejected_passed state m₂ k₂ after h₁ in
      let (c, h₃) = unless_rejected_passed state m₃ k₃ after h₂ in
      (cc, b, c, committed state payload after h₃)

  -- A payload that `apply_payload` rejects leaves the state of the slot as it was: containers,
  -- counts, recent roots and additions.
  pub apply_payload_rejected :
      {Proof : Type 0}
      → (state : WorkingState Arr Set) (payload : Payload Proof) (prior_indices : HashMap)
        (block_number : ℕ) (reason : Rejection) (after : WorkingState Arr Set)
      → apply_payload backend state payload prior_indices block_number ≡ ok (some reason, after)
      → after ≡ state
  unfolding apply_payload
  apply_payload_rejected state payload prior_indices block_number reason after h =
      let m₁ : Result E (Option Rejection) =
        ok (check_grounding backend state.recent_state_roots payload.state_root block_number) in
      let m₂ = check_created backend state prior_indices [] payload.created in
      let m₃ = check_nullifiers backend state.nullifiers [] payload.nullifiers in
      let k₃ = commit_payload backend state payload in
      let k₂ = unless_rejected backend state m₃ k₃ in
      let k₁ = unless_rejected backend state m₂ k₂ in
      unless_rejected_kept state m₁ k₁ reason after
        (unless_rejected_kept state m₂ k₂ reason after (
          unless_rejected_kept state m₃ k₃ reason after
            (λ k. absurd (never_commit_rejected state payload reason after k))))
        h
