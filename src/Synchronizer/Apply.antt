-- ===== src/Synchronizer/Apply.antt =====
-- services/synchronizer/src/state_machine.rs, `WorkingState` to `already_created`: one payload is
-- checked against the state of the slot in progress, and applied or rejected. An error drops the
-- state, since it aborts the slot.
pub mod Distinct
pub mod Additions
pub mod Created
pub mod Append
pub mod Spending
pub mod Inversion
use digital_objects_network.Prelude.{
  ℕ, ℤ, Hash, hash_eq, if◌then◌else◌, ◌>>=◌, is_some, ◌||◌, ◌+◌, ◌%◌, ◌^◌, Result, ok, err, List,
  [], ◌∷◌, Option, none, some, Bool, true, false, ◌||◌,
}
use digital_objects_network.Prelude.Int.{as_i64, sub_i64}
use digital_objects_network.Payload.Format.{Payload}
use digital_objects_network.Synchronizer.State.{grounding_aged_out}
use digital_objects_network.Synchronizer.Containers.{
  HashMap, lookup, insert, Backend, created_array_holds,
}

pub record WorkingState (Arr Set : Type 0) : Type 0 where
  pub created_count : ℕ
  pub nullifier_count : ℕ
  pub created : Arr
  pub nullifiers : Set
  pub next_state_history : Arr
  pub recent_state_roots : HashMap
  pub created_added : HashMap

-- The reasons of `apply_payload`.
pub data Rejection : Type 0 where
  unknown_state_root : Rejection
  too_old : ℤ → ℤ → Rejection
  duplicate_created : Rejection
  creation_collision : Rejection
  duplicate_in_nullifiers : Rejection
  duplicate_nullifier : Rejection

-- Whether a `HashSet` has the hash.
unfoldable pub has : Hash → List Hash → Bool
has h [] = false
has h (x ∷ xs) = hash_eq x h || has h xs

module _ {Arr Set MerkleProof E : Type 0} (backend : Backend Arr Set MerkleProof E) where
  open backend use {array_insert, contains, set_insert}

  abbrev at_prior : Arr → Hash → Option ℤ → Result E Bool
  unfolding created_array_holds
  at_prior created obj none = ok false
  at_prior created obj (some index) = created_array_holds backend created index obj

  unfoldable pub already_created : WorkingState Arr Set → HashMap → Hash → Result E Bool
  unfolding lookup created_array_holds
  already_created state prior_indices obj =
      if is_some (lookup obj state.created_added)
      then ok true
      else at_prior state.created obj (lookup obj prior_indices)

  -- The first loop of `apply_payload`; `seen` is the set `payload_created`.
  unfoldable pub check_created :
      WorkingState Arr Set → HashMap → List Hash → List Hash → Result E (Option Rejection)
  unfolding has already_created
  check_created state prior_indices seen [] = ok none
  check_created state prior_indices seen (obj ∷ objs) =
      if has obj seen
      then ok (some duplicate_created)
      else (already_created state prior_indices obj >>= λ exists.
          if exists
          then ok (some creation_collision)
          else check_created state prior_indices (obj ∷ seen) objs)

  -- The second loop; `seen` is the set `payload_nullifiers`.
  unfoldable pub check_nullifiers : Set → List Hash → List Hash → Result E (Option Rejection)
  unfolding has
  check_nullifiers set seen [] = ok none
  check_nullifiers set seen (nullifier ∷ nullifiers) =
      if has nullifier seen
      then ok (some duplicate_in_nullifiers)
      else (contains set nullifier >>= λ spent.
          if spent
          then ok (some duplicate_nullifier)
          else check_nullifiers set (nullifier ∷ seen) nullifiers)

  -- The third loop.
  unfoldable pub append_created : WorkingState Arr Set → List Hash → Result E (WorkingState Arr Set)
  append_created state [] = ok state
  append_created state (obj ∷ objs) =
      array_insert state.created state.created_count obj >>= λ created.
      append_created
        (record state {
          created = created;
          created_added = insert obj (as_i64 state.created_count) state.created_added;
          created_count = (state.created_count + 1) % 2 ^ 64;
        })
        objs

  -- The fourth loop.
  unfoldable pub insert_nullifiers :
      WorkingState Arr Set → List Hash → Result E (WorkingState Arr Set)
  insert_nullifiers state [] = ok state
  insert_nullifiers state (nullifier ∷ nullifiers) =
      set_insert state.nullifiers nullifier >>= λ set.
      insert_nullifiers
        (record state { nullifiers = set; nullifier_count = (state.nullifier_count + 1) % 2 ^ 64 })
        nullifiers

  -- A check that found a reason returns it with the state as it was.
  abbrev pub unless_rejected :
      WorkingState Arr Set
      → Result E (Option Rejection)
      → Result E (Option Rejection × WorkingState Arr Set)
      → Result E (Option Rejection × WorkingState Arr Set)
  unless_rejected state (err e) k = err e
  unless_rejected state (ok (some reason)) k = ok (some reason, state)
  unless_rejected state (ok none) k = k

  unfoldable pub check_grounding : HashMap → Hash → ℕ → Option Rejection
  unfolding lookup grounding_aged_out
  check_grounding recent_state_roots state_root block_number =
      elim (lookup state_root recent_state_roots) [
        | none ↦ some unknown_state_root
        | some state_root_block ↦
            if grounding_aged_out (as_i64 block_number) state_root_block
            then some (too_old (sub_i64 (as_i64 block_number) state_root_block) state_root_block)
            else none
      ]

  -- The mutations, once nothing was rejected.
  unfoldable pub commit_payload :
      {Proof : Type 0}
      → WorkingState Arr Set
      → Payload Proof
      → Result E (Option Rejection × WorkingState Arr Set)
  unfolding append_created insert_nullifiers
  commit_payload state payload = do
    state ← append_created state payload.created
    state ← insert_nullifiers state payload.nullifiers
    ok (none, state)

  unfoldable pub apply_payload :
      {Proof : Type 0}
      → WorkingState Arr Set
      → Payload Proof
      → HashMap
      → ℕ
      → Result E (Option Rejection × WorkingState Arr Set)
  unfolding check_grounding check_created check_nullifiers commit_payload
  apply_payload state payload prior_indices block_number =
      unless_rejected state
        (ok (check_grounding state.recent_state_roots payload.state_root block_number))
        (unless_rejected state (check_created state prior_indices [] payload.created) (
          unless_rejected state (check_nullifiers state.nullifiers [] payload.nullifiers)
            (commit_payload state payload)))
