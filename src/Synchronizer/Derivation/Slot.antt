-- ===== src/Synchronizer/Derivation/Slot.antt =====
-- What one slot does to the created array of the network's state.
use digital_objects_network.Payload.Format.{Payload}
use digital_objects_network.Synchronizer.State.{DonState, ExecutionBlock, Hashing}
use digital_objects_network.Synchronizer.Containers.Laws.{Lawful, Represents}
use digital_objects_network.Synchronizer.Containers.{HashMap, Backend, lookup}
use digital_objects_network.Synchronizer.Apply.{WorkingState, has}
use digital_objects_network.Synchronizer.Apply.Distinct.{NoDup}
use digital_objects_network.Synchronizer.Apply.Created.{Sound, Known}
use digital_objects_network.Synchronizer.Derivation.Applied.{offered, Grown, txs-Grown}
use digital_objects_network.Synchronizer.Derivation.{
  DerivedSlot, TargetTx, derive_slot_state, open_working, close_slot, apply_txs, or_empty,
  count_or_zero,
}
use digital_objects_network.Prelude.{
  Option, List, Hash, ◌≡◌, true, All, ok, length, ℤ, ◌∷◌, bind_ok, arith, sym, some, ◌∙◌,
  hash_eq_refl, get_elem?, ◌≤◌, All-map, inr, hash_eq, ◌++◌, ◌||◌, [], ap,
}
use digital_objects_network.Prelude.Int.{as_u64}
use digital_objects_network.Synchronizer.Apply.Additions.{Added-start, Added}

-- The created array of a state holds the list, without repetitions, and the count is its length.
unfoldable pub IsCreated :
    {Arr Set MerkleProof E : Type 0}
    → Backend Arr Set MerkleProof E
    → Option DonState
    → Arr
    → List Hash
    → Type 0
IsCreated backend base_state created xs =
    (backend.array_from_db (or_empty base_state).created ≡ ok created)
    × Represents backend created xs
    × (length xs ≡ count_or_zero (λ state. state.metadata.created_count) base_state)
    × NoDup xs

-- The indices prefetched for a slot: each object of the list that a payload of the slot may create
-- has its position.
unfoldable pub Covers : HashMap → List Hash → List Hash → Type 0
Covers prior_indices asked xs =
    (h : Hash)
    → has h asked ≡ true
    → has h xs ≡ true
    → (index : ℤ) × (lookup h prior_indices ≡ some index) × (get_elem? xs (as_u64 index) ≡ some h)

All-has : (hs : List Hash) → All (λ h. has h hs ≡ true) hs
unfolding has
All-has [] = tt
All-has (h ∷ hs) = (
  ground (arith, hash_eq_refl h),
  All-map (λ g e. let k : (hash_eq h g || has g hs) ≡ true = ground arith in k) hs (All-has hs),
)

module _ {Arr Set MerkleProof E : Type 0} (backend : Backend Arr Set MerkleProof E)
    (lawful : Lawful backend) {Proof : Type 0} (hashing : Hashing) (recent_state_roots : HashMap)
    (block : ExecutionBlock) (target_txs : List (TargetTx (Payload Proof)))
    (prior_indices : HashMap) where
  open_working-Sound :
      (base_state : Option DonState) (created : Arr) (xs : List Hash)
      (working : WorkingState Arr Set)
      → IsCreated backend base_state created xs
      → Covers prior_indices (offered target_txs) xs
      → open_working backend base_state recent_state_roots ≡ ok working
      → Sound backend prior_indices (offered target_txs) xs working xs
  unfolding open_working IsCreated Covers Sound Known
  open_working-Sound base_state created xs working base covers h =
      let (c, e, h₁) = bind_ok (backend.array_from_db (or_empty base_state).created) _ working h in
      let (n, e₁, h₂) =
        bind_ok (backend.set_from_db (or_empty base_state).nullifiers) _ working h₁ in
      let (history, e₂, h₃) =
        bind_ok (backend.array_from_db (or_empty base_state).next_state_history) _ working h₂ in
      let same : c ≡ created = cc in
      let e₃ : c ≡ working.created = cc in
      let e₄ : created ≡ working.created = sym same ∙ e₃ in
      let e₅ : count_or_zero (λ state. state.metadata.created_count) base_state
          ≡ working.created_count =
        cc in
      let e₆ : working.created_added ≡ [] = cc in
      (rw (sym e₄) base.1, base.2 ∙ e₅, base.3, λ h a k. inr (covers h a k), rw e₆ (Added-start xs))

  close_slot-created :
      (base_state : Option DonState) (working : WorkingState Arr Set) (derived : DerivedSlot)
      → close_slot backend hashing base_state block working ≡ ok derived
      → (derived.state.roots.created ≡ backend.array_commitment working.created)
        × (derived.state.metadata.created_count ≡ working.created_count)
        × (derived.created_added ≡ working.created_added)
  unfolding close_slot
  close_slot-created base_state working derived h =
      let (history, e, h₁) =
        bind_ok (backend.array_insert working.next_state_history _ _) _ derived h in
      (cc, cc, cc)

  -- The new root is the commitment of an array.
  pub derive_slot_state_root :
      (base_state : Option DonState) (derived : DerivedSlot)
      (noted : List (TargetTx (Payload Proof)))
      → derive_slot_state backend hashing base_state recent_state_roots block target_txs
          prior_indices
        ≡ ok (derived, noted)
      → (a : Arr) × (derived.state.roots.created ≡ backend.array_commitment a)
  unfolding derive_slot_state
  derive_slot_state_root base_state derived noted h =
      let (working, e, h₁) =
        bind_ok (open_working backend base_state recent_state_roots) _ (derived, noted) h in
      let ((last, txs), e₁, h₂) =
        bind_ok (apply_txs backend prior_indices block.number working target_txs) _ (derived, noted)
          h₁ in
      let (closed, e₂, h₃) =
        bind_ok (close_slot backend hashing base_state block last) _ (derived, noted) h₂ in
      let same : closed ≡ derived = cc in
      (last.created, (close_slot-created base_state last derived (e₂ ∙ ap (λ d. ok d) same)).0)

  -- A slot that is derived from a base state whose created array holds the objects `xs` without
  -- repetitions appends at most as many objects as the payloads of the slot offer: the new
  -- root reopens to an array of `xs` followed by them, again without repetitions, and the new count
  -- is its length. The additions give each new object its position in the array, and name no
  -- other. The containers are lawful, and the prior indices cover the objects offered.
  pub derive_slot_state-IsCreated :
      (base_state : Option DonState) (created : Arr) (xs : List Hash) (derived : DerivedSlot)
      (noted : List (TargetTx (Payload Proof))) (reopened : Arr)
      → IsCreated backend base_state created xs
      → Covers prior_indices (offered target_txs) xs
      → derive_slot_state backend hashing base_state recent_state_roots block target_txs
          prior_indices
        ≡ ok (derived, noted)
      → backend.array_from_db derived.state.roots.created ≡ ok reopened
      → (zs : List Hash) × (length zs ≤ length (offered target_txs))
        × IsCreated backend (some derived.state) reopened (xs ++ zs)
        × Added xs derived.created_added (xs ++ zs)
  unfolding derive_slot_state IsCreated Sound Represents Grown
  derive_slot_state-IsCreated base_state created xs derived noted reopened base covers h r =
      let (working, e, h₁) =
        bind_ok (open_working backend base_state recent_state_roots) _ (derived, noted) h in
      let ((last, txs), e₁, h₂) =
        bind_ok (apply_txs backend prior_indices block.number working target_txs) _ (derived, noted)
          h₁ in
      let (closed, e₂, h₃) =
        bind_ok (close_slot backend hashing base_state block last) _ (derived, noted) h₂ in
      let same : closed ≡ derived = cc in
      let (root, count, additions) =
        close_slot-created base_state last derived (e₂ ∙ ap (λ d. ok d) same) in
      let (zs, sound, k) =
        txs-Grown backend lawful prior_indices (offered target_txs) xs block.number working
          target_txs last txs xs (open_working-Sound base_state created xs working base covers e)
          (All-has (offered target_txs)) e₁ in
      let r₁ : backend.array_from_db (backend.array_commitment last.created) ≡ ok reopened =
        ap (λ root. backend.array_from_db root) (sym root) ∙ r in
      (
        zs,
        k,
        (
          r,
          (λ i. lawful.get-array_from_db last.created reopened i r₁ ∙ sound.0 i),
          sound.1 ∙ sym count,
          sound.2,
        ),
        rw additions sound.4,
      )
