-- ===== src/Synchronizer/Log/Objects.antt =====
-- The objects of the log under its two transactions.
use digital_objects_network.Payload.Format.{Payload}
use digital_objects_network.Synchronizer.State.{ExecutionBlock, Hashing}
use digital_objects_network.Synchronizer.Containers.{HashMap, Backend}
use digital_objects_network.Synchronizer.Containers.Laws.{Lawful, Available}
use digital_objects_network.Synchronizer.Derivation.{
  DerivedSlot, TargetTx, TxStatus, SkipReason, derive_slot_state,
}
use digital_objects_network.Synchronizer.Derivation.Applied.{offered}
use digital_objects_network.Synchronizer.Derivation.Slot.{
  derive_slot_state-IsCreated, derive_slot_state_root,
}
use digital_objects_network.Synchronizer.Log.{
  SlotRow, Log, don_state_at_head, created_indices, map_option, find_slot, duplicate_slot,
  duplicate_root,
}
use digital_objects_network.Synchronizer.Log.Commit.{
  commit_slot, rollback_to_slot, insert_slot, insert_created, insert_statuses, additions, has_root,
  keep_to,
}
use digital_objects_network.Synchronizer.Log.Newest.{Before, don_state_at_head-newest}
use digital_objects_network.Synchronizer.Log.History.{
  History, Extends, History-Covers, History-NewestFirst,
}
use digital_objects_network.Synchronizer.Log.Changes.{History-IsCreated, History-keep_to}
use digital_objects_network.Synchronizer.Log.Index.{new_rows, insert_created_rows}
use digital_objects_network.Prelude.{
  ℕ, List, Option, Hash, ◌≡◌, ◌++◌, ok, some, ◌∷◌, bind_ok, guard_ok, is_some, sym, ◌∙◌, ap, refl,
  none, if◌then◌else◌, leb, Bool-cases, inl, inr, ◌==◌, ltb, false, arith, true, [],
}

-- What a commit that succeeds wrote.
pub commit_slot_rows :
    (show : SkipReason → List ℕ) (slot : ℕ) (root : Option ℕ) (derived : Option DerivedSlot)
    (statuses : List TxStatus) (log after : Log)
    → commit_slot show slot root derived statuses log ≡ ok after
    → (after.slots
        ≡ record {
          slot = slot;
          block_root = root;
          state = map_option (λ (d : DerivedSlot). d.state) derived;
        }
          ∷ log.slots)
      × (after.created_index ≡ new_rows slot (additions show derived) ++ log.created_index)
unfolding commit_slot insert_slot
commit_slot_rows show slot root derived statuses log after h =
    let row : SlotRow = record {
      slot = slot;
      block_root = root;
      state = map_option (λ (d : DerivedSlot). d.state) derived;
    } in
    let (slots, e, h₁) = bind_ok (insert_slot row log.slots) _ after h in
    let (index, e₁, h₂) =
      bind_ok (insert_created slot (additions show derived) log.created_index) _ after h₁ in
    let (texts, e₂, h₃) = bind_ok (insert_statuses show slot statuses log.tx_statuses) _ after h₂ in
    let (fresh, h₄) = guard_ok (is_some (find_slot slot log.slots)) duplicate_slot _ slots e in
    let (fresh₁, h₅) = guard_ok (has_root root log.slots) duplicate_root _ slots h₄ in
    let e₃ : slots ≡ row ∷ log.slots = cc in
    let e₄ : slots ≡ after.slots = cc in
    let e₅ : index ≡ after.created_index = cc in
    (
      sym e₄ ∙ e₃,
      sym e₅ ∙ insert_created_rows slot (additions show derived) log.created_index index e₁,
    )

find_slot-keep_to :
    (keep slot : ℕ) (rows : List SlotRow)
    → find_slot slot (keep_to (λ (row : SlotRow). row.slot) keep rows)
      ≡ (if leb slot keep then find_slot slot rows else none)
unfolding find_slot keep_to
find_slot-keep_to keep slot [] = elim (Bool-cases (leb slot keep)) [
  | inl t ↦ rw t refl
  | inr f ↦ rw f refl
]
find_slot-keep_to keep slot (row ∷ rows) =
    let rest = find_slot-keep_to keep slot rows in
    elim (Bool-cases (row.slot == slot)) [
      | inl same ↦ elim (Bool-cases (leb slot keep)) [
        | inl t ↦ let kept : ltb keep row.slot ≡ false = ground arith in rw (kept, same, t) refl
        | inr f ↦ let gone : ltb keep row.slot ≡ true = ground arith in rw (gone, rest, f) refl
      ]
      | inr other ↦ elim (Bool-cases (ltb keep row.slot)) [
        | inl gone ↦ rw (gone, rest, other) refl
        | inr kept ↦ rw (kept, other, rest) refl
      ]
    ]

module _ {Arr Set MerkleProof E : Type 0} (backend : Backend Arr Set MerkleProof E)
    (lawful : Lawful backend) (available : Available backend) where
  -- The log holds the history of these objects.
  unfoldable pub HasObjects : Log → List Hash → Type 0
  HasObjects log xs = History backend log.slots log.created_index xs

  -- Committing a slot that was derived from the head state, with the positions that the log has for
  -- the objects offered, leaves a log with the history of the objects it had and new ones after
  -- them. The slot comes after those of the log, the containers are lawful, and their store is
  -- available.
  pub commit_slot-HasObjects :
      {Proof : Type 0}
      → (hashing : Hashing) (recent : HashMap) (block : ExecutionBlock)
        (target_txs noted : List (TargetTx (Payload Proof))) (derived : DerivedSlot)
        (show : SkipReason → List ℕ) (slot : ℕ) (root : Option ℕ) (statuses : List TxStatus)
        (log after : Log) (xs : List Hash)
      → HasObjects log xs
      → Before slot log.slots
      → derive_slot_state backend hashing
          (don_state_at_head log)
          recent
          block
          target_txs
          (created_indices log (offered target_txs))
        ≡ ok (derived, noted)
      → commit_slot show slot root (some derived) statuses log ≡ ok after
      → (zs : List Hash) × HasObjects after (xs ++ zs)
  unfolding HasObjects History Extends
  commit_slot-HasObjects hashing recent block target_txs noted derived show slot root statuses log
        after xs k before d c =
      let prior = created_indices log (offered target_txs) in
      let head =
        don_state_at_head-newest log
          (History-NewestFirst backend log.slots log.created_index xs k) in
      let (created, is_created) =
        History-IsCreated backend lawful available log.slots log.created_index xs k in
      let (a, root_of) =
        derive_slot_state_root backend lawful hashing recent block target_txs prior
          (don_state_at_head log) derived noted d in
      let (reopened, opens) = available.reopens a in
      let opens₁ : backend.array_from_db derived.state.roots.created ≡ ok reopened =
        ap (λ r. backend.array_from_db r) root_of ∙ opens in
      let (zs, short, is_created₁, added) =
        derive_slot_state-IsCreated backend lawful hashing recent block target_txs prior
          (don_state_at_head log) created xs derived noted reopened (rw head is_created)
          (History-Covers backend log (offered target_txs) xs k) d opens₁ in
      let (rows, index) = commit_slot_rows show slot root (some derived) statuses log after c in
      (
        zs,
        rw (rows, index)
            (
              before,
              (
                log.created_index,
                xs,
                ((zs, refl), (reopened, is_created₁), (derived.created_added, added, refl)),
                k,
              ),
            ),
      )

  -- A slot without a state leaves the objects.
  pub commit_slot-HasObjects_empty :
      (show : SkipReason → List ℕ) (slot : ℕ) (root : Option ℕ) (statuses : List TxStatus)
      (log after : Log) (xs : List Hash)
      → HasObjects log xs
      → Before slot log.slots
      → commit_slot show slot root none statuses log ≡ ok after
      → HasObjects after xs
  unfolding HasObjects History new_rows
  commit_slot-HasObjects_empty show slot root statuses log after xs k before c =
      let (rows, index) = commit_slot_rows show slot root none statuses log after c in
      rw (rows, index) (before, k)

  pub HasObjects-rollback_to_slot :
      (keep : ℕ) (log : Log) (xs : List Hash)
      → HasObjects log xs
      → (ys : List Hash) × ((zs : List Hash) × (xs ≡ ys ++ zs))
        × HasObjects (rollback_to_slot keep log) ys
  unfolding HasObjects rollback_to_slot
  HasObjects-rollback_to_slot keep log xs k =
      History-keep_to backend lawful available keep log.slots log.created_index xs k

  -- Rolling the log back leaves the row of each slot up to the one to keep, and of no later slot,
  -- and what is left is the history of the first of the log's objects.
  pub rollback_to_slot-HasObjects :
      (keep : ℕ) (log : Log) (xs : List Hash) (slot : ℕ)
      → HasObjects log xs
      → (find_slot slot (rollback_to_slot keep log).slots
          ≡ (if leb slot keep then find_slot slot log.slots else none))
        × ((ys : List Hash) × ((zs : List Hash) × (xs ≡ ys ++ zs))
            × HasObjects (rollback_to_slot keep log) ys)
  unfolding rollback_to_slot
  rollback_to_slot-HasObjects keep log xs slot k =
      (find_slot-keep_to keep slot log.slots, HasObjects-rollback_to_slot keep log xs k)
