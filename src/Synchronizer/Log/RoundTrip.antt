-- ===== src/Synchronizer/Log/RoundTrip.antt =====
-- Rolling back a commit.
use digital_objects_network.Synchronizer.Containers.{Backend}
use digital_objects_network.Synchronizer.Containers.Laws.{Lawful, Available}
use digital_objects_network.Synchronizer.Derivation.{DerivedSlot, BlobStatus, TxStatus, SkipReason}
use digital_objects_network.Synchronizer.Log.{
  SlotRow, IndexRow, StatusRow, Log, duplicate_status, map_option,
}
use digital_objects_network.Synchronizer.Log.Commit.{
  commit_slot, rollback_to_slot, keep_to, has_status, insert_blob_statuses, insert_statuses,
  additions, insert_slot, insert_created,
}
use digital_objects_network.Synchronizer.Log.Changes.{History-below}
use digital_objects_network.Synchronizer.Log.Index.{keep_to-new_rows, keep_to-All}
use digital_objects_network.Synchronizer.Log.Objects.{HasObjects, commit_slot_rows}
use digital_objects_network.Prelude.{
  ℕ, List, [], ◌∷◌, Option, ◌≡◌, ◌<◌, ◌≤◌, ◌+◌, ok, bind_ok, guard_ok, arith, refl, ◌∙◌, ap, sym,
  ltb, true, All, Hash,
}

abbrev status_slot : StatusRow → ℕ
status_slot row = row.slot

module _ (show : SkipReason → List ℕ) where
  insert_blob_statuses_above :
      (keep slot tx_hash i : ℕ) (statuses : List BlobStatus) (rows after : List StatusRow)
      → keep < slot
      → insert_blob_statuses show slot tx_hash i statuses rows ≡ ok after
      → keep_to status_slot keep after ≡ keep_to status_slot keep rows
  unfolding insert_blob_statuses keep_to
  insert_blob_statuses_above keep slot tx_hash i [] rows after l h =
      let e : rows ≡ after = cc in ap (keep_to status_slot keep) (sym e)
  insert_blob_statuses_above keep slot tx_hash i (status ∷ statuses) rows after l h =
      let (fresh, h₁) = guard_ok (has_status tx_hash i rows) duplicate_status _ after h in
      let above : ltb keep slot ≡ true = ground arith in
      insert_blob_statuses_above keep slot tx_hash (i + 1) statuses _ after l h₁ ∙ rw above refl

  insert_statuses_above :
      (keep slot : ℕ) (txs : List TxStatus) (rows after : List StatusRow)
      → keep < slot
      → insert_statuses show slot txs rows ≡ ok after
      → keep_to status_slot keep after ≡ keep_to status_slot keep rows
  unfolding insert_statuses
  insert_statuses_above keep slot [] rows after l h =
      let e : rows ≡ after = cc in ap (keep_to status_slot keep) (sym e)
  insert_statuses_above keep slot (tx ∷ txs) rows after l h =
      let (mid, h₁, h₂) =
        bind_ok (insert_blob_statuses show slot tx.tx_hash 0 tx.blobs rows) _ after h in
      insert_statuses_above keep slot txs mid after l h₂
      ∙ insert_blob_statuses_above keep slot tx.tx_hash 0 tx.blobs rows mid l h₁

  commit_slot_statuses :
      (slot : ℕ) (root : Option ℕ) (derived : Option DerivedSlot) (statuses : List TxStatus)
      (log after : Log)
      → commit_slot show slot root derived statuses log ≡ ok after
      → insert_statuses show slot statuses log.tx_statuses ≡ ok after.tx_statuses
  unfolding commit_slot
  commit_slot_statuses slot root derived statuses log after h =
      let row : SlotRow = record {
        slot = slot;
        block_root = root;
        state = map_option (λ (d : DerivedSlot). d.state) derived;
      } in
      let (slots, e, h₁) = bind_ok (insert_slot row log.slots) _ after h in
      let (index, e₁, h₂) =
        bind_ok (insert_created slot (additions show derived) log.created_index) _ after h₁ in
      let (texts, e₂, h₃) =
        bind_ok (insert_statuses show slot statuses log.tx_statuses) _ after h₂ in
      let e₃ : texts ≡ after.tx_statuses = cc in e₂ ∙ ap (λ t. ok t) e₃

module _ {Arr Set MerkleProof Err : Type 0} (backend : Backend Arr Set MerkleProof Err)
    (lawful : Lawful backend) (available : Available backend) where
  -- Rolling back to a slot undoes the commit of a later slot to the letter: the log is the one before
  -- the commit. That log has the history of its objects, and its rows and statuses are of slots up to
  -- the one kept. The containers are lawful and their store is available.
  pub rollback_to_slot-commit_slot :
      (show : SkipReason → List ℕ) (keep slot : ℕ) (root : Option ℕ) (derived : Option DerivedSlot)
      (statuses : List TxStatus) (log after : Log) (xs : List Hash)
      → HasObjects backend lawful available log xs
      → All (λ (r : SlotRow). r.slot ≤ keep) log.slots
      → All (λ (r : StatusRow). r.slot ≤ keep) log.tx_statuses
      → keep < slot
      → commit_slot show slot root derived statuses log ≡ ok after
      → rollback_to_slot keep after ≡ log
  unfolding HasObjects rollback_to_slot keep_to
  rollback_to_slot-commit_slot show keep slot root derived statuses log after xs k rows old l c =
      let (e, e₁) = commit_slot_rows show slot root derived statuses log after c in
      let s =
        insert_statuses_above show keep slot statuses log.tx_statuses after.tx_statuses l
          (commit_slot_statuses show slot root derived statuses log after c) in
      let above : ltb keep slot ≡ true = ground arith in
      let slots = keep_to-All (λ (r : SlotRow). r.slot) keep log.slots rows in
      let index =
        keep_to-All (λ (r : IndexRow). r.slot) keep log.created_index
          (History-below backend lawful available keep log.slots log.created_index xs k rows) in
      let texts = s ∙ keep_to-All status_slot keep log.tx_statuses old in
      rw
        (
          e,
          e₁,
          above,
          slots,
          keep_to-new_rows keep slot (additions show derived) log.created_index l,
          index,
          texts,
        )
        refl
