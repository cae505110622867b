-- ===== src/Synchronizer/Log/Commit.antt =====
-- The transactions that change the log: `commit_slot` and `rollback_to_slot`.
use digital_objects_network.Synchronizer.Containers.{HashMap}
use digital_objects_network.Synchronizer.Derivation.{DerivedSlot, BlobStatus, TxStatus, SkipReason}
use digital_objects_network.Synchronizer.Log.{
  SlotRow, IndexRow, StatusRow, Log, LogError, find_slot, map_option, cap_error, duplicate_status,
  duplicate_slot, duplicate_commitment, duplicate_root,
}
use digital_objects_network.Prelude.{
  Option, ℕ, List, Hash, ◌∷◌, [], Bool, Result, ok, some, if◌then◌else◌, none, false, ◌||◌, ltb,
  ◌==◌, ◌>>=◌, hash_eq, err, is_some, ◌&&◌, ◌+◌,
}

abbrev is_root : ℕ → Option ℕ → Bool
is_root root none = false
is_root root (some other) = other == root

-- The unique index on block roots, which leaves nulls out.
unfoldable pub has_root : Option ℕ → List SlotRow → Bool
has_root none rows = false
has_root (some root) [] = false
has_root (some root) (row ∷ rows) = is_root root row.block_root || has_root (some root) rows

unfoldable pub insert_slot : SlotRow → List SlotRow → Result LogError (List SlotRow)
unfolding find_slot has_root
insert_slot row rows =
    if is_some (find_slot row.slot rows)
    then err duplicate_slot
    else if has_root row.block_root rows
    then err duplicate_root
    else ok (row ∷ rows)

unfoldable pub has_commitment : Hash → List IndexRow → Bool
has_commitment h [] = false
has_commitment h (row ∷ rows) = hash_eq row.commitment h || has_commitment h rows

-- The loop over `created_added`.
unfoldable pub insert_created : ℕ → HashMap → List IndexRow → Result LogError (List IndexRow)
unfolding has_commitment
insert_created slot [] rows = ok rows
insert_created slot (entry ∷ entries) rows = insert_created slot entries rows >>= λ rows.
    if has_commitment entry.0 rows
    then err (duplicate_commitment entry.0)
    else ok (record { commitment = entry.0; array_index = entry.1; slot = slot } ∷ rows)

unfoldable pub has_status : ℕ → ℕ → List StatusRow → Bool
has_status tx_hash index [] = false
has_status tx_hash index (row ∷ rows) =
    (row.tx_hash == tx_hash && row.tx_blob_index == index) || has_status tx_hash index rows

-- `show` is the text of a reason.
module _ (show : SkipReason → List ℕ) where
  -- The inner loop over the blobs of a transaction, from index `i` on.
  unfoldable pub insert_blob_statuses :
      ℕ → ℕ → ℕ → List BlobStatus → List StatusRow → Result LogError (List StatusRow)
  unfolding has_status cap_error
  insert_blob_statuses slot tx_hash i [] rows = ok rows
  insert_blob_statuses slot tx_hash i (status ∷ statuses) rows =
      if has_status tx_hash i rows
      then err duplicate_status
      else insert_blob_statuses slot tx_hash (i + 1) statuses (
          record {
            slot = slot;
            tx_hash = tx_hash;
            tx_blob_index = i;
            tx_final = status.tx_final;
            error = map_option (λ reason. cap_error (show reason)) status.error;
          }
          ∷ rows)

  unfoldable pub insert_statuses :
      ℕ → List TxStatus → List StatusRow → Result LogError (List StatusRow)
  unfolding insert_blob_statuses
  insert_statuses slot [] rows = ok rows
  insert_statuses slot (tx ∷ txs) rows =
      insert_blob_statuses slot tx.tx_hash 0 tx.blobs rows >>= insert_statuses slot txs

  abbrev pub additions : Option DerivedSlot → HashMap
  additions none = []
  additions (some derived) = derived.created_added

  unfoldable pub commit_slot :
      ℕ → Option ℕ → Option DerivedSlot → List TxStatus → Log → Result LogError Log
  unfolding insert_slot insert_created insert_statuses
  commit_slot slot block_root derived tx_statuses log = do
    slots ←
        insert_slot
          (record {
            slot = slot;
            block_root = block_root;
            state = map_option (λ (d : DerivedSlot). d.state) derived;
          })
          log.slots
    created_index ← insert_created slot (additions derived) log.created_index
    statuses ← insert_statuses slot tx_statuses log.tx_statuses
    ok (record { slots = slots; created_index = created_index; tx_statuses = statuses })

-- DELETE … WHERE slot > $1, for a table whose rows have the slot `slot_of`.
unfoldable pub keep_to : {A : Type 0} → (A → ℕ) → ℕ → List A → List A
keep_to slot_of keep_slot [] = []
keep_to slot_of keep_slot (row ∷ rows) =
    let rest = keep_to slot_of keep_slot rows in
    if ltb keep_slot (slot_of row) then rest else row ∷ rest

-- The statuses go with their slots, ON DELETE CASCADE.
unfoldable pub rollback_to_slot : ℕ → Log → Log
unfolding keep_to
rollback_to_slot keep_slot log = record {
  slots = keep_to (λ (row : SlotRow). row.slot) keep_slot log.slots;
  created_index = keep_to (λ (row : IndexRow). row.slot) keep_slot log.created_index;
  tx_statuses = keep_to (λ (row : StatusRow). row.slot) keep_slot log.tx_statuses;
}
