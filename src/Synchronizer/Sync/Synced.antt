-- ===== src/Synchronizer/Sync/Synced.antt =====
-- The invariant of the sync loop: the log has a row for each slot from the first to the one before
-- the next, and the history of its objects.
use digital_objects_network.Payload.Format.{Payload}
use digital_objects_network.Synchronizer.Containers.{Backend, HashMap}
use digital_objects_network.Synchronizer.Containers.Laws.{Lawful, Available}
use digital_objects_network.Synchronizer.Derivation.{
  DerivedSlot, TargetTx, TxStatus, SkipReason, derive_slot_state,
}
use digital_objects_network.Synchronizer.Derivation.Applied.{offered}
use digital_objects_network.Synchronizer.Log.{
  SlotRow, Log, latest, last_processed_slot, don_state_at_head, created_indices, map_option,
}
use digital_objects_network.Synchronizer.Log.Commit.{commit_slot, keep_to, rollback_to_slot}
use digital_objects_network.Synchronizer.Log.Index.{keep_to-All}
use digital_objects_network.Synchronizer.Log.History.{History}
use digital_objects_network.Synchronizer.Log.Newest.{Before, latest-cons}
use digital_objects_network.Synchronizer.Log.Objects.{
  HasObjects, commit_slot-HasObjects, commit_slot-HasObjects_empty, HasObjects-rollback_to_slot,
  commit_slot_rows,
}
use digital_objects_network.Synchronizer.State.{Hashing, ExecutionBlock}
use digital_objects_network.Synchronizer.Sync.{rollback_before}
use digital_objects_network.Prelude.{
  ℕ, zero, suc, List, [], ◌∷◌, ◌++◌, Option, none, some, Hash, ok, ◌≡◌, ◌≤◌, ◌<◌, ◌+◌, arith, All,
  All-map, refl, sym, ap, Bool-cases, inl, inr, ltb, true,
}

unfoldable pub Contiguous : ℕ → ℕ → List SlotRow → Type 0
Contiguous init next [] = next ≡ init
Contiguous init next (row ∷ rows) = (next ≡ suc row.slot) × Contiguous init row.slot rows

pub Contiguous-le : (init next : ℕ) (rows : List SlotRow) → Contiguous init next rows → init ≤ next
unfolding Contiguous
Contiguous-le init next [] e = omega arith
Contiguous-le init next (row ∷ rows) (e, k) =
    let l = Contiguous-le init row.slot rows k in omega arith

pub Contiguous-Before :
    (init next : ℕ) (rows : List SlotRow) → Contiguous init next rows → Before next rows
unfolding Contiguous
Contiguous-Before init next [] e = tt
Contiguous-Before init next (row ∷ rows) (e, k) = (
  omega arith,
  All-map (λ (r : SlotRow) (l : r.slot < row.slot). omega arith) rows
      (Contiguous-Before init row.slot rows k),
)

pub Contiguous-keep_to :
    (init next keep : ℕ) (rows : List SlotRow)
    → init ≤ suc keep
    → suc keep ≤ next
    → Contiguous init next rows
    → Contiguous init (suc keep) (keep_to (λ (r : SlotRow). r.slot) keep rows)
unfolding Contiguous keep_to
Contiguous-keep_to init next keep [] low high e = omega arith
Contiguous-keep_to init next keep (row ∷ rows) low high (e, k) =
    elim (Bool-cases (ltb keep row.slot)) [
      | inl t ↦
          let l : suc keep ≤ row.slot = ground arith in
          rw t (Contiguous-keep_to init row.slot keep rows low l k)
      | inr f ↦
          let here : row.slot ≡ keep = ground arith in
          let older : All (λ (r : SlotRow). r.slot ≤ keep) rows =
            All-map (λ (r : SlotRow) (l : r.slot < row.slot). omega arith) rows
              (Contiguous-Before init row.slot rows k) in
          rw f (ap suc (sym here), rw (keep_to-All (λ (r : SlotRow). r.slot) keep rows older) k)
    ]

abbrev pub next_after : ℕ → Option ℕ → ℕ
next_after init none = init
next_after init (some last) = last + 1

newest_slot :
    (init next : ℕ) (rows : List SlotRow)
    → Contiguous init next rows
    → next ≡ next_after init (map_option (λ (r : SlotRow). r.slot) (latest (λ row. true) rows))
unfolding Contiguous latest
newest_slot init next [] e = e
newest_slot init next (row ∷ rows) (e, k) =
    rw (latest-cons (λ row. true) row rows (Contiguous-Before init row.slot rows k)) (omega arith)

-- The next slot is the one after the last that was processed.
pub last_processed_slot-Contiguous :
    (init next : ℕ) (log : Log)
    → Contiguous init next log.slots
    → next ≡ next_after init (last_processed_slot log)
unfolding last_processed_slot
last_processed_slot-Contiguous init next log k = newest_slot init next log.slots k

module _ {Arr Set MerkleProof Err : Type 0} (backend : Backend Arr Set MerkleProof Err)
    (lawful : Lawful backend) (available : Available backend) (init : ℕ) where
  unfoldable pub Synced : ℕ → Log → Type 0
  Synced next log =
      Contiguous init next log.slots × (xs : List Hash) × HasObjects backend lawful available log xs

  -- The log of some sync so far.
  abbrev pub IsSynced : Log → Type 0
  IsSynced log = (next : ℕ) × Synced next log

  pub rollback_before-Synced :
      (next start : ℕ) (log : Log)
      → init ≤ start
      → start ≤ next
      → Synced next log
      → Synced start (rollback_before start log)
  unfolding Synced rollback_to_slot Contiguous HasObjects History
  rollback_before-Synced next zero log low high (k, xs, h) = (omega arith, [], (refl, refl))
  rollback_before-Synced next (suc keep) log low high (k, xs, h) =
      let (ys, z, h₁) = HasObjects-rollback_to_slot backend lawful available keep log xs h in
      (Contiguous-keep_to init next keep log.slots low high k, ys, h₁)

  -- What was derived for a slot goes with the log's head state.
  abbrev pub DerivedFrom : Type 0 → Hashing → Log → Option DerivedSlot → Type 0
  DerivedFrom Proof hashing log none = Unit {0}
  DerivedFrom Proof hashing log (some derived) =
      (recent : HashMap) × (block : ExecutionBlock) × (txs : List (TargetTx (Payload Proof)))
      × (noted : List (TargetTx (Payload Proof))) × (derive_slot_state backend hashing
            (don_state_at_head log) recent block txs (created_indices log (offered txs))
          ≡ ok (derived, noted))

  pub commit_slot-Synced :
      (Proof : Type 0) (hashing : Hashing) (show : SkipReason → List ℕ) (at : ℕ) (root : Option ℕ)
      (derived : Option DerivedSlot) (statuses : List TxStatus) (log after : Log)
      → Synced at log
      → DerivedFrom Proof hashing log derived
      → commit_slot show at root derived statuses log ≡ ok after
      → Synced (suc at) after
  unfolding Synced Contiguous
  commit_slot-Synced Proof hashing show at root none statuses log after (k, xs, h) d c =
      let (rows, index) = commit_slot_rows show at root none statuses log after c in
      (
        rw rows (refl, k),
        xs,
        commit_slot-HasObjects_empty backend lawful available show at root statuses log after xs h
            (Contiguous-Before init at log.slots k) c,
      )
  commit_slot-Synced Proof hashing show at root (some derived) statuses log after (k, xs, h)
        (recent, block, txs, noted, d) c =
      let (rows, index) = commit_slot_rows show at root (some derived) statuses log after c in
      let (zs, h₁) =
        commit_slot-HasObjects backend lawful available hashing recent block txs noted derived show
          at root statuses log after xs h (Contiguous-Before init at log.slots k) d c in
      (rw rows (refl, k), xs ++ zs, h₁)
