-- ===== src/Synchronizer/Sync/Restarts.antt =====
-- A log that the sync loop leaves passes the check of the next start.
use digital_objects_network.Synchronizer.Containers.Laws.{Lawful, Available}
use digital_objects_network.Synchronizer.Log.{SlotRow}
use digital_objects_network.Synchronizer.Log.Starting.{
  min_slot, first_committed_slot, starts_at, connect,
}
use digital_objects_network.Synchronizer.Node.{Node}
use digital_objects_network.Synchronizer.Sync.Fetches.{AnswersAsked}
use digital_objects_network.Synchronizer.Sync.Forever.{run_sync_forever-IsSynced}
use digital_objects_network.Synchronizer.Sync.Synced.{Contiguous, Contiguous-le, Synced, IsSynced}
use digital_objects_network.Synchronizer.Sync.Turns.{run_sync_forever}
use digital_objects_network.Synchronizer.World.{World}
use digital_objects_network.Prelude.{
  ℕ, List, [], ◌∷◌, none, some, ok, ◌≡◌, ◌≤◌, ◌⊎◌, inl, inr, refl, ap, leb, ◌==◌, true, Bool-cases,
  arith,
}

-- The first slot of a log is INIT_START_SLOT.
min_slot-Contiguous :
    (init next : ℕ) (rows : List SlotRow)
    → Contiguous init next rows
    → ((min_slot rows ≡ none) × (next ≡ init)) ⊎ (min_slot rows ≡ some init)
unfolding min_slot Contiguous
min_slot-Contiguous init next [] e = inl (refl, e)
min_slot-Contiguous init next (row ∷ rows) (e, k) =
    elim (min_slot-Contiguous init row.slot rows k) [
      | inl (none_yet, first) ↦ inr (rw none_yet (ap (λ s. some s) first))
      | inr found ↦
          let l = Contiguous-le init row.slot rows k in
          elim (Bool-cases (leb row.slot init)) [
            | inl t ↦
                let first : row.slot ≡ init = ground arith in
                inr (rw found (rw t (ap (λ s. some s) first)))
            | inr f ↦ inr (rw found (rw f refl))
          ]
    ]

starts_at-Contiguous :
    (init next : ℕ) (rows : List SlotRow)
    → Contiguous init next rows
    → starts_at init (min_slot rows) ≡ ok tt
starts_at-Contiguous init next rows k = elim (min_slot-Contiguous init next rows k) [
  | inl (empty, e) ↦ rw empty refl
  | inr found ↦ let same : (init == init) ≡ true = ground arith in rw found (rw same refl)
]

module _ {Arr Set MerkleProof Err Proof E : Type 0} (node : Node Arr Set MerkleProof Err Proof E)
    (lawful : Lawful node.backend) (available : Available node.backend)
    (asked : AnswersAsked node.gateway) where
  -- However the synchronizer ended, its log passes the check of the next start with the same
  -- INIT_START_SLOT, which is at least 1. The log was synced at the start, the containers are
  -- lawful, their store is available, and the beacon node answers a query for a slot with that slot's
  -- header.
  pub connect-run_sync_forever :
      (wakeups turns starts : ℕ) (w : World E)
      → 1 ≤ node.config.init_start_slot
      → IsSynced node.backend lawful available node.config.init_start_slot w.log
      → connect node.config.init_start_slot (run_sync_forever node wakeups turns starts w).1.log
        ≡ ok tt
  unfolding connect first_committed_slot Synced
  connect-run_sync_forever wakeups turns starts w l s =
      let (next, (k, xs, h)) =
        run_sync_forever-IsSynced node lawful available asked wakeups turns starts w s in
      let positive : leb 1 node.config.init_start_slot ≡ true = ground arith in
      rw positive (
        starts_at-Contiguous node.config.init_start_slot next
          (run_sync_forever node wakeups turns starts w).1.log.slots k)
