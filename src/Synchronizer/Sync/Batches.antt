-- ===== src/Synchronizer/Sync/Batches.antt =====
-- What a batch of slots leaves in the log.
use digital_objects_network.Synchronizer.Containers.Laws.{Lawful, Available}
use digital_objects_network.Synchronizer.Log.{Log}
use digital_objects_network.Synchronizer.Node.{Node, SlotContext}
use digital_objects_network.Synchronizer.Sync.{MissingSlotAction, rewound, applied, pure}
use digital_objects_network.Synchronizer.Sync.Batch as Batch
use digital_objects_network.Synchronizer.Sync.Batch.{FetchedSlot, present}
use digital_objects_network.Synchronizer.Sync.Turns.{
  SyncState, Turn, stopped, more, BatchEnd, cut_short, reorg_detected, all_applied,
  derive_and_commit, after_missing, after_checks, batch_slot, apply_batch, after_batch, batch_turn,
}
use digital_objects_network.Synchronizer.Sync.Fetches.{AnswersAsked, get_beacon_head_header_Reads}
use digital_objects_network.Synchronizer.Sync.Fetched.{IsOf, FetchedFrom, fetch_batch_Reads}
use digital_objects_network.Synchronizer.Sync.Reads.{peek_Reads}
use digital_objects_network.Synchronizer.Sync.Handlers.{
  At, Ok, keep_read, Checked, AfterMissing, handle_missing_slot_Triple,
  handle_reorgs_for_present_slot_Triple,
}
use digital_objects_network.Synchronizer.Sync.Triples.{
  Triple, bind_Triple, pure_Triple, if_Triple, given_Triple, relax_Triple,
}
use digital_objects_network.Synchronizer.World.{Run}
use digital_objects_network.Prelude.{ℕ, suc, List, [], ◌∷◌, Option, none, some, ◌≡◌}
use digital_objects_network.Synchronizer.Sync.Deriving.{
  derive_from_context_Triple, commit_slot_Triple,
}

module _ {Arr Set MerkleProof Err Proof E : Type 0} (node : Node Arr Set MerkleProof Err Proof E)
    (lawful : Lawful node.backend) (available : Available node.backend)
    (asked : AnswersAsked node.gateway) where
  -- The log is ready for the slot `at`.
  abbrev pub BeforeSlot : ℕ → Log → Type 0
  BeforeSlot = At node lawful available

  abbrev pub Fine : Log → Type 0
  Fine = Ok node lawful available

  pub derive_and_commit_Triple :
      (at : ℕ) (context : SlotContext)
      → context.slot ≡ at
      → Triple Fine (BeforeSlot at) (derive_and_commit node context) (λ u. BeforeSlot (suc at))
  derive_and_commit_Triple at context e =
      bind_Triple Fine (derive_from_context_Triple node lawful available at context e)
        λ processed. commit_slot_Triple node lawful available at processed

  -- The loop over a batch ends with the log ready for the slot it names.
  abbrev BatchOk : BatchEnd → Log → Type 0
  BatchOk cut_short = Fine
  BatchOk (reorg_detected start) = BeforeSlot start
  BatchOk (all_applied next) = BeforeSlot next

  batch_slot_Triple :
      (at : ℕ) (rest : ℕ → Run E BatchEnd) (one : FetchedSlot)
      → IsOf at one
      → Triple Fine (BeforeSlot (suc at)) (rest (suc at)) BatchOk
      → Triple Fine (BeforeSlot at) (batch_slot node rest one) BatchOk
  batch_slot_Triple at rest (Batch.missing s) e k =
      rw e (bind_Triple Fine (handle_missing_slot_Triple node lawful available at) missing_Triple)
    where
      missing_Triple :
          (action : MissingSlotAction)
          → Triple Fine
              (AfterMissing node lawful available at action)
              (after_missing node rest at action)
              BatchOk
      missing_Triple applied = k
      missing_Triple (rewound start) = pure_Triple Fine λ log s. s
  batch_slot_Triple at rest (Batch.present s header context) (e, c) k = rw e (
      bind_Triple Fine (handle_reorgs_for_present_slot_Triple node lawful available at header)
        checked_Triple)
    where
      checked_Triple :
          (o : Option ℕ)
          → Triple Fine
              (Checked node lawful available at o)
              (after_checks node rest at context o)
              BatchOk
      checked_Triple none =
          bind_Triple Fine {f = λ u. rest (suc at)} (derive_and_commit_Triple at context c) λ u. k
      checked_Triple (some start) = pure_Triple Fine λ log s. s

  apply_batch_Triple :
      (fetched : List FetchedSlot) (next : ℕ)
      → FetchedFrom next fetched
      → Triple Fine (BeforeSlot next) (apply_batch node fetched next) BatchOk
  unfolding apply_batch FetchedFrom
  apply_batch_Triple [] next h = pure_Triple Fine λ log s. s
  apply_batch_Triple (one ∷ rest) next (h, k) =
      bind_Triple Fine
        (keep_read node lawful available next (peek_Reads node.gateway.shut_down_now))
        λ stop.
          relax_Triple Fine (λ log s. s.0)
            (if_Triple Fine {Q = BatchOk} {m = pure cut_short}
              {n = batch_slot node (apply_batch node rest) one} stop
              (λ e. pure_Triple Fine {a = cut_short} λ log s. (next, s))
              λ e.
                batch_slot_Triple next (apply_batch node rest) one h
                  (apply_batch_Triple rest (suc next) k))
            λ a log s. s

  abbrev pub TurnOk : Turn → Log → Type 0
  TurnOk stopped = Fine
  TurnOk (more state) = BeforeSlot state.next_slot

  after_batch_Triple :
      (state : SyncState) (end : BatchEnd)
      → Triple Fine (BatchOk end) (after_batch node state end) TurnOk
  after_batch_Triple state cut_short = pure_Triple Fine λ log s. s
  after_batch_Triple state (all_applied next) = pure_Triple Fine λ log s. s
  after_batch_Triple state (reorg_detected start) =
      bind_Triple Fine
        (keep_read node lawful available start
          (get_beacon_head_header_Reads node.gateway node.config))
        λ head. pure_Triple Fine λ log s. s.0

  pub batch_turn_Triple :
      (state : SyncState) → Triple Fine (BeforeSlot state.next_slot) (batch_turn node state) TurnOk
  unfolding batch_turn
  batch_turn_Triple state =
      bind_Triple Fine
        (keep_read node lawful available state.next_slot (
          fetch_batch_Reads node.gateway node.config asked state.next_slot
            node.config.catchup_batch_size))
        λ fetched.
          given_Triple Fine (FetchedFrom state.next_slot fetched) (λ log s. s.1)
            λ h.
              bind_Triple Fine
                (relax_Triple Fine (λ log s. s.0) (apply_batch_Triple fetched state.next_slot h)
                  (λ a log s. s))
                λ end. after_batch_Triple state end
