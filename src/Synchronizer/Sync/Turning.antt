-- ===== src/Synchronizer/Sync/Turning.antt =====
-- What a turn of the sync loop leaves in the log, and any number of them.
use digital_objects_network.Synchronizer.Containers.Laws.{Lawful, Available}
use digital_objects_network.Synchronizer.Log.{Log}
use digital_objects_network.Synchronizer.Node.{Node}
use digital_objects_network.Synchronizer.Sync.{MissingSlotAction, rewound, applied}
use digital_objects_network.Synchronizer.Beacon.{BlockHeader}
use digital_objects_network.Synchronizer.Sync.Turns.{
  SyncState, Turn, stopped, more, batch_turn, missing_turn, sync_turns, sync_turn, go_on, slot_turn,
  checked_turn, header_turn,
}
use digital_objects_network.Synchronizer.Sync.Fetches.{
  AnswersAsked, get_beacon_block_Reads, fetch_slot_context_Reads,
}
use digital_objects_network.Synchronizer.Sync.Fetched.{FoundOf, next_slot_header_Reads}
use digital_objects_network.Synchronizer.Sync.Reads.{peek_Reads}
use digital_objects_network.Synchronizer.Sync.Handlers.{
  At, Ok, keep_read, Checked, AfterMissing, handle_missing_slot_Triple,
  handle_reorgs_for_present_slot_Triple,
}
use digital_objects_network.Synchronizer.Sync.Triples.{
  Triple, bind_Triple, pure_Triple, if_Triple, given_Triple, relax_Triple,
}
use digital_objects_network.Synchronizer.World.{Run}
use digital_objects_network.Prelude.{
  ℕ, suc, Option, none, some, ◌≡◌, Bool, if◌then◌else◌, zero, leb, true, ◌-◌, ◌∙◌, false,
}
use digital_objects_network.Synchronizer.Sync.Batches as Batches
use digital_objects_network.Prelude.Exec.{pure}
use digital_objects_network.Synchronizer.Sync.Heads.{
  SlotHeaderState, shutdown, missing, present, waiting,
}

module _ {Arr Set MerkleProof Err Proof E : Type 0} (node : Node Arr Set MerkleProof Err Proof E)
    (lawful : Lawful node.backend) (available : Available node.backend)
    (asked : AnswersAsked node.gateway) where
  -- The log is ready for the slot `at`.
  abbrev BeforeSlot : ℕ → Log → Type 0
  BeforeSlot = At node lawful available

  abbrev Fine : Log → Type 0
  Fine = Ok node lawful available

  abbrev TurnOk : Turn → Log → Type 0
  TurnOk = Batches.TurnOk node lawful available asked

  missing_turn_Triple :
      (state : SyncState) (action : MissingSlotAction)
      → Triple Fine
          (AfterMissing node lawful available state.next_slot action)
          (missing_turn node state action)
          TurnOk
  missing_turn_Triple state applied = pure_Triple Fine λ log s. s
  missing_turn_Triple state (rewound start) = pure_Triple Fine λ log s. s

  turn_end :
      (stop : Bool) (state : SyncState) (log : Log)
      → BeforeSlot state.next_slot log
      → TurnOk (if stop then stopped else more state) log
  turn_end true state log s = (state.next_slot, s)
  turn_end false state log s = s

  checked_turn_Triple :
      (state : SyncState) (header : BlockHeader) (o : Option ℕ)
      → header.slot ≡ state.next_slot
      → Triple Fine
          (Checked node lawful available state.next_slot o)
          (checked_turn node state header o)
          TurnOk
  checked_turn_Triple state header (some start) e = pure_Triple Fine λ log s. s
  checked_turn_Triple state header none e =
      bind_Triple Fine
        (keep_read node lawful available state.next_slot
          (get_beacon_block_Reads node.gateway node.config header.root))
        λ block.
          bind_Triple Fine
            (relax_Triple Fine (λ log s. s.0)
              (keep_read node lawful available state.next_slot
                (fetch_slot_context_Reads node.gateway node.config header block state.prev_block))
              (λ a log s. s))
            λ context.
              given_Triple Fine (context.slot ≡ header.slot) (λ log s. s.1)
                λ c.
                  bind_Triple Fine
                    (relax_Triple Fine (λ log s. s.0)
                      (Batches.derive_and_commit_Triple node lawful available asked state.next_slot
                        context (c ∙ e))
                      (λ a log s. s))
                    λ u.
                      bind_Triple Fine
                        (keep_read node lawful available (suc state.next_slot)
                          (peek_Reads node.gateway.shut_down_now))
                        λ stop. pure_Triple Fine λ log s.
                          let next : SyncState = record state {
                            next_slot = suc state.next_slot;
                            prev_block = some (record { root = header.root; block = block });
                          } in
                          turn_end stop next log s.0

  header_turn_Triple :
      (state : SyncState) (found : SlotHeaderState)
      → FoundOf state.next_slot found
      → Triple Fine (BeforeSlot state.next_slot) (header_turn node state found) TurnOk
  header_turn_Triple state shutdown h = pure_Triple Fine λ log s. (state.next_slot, s)
  header_turn_Triple state waiting h = pure_Triple Fine λ log s. (state.next_slot, s)
  header_turn_Triple state missing h =
      bind_Triple Fine (handle_missing_slot_Triple node lawful available state.next_slot)
        (missing_turn_Triple state)
  header_turn_Triple state (present header) h =
      bind_Triple Fine
        (handle_reorgs_for_present_slot_Triple node lawful available state.next_slot header)
        λ o. checked_turn_Triple state header o h

  slot_turn_Triple :
      (wakeups : ℕ) (state : SyncState)
      → Triple Fine (BeforeSlot state.next_slot) (slot_turn node wakeups state) TurnOk
  unfolding slot_turn
  slot_turn_Triple wakeups state =
      bind_Triple Fine
        (keep_read node lawful available state.next_slot (
          next_slot_header_Reads node.gateway node.config asked wakeups state.next_slot
            state.head_tracker))
        λ (tracker, found).
          given_Triple Fine (FoundOf state.next_slot found) (λ log s. s.1)
            λ h.
              relax_Triple Fine (λ log s. s.0)
                (header_turn_Triple (record state { head_tracker = tracker }) found h)
                (λ a log s. s)

  sync_turn_Triple :
      (wakeups : ℕ) (state : SyncState)
      → Triple Fine (BeforeSlot state.next_slot) (sync_turn node wakeups state) TurnOk
  unfolding sync_turn
  sync_turn_Triple wakeups state =
      bind_Triple Fine
        (keep_read node lawful available state.next_slot (peek_Reads node.gateway.shut_down_now))
        λ stop.
          relax_Triple Fine (λ log s. s.0)
            (if_Triple Fine {Q = TurnOk} {m = pure stopped} stop
              (λ e. pure_Triple Fine {a = stopped} λ log s. (state.next_slot, s))
              λ e.
                if_Triple Fine {Q = TurnOk} {m = batch_turn node state}
                  {n = slot_turn node wakeups state}
                  (leb node.config.catchup_batch_size
                    (state.head_tracker.head.slot - state.next_slot))
                  (λ e₁. Batches.batch_turn_Triple node lawful available asked state)
                  λ e₁. slot_turn_Triple wakeups state)
            (λ a log s. s)

  go_on_Triple :
      (again : SyncState → Run E (Unit {0})) (turn : Turn)
      → ((state : SyncState) → Triple Fine (BeforeSlot state.next_slot) (again state) (λ u. Fine))
      → Triple Fine (TurnOk turn) (go_on node again turn) (λ u. Fine)
  go_on_Triple again stopped k = pure_Triple Fine λ log s. s
  go_on_Triple again (more state) k = k state

  pub sync_turns_Triple :
      (wakeups turns : ℕ) (state : SyncState)
      → Triple Fine (BeforeSlot state.next_slot) (sync_turns node wakeups turns state) (λ u. Fine)
  unfolding sync_turns
  sync_turns_Triple wakeups zero state = pure_Triple Fine λ log s. (state.next_slot, s)
  sync_turns_Triple wakeups (suc turns) state =
      bind_Triple Fine (sync_turn_Triple wakeups state)
        λ turn. go_on_Triple (sync_turns node wakeups turns) turn (sync_turns_Triple wakeups turns)
