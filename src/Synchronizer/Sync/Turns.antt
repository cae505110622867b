-- ===== src/Synchronizer/Sync/Turns.antt =====
-- services/synchronizer/src/sync_loop.rs: `initialize_sync`, the turns of `run_sync_loop` and
-- `run_sync_forever`. A loop is run for a number of turns; sleeping is left out.
use digital_objects_network.Synchronizer.Beacon.{BlockHeader, BlockAndRoot}
use digital_objects_network.Synchronizer.Log.{last_processed_slot}
use digital_objects_network.Synchronizer.Node.{
  Node, SlotContext, get_beacon_head_header, get_beacon_block, fetch_slot_context,
  validate_genesis_slot,
}
use digital_objects_network.Synchronizer.Node.Slots.{derive_from_context, commit_slot}
use digital_objects_network.Synchronizer.Sync.{
  MissingSlotAction, rewound, applied, handle_missing_slot, handle_reorgs_for_present_slot,
}
use digital_objects_network.Synchronizer.Sync.Heads.{
  HeadTracker, SlotHeaderState, shutdown, missing, present, waiting, next_slot_header,
}
use digital_objects_network.Synchronizer.Sync.Batch as Batch
use digital_objects_network.Synchronizer.Sync.Batch.{FetchedSlot, fetch_batch, slots_from}
use digital_objects_network.Synchronizer.World.{Failure, Run, ask, peek, query, is_node_error}
use digital_objects_network.Prelude.{
  ℕ, zero, suc, List, [], ◌∷◌, Option, none, some, false, Result, ok, err, if◌then◌else◌, leb, ◌-◌,
  ◌+◌,
}
use digital_objects_network.Prelude.Exec.{fail, pure, ◌>>=◌, ◌>>◌}

pub record SyncStart : Type 0 where
  pub next_slot : ℕ
  pub head : BlockHeader

-- The variables of `run_sync_loop`.
pub record SyncState : Type 0 where
  pub next_slot : ℕ
  pub head_tracker : HeadTracker
  pub prev_block : Option BlockAndRoot

-- A turn ends the loop, or leaves its variables.
pub data Turn : Type 0 where
  stopped : Turn
  more : SyncState → Turn

-- How the loop over the slots of a batch ends.
pub data BatchEnd : Type 0 where
  cut_short : BatchEnd
  reorg_detected : ℕ → BatchEnd
  all_applied : ℕ → BatchEnd

module _ {Arr Set MerkleProof Err Proof E : Type 0}
    (node : Node Arr Set MerkleProof Err Proof E) where
  abbrev pub derive_and_commit : SlotContext → Run E (Unit {0})
  derive_and_commit context = derive_from_context node context >>= commit_slot node

  abbrev pub after_missing : (ℕ → Run E BatchEnd) → ℕ → MissingSlotAction → Run E BatchEnd
  after_missing rest at (rewound rewind_slot) = pure (reorg_detected rewind_slot)
  after_missing rest at applied = rest (suc at)

  abbrev pub after_checks : (ℕ → Run E BatchEnd) → ℕ → SlotContext → Option ℕ → Run E BatchEnd
  after_checks rest at context (some rewind_slot) = pure (reorg_detected rewind_slot)
  after_checks rest at context none = derive_and_commit context >> rest (suc at)

  abbrev pub batch_slot : (ℕ → Run E BatchEnd) → FetchedSlot → Run E BatchEnd
  batch_slot rest (Batch.missing at) = handle_missing_slot node at >>= after_missing rest at
  batch_slot rest (Batch.present at header context) =
      handle_reorgs_for_present_slot node at header >>= after_checks rest at context

  -- The loop over a batch; `next_slot` is the slot after the last that was applied.
  unfoldable pub apply_batch : List FetchedSlot → ℕ → Run E BatchEnd
  apply_batch [] next_slot = pure (all_applied next_slot)
  apply_batch (one ∷ rest) next_slot = peek node.gateway.shut_down_now >>= λ stop.
      if stop then pure cut_short else batch_slot (apply_batch rest) one

  abbrev pub after_batch : SyncState → BatchEnd → Run E Turn
  after_batch state cut_short = pure stopped
  after_batch state (all_applied next_slot) = pure (more (record state { next_slot = next_slot }))
  after_batch state (reorg_detected rewind_slot) =
      get_beacon_head_header node.gateway node.config >>= λ head. pure (
        more (record state {
          next_slot = rewind_slot;
          head_tracker = record state.head_tracker { head = head };
        }))

  unfoldable pub batch_turn : SyncState → Run E Turn
  unfolding fetch_batch slots_from apply_batch
  batch_turn state =
      fetch_batch node.gateway node.config
        (slots_from state.next_slot node.config.catchup_batch_size)
      >>= λ fetched. apply_batch fetched state.next_slot >>= after_batch state

  abbrev pub missing_turn : SyncState → MissingSlotAction → Run E Turn
  missing_turn state (rewound rewind_slot) = pure (more (record state { next_slot = rewind_slot }))
  missing_turn state applied = pure (more (record state { next_slot = suc state.next_slot }))

  abbrev pub checked_turn : SyncState → BlockHeader → Option ℕ → Run E Turn
  checked_turn state header (some rewind_slot) =
      pure (more (record state { next_slot = rewind_slot }))
  checked_turn state header none = do
    block ← get_beacon_block node.gateway node.config header.root
    context ← fetch_slot_context node.gateway node.config header block state.prev_block
    derive_and_commit context
    stop ← peek node.gateway.shut_down_now
    pure (
        if stop
        then stopped
        else more (record state {
          next_slot = suc state.next_slot;
          prev_block = some (record { root = header.root; block = block });
        }))

  abbrev pub header_turn : SyncState → SlotHeaderState → Run E Turn
  header_turn state shutdown = pure stopped
  header_turn state waiting = pure stopped
  header_turn state missing = handle_missing_slot node state.next_slot >>= missing_turn state
  header_turn state (present header) =
      handle_reorgs_for_present_slot node state.next_slot header >>= checked_turn state header

  unfoldable pub slot_turn : ℕ → SyncState → Run E Turn
  unfolding next_slot_header
  slot_turn wakeups state =
      next_slot_header node.gateway node.config wakeups state.next_slot state.head_tracker
      >>= λ (tracker, found). header_turn (record state { head_tracker = tracker }) found

  unfoldable pub sync_turn : ℕ → SyncState → Run E Turn
  unfolding batch_turn slot_turn
  sync_turn wakeups state = peek node.gateway.shut_down_now >>= λ stop.
      if stop
      then pure stopped
      else if leb node.config.catchup_batch_size (state.head_tracker.head.slot - state.next_slot)
      then batch_turn state
      else slot_turn wakeups state

  abbrev pub go_on : (SyncState → Run E (Unit {0})) → Turn → Run E (Unit {0})
  go_on again stopped = pure tt
  go_on again (more state) = again state

  unfoldable pub sync_turns : ℕ → ℕ → SyncState → Run E (Unit {0})
  unfolding sync_turn
  sync_turns wakeups zero state = pure tt
  sync_turns wakeups (suc turns) state =
      sync_turn wakeups state >>= go_on (sync_turns wakeups turns)

  unfoldable pub run_sync_loop : ℕ → ℕ → SyncStart → Run E (Unit {0})
  unfolding sync_turns
  run_sync_loop wakeups turns start = sync_turns wakeups turns (record {
    next_slot = start.next_slot;
    head_tracker = record { head = start.head; events = false };
    prev_block = none;
  })

  abbrev pub start_slot : Option ℕ → Run E ℕ
  start_slot (some last_processed_slot) = pure (last_processed_slot + 1)
  start_slot none =
      validate_genesis_slot node.gateway node.config node.config.init_start_slot
      >> pure node.config.init_start_slot

  unfoldable pub initialize_sync : Run E SyncStart
  unfolding get_beacon_head_header last_processed_slot
  initialize_sync =
      ask node.gateway.get_spec
      >> (get_beacon_head_header node.gateway node.config >>= λ head.
          query node.gateway (λ log. ok (last_processed_slot log)) >>= λ last.
          start_slot last >>= λ next_slot. pure (record { next_slot = next_slot; head = head }))

  abbrev pub restart : Run E (Unit {0}) → Run E (Unit {0})
  restart again = peek node.gateway.shut_down_now >>= λ stop. if stop then pure tt else again

  -- What a failure leads to: another start after a node error, unless the wait is shut down.
  abbrev pub after_failure : Run E (Unit {0}) → Result Failure (Unit {0}) → Run E (Unit {0})
  after_failure again (ok u) = pure u
  after_failure again (err e) = if is_node_error e then restart again else fail e

  -- `turns` bounds the turns of each start, the number of starts is the last argument.
  unfoldable pub run_sync_forever : ℕ → ℕ → ℕ → Run E (Unit {0})
  unfolding initialize_sync run_sync_loop
  run_sync_forever wakeups turns zero w = (ok tt, w)
  run_sync_forever wakeups turns (suc starts) w =
      let done = (initialize_sync >>= run_sync_loop wakeups turns) w in
      after_failure (run_sync_forever wakeups turns starts) done.0 done.1
