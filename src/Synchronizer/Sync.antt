-- ===== src/Synchronizer/Sync.antt =====
-- services/synchronizer/src/sync_loop.rs: the checks for a reorganisation and the rewind. The loops
-- over slots and over the head's events are in the child modules.
pub mod Heads
pub mod Batch
pub mod Turns
pub mod Reads
pub mod Fetches
pub mod Fetched
pub mod Synced
pub mod Deriving
pub mod Handlers
pub mod Batches
pub mod Turning
pub mod Forever
pub mod Divergence
pub mod Restarts
pub mod Triples
use digital_objects_network.Synchronizer.Beacon.{BlockId, slot, BlockHeader}
use digital_objects_network.Synchronizer.Log.{
  Log, map_option, last_processed_slot, slot_root, latest_block_root_before,
}
use digital_objects_network.Synchronizer.Log.Commit.{rollback_to_slot}
use digital_objects_network.Synchronizer.Node.{Node}
use digital_objects_network.Synchronizer.Node.Slots.{ProcessedSlot, commit_slot}
use digital_objects_network.Synchronizer.World.{Run, ask, query, transact}
use digital_objects_network.Prelude.{
  ℕ, zero, suc, List, [], Option, none, some, Bool, true, false, Result, ok, if◌then◌else◌, ◌==◌,
  leb, ◌&&◌, not, is_some,
}
use digital_objects_network.Prelude.Exec.{pure, ◌>>=◌, ◌>>◌}

pub data MissingSlotAction : Type 0 where
  rewound : ℕ → MissingSlotAction
  applied : MissingSlotAction

-- `stored_root.is_some() && stored_root == live_root`
abbrev pub is_common : Option ℕ → Option ℕ → Bool
is_common none live = false
is_common (some stored) none = false
is_common (some stored) (some live) = stored == live

abbrev pub reached : ℕ → Option ℕ → Bool
reached at none = false
reached at (some last) = leb at last

abbrev pub differs : ℕ → Option ℕ → Bool
differs root none = false
differs root (some stored) = not (stored == root)

abbrev pub empty_log : Log
empty_log = record { slots = []; created_index = []; tx_statuses = [] }

-- The rollback to the slot before; before slot 0 the cast of the wrapped number to the column's type
-- is -1, and every row goes.
abbrev pub rollback_before : ℕ → Log → Log
rollback_before zero log = empty_log
rollback_before (suc keep) log = rollback_to_slot keep log

module _ {Arr Set MerkleProof Err Proof E : Type 0}
    (node : Node Arr Set MerkleProof Err Proof E) where
  abbrev pub live_root : ℕ → Run E (Option ℕ)
  live_root at = ask (node.gateway.get_block_header (slot at)) >>= λ header.
      pure (map_option (λ (h : BlockHeader). h.root) header)

  unfoldable pub find_divergence_slot : ℕ → Run E ℕ
  unfolding slot_root
  find_divergence_slot zero = pure node.config.init_start_slot
  find_divergence_slot (suc prev) =
      if leb (suc prev) node.config.init_start_slot
      then pure node.config.init_start_slot
      else (query node.gateway (λ log. ok (slot_root log prev)) >>= λ stored.
          live_root prev >>= λ live.
          if is_common stored live then pure (suc prev) else find_divergence_slot prev)

  unfoldable pub rewind_for_reorg : ℕ → Run E ℕ
  unfolding find_divergence_slot
  rewind_for_reorg current = find_divergence_slot current >>= λ rewind_start.
      transact node.gateway (λ log. ok (rollback_before rewind_start log)) >> pure rewind_start

  unfoldable pub handle_missing_slot : ℕ → Run E MissingSlotAction
  unfolding slot_root rewind_for_reorg commit_slot
  handle_missing_slot at = query node.gateway (λ log. ok (slot_root log at)) >>= λ stored.
      if is_some stored
      then (rewind_for_reorg at >>= λ rewind_slot. pure (rewound rewind_slot))
      else (commit_slot node
            (record { slot = at; block_root = none; derived = none; tx_statuses = [] })
          >> pure applied)

  abbrev pub rewound_to : ℕ → Run E (Option ℕ)
  rewound_to at = rewind_for_reorg at >>= λ rewind_slot. pure (some rewind_slot)

  abbrev pub check_parent : ℕ → BlockHeader → Run E (Option ℕ)
  check_parent at header =
      if at == node.config.init_start_slot
      then pure none
      else (query node.gateway (λ log. latest_block_root_before log at) >>= λ prev_root.
          if header.parent_root == prev_root then pure none else rewound_to at)

  unfoldable pub handle_reorgs_for_present_slot : ℕ → BlockHeader → Run E (Option ℕ)
  unfolding last_processed_slot slot_root
  handle_reorgs_for_present_slot at header =
      query node.gateway (λ log. ok (last_processed_slot log)) >>= λ last.
      query node.gateway (λ log. ok (slot_root log at)) >>= λ stored.
      if reached at last && not (is_some stored)
      then rewound_to at
      else if differs header.root stored
      then rewound_to at
      else check_parent at header
