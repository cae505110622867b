-- ===== src/Synchronizer/Sync/Handlers.antt =====
-- What the handlers of a slot leave in the log.
use digital_objects_network.Synchronizer.Beacon.{slot, BlockHeader}
use digital_objects_network.Synchronizer.Containers.Laws.{Lawful, Available}
use digital_objects_network.Synchronizer.Log.{
  Log, LogError, slot_root, last_processed_slot, latest_block_root_before,
}
use digital_objects_network.Synchronizer.Node.{Node}
use digital_objects_network.Synchronizer.Sync.{
  find_divergence_slot, is_common, rewind_for_reorg, rollback_before,
  handle_reorgs_for_present_slot, rewound_to, check_parent, reached, differs, MissingSlotAction,
  handle_missing_slot, applied, rewound,
}
use digital_objects_network.Synchronizer.Sync.Fetches.{Any}
use digital_objects_network.Synchronizer.Sync.Reads.{Reads, bind_Reads, pure_Reads, ask_Reads}
use digital_objects_network.Synchronizer.Sync.Synced.{
  Synced, IsSynced, Contiguous-le, rollback_before-Synced,
}
use digital_objects_network.Synchronizer.Sync.Triples.{
  Triple, bind_Triple, pure_Triple, given_Triple, if_Triple, relax_Triple, query_Triple,
  read_Triple, transact_Triple,
}
use digital_objects_network.Synchronizer.World.{Run, query}
use digital_objects_network.Prelude.Exec.{pure}
use digital_objects_network.Prelude.{
  ℕ, zero, suc, Result, ◌≤◌, [], leb, arith, ok, Option, ◌≡◌, some, none, ◌==◌, ◌&&◌, not, is_some,
  refl,
}
use digital_objects_network.Synchronizer.Node.Slots.{ProcessedSlot}
use digital_objects_network.Synchronizer.Sync.Deriving.{commit_slot_Triple}

module _ {Arr Set MerkleProof Err Proof E : Type 0} (node : Node Arr Set MerkleProof Err Proof E)
    (lawful : Lawful node.backend) (available : Available node.backend) where
  abbrev pub At : ℕ → Log → Type 0
  At = Synced node.backend lawful available node.config.init_start_slot

  abbrev pub Ok : Log → Type 0
  Ok = IsSynced node.backend lawful available node.config.init_start_slot

  pub keep_query :
      {A : Type 0} (f : Log → Result LogError A) (next : ℕ)
      → Triple Ok (At next) (query node.gateway f) (λ a. At next)
  keep_query f next =
      relax_Triple Ok (λ log s. s) (query_Triple Ok node.gateway (λ log s. (next, s)))
        (λ a log s. s.0)

  pub keep_read :
      {A : Type 0} {G : A → Type 0} {m : Run E A} (next : ℕ)
      → Reads m G
      → Triple Ok (At next) m (λ a log. At next log × G a)
  keep_read next h = read_Triple (λ log s. (next, s)) h

  At-le : (next : ℕ) (log : Log) → At next log → node.config.init_start_slot ≤ next
  unfolding Synced
  At-le next log (k, xs, h) = Contiguous-le node.config.init_start_slot next log.slots k

  -- After the checks of a slot: the log is ready for it, or for the slot to rewind to.
  abbrev pub Checked : ℕ → Option ℕ → Log → Type 0
  Checked at none = At at
  Checked at (some start) = At start

  find_divergence_slot_Triple :
      (next current : ℕ)
      → node.config.init_start_slot ≤ current
      → Triple Ok
          (At next)
          (find_divergence_slot node current)
          (λ start log. At next log × (node.config.init_start_slot ≤ start) × (start ≤ current))
  unfolding find_divergence_slot
  find_divergence_slot_Triple next zero l = pure_Triple Ok λ log s. (s, omega arith, l)
  find_divergence_slot_Triple next (suc prev) l =
      if_Triple Ok (leb (suc prev) node.config.init_start_slot)
        (λ e. pure_Triple Ok λ log s. (s, omega arith, l))
        λ e. bind_Triple Ok (keep_query (λ log. ok (slot_root log prev)) next) λ stored.
          bind_Triple Ok
            (keep_read next (
              bind_Reads (ask_Reads (node.gateway.get_block_header (slot prev)))
                λ header g. pure_Reads {G = Any} tt))
            λ live.
              if_Triple Ok (is_common stored live)
                (λ e₁. pure_Triple Ok λ log s. (s.0, l, omega arith))
                λ e₁.
                  let l₁ : node.config.init_start_slot ≤ prev = ground arith in
                  relax_Triple Ok (λ log s. s.0) (find_divergence_slot_Triple next prev l₁)
                    λ start log (s₁, low, high). (s₁, low, omega arith)

  pub rewind_for_reorg_Triple :
      (at : ℕ) → Triple Ok (At at) (rewind_for_reorg node at) (λ start. At start)
  unfolding rewind_for_reorg
  rewind_for_reorg_Triple at =
      given_Triple Ok (node.config.init_start_slot ≤ at) (λ log s. At-le at log s)
        λ low. bind_Triple Ok (find_divergence_slot_Triple at at low) λ start.
          bind_Triple Ok {f = λ u. pure start}
            (transact_Triple Ok node.gateway {f = λ log. ok (rollback_before start log)}
              (λ log s. (at, s.0)) (λ log s. (start, s))
              λ log after (s, low, high) e.
                let e₁ : after ≡ rollback_before start log = cc in
                rw e₁ (
                  rollback_before-Synced node.backend lawful available node.config.init_start_slot
                    at start log low high s))
            λ u. pure_Triple Ok λ log s. s

  rewound_to_Triple :
      (at : ℕ) → Triple Ok (At at) (rewound_to node at) (λ (o : Option ℕ). Checked at o)
  rewound_to_Triple at =
      bind_Triple Ok (rewind_for_reorg_Triple at) λ start. pure_Triple Ok λ log s. s

  check_parent_Triple :
      (at : ℕ) (header : BlockHeader)
      → Triple Ok (At at) (check_parent node at header) (λ (o : Option ℕ). Checked at o)
  check_parent_Triple at header =
      if_Triple Ok (at == node.config.init_start_slot) (λ e. pure_Triple Ok λ log s. s)
        λ e. bind_Triple Ok (keep_query (λ log. latest_block_root_before log at) at) λ prev_root.
          if_Triple Ok (header.parent_root == prev_root) (λ e₁. pure_Triple Ok λ log s. s)
            λ e₁. rewound_to_Triple at

  pub handle_reorgs_for_present_slot_Triple :
      (at : ℕ) (header : BlockHeader)
      → Triple Ok (At at) (handle_reorgs_for_present_slot node at header) (λ o. Checked at o)
  unfolding handle_reorgs_for_present_slot
  handle_reorgs_for_present_slot_Triple at header =
      bind_Triple Ok (keep_query (λ log. ok (last_processed_slot log)) at) λ last.
        bind_Triple Ok (keep_query (λ log. ok (slot_root log at)) at) λ stored.
          if_Triple Ok (reached at last && not (is_some stored)) (λ e. rewound_to_Triple at)
            λ e.
              if_Triple Ok (differs header.root stored) (λ e₁. rewound_to_Triple at)
                λ e₁. check_parent_Triple at header

  -- A missing slot that was committed, or the slot to rewind to.
  abbrev pub AfterMissing : ℕ → MissingSlotAction → Log → Type 0
  AfterMissing at applied = At (suc at)
  AfterMissing at (rewound start) = At start

  pub handle_missing_slot_Triple :
      (at : ℕ) → Triple Ok (At at) (handle_missing_slot node at) (AfterMissing at)
  unfolding handle_missing_slot
  handle_missing_slot_Triple at =
      let empty : ProcessedSlot = record {
        slot = at;
        block_root = none;
        derived = none;
        tx_statuses = [];
      } in
      bind_Triple Ok (keep_query (λ log. ok (slot_root log at)) at) λ stored.
        if_Triple Ok (is_some stored)
          (λ e. bind_Triple Ok (rewind_for_reorg_Triple at) λ start. pure_Triple Ok λ log s. s)
          λ e.
            bind_Triple Ok {f = λ u. pure applied}
              (relax_Triple Ok (λ log s. (s, refl, tt))
                (commit_slot_Triple node lawful available at empty) (λ u log s. s))
              λ u. pure_Triple Ok λ log s. s
