-- ===== src/Synchronizer/Sync/Forever.antt =====
-- The loops of the synchronizer keep the log synced, however they end.
use digital_objects_network.Synchronizer.Containers.Laws.{Lawful, Available}
use digital_objects_network.Synchronizer.Log.{Log, last_processed_slot}
use digital_objects_network.Synchronizer.Node.{Node, get_beacon_head_header}
use digital_objects_network.Synchronizer.Sync.Turns.{
  initialize_sync, run_sync_loop, SyncStart, start_slot, run_sync_forever, restart, after_failure,
}
use digital_objects_network.Synchronizer.Sync.Fetches.{
  AnswersAsked, get_beacon_head_header_Reads, validate_genesis_slot_Reads,
}
use digital_objects_network.Synchronizer.Sync.Reads.{
  peek_Reads, Reads, pure_Reads, bind_Reads, ask_Reads,
}
use digital_objects_network.Synchronizer.Sync.Handlers.{At, Ok, keep_read}
use digital_objects_network.Synchronizer.Sync.Triples.{
  Triple, bind_Triple, pure_Triple, if_Triple, relax_Triple, query_Triple, read_Triple, Ends,
}
use digital_objects_network.Synchronizer.World.{query, Run, World, Failure, is_node_error}
use digital_objects_network.Prelude.{
  ℕ, suc, Option, none, some, ◌≡◌, Bool, if◌then◌else◌, zero, true, ◌∙◌, false, ok, refl, ap, sym,
  Result, err,
}
use digital_objects_network.Synchronizer.Sync.Synced.{
  Synced, next_after, last_processed_slot-Contiguous, IsSynced,
}
use digital_objects_network.Prelude.Exec.{pure, fail, ◌>>=◌}
use digital_objects_network.Synchronizer.Sync.Turning.{sync_turns_Triple}

module _ {Arr Set MerkleProof Err Proof E : Type 0} (node : Node Arr Set MerkleProof Err Proof E)
    (lawful : Lawful node.backend) (available : Available node.backend)
    (asked : AnswersAsked node.gateway) where
  -- The log is ready for the slot `at`.
  abbrev BeforeSlot : ℕ → Log → Type 0
  BeforeSlot = At node lawful available

  abbrev Fine : Log → Type 0
  Fine = Ok node lawful available

  run_sync_loop_Triple :
      (wakeups turns : ℕ) (start : SyncStart)
      → Triple Fine
          (BeforeSlot start.next_slot)
          (run_sync_loop node wakeups turns start)
          (λ u. Fine)
  unfolding run_sync_loop
  run_sync_loop_Triple wakeups turns start =
      sync_turns_Triple node lawful available asked wakeups turns (record {
        next_slot = start.next_slot;
        head_tracker = record { head = start.head; events = false };
        prev_block = none;
      })

  start_slot_Reads :
      (last : Option ℕ)
      → Reads (start_slot node last) (λ next. next ≡ next_after node.config.init_start_slot last)
  start_slot_Reads (some last) = pure_Reads refl
  start_slot_Reads none =
      bind_Reads {f = λ u. pure node.config.init_start_slot}
        (validate_genesis_slot_Reads node.gateway node.config node.config.init_start_slot)
        λ u g. pure_Reads refl

  synced_next :
      (next : ℕ) (log : Log)
      → BeforeSlot next log
      → next ≡ next_after node.config.init_start_slot (last_processed_slot log)
  unfolding Synced
  synced_next next log (k, xs, h) =
      last_processed_slot-Contiguous node.config.init_start_slot next log k

  initialize_sync_Triple :
      (next : ℕ)
      → Triple Fine
          (BeforeSlot next)
          (initialize_sync node)
          (λ (start : SyncStart). BeforeSlot start.next_slot)
  unfolding initialize_sync
  initialize_sync_Triple next =
      bind_Triple Fine
        {f = λ u. get_beacon_head_header node.gateway node.config >>= λ head.
          query node.gateway (λ log. ok (last_processed_slot log)) >>= λ last.
          start_slot node last >>= λ next_slot.
          pure (record { next_slot = next_slot; head = head })}
        (keep_read node lawful available next (ask_Reads node.gateway.get_spec))
        λ u.
          bind_Triple Fine
            (relax_Triple Fine (λ log s. s.0)
              (keep_read node lawful available next
                (get_beacon_head_header_Reads node.gateway node.config))
              (λ a log s. s))
            λ head.
              bind_Triple Fine
                (query_Triple Fine node.gateway {f = λ log. ok (last_processed_slot log)}
                  (λ log s. (next, s.0)))
                λ last.
                  bind_Triple Fine (read_Triple (λ log s. (next, s.0.0)) (start_slot_Reads last))
                    λ next_slot. pure_Triple Fine λ log (((s, g), e), e₁).
                      let e₂ : last_processed_slot log ≡ last = cc in
                      let e₃ : next_slot ≡ next =
                        e₁
                        ∙ ap (next_after node.config.init_start_slot) (sym e₂)
                        ∙ sym (synced_next next log s) in
                      rw e₃ s

  -- The invariant holds when the log is ready for some slot.
  started_Triple :
      (wakeups turns : ℕ)
      → Triple Fine Fine (initialize_sync node >>= run_sync_loop node wakeups turns) (λ u. Fine)
  started_Triple wakeups turns = record {
    ends = λ w (next, s).
        (bind_Triple Fine (initialize_sync_Triple next) (run_sync_loop_Triple wakeups turns)).ends w
          s;
  }

  restart_Triple :
      (again : Run E (Unit {0}))
      → Triple Fine Fine again (λ u. Fine)
      → Triple Fine Fine (restart node again) (λ u. Fine)
  restart_Triple again k =
      bind_Triple Fine (read_Triple (λ log s. s) (peek_Reads node.gateway.shut_down_now)) λ stop.
        relax_Triple Fine (λ log s. s.0)
          (if_Triple Fine {Q = λ u. Fine} {m = pure tt} {n = again} stop
            (λ e. pure_Triple Fine λ log s. s) (λ e. k))
          (λ a log s. s)

  if_failed :
      (again : Run E (Unit {0}))
      → Triple Fine Fine again (λ u. Fine)
      → (b : Bool) (e : Failure)
      → Triple Fine Fine (if b then restart node again else fail e) (λ u. Fine)
  unfolding Ends
  if_failed again k true e = restart_Triple again k
  if_failed again k false e = record { ends = λ w s. s }

  after_failure-Ends :
      (again : Run E (Unit {0}))
      → Triple Fine Fine again (λ u. Fine)
      → (r : Result Failure (Unit {0})) (w : World E) → Ends Fine (λ u. Fine) r w.log
      → Ends Fine (λ u. Fine) (after_failure node again r w).0 (after_failure node again r w).1.log
  unfolding Ends
  after_failure-Ends again k (ok u) w h = h
  after_failure-Ends again k (err e) w h = (if_failed again k (is_node_error e) e).ends w h

  run_sync_forever_Triple :
      (wakeups turns starts : ℕ)
      → Triple Fine Fine (run_sync_forever node wakeups turns starts) (λ u. Fine)
  unfolding run_sync_forever Ends
  run_sync_forever_Triple wakeups turns zero = record { ends = λ w s. s }
  run_sync_forever_Triple wakeups turns (suc starts) = record {
    ends = λ w s.
        let done = (initialize_sync node >>= run_sync_loop node wakeups turns) w in
        after_failure-Ends (run_sync_forever node wakeups turns starts)
          (run_sync_forever_Triple wakeups turns starts) done.0 done.1
          ((started_Triple wakeups turns).ends w s);
  }

  Ends-Fine : (r : Result Failure (Unit {0})) (log : Log) → Ends Fine (λ u. Fine) r log → Fine log
  unfolding Ends
  Ends-Fine (ok u) log h = h
  Ends-Fine (err e) log h = h

  -- However the synchronizer ends, by a shutdown, a failure of a client or of the database, or a
  -- panic, and after any number of turns and restarts, its log has one row for each slot from
  -- INIT_START_SLOT to the last, each state's created array holds the objects of the states before
  -- it and new ones after them, without repetitions, and the created index has the position of each,
  -- when that held of the log at the start, as it does of an empty one. The containers are lawful,
  -- their store is available, and the beacon node answers a query for a slot with that slot's
  -- header.
  pub run_sync_forever-IsSynced :
      (wakeups turns starts : ℕ) (w : World E)
      → IsSynced node.backend lawful available node.config.init_start_slot w.log
      → IsSynced node.backend lawful available node.config.init_start_slot
          (run_sync_forever node wakeups turns starts w).1.log
  run_sync_forever-IsSynced wakeups turns starts w s =
      Ends-Fine (run_sync_forever node wakeups turns starts w).0
        (run_sync_forever node wakeups turns starts w).1.log
        ((run_sync_forever_Triple wakeups turns starts).ends w s)
