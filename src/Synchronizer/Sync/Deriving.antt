-- ===== src/Synchronizer/Sync/Deriving.antt =====
-- What the derivation and the commit of a slot leave in the log.
use digital_objects_network.Synchronizer.Containers.Laws.{Lawful, Available}
use digital_objects_network.Synchronizer.Log.{
  Log, don_state_at_head, created_indices, recent_state_roots,
}
use digital_objects_network.Synchronizer.Log.Commit as Commit
use digital_objects_network.Synchronizer.Node.{Node, SlotContext}
use digital_objects_network.Synchronizer.Sync.Fetches.{Any}
use digital_objects_network.Synchronizer.Sync.Reads.{
  Reads, lift_ok, relax_Reads, pure_Reads, ask_Reads,
}
use digital_objects_network.Synchronizer.Sync.Synced.{
  Synced, IsSynced, DerivedFrom, commit_slot-Synced,
}
use digital_objects_network.Synchronizer.Sync.Triples.{
  Triple, bind_Triple, pure_Triple, relax_Triple, query_Triple, read_Triple, transact_Triple,
}
use digital_objects_network.Synchronizer.World.{transact}
use digital_objects_network.Prelude.{
  ℕ, suc, Result, List, sym, ok, Option, ◌≡◌, some, none, ap, err,
}
use digital_objects_network.Synchronizer.Node.Slots.{
  derive_slot, or_panic, or_container_error, ProcessedSlot, derive_from_context, flushed,
  derive_payload, min_block_number,
}
use digital_objects_network.Synchronizer.State.{DonState, ExecutionBlock}
use digital_objects_network.Synchronizer.Containers.{HashMap}
use digital_objects_network.Synchronizer.Derivation.{
  TargetTx, parse_blobs, derive_slot_state, DerivedSlot,
}
use digital_objects_network.Synchronizer.Derivation.Applied.{offered}
use digital_objects_network.Synchronizer.Log.Commit as Commit
use digital_objects_network.Synchronizer.Node.Slots.{commit_slot}
use digital_objects_network.Synchronizer.Blobs.{CanonicalPayload}

or_container_error_ok :
    {Err A : Type 0} (r : Result Err A) (a : A) → or_container_error r ≡ ok a → r ≡ ok a
or_container_error_ok (ok b) a h = let e : b ≡ a = cc in ap (λ a. ok a) e
or_container_error_ok (err e) a h = cc

module _ {Arr Set MerkleProof Err Proof E : Type 0} (node : Node Arr Set MerkleProof Err Proof E)
    (lawful : Lawful node.backend) (available : Available node.backend) where
  abbrev At : ℕ → Log → Type 0
  At = Synced node.backend lawful available node.config.init_start_slot

  abbrev Ok : Log → Type 0
  Ok = IsSynced node.backend lawful available node.config.init_start_slot

  -- What was derived for a slot of the log.
  abbrev pub Ready : ℕ → ProcessedSlot → Log → Type 0
  Ready at processed log =
      At at log
      × (processed.slot ≡ at)
      × DerivedFrom node.backend lawful available node.config.init_start_slot Proof node.hashing log
          processed.derived

  derive_slot_Triple :
      (at : ℕ) (base_state : Option DonState) (recent : HashMap) (block : ExecutionBlock)
      (target_txs : List (TargetTx (List ℕ)))
      → Triple Ok
          (λ log. At at log × (don_state_at_head log ≡ base_state))
          (derive_slot node base_state recent block target_txs)
          (λ derived log.
            At at log
            × DerivedFrom node.backend lawful available node.config.init_start_slot Proof
                node.hashing log
                (some derived.0))
  unfolding derive_slot
  derive_slot_Triple at base_state recent block target_txs =
      bind_Triple Ok
        (read_Triple (λ log s. (at, s.0)) (lift_ok (or_panic (parse_blobs node.parse target_txs))))
        λ txs.
          bind_Triple Ok
            (query_Triple Ok node.gateway {f = λ log. ok (created_indices log (offered txs))}
              (λ log s. (at, s.0.0)))
            λ prior.
              bind_Triple Ok
                (read_Triple (λ log s. (at, s.0.0.0))
                  (lift_ok (
                    or_container_error (
                      derive_slot_state node.backend node.hashing base_state recent block txs
                        prior))))
                λ derived. pure_Triple Ok λ log ((((s, head), parsed), read), d).
                  let read₁ : created_indices log (offered txs) ≡ prior = cc in
                  let d₁ =
                    or_container_error_ok
                      (derive_slot_state node.backend node.hashing base_state recent block txs
                        prior)
                      derived d in
                  (s, (recent, block, txs, derived.1, rw (head, read₁) d₁))

  derive_payload_Triple :
      (at : ℕ) (ctx : SlotContext) (payload : Option CanonicalPayload)
      → ctx.slot ≡ at
      → Triple Ok (At at) (derive_payload node ctx payload) (Ready at)
  derive_payload_Triple at ctx none e = pure_Triple Ok λ log s. (s, e, tt)
  derive_payload_Triple at ctx (some payload) e =
      bind_Triple Ok
        (query_Triple Ok node.gateway {f = λ log. ok (don_state_at_head log)} (λ log s. (at, s)))
        λ base_state.
          bind_Triple Ok
            (query_Triple Ok node.gateway
              {f = λ log. ok (recent_state_roots log (min_block_number base_state))}
              (λ log s. (at, s.0)))
            λ recent.
              bind_Triple Ok
                (relax_Triple Ok
                  (λ log ((s, head), r).
                    let head₁ : don_state_at_head log ≡ base_state = cc in (s, head₁))
                  (derive_slot_Triple at base_state recent payload.execution_block ctx.target_txs)
                  (λ derived log s. s))
                λ derived. pure_Triple Ok λ log (s, d). (s, e, d)

  pub derive_from_context_Triple :
      (at : ℕ) (ctx : SlotContext)
      → ctx.slot ≡ at
      → Triple Ok (At at) (derive_from_context node ctx) (Ready at)
  unfolding derive_from_context
  derive_from_context_Triple at ctx e = derive_payload_Triple at ctx ctx.payload e

  flushed_Reads : (derived : Option DerivedSlot) → Reads (flushed node derived) Any
  flushed_Reads none = pure_Reads tt
  flushed_Reads (some derived) = relax_Reads (ask_Reads node.gateway.sync_containers) (λ u g. tt)

  pub commit_slot_Triple :
      (at : ℕ) (processed : ProcessedSlot)
      → Triple Ok (Ready at processed) (commit_slot node processed) (λ u. At (suc at))
  unfolding commit_slot
  commit_slot_Triple at processed =
      bind_Triple Ok
        {f = λ u. transact node.gateway (
          Commit.commit_slot node.show processed.slot processed.block_root processed.derived
            processed.tx_statuses)}
        (read_Triple (λ log s. (at, s.0)) (flushed_Reads processed.derived))
        λ u.
          transact_Triple Ok node.gateway
            {f = Commit.commit_slot node.show processed.slot processed.block_root processed.derived
              processed.tx_statuses}
            (λ log s. (at, s.0.0)) (λ log s. (suc at, s))
            λ log after ((s, e, d), g) c.
              commit_slot-Synced node.backend lawful available node.config.init_start_slot Proof
                node.hashing node.show at processed.block_root processed.derived
                processed.tx_statuses log after s d (rw (sym e) c)
