-- ===== src/Synchronizer/Node/Parents.antt =====
-- The parent block that a caller already holds spares a fetch and nothing else.
use digital_objects_network.Synchronizer.Beacon.{
  BlockHeader, Block, BlockAndRoot, ExecutionPayloadRef, embedded, bid, fetch_once_available,
}
use digital_objects_network.Synchronizer.Node.{
  AppConfig, get_beacon_block, parent_block, committing_block, canonical_payload,
  fetch_slot_context, node_error, ask,
}
use digital_objects_network.Synchronizer.World.{Gateway, World}
use digital_objects_network.Prelude.{
  ℕ, zero, suc, none, some, ok, ◌≡◌, refl, sym, ◌==◌, Bool-cases, inl, inr, arith,
}

module _ {E : Type 0} (gateway : Gateway E) (config : AppConfig) (prev : BlockAndRoot)
    (serves : (e : E) → gateway.get_block prev.root e ≡ (ok (some prev.block), e)) where
  available_at_once :
      (retries : ℕ) (w : World E)
      → fetch_once_available node_error (ask (gateway.get_block prev.root)) retries w
        ≡ (ok prev.block, w)
  unfolding fetch_once_available
  available_at_once zero w = rw (serves w.env) refl
  available_at_once (suc n) w = rw (serves w.env) refl

  parent_block_same :
      (root : ℕ) (w : World E)
      → parent_block gateway config root (some prev) w ≡ parent_block gateway config root none w
  unfolding get_beacon_block
  parent_block_same root w = elim (Bool-cases (prev.root == root)) [
    | inl t ↦
        let e : root ≡ prev.root = ground arith in
        rw (t, e) (sym (available_at_once config.availability_polling w))
    | inr f ↦ rw f refl
  ]

  committing_block_same :
      (header : BlockHeader) (block : Block) (r : ExecutionPayloadRef) (w : World E)
      → committing_block gateway config header block (some prev) r w
        ≡ committing_block gateway config header block none r w
  committing_block_same header block (embedded hash) w = refl
  committing_block_same header block (bid hash parent_hash) w =
      rw (parent_block_same block.parent_root w) refl

  -- The context of a slot that is fetched with the previous block in hand is the one fetched without
  -- it, the surroundings included, when the beacon node serves that block at once and unchanged.
  pub fetch_slot_context_prev_block :
      (header : BlockHeader) (block : Block) (w : World E)
      → fetch_slot_context gateway config header block (some prev) w
        ≡ fetch_slot_context gateway config header block none w
  unfolding fetch_slot_context canonical_payload
  fetch_slot_context_prev_block header block w =
      rw (committing_block_same header block block.execution_payload w) refl
