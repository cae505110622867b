-- ===== src/Synchronizer/Sync/Fetches.antt =====
-- The fetches of the node only read, and what they bring is of the slot that was asked for when the
-- beacon node's answers are.
use digital_objects_network.Synchronizer.Beacon.{
  slot, BlockHeader, Block, BlockAndRoot, ExecutionPayloadRef, embedded, bid, finalized,
}
use digital_objects_network.Synchronizer.Beacon.{fetch_once_available}
use digital_objects_network.Synchronizer.Blobs.{
  get_blobs, blobs_of, fetch_target_blobs, CanonicalPayload, TargetBlobTx,
}
use digital_objects_network.Synchronizer.Node.{
  AppConfig, not_before, get_beacon_head_header, get_beacon_block, parent_block, committing_block,
  payload_of, canonical_payload, target_txs_of, SlotContext, fetch_slot_context, genesis_payload,
  validate_genesis_slot,
}
use digital_objects_network.Synchronizer.Sync.Reads.{
  Reads, bind_Reads, pure_Reads, ask_Reads, lift_Reads, ensure_Reads, if_Reads, relax_Reads,
  fetch_once_available_Reads,
}
use digital_objects_network.Synchronizer.World.{Gateway, Failure, ask, node_error}
use digital_objects_network.Prelude.Exec.{◌>>=◌, pure}
use digital_objects_network.Prelude.{ℕ, List, [], ◌∷◌, Option, none, some, Result, ok, ◌≡◌, refl}

abbrev pub Any : {A : Type 0} → A → Type 0
Any a = Unit {0}

-- The header that the beacon node serves for a slot is of that slot.
abbrev pub AnswersAsked : {E : Type 0} → Gateway E → Type 0
AnswersAsked {E} gateway =
    (s : ℕ) (e : E) (header : BlockHeader)
    → (gateway.get_block_header (slot s) e).0 ≡ ok (some header)
    → header.slot ≡ s

module _ {E : Type 0} where
  available_Reads :
      {A : Type 0} (e : Failure) (f : E → Result Failure (Option A) × E) (retries : ℕ)
      → Reads (fetch_once_available e (ask f) retries) Any
  available_Reads e f retries =
      fetch_once_available_Reads e (ask f) (relax_Reads (ask_Reads f) (λ o g a k. tt)) retries

  module _ (gateway : Gateway E) (retries : ℕ) where
    get_blobs_Reads :
        (root : ℕ) (commitments asked : List ℕ)
        → Reads (get_blobs gateway retries root commitments asked) Any
    unfolding get_blobs
    get_blobs_Reads root commitments asked =
        bind_Reads (available_Reads _ _ retries) λ blobs g. lift_Reads

    blobs_of_Reads :
        (payload : CanonicalPayload) (txs : List TargetBlobTx)
        → Reads (blobs_of gateway retries payload txs) Any
    blobs_of_Reads payload [] = pure_Reads tt
    blobs_of_Reads payload (tx ∷ txs) = bind_Reads (get_blobs_Reads _ _ _) λ blobs g. lift_Reads

  module _ (gateway : Gateway E) (config : AppConfig) where
    pub get_beacon_head_header_Reads : Reads (get_beacon_head_header gateway config) Any
    unfolding get_beacon_head_header
    get_beacon_head_header_Reads = available_Reads _ _ config.availability_polling

    pub get_beacon_block_Reads : (root : ℕ) → Reads (get_beacon_block gateway config root) Any
    unfolding get_beacon_block
    get_beacon_block_Reads root = available_Reads _ _ config.availability_polling

    parent_block_Reads :
        (root : ℕ) (prev : Option BlockAndRoot) → Reads (parent_block gateway config root prev) Any
    parent_block_Reads root none = get_beacon_block_Reads root
    parent_block_Reads root (some prev) =
        if_Reads _ (λ e. pure_Reads tt) (λ e. get_beacon_block_Reads root)

    committing_block_Reads :
        (header : BlockHeader) (block : Block) (prev : Option BlockAndRoot)
        (r : ExecutionPayloadRef)
        → Reads (committing_block gateway config header block prev r) Any
    committing_block_Reads header block prev (embedded hash) = pure_Reads tt
    committing_block_Reads header block prev (bid hash parent_hash) =
        bind_Reads (parent_block_Reads _ prev) λ parent g. pure_Reads tt

    payload_of_Reads :
        (committing : Option BlockAndRoot) → Reads (payload_of gateway config committing) Any
    payload_of_Reads none = pure_Reads tt
    payload_of_Reads (some committing) =
        bind_Reads (available_Reads _ _ config.availability_polling)
          λ block g. bind_Reads lift_Reads λ targets g. pure_Reads tt

    canonical_payload_Reads :
        (header : BlockHeader) (block : Block) (prev : Option BlockAndRoot)
        → Reads (canonical_payload gateway config header block prev) Any
    unfolding canonical_payload
    canonical_payload_Reads header block prev =
        bind_Reads (committing_block_Reads header block prev block.execution_payload)
          λ committing g. payload_of_Reads committing

    target_txs_of_Reads :
        (payload : Option CanonicalPayload) → Reads (target_txs_of gateway config payload) Any
    unfolding fetch_target_blobs
    target_txs_of_Reads none = pure_Reads tt
    target_txs_of_Reads (some payload) =
        blobs_of_Reads gateway config.availability_polling payload payload.target_blob_txs

    pub fetch_slot_context_Reads :
        (header : BlockHeader) (block : Block) (prev : Option BlockAndRoot)
        → Reads
            (fetch_slot_context gateway config header block prev)
            (λ (ctx : SlotContext). ctx.slot ≡ header.slot)
    unfolding fetch_slot_context
    fetch_slot_context_Reads header block prev =
        bind_Reads (canonical_payload_Reads header block prev)
          λ payload g. bind_Reads (target_txs_of_Reads payload) λ target_txs g. pure_Reads refl

    genesis_payload_Reads :
        (header : Option BlockHeader) → Reads (genesis_payload gateway config header) Any
    genesis_payload_Reads none = lift_Reads
    genesis_payload_Reads (some header) = bind_Reads (get_beacon_block_Reads header.root) λ block g.
        bind_Reads (canonical_payload_Reads header block none) λ payload g. ensure_Reads _ _

    pub validate_genesis_slot_Reads :
        (start : ℕ) → Reads (validate_genesis_slot gateway config start) Any
    unfolding validate_genesis_slot
    validate_genesis_slot_Reads start =
        bind_Reads
          {f = λ u. ask (gateway.get_block_header (slot start)) >>= genesis_payload gateway config}
          (fetch_once_available_Reads node_error
            (ask (gateway.get_block_header finalized) >>= λ header. pure (not_before start header))
            (bind_Reads {f = λ header. pure (not_before start header)}
              (ask_Reads (gateway.get_block_header finalized))
              λ header g. pure_Reads {a = not_before start header} (λ a k. tt))
            config.availability_polling)
          λ u g.
            bind_Reads (ask_Reads (gateway.get_block_header (slot start)))
              λ header g. genesis_payload_Reads header
