-- ===== src/Synchronizer/Node.antt =====
-- services/synchronizer/src/node.rs: what the synchronizer reads from the network for a slot. The
-- clients are the `Gateway`; a wait that ends without the data is a node error.
pub mod Slots
pub mod Parents
use digital_objects_network.Payload.Format.{Verdict}
use digital_objects_network.Synchronizer.Beacon.{
  BlockId, head, finalized, slot, BlockHeader, Block, BlockAndRoot, ExecutionPayloadRef, embedded,
  bid, block_hash, builds_on_payload_of, ExecutionTx, RpcBlock, fetch_once_available,
}
use digital_objects_network.Synchronizer.Blobs.{TargetBlobTx, CanonicalPayload, fetch_target_blobs}
use digital_objects_network.Synchronizer.Containers.{Backend}
use digital_objects_network.Synchronizer.Derivation.{SkipReason, TargetTx}
use digital_objects_network.Synchronizer.Log.{map_option}
use digital_objects_network.Synchronizer.State.{Hashing}
use digital_objects_network.Synchronizer.World.{
  Failure, node_error, missing_transactions, bad_genesis_slot, Gateway, Run, ask,
}
use digital_objects_network.Prelude.{
  ℕ, List, [], ◌∷◌, Option, none, some, Bool, true, false, Result, ok, err, if◌then◌else◌, ◌==◌,
  leb, not, is_some,
}
use digital_objects_network.Prelude.Exec.{pure, lift, ensure, ◌>>=◌, ◌>>◌}

-- `availability_polling` is the number of its retries.
pub record AppConfig : Type 0 where
  pub availability_polling : ℕ
  pub catchup_batch_size : ℕ
  pub init_start_slot : ℕ
  pub to_address : ℕ

-- The node with its clients, its state machine and the text of a blob's error.
pub record Node (Arr Set MerkleProof Err Proof E : Type 0) : Type 0 where
  pub gateway : Gateway E
  pub config : AppConfig
  pub backend : Backend Arr Set MerkleProof Err
  pub hashing : Hashing
  pub parse : List ℕ → Verdict Proof
  pub show : SkipReason → List ℕ

pub record SlotContext : Type 0 where
  pub slot : ℕ
  pub beacon_block_root : ℕ
  pub payload : Option CanonicalPayload
  pub target_txs : List (TargetTx (List ℕ))

abbrev pub is_empty : List ℕ → Bool
is_empty [] = true
is_empty (x ∷ xs) = false

abbrev pub is_word : ℕ → Option ℕ → Bool
is_word n none = false
is_word n (some m) = m == n

-- The blob transactions sent to the address.
abbrev pub with_target : ExecutionTx → Option (List ℕ) → List TargetBlobTx → List TargetBlobTx
with_target tx none rest = rest
with_target tx (some hashes) rest = record { tx_hash = tx.hash; versioned_hashes = hashes } ∷ rest

unfoldable pub target_blob_txs : ℕ → List ExecutionTx → List TargetBlobTx
target_blob_txs address [] = []
target_blob_txs address (tx ∷ txs) =
    let rest = target_blob_txs address txs in
    if is_word address tx.to_address then with_target tx tx.blob_versioned_hashes rest else rest

abbrev pub targets_of : ℕ → List ℕ → Option (List ExecutionTx) → Result Failure (List TargetBlobTx)
targets_of address commitments (some txs) = ok (target_blob_txs address txs)
targets_of address [] none = ok []
targets_of address (c ∷ cs) none = err missing_transactions

abbrev pub not_before : ℕ → Option BlockHeader → Option (Unit {0})
not_before start none = none
not_before start (some header) = if leb start header.slot then some tt else none

module _ {E : Type 0} (gateway : Gateway E) (config : AppConfig) where
  unfoldable pub get_beacon_head_header : Run E BlockHeader
  unfolding fetch_once_available
  get_beacon_head_header =
      fetch_once_available node_error (ask (gateway.get_block_header head))
        config.availability_polling

  unfoldable pub get_beacon_block : ℕ → Run E Block
  unfolding fetch_once_available
  get_beacon_block root =
      fetch_once_available node_error (ask (gateway.get_block root)) config.availability_polling

  -- The parent, from `prev_block` when that is the one.
  abbrev pub parent_block : ℕ → Option BlockAndRoot → Run E Block
  parent_block root none = get_beacon_block root
  parent_block root (some prev) =
      if prev.root == root then pure prev.block else get_beacon_block root

  -- The block that committed to the payload, with its root.
  abbrev pub committing_block :
      BlockHeader → Block → Option BlockAndRoot → ExecutionPayloadRef → Run E (Option BlockAndRoot)
  committing_block header block prev_block (embedded hash) =
      pure (some (record { root = header.root; block = block }))
  committing_block header block prev_block (bid hash parent_hash) =
      parent_block block.parent_root prev_block >>= λ parent. pure (
        if builds_on_payload_of block parent
        then some (record { root = block.parent_root; block = parent })
        else none)

  abbrev pub payload_of : Option BlockAndRoot → Run E (Option CanonicalPayload)
  payload_of none = pure none
  payload_of (some committing) = do
    let commitments = committing.block.blob_kzg_commitments
    let hash = block_hash committing.block.execution_payload
    block ←
        fetch_once_available node_error
          (ask (gateway.get_execution_block hash (not (is_empty commitments))))
          config.availability_polling
    targets ← lift (targets_of config.to_address commitments block.transactions)
    pure (
        some (record {
          committing_block_root = committing.root;
          execution_block = record {
            number = block.number;
            timestamp = block.timestamp;
            hash = hash;
          };
          kzg_blob_commitments = commitments;
          target_blob_txs = targets;
        }))

  unfoldable pub canonical_payload :
      BlockHeader → Block → Option BlockAndRoot → Run E (Option CanonicalPayload)
  canonical_payload header block prev_block =
      committing_block header block prev_block block.execution_payload >>= payload_of

  abbrev pub target_txs_of : Option CanonicalPayload → Run E (List (TargetTx (List ℕ)))
  target_txs_of none = pure []
  target_txs_of (some payload) = fetch_target_blobs gateway config.availability_polling payload

  unfoldable pub fetch_slot_context : BlockHeader → Block → Option BlockAndRoot → Run E SlotContext
  unfolding canonical_payload
  fetch_slot_context header block prev_block = do
    payload ← canonical_payload header block prev_block
    target_txs ← target_txs_of payload
    pure (record {
      slot = header.slot;
      beacon_block_root = header.root;
      payload = payload;
      target_txs = target_txs;
    })

  abbrev pub genesis_payload : Option BlockHeader → Run E (Unit {0})
  genesis_payload none = lift (err bad_genesis_slot)
  genesis_payload (some header) = do
    block ← get_beacon_block header.root
    payload ← canonical_payload header block none
    ensure (is_some payload) bad_genesis_slot

  unfoldable pub validate_genesis_slot : ℕ → Run E (Unit {0})
  unfolding fetch_once_available
  validate_genesis_slot start =
      fetch_once_available node_error
        (ask (gateway.get_block_header finalized) >>= λ header. pure (not_before start header))
        config.availability_polling
      >> (ask (gateway.get_block_header (slot start)) >>= genesis_payload)
