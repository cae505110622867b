-- ===== src/Synchronizer/Beacon.antt =====
-- libs/eth-clients: the blocks of the beacon chain (src/beacon/types.rs) and the wait for data that a
-- node does not serve yet (`fetch_once_available` of src/common.rs). Roots, hashes and addresses are
-- words; a commitment is given by its versioned hash, which `kzg_to_versioned_hash` computes.
use digital_objects_network.Prelude.{ℕ, List, Option, none, some, Bool, false, ◌==◌, zero, suc}
use digital_objects_network.Prelude.Exec.{Exec, pure, fail, ◌>>=◌}

pub data BlockId : Type 0 where
  head finalized : BlockId
  slot : ℕ → BlockId

pub record BlockHeader : Type 0 where
  pub root : ℕ
  pub parent_root : ℕ
  pub slot : ℕ

pub data ExecutionPayloadRef : Type 0 where
  embedded : ℕ → ExecutionPayloadRef
  bid : ℕ → ℕ → ExecutionPayloadRef

abbrev pub block_hash : ExecutionPayloadRef → ℕ
block_hash (embedded hash) = hash
block_hash (bid hash parent_hash) = hash

pub record Block : Type 0 where
  pub blob_kzg_commitments : List ℕ
  pub execution_payload : ExecutionPayloadRef
  pub parent_root : ℕ
  pub slot : ℕ

abbrev bid_builds_on : ExecutionPayloadRef → ExecutionPayloadRef → Bool
bid_builds_on (bid hash parent_hash) (bid parent_bid older) = parent_hash == parent_bid
bid_builds_on _ _ = false

abbrev pub builds_on_payload_of : Block → Block → Bool
builds_on_payload_of block parent = bid_builds_on block.execution_payload parent.execution_payload

pub record BlockAndRoot : Type 0 where
  pub root : ℕ
  pub block : Block

-- A transaction of an execution block, and the block; it has no transactions when only their hashes
-- were asked for.
pub record ExecutionTx : Type 0 where
  pub hash : ℕ
  pub to_address : Option ℕ
  pub blob_versioned_hashes : Option (List ℕ)

pub record RpcBlock : Type 0 where
  pub number : ℕ
  pub timestamp : ℕ
  pub transactions : Option (List ExecutionTx)

abbrev pub found_or : {S F A : Type 0} → Exec S F A → Option A → Exec S F A
found_or again none = again
found_or again (some a) = pure a

module _ {S F A : Type 0} (unavailable : F) (fetch : Exec S F (Option A)) where
  -- One fetch, and one more for each retry.
  unfoldable pub fetch_once_available : ℕ → Exec S F A
  fetch_once_available zero = fetch >>= found_or (fail unavailable)
  fetch_once_available (suc retries) = fetch >>= found_or (fetch_once_available retries)
