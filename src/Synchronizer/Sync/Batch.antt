-- ===== src/Synchronizer/Sync/Batch.antt =====
-- services/synchronizer/src/catchup.rs: everything that a batch of slots needs, fetched before any of
-- it is derived. The fetches run concurrently and only read; the model makes them in order.
use digital_objects_network.Synchronizer.Beacon.{slot, BlockHeader, Block, BlockAndRoot}
use digital_objects_network.Synchronizer.Node.{
  AppConfig, SlotContext, get_beacon_block, fetch_slot_context,
}
use digital_objects_network.Synchronizer.World.{Run, Gateway, ask}
use digital_objects_network.Prelude.{
  ℕ, List, [], ◌∷◌, Option, none, some, if◌then◌else◌, ◌==◌, zero, suc,
}
use digital_objects_network.Prelude.Exec.{pure, ◌>>=◌}

pub data FetchedSlot : Type 0 where
  missing : ℕ → FetchedSlot
  present : ℕ → BlockHeader → SlotContext → FetchedSlot

-- A slot of the first phase, with its header and block.
pub record SlotBlock : Type 0 where
  pub slot : ℕ
  pub fetched : Option (BlockHeader × Block)

abbrev pub newer_or : Option BlockAndRoot → BlockAndRoot → ℕ → Option BlockAndRoot
newer_or (some later) block root = some later
newer_or none block root = if block.root == root then some block else none

abbrev pub block_of : Option (BlockHeader × Block) → Option BlockAndRoot → ℕ → Option BlockAndRoot
block_of none later root = later
block_of (some (header, block)) later root =
    newer_or later (record { root = header.root; block = block }) root

-- `blocks_by_root`: of the blocks with a root, the last that was put in.
unfoldable pub block_by_root : ℕ → List SlotBlock → Option BlockAndRoot
block_by_root root [] = none
block_by_root root (b ∷ bs) = block_of b.fetched (block_by_root root bs) root

-- `next_slot..batch_end`
unfoldable pub slots_from : ℕ → ℕ → List ℕ
slots_from first zero = []
slots_from first (suc n) = first ∷ slots_from (suc first) n

module _ {E : Type 0} (gateway : Gateway E) (config : AppConfig) where
  abbrev pub block_at : Option BlockHeader → Run E (Option (BlockHeader × Block))
  block_at none = pure none
  block_at (some header) =
      get_beacon_block gateway config header.root >>= λ block. pure (some (header, block))

  -- The first phase.
  unfoldable pub fetch_blocks : List ℕ → Run E (List SlotBlock)
  fetch_blocks [] = pure []
  fetch_blocks (at ∷ slots) = do
    header ← ask (gateway.get_block_header (slot at))
    fetched ← block_at header
    rest ← fetch_blocks slots
    pure (record { slot = at; fetched = fetched } ∷ rest)

  abbrev pub context_of : List SlotBlock → ℕ → Option (BlockHeader × Block) → Run E FetchedSlot
  context_of blocks at none = pure (missing at)
  context_of blocks at (some (header, block)) =
      fetch_slot_context gateway config header block (block_by_root block.parent_root blocks)
      >>= λ context. pure (present at header context)

  -- The second phase.
  unfoldable pub fetch_contexts : List SlotBlock → List SlotBlock → Run E (List FetchedSlot)
  fetch_contexts blocks [] = pure []
  fetch_contexts blocks (b ∷ bs) = do
    one ← context_of blocks b.slot b.fetched
    rest ← fetch_contexts blocks bs
    pure (one ∷ rest)

  unfoldable pub fetch_batch : List ℕ → Run E (List FetchedSlot)
  unfolding fetch_blocks fetch_contexts
  fetch_batch slots = fetch_blocks slots >>= λ blocks. fetch_contexts blocks blocks
