-- ===== src/Synchronizer/Examples/Logs.antt =====
-- The theorems on the log and the sync loop at concrete data.
use digital_objects_network.Payload.Format as Format
use digital_objects_network.Payload.Format.{Payload}
use digital_objects_network.Synchronizer.Apply.{
  has, apply_payload, check_grounding, check_created, check_nullifiers, append_created,
  insert_nullifiers, commit_payload, already_created,
}
use digital_objects_network.Synchronizer.Beacon.{
  BlockId, head, finalized, slot, BlockHeader, embedded, Block,
}
use digital_objects_network.Synchronizer.Containers.{lookup, collect_onto}
use digital_objects_network.Synchronizer.Derivation.{
  derive_slot_state, open_working, close_slot, apply_txs, apply_blobs, apply_one, SkipReason,
}
use digital_objects_network.Synchronizer.Derivation.Applied.{offered, offered_blobs, offered_one}
use digital_objects_network.Synchronizer.State.{grounding_aged_out, state_header}
use digital_objects_network.Synchronizer.Log.{
  Log, don_state_at_head, slot_state_at_head, latest, created_indices, select_indices, find_slot,
}
use digital_objects_network.Synchronizer.Log.Commit.{
  commit_slot, rollback_to_slot, insert_slot, insert_created, insert_statuses, has_root,
  has_commitment,
}
use digital_objects_network.Synchronizer.Log.History.{History}
use digital_objects_network.Synchronizer.Log.Objects.{
  HasObjects, commit_slot-HasObjects, rollback_to_slot-HasObjects,
}
use digital_objects_network.Synchronizer.Node.{Node}
use digital_objects_network.Synchronizer.Sync.{empty_log}
use digital_objects_network.Synchronizer.Sync.Synced.{Contiguous, Synced, IsSynced}
use digital_objects_network.Synchronizer.Sync.Turns.{run_sync_forever}
use digital_objects_network.Synchronizer.Sync.Forever.{run_sync_forever-IsSynced}
use digital_objects_network.Synchronizer.Sync.Fetches.{AnswersAsked}
use digital_objects_network.Synchronizer.Sync.{find_divergence_slot}
use digital_objects_network.Synchronizer.Sync.Divergence.{find_divergence_slot_last, Diverges}
use digital_objects_network.Synchronizer.Log.RoundTrip.{rollback_to_slot-commit_slot}
use digital_objects_network.Synchronizer.Beacon.{bid}
use digital_objects_network.Synchronizer.Node.{fetch_slot_context}
use digital_objects_network.Synchronizer.Node.Parents.{fetch_slot_context_prev_block}
use digital_objects_network.Synchronizer.Log.Starting.{connect}
use digital_objects_network.Synchronizer.Sync.Restarts.{connect-run_sync_forever}
use digital_objects_network.Synchronizer.World.{Gateway, World, message, shut_down, Wakeup}
use digital_objects_network.Synchronizer.Examples.{
  hash_one, hash_two, hashing, block, txs, derived, unread,
}
use digital_objects_network.Synchronizer.Examples.Cells.{Cell, cells, cells-Lawful, cells-Available}
use digital_objects_network.Prelude.{
  arith, ℕ, zero, suc, List, [], ◌∷◌, ◌++◌, none, some, Hash, hash_eq, ok, ◌≡◌, refl, pos, false,
  String, ◌*◌, ◌+◌, ◌-◌, ◌/◌, ap, Option,
}
use digital_objects_network.Prelude.Int.{as_i64, sub_i64}

abbrev silent : SkipReason → List ℕ
silent reason = []

empty-HasObjects : HasObjects cells cells-Lawful cells-Available empty_log []
unfolding HasObjects History
empty-HasObjects = (refl, refl)

derives :
    derive_slot_state cells hashing
      (don_state_at_head empty_log)
      ((hash_two, pos 1) ∷ [])
      block
      txs
      (created_indices empty_log (offered txs))
    ≡ ok (derived, txs)
unfolding derive_slot_state open_working close_slot apply_txs apply_blobs apply_one collect_onto
    state_header apply_payload check_grounding check_created check_nullifiers commit_payload
    already_created append_created insert_nullifiers lookup has hash_eq grounding_aged_out as_i64
    sub_i64 don_state_at_head slot_state_at_head latest created_indices select_indices offered
    offered_blobs offered_one
derives = refl

-- The log with slot 5.
abbrev one_slot : Log
one_slot = record {
  slots = record { slot = 5; block_root = some 77; state = some derived.state } ∷ [];
  created_index = record { commitment = hash_one; array_index = pos 0; slot = 5 } ∷ [];
  tx_statuses = [];
}

commits : commit_slot silent 5 (some 77) (some derived) [] empty_log ≡ ok one_slot
unfolding commit_slot insert_slot insert_created insert_statuses has_root has_commitment find_slot
commits = refl

abbrev committed :
    (zs : List Hash) × HasObjects cells cells-Lawful cells-Available one_slot ([] ++ zs)
committed =
    commit_slot-HasObjects cells cells-Lawful cells-Available hashing ((hash_two, pos 1) ∷ []) block
      txs txs derived silent 5 (some 77) [] empty_log one_slot [] empty-HasObjects tt derives
      commits

commit_slot-HasObjects_example :
    (zs : List Hash) × HasObjects cells cells-Lawful cells-Available one_slot ([] ++ zs)
commit_slot-HasObjects_example =
    commit_slot-HasObjects cells cells-Lawful cells-Available hashing ((hash_two, pos 1) ∷ []) block
      txs txs derived silent 5 (some 77) [] empty_log one_slot [] empty-HasObjects tt derives
      commits

rollback_to_slot-HasObjects_example :
    (find_slot 5 (rollback_to_slot 4 one_slot).slots ≡ none)
    × ((ys : List Hash) × ((zs : List Hash) × ([] ++ committed.0 ≡ ys ++ zs))
        × HasObjects cells cells-Lawful cells-Available (rollback_to_slot 4 one_slot) ys)
rollback_to_slot-HasObjects_example =
    rollback_to_slot-HasObjects cells cells-Lawful cells-Available 4 one_slot ([] ++ committed.0) 5
      committed.1

-- A chain with a block in every slot, whose head is at slot 2; a block's root is ten times its slot.
abbrev header_at : ℕ → BlockHeader
header_at s = record { root = 10 * s; parent_root = 10 * s - 10; slot = s }

abbrev served_header : BlockId → BlockHeader
served_header head = header_at 2
served_header finalized = header_at 2
served_header (slot s) = header_at s

-- The state of the surroundings counts the wakeups: the second is a shutdown.
abbrev wakeup_of : ℕ → Wakeup
wakeup_of zero = message (some 2)
wakeup_of (suc n) = shut_down

abbrev block_of_root : ℕ → Block
block_of_root root = record {
  blob_kzg_commitments = [];
  execution_payload = embedded (root + 1);
  parent_root = root - 10;
  slot = root / 10;
}

abbrev gateway : Gateway ℕ
gateway = record {
  get_block_header = λ id e. (ok (some (served_header id)), e);
  get_block = λ root e. (ok (some (block_of_root root)), e);
  get_execution_block = λ hash full e.
      (ok (some (record { number = hash; timestamp = hash; transactions = none })), e);
  get_archived_blobs = λ root hashes e. (ok none, e);
  get_spec = λ e. (ok tt, e);
  subscribe = λ e. (ok tt, e);
  sync_containers = λ e. (ok tt, e);
  db_fault = λ e. (none, e);
  shut_down_now = λ e. (false, e);
  wakeup = λ e. (wakeup_of e, suc e);
}

answers : AnswersAsked gateway
answers s e header h = let e₁ : header ≡ header_at s = cc in ap (λ (k : BlockHeader). k.slot) e₁

abbrev node : Node Cell Cell Hash String ℕ ℕ
node = record {
  gateway = gateway;
  config = record {
    availability_polling = 1;
    catchup_batch_size = 7;
    init_start_slot = 1;
    to_address = 9;
  };
  backend = cells;
  hashing = hashing;
  parse = Format.parse_blob unread;
  show = silent;
}

empty-IsSynced : IsSynced cells cells-Lawful cells-Available 1 empty_log
unfolding Synced Contiguous
empty-IsSynced = (1, (refl, [], empty-HasObjects))

abbrev world : World ℕ
world = record { log = empty_log; env = 0 }

run_sync_forever-IsSynced_example :
    IsSynced cells cells-Lawful cells-Available 1 (run_sync_forever node 3 3 1 world).1.log
run_sync_forever-IsSynced_example =
    run_sync_forever-IsSynced node cells-Lawful cells-Available answers 3 3 1 world empty-IsSynced

connect-run_sync_forever_example : connect 1 (run_sync_forever node 3 3 1 world).1.log ≡ ok tt
connect-run_sync_forever_example =
    connect-run_sync_forever node cells-Lawful cells-Available answers 3 3 1 world (omega arith)
      empty-IsSynced

abbrev forked : World ℕ
forked = record { log = one_slot; env = 0 }

abbrev chain : ℕ → Option BlockHeader
chain s = some (header_at s)

find_divergence_slot_last_example :
    ((find_divergence_slot node 7 forked).1.log ≡ one_slot)
    × (start : ℕ) × ((find_divergence_slot node 7 forked).0 ≡ ok start)
    × Diverges 1 7 one_slot chain start
find_divergence_slot_last_example =
    find_divergence_slot_last node chain (λ s e. refl) (λ e. refl) 7 forked (omega arith)

rollback_to_slot-commit_slot_example : rollback_to_slot 4 one_slot ≡ empty_log
rollback_to_slot-commit_slot_example =
    rollback_to_slot-commit_slot cells cells-Lawful cells-Available silent 4 5 (some 77)
      (some derived) [] empty_log one_slot [] empty-HasObjects tt tt (omega arith) commits

-- A block whose bid does not build on a payload of its parent, the block with root 10.
abbrev bidding : Block
bidding = record (block_of_root 20) { execution_payload = bid 21 11 }

fetch_slot_context_prev_block_example :
    fetch_slot_context gateway node.config
      (header_at 2)
      bidding
      (some (record { root = 10; block = block_of_root 10 }))
      world
    ≡ fetch_slot_context gateway node.config (header_at 2) bidding none world
fetch_slot_context_prev_block_example =
    fetch_slot_context_prev_block gateway node.config
      (record { root = 10; block = block_of_root 10 }) (λ e. refl) (header_at 2) bidding world
