-- ===== src/Synchronizer/State.antt =====
-- services/synchronizer/src/don_state.rs, and `StateHeader` with the grounding age of
-- libs/txlib/src/lib.rs. The hash of a header is the commitment of a pod2 array: a parameter.
use digital_objects_network.Prelude.{ℕ, Hash, ℤ, pos, Bool}
use digital_objects_network.Prelude.Int.{as_i64, sub_i64, ltb_ℤ}

abbrev pub max_state_root_age_blocks : ℤ
max_state_root_age_blocks = pos 50400

unfoldable pub grounding_aged_out : ℤ → ℤ → Bool
grounding_aged_out block grounding_block =
    ltb_ℤ max_state_root_age_blocks (sub_i64 block grounding_block)

-- pod2's `EMPTY_HASH`: the hash of four zeros.
abbrev pub empty_hash : Hash
empty_hash = record { e0 = 0; e1 = 0; e2 = 0; e3 = 0 }

pub record StateRoots : Type 0 where
  pub created : Hash
  pub nullifiers : Hash
  pub prior_state_history : Hash
  pub next_state_history : Hash

abbrev pub empty : StateRoots
empty = record {
  created = empty_hash;
  nullifiers = empty_hash;
  prior_state_history = empty_hash;
  next_state_history = empty_hash;
}

-- The block hash is a 256-bit word.
pub record ExecutionBlock : Type 0 where
  pub number : ℕ
  pub timestamp : ℕ
  pub hash : ℕ

pub record StateMetadata : Type 0 where
  pub state_root : Hash
  pub block : ExecutionBlock
  pub created_count : ℕ
  pub nullifier_count : ℕ
  pub state_root_count : ℕ

pub record DonState : Type 0 where
  pub roots : StateRoots
  pub metadata : StateMetadata

pub record StateHeader : Type 0 where
  pub block_number : ℤ
  pub block_timestamp : ℤ
  pub block_hash : Hash
  pub created_root : Hash
  pub nullifiers_root : Hash
  pub prior_state_history_root : Hash

pub record Hashing : Type 0 where
  pub b256_to_hash : ℕ → Hash
  pub header_hash : StateHeader → Hash

unfoldable pub state_header : Hashing → ExecutionBlock → Hash → Hash → Hash → StateHeader
state_header hashing block created_root nullifiers_root prior_state_history_root = record {
  block_number = as_i64 block.number;
  block_timestamp = as_i64 block.timestamp;
  block_hash = hashing.b256_to_hash block.hash;
  created_root = created_root;
  nullifiers_root = nullifiers_root;
  prior_state_history_root = prior_state_history_root;
}

-- `DonState::state_header`
unfoldable pub header_of : Hashing → DonState → StateHeader
unfolding state_header
header_of hashing state =
    state_header hashing state.metadata.block state.roots.created state.roots.nullifiers
      state.roots.prior_state_history
