-- ===== src/Synchronizer/Examples.antt =====
-- The theorems on the synchronizer at concrete data.
mod Cells
mod Logs
mod Statuses
mod Blobs
use digital_objects_network.Payload.Format as Format
use digital_objects_network.Payload.Format.Panics.{parse_blob_panics}
use digital_objects_network.Prelude.{
  zero, suc, ℕ, refl, length, hash_eq, Option, none, List, ◌≡◌, Hash, ◌∷◌, [], some, true, arith,
  String, pos, ok, ◌≤◌, Bool, Result, ◌≢◌, ◌+◌, ◌++◌, ap, ◌<◌, false, err, hash_eq_iff,
  hash_eq_refl, ◌^◌,
}
use digital_objects_network.Payload.Format.{Payload}
use digital_objects_network.Synchronizer.State.{
  ExecutionBlock, Hashing, empty_hash, grounding_aged_out, state_header,
}
use digital_objects_network.Synchronizer.Containers.{Backend, lookup, collect_onto}
use digital_objects_network.Synchronizer.Containers.Laws.{Lawful, Represents}
use digital_objects_network.Synchronizer.Apply.{
  WorkingState, has, apply_payload, unknown_state_root, check_grounding, check_created,
  check_nullifiers, append_created, insert_nullifiers, commit_payload, already_created,
  creation_collision,
}
use digital_objects_network.Synchronizer.Apply.Distinct.{NoDup}
use digital_objects_network.Synchronizer.Apply.Created.{Sound, Known}
use digital_objects_network.Synchronizer.Apply.Append.{apply_payload-Sound}
use digital_objects_network.Synchronizer.Apply.Inversion.{apply_payload_rejected}
use digital_objects_network.Synchronizer.Derivation.{
  DerivedSlot, TargetTx, derive_slot_state, open_working, close_slot, apply_txs, apply_blobs,
  apply_one, rejected, parse_blobs,
}
use digital_objects_network.Synchronizer.Derivation.Applied.{offered, offered_blobs, offered_one}
use digital_objects_network.Synchronizer.Derivation.Slot.{
  IsCreated, Covers, derive_slot_state-IsCreated,
}
use digital_objects_network.Prelude.Int.{as_i64, sub_i64}
use digital_objects_network.Synchronizer.Derivation.Replay.{apply_txs_spent}
use digital_objects_network.Synchronizer.Examples.Cells.{Cell, commit, cells, cells-Lawful}
use digital_objects_network.Synchronizer.Apply.Additions.{Added-start, Added}

abbrev pub hash_one : Hash
hash_one = record { e0 = 1; e1 = 2; e2 = 3; e3 = 4 }

abbrev pub hash_two : Hash
hash_two = record { e0 = 5; e1 = 6; e2 = 7; e3 = 8 }

abbrev pub payload : Payload ℕ
payload = record {
  proof = 0;
  tx_final = hash_one;
  state_root = hash_two;
  nullifiers = hash_two ∷ [];
  created = hash_one ∷ [];
}

abbrev start : WorkingState Cell Cell
start = record {
  created_count = 0;
  nullifier_count = 0;
  created = none;
  nullifiers = none;
  next_state_history = none;
  recent_state_roots = (hash_two, pos 1) ∷ [];
  created_added = [];
}

abbrev after : WorkingState Cell Cell
after = record start {
  created_count = 1;
  nullifier_count = 1;
  created = some hash_one;
  nullifiers = some hash_two;
  created_added = (hash_one, pos 0) ∷ [];
}

empty_cell : Represents cells none []
unfolding Represents
empty_cell zero = refl
empty_cell (suc i) = refl

start-Sound : Sound cells [] (hash_one ∷ []) [] start []
unfolding Sound Known NoDup has
start-Sound = (empty_cell, refl, tt, λ h a k. cc, Added-start [])

applied : apply_payload cells start payload [] 9 ≡ ok (none, after)
unfolding apply_payload check_grounding check_created check_nullifiers commit_payload
    already_created append_created insert_nullifiers lookup has hash_eq grounding_aged_out as_i64
    sub_i64
applied = refl

one_asked : has hash_one (hash_one ∷ []) ≡ true
unfolding has hash_eq
one_asked = refl

two_spent : has hash_two payload.nullifiers ≡ true
unfolding has hash_eq
two_spent = refl

apply_payload-Sound_example : Sound cells [] (hash_one ∷ []) [] after (hash_one ∷ [])
apply_payload-Sound_example =
    apply_payload-Sound cells cells-Lawful [] (hash_one ∷ []) [] start payload 9 [] after
      start-Sound (one_asked, tt) applied

-- A state that knows no recent root.
abbrev forgetful : WorkingState Cell Cell
forgetful = record start { recent_state_roots = [] }

not_applied : apply_payload cells forgetful payload [] 9 ≡ ok (some unknown_state_root, forgetful)
unfolding apply_payload check_grounding lookup
not_applied = refl

apply_payload_rejected_example : forgetful ≡ forgetful
apply_payload_rejected_example =
    apply_payload_rejected cells forgetful payload [] 9 unknown_state_root forgetful not_applied

abbrev pub hashing : Hashing
hashing = record {
  b256_to_hash = λ n. record { e0 = n; e1 = 0; e2 = 0; e3 = 0 };
  header_hash = λ header. header.created_root;
}

abbrev pub block : ExecutionBlock
block = record { number = 9; timestamp = 90; hash = 77 }

abbrev pub txs : List (TargetTx (Payload ℕ))
txs =
    record {
      blobs = some (0, payload) ∷ [];
      status = record {
        tx_hash = 1;
        blobs = record { tx_final = some hash_one; error = none } ∷ [];
      };
    }
    ∷ []

abbrev pub derived : DerivedSlot
derived = record {
  state = record {
    roots = record {
      created = commit (some hash_one);
      nullifiers = commit (some hash_two);
      prior_state_history = empty_hash;
      next_state_history = commit (some (commit (some hash_one)));
    };
    metadata = record {
      state_root = commit (some hash_one);
      block = block;
      created_count = 1;
      nullifier_count = 1;
      state_root_count = 1;
    };
  };
  created_added = (hash_one, pos 0) ∷ [];
}

derives :
    derive_slot_state cells hashing none ((hash_two, pos 1) ∷ []) block txs [] ≡ ok (derived, txs)
unfolding derive_slot_state open_working close_slot apply_txs apply_blobs apply_one collect_onto
    state_header apply_payload check_grounding check_created check_nullifiers commit_payload
    already_created append_created insert_nullifiers lookup has hash_eq grounding_aged_out as_i64
    sub_i64
derives = refl

none-IsCreated : IsCreated cells none none []
unfolding IsCreated NoDup
none-IsCreated = (refl, empty_cell, refl, tt)

none-Covers : Covers [] (offered txs) []
unfolding Covers has
none-Covers h a k = cc

derive_slot_state-IsCreated_example :
    (zs : List Hash) × (length zs ≤ length (offered txs))
    × IsCreated cells (some derived.state) (some hash_one) ([] ++ zs)
    × Added [] derived.created_added ([] ++ zs)
derive_slot_state-IsCreated_example =
    derive_slot_state-IsCreated cells cells-Lawful hashing ((hash_two, pos 1) ∷ []) block txs []
      none none [] derived txs (some hash_one) none-IsCreated none-Covers derives refl

-- The slot's transaction comes back with its payload rejected, when its object is there already.
abbrev noted : List (TargetTx (Payload ℕ))
noted =
    record {
      blobs = some (0, payload) ∷ [];
      status = record {
        tx_hash = 1;
        blobs =
            record { tx_final = some hash_one; error = some (rejected creation_collision) } ∷ [];
      };
    }
    ∷ []

again : apply_txs cells [] 9 after txs ≡ ok (after, noted)
unfolding apply_txs apply_blobs apply_one apply_payload check_grounding check_created
    already_created lookup has hash_eq grounding_aged_out as_i64 sub_i64
again = refl

apply_txs_spent_example : apply_payload cells after payload [] 9 ≢ ok (none, after)
apply_txs_spent_example =
    apply_txs_spent cells cells-Lawful [] 9 start payload payload after after after txs noted
      hash_two two_spent two_spent applied again

-- A blob of two bytes, those of the magic, behind another blob.
abbrev pub unread : Format.Backend ℕ
unread = record {
  order = 0xffffffff00000001;
  write_compressed_proof = λ proof. [];
  read_compressed_proof = λ bytes. Format.err Format.unreadable_proof;
  verify_finalized = λ p. Format.ok tt;
}
