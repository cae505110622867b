-- ===== src/Synchronizer/Containers.antt =====
-- services/synchronizer/src/container_db.rs: the Merkle containers behind the state roots. pod2's
-- `Array` and `Set` over RocksDB are parameters; every value the synchronizer stores is made from a
-- hash and is given by that hash. A Rust `HashMap` is an association list.
pub mod Laws
use digital_objects_network.Prelude.{
  ℕ, ℤ, Hash, hash_eq, if◌then◌else◌, ◌>>=◌, Result, ok, err, List, [], ◌∷◌, Option, none, some,
  Bool, false,
}
use digital_objects_network.Prelude.Int.{as_u64}
use digital_objects_network.Synchronizer.State.{StateRoots}

abbrev pub HashMap : Type 0
HashMap = List (Hash × ℤ)

unfoldable pub lookup : Hash → HashMap → Option ℤ
lookup h [] = none
lookup h (entry ∷ entries) = if hash_eq entry.0 h then some entry.1 else lookup h entries

-- The newest entry of a key stands first and is the one `lookup` finds.
abbrev pub insert : Hash → ℤ → HashMap → HashMap
insert h index entries = (h, index) ∷ entries

-- `into_iter().collect()`: the last entry of a key wins.
unfoldable pub collect_onto : HashMap → HashMap → HashMap
collect_onto entries [] = entries
collect_onto entries ((h, index) ∷ more) = collect_onto (insert h index entries) more

-- `Arr`, `Set` and `Proof` are handles of containers and Merkle proofs, `E` the errors of pod2.
pub record Backend (Arr Set Proof E : Type 0) : Type 0 where
  pub array_from_db : Hash → Result E Arr
  pub get : Arr → ℕ → Result E (Option Hash)
  pub prove : Arr → ℕ → Result E (Hash × Proof)
  pub array_insert : Arr → ℕ → Hash → Result E Arr
  pub array_commitment : Arr → Hash
  pub set_from_db : Hash → Result E Set
  pub contains : Set → Hash → Result E Bool
  pub set_insert : Set → Hash → Result E Set
  pub set_commitment : Set → Hash

module _ {Arr Set Proof E : Type 0} (backend : Backend Arr Set Proof E) where
  open backend use {array_from_db, get, prove, set_from_db, contains}

  abbrev leaf_is : Hash → Option Hash → Bool
  leaf_is commitment none = false
  leaf_is commitment (some leaf) = hash_eq leaf commitment

  unfoldable pub created_array_holds : Arr → ℤ → Hash → Result E Bool
  created_array_holds created index commitment =
      get created (as_u64 index) >>= λ leaf. ok (leaf_is commitment leaf)

  abbrev pub open_created : Hash → Result E Arr
  open_created root = array_from_db root

  abbrev pub open_nullifiers : Hash → Result E Set
  open_nullifiers root = set_from_db root

  abbrev pub open_next_state_history : Hash → Result E Arr
  open_next_state_history root = array_from_db root

  -- `collect` of an iterator of results.
  pub collect : {A : Type 0} → (Hash → Result E A) → List Hash → Result E (List A)
  collect f [] = ok []
  collect f (h ∷ hs) = do a ← f h; rest ← collect f hs; ok (a ∷ rest)

  abbrev exists_at : Arr → Hash → Option ℤ → Result E Bool
  unfolding created_array_holds
  exists_at created commitment none = ok false
  exists_at created commitment (some index) = created_array_holds created index commitment

  pub created_exists_for : StateRoots → List Hash → HashMap → Result E (List Bool)
  unfolding lookup
  created_exists_for roots obj_commitments indices = open_created roots.created >>= λ created.
      collect (λ h. exists_at created h (lookup h indices)) obj_commitments

  abbrev authenticated : Hash → ℤ → Result E (Hash × Proof) → Option (ℤ × Proof)
  authenticated commitment index (err e) = none
  authenticated commitment index (ok (value, proof)) =
      if hash_eq value commitment then some (index, proof) else none

  abbrev prove_at : Arr → Hash → Option ℤ → Result E (Option (ℤ × Proof))
  prove_at created commitment none = ok none
  prove_at created commitment (some index) =
      ok (authenticated commitment index (prove created (as_u64 index)))

  pub prove_created_for : StateRoots → List Hash → HashMap → Result E (List (Option (ℤ × Proof)))
  unfolding lookup
  prove_created_for roots obj_commitments indices = open_created roots.created >>= λ created.
      collect (λ h. prove_at created h (lookup h indices)) obj_commitments

  pub nullifier_exists_batch : StateRoots → List Hash → Result E (List Bool)
  nullifier_exists_batch roots nullifiers =
      open_nullifiers roots.nullifiers >>= λ set. collect (contains set) nullifiers
