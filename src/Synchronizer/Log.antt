-- ===== src/Synchronizer/Log.antt =====
-- services/synchronizer/src/state_log_db.rs: the Postgres log of committed slots, as tables. The
-- text coding of hashes and words in columns is left out, and slots are below 2^31, so that the cast
-- to the column's type keeps them. A statement that breaks a key is an error, and drops the whole
-- transaction. Faults of the connection are added where the log is used.
pub mod Commit
pub mod Index
pub mod Newest
pub mod History
pub mod Changes
pub mod Objects
pub mod RoundTrip
pub mod Statuses
pub mod Starting
use digital_objects_network.Prelude.{
  ℕ, ℤ, Hash, hash_eq, Result, ok, err, List, [], ◌∷◌, ◌++◌, Option, none, some, Bool, true, false,
  if◌then◌else◌, ◌>>=◌, is_some, ◌||◌, ◌&&◌, ◌+◌, ltb, leb, ◌==◌, ◌^◌, length, map, take, ◌-◌,
}
use digital_objects_network.Prelude.Int.{as_i64, leb_ℤ, ltb_ℤ}
use digital_objects_network.Synchronizer.State.{DonState}
use digital_objects_network.Synchronizer.Containers.{HashMap}
use digital_objects_network.Synchronizer.Apply.{has}
use digital_objects_network.Synchronizer.Derivation.{DerivedSlot, BlobStatus, TxStatus, SkipReason}

-- A row of `slots`: the columns of the execution block and of the state are null together.
pub record SlotRow : Type 0 where
  pub slot : ℕ
  pub block_root : Option ℕ
  pub state : Option DonState

pub record IndexRow : Type 0 where
  pub commitment : Hash
  pub array_index : ℤ
  pub slot : ℕ

-- The error is its text, as character codes.
pub record StatusRow : Type 0 where
  pub slot : ℕ
  pub tx_hash : ℕ
  pub tx_blob_index : ℕ
  pub tx_final : Option Hash
  pub error : Option (List ℕ)

pub record Log : Type 0 where
  pub slots : List SlotRow
  pub created_index : List IndexRow
  pub tx_statuses : List StatusRow

pub record SlotState : Type 0 where
  pub state : DonState
  pub slot : ℕ

pub data LogError : Type 0 where
  duplicate_slot : LogError
  duplicate_root : LogError
  duplicate_commitment : Hash → LogError
  duplicate_status : LogError
  row_not_found : LogError
  out_of_range : LogError
  null_column : LogError
  zero_start_slot : LogError
  changed_start_slot : ℕ → LogError

-- ORDER BY slot DESC LIMIT 1 among the rows that pass the test.
abbrev pub later : SlotRow → Option SlotRow → Option SlotRow
later row none = some row
later row (some best) = if ltb row.slot best.slot then some best else some row

unfoldable pub latest : (SlotRow → Bool) → List SlotRow → Option SlotRow
latest test [] = none
latest test (row ∷ rows) = let rest = latest test rows in if test row then later row rest else rest

abbrev pub map_option : {A B : Type 0} → (A → B) → Option A → Option B
map_option f none = none
map_option f (some a) = some (f a)

abbrev pub flatten : {A : Type 0} → Option (Option A) → Option A
flatten none = none
flatten (some o) = o

unfoldable pub last_processed_slot : Log → Option ℕ
unfolding latest
last_processed_slot log = map_option (λ (row : SlotRow). row.slot) (latest (λ row. true) log.slots)

abbrev pub to_slot_state : SlotRow → Option SlotState
to_slot_state row = map_option (λ state. record { state = state; slot = row.slot }) row.state

unfoldable pub slot_state_at_head : Log → Option SlotState
unfolding latest
slot_state_at_head log =
    flatten (map_option to_slot_state (latest (λ row. is_some row.state) log.slots))

unfoldable pub don_state_at_head : Log → Option DonState
unfolding slot_state_at_head
don_state_at_head log = map_option (λ (s : SlotState). s.state) (slot_state_at_head log)

-- WHERE slot = $1
unfoldable pub find_slot : ℕ → List SlotRow → Option SlotRow
find_slot slot [] = none
find_slot slot (row ∷ rows) = if row.slot == slot then some row else find_slot slot rows

unfoldable pub slot_root : Log → ℕ → Option ℕ
unfolding find_slot
slot_root log slot =
    flatten (map_option (λ (row : SlotRow). row.block_root) (find_slot slot log.slots))

abbrev pub required_root : Option SlotRow → Result LogError ℕ
required_root none = err row_not_found
required_root (some row) = elim (row.block_root) [ none ↦ err row_not_found | some root ↦ ok root ]

unfoldable pub latest_block_root_before : Log → ℕ → Result LogError ℕ
unfolding latest
latest_block_root_before log slot =
    required_root (latest (λ row. ltb row.slot slot && is_some row.block_root) log.slots)

-- The state at a committed execution block, by number or by hash.
pub data BlockHashOrNumber : Type 0 where
  by_number : ℕ → BlockHashOrNumber
  by_hash : ℕ → BlockHashOrNumber

abbrev pub is_at : BlockHashOrNumber → Option DonState → Bool
is_at block none = false
is_at (by_number number) (some state) = state.metadata.block.number == number
is_at (by_hash hash) (some state) = state.metadata.block.hash == hash

unfoldable pub find_state : BlockHashOrNumber → List SlotRow → Option SlotState
find_state block [] = none
find_state block (row ∷ rows) =
    if is_at block row.state then to_slot_state row else find_state block rows

abbrev pub exceeds_range : BlockHashOrNumber → Bool
exceeds_range (by_number number) = leb (2 ^ 63) number
exceeds_range (by_hash hash) = false

pub slot_state_at_el_block : Log → BlockHashOrNumber → Result LogError (Option SlotState)
unfolding find_state
slot_state_at_el_block log block =
    if exceeds_range block then err out_of_range else ok (find_state block log.slots)

abbrev max_stored_error_chars : ℕ
max_stored_error_chars = 256

-- "..." ends a text that is cut.
unfoldable pub cap_error : List ℕ → List ℕ
cap_error error =
    if leb (length error) max_stored_error_chars
    then error
    else take (max_stored_error_chars - 3) error ++ 46 ∷ 46 ∷ 46 ∷ []

-- WHERE commitment = ANY($1), as a map; the empty list asks nothing.
unfoldable pub select_indices : List Hash → List IndexRow → HashMap
unfolding has
select_indices commitments [] = []
select_indices commitments (row ∷ rows) =
    let rest = select_indices commitments rows in
    if has row.commitment commitments then (row.commitment, row.array_index) ∷ rest else rest

unfoldable pub created_indices : Log → List Hash → HashMap
unfolding select_indices
created_indices log [] = []
created_indices log (h ∷ hs) = select_indices (h ∷ hs) log.created_index

-- WHERE el_block_number >= $1 ORDER BY el_block_number ASC, slot ASC
pub record RootRow : Type 0 where
  pub state_root : Hash
  pub number : ℤ
  pub slot : ℕ

abbrev pub comes_first : RootRow → RootRow → Bool
comes_first a b = ltb_ℤ a.number b.number || (leb_ℤ a.number b.number && leb a.slot b.slot)

unfoldable pub insert_in_order : RootRow → List RootRow → List RootRow
insert_in_order row [] = row ∷ []
insert_in_order row (r ∷ rs) =
    if comes_first row r then row ∷ r ∷ rs else r ∷ insert_in_order row rs

abbrev pub with_root : ℤ → SlotRow → List RootRow → List RootRow
unfolding insert_in_order
with_root min row rest = elim (row.state) [
  | none ↦ rest
  | some state ↦
      let number = as_i64 state.metadata.block.number in
      if leb_ℤ min number
      then insert_in_order
          (record { state_root = state.metadata.state_root; number = number; slot = row.slot }) rest
      else rest
]

unfoldable pub root_rows : ℤ → List SlotRow → List RootRow
unfolding insert_in_order
root_rows min [] = []
root_rows min (row ∷ rows) = with_root min row (root_rows min rows)

unfoldable pub recent_state_roots : Log → ℕ → HashMap
unfolding root_rows
recent_state_roots log min_block_number =
    map (λ (row : RootRow). (row.state_root, row.number))
      (root_rows (as_i64 min_block_number) log.slots)
