-- ===== src/Synchronizer/Log/Statuses.antt =====
-- The lookups of transaction statuses: `tx_statuses_by_tx_hash` and `tx_status_by_tx_final`. The error
-- of a status is its text.
use digital_objects_network.Synchronizer.Log.{
  SlotRow, StatusRow, Log, LogError, null_column, find_slot,
}
use digital_objects_network.Synchronizer.State.{DonState}
use digital_objects_network.Prelude.{
  ℕ, ℤ, Hash, hash_eq, List, [], ◌∷◌, Option, none, some, Result, ok, err, Bool, true, false, ◌&&◌,
  ◌||◌, is_some, ◌==◌, ltb, leb, if◌then◌else◌, ◌>>=◌, ◌≡◌, refl, Bool-cases, Option-cases, inl,
  inr, ◌++◌,
}
use digital_objects_network.Prelude.Int.{as_i64}

pub record TxBlobStatus : Type 0 where
  pub tx_hash : ℕ
  pub tx_blob_index : ℕ
  pub tx_final : Option Hash
  pub error : Option (List ℕ)
  pub block_number : ℤ
  pub block_hash : ℕ

-- A row joined with its slot. Where a column of the block is null the source panics.
abbrev decode_joined : StatusRow → Option DonState → Result LogError TxBlobStatus
decode_joined row none = err null_column
decode_joined row (some state) = ok (record {
  tx_hash = row.tx_hash;
  tx_blob_index = row.tx_blob_index;
  tx_final = row.tx_final;
  error = row.error;
  block_number = as_i64 state.metadata.block.number;
  block_hash = state.metadata.block.hash;
})

abbrev decode_row : StatusRow → Option SlotRow → Result LogError TxBlobStatus
decode_row row none = err null_column
decode_row row (some slot_row) = decode_joined row slot_row.state

unfoldable insert_by_index : StatusRow → List StatusRow → List StatusRow
insert_by_index row [] = row ∷ []
insert_by_index row (r ∷ rs) =
    if leb row.tx_blob_index r.tx_blob_index then row ∷ r ∷ rs else r ∷ insert_by_index row rs

-- WHERE tx_hash = $1 ORDER BY tx_blob_index, of the rows that join a slot.
unfoldable rows_of_tx : ℕ → List SlotRow → List StatusRow → List StatusRow
unfolding insert_by_index find_slot
rows_of_tx tx_hash slots [] = []
rows_of_tx tx_hash slots (row ∷ rows) =
    let rest = rows_of_tx tx_hash slots rows in
    if (row.tx_hash == tx_hash && is_some (find_slot row.slot slots))
    then insert_by_index row rest
    else rest

unfoldable decode_rows : List SlotRow → List StatusRow → Result LogError (List TxBlobStatus)
unfolding find_slot
decode_rows slots [] = ok []
decode_rows slots (row ∷ rows) = decode_row row (find_slot row.slot slots) >>= λ status.
    decode_rows slots rows >>= λ statuses. ok (status ∷ statuses)

pub tx_statuses_by_tx_hash : Log → ℕ → Result LogError (List TxBlobStatus)
unfolding rows_of_tx decode_rows
tx_statuses_by_tx_hash log tx_hash =
    decode_rows log.slots (rows_of_tx tx_hash log.slots log.tx_statuses)

abbrev has_final : Hash → Option Hash → Bool
has_final tx_final none = false
has_final tx_final (some h) = hash_eq h tx_final

abbrev pub carries : Hash → List SlotRow → StatusRow → Bool
carries tx_final slots row = has_final tx_final row.tx_final && is_some (find_slot row.slot slots)

-- slot DESC, tx_hash, tx_blob_index
abbrev is_newer : StatusRow → StatusRow → Bool
is_newer a b =
    ltb b.slot a.slot
    || (a.slot == b.slot
        && (ltb a.tx_hash b.tx_hash
            || (a.tx_hash == b.tx_hash && leb a.tx_blob_index b.tx_blob_index)))

-- ORDER BY error IS NOT NULL comes first.
abbrev precedes : Option (List ℕ) → Option (List ℕ) → Bool → Bool
precedes none none newer = newer
precedes none (some e) newer = true
precedes (some e) none newer = false
precedes (some e) (some f) newer = newer

abbrev preferred : StatusRow → Option StatusRow → Option StatusRow
preferred row none = some row
preferred row (some best) =
    if precedes row.error best.error (is_newer row best) then some row else some best

unfoldable pub pick_status : Hash → List SlotRow → List StatusRow → Option StatusRow
unfolding find_slot
pick_status tx_final slots [] = none
pick_status tx_final slots (row ∷ rows) =
    let rest = pick_status tx_final slots rows in
    if carries tx_final slots row then preferred row rest else rest

abbrev decode_picked : List SlotRow → Option StatusRow → Result LogError (Option TxBlobStatus)
decode_picked slots none = ok none
decode_picked slots (some row) =
    decode_row row (find_slot row.slot slots) >>= λ status. ok (some status)

pub tx_status_by_tx_final : Log → Hash → Result LogError (Option TxBlobStatus)
unfolding pick_status
tx_status_by_tx_final log tx_final =
    decode_picked log.slots (pick_status tx_final log.slots log.tx_statuses)

-- The best row so far applied the transaction.
IsApplied : Hash → List SlotRow → Option StatusRow → Type 0
IsApplied tx_final slots o =
    (best : StatusRow) × (o ≡ some best)
    × (carries tx_final slots best ≡ true)
    × (best.error ≡ none)

preferred_new :
    (tx_final : Hash) (slots : List SlotRow) (row : StatusRow) (o : Option StatusRow)
    → carries tx_final slots row ≡ true
    → row.error ≡ none
    → ((best : StatusRow) → o ≡ some best → carries tx_final slots best ≡ true)
    → IsApplied tx_final slots (preferred row o)
unfolding IsApplied
preferred_new tx_final slots row none c e k = (row, refl, c, e)
preferred_new tx_final slots row (some best) c e k = elim (Option-cases best.error) [
  | inl n ↦ elim (Bool-cases (is_newer row best)) [
    | inl t ↦ (row, rw (e, n, t) refl, c, e)
    | inr f ↦ (best, rw (e, n, f) refl, k best refl, n)
  ]
  | inr (text, n) ↦ (row, rw (e, n) refl, c, e)
]

preferred_old :
    (tx_final : Hash) (slots : List SlotRow) (row : StatusRow) (o : Option StatusRow)
    → carries tx_final slots row ≡ true
    → IsApplied tx_final slots o
    → IsApplied tx_final slots (preferred row o)
unfolding IsApplied
preferred_old tx_final slots row o c (best, e, d, n) = elim (Option-cases row.error) [
  | inl m ↦ elim (Bool-cases (is_newer row best)) [
    | inl t ↦ (row, rw e (rw (m, n, t) refl), c, m)
    | inr f ↦ (best, rw e (rw (m, n, f) refl), d, n)
  ]
  | inr (text, m) ↦ (best, rw e (rw (m, n) refl), d, n)
]

preferred-carries :
    (tx_final : Hash) (slots : List SlotRow) (row : StatusRow) (o : Option StatusRow)
    (best : StatusRow)
    → carries tx_final slots row ≡ true
    → ((best : StatusRow) → o ≡ some best → carries tx_final slots best ≡ true)
    → preferred row o ≡ some best
    → carries tx_final slots best ≡ true
preferred-carries tx_final slots row none best c k e = let e₁ : best ≡ row = cc in rw e₁ c
preferred-carries tx_final slots row (some old) best c k e =
    elim (Bool-cases (precedes row.error old.error (is_newer row old))) [
      | inl t ↦ let e₁ : some row ≡ some best = rw t at e in let e₂ : best ≡ row = cc in rw e₂ c
      | inr f ↦ k best (rw f at e)
    ]

pick_status-carries :
    (tx_final : Hash) (slots : List SlotRow) (rows : List StatusRow) (best : StatusRow)
    → pick_status tx_final slots rows ≡ some best
    → carries tx_final slots best ≡ true
unfolding pick_status
pick_status-carries tx_final slots [] best e = cc
pick_status-carries tx_final slots (row ∷ rows) best e =
    elim (Bool-cases (carries tx_final slots row)) [
      | inl t ↦
          preferred-carries tx_final slots row (pick_status tx_final slots rows) best t
            (pick_status-carries tx_final slots rows) (rw t at e)
      | inr f ↦ pick_status-carries tx_final slots rows best (rw f at e)
    ]

-- When some blob of a committed slot applied the transaction, the status found for the transaction is
-- that of a blob that did, and not of one that was rejected, wherever the rows stand.
pub pick_status_applied :
    (tx_final : Hash) (slots : List SlotRow) (others rows : List StatusRow) (row : StatusRow)
    → carries tx_final slots row ≡ true
    → row.error ≡ none
    → (best : StatusRow) × (pick_status tx_final slots (others ++ row ∷ rows) ≡ some best)
      × (carries tx_final slots best ≡ true)
      × (best.error ≡ none)
unfolding pick_status IsApplied
pick_status_applied tx_final slots [] rows row c e = rw c (
    preferred_new tx_final slots row (pick_status tx_final slots rows) c e
      (pick_status-carries tx_final slots rows))
pick_status_applied tx_final slots (other ∷ others) rows row c e =
    let k = pick_status_applied tx_final slots others rows row c e in
    elim (Bool-cases (carries tx_final slots other)) [
      | inl t ↦ rw t (
          preferred_old tx_final slots other (pick_status tx_final slots (others ++ row ∷ rows)) t
            k)
      | inr f ↦ rw f k
    ]
