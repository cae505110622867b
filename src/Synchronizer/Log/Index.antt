-- ===== src/Synchronizer/Log/Index.antt =====
-- The created index of the log as a map from objects to positions.
use digital_objects_network.Synchronizer.Containers.{HashMap, lookup}
use digital_objects_network.Synchronizer.Apply.{has}
use digital_objects_network.Synchronizer.Log.{
  IndexRow, Log, select_indices, created_indices, duplicate_commitment,
}
use digital_objects_network.Synchronizer.Log.Commit.{has_commitment, insert_created, keep_to}
use digital_objects_network.Prelude.{
  Hash, ℕ, Option, List, ℤ, ◌++◌, ◌<◌, some, none, ◌∷◌, All, ◌≡◌, Bool-cases, true, ok, ◌≤◌, [],
  if◌then◌else◌, lt→ltb, bind_ok, ltb, refl, hash_eq, false, inl, hash_eq_iff, inr, arith, ap, sym,
  ◌∙◌, guard_ok,
}

-- The position that the table holds for an object.
unfoldable pub position : Hash → List IndexRow → Option ℤ
position h [] = none
position h (row ∷ rows) = if hash_eq row.commitment h then some row.array_index else position h rows

abbrev pub or_else : Option ℤ → Option ℤ → Option ℤ
or_else none o = o
or_else (some index) o = some index

-- The rows that `insert_created` adds, in front of those that were there.
unfoldable pub new_rows : ℕ → HashMap → List IndexRow
new_rows slot [] = []
new_rows slot (entry ∷ entries) =
    record { commitment = entry.0; array_index = entry.1; slot = slot } ∷ new_rows slot entries

pub insert_created_rows :
    (slot : ℕ) (added : HashMap) (rows after : List IndexRow)
    → insert_created slot added rows ≡ ok after
    → after ≡ new_rows slot added ++ rows
unfolding insert_created new_rows
insert_created_rows slot [] rows after h = cc
insert_created_rows slot (entry ∷ entries) rows after h =
    let (mid, e, h₁) = bind_ok (insert_created slot entries rows) _ after h in
    let (fresh, h₂) =
      guard_ok (has_commitment entry.0 mid) (duplicate_commitment entry.0) _ after h₁ in
    let e₁ = insert_created_rows slot entries rows mid e in
    let e₂ : record { commitment = entry.0; array_index = entry.1; slot = slot } ∷ mid ≡ after =
      cc in
    sym e₂ ∙ ap (◌∷◌ (record { commitment = entry.0; array_index = entry.1; slot = slot })) e₁

pub position-new_rows :
    (h : Hash) (slot : ℕ) (added : HashMap) (rows : List IndexRow)
    → position h (new_rows slot added ++ rows) ≡ or_else (lookup h added) (position h rows)
unfolding position new_rows lookup
position-new_rows h slot [] rows = refl
position-new_rows h slot (entry ∷ entries) rows = elim (Bool-cases (hash_eq entry.0 h)) [
  | inl e ↦ rw e refl
  | inr e ↦ rw e (position-new_rows h slot entries rows)
]

-- The objects asked for come with their positions, and no other does.
lookup-select_indices :
    (h : Hash) (asked : List Hash) (rows : List IndexRow)
    → has h asked ≡ true
    → lookup h (select_indices asked rows) ≡ position h rows
unfolding position select_indices lookup
lookup-select_indices h asked [] a = refl
lookup-select_indices h asked (row ∷ rows) a = elim (Bool-cases (hash_eq row.commitment h)) [
  | inl e ↦
      let e₁ : row.commitment ≡ h = (hash_eq_iff row.commitment h).0 e in
      let e₂ : has row.commitment asked ≡ true = ap (λ g. has g asked) e₁ ∙ a in rw e₂ (rw e refl)
  | inr e ↦ elim (Bool-cases (has row.commitment asked)) [
    | inl k ↦ rw k (rw e (lookup-select_indices h asked rows a))
    | inr k ↦ rw k (rw e (lookup-select_indices h asked rows a))
  ]
]

pub lookup-created_indices :
    (h : Hash) (asked : List Hash) (log : Log)
    → has h asked ≡ true
    → lookup h (created_indices log asked) ≡ position h log.created_index
unfolding created_indices has
lookup-created_indices h [] log a = cc
lookup-created_indices h (x ∷ xs) log a = lookup-select_indices h (x ∷ xs) log.created_index a

-- The new rows go when their slot is dropped.
pub keep_to-new_rows :
    (keep slot : ℕ) (added : HashMap) (rows : List IndexRow)
    → keep < slot
    → keep_to (λ (row : IndexRow). row.slot) keep (new_rows slot added ++ rows)
      ≡ keep_to (λ (row : IndexRow). row.slot) keep rows
unfolding keep_to new_rows
keep_to-new_rows keep slot [] rows h = refl
keep_to-new_rows keep slot (entry ∷ entries) rows h =
    rw (lt→ltb keep slot h) (keep_to-new_rows keep slot entries rows h)

-- Nothing goes from a table whose rows are all kept.
pub keep_to-All :
    {A : Type 0} (slot_of : A → ℕ) (keep : ℕ) (rows : List A)
    → All (λ row. slot_of row ≤ keep) rows
    → keep_to slot_of keep rows ≡ rows
unfolding keep_to
keep_to-All slot_of keep [] h = refl
keep_to-All slot_of keep (row ∷ rows) h =
    let e : ltb keep (slot_of row) ≡ false = ground (arith, h.0) in
    rw e (ap (◌∷◌ row) (keep_to-All slot_of keep rows h.1))
