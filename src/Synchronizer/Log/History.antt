-- ===== src/Synchronizer/Log/History.antt =====
-- The log as a history of slots: its states grow the created array, and the created index holds the
-- positions of the objects in the array of the head state.
use digital_objects_network.Synchronizer.Apply.{has}
use digital_objects_network.Synchronizer.Apply.Additions.{Added}
use digital_objects_network.Synchronizer.Containers.{HashMap, Backend}
use digital_objects_network.Synchronizer.Containers.Laws.{get_elem?-append_some}
use digital_objects_network.Synchronizer.Derivation.Slot.{IsCreated, Covers}
use digital_objects_network.Synchronizer.Log.{SlotRow, IndexRow, Log, created_indices, DonState}
use digital_objects_network.Synchronizer.Log.Index.{
  position, new_rows, position-new_rows, lookup-created_indices,
}
use digital_objects_network.Prelude.{
  List, Hash, ◌≡◌, Bool-cases, ◌∷◌, true, inl, ◌++◌, some, ℤ, get_elem?, false, inr, none, [], refl,
  Option, ◌∙◌,
}
use digital_objects_network.Prelude.Int.{as_u64}
use digital_objects_network.Synchronizer.Log.Newest.{Before, NewestFirst}

module _ {Arr Set MerkleProof E : Type 0} (backend : Backend Arr Set MerkleProof E) where
  -- A state on top of the objects `old` and the index rows `old_index`.
  unfoldable pub Extends :
      SlotRow → DonState → List IndexRow → List Hash → List IndexRow → List Hash → Type 0
  Extends row state index xs old_index old =
      ((zs : List Hash) × (xs ≡ old ++ zs))
      × ((created : Arr) × IsCreated backend (some state) created xs)
      × ((added : HashMap) × Added old added xs × (index ≡ new_rows row.slot added ++ old_index))

  -- A slot without a state leaves the objects and the index; `Rest` is the history before the slot.
  abbrev pub Step :
      (Rest : List IndexRow → List Hash → Type 0)
      → SlotRow
      → Option DonState
      → List IndexRow
      → List Hash
      → Type 0
  Step Rest row none index xs = Rest index xs
  Step Rest row (some state) index xs =
      (old_index : List IndexRow) × (old : List Hash) × Extends row state index xs old_index old
      × Rest old_index old

  -- The newest row first.
  unfoldable pub History : List SlotRow → List IndexRow → List Hash → Type 0
  History [] index xs = (index ≡ []) × (xs ≡ [])
  History (row ∷ rows) index xs = Before row.slot rows × Step (History rows) row row.state index xs

  -- The index has the position of each object, and nothing else.
  unfoldable pub Indexed : List IndexRow → List Hash → Type 0
  Indexed index xs =
      (h : Hash)
      → (has h xs ≡ true
          → (i : ℤ) × (position h index ≡ some i) × (get_elem? xs (as_u64 i) ≡ some h))
        × (has h xs ≡ false → position h index ≡ none)

  Extends-Indexed :
      (row : SlotRow) (state : DonState) (index : List IndexRow) (xs : List Hash)
      (old_index : List IndexRow) (old : List Hash)
      → Extends row state index xs old_index old
      → Indexed old_index old
      → Indexed index xs
  unfolding Extends Indexed
  Extends-Indexed row state index xs old_index old ((zs, e), c, (added, s, e₁)) k h =
      let find = position-new_rows h row.slot added old_index in
      (
        λ there. elim (Bool-cases (has h old)) [
          | inl t ↦
              let (i, found, at) = (k h).0 t in
              (
                i,
                rw (e₁, find, s.old_absent h t) found,
                rw e (get_elem?-append_some old zs (as_u64 i) h at),
              )
          | inr f ↦
              let (i, found, at) = s.new_placed h f there in (i, rw (e₁, find, found) refl, at)
        ],
        λ absent.
            let f : has h old ≡ false = elim (Bool-cases (has h old)) [
              | inl t ↦ let t₁ = s.base_kept h t in absurd (cc)
              | inr f ↦ f
            ] in
            rw (e₁, find, s.other_absent h absent) ((k h).1 f),
      )

  Step-Indexed :
      (rows : List SlotRow) (row : SlotRow) (o : Option DonState) (index : List IndexRow)
      (xs : List Hash)
      → ((i : List IndexRow) (ys : List Hash) → History rows i ys → Indexed i ys)
      → Step (History rows) row o index xs
      → Indexed index xs
  Step-Indexed rows row none index xs ih k = ih index xs k
  Step-Indexed rows row (some state) index xs ih (i, old, e, k) =
      Extends-Indexed row state index xs i old e (ih i old k)

  nothing-Indexed : Indexed [] []
  unfolding Indexed position has
  nothing-Indexed h = (λ e. cc, λ e. refl)

  pub History-Indexed :
      (rows : List SlotRow) (index : List IndexRow) (xs : List Hash)
      → History rows index xs
      → Indexed index xs
  unfolding History
  History-Indexed [] index xs (e, e₁) = rw (e, e₁) nothing-Indexed
  History-Indexed (row ∷ rows) index xs (b, k) =
      Step-Indexed rows row row.state index xs (History-Indexed rows) k

  -- The prefetch of a slot covers the objects its payloads may create.
  pub History-Covers :
      (log : Log) (asked : List Hash) (xs : List Hash)
      → History log.slots log.created_index xs
      → Covers (created_indices log asked) asked xs
  unfolding Covers Indexed
  History-Covers log asked xs k h a there =
      let (i, found, at) = (History-Indexed log.slots log.created_index xs k h).0 there in
      (i, lookup-created_indices h asked log a ∙ found, at)

  Step-rest :
      (rows : List SlotRow) (row : SlotRow) (o : Option DonState) (index : List IndexRow)
      (xs : List Hash)
      → Step (History rows) row o index xs
      → (i : List IndexRow) × (ys : List Hash) × History rows i ys
  Step-rest rows row none index xs k = (index, xs, k)
  Step-rest rows row (some state) index xs (i, old, e, k) = (i, old, k)

  pub History-NewestFirst :
      (rows : List SlotRow) (index : List IndexRow) (xs : List Hash)
      → History rows index xs
      → NewestFirst rows
  unfolding History NewestFirst
  History-NewestFirst [] index xs k = tt
  History-NewestFirst (row ∷ rows) index xs (b, k) =
      let (i, ys, k₁) = Step-rest rows row row.state index xs k in
      (b, History-NewestFirst rows i ys k₁)
