-- ===== src/Synchronizer/Log/Changes.antt =====
-- The head state of a history, and what committing a slot and rolling back do to the history.
use digital_objects_network.Synchronizer.State.{DonState}
use digital_objects_network.Synchronizer.Containers.{HashMap, Backend}
use digital_objects_network.Synchronizer.Containers.Laws.{Lawful, Available, Represents}
use digital_objects_network.Synchronizer.Apply.Distinct.{NoDup}
use digital_objects_network.Synchronizer.Derivation.Slot.{IsCreated}
use digital_objects_network.Synchronizer.Log.{SlotRow, IndexRow}
use digital_objects_network.Synchronizer.Log.Commit.{keep_to}
use digital_objects_network.Synchronizer.Log.Newest.{newest_state, or_newest}
use digital_objects_network.Synchronizer.Log.History.{History, Step, Extends}
use digital_objects_network.Synchronizer.Log.Index.{new_rows, keep_to-new_rows, keep_to-All}
use digital_objects_network.Prelude.{
  List, ℕ, Option, Hash, ◌≤◌, some, ◌∷◌, none, All, ◌≡◌, [], ◌<◌, All-append, ◌++◌, sym, append-nil,
  refl, Bool-cases, ltb, inl, ltb→lt, ◌∙◌, ap, append_assoc, inr, arith, All-map,
}

module _ {Arr Set MerkleProof E : Type 0} (backend : Backend Arr Set MerkleProof E)
    (lawful : Lawful backend) (available : Available backend) where
  step_head :
      (rows : List SlotRow) (row : SlotRow) (o : Option DonState) (index : List IndexRow)
      (xs : List Hash)
      → ((i : List IndexRow) (ys : List Hash)
          → History backend rows i ys
          → (created : Arr) × IsCreated backend (newest_state rows) created ys)
      → Step backend (History backend rows) row o index xs
      → (created : Arr) × IsCreated backend (or_newest o (newest_state rows)) created xs
  unfolding Extends
  step_head rows row none index xs ih k = ih index xs k
  step_head rows row (some state) index xs ih (i, old, e, k) = e.1

  -- The head state of a history has the history's objects in its array.
  pub History-IsCreated :
      (rows : List SlotRow) (index : List IndexRow) (xs : List Hash)
      → History backend rows index xs
      → (created : Arr) × IsCreated backend (newest_state rows) created xs
  unfolding History newest_state IsCreated Represents NoDup
  History-IsCreated [] index xs h =
      let (a, opens) = available.opens_empty in
      let e : xs ≡ [] = h.1 in
      (a, (opens, (λ i. rw e (lawful.get-array_from_db_empty a i opens)), rw e refl, rw e tt))
  History-IsCreated (row ∷ rows) index xs h =
      step_head rows row row.state index xs (History-IsCreated rows) h.1

  entries_below :
      (keep slot : ℕ) (added : HashMap)
      → slot ≤ keep
      → All (λ (row : IndexRow). row.slot ≤ keep) (new_rows slot added)
  unfolding new_rows
  entries_below keep slot [] h = tt
  entries_below keep slot (entry ∷ entries) h = (h, entries_below keep slot entries h)

  step_below :
      (keep : ℕ) (rows : List SlotRow) (row : SlotRow) (o : Option DonState) (index : List IndexRow)
      (xs : List Hash)
      → row.slot ≤ keep
      → ((i : List IndexRow) (ys : List Hash)
          → History backend rows i ys
          → All (λ (r : IndexRow). r.slot ≤ keep) i)
      → Step backend (History backend rows) row o index xs
      → All (λ (r : IndexRow). r.slot ≤ keep) index
  unfolding Extends
  step_below keep rows row none index xs h ih k = ih index xs k
  step_below keep rows row (some state) index xs h ih (i, old, (z, c, (added, s, e)), k) = rw e (
      All-append (λ (r : IndexRow). r.slot ≤ keep) (new_rows row.slot added) i
        (entries_below keep row.slot added h) (ih i old k))

  -- The index rows are of the slots of the history.
  pub History-below :
      (keep : ℕ) (rows : List SlotRow) (index : List IndexRow) (xs : List Hash)
      → History backend rows index xs
      → All (λ (r : SlotRow). r.slot ≤ keep) rows
      → All (λ (r : IndexRow). r.slot ≤ keep) index
  unfolding History
  History-below keep [] index xs h b = let e : index ≡ [] = h.0 in rw e tt
  History-below keep (row ∷ rows) index xs h b =
      step_below keep rows row row.state index xs b.0 (λ i ys k. History-below keep rows i ys k b.1)
        h.1

  step_rollback :
      (keep : ℕ) (rows : List SlotRow) (row : SlotRow) (o : Option DonState) (index : List IndexRow)
      (xs : List Hash)
      → keep < row.slot
      → Step backend (History backend rows) row o index xs
      → (i : List IndexRow) × (ys : List Hash) × (keep_to (λ (r : IndexRow). r.slot) keep index
          ≡ keep_to (λ (r : IndexRow). r.slot) keep i)
        × ((zs : List Hash) × (xs ≡ ys ++ zs))
        × History backend rows i ys
  unfolding Extends
  step_rollback keep rows row none index xs h k = (index, xs, refl, ([], sym (append-nil xs)), k)
  step_rollback keep rows row (some state) index xs h (i, old, (z, c, (added, s, e)), k) =
      (i, old, rw e (keep_to-new_rows keep row.slot added i h), z, k)

  -- Rolling back leaves a history, of the first of the objects.
  pub History-keep_to :
      (keep : ℕ) (rows : List SlotRow) (index : List IndexRow) (xs : List Hash)
      → History backend rows index xs
      → (ys : List Hash) × ((zs : List Hash) × (xs ≡ ys ++ zs))
        × History backend
            (keep_to (λ (r : SlotRow). r.slot) keep rows)
            (keep_to (λ (r : IndexRow). r.slot) keep index)
            ys
  unfolding History keep_to
  History-keep_to keep [] index xs h =
      let e : index ≡ [] = h.0 in (xs, ([], sym (append-nil xs)), (rw e refl, h.1))
  History-keep_to keep (row ∷ rows) index xs h = elim (Bool-cases (ltb keep row.slot)) [
    | inl t ↦
        let above : keep < row.slot = ltb→lt keep row.slot t in
        let (i, ys, e, (zs, e₁), k) = step_rollback keep rows row row.state index xs above h.1 in
        let (ws, (vs, e₂), k₁) = History-keep_to keep rows i ys k in
        (ws, (vs ++ zs, e₁ ∙ ap (λ l. l ++ zs) e₂ ∙ append_assoc ws vs zs), rw t (rw e k₁))
    | inr f ↦
        let within : row.slot ≤ keep = ground arith in
        let older : All (λ (r : SlotRow). r.slot ≤ keep) rows =
          All-map (λ (r : SlotRow) (l : r.slot < row.slot). omega arith) rows h.0 in
        let same_rows = keep_to-All (λ (r : SlotRow). r.slot) keep rows older in
        let same_index =
          keep_to-All (λ (r : IndexRow). r.slot) keep index
            (History-below keep (row ∷ rows) index xs h (within, older)) in
        (xs, ([], sym (append-nil xs)), rw f (rw (same_rows, same_index) h))
  ]
