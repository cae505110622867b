-- ===== src/Synchronizer/Containers/Laws.antt =====
-- What the synchronizer relies on of pod2's containers: an insertion changes one position, and a
-- commitment reopens to the same contents.
use digital_objects_network.Synchronizer.Containers.{Backend}
use digital_objects_network.Prelude.{
  zero, suc, List, ℕ, Hash, ◌≡◌, ◌≢◌, length, get_elem?, ok, some, ◌++◌, ◌∷◌, true, [], suc, arith,
  refl, Bool-cases, ◌==◌, inl, inr, ◌∙◌, none, ◌+◌, ◌<◌, ◌^◌,
}
use digital_objects_network.Synchronizer.State.{empty_hash}

module _ {Arr Set Proof E : Type 0} (backend : Backend Arr Set Proof E) where
  open backend use {
    array_from_db, get, array_insert, array_commitment, set_from_db, contains, set_insert,
    set_commitment,
  }

  pub record Lawful : Type 0 where
    pub get-array_insert :
        (a b : Arr) (i : ℕ) (v : Hash) → array_insert a i v ≡ ok b → get b i ≡ ok (some v)
    pub get-array_insert_ne :
        (a b : Arr) (i j : ℕ) (v : Hash) → array_insert a i v ≡ ok b → j ≢ i → get b j ≡ get a j
    pub get-array_from_db :
        (a b : Arr) (i : ℕ) → array_from_db (array_commitment a) ≡ ok b → get b i ≡ get a i
    pub get-array_from_db_empty :
        (a : Arr) (i : ℕ) → array_from_db empty_hash ≡ ok a → get a i ≡ ok none
    pub array_insert_bounded :
        (a b : Arr) (i : ℕ) (v : Hash) → array_insert a i v ≡ ok b → i + 1 < 2 ^ 64
    pub contains-set_insert :
        (s t : Set) (v : Hash) → set_insert s v ≡ ok t → contains t v ≡ ok true
    pub contains-set_insert_ne :
        (s t : Set) (v w : Hash) → set_insert s v ≡ ok t → w ≢ v → contains t w ≡ contains s w
    pub contains-set_from_db :
        (s t : Set) (v : Hash) → set_from_db (set_commitment s) ≡ ok t → contains t v ≡ contains s v

  -- The store behind the containers opens the empty array, and every array committed to it.
  pub record Available : Type 0 where
    pub opens_empty : (a : Arr) × (array_from_db empty_hash ≡ ok a)
    pub reopens : (a : Arr) → (b : Arr) × (array_from_db (array_commitment a) ≡ ok b)

  -- The array holds exactly the hashes of the list, from index 0 on.
  unfoldable pub Represents : Arr → List Hash → Type 0
  Represents a xs = (i : ℕ) → get a i ≡ ok (get_elem? xs i)

pub get_elem?-last : (xs : List Hash) (v : Hash) → get_elem? (xs ++ v ∷ []) (length xs) ≡ some v
get_elem?-last [] v = refl
get_elem?-last (x ∷ xs) v = get_elem?-last xs v

get_elem?-before :
    (xs : List Hash) (v : Hash) (i : ℕ)
    → i ≢ length xs
    → get_elem? (xs ++ v ∷ []) i ≡ get_elem? xs i
get_elem?-before [] v zero h = absurd (h refl)
get_elem?-before [] v (suc i) h = refl
get_elem?-before (x ∷ xs) v zero h = refl
get_elem?-before (x ∷ xs) v (suc i) h =
    get_elem?-before xs v i (λ (e : i ≡ length xs). h (omega arith))

-- A position that is taken keeps its hash when one is added at the end.
pub get_elem?-append_some :
    (xs ys : List Hash) (i : ℕ) (v : Hash)
    → get_elem? xs i ≡ some v
    → get_elem? (xs ++ ys) i ≡ some v
get_elem?-append_some [] ys i v h = cc
get_elem?-append_some (x ∷ xs) ys zero v h = h
get_elem?-append_some (x ∷ xs) ys (suc i) v h = get_elem?-append_some xs ys i v h

module _ {Arr Set Proof E : Type 0} (backend : Backend Arr Set Proof E)
    (lawful : Lawful backend) where
  -- An insertion at the length appends.
  pub array_insert-Represents :
      (a b : Arr) (xs : List Hash) (v : Hash)
      → Represents backend a xs
      → backend.array_insert a (length xs) v ≡ ok b
      → Represents backend b (xs ++ v ∷ [])
  unfolding Represents
  array_insert-Represents a b xs v r h i = elim (Bool-cases (i == length xs)) [
    | inl t ↦
        let e : i ≡ length xs = ground arith in
        rw e (rw (get_elem?-last xs v) (lawful.get-array_insert a b (length xs) v h))
    | inr f ↦
        let ne : i ≢ length xs = ground arith in
        rw (get_elem?-before xs v i ne) (lawful.get-array_insert_ne a b (length xs) i v h ne ∙ r i)
  ]
