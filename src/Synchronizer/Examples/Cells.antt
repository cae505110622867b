-- ===== src/Synchronizer/Examples/Cells.antt =====
-- Containers that hold one hash, and whose commitment is that hash with its first element raised by
-- one.
use digital_objects_network.Prelude.{
  zero, suc, ℕ, refl, hash_eq, Option, none, ◌≡◌, Hash, some, true, arith, String, ok, Bool, Result,
  ◌≢◌, ap, false, err, hash_eq_iff, hash_eq_refl, ◌+◌, ◌<◌, ◌^◌,
}
use digital_objects_network.Synchronizer.State.{empty_hash}
use digital_objects_network.Synchronizer.Containers.{Backend}
use digital_objects_network.Synchronizer.Containers.Laws.{Lawful, Available}

abbrev pub Cell : Type 0
Cell = Option Hash

abbrev pub commit : Cell → Hash
commit none = empty_hash
commit (some h) = record h { e0 = suc h.e0 }

abbrev pub cell_of : ℕ → Hash → Cell
cell_of zero h = none
cell_of (suc n) h = some (record h { e0 = n })

abbrev pub cell_get : Cell → ℕ → Option Hash
cell_get c zero = c
cell_get c (suc i) = none

abbrev pub cell_insert : ℕ → Hash → Result String Cell
cell_insert zero v = ok (some v)
cell_insert (suc i) v = err "full"

abbrev pub cell_has : Cell → Hash → Bool
cell_has none v = false
cell_has (some h) v = hash_eq h v

abbrev pub cell_add : Cell → Hash → Result String Cell
cell_add none v = ok (some v)
cell_add (some h) v = err "full"

abbrev pub cells : Backend Cell Cell Hash String
cells = record {
  array_from_db = λ root. ok (cell_of root.e0 root);
  get = λ c i. ok (cell_get c i);
  prove = λ c i. err "no proof";
  array_insert = λ c i v. cell_insert i v;
  array_commitment = commit;
  set_from_db = λ root. ok (cell_of root.e0 root);
  contains = λ c v. ok (cell_has c v);
  set_insert = cell_add;
  set_commitment = commit;
}

cell_of-commit : (c : Cell) → cell_of (commit c).e0 (commit c) ≡ c
cell_of-commit none = refl
cell_of-commit (some h) = refl

inserted_get : (b : Cell) (i : ℕ) (v : Hash) → cell_insert i v ≡ ok b → cells.get b i ≡ ok (some v)
inserted_get b zero v h = let e : b ≡ some v = cc in ap (λ o. ok o) e
inserted_get b (suc i) v h = cc

inserted_get_ne :
    (a b : Cell) (i j : ℕ) (v : Hash)
    → cell_insert i v ≡ ok b
    → j ≢ i
    → cells.get b j ≡ cells.get a j
inserted_get_ne a b zero zero v h ne = absurd (ne refl)
inserted_get_ne a b zero (suc j) v h ne = refl
inserted_get_ne a b (suc i) j v h ne = cc

added_has : (s t : Cell) (v : Hash) → cell_add s v ≡ ok t → cells.contains t v ≡ ok true
added_has none t v h = let e : t ≡ some v = cc in rw e (ap (λ b. ok b) (hash_eq_refl v))
added_has (some x) t v h = cc

added_has_ne :
    (s t : Cell) (v w : Hash)
    → cell_add s v ≡ ok t
    → w ≢ v
    → cells.contains t w ≡ cells.contains s w
added_has_ne none t v w h ne =
    let e : t ≡ some v = cc in
    let f : hash_eq v w ≡ false = ground (arith, hash_eq_iff v w) in rw e (ap (λ b. ok b) f)
added_has_ne (some x) t v w h ne = cc

empty_get : (i : ℕ) → cells.get none i ≡ ok none
empty_get zero = refl
empty_get (suc i) = refl

inserted_bounded : (b : Cell) (i : ℕ) (v : Hash) → cell_insert i v ≡ ok b → i + 1 < 2 ^ 64
inserted_bounded b zero v h = omega arith
inserted_bounded b (suc i) v h = cc

pub cells-Lawful : Lawful cells
cells-Lawful = record {
  get-array_insert = λ a b i v h. inserted_get b i v h;
  get-array_insert_ne = inserted_get_ne;
  get-array_from_db = λ a b i h. let e : b ≡ a = cc (cell_of-commit a) in rw e refl;
  get-array_from_db_empty = λ a i h. let e : a ≡ none = cc in rw e (empty_get i);
  array_insert_bounded = λ a b i v h. inserted_bounded b i v h;
  contains-set_insert = added_has;
  contains-set_insert_ne = added_has_ne;
  contains-set_from_db = λ s t v h. let e : t ≡ s = cc (cell_of-commit s) in rw e refl;
}

pub cells-Available : Available cells
cells-Available = record {
  opens_empty = (none, refl);
  reopens = λ a. (cell_of (commit a).e0 (commit a), refl);
}
