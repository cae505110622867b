-- ===== src/Synchronizer/Apply/Additions.antt =====
-- The objects that a slot added, `created_added`, against the created array: `base` are the objects
-- before the slot, the list those of now.
use digital_objects_network.Synchronizer.Apply.{has, as_i64}
use digital_objects_network.Synchronizer.Apply.Distinct.{has_last}
use digital_objects_network.Synchronizer.Containers.{HashMap, lookup, insert}
use digital_objects_network.Synchronizer.Containers.Laws.{get_elem?-last, get_elem?-append_some}
use digital_objects_network.Prelude.{
  List, Hash, ℕ, [], ◌≡◌, ℤ, hash_eq, true, false, length, refl, none, ◌<◌, some, ◌^◌, get_elem?,
  ◌++◌, ◌∷◌, arith, hash_eq_iff, Bool-cases, inl, sym, inr,
}
use digital_objects_network.Prelude.Int.{as_u64, as_u64-as_i64}

pub record Added (base : List Hash) (added : HashMap) (xs : List Hash) : Type 0 where
  pub base_kept : (h : Hash) → has h base ≡ true → has h xs ≡ true
  pub old_absent : (h : Hash) → has h base ≡ true → lookup h added ≡ none
  pub other_absent : (h : Hash) → has h xs ≡ false → lookup h added ≡ none
  pub new_placed :
      (h : Hash)
      → has h base ≡ false
      → has h xs ≡ true
      → (index : ℤ) × (lookup h added ≡ some index) × (get_elem? xs (as_u64 index) ≡ some h)

pub Added-start : (base : List Hash) → Added base [] base
unfolding lookup
Added-start base = record {
  base_kept = λ h e. e;
  old_absent = λ h e. refl;
  other_absent = λ h e. refl;
  new_placed = λ h e k. cc;
}

lookup-insert_ne :
    (obj h : Hash) (index : ℤ) (added : HashMap)
    → hash_eq obj h ≡ false
    → lookup h (insert obj index added) ≡ lookup h added
unfolding lookup
lookup-insert_ne obj h index added e = rw e refl

-- A new object goes to the end of the array, under the index that is its length.
pub Added-insert :
    (base : List Hash) (added : HashMap) (xs : List Hash) (obj : Hash) (count : ℕ)
    → Added base added xs
    → has obj xs ≡ false
    → length xs ≡ count
    → count < 2 ^ 64
    → Added base (insert obj (as_i64 count) added) (xs ++ obj ∷ [])
unfolding lookup
Added-insert base added xs obj count s fresh e room = record {
  base_kept = λ h k. ground (arith, has_last h obj xs, s.base_kept h k);
  old_absent = λ h k.
      let ne : hash_eq obj h ≡ false = ground (arith, s.base_kept h k, hash_eq_iff obj h) in
      rw ne (s.old_absent h k);
  other_absent = λ h k.
      let ne : hash_eq obj h ≡ false = ground (arith, has_last h obj xs) in
      let old : has h xs ≡ false = ground (arith, has_last h obj xs) in
      rw ne (s.other_absent h old);
  new_placed = λ h k t. elim (Bool-cases (hash_eq obj h)) [
    | inl same ↦
        let e₁ : obj ≡ h = (hash_eq_iff obj h).0 same in
        (
          as_i64 count,
          rw same refl,
          rw (as_u64-as_i64 count room) (rw (sym e) (rw (sym e₁) (get_elem?-last xs obj))),
        )
    | inr ne ↦
        let old : has h xs ≡ true = ground (arith, has_last h obj xs) in
        let (index, found, at) = s.new_placed h k old in
        (index, rw ne found, get_elem?-append_some xs (obj ∷ []) (as_u64 index) h at)
  ];
}
