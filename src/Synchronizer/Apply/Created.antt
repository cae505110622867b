-- ===== src/Synchronizer/Apply/Created.antt =====
-- The created array of a slot in progress against the list of the objects created so far, and the
-- check of `apply_payload` for collisions.
use digital_objects_network.Synchronizer.Containers.Laws.{Represents}
use digital_objects_network.Synchronizer.Apply.{
  WorkingState, has, already_created, check_created, Rejection, creation_collision,
  duplicate_created,
}
use digital_objects_network.Synchronizer.Containers.{HashMap, Backend, lookup, created_array_holds}
use digital_objects_network.Synchronizer.Apply.Distinct.{NoDup, Appendable, has_last}
use digital_objects_network.Prelude.{
  List, Hash, length, ◌≡◌, ◌∷◌, Bool, ok, true, ◌||◌, is_some, none, All, inl, Result, ◌⊎◌, Option,
  inr, false, ℤ, Bool-cases, some, arith, ◌++◌, get_elem?, ap, hash_eq_refl, [], if◌then◌else◌,
  refl, ◌>>=◌, bind_ok, ◌∙◌,
}
use digital_objects_network.Prelude.Int.{as_u64}
use digital_objects_network.Synchronizer.Apply.Additions.{Added}

pub test_passed :
    {E : Type 0}
    → (b : Bool) (reason : Rejection) (m : Result E (Option Rejection))
    → (if b then ok (some reason) else m) ≡ ok none
    → (b ≡ false) × (m ≡ ok none)
test_passed true reason m h = cc
test_passed false reason m h = (refl, h)

module _ {Arr Set MerkleProof E : Type 0} (backend : Backend Arr Set MerkleProof E)
    (prior_indices : HashMap) (asked base : List Hash) where
  -- An object of the list that a payload of the slot may create is found by the collision check:
  -- it was added in this slot, or its prior index is its position.
  unfoldable pub Known : WorkingState Arr Set → List Hash → Type 0
  Known state xs =
      (h : Hash)
      → has h asked ≡ true
      → has h xs ≡ true
      → (is_some (lookup h state.created_added) ≡ true)
        ⊎ ((index : ℤ) × (lookup h prior_indices ≡ some index)
            × (get_elem? xs (as_u64 index) ≡ some h))

  unfoldable pub Sound : WorkingState Arr Set → List Hash → Type 0
  Sound state xs =
      Represents backend state.created xs
      × (length xs ≡ state.created_count)
      × NoDup xs
      × Known state xs
      × Added base state.created_added xs

  already_created_known :
      (state : WorkingState Arr Set) (xs : List Hash) (h : Hash)
      → Sound state xs
      → has h asked ≡ true
      → has h xs ≡ true
      → already_created backend state prior_indices h ≡ ok true
  unfolding already_created Sound Represents created_array_holds Known
  already_created_known state xs h s a k = elim (s.3 h a k) [
    | inl e ↦ rw e
    | inr (index, e, at) ↦ elim (Bool-cases (is_some (lookup h state.created_added))) [
      | inl t ↦ rw t
      | inr f ↦ rw f (rw e (rw (s.0 (as_u64 index)) (rw at (ap (λ b. ok b) (hash_eq_refl h)))))
    ]
  ]

  check_created_passed :
      (state : WorkingState Arr Set) (seen : List Hash) (obj : Hash) (objs : List Hash)
      → check_created backend state prior_indices seen (obj ∷ objs) ≡ ok none
      → (has obj seen ≡ false)
        × (already_created backend state prior_indices obj ≡ ok false)
        × (check_created backend state prior_indices (obj ∷ seen) objs ≡ ok none)
  unfolding check_created
  check_created_passed state seen obj objs h =
      let more : Bool → Result E (Option Rejection) = λ exists.
        if exists
        then ok (some creation_collision)
        else check_created backend state prior_indices (obj ∷ seen) objs in
      let found = already_created backend state prior_indices obj in
      let (fresh, h₁) = test_passed (has obj seen) duplicate_created (found >>= more) h in
      let (exists, e, h₂) = bind_ok found more none h₁ in
      let (absent, h₃) = test_passed exists creation_collision _ h₂ in
      (fresh, let e₁ : ok exists ≡ ok false = ap (λ b. ok b) absent in e ∙ e₁, h₃)

  -- Objects that pass the check are new, also against one another. `ys` are the objects there
  -- once those of `seen` are appended.
  pub check_created-Appendable :
      (state : WorkingState Arr Set) (xs ys seen objs : List Hash)
      → Sound state xs
      → ((h : Hash) → has h ys ≡ (has h xs || has h seen))
      → All (λ h. has h asked ≡ true) objs
      → check_created backend state prior_indices seen objs ≡ ok none
      → Appendable ys objs
  unfolding Appendable has
  check_created-Appendable state xs ys seen [] s e a h = tt
  check_created-Appendable state xs ys seen (obj ∷ objs) s e a h =
      let (fresh, absent, h₁) = check_created_passed state seen obj objs h in
      let new : has obj xs ≡ false = elim (Bool-cases (has obj xs)) [
        | inl t ↦ let k = already_created_known state xs obj s a.0 t in absurd (cc)
        | inr f ↦ f
      ] in
      (
        ground (arith, e obj),
        check_created-Appendable state xs (ys ++ obj ∷ []) (obj ∷ seen) objs s
            (λ h. ground (arith, e h, has_last h obj ys)) a.1 h₁,
      )
