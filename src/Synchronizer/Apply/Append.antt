-- ===== src/Synchronizer/Apply/Append.antt =====
-- What the mutations of `apply_payload` do to the created array.
use mathlib.Core.Path.{subst}
use digital_objects_network.Synchronizer.Containers.Laws.{
  Lawful, array_insert-Represents, get_elem?-append_some,
}
use digital_objects_network.Synchronizer.Apply.{
  WorkingState, has, append_created, insert_nullifiers, apply_payload, as_i64, Payload,
}
use digital_objects_network.Synchronizer.Containers.{HashMap, Backend, lookup, insert}
use digital_objects_network.Synchronizer.Apply.Distinct.{Appendable, has_last, NoDup-last}
use digital_objects_network.Synchronizer.Apply.Created.{Known, Sound, check_created-Appendable}
use digital_objects_network.Synchronizer.Apply.Inversion.{Accepted, apply_payload_applied}
use digital_objects_network.Prelude.{
  List, Hash, ◌++◌, ◌≡◌, ℕ, ◌∷◌, false, ◌+◌, ok, [], All, ◌%◌, ◌<◌, true, ◌^◌, Bool-cases, arith,
  hash_eq, append-nil, none, bind_ok, inl, length-append, append_assoc, inr, refl,
}
use digital_objects_network.Prelude.Int.{as_u64}
use digital_objects_network.Synchronizer.Apply.Additions.{Added-insert}

module _ {Arr Set MerkleProof E : Type 0} (backend : Backend Arr Set MerkleProof E)
    (lawful : Lawful backend) (prior_indices : HashMap) (asked base : List Hash) where
  added : WorkingState Arr Set → Arr → Hash → WorkingState Arr Set
  added state created obj = record state {
    created = created;
    created_added = insert obj (as_i64 state.created_count) state.created_added;
    created_count = (state.created_count + 1) % 2 ^ 64;
  }

  added-Known :
      (state : WorkingState Arr Set) (created : Arr) (obj : Hash) (xs : List Hash)
      → Known backend prior_indices asked base state xs
      → Known backend prior_indices asked base (added state created obj) (xs ++ obj ∷ [])
  unfolding Known added lookup
  added-Known state created obj xs k h a e = elim (Bool-cases (hash_eq obj h)) [
    | inl t ↦ inl (rw t refl)
    | inr f ↦
        let old : has h xs ≡ true = ground (arith, has_last h obj xs) in
        elim (k h a old) [
          | inl found ↦ inl (rw f found)
          | inr (index, e₁, at) ↦
              inr (index, e₁, get_elem?-append_some xs (obj ∷ []) (as_u64 index) h at)
        ]
  ]

  added-Sound :
      (state : WorkingState Arr Set) (created : Arr) (obj : Hash) (xs : List Hash)
      → Sound backend prior_indices asked base state xs
      → has obj xs ≡ false
      → backend.array_insert state.created state.created_count obj ≡ ok created
      → Sound backend prior_indices asked base (added state created obj) (xs ++ obj ∷ [])
  unfolding Sound added
  added-Sound state created obj xs s fresh e =
      let room : state.created_count + 1 < 2 ^ 64 =
        lawful.array_insert_bounded state.created created state.created_count obj e in
      (
        array_insert-Represents backend lawful state.created created xs obj s.0 (rw s.1 e),
        omega (arith, length-append xs (obj ∷ []), s.1),
        NoDup-last obj xs s.2 fresh,
        added-Known state created obj xs s.3,
        Added-insert base state.created_added xs obj state.created_count s.4 fresh s.1
            (omega (arith, s.1)),
      )

  append_created-Sound :
      (state : WorkingState Arr Set) (xs objs : List Hash) (after : WorkingState Arr Set)
      → Sound backend prior_indices asked base state xs
      → Appendable xs objs
      → append_created backend state objs ≡ ok after
      → Sound backend prior_indices asked base after (xs ++ objs)
  unfolding Appendable append_created added
  append_created-Sound state xs [] after s a h =
      let e : state ≡ after = cc in
      rw (append-nil xs) (subst (λ w. Sound backend prior_indices asked base w xs) e s)
  append_created-Sound state xs (obj ∷ objs) after s a h =
      let (created, e, h₁) =
        bind_ok (backend.array_insert state.created state.created_count obj)
          (λ created. append_created backend (added state created obj) objs) after h in
      let s₁ = added-Sound state created obj xs s a.0 e in
      subst (λ l. Sound backend prior_indices asked base after l) (append_assoc xs (obj ∷ []) objs)
        (append_created-Sound (added state created obj) (xs ++ obj ∷ []) objs after s₁ a.1 h₁)

  -- Spending nullifiers leaves what concerns the created objects.
  insert_nullifiers-Sound :
      (state : WorkingState Arr Set) (xs nullifiers : List Hash) (after : WorkingState Arr Set)
      → Sound backend prior_indices asked base state xs
      → insert_nullifiers backend state nullifiers ≡ ok after
      → Sound backend prior_indices asked base after xs
  unfolding insert_nullifiers Sound Known
  insert_nullifiers-Sound state xs [] after s h =
      let e : state ≡ after = cc in subst (λ w. Sound backend prior_indices asked base w xs) e s
  insert_nullifiers-Sound state xs (nullifier ∷ nullifiers) after s h =
      let spent : Set → WorkingState Arr Set = λ set. record state {
        nullifiers = set;
        nullifier_count = (state.nullifier_count + 1) % 2 ^ 64;
      } in
      let (set, e, h₁) =
        bind_ok (backend.set_insert state.nullifiers nullifier)
          (λ set. insert_nullifiers backend (spent set) nullifiers) after h in
      insert_nullifiers-Sound (spent set) xs nullifiers after s h₁

  -- A payload that is applied to a slot in progress appends exactly its objects to the created
  -- array, none of which was there before or occurs twice: the array holds the objects so far
  -- followed by the payload's, the count is their number, and the collision check finds each of
  -- them from then on. The containers are lawful, and the prior indices cover the objects that
  -- payloads of the slot may create.
  pub apply_payload-Sound :
      {Proof : Type 0}
      → (state : WorkingState Arr Set) (payload : Payload Proof) (block_number : ℕ) (xs : List Hash)
        (after : WorkingState Arr Set)
      → Sound backend prior_indices asked base state xs
      → All (λ h. has h asked ≡ true) payload.created
      → apply_payload backend state payload prior_indices block_number ≡ ok (none, after)
      → Sound backend prior_indices asked base after (xs ++ payload.created)
  unfolding has Accepted
  apply_payload-Sound state payload block_number xs after s a h =
      let (grounded, created, nullifiers, (mid, appended, inserted)) =
        apply_payload_applied backend state payload prior_indices block_number after h in
      let new =
        check_created-Appendable backend prior_indices asked base state xs xs [] payload.created s
          (λ h. ground arith) a created in
      insert_nullifiers-Sound mid (xs ++ payload.created) payload.nullifiers after
        (append_created-Sound state xs payload.created mid s new appended) inserted
