-- ===== src/Synchronizer/Apply/Spending.antt =====
-- What the mutations of `apply_payload` do to the set of nullifiers.
use mathlib.Core.Path.{subst}
use digital_objects_network.Synchronizer.Containers.Laws.{Lawful}
use digital_objects_network.Synchronizer.Apply.{
  duplicate_in_nullifiers, duplicate_nullifier, Rejection, WorkingState, has, append_created,
  insert_nullifiers, check_nullifiers, apply_payload, Payload, as_i64, Rejection,
  duplicate_nullifier,
}
use digital_objects_network.Synchronizer.Containers.{HashMap, Backend, insert}
use digital_objects_network.Synchronizer.Apply.Created.{test_passed}
use digital_objects_network.Synchronizer.Apply.Inversion.{Accepted, apply_payload_applied}
use digital_objects_network.Prelude.{
  List, Hash, ◌≡◌, ◌⊎◌, ℕ, true, ◌∷◌, ok, ap, Bool-cases, ◌≢◌, inl, none, hash_eq, sym, [], inr,
  false, hash_eq_iff, ◌+◌, Bool, arith, Result, ◌%◌, Option, ◌^◌, ◌∙◌, bind_ok, if◌then◌else◌, some,
  ◌>>=◌,
}

module _ {Arr Set MerkleProof E : Type 0} (backend : Backend Arr Set MerkleProof E)
    (lawful : Lawful backend) where
  -- The set holds the nullifier.
  unfoldable pub IsSpent : Set → Hash → Type 0
  IsSpent set h = backend.contains set h ≡ ok true

  set_insert-IsSpent :
      (set after : Set) (v h : Hash)
      → IsSpent set h
      → backend.set_insert set v ≡ ok after
      → IsSpent after h
  unfolding IsSpent
  set_insert-IsSpent set after v h s e = elim (Bool-cases (hash_eq h v)) [
    | inl t ↦
        let k : h ≡ v = (hash_eq_iff h v).0 t in rw k (lawful.contains-set_insert set after v e)
    | inr f ↦
        let ne : h ≢ v = ground (arith, hash_eq_iff h v) in
        lawful.contains-set_insert_ne set after v h e ne ∙ s
  ]

  append_created_nullifiers :
      (state : WorkingState Arr Set) (objs : List Hash) (after : WorkingState Arr Set)
      → append_created backend state objs ≡ ok after
      → after.nullifiers ≡ state.nullifiers
  unfolding append_created
  append_created_nullifiers state [] after h =
      let e : after ≡ state = cc in ap (λ (w : WorkingState Arr Set). w.nullifiers) e
  append_created_nullifiers state (obj ∷ objs) after h =
      let next : Arr → WorkingState Arr Set = λ created. record state {
        created = created;
        created_added = insert obj (as_i64 state.created_count) state.created_added;
        created_count = (state.created_count + 1) % 2 ^ 64;
      } in
      let (created, e, h₁) =
        bind_ok (backend.array_insert state.created state.created_count obj)
          (λ created. append_created backend (next created) objs) after h in
      append_created_nullifiers (next created) objs after h₁

  IsSpent-or_left :
      (before set : Set) (nullifier : Hash) (nullifiers : List Hash) (h : Hash)
      → IsSpent before h ⊎ (has h (nullifier ∷ nullifiers) ≡ true)
      → backend.set_insert before nullifier ≡ ok set
      → IsSpent set h ⊎ (has h nullifiers ≡ true)
  unfolding has IsSpent
  IsSpent-or_left before set nullifier nullifiers h (inl s) e =
      inl (set_insert-IsSpent before set nullifier h s e)
  IsSpent-or_left before set nullifier nullifiers h (inr t) e =
      elim (Bool-cases (hash_eq nullifier h)) [
        | inl k ↦
            let k₁ : h ≡ nullifier = sym ((hash_eq_iff nullifier h).0 k) in
            inl (rw k₁ (lawful.contains-set_insert before set nullifier e))
        | inr k ↦ inr (ground arith)
      ]

  -- What is spent stays spent, and the nullifiers of the list are spent.
  insert_nullifiers-IsSpent :
      (state : WorkingState Arr Set) (nullifiers : List Hash) (after : WorkingState Arr Set)
      (h : Hash)
      → IsSpent state.nullifiers h ⊎ (has h nullifiers ≡ true)
      → insert_nullifiers backend state nullifiers ≡ ok after
      → IsSpent after.nullifiers h
  unfolding insert_nullifiers has
  insert_nullifiers-IsSpent state [] after h (inl s) e =
      let k : state ≡ after = cc in subst (λ (w : WorkingState Arr Set). IsSpent w.nullifiers h) k s
  insert_nullifiers-IsSpent state [] after h (inr t) e = cc
  insert_nullifiers-IsSpent state (nullifier ∷ nullifiers) after h which e =
      let next : Set → WorkingState Arr Set = λ set. record state {
        nullifiers = set;
        nullifier_count = (state.nullifier_count + 1) % 2 ^ 64;
      } in
      let (set, e₁, e₂) =
        bind_ok (backend.set_insert state.nullifiers nullifier)
          (λ set. insert_nullifiers backend (next set) nullifiers) after e in
      insert_nullifiers-IsSpent (next set) nullifiers after h
        (IsSpent-or_left state.nullifiers set nullifier nullifiers h which e₁) e₂

  check_nullifiers_unspent :
      (set : Set) (seen nullifiers : List Hash) (h : Hash)
      → check_nullifiers backend set seen nullifiers ≡ ok none
      → has h nullifiers ≡ true
      → backend.contains set h ≡ ok false
  unfolding check_nullifiers has
  check_nullifiers_unspent set seen [] h e k = cc
  check_nullifiers_unspent set seen (nullifier ∷ nullifiers) h e k =
      let more : Bool → Result E (Option Rejection) = λ spent.
        if spent
        then ok (some duplicate_nullifier)
        else check_nullifiers backend set (nullifier ∷ seen) nullifiers in
      let found = backend.contains set nullifier in
      let (fresh, e₁) =
        test_passed (has nullifier seen) duplicate_in_nullifiers (found >>= more) e in
      let (spent, e₂, e₃) = bind_ok found more none e₁ in
      let (absent, e₄) = test_passed spent duplicate_nullifier _ e₃ in
      elim (Bool-cases (hash_eq nullifier h)) [
        | inl t ↦
            let t₁ : h ≡ nullifier = sym ((hash_eq_iff nullifier h).0 t) in
            let absent₁ : ok spent ≡ ok false = ap (λ b. ok b) absent in rw t₁ (e₂ ∙ absent₁)
        | inr f ↦ check_nullifiers_unspent set (nullifier ∷ seen) nullifiers h e₄ (ground arith)
      ]

  -- Applying a payload spends its nullifiers, and leaves spent what was.
  pub apply_payload-IsSpent :
      {Proof : Type 0}
      → (state : WorkingState Arr Set) (payload : Payload Proof) (prior_indices : HashMap)
        (block_number : ℕ) (after : WorkingState Arr Set) (h : Hash)
      → IsSpent state.nullifiers h ⊎ (has h payload.nullifiers ≡ true)
      → apply_payload backend state payload prior_indices block_number ≡ ok (none, after)
      → IsSpent after.nullifiers h
  unfolding Accepted
  apply_payload-IsSpent state payload prior_indices block_number after h which e =
      let (grounded, created, nullifiers, (mid, appended, inserted)) =
        apply_payload_applied backend state payload prior_indices block_number after e in
      let same = append_created_nullifiers state payload.created mid appended in
      insert_nullifiers-IsSpent mid payload.nullifiers after h
        (subst (λ (set : Set). IsSpent set h ⊎ (has h payload.nullifiers ≡ true)) (sym same) which)
        inserted

  -- A payload with a spent nullifier is never applied.
  pub apply_payload_spent :
      {Proof : Type 0}
      → (state : WorkingState Arr Set) (payload : Payload Proof) (prior_indices : HashMap)
        (block_number : ℕ) (after : WorkingState Arr Set) (h : Hash)
      → IsSpent state.nullifiers h
      → has h payload.nullifiers ≡ true
      → apply_payload backend state payload prior_indices block_number ≢ ok (none, after)
  unfolding Accepted IsSpent
  apply_payload_spent state payload prior_indices block_number after h s k e =
      let (grounded, created, nullifiers, rest) =
        apply_payload_applied backend state payload prior_indices block_number after e in
      let k₁ = check_nullifiers_unspent state.nullifiers [] payload.nullifiers h nullifiers k in
      absurd (cc)
