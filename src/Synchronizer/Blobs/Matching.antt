-- ===== src/Synchronizer/Blobs/Matching.antt =====
-- Which blob `get_blobs` gives to a versioned hash, and when its `expect` panics.
use digital_objects_network.Synchronizer.Blobs.{
  BlobMap, blob_at, is_asked, assign_blobs, match_blobs,
}
use digital_objects_network.Synchronizer.World.{panicked}
use digital_objects_network.Prelude.{
  ℕ, List, [], ◌∷◌, ok, err, ◌≡◌, ◌<◌, true, false, if◌then◌else◌, length, ◌⊎◌, inl, inr, suc, refl,
  ◌==◌, Bool-cases, arith, ◌>>=◌, ap,
}

-- How many of the block's commitments were asked for, repetitions included.
unfoldable pub occurrences : List ℕ → List ℕ → ℕ
occurrences asked [] = 0
occurrences asked (vh ∷ vhs) =
    let rest = occurrences asked vhs in if is_asked vh asked then suc rest else rest

-- The blobs of the commitments that were asked for, in the block's order.
unfoldable pub served : (ℕ → List ℕ) → List ℕ → List ℕ → List (List ℕ)
served blob_of asked [] = []
served blob_of asked (vh ∷ vhs) =
    let rest = served blob_of asked vhs in if is_asked vh asked then blob_of vh ∷ rest else rest

assign_blobs_panics :
    (asked commitments : List ℕ) (blobs : List (List ℕ)) (blob_map : BlobMap)
    → length blobs < occurrences asked commitments
    → assign_blobs asked commitments blobs blob_map ≡ err panicked
unfolding occurrences assign_blobs
assign_blobs_panics asked [] blobs blob_map l = absurd (omega arith)
assign_blobs_panics asked (vh ∷ vhs) [] blob_map l = elim (Bool-cases (is_asked vh asked)) [
  | inl t ↦ rw t refl
  | inr f ↦ rw f (assign_blobs_panics asked vhs [] blob_map (rw f at l))
]
assign_blobs_panics asked (vh ∷ vhs) (blob ∷ blobs) blob_map l =
    elim (Bool-cases (is_asked vh asked)) [
      | inl t ↦
          let l₁ : suc (length blobs) < suc (occurrences asked vhs) = rw t at l in
          rw t (assign_blobs_panics asked vhs blobs ((vh, blob) ∷ blob_map) (omega arith))
      | inr f ↦ rw f (assign_blobs_panics asked vhs (blob ∷ blobs) blob_map (rw f at l))
    ]

-- When a block has more commitments among the versioned hashes asked for than hashes were asked
-- for, as it has when a transaction to another address carries the same blob, `get_blobs` panics on
-- an answer with one blob for each hash.
pub match_blobs_panics :
    (commitments asked : List ℕ) (blobs : List (List ℕ))
    → length blobs ≡ length asked
    → length asked < occurrences asked commitments
    → match_blobs commitments asked blobs ≡ err panicked
unfolding match_blobs
match_blobs_panics commitments asked blobs e l =
    let same : (length blobs == length asked) ≡ true = ground arith in
    rw same (assign_blobs_panics asked commitments blobs [] (omega arith))

entered :
    (blob_of : ℕ → List ℕ) (c vh : ℕ) (cs : List ℕ) (blob_map : BlobMap)
    → (is_asked vh (c ∷ cs) ≡ true) ⊎ (blob_at vh blob_map ≡ ok (blob_of vh))
    → (is_asked vh cs ≡ true) ⊎ (blob_at vh ((c, blob_of c) ∷ blob_map) ≡ ok (blob_of vh))
unfolding blob_at is_asked
entered blob_of c vh cs blob_map k = elim (Bool-cases (c == vh)) [
  | inl t ↦ let e : c ≡ vh = ground arith in inr (rw t (ap (λ v. ok (blob_of v)) e))
  | inr f ↦ elim k [ inl k₁ ↦ inl (rw f at k₁) | inr k₂ ↦ inr (rw f k₂) ]
]

passed_over :
    (asked : List ℕ) (c vh : ℕ) (cs : List ℕ)
    → is_asked c asked ≡ false
    → is_asked vh asked ≡ true
    → is_asked vh (c ∷ cs) ≡ true
    → is_asked vh cs ≡ true
unfolding is_asked
passed_over asked c vh cs f a k = elim (Bool-cases (c == vh)) [
  | inl t ↦
      let e : c ≡ vh = ground arith in let f₁ : is_asked vh asked ≡ false = rw e at f in absurd (cc)
  | inr n ↦ rw n at k
]

assign_blobs-served :
    (blob_of : ℕ → List ℕ) (asked commitments : List ℕ) (blob_map : BlobMap) (vh : ℕ)
    → is_asked vh asked ≡ true
    → (is_asked vh commitments ≡ true) ⊎ (blob_at vh blob_map ≡ ok (blob_of vh))
    → (assign_blobs asked commitments (served blob_of asked commitments) blob_map >>= blob_at vh)
      ≡ ok (blob_of vh)
unfolding assign_blobs served blob_at is_asked
assign_blobs-served blob_of asked [] blob_map vh a (inl k) = cc
assign_blobs-served blob_of asked [] blob_map vh a (inr k) = k
assign_blobs-served blob_of asked (c ∷ cs) blob_map vh a k = elim (Bool-cases (is_asked c asked)) [
  | inl t ↦ rw t (
      assign_blobs-served blob_of asked cs ((c, blob_of c) ∷ blob_map) vh a
        (entered blob_of c vh cs blob_map k))
  | inr f ↦
      let k₁ : (is_asked vh cs ≡ true) ⊎ (blob_at vh blob_map ≡ ok (blob_of vh)) = elim k [
        | inl k₁ ↦ inl (passed_over asked c vh cs f a k₁)
        | inr k₂ ↦ inr k₂
      ] in
      rw f (assign_blobs-served blob_of asked cs blob_map vh a k₁)
]

-- When the archiver serves the blob of each commitment that was asked for, in the block's order, and
-- as many as were asked for, then `get_blobs` gives every versioned hash that was asked for and is
-- among the block's commitments its own blob.
pub match_blobs-blob_at :
    (blob_of : ℕ → List ℕ) (commitments asked : List ℕ) (vh : ℕ)
    → is_asked vh asked ≡ true
    → is_asked vh commitments ≡ true
    → length (served blob_of asked commitments) ≡ length asked
    → (match_blobs commitments asked (served blob_of asked commitments) >>= blob_at vh)
      ≡ ok (blob_of vh)
unfolding match_blobs
match_blobs-blob_at blob_of commitments asked vh a c e =
    let same : (length (served blob_of asked commitments) == length asked) ≡ true = ground arith in
    rw same (assign_blobs-served blob_of asked commitments [] vh a (inl c))
