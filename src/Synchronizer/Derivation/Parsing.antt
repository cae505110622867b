-- ===== src/Synchronizer/Derivation/Parsing.antt =====
-- The blobs of a slot from their versioned hashes to what `parse_blobs` of
-- services/synchronizer/src/state_machine.rs keeps of them.
use digital_objects_network.Payload.Blob.{BlobError, decode_simple_blob}
use digital_objects_network.Payload.Format.{
  Payload, Verdict, verified, foreign, unverified, panicked,
}
use digital_objects_network.Synchronizer.Blobs.{
  BlobMap, TargetBlobTx, blob_at, position_of, decoded, decode_blobs, decode_txs,
}
use digital_objects_network.Synchronizer.World.{Failure}
use digital_objects_network.Synchronizer.Derivation.{
  BlobStatus, SkipReason, TargetTx, and_then, judged, parse_one, parse_each, parse_tx, parse_blobs,
}
use digital_objects_network.Prelude.{
  Option, List, none, some, ℕ, ◌≡◌, ◌∷◌, [], refl, Result, ok, err, ◌⊎◌, inl, inr, bind_ok, ◌%◌,
  ◌^◌, sym,
}

module _ {Proof : Type 0} (parse : List ℕ → Verdict Proof) (commitments : List ℕ)
    (blobs : BlobMap) where
  -- The blob of a hash decodes and its proof verifies: it is kept with its position in the block and
  -- its `tx_final` is noted.
  abbrev pub IsKept : ℕ → Option (ℕ × Payload Proof) → BlobStatus → Type 0
  IsKept vh kept status =
      (i : ℕ) × (blob : List ℕ) × (bytes : List ℕ) × (payload : Payload Proof) × (position_of vh
          commitments
        ≡ ok i)
      × (blob_at vh blobs ≡ ok blob)
      × (decode_simple_blob blob ≡ ok bytes)
      × (parse bytes ≡ verified payload)
      × (kept ≡ some (i % 2 ^ 32, payload))
      × (status ≡ record { tx_final = some payload.tx_final; error = none })

  -- The blob of a hash does not decode or its proof does not verify: nothing is kept and an error is noted.
  abbrev pub IsDropped : ℕ → Option (ℕ × Payload Proof) → BlobStatus → Type 0
  IsDropped vh kept status =
      (blob : List ℕ) × (e : SkipReason) × (blob_at vh blobs ≡ ok blob)
      × ((bytes : List ℕ)
          → decode_simple_blob blob ≡ ok bytes
          → (parse bytes ≡ foreign) ⊎ (parse bytes ≡ unverified))
      × (kept ≡ none)
      × (status ≡ record { tx_final = none; error = some e })

  abbrev pub Panics : ℕ → Type 0
  Panics vh =
      (blob : List ℕ) × (bytes : List ℕ) × (blob_at vh blobs ≡ ok blob)
      × (decode_simple_blob blob ≡ ok bytes)
      × (parse bytes ≡ panicked)

  -- One entry and one status for each hash, in order.
  abbrev pub AreJudged : List ℕ → List (Option (ℕ × Payload Proof)) → List BlobStatus → Type 0
  AreJudged [] [] [] = Unit {0}
  AreJudged (vh ∷ vhs) (kept ∷ rest) (status ∷ statuses) =
      (IsKept vh kept status ⊎ IsDropped vh kept status) × AreJudged vhs rest statuses
  AreJudged _ _ _ = ⊥

  abbrev pub AreParsed : List TargetBlobTx → List (TargetTx (Payload Proof)) → Type 0
  AreParsed [] [] = Unit {0}
  AreParsed (tx ∷ txs) (parsed ∷ rest) =
      (parsed.status.tx_hash ≡ tx.tx_hash)
      × AreJudged tx.versioned_hashes parsed.blobs parsed.status.blobs
      × AreParsed txs rest
  AreParsed _ _ = ⊥

  abbrev pub AnyPanics : List ℕ → Type 0
  AnyPanics [] = ⊥
  AnyPanics (vh ∷ vhs) = Panics vh ⊎ AnyPanics vhs

  abbrev pub AnyTxPanics : List TargetBlobTx → Type 0
  AnyTxPanics [] = ⊥
  AnyTxPanics (tx ∷ txs) = AnyPanics tx.versioned_hashes ⊎ AnyTxPanics txs

  module _ (vh i : ℕ) (blob : List ℕ) (at : position_of vh commitments ≡ ok i)
      (found : blob_at vh blobs ≡ ok blob) where
    abbrev Outcome : Option (Option (ℕ × Payload Proof) × BlobStatus) → Type 0
    Outcome parsed =
        ((one : Option (ℕ × Payload Proof) × BlobStatus) × (parsed ≡ some one)
          × (IsKept vh one.0 one.1 ⊎ IsDropped vh one.0 one.1))
        ⊎ ((parsed ≡ none) × Panics vh)

    judged-Outcome :
        (bytes : List ℕ) (v : Verdict Proof)
        → decode_simple_blob blob ≡ ok bytes
        → parse bytes ≡ v
        → Outcome (judged (i % 2 ^ 32) (record { tx_final = none; error = none }) v)
    judged-Outcome bytes (verified payload) d p =
        inl (_, refl, inl (i, blob, bytes, payload, at, found, d, p, refl, refl))
    judged-Outcome bytes foreign d p =
        inl (_, refl, inr (blob, _, found, (λ bytes₁ d₁. inl cc), refl, refl))
    judged-Outcome bytes unverified d p =
        inl (_, refl, inr (blob, _, found, (λ bytes₁ d₁. inr cc), refl, refl))
    judged-Outcome bytes panicked d p = inr (refl, (blob, bytes, found, d, p))

    decoded-Outcome :
        (r : Result BlobError (List ℕ))
        → decode_simple_blob blob ≡ r
        → Outcome (parse_one parse (decoded i r).0 (decoded i r).1)
    decoded-Outcome (ok bytes) d = judged-Outcome bytes (parse bytes) d refl
    decoded-Outcome (err e) d =
        inl (_, refl, inr (blob, _, found, (λ bytes d₁. absurd (cc)), refl, refl))

  abbrev EachOutcome :
      List ℕ → Option (List (Option (ℕ × Payload Proof)) × List BlobStatus) → Type 0
  EachOutcome vhs parsed =
      ((all : List (Option (ℕ × Payload Proof)) × List BlobStatus) × (parsed ≡ some all)
        × AreJudged vhs all.0 all.1)
      ⊎ ((parsed ≡ none) × AnyPanics vhs)

  judged_then :
      (vh i : ℕ) (vhs blob : List ℕ) (at : position_of vh commitments ≡ ok i)
      (found : blob_at vh blobs ≡ ok blob) (one : Option (Option (ℕ × Payload Proof) × BlobStatus))
      (rest : Option (List (Option (ℕ × Payload Proof)) × List BlobStatus))
      → Outcome vh i blob at found one
      → EachOutcome vhs rest
      → EachOutcome
          (vh ∷ vhs)
          (and_then one λ one. and_then rest λ rest. some (one.0 ∷ rest.0, one.1 ∷ rest.1))
  judged_then vh i vhs blob at found one rest (inl (x, e, j)) (inl (xs, e₁, js)) =
      rw (e, e₁) (inl ((x.0 ∷ xs.0, x.1 ∷ xs.1), refl, (j, js)))
  judged_then vh i vhs blob at found one rest (inl (x, e, j)) (inr (e₁, p)) =
      rw (e, e₁) (inr (refl, inr p))
  judged_then vh i vhs blob at found one rest (inr (e, p)) k = rw e (inr (refl, inl p))

  joined :
      (vh i : ℕ) (vhs blob : List ℕ) (at : position_of vh commitments ≡ ok i)
      (found : blob_at vh blobs ≡ ok blob)
      (rest parts : List (Option (ℕ × List ℕ)) × List BlobStatus)
      → ◌≡◌ {A = Result Failure (List (Option (ℕ × List ℕ)) × List BlobStatus)}
          (ok (
            (decoded i (decode_simple_blob blob)).0 ∷ rest.0,
            (decoded i (decode_simple_blob blob)).1 ∷ rest.1,
          ))
          (ok parts)
      → EachOutcome vhs (parse_each parse rest.0 rest.1)
      → EachOutcome (vh ∷ vhs) (parse_each parse parts.0 parts.1)
  unfolding parse_each
  joined vh i vhs blob at found rest parts h k =
      let one = decoded i (decode_simple_blob blob) in
      let e : (one.0 ∷ rest.0, one.1 ∷ rest.1) ≡ parts = cc in
      rw (sym e) (
        judged_then vh i vhs blob at found (parse_one parse one.0 one.1)
          (parse_each parse rest.0 rest.1)
          (decoded-Outcome vh i blob at found (decode_simple_blob blob) refl) k)

  decode_blobs-Outcome :
      (vhs : List ℕ) (parts : List (Option (ℕ × List ℕ)) × List BlobStatus)
      → decode_blobs commitments blobs vhs ≡ ok parts
      → EachOutcome vhs (parse_each parse parts.0 parts.1)
  unfolding decode_blobs parse_each
  decode_blobs-Outcome [] parts h =
      let e : ([], []) ≡ parts = cc in rw (sym e) (inl (([], []), refl, tt))
  decode_blobs-Outcome (vh ∷ vhs) parts h =
      let (i, at, h₁) = bind_ok (position_of vh commitments) _ parts h in
      let (blob, found, h₂) = bind_ok (blob_at vh blobs) _ parts h₁ in
      let (rest, more, h₃) = bind_ok (decode_blobs commitments blobs vhs) _ parts h₂ in
      joined vh i vhs blob at found rest parts h₃ (decode_blobs-Outcome vhs rest more)

  abbrev TxsOutcome : List TargetBlobTx → Option (List (TargetTx (Payload Proof))) → Type 0
  TxsOutcome txs parsed =
      ((all : List (TargetTx (Payload Proof))) × (parsed ≡ some all) × AreParsed txs all)
      ⊎ ((parsed ≡ none) × AnyTxPanics txs)

  parsed_then :
      (tx : TargetBlobTx) (txs : List TargetBlobTx)
      (parts : List (Option (ℕ × List ℕ)) × List BlobStatus) (target : TargetTx (List ℕ))
      (rest : List (TargetTx (List ℕ)))
      → record { blobs = parts.0; status = record { tx_hash = tx.tx_hash; blobs = parts.1 } }
        ≡ target
      → EachOutcome tx.versioned_hashes (parse_each parse parts.0 parts.1)
      → TxsOutcome txs (parse_blobs parse rest)
      → TxsOutcome (tx ∷ txs) (parse_blobs parse (target ∷ rest))
  unfolding parse_tx parse_blobs
  parsed_then tx txs parts target rest e (inl (all, e₁, j)) (inl (more, e₂, js)) =
      rw (sym e, e₁, e₂) (inl (_, refl, (refl, j, js)))
  parsed_then tx txs parts target rest e (inl (all, e₁, j)) (inr (e₂, p)) =
      rw (sym e, e₁, e₂) (inr (refl, inr p))
  parsed_then tx txs parts target rest e (inr (e₁, p)) k = rw (sym e, e₁) (inr (refl, inl p))

  -- Of each versioned hash of the target transactions, in order, parsing keeps the payload of its
  -- blob, with the blob's position in the block, and notes `tx_final` when the blob decodes and its
  -- proof verifies; when the blob does not decode or the parser refuses it, it keeps nothing and
  -- notes an error. Or else the parser panics on one of these blobs and nothing of the slot is parsed.
  pub parse_blobs-decode_txs :
      (txs : List TargetBlobTx) (targets : List (TargetTx (List ℕ)))
      → decode_txs commitments blobs txs ≡ ok targets
      → ((parsed : List (TargetTx (Payload Proof))) × (parse_blobs parse targets ≡ some parsed)
          × AreParsed txs parsed)
        ⊎ ((parse_blobs parse targets ≡ none) × AnyTxPanics txs)
  unfolding decode_txs parse_blobs
  parse_blobs-decode_txs [] targets h = let e : [] ≡ targets = cc in rw (sym e) (inl ([], refl, tt))
  parse_blobs-decode_txs (tx ∷ txs) targets h =
      let (parts, one, h₁) =
        bind_ok (decode_blobs commitments blobs tx.versioned_hashes) _ targets h in
      let (rest, more, h₂) = bind_ok (decode_txs commitments blobs txs) _ targets h₁ in
      let target : TargetTx (List ℕ) = record {
        blobs = parts.0;
        status = record { tx_hash = tx.tx_hash; blobs = parts.1 };
      } in
      let e : target ∷ rest ≡ targets = cc in
      rw (sym e) (
        parsed_then tx txs parts target rest refl
          (decode_blobs-Outcome tx.versioned_hashes parts one)
          (parse_blobs-decode_txs txs rest more))
