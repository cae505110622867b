-- ===== src/Synchronizer/Examples/Blobs.antt =====
-- The theorems on the blobs of a slot at concrete data.
use digital_objects_network.Synchronizer.Blobs.{blob_at, is_asked, match_blobs}
use digital_objects_network.Synchronizer.Blobs.Matching.{
  match_blobs_panics, match_blobs-blob_at, occurrences, served,
}
use digital_objects_network.Synchronizer.World.{panicked}
use digital_objects_network.Payload.Blob.{BlobError, encode_simple_blob, decode_simple_blob}
use digital_objects_network.Payload.Blob.RoundTrip.{decode-encode}
use digital_objects_network.Payload.Format.{Payload, Verdict, verified}
use digital_objects_network.Synchronizer.Blobs.{
  BlobMap, TargetBlobTx, decode_txs, decode_blobs, position_of,
}
use digital_objects_network.Synchronizer.Derivation.{TargetTx, parse_blobs}
use digital_objects_network.Synchronizer.Derivation.Parsing.{
  parse_blobs-decode_txs, AreParsed, AnyTxPanics,
}
use digital_objects_network.Synchronizer.Examples.{hash_one, hash_two}
use digital_objects_network.Prelude.{
  Result, some, none, ◌⊎◌, ℕ, List, [], ◌∷◌, ok, err, ◌≡◌, ◌<◌, true, refl, length, arith, ◌>>=◌,
}

-- Two transactions carry blob 7, one of them to the target address.
twice : 1 < occurrences (7 ∷ []) (7 ∷ 7 ∷ [])
unfolding occurrences is_asked
twice = omega arith

match_blobs_panics_example : match_blobs (7 ∷ 7 ∷ []) (7 ∷ []) ((1 ∷ []) ∷ []) ≡ err panicked
match_blobs_panics_example = match_blobs_panics (7 ∷ 7 ∷ []) (7 ∷ []) ((1 ∷ []) ∷ []) refl twice

-- The blob of a hash is the hash itself.
abbrev blob_of : ℕ → List ℕ
blob_of vh = vh ∷ []

asked_eight : is_asked 8 (8 ∷ 6 ∷ []) ≡ true
unfolding is_asked
asked_eight = refl

committed_eight : is_asked 8 (6 ∷ 7 ∷ 8 ∷ []) ≡ true
unfolding is_asked
committed_eight = refl

two_served : length (served blob_of (8 ∷ 6 ∷ []) (6 ∷ 7 ∷ 8 ∷ [])) ≡ 2
unfolding served is_asked
two_served = refl

match_blobs-blob_at_example :
    (match_blobs (6 ∷ 7 ∷ 8 ∷ []) (8 ∷ 6 ∷ []) (served blob_of (8 ∷ 6 ∷ []) (6 ∷ 7 ∷ 8 ∷ []))
      >>= blob_at 8)
    ≡ ok (8 ∷ [])
match_blobs-blob_at_example =
    match_blobs-blob_at blob_of (6 ∷ 7 ∷ 8 ∷ []) (8 ∷ 6 ∷ []) 8 asked_eight committed_eight
      two_served

abbrev encoded : Result BlobError (List ℕ) → List ℕ
encoded (ok blob) = blob
encoded (err e) = []

encoded-decodes :
    (r : Result BlobError (List ℕ)) (bytes : List ℕ)
    → (r >>= decode_simple_blob) ≡ ok bytes
    → decode_simple_blob (encoded r) ≡ ok bytes
encoded-decodes (ok blob) bytes h = h
encoded-decodes (err e) bytes h = absurd (cc)

abbrev two_bytes : List ℕ
two_bytes = 7 ∷ 8 ∷ []

two_bytes_decoded : decode_simple_blob (encoded (encode_simple_blob two_bytes)) ≡ ok two_bytes
two_bytes_decoded =
    encoded-decodes (encode_simple_blob two_bytes) two_bytes (decode-encode two_bytes (omega arith))

-- The blob of a transaction, second of its block.
abbrev one_blob : BlobMap
one_blob = (7, encoded (encode_simple_blob two_bytes)) ∷ []

abbrev one_tx : List TargetBlobTx
one_tx = record { tx_hash = 1; versioned_hashes = 7 ∷ [] } ∷ []

abbrev one_target : List (TargetTx (List ℕ))
one_target =
    record {
      blobs = some (1, two_bytes) ∷ [];
      status = record { tx_hash = 1; blobs = record { tx_final = none; error = none } ∷ [] };
    }
    ∷ []

one_tx_decoded : decode_txs (6 ∷ 7 ∷ []) one_blob one_tx ≡ ok one_target
unfolding decode_txs decode_blobs position_of blob_at
one_tx_decoded = rw two_bytes_decoded refl

-- A parser that takes any bytes for the proof.
abbrev parse_any : List ℕ → Verdict (List ℕ)
parse_any bytes = verified (record {
  proof = bytes;
  tx_final = hash_one;
  state_root = hash_two;
  nullifiers = [];
  created = [];
})

parse_blobs-decode_txs_example :
    ((parsed : List (TargetTx (Payload (List ℕ)))) × (parse_blobs parse_any one_target
        ≡ some parsed)
      × AreParsed parse_any (6 ∷ 7 ∷ []) one_blob one_tx parsed)
    ⊎ ((parse_blobs parse_any one_target ≡ none)
        × AnyTxPanics parse_any (6 ∷ 7 ∷ []) one_blob one_tx)
parse_blobs-decode_txs_example =
    parse_blobs-decode_txs parse_any (6 ∷ 7 ∷ []) one_blob one_tx one_target one_tx_decoded
