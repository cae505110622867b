-- ===== src/Archiver/Repeats.antt =====
-- What the synchronizer makes of the archiver's answer when a versioned hash is asked for twice.
use digital_objects_network.Archiver.{
  StoredBlob, sort_hashes, insert_blob, sort_blobs, dedup, find_blob, and_blobs, find_blobs,
  respond, get_archived,
}
use digital_objects_network.Archiver.Distinct.{has_repeat, distinct, distinct_lt}
use digital_objects_network.Synchronizer.Blobs.{match_blobs}
use digital_objects_network.Synchronizer.World.{Failure, wrong_blob_count, is_node_error}
use digital_objects_network.Prelude.{
  ℕ, suc, List, [], ◌∷◌, Option, none, some, err, ◌≡◌, true, false, length, refl, ap, ◌∙◌, leb,
  ◌==◌, Bool-cases, inl, inr, arith, map,
}

length-insert_blob :
    (b : StoredBlob) (bs : List StoredBlob) → length (insert_blob b bs) ≡ suc (length bs)
unfolding insert_blob
length-insert_blob b [] = refl
length-insert_blob b (c ∷ cs) = elim (Bool-cases (leb b.index c.index)) [
  | inl t ↦ rw t refl
  | inr f ↦ rw f (ap suc (length-insert_blob b cs))
]

length-sort_blobs : (bs : List StoredBlob) → length (sort_blobs bs) ≡ length bs
unfolding sort_blobs
length-sort_blobs [] = refl
length-sort_blobs (b ∷ bs) = length-insert_blob b (sort_blobs bs) ∙ ap suc (length-sort_blobs bs)

length-blobs : (bs : List StoredBlob) → length (map (λ (b : StoredBlob). b.blob) bs) ≡ length bs
length-blobs [] = refl
length-blobs (b ∷ bs) = ap suc (length-blobs bs)

and_blobs-some :
    (o : Option StoredBlob) (rest : Option (List StoredBlob)) (found : List StoredBlob)
    → and_blobs o rest ≡ some found
    → (bs : List StoredBlob) × (rest ≡ some bs) × (length found ≡ suc (length bs))
and_blobs-some none rest found h = cc
and_blobs-some (some b) none found h = cc
and_blobs-some (some b) (some bs) found h = let e : found ≡ b ∷ bs = cc in (bs, refl, rw e refl)

length-find_blobs :
    (stored : List StoredBlob) (vhs : List ℕ) (found : List StoredBlob)
    → find_blobs stored vhs ≡ some found
    → length found ≡ length vhs
unfolding find_blobs
length-find_blobs stored [] found h = let e : found ≡ [] = cc in rw e refl
length-find_blobs stored (vh ∷ vhs) found h =
    let (bs, e, l) = and_blobs-some (find_blob vh stored) (find_blobs stored vhs) found h in
    l ∙ ap suc (length-find_blobs stored vhs bs e)

respond-some :
    (o : Option (List StoredBlob)) (blobs : List (List ℕ))
    → respond o ≡ some blobs
    → (found : List StoredBlob) × (o ≡ some found) × (length blobs ≡ length found)
respond-some none blobs h = cc
respond-some (some found) blobs h =
    let e : blobs ≡ map (λ (b : StoredBlob). b.blob) (sort_blobs found) = cc in
    (found, refl, rw e (length-blobs (sort_blobs found) ∙ length-sort_blobs found))

length-get_archived :
    (stored : List StoredBlob) (vhs : List ℕ) (blobs : List (List ℕ))
    → get_archived stored vhs ≡ some blobs
    → length blobs ≡ distinct vhs
unfolding get_archived distinct
length-get_archived stored vhs blobs h =
    let (found, e, l) = respond-some (find_blobs stored (dedup (sort_hashes vhs))) blobs h in
    l ∙ length-find_blobs stored (dedup (sort_hashes vhs)) found e

-- When the transactions of a slot to the target address carry the same blob twice, the archiver's
-- answer has too few blobs, and `get_blobs` fails with an error that is no node's, so that the
-- synchronizer stops instead of asking again.
pub get_archived_repeat :
    (stored : List StoredBlob) (commitments asked : List ℕ) (blobs : List (List ℕ))
    → has_repeat asked ≡ true
    → get_archived stored asked ≡ some blobs
    → (failure : Failure) × (match_blobs commitments asked blobs ≡ err failure)
      × (is_node_error failure ≡ false)
unfolding match_blobs
get_archived_repeat stored commitments asked blobs r h =
    let few = length-get_archived stored asked blobs h in
    let l = distinct_lt asked r in
    let differ : (length blobs == length asked) ≡ false = ground arith in
    (wrong_blob_count (length asked) (length blobs), rw differ refl, refl)
