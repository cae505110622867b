-- ===== src/Archiver/Examples.antt =====
-- The theorem on the archiver's answers at concrete data.
use digital_objects_network.Archiver.{
  StoredBlob, get_archived, find_blobs, find_blob, sort_hashes, insert_hash, dedup_after,
  sort_blobs, insert_blob,
}
use digital_objects_network.Archiver.Distinct.{has_repeat}
use digital_objects_network.Archiver.Repeats.{get_archived_repeat}
use digital_objects_network.Synchronizer.Blobs.{match_blobs, is_asked}
use digital_objects_network.Synchronizer.World.{Failure, is_node_error}
use digital_objects_network.Prelude.{List, [], ◌∷◌, some, err, ◌≡◌, true, false, refl}

-- The same blob in two transactions of a block: twice among the commitments, and asked for twice.
abbrev stored : List StoredBlob
stored =
    record { index = 0; versioned_hash = 7; blob = 1 ∷ [] }
    ∷ record { index = 1; versioned_hash = 7; blob = 1 ∷ [] }
    ∷ []

repeated : has_repeat (7 ∷ 7 ∷ []) ≡ true
unfolding has_repeat is_asked
repeated = refl

answered : get_archived stored (7 ∷ 7 ∷ []) ≡ some ((1 ∷ []) ∷ [])
unfolding get_archived find_blobs find_blob sort_hashes insert_hash dedup_after sort_blobs
    insert_blob
answered = refl

get_archived_repeat_example :
    (failure : Failure) × (match_blobs (7 ∷ 7 ∷ []) (7 ∷ 7 ∷ []) ((1 ∷ []) ∷ []) ≡ err failure)
    × (is_node_error failure ≡ false)
get_archived_repeat_example =
    get_archived_repeat stored (7 ∷ 7 ∷ []) (7 ∷ 7 ∷ []) ((1 ∷ []) ∷ []) repeated answered
