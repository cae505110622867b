-- ===== src/Archiver.antt =====
-- services/archiver/src/api.rs: the endpoint that serves the blobs of a block. The blobs stored for the
-- block are a parameter, with the index and the versioned hash of each, in the order of their indices.
pub mod Distinct
pub mod Repeats
mod Examples
use digital_objects_network.Prelude.{
  ℕ, List, [], ◌∷◌, Option, none, some, if◌then◌else◌, ◌==◌, leb, map,
}

pub record StoredBlob : Type 0 where
  pub index : ℕ
  pub versioned_hash : ℕ
  pub blob : List ℕ

-- `sort` and `sort_by_key`, both stable.
unfoldable pub insert_hash : ℕ → List ℕ → List ℕ
insert_hash vh [] = vh ∷ []
insert_hash vh (v ∷ vs) = if leb vh v then vh ∷ v ∷ vs else v ∷ insert_hash vh vs

unfoldable pub sort_hashes : List ℕ → List ℕ
unfolding insert_hash
sort_hashes [] = []
sort_hashes (vh ∷ vhs) = insert_hash vh (sort_hashes vhs)

unfoldable pub insert_blob : StoredBlob → List StoredBlob → List StoredBlob
insert_blob b [] = b ∷ []
insert_blob b (c ∷ cs) = if leb b.index c.index then b ∷ c ∷ cs else c ∷ insert_blob b cs

unfoldable pub sort_blobs : List StoredBlob → List StoredBlob
unfolding insert_blob
sort_blobs [] = []
sort_blobs (b ∷ bs) = insert_blob b (sort_blobs bs)

-- `dedup` drops each hash that equals the one kept before it.
unfoldable pub dedup_after : ℕ → List ℕ → List ℕ
dedup_after prev [] = []
dedup_after prev (vh ∷ vhs) = if prev == vh then dedup_after prev vhs else vh ∷ dedup_after vh vhs

abbrev pub dedup : List ℕ → List ℕ
dedup [] = []
dedup (vh ∷ vhs) = vh ∷ dedup_after vh vhs

unfoldable pub find_blob : ℕ → List StoredBlob → Option StoredBlob
find_blob vh [] = none
find_blob vh (b ∷ bs) = if b.versioned_hash == vh then some b else find_blob vh bs

abbrev pub and_blobs : Option StoredBlob → Option (List StoredBlob) → Option (List StoredBlob)
and_blobs none rest = none
and_blobs (some b) none = none
and_blobs (some b) (some bs) = some (b ∷ bs)

-- The loop over the hashes; nothing when one is not stored, which is a 404.
unfoldable pub find_blobs : List StoredBlob → List ℕ → Option (List StoredBlob)
unfolding find_blob
find_blobs stored [] = some []
find_blobs stored (vh ∷ vhs) = and_blobs (find_blob vh stored) (find_blobs stored vhs)

abbrev pub respond : Option (List StoredBlob) → Option (List (List ℕ))
respond none = none
respond (some bs) = some (map (λ (b : StoredBlob). b.blob) (sort_blobs bs))

unfoldable pub get_archived : List StoredBlob → List ℕ → Option (List (List ℕ))
unfolding find_blobs sort_hashes dedup_after
get_archived stored versioned_hashes =
    respond (find_blobs stored (dedup (sort_hashes versioned_hashes)))
