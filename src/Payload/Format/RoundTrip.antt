-- ===== src/Payload/Format/RoundTrip.antt =====
-- What `Payload::to_bytes` writes, `Payload::from_bytes` reads back (libs/payload/src/payload.rs).
use digital_objects_network.Payload.Format.{
  plonky2_byte, ok, Payload, Backend, to_le_bytes, from_le_bytes, write_hash, write_each,
  write_hashes, read_exact, read_elem, read_hash, read_each, read_hashes, write_proof, read_proof,
  slice_from, to_bytes, from_bytes, read_body, read_fields, payload_magic, ◌>>=◌,
}
use digital_objects_network.Prelude.{
  ℕ, zero, suc, ◌+◌, ◌/◌, ◌%◌, ◌<◌, ◌≤◌, ◌≡◌, ◌^◌, List, [], ◌∷◌, ◌++◌, true, false, Hash, length,
  append-nil, ltb, leb, arith, length-append, All, refl, ap, append_assoc, take-append, drop-append,
}

length-to_le_bytes : (k n : ℕ) → length (to_le_bytes k n) ≡ k
unfolding to_le_bytes
length-to_le_bytes zero n = refl
length-to_le_bytes (suc k) n = ap suc (length-to_le_bytes k (n / 256))

from_le_bytes-to_le_bytes : (n : ℕ) → n < 2 ^ 64 → from_le_bytes (to_le_bytes 8 n) ≡ n
unfolding to_le_bytes from_le_bytes
from_le_bytes-to_le_bytes n h = omega arith

read_exact-append : (n : ℕ) (xs ys : List ℕ) → length xs ≡ n → read_exact n (xs ++ ys) ≡ ok (xs, ys)
unfolding read_exact
read_exact-append n xs ys e =
    let enough : ltb (length (xs ++ ys)) n ≡ false = ground (arith, length-append xs ys) in
    rw (enough, take-append n xs ys e, drop-append n xs ys e)

-- The elements of a hash are canonical: below the order of the field.
abbrev pub IsCanonical : ℕ → Hash → Type 0
IsCanonical order h = (h.e0 < order) × (h.e1 < order) × (h.e2 < order) × (h.e3 < order)

magic : from_le_bytes (to_le_bytes 2 payload_magic) ≡ payload_magic
unfolding from_le_bytes to_le_bytes
magic = refl

module _ {Proof : Type 0} (backend : Backend Proof) (word : backend.order ≤ 2 ^ 64) where
  read_elem-to_le_bytes :
      (n : ℕ) (rest : List ℕ)
      → n < backend.order
      → read_elem backend (to_le_bytes 8 n ++ rest) ≡ ok (n, rest)
  unfolding read_elem
  read_elem-to_le_bytes n rest h =
      let below : leb backend.order n ≡ false = ground arith in
      rw (
        read_exact-append 8 (to_le_bytes 8 n) rest (length-to_le_bytes 8 n),
        from_le_bytes-to_le_bytes n (omega arith),
        below,
      )

  read_hash-write_hash :
      (h : Hash) (rest : List ℕ)
      → IsCanonical backend.order h
      → read_hash backend (write_hash h ++ rest) ≡ ok (h, rest)
  unfolding read_hash write_hash
  read_hash-write_hash h rest c = rw (
    append_assoc,
    append_assoc,
    append_assoc,
    read_elem-to_le_bytes h.e0 _ c.0,
    read_elem-to_le_bytes h.e1 _ c.1,
    read_elem-to_le_bytes h.e2 _ c.2,
    read_elem-to_le_bytes h.e3 _ c.3,
  )

  read_each-write_each :
      (hs : List Hash) (rest : List ℕ)
      → All (IsCanonical backend.order) hs
      → read_each backend (length hs) (write_each hs ++ rest) ≡ ok (hs, rest)
  unfolding read_each write_each
  read_each-write_each [] rest c = refl
  read_each-write_each (h ∷ hs) rest c = rw (
    append_assoc,
    read_hash-write_hash h (write_each hs ++ rest) c.0,
    read_each-write_each hs rest c.1,
  )

  read_hashes-write_each :
      (hs : List Hash) (rest : List ℕ)
      → length hs ≤ 255
      → All (IsCanonical backend.order) hs
      → read_hashes backend (length hs % 256 ∷ write_each hs ++ rest) ≡ ok (hs, rest)
  unfolding read_hashes
  read_hashes-write_each hs rest short c =
      let count : List ℕ = length hs % 256 ∷ [] in
      let e : from_le_bytes count ≡ length hs = unfold from_le_bytes in omega arith in
      rw (read_exact-append 1 count (write_each hs ++ rest) refl, e)
        (read_each-write_each hs rest c)

  write_hashes_short :
      (hs : List Hash) → length hs ≤ 255 → write_hashes hs ≡ ok (length hs % 256 ∷ write_each hs)
  unfolding write_hashes
  write_hashes_short hs h = let fits : leb (length hs) 255 ≡ true = ground arith in rw fits

  -- plonky2 reads back the proof that it wrote, whatever follows, and reports its length.
  abbrev pub ReadsBack : Proof → Type 0
  ReadsBack proof =
      (rest : List ℕ)
      → backend.read_compressed_proof (backend.write_compressed_proof proof ++ rest)
        ≡ ok (proof, length (backend.write_compressed_proof proof))

  read_proof-write_proof :
      (proof : Proof) (rest : List ℕ)
      → ReadsBack proof
      → read_proof backend (write_proof backend proof ++ rest)
        ≡ ok (proof, length (backend.write_compressed_proof proof) + 1)
  unfolding read_proof write_proof
  read_proof-write_proof proof rest reads = rw (reads rest)

  slice_from-write_proof :
      (proof : Proof) (rest : List ℕ)
      → slice_from backend
          (length (backend.write_compressed_proof proof) + 1)
          (write_proof backend proof ++ rest)
        ≡ ok rest
  unfolding slice_from write_proof
  slice_from-write_proof proof rest =
      let w : List ℕ = plonky2_byte ∷ backend.write_compressed_proof proof in
      let e : length (backend.write_compressed_proof proof) + 1 ≡ length w = omega arith in
      let enough : ltb (length (w ++ rest)) (length w) ≡ false =
        ground (arith, length-append w rest) in
      rw (e, enough, drop-append (length w) w rest refl)

  -- A payload with canonical hashes and at most 255 hashes in each list comes back unchanged from
  -- its bytes, if plonky2 reads back the proof it wrote, whatever follows, and reports its length.
  pub from_bytes-to_bytes :
      (p : Payload Proof)
      → ReadsBack p.proof
      → IsCanonical backend.order p.tx_final
      → IsCanonical backend.order p.state_root
      → All (IsCanonical backend.order) p.nullifiers
      → All (IsCanonical backend.order) p.created
      → length p.nullifiers ≤ 255
      → length p.created ≤ 255
      → (to_bytes backend p >>= from_bytes backend) ≡ ok p
  unfolding to_bytes from_bytes read_body read_fields
  from_bytes-to_bytes p reads tx root ns cs short_ns short_cs =
      let created = length p.created % 256 ∷ write_each p.created in
      let lists = (length p.nullifiers % 256 ∷ write_each p.nullifiers) ++ created in
      let hashes = write_hash p.tx_final ++ (write_hash p.state_root ++ lists) in
      rw
        (
          write_hashes_short p.nullifiers short_ns,
          write_hashes_short p.created short_cs,
          read_exact-append 2 (to_le_bytes 2 payload_magic) (write_proof backend p.proof ++ hashes)
              (length-to_le_bytes 2 payload_magic),
          magic,
          read_proof-write_proof p.proof hashes reads,
          slice_from-write_proof p.proof hashes,
          read_hash-write_hash p.tx_final (write_hash p.state_root ++ lists) tx,
          read_hash-write_hash p.state_root lists root,
          read_hashes-write_each p.nullifiers created short_ns ns,
        )
        (rw (rw append-nil at (read_hashes-write_each p.created [] short_cs cs)))
