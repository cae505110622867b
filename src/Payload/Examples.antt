-- ===== src/Payload/Examples.antt =====
-- The theorems on payloads at concrete data, with a proof of one byte.
use digital_objects_network.Prelude.{
  ℕ, List, [], ◌∷◌, Hash, ◌≡◌, refl, ◌↔◌, ◌≤◌, arith, length, ◌>>=◌, ok, All, ◌⊎◌, ◌<◌, err,
}
use digital_objects_network.Payload.Blob as Blob
use digital_objects_network.Payload.Blob.RoundTrip.{
  decode-encode, encode_simple_blob_canonical, IsFieldElement,
}
use digital_objects_network.Payload.Format as Format
use digital_objects_network.Payload.Format.RoundTrip.{from_bytes-to_bytes, IsCanonical}
use digital_objects_network.Payload.Format.Panics.{parse_blob_panics, lone_magic}

abbrev read_byte : List ℕ → Format.Outcome (ℕ × ℕ)
read_byte [] = Format.err Format.unreadable_proof
read_byte (b ∷ bytes) = Format.ok (b, 1)

-- The order of the Goldilocks field.
abbrev byte_proofs : Format.Backend ℕ
byte_proofs = record {
  order = 0xffffffff00000001;
  write_compressed_proof = λ proof. proof ∷ [];
  read_compressed_proof = read_byte;
  verify_finalized = λ p. Format.ok tt;
}

abbrev hash_one : Hash
hash_one = record { e0 = 1; e1 = 2; e2 = 3; e3 = 4 }

abbrev hash_two : Hash
hash_two = record { e0 = 5; e1 = 6; e2 = 7; e3 = 0xffffffff00000000 }

abbrev sample : Format.Payload ℕ
sample = record {
  proof = 9;
  tx_final = hash_one;
  state_root = hash_two;
  nullifiers = hash_one ∷ hash_two ∷ [];
  created = hash_two ∷ [];
}

abbrev two_bytes : List ℕ
two_bytes = 7 ∷ 8 ∷ []

decode-encode_example :
    (Blob.encode_simple_blob (7 ∷ 0 ∷ 255 ∷ []) >>= Blob.decode_simple_blob) ≡ ok (7 ∷ 0 ∷ 255 ∷ [])
decode-encode_example = decode-encode (7 ∷ 0 ∷ 255 ∷ []) (omega arith)

encode_simple_blob_canonical_example :
    ((length two_bytes ≤ Blob.max_simple_blob_payload_bytes)
      × (blob : List ℕ) × (Blob.encode_simple_blob two_bytes ≡ ok blob)
      × (length blob ≡ Blob.simple_blob_bytes)
      × All IsFieldElement (Blob.chunks 32 blob))
    ⊎ ((Blob.max_simple_blob_payload_bytes < length two_bytes)
        × (Blob.encode_simple_blob two_bytes ≡ err (Blob.too_long (length two_bytes))))
encode_simple_blob_canonical_example = encode_simple_blob_canonical two_bytes

from_bytes-to_bytes_example :
    Format.◌>>=◌ (Format.to_bytes byte_proofs sample) (Format.from_bytes byte_proofs)
    ≡ Format.ok sample
from_bytes-to_bytes_example =
    let one : IsCanonical byte_proofs.order hash_one =
      (omega arith, omega arith, omega arith, omega arith) in
    let two : IsCanonical byte_proofs.order hash_two =
      (omega arith, omega arith, omega arith, omega arith) in
    from_bytes-to_bytes byte_proofs (omega arith) sample (λ rest. refl) one two (one, (two, tt))
      (two, tt) (omega arith) (omega arith)

parse_blob_panics_example :
    (Format.parse_blob byte_proofs (0x0b ∷ 0xd1 ∷ []) ≡ Format.panicked)
    ↔ (0x0b ∷ 0xd1 ∷ [] ≡ lone_magic byte_proofs)
parse_blob_panics_example =
    parse_blob_panics byte_proofs (0x0b ∷ 0xd1 ∷ []) (omega arith, (omega arith, tt))
      (λ proof len e. absurd (cc)) tt (λ p. tt)
