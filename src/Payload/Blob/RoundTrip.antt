-- ===== src/Payload/Blob/RoundTrip.antt =====
-- What `encode_simple_blob` writes, `decode_simple_blob` reads back (libs/payload/src/blob.rs).
use digital_objects_network.Prelude.{
  ap, refl, ℕ, zero, suc, ◌+◌, ◌-◌, ◌*◌, ◌/◌, ◌%◌, ◌^◌, ◌≤◌, ◌<◌, ◌≡◌, refl, ap, List, ◌++◌,
  append_assoc, ◌⊎◌, inl, inr, length, take, drop, ok, false, true, ltb, ◌==◌, ◌>>=◌, arith,
  take-append, length-append, length-take, Bool-cases, All, get_elem?, some, err,
}
use digital_objects_network.Payload.Blob.{
  to_be_bytes, from_be_bytes, chunks_fuel, chunks, flat_tails, encode_simple_blob,
  decode_simple_blob, max_simple_blob_payload_bytes, simple_blob_bytes, too_long,
}
use digital_objects_network.Payload.Blob.Packed.{
  length-to_be_bytes, from_be_bytes-to_be_bytes, chunks-append, zeros, field, packed, length-field,
  length-packed, take-packed, header, length-header,
}
use digital_objects_network.Payload.Blob.Writing.{fill_blob-packed}

data_len-header :
    (k : ℕ) (bytes : List ℕ)
    → length bytes < 2 ^ 64
    → from_be_bytes 0 (take 8 (drop 1 (header (length bytes) ++ packed k bytes))) ≡ length bytes
unfolding header
data_len-header k bytes small =
    let n : ℕ = length bytes in
    rw
      (
        append_assoc,
        take-append 8 (to_be_bytes 8 n) (zeros 23 ++ packed k bytes) (length-to_be_bytes 8 n),
      )
      (from_be_bytes-to_be_bytes n small)

-- Decoding a header and packed field elements gives the data, whatever the size of the blob.
decode-packed :
    (k : ℕ) (bytes : List ℕ)
    → length bytes ≤ 31 * k
    → length bytes < 2 ^ 64
    → decode_simple_blob (header (length bytes) ++ packed k bytes) ≡ ok bytes
unfolding decode_simple_blob flat_tails chunks_fuel header
decode-packed k bytes h small =
    let n : ℕ = length bytes in
    let blob : List ℕ = header n ++ packed k bytes in
    let size : length blob ≡ 32 + 32 * k =
      omega (
        arith,
        length-append (header n) (packed k bytes),
        length-header n,
        length-packed k bytes,
      ) in
    let long : ltb (32 + 32 * k) 9 ≡ false = ground arith in
    let aligned : ((32 + 32 * k) % 32 == 0) ≡ true = ground arith in
    let some_field : ltb ((32 + 32 * k) / 32) 1 ≡ false = ground arith in
    let fits : ltb (((32 + 32 * k) / 32 - 1) * 31) n ≡ false = ground arith in
    rw (
      size,
      long,
      aligned,
      some_field,
      data_len-header k bytes small,
      fits,
      chunks-append 31 (header n) (packed k bytes) (length-header n),
      take-packed k bytes h,
    )

-- Every payload that fits one blob comes back unchanged from the blob that encodes it.
pub decode-encode :
    (bytes : List ℕ)
    → length bytes ≤ max_simple_blob_payload_bytes
    → (encode_simple_blob bytes >>= decode_simple_blob) ≡ ok bytes
unfolding encode_simple_blob
decode-encode bytes h =
    let fits : ltb max_simple_blob_payload_bytes (length bytes) ≡ false = ground arith in
    rw (fits, fill_blob-packed 4095 bytes h) (decode-packed 4095 bytes h (omega arith))

-- Thirty-two bytes, the first of them zero.
abbrev pub IsFieldElement : List ℕ → Type 0
IsFieldElement element = (length element ≡ 32) × (get_elem? element 0 ≡ some 0)

packed-canonical : (k : ℕ) (bytes : List ℕ) → All IsFieldElement (chunks 32 (packed k bytes))
unfolding packed chunks_fuel
packed-canonical zero bytes = tt
packed-canonical (suc k) bytes =
    let short : length (take 31 bytes) ≤ 31 = omega (arith, length-take 31 bytes) in
    rw
      (chunks-append 31 (field (take 31 bytes)) (packed k (drop 31 bytes))
        (length-field (take 31 bytes) short))
      (
        (length-field (take 31 bytes) short, unfold field in refl),
        packed-canonical k (drop 31 bytes),
      )

-- Data that fits encodes to a full blob whose every field element is 32 bytes with a zero first
-- byte; data that does not fit is refused.
pub encode_simple_blob_canonical :
    (bytes : List ℕ)
    → ((length bytes ≤ max_simple_blob_payload_bytes)
        × (blob : List ℕ) × (encode_simple_blob bytes ≡ ok blob)
        × (length blob ≡ simple_blob_bytes)
        × All IsFieldElement (chunks 32 blob))
      ⊎ ((max_simple_blob_payload_bytes < length bytes)
          × (encode_simple_blob bytes ≡ err (too_long (length bytes))))
unfolding encode_simple_blob
encode_simple_blob_canonical bytes =
    elim (Bool-cases (ltb max_simple_blob_payload_bytes (length bytes))) [
      | inl long ↦ inr (ground arith, rw long)
      | inr fits ↦ inl (
        ground arith,
        header (length bytes) ++ packed 4095 bytes,
        rw fits (ap ok (fill_blob-packed 4095 bytes (ground arith))),
        omega (
          arith,
          length-append (header (length bytes)) (packed 4095 bytes),
          length-header (length bytes),
          length-packed 4095 bytes,
        ),
        rw
            (chunks-append 31 (header (length bytes)) (packed 4095 bytes)
              (length-header (length bytes)))
            ((length-header (length bytes), unfold header in refl), packed-canonical 4095 bytes),
      )
    ]
