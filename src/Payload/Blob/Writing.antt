-- ===== src/Payload/Blob/Writing.antt =====
-- The loop of `encode_simple_blob` in libs/payload/src/blob.rs writes the field elements of
-- `Packed` in place.
use digital_objects_network.Prelude.{
  ℕ, zero, suc, ◌+◌, ◌-◌, ◌*◌, ◌≤◌, ◌≡◌, sym, ap, ◌∙◌, List, [], ◌∷◌, ◌++◌, append_assoc, length,
  take, drop, replicate, arith, take-append, length-append, length-take, length-drop,
  drop-append_add,
}
use digital_objects_network.Payload.Blob.{
  to_be_bytes, chunks_fuel, chunks, copy_at, write_chunks, fill_blob,
}
use digital_objects_network.Payload.Blob.Packed.{
  length-to_be_bytes, chunks-step, zeros, length-zeros, zeros-add, drop-zeros, field, packed,
  length-field, packed-nil, header, length-header,
}

copy_at-append :
    (o : ℕ) (src pre blob : List ℕ)
    → length pre ≡ o
    → copy_at o src (pre ++ blob) ≡ pre ++ (src ++ drop (length src) blob)
unfolding copy_at
copy_at-append o src pre blob e =
    rw (take-append o pre blob e, ← e, drop-append_add (length src) pre blob)

-- One round of the loop writes one field element.
write_zero :
    (o k : ℕ) (pre : List ℕ)
    → length pre ≡ o
    → copy_at o (0 ∷ []) (pre ++ zeros (32 + 32 * k)) ≡ (pre ++ 0 ∷ []) ++ zeros (31 + 32 * k)
write_zero o k pre e =
    let e₁ : 32 + 32 * k ≡ 1 + (31 + 32 * k) = omega arith in
    rw (e₁, copy_at-append o (0 ∷ []) pre (zeros (1 + (31 + 32 * k))) e, drop-zeros 1 (31 + 32 * k))
      (sym (append_assoc pre (0 ∷ []) (zeros (31 + 32 * k))))

write_rest :
    (o k : ℕ) (chunk pre : List ℕ)
    → length chunk ≤ 31
    → length pre ≡ o
    → copy_at o chunk (pre ++ zeros (31 + 32 * k))
      ≡ pre ++ (chunk ++ (zeros (31 - length chunk) ++ zeros (32 * k)))
write_rest o k chunk pre h e =
    let n : ℕ = 31 - length chunk in
    let e₂ : 31 + 32 * k ≡ length chunk + (n + 32 * k) = omega arith in
    rw (
      e₂,
      copy_at-append o chunk pre (zeros (length chunk + (n + 32 * k))) e,
      drop-zeros (length chunk) (n + 32 * k),
      zeros-add n (32 * k),
    )

write_chunk :
    (o k : ℕ) (chunk pre : List ℕ)
    → length pre ≡ o
    → length chunk ≤ 31
    → copy_at (o + 1) chunk (copy_at o (0 ∷ []) (pre ++ zeros (32 + 32 * k)))
      ≡ (pre ++ field chunk) ++ zeros (32 * k)
unfolding field
write_chunk o k chunk pre e h =
    ap (copy_at (o + 1) chunk) (write_zero o k pre e)
    ∙ write_rest (o + 1) k chunk (pre ++ 0 ∷ []) h (omega (arith, length-append pre (0 ∷ [])))
    ∙ simp append_assoc

write_chunks-packed :
    (i k : ℕ) (bytes pre : List ℕ)
    → length pre ≡ (i + 1) * 32
    → length bytes ≤ 31 * k
    → write_chunks i (chunks 31 bytes) (pre ++ zeros (32 * k)) ≡ pre ++ packed k bytes
unfolding write_chunks chunks_fuel packed field
write_chunks-packed i k [] pre e h = ap (λ b. pre ++ b) (sym (packed-nil k))
write_chunks-packed i zero (x ∷ bytes) pre e h = absurd (omega arith)
write_chunks-packed i (suc k) (x ∷ bytes) pre e h =
    let chunk : List ℕ = take 31 (x ∷ bytes) in
    let rest : List ℕ = drop 31 (x ∷ bytes) in
    let short : length chunk ≤ 31 = omega (arith, length-take 31 (x ∷ bytes)) in
    let e₁ : 32 * suc k ≡ 32 + 32 * k = omega arith in
    ap (λ cs. write_chunks i cs (pre ++ zeros (32 * suc k)))
      (chunks-step 30 (x ∷ bytes) (omega arith))
    ∙ ap (write_chunks (i + 1) (chunks 31 rest))
        (rw e₁ (write_chunk ((i + 1) * 32) k chunk pre e short))
    ∙ write_chunks-packed (i + 1) k rest (pre ++ field chunk)
        (omega (arith, length-append pre (field chunk), length-field chunk short))
        (omega (arith, length-drop 31 (x ∷ bytes)))
    ∙ append_assoc pre (field chunk) (packed k rest)

write_header :
    (k n : ℕ) → copy_at 1 (to_be_bytes 8 n) (zeros ((k + 1) * 32)) ≡ header n ++ zeros (32 * k)
unfolding header
write_header k n =
    let e₁ : (k + 1) * 32 ≡ 1 + (8 + (23 + 32 * k)) = omega arith in
    rw
      (
        e₁,
        zeros-add 1 (8 + (23 + 32 * k)),
        copy_at-append 1 (to_be_bytes 8 n) (zeros 1) (zeros (8 + (23 + 32 * k))) (length-zeros 1),
        length-to_be_bytes 8 n,
        drop-zeros 8 (23 + 32 * k),
        zeros-add 23 (32 * k),
      )
      (unfold zeros replicate in simp append_assoc)

-- What the loop leaves in the blob, whatever its size.
pub fill_blob-packed :
    (k : ℕ) (bytes : List ℕ)
    → length bytes ≤ 31 * k
    → fill_blob (k + 1) bytes ≡ header (length bytes) ++ packed k bytes
unfolding fill_blob zeros
fill_blob-packed k bytes h =
    ap (write_chunks 0 (chunks 31 bytes)) (write_header k (length bytes))
    ∙ write_chunks-packed 0 k bytes (header (length bytes)) (length-header (length bytes)) h
