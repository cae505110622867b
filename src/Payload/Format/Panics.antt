-- ===== src/Payload/Format/Panics.antt =====
-- Where `parse_blob` of libs/payload/src/proof.rs panics by itself: `&bytes[0]` of an empty slice in
-- `Payload::from_bytes` of libs/payload/src/payload.rs. Panics of plonky2 are excluded by hypotheses.
use digital_objects_network.Payload.Format.{
  read_fields, read_body, Outcome, ok, err, panic, Backend, ParseError, from_le_bytes, read_exact,
  read_elem, read_hash, read_each, read_hashes, reject_if, ◌>>=◌, ◌>>◌, read_proof, from_bytes,
  slice_from, plonky2_byte, read_plonky2, Payload, parse_blob, payload_magic, judge, judge_verified,
  panicked,
}
use digital_objects_network.Prelude.{
  ◌≢◌, [], ℕ, zero, suc, List, Bool, true, false, length, ltb, leb, Bool-cases, inl, inr, All, ◌∷◌,
  ◌≡◌, ◌<◌, refl, drop, ◌==◌, arith, ◌≤◌, ◌+◌, ◌*◌, ◌↔◌,
}

abbrev NoPanic : {A : Type 0} → Outcome A → Type 0
NoPanic (ok a) = Unit {0}
NoPanic (err e) = Unit {0}
NoPanic panic = ⊥

NoPanic-bind :
    {A B : Type 0} (m : Outcome A) (f : A → Outcome B)
    → NoPanic m
    → ((a : A) → NoPanic (f a))
    → NoPanic (m >>= f)
NoPanic-bind (ok a) f h k = k a
NoPanic-bind (err e) f h k = tt
NoPanic-bind panic f h k = h

NoPanic-reject_if :
    {B : Type 0} (b : Bool) (e : ParseError) (m : Outcome B)
    → NoPanic m
    → NoPanic (reject_if b e >> m)
NoPanic-reject_if true e m h = tt
NoPanic-reject_if false e m h = h

NoPanic-read_exact : (n : ℕ) (bytes : List ℕ) → NoPanic (read_exact n bytes)
unfolding read_exact
NoPanic-read_exact n bytes = elim (Bool-cases (ltb (length bytes) n)) [
  | inl e ↦ rw e tt
  | inr e ↦ rw e tt
]

read_exact-two :
    (b0 b1 : ℕ) (bytes : List ℕ) → read_exact 2 (b0 ∷ b1 ∷ bytes) ≡ ok (b0 ∷ b1 ∷ [], bytes)
unfolding read_exact
read_exact-two b0 b1 bytes =
    let enough : ltb (suc (suc (length bytes))) 2 ≡ false = ground arith in rw enough

module _ {Proof : Type 0} (backend : Backend Proof) where
  NoPanic-read_elem : (bytes : List ℕ) → NoPanic (read_elem backend bytes)
  unfolding read_elem
  NoPanic-read_elem bytes = NoPanic-bind (read_exact 8 bytes) _ (NoPanic-read_exact 8 bytes) λ r.
      NoPanic-reject_if (leb backend.order (from_le_bytes r.0)) _ (ok (from_le_bytes r.0, r.1)) tt

  NoPanic-read_hash : (bytes : List ℕ) → NoPanic (read_hash backend bytes)
  unfolding read_hash
  NoPanic-read_hash bytes = NoPanic-bind (read_elem backend bytes) _ (NoPanic-read_elem bytes) λ r0.
      NoPanic-bind (read_elem backend r0.1) _ (NoPanic-read_elem r0.1) λ r1.
        NoPanic-bind (read_elem backend r1.1) _ (NoPanic-read_elem r1.1)
          λ r2. NoPanic-bind (read_elem backend r2.1) _ (NoPanic-read_elem r2.1) λ r3. tt

  NoPanic-read_each : (k : ℕ) (bytes : List ℕ) → NoPanic (read_each backend k bytes)
  unfolding read_each
  NoPanic-read_each zero bytes = tt
  NoPanic-read_each (suc k) bytes =
      NoPanic-bind (read_hash backend bytes) _ (NoPanic-read_hash bytes)
        λ r. NoPanic-bind (read_each backend k r.1) _ (NoPanic-read_each k r.1) λ _. tt

  NoPanic-read_hashes : (bytes : List ℕ) → NoPanic (read_hashes backend bytes)
  unfolding read_hashes
  NoPanic-read_hashes bytes =
      NoPanic-bind (read_exact 1 bytes) _ (NoPanic-read_exact 1 bytes) λ r. NoPanic-read_each _ r.1

  NoPanic-read_fields : (proof : Proof) (bytes : List ℕ) → NoPanic (read_fields backend proof bytes)
  unfolding read_fields
  NoPanic-read_fields proof bytes =
      NoPanic-bind (read_hash backend bytes) _ (NoPanic-read_hash bytes) λ r0.
        NoPanic-bind (read_hash backend r0.1) _ (NoPanic-read_hash r0.1) λ r1.
          NoPanic-bind (read_hashes backend r1.1) _ (NoPanic-read_hashes r1.1)
            λ r2. NoPanic-bind (read_hashes backend r2.1) _ (NoPanic-read_hashes r2.1) λ r3. tt

  -- plonky2 reports no more bytes than it was given.
  abbrev pub ReadsWithin : List ℕ → Type 0
  ReadsWithin bytes =
      (proof : Proof) (len : ℕ)
      → backend.read_compressed_proof bytes ≡ ok (proof, len)
      → len ≤ length bytes

  after_proof-NoPanic :
      (b : ℕ) (bytes : List ℕ) (r : Outcome (Proof × ℕ))
      → ((proof : Proof) (len : ℕ) → r ≡ ok (proof, len) → len ≤ length bytes)
      → NoPanic r
      → NoPanic (
          read_plonky2 backend r >>= λ x.
          slice_from backend x.1 (b ∷ bytes) >>= λ rest. read_fields backend x.0 rest)
  unfolding slice_from
  after_proof-NoPanic b bytes (err e) h k = tt
  after_proof-NoPanic b bytes panic h k = k
  after_proof-NoPanic b bytes (ok (proof, len)) h k =
      let le = h proof len refl in
      let enough : ltb (suc (length bytes)) (len + 1) ≡ false = ground arith in
      rw enough (NoPanic-read_fields proof (drop (len + 1) (b ∷ bytes)))

  NoPanic-read_body :
      (b : ℕ) (bytes : List ℕ)
      → ReadsWithin bytes
      → NoPanic (backend.read_compressed_proof bytes)
      → NoPanic (read_body backend (b ∷ bytes))
  unfolding read_body read_proof
  NoPanic-read_body b bytes h k = elim (Bool-cases (b == plonky2_byte)) [
    | inl e ↦ rw e (after_proof-NoPanic b bytes (backend.read_compressed_proof bytes) h k)
    | inr e ↦ rw e tt
  ]

  NoPanic-from_bytes :
      (b0 b1 b2 : ℕ) (bytes : List ℕ)
      → ReadsWithin bytes
      → NoPanic (backend.read_compressed_proof bytes)
      → NoPanic (from_bytes backend (b0 ∷ b1 ∷ b2 ∷ bytes))
  unfolding from_bytes
  NoPanic-from_bytes b0 b1 b2 bytes h k =
      rw (read_exact-two b0 b1 (b2 ∷ bytes))
        (NoPanic-reject_if _ _ (read_body backend (b2 ∷ bytes)) (NoPanic-read_body b2 bytes h k))

  -- The magic, its low byte first.
  abbrev pub lone_magic : List ℕ
  lone_magic = 0x0b ∷ 0xd1 ∷ []

  from_bytes-lone_magic : from_bytes backend lone_magic ≡ panic
  unfolding from_bytes read_body read_proof read_exact from_le_bytes
  from_bytes-lone_magic = refl

  magic_only :
      (b0 b1 : ℕ)
      → b0 < 256
      → b1 < 256
      → from_bytes backend (b0 ∷ b1 ∷ []) ≡ panic
      → b0 ∷ b1 ∷ [] ≡ lone_magic
  unfolding from_bytes read_exact from_le_bytes
  magic_only b0 b1 h0 h1 e = elim (Bool-cases (b0 + 256 * (b1 + 256 * 0) == payload_magic)) [
    | inl k ↦ let low : b0 ≡ 0x0b = ground arith in let high : b1 ≡ 0xd1 = ground arith in cc
    | inr k ↦ let e' = rw k at e in cc
  ]

  panic_only :
      (bytes : List ℕ)
      → All (λ b. b < 256) bytes
      → ReadsWithin (drop 3 bytes)
      → NoPanic (backend.read_compressed_proof (drop 3 bytes))
      → from_bytes backend bytes ≡ panic
      → bytes ≡ lone_magic
  unfolding from_bytes read_exact
  panic_only [] small h k e = cc
  panic_only (b0 ∷ []) small h k e = cc
  panic_only (b0 ∷ b1 ∷ []) small h k e = magic_only b0 b1 small.0 small.1.0 e
  panic_only (b0 ∷ b1 ∷ b2 ∷ bytes) small h k e =
      absurd (rw e at (NoPanic-from_bytes b0 b1 b2 bytes h k))

  judge_verified_panic :
      (p : Payload Proof) (r : Outcome (Unit {0}))
      → NoPanic r
      → judge_verified backend p r ≢ panicked
  judge_verified_panic p (ok _) h e = cc
  judge_verified_panic p (err x) h e = cc
  judge_verified_panic p panic h e = h

  -- pod2 and plonky2 verify without a panic.
  abbrev pub VerifiesCleanly : Type 0
  VerifiesCleanly = (p : Payload Proof) → NoPanic (backend.verify_finalized p)

  judge_panic :
      (r : Outcome (Payload Proof)) → VerifiesCleanly → judge backend r ≡ panicked → r ≡ panic
  judge_panic (ok p) v e = absurd (judge_verified_panic p (backend.verify_finalized p) (v p) e)
  judge_panic (err x) v e = cc
  judge_panic panic v e = refl

  -- On bytes, with a plonky2 that reads what follows the first three of them without a panic and no
  -- further than they go, and that verifies every proof without a panic, parsing a blob panics for
  -- exactly one input: the two bytes of the magic with nothing after them.
  pub parse_blob_panics :
      (bytes : List ℕ)
      → All (λ b. b < 256) bytes
      → ReadsWithin (drop 3 bytes)
      → NoPanic (backend.read_compressed_proof (drop 3 bytes))
      → VerifiesCleanly
      → (parse_blob backend bytes ≡ panicked) ↔ (bytes ≡ lone_magic)
  unfolding parse_blob
  parse_blob_panics bytes small h k v = (
    λ e. panic_only bytes small h k (judge_panic (from_bytes backend bytes) v e),
    λ e. rw (e, from_bytes-lone_magic),
  )
