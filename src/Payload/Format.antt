-- ===== src/Payload/Format.antt =====
-- libs/payload/src/payload.rs, `ProofType` of libs/payload/src/lib.rs and `parse_blob` of
-- libs/payload/src/proof.rs: the binary format of a payload. plonky2's serialisation of a compressed
-- proof, its verification and the order of its field are parameters. A reader is a function on the
-- bytes left; a Rust panic is an outcome of its own.
pub mod RoundTrip
pub mod Panics
use digital_objects_network.Prelude.{
  ℕ, zero, suc, ◌+◌, ◌*◌, ◌/◌, ◌%◌, List, [], ◌∷◌, ◌++◌, Option, none, some, Bool, true, false,
  Hash, length, take, drop, ltb, leb, ◌==◌, if◌then◌else◌, not,
}

pub data ParseError : Type 0 where
  unexpected_eof : ParseError
  not_below_order : ℕ → ParseError
  invalid_magic : ℕ → ParseError
  unsupported_proof_type : ℕ → ParseError
  unreadable_proof : ParseError

-- A panic is not an `Err`: no `?` and no `match` on the result sees it.
pub data Outcome (A : Type 0) : Type 0 where
  ok : A → Outcome A
  err : ParseError → Outcome A
  panic : Outcome A

infixl 5 ◌>>=◌ ◌>>◌
abbrev pub ◌>>=◌ : {A B : Type 0} → Outcome A → (A → Outcome B) → Outcome B
ok a >>= f = f a
err e >>= f = err e
panic >>= f = panic

abbrev pub ◌>>◌ : {B : Type 0} → Outcome (Unit {0}) → Outcome B → Outcome B
m >> k = m >>= λ _. k

abbrev pub reject_if : Bool → ParseError → Outcome (Unit {0})
reject_if true e = err e
reject_if false e = ok tt

pub record Payload (Proof : Type 0) : Type 0 where
  pub proof : Proof
  pub tx_final : Hash
  pub state_root : Hash
  pub nullifiers : List Hash
  pub created : List Hash

abbrev pub payload_magic : ℕ
payload_magic = 0xd10b

-- `ProofType::Plonky2` is the only proof type.
abbrev pub plonky2_byte : ℕ
plonky2_byte = 0

-- `to_le_bytes` and `from_le_bytes`, on any number of bytes.
pub to_le_bytes : ℕ → ℕ → List ℕ
to_le_bytes zero n = []
to_le_bytes (suc k) n = n % 256 ∷ to_le_bytes k (n / 256)

pub from_le_bytes : List ℕ → ℕ
from_le_bytes [] = 0
from_le_bytes (b ∷ bs) = b + 256 * from_le_bytes bs

-- `write_elems` at the four elements of a hash.
pub write_hash : Hash → List ℕ
unfolding to_le_bytes
write_hash h =
    to_le_bytes 8 h.e0 ++ (to_le_bytes 8 h.e1 ++ (to_le_bytes 8 h.e2 ++ to_le_bytes 8 h.e3))

-- The loop of `write_hashes`.
pub write_each : List Hash → List ℕ
unfolding write_hash
write_each [] = []
write_each (h ∷ hs) = write_hash h ++ write_each hs

-- `assert!(hashes.len() <= 255)`, the count in one byte, the hashes.
pub write_hashes : List Hash → Outcome (List ℕ)
unfolding write_each
write_hashes hs = if leb (length hs) 255 then ok (length hs % 256 ∷ write_each hs) else panic

-- `read_exact` of a slice: the bytes read and the bytes left.
pub read_exact : ℕ → List ℕ → Outcome (List ℕ × List ℕ)
read_exact n bytes =
    if ltb (length bytes) n then err unexpected_eof else ok (take n bytes, drop n bytes)

-- What plonky2 and pod2 provide. Their code may panic, on bytes and proofs that anyone can post.
pub record Backend (Proof : Type 0) : Type 0 where
  pub order : ℕ
  pub write_compressed_proof : Proof → List ℕ
  pub read_compressed_proof : List ℕ → Outcome (Proof × ℕ)
  pub verify_finalized : Payload Proof → Outcome (Unit {0})

module _ {Proof : Type 0} (backend : Backend Proof) where
  open backend use {order, write_compressed_proof, read_compressed_proof, verify_finalized}

  pub read_elem : List ℕ → Outcome (ℕ × List ℕ)
  read_elem bytes = do
    (elem_bytes, rest) ← read_exact 8 bytes
    let n = from_le_bytes elem_bytes
    reject_if (leb order n) (not_below_order n)
    ok (n, rest)

  -- `read_elems` at the four elements of a hash.
  pub read_hash : List ℕ → Outcome (Hash × List ℕ)
  read_hash bytes = do
    (n0, bytes) ← read_elem bytes
    (n1, bytes) ← read_elem bytes
    (n2, bytes) ← read_elem bytes
    (n3, bytes) ← read_elem bytes
    ok (record { e0 = n0; e1 = n1; e2 = n2; e3 = n3 }, bytes)

  pub read_each : ℕ → List ℕ → Outcome (List Hash × List ℕ)
  read_each zero bytes = ok ([], bytes)
  read_each (suc k) bytes = do
    (h, bytes) ← read_hash bytes
    (hs, bytes) ← read_each k bytes
    ok (h ∷ hs, bytes)

  pub read_hashes : List ℕ → Outcome (List Hash × List ℕ)
  read_hashes bytes = do (count, bytes) ← read_exact 1 bytes; read_each (from_le_bytes count) bytes

  -- `PayloadProof::write_bytes`
  pub write_proof : Proof → List ℕ
  write_proof proof = plonky2_byte ∷ write_compressed_proof proof

  abbrev read_plonky2 : Outcome (Proof × ℕ) → Outcome (Proof × ℕ)
  read_plonky2 read = do (proof, len) ← read; ok (proof, len + 1)

  -- `PayloadProof::from_bytes`; `bytes[0]` of no bytes panics.
  pub read_proof : List ℕ → Outcome (Proof × ℕ)
  read_proof [] = panic
  read_proof (proof_type ∷ bytes) =
      if proof_type == plonky2_byte
      then read_plonky2 (read_compressed_proof bytes)
      else err (unsupported_proof_type proof_type)

  -- `&bytes[len..]` panics past the end.
  pub slice_from : ℕ → List ℕ → Outcome (List ℕ)
  slice_from len bytes = if ltb (length bytes) len then panic else ok (drop len bytes)

  pub to_bytes : Payload Proof → Outcome (List ℕ)
  to_bytes p = do
    nullifiers ← write_hashes p.nullifiers
    created ← write_hashes p.created
    ok (
        to_le_bytes 2 payload_magic
        ++ (write_proof p.proof
            ++ (write_hash p.tx_final ++ (write_hash p.state_root ++ (nullifiers ++ created)))))

  -- `from_bytes` past the proof.
  pub read_fields : Proof → List ℕ → Outcome (Payload Proof)
  read_fields proof bytes = do
    (tx_final, bytes) ← read_hash bytes
    (state_root, bytes) ← read_hash bytes
    (nullifiers, bytes) ← read_hashes bytes
    (created, bytes) ← read_hashes bytes
    ok (record {
      proof = proof;
      tx_final = tx_final;
      state_root = state_root;
      nullifiers = nullifiers;
      created = created;
    })

  -- `from_bytes` past the magic.
  pub read_body : List ℕ → Outcome (Payload Proof)
  read_body bytes = do
    (proof, len) ← read_proof bytes
    bytes ← slice_from len bytes
    read_fields proof bytes

  pub from_bytes : List ℕ → Outcome (Payload Proof)
  from_bytes bytes = do
    (magic, bytes) ← read_exact 2 bytes
    reject_if (not (from_le_bytes magic == payload_magic)) (invalid_magic (from_le_bytes magic))
    read_body bytes

-- `parse_blob` of `ProofParser`: `Ok(Some(payload))`, `Ok(None)`, `Err` or a panic.
pub data Verdict (Proof : Type 0) : Type 0 where
  verified : Payload Proof → Verdict Proof
  foreign : Verdict Proof
  unverified : Verdict Proof
  panicked : Verdict Proof

module _ {Proof : Type 0} (backend : Backend Proof) where
  abbrev pub judge_verified : Payload Proof → Outcome (Unit {0}) → Verdict Proof
  judge_verified p (ok _) = verified p
  judge_verified p (err e) = unverified
  judge_verified p panic = panicked

  abbrev pub judge : Outcome (Payload Proof) → Verdict Proof
  judge (ok p) = judge_verified p (backend.verify_finalized p)
  judge (err e) = foreign
  judge panic = panicked

  pub parse_blob : List ℕ → Verdict Proof
  parse_blob bytes = judge (from_bytes backend bytes)
