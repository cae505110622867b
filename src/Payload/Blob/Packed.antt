-- ===== src/Payload/Blob/Packed.antt =====
-- The bytes of an encoded blob described field element by field element, and how they are read.
use mathlib.Core.Path.{subst}
use digital_objects_network.Prelude.{
  ℕ, zero, suc, ◌+◌, ◌-◌, ◌*◌, ◌^◌, ◌≤◌, ◌<◌, ◌≡◌, refl, ap, List, [], ◌∷◌, ◌++◌, append_assoc,
  append-nil, ◌⊎◌, inl, inr, length, take, drop, replicate, arith, drop-append, take-append,
  length-append, length-take, length-drop, drop_all, length-replicate, take-append_add,
  replicate-add, drop-replicate, take-append-drop, Bool-cases, leb, leb→le,
}
use digital_objects_network.Payload.Blob.{
  to_be_bytes, from_be_bytes, chunks_fuel, chunks, flat_tails,
}

pub length-to_be_bytes : (k n : ℕ) → length (to_be_bytes k n) ≡ k
unfolding to_be_bytes
length-to_be_bytes zero n = refl
length-to_be_bytes (suc k) n = ap suc (length-to_be_bytes k n)

-- Eight big-endian bytes hold every `u64`.
pub from_be_bytes-to_be_bytes : (n : ℕ) → n < 2 ^ 64 → from_be_bytes 0 (to_be_bytes 8 n) ≡ n
unfolding to_be_bytes from_be_bytes
from_be_bytes-to_be_bytes n h = omega arith

-- More fuel than the length changes nothing.
chunks_fuel-enough :
    (f g w : ℕ) (xs : List ℕ)
    → length xs ≤ f
    → length xs ≤ g
    → chunks_fuel f (suc w) xs ≡ chunks_fuel g (suc w) xs
unfolding chunks_fuel
chunks_fuel-enough zero zero w xs h k = refl
chunks_fuel-enough zero (suc g) w [] h k = refl
chunks_fuel-enough zero (suc g) w (x ∷ xs) h k = absurd (omega arith)
chunks_fuel-enough (suc f) zero w [] h k = refl
chunks_fuel-enough (suc f) zero w (x ∷ xs) h k = absurd (omega arith)
chunks_fuel-enough (suc f) (suc g) w [] h k = refl
chunks_fuel-enough (suc f) (suc g) w (x ∷ xs) h k = ap (◌∷◌ (x ∷ take w xs)) (
    chunks_fuel-enough f g w (drop w xs) (omega (arith, length-drop w xs))
      (omega (arith, length-drop w xs)))

pub chunks-append :
    (w : ℕ) (ys zs : List ℕ)
    → length ys ≡ suc w
    → chunks (suc w) (ys ++ zs) ≡ ys ∷ chunks (suc w) zs
unfolding chunks_fuel
chunks-append w [] zs e = absurd (omega arith)
chunks-append w (y ∷ ys) zs e =
    let t = take-append w ys zs (omega arith) in
    let d = drop-append w ys zs (omega arith) in
    rw (t, d)
      (ap (◌∷◌ (y ∷ ys)) (
        chunks_fuel-enough (length (ys ++ zs)) (length zs) w zs (omega (arith, length-append ys zs))
          (omega arith)))

pub chunks-step :
    (w : ℕ) (xs : List ℕ)
    → 0 < length xs
    → chunks (suc w) xs ≡ take (suc w) xs ∷ chunks (suc w) (drop (suc w) xs)
unfolding chunks_fuel
chunks-step w [] h = elim h [ ]
chunks-step w (x ∷ xs) h = ap (◌∷◌ (x ∷ take w xs)) (
    chunks_fuel-enough (length xs) (length (drop w xs)) w (drop w xs)
      (omega (arith, length-drop w xs)) (omega arith))

unfoldable pub zeros : ℕ → List ℕ
zeros n = replicate n 0

pub length-zeros : (n : ℕ) → length (zeros n) ≡ n
unfolding zeros
length-zeros n = length-replicate n 0

pub zeros-add : (m n : ℕ) → zeros (m + n) ≡ zeros m ++ zeros n
unfolding zeros
zeros-add m n = replicate-add m n 0

pub drop-zeros : (n m : ℕ) → drop n (zeros (n + m)) ≡ zeros m
unfolding zeros
drop-zeros n m = drop-replicate n m 0

-- One field element: a zero byte, the data, and zeros up to 31 data bytes.
unfoldable pub field : List ℕ → List ℕ
field bytes = 0 ∷ bytes ++ zeros (31 - length bytes)

-- The data field elements of a blob, without the loop.
unfoldable pub packed : ℕ → List ℕ → List ℕ
packed zero bytes = []
packed (suc k) bytes = field (take 31 bytes) ++ packed k (drop 31 bytes)

pub length-field : (bytes : List ℕ) → length bytes ≤ 31 → length (field bytes) ≡ 32
unfolding field
length-field bytes h =
    omega (arith, length-append bytes (zeros (31 - length bytes)), length-zeros (31 - length bytes))

pub length-packed : (k : ℕ) (bytes : List ℕ) → length (packed k bytes) ≡ 32 * k
unfolding packed
length-packed zero bytes = omega arith
length-packed (suc k) bytes =
    let chunk : List ℕ = take 31 bytes in
    let rest : List ℕ = drop 31 bytes in
    omega (
      arith,
      length-append (field chunk) (packed k rest),
      length-packed k rest,
      length-field chunk (omega (arith, length-take 31 bytes)),
    )

field-nil : field [] ≡ zeros 32
unfolding field zeros replicate
field-nil = refl

pub packed-nil : (k : ℕ) → packed k [] ≡ zeros (32 * k)
unfolding packed
packed-nil zero = let e : 32 * 0 ≡ 0 = omega arith in rw e (unfold zeros replicate in refl)
packed-nil (suc k) =
    let e : 32 * suc k ≡ 32 + 32 * k = omega arith in
    rw (e, zeros-add 32 (32 * k), packed-nil k, field-nil)

read_chunk :
    (chunk rest bytes : List ℕ)
    → (length chunk ≡ 31) ⊎ (rest ≡ [])
    → take (length rest) bytes ≡ rest
    → take (length (chunk ++ rest)) ((chunk ++ zeros (31 - length chunk)) ++ bytes) ≡ chunk ++ rest
read_chunk chunk rest bytes (inl e) h =
    rw (e, length-append chunk rest)
      (unfold zeros replicate in rw (append-nil, take-append_add (length rest) chunk bytes, h))
read_chunk chunk rest bytes (inr e) h =
    rw (e, append-nil, append_assoc) (take-append (length chunk) chunk _ refl)

flat_tails-field :
    (bytes : List ℕ) (rest : List (List ℕ))
    → flat_tails (field bytes ∷ rest) ≡ (bytes ++ zeros (31 - length bytes)) ++ flat_tails rest
unfolding flat_tails field
flat_tails-field bytes rest = refl

chunk_or_end : (bytes : List ℕ) → (length (take 31 bytes) ≡ 31) ⊎ (drop 31 bytes ≡ [])
chunk_or_end bytes = elim (Bool-cases (leb 31 (length bytes))) [
  | inl h ↦ inl (omega (arith, length-take 31 bytes, leb→le 31 (length bytes) h))
  | inr h ↦ inr (drop_all 31 bytes (ground arith))
]

-- Reading the data bytes of packed field elements gives the data back.
pub take-packed :
    (k : ℕ) (bytes : List ℕ)
    → length bytes ≤ 31 * k
    → take (length bytes) (flat_tails (chunks 32 (packed k bytes))) ≡ bytes
unfolding packed
take-packed zero [] h = refl
take-packed zero (x ∷ bytes) h = absurd (omega arith)
take-packed (suc k) bytes h =
    let chunk : List ℕ = take 31 bytes in
    let rest : List ℕ = drop 31 bytes in
    let short : length chunk ≤ 31 = omega (arith, length-take 31 bytes) in
    rw
      (
        chunks-append 31 (field chunk) (packed k rest) (length-field chunk short),
        flat_tails-field chunk (chunks 32 (packed k rest)),
      )
      (subst
        (λ b.
          take (length b)
            ((chunk ++ zeros (31 - length chunk)) ++ flat_tails (chunks 32 (packed k rest)))
          ≡ b)
        (take-append-drop 31 bytes)
        (read_chunk chunk rest _ (chunk_or_end bytes)
          (take-packed k rest (omega (arith, length-drop 31 bytes)))))

-- The first field element: a zero byte, the length in eight bytes, zeros.
unfoldable pub header : ℕ → List ℕ
header n = 0 ∷ to_be_bytes 8 n ++ zeros 23

pub length-header : (n : ℕ) → length (header n) ≡ 32
unfolding header
length-header n =
    omega
      (arith, length-append (to_be_bytes 8 n) (zeros 23), length-to_be_bytes 8 n, length-zeros 23)
