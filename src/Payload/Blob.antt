-- ===== src/Payload/Blob.antt =====
-- libs/payload/src/blob.rs: the "simple" coding of bytes in the field elements of one blob.
-- A byte is a number below 256; `FIELD_ELEMENT_BYTES_USIZE` is alloy's constant, 32 in EIP-4844
-- and in the comments of the source (a zero byte and 31 data bytes).
mod Packed
mod Writing
pub mod RoundTrip
use digital_objects_network.Prelude.{
  ℕ, zero, suc, ◌+◌, ◌-◌, ◌*◌, ◌/◌, ◌%◌, ◌^◌, List, [], ◌∷◌, ◌++◌, not, ltb, ◌==◌, length, take,
  drop, replicate, Result, ok, ◌>>◌, reject_if,
}

abbrev pub field_element_bytes_usize : ℕ
field_element_bytes_usize = 32

-- Field elements of a blob.
abbrev pub blob_field_elements : ℕ
blob_field_elements = 4096

abbrev pub simple_blob_bytes : ℕ
simple_blob_bytes = 4096 * field_element_bytes_usize

abbrev pub max_simple_blob_payload_bytes : ℕ
max_simple_blob_payload_bytes = (4096 - 1) * (field_element_bytes_usize - 1)

pub data BlobError : Type 0 where
  too_short not_multiple no_field_element : ℕ → BlobError
  cannot_accommodate : ℕ → ℕ → BlobError
  too_long : ℕ → BlobError

-- `u64::to_be_bytes` and `u64::from_be_bytes`, on any number of bytes.
pub to_be_bytes : ℕ → ℕ → List ℕ
to_be_bytes zero n = []
to_be_bytes (suc k) n = n / 256 ^ k % 256 ∷ to_be_bytes k n

pub from_be_bytes : ℕ → List ℕ → ℕ
from_be_bytes acc [] = acc
from_be_bytes acc (b ∷ bs) = from_be_bytes (acc * 256 + b) bs

-- `slice.chunks(n)`: the fuel bounds the chunks and the length of the slice is enough.
pub chunks_fuel : ℕ → ℕ → List ℕ → List (List ℕ)
chunks_fuel zero n xs = []
chunks_fuel (suc f) n [] = []
chunks_fuel (suc f) n (x ∷ xs) = take n (x ∷ xs) ∷ chunks_fuel f n (drop n (x ∷ xs))

abbrev pub chunks : ℕ → List ℕ → List (List ℕ)
chunks n xs = chunks_fuel (length xs) n xs

-- `chunks.flat_map(|chunk| chunk[1..])`
pub flat_tails : List (List ℕ) → List ℕ
flat_tails [] = []
flat_tails (c ∷ cs) = drop 1 c ++ flat_tails cs

pub decode_simple_blob : List ℕ → Result BlobError (List ℕ)
decode_simple_blob blob_bytes = do
  let len = length blob_bytes
  reject_if (ltb len 9) (too_short len)
  reject_if (not (len % field_element_bytes_usize == 0)) (not_multiple len)
  let data_len = from_be_bytes 0 (take 8 (drop 1 blob_bytes))
  let field_elements = len / field_element_bytes_usize
  reject_if (ltb field_elements 1) (no_field_element len)
  let max_data_len = (field_elements - 1) * (field_element_bytes_usize - 1)
  reject_if (ltb max_data_len data_len) (cannot_accommodate len data_len)
  ok (take data_len (flat_tails (drop 1 (chunks field_element_bytes_usize blob_bytes))))

-- `blob[offset..offset + src.len()].copy_from_slice(src)`; the callers stay in range.
pub copy_at : ℕ → List ℕ → List ℕ → List ℕ
copy_at offset src blob = take offset blob ++ (src ++ drop (offset + length src) blob)

-- The loop over `data.chunks(31).enumerate()`, from index `i` on.
pub write_chunks : ℕ → List (List ℕ) → List ℕ → List ℕ
write_chunks i [] blob = blob
write_chunks i (chunk ∷ rest) blob =
    let offset = (i + 1) * field_element_bytes_usize in
    write_chunks (i + 1) rest (copy_at (offset + 1) chunk (copy_at offset (0 ∷ []) blob))

-- The body of `encode_simple_blob` past its guard, for a blob of any number of field elements.
pub fill_blob : ℕ → List ℕ → List ℕ
fill_blob field_elements bytes =
    let zeroed = replicate (field_elements * field_element_bytes_usize) 0 in
    let headed = copy_at 1 (to_be_bytes 8 (length bytes)) zeroed in
    write_chunks 0 (chunks (field_element_bytes_usize - 1) bytes) headed

pub encode_simple_blob : List ℕ → Result BlobError (List ℕ)
encode_simple_blob bytes = do
  reject_if (ltb max_simple_blob_payload_bytes (length bytes)) (too_long (length bytes))
  ok (fill_blob blob_field_elements bytes)
