-- ===== src/Relayer/Store/Decoding.antt =====
-- Which rows of `relay_jobs` decode (`row_to_job` of services/relayer/src/db.rs).
use digital_objects_network.Prelude.{
  ℕ, ◌≡◌, ◌^◌, ◌<◌, Option, none, some, Result, ok, err, String, Bool-cases, inl, inr, leb, false,
  refl, ap, arith, ◌≢◌, ◌⊎◌, ◌≤◌,
}
use digital_objects_network.Relayer.Job.{RelayJob}
use digital_objects_network.Relayer.Store.{row_to_job, decode_row, block_bits, some_job}

-- An unsigned number that a BIGINT holds.
abbrev pub BlockFits : Option ℕ → Type 0
BlockFits none = Unit {0}
BlockFits (some block_number) = block_number < 2 ^ 63

block_bits-fits : (block : Option ℕ) → BlockFits block → block_bits block < 2 ^ 63
block_bits-fits none h = omega arith
block_bits-fits (some block_number) h = h

pub row_to_job_fits :
    (row : RelayJob)
    → row.attempt_count < 2 ^ 31
    → BlockFits row.block_number
    → row_to_job row ≡ ok row
unfolding row_to_job
row_to_job_fits row h k =
    let attempts : leb (2 ^ 31) row.attempt_count ≡ false = ground arith in
    let block : leb (2 ^ 63) (block_bits row.block_number) ≡ false =
      ground (arith, block_bits-fits row.block_number k) in
    rw (attempts, block) refl

-- A row that decodes is the job.
pub row_to_job_ok : (row job : RelayJob) → row_to_job row ≡ ok job → row ≡ job
unfolding row_to_job
row_to_job_ok row job h = elim (Bool-cases (leb (2 ^ 31) row.attempt_count)) [
  | inl t ↦ let h₁ = rw t at h in absurd (cc)
  | inr f ↦ elim (Bool-cases (leb (2 ^ 63) (block_bits row.block_number))) [
    | inl t₁ ↦ let h₁ = rw (f, t₁) at h in absurd (cc)
    | inr f₁ ↦ let h₁ = rw (f, f₁) at h in cc
  ]
]

some_job_ok :
    (r : Result String RelayJob) (row job : RelayJob)
    → row_to_job row ≡ r
    → some_job r ≡ ok (some job)
    → row ≡ job
some_job_ok (ok a) row job e h = let e₁ = row_to_job_ok row a e in cc
some_job_ok (err e) row job _ h = absurd (cc)

some_job-none : (r : Result String RelayJob) → some_job r ≢ ok none
some_job-none (ok a) h = cc
some_job-none (err e) h = cc

pub decode_row-some :
    (row : Option RelayJob) (job : RelayJob) → decode_row row ≡ ok (some job) → row ≡ some job
unfolding decode_row
decode_row-some none job h = absurd (cc)
decode_row-some (some row) job h = ap some (some_job_ok (row_to_job row) row job refl h)

pub decode_row_fits :
    (row : RelayJob)
    → row.attempt_count < 2 ^ 31
    → BlockFits row.block_number
    → decode_row (some row) ≡ ok (some row)
unfolding decode_row
decode_row_fits row h k = rw (row_to_job_fits row h k) refl

-- A row comes back as it is, or as the error that one of its two columns gives.
abbrev pub Decodes : RelayJob → Type 0
Decodes row =
    (row_to_job row ≡ ok row)
    ⊎ ((2 ^ 31 ≤ row.attempt_count) ⊎ (2 ^ 63 ≤ block_bits row.block_number))

pub row_to_job-Decodes : (row : RelayJob) → Decodes row
unfolding row_to_job
row_to_job-Decodes row = elim (Bool-cases (leb (2 ^ 31) row.attempt_count)) [
  | inl t ↦ inr (inl (ground arith))
  | inr f ↦ elim (Bool-cases (leb (2 ^ 63) (block_bits row.block_number))) [
    | inl t₁ ↦ inr (inr (ground arith))
    | inr f₁ ↦ inl (rw (f, f₁) refl)
  ]
]
