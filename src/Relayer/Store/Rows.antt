-- ===== src/Relayer/Store/Rows.antt =====
-- What an UPDATE by key does to the rows of `relay_jobs` (services/relayer/src/db.rs).
use mathlib.Core.Path.{subst}
use digital_objects_network.Prelude.{
  ok, ◌≡◌, ◌≢◌, refl, List, [], ◌∷◌, none, some, String, str_eq, str_eq_iff, arith, Bool-cases, inl,
  inr, All, false,
}
use digital_objects_network.Relayer.Job.{RelayJob}
use digital_objects_network.Relayer.Store.{get_job, update_row, put_job, rows_affected, is_zero}

-- A later update of the same row covers an earlier one.
pub update_row_twice :
    (a b : RelayJob) (rows : List RelayJob)
    → a.job_id ≡ b.job_id
    → update_row b (update_row a rows) ≡ update_row b rows
unfolding update_row
update_row_twice a b [] e = refl
update_row_twice a b (row ∷ rows) e = ground (
  arith,
  str_eq_iff row.job_id a.job_id,
  str_eq_iff row.job_id b.job_id,
  str_eq_iff a.job_id b.job_id,
  update_row_twice a b rows e,
)

-- An update leaves the other rows alone.
pub get_job-update_row_ne :
    (id : String) (job : RelayJob) (rows : List RelayJob)
    → job.job_id ≢ id
    → get_job id (update_row job rows) ≡ get_job id rows
unfolding get_job update_row
get_job-update_row_ne id job [] h = refl
get_job-update_row_ne id job (row ∷ rows) h = ground (
  arith,
  str_eq_iff row.job_id job.job_id,
  str_eq_iff row.job_id id,
  str_eq_iff job.job_id id,
  get_job-update_row_ne id job rows h,
)

-- The updated row is what the key finds, if it was there.
pub get_job-update_row :
    (job : RelayJob) (rows : List RelayJob)
    → get_job job.job_id rows ≢ none
    → get_job job.job_id (update_row job rows) ≡ some job
unfolding get_job update_row
get_job-update_row job [] h = absurd (h refl)
get_job-update_row job (row ∷ rows) h = ground (
  arith,
  str_eq_iff row.job_id job.job_id,
  str_eq_iff job.job_id job.job_id,
  get_job-update_row job rows,
)

pub get_job-job_id :
    (id : String) (rows : List RelayJob) (row : RelayJob)
    → get_job id rows ≡ some row
    → row.job_id ≡ id
unfolding get_job
get_job-job_id id [] row e = cc
get_job-job_id id (r ∷ rows) row e =
    ground (arith, str_eq_iff r.job_id id, get_job-job_id id rows row)

pub All-update_row {ℓ} :
    (P : RelayJob → Type ℓ) (job : RelayJob) (rows : List RelayJob)
    → P job
    → All P rows
    → All P (update_row job rows)
unfolding update_row
All-update_row P job [] h hs = tt
All-update_row P job (row ∷ rows) h hs = elim (Bool-cases (str_eq row.job_id job.job_id)) [
  | inl e ↦ rw e (h, All-update_row P job rows h hs.1)
  | inr e ↦ rw e (hs.0, All-update_row P job rows h hs.1)
]

pub put_job-rows :
    (job : RelayJob) (rows : List RelayJob) → (put_job job rows).1 ≡ update_row job rows
unfolding put_job
put_job-rows job rows = refl

pub All-get_job {ℓ} :
    (P : RelayJob → Type ℓ) (id : String) (rows : List RelayJob) (a : RelayJob)
    → All P rows
    → get_job id rows ≡ some a
    → P a
unfolding get_job
All-get_job P id [] a h e = cc
All-get_job P id (row ∷ rows) a h e = elim (Bool-cases (str_eq row.job_id id)) [
  | inl k ↦ let e₁ : row ≡ a = ground arith in subst P e₁ h.0
  | inr k ↦ All-get_job P id rows a h.1 (ground arith)
]

rows_affected_found :
    (id : String) (rows : List RelayJob)
    → get_job id rows ≢ none
    → is_zero (rows_affected id rows) ≡ false
unfolding get_job rows_affected
rows_affected_found id [] h = absurd (h refl)
rows_affected_found id (row ∷ rows) h = ground (arith, rows_affected_found id rows)

-- The update of a row that is there succeeds.
pub put_job_found :
    (job : RelayJob) (rows : List RelayJob)
    → get_job job.job_id rows ≢ none
    → put_job job rows ≡ (ok tt, update_row job rows)
unfolding put_job
put_job_found job rows h = rw (rows_affected_found job.job_id rows h)
