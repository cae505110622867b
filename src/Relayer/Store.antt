-- ===== src/Relayer/Store.antt =====
-- services/relayer/src/db.rs: the SQL statements over the table `relay_jobs`, as functions on its
-- rows. A row shows its columns as the fields that were bound: `as i32` and `as i64` keep the bits of
-- `attempt_count` and `block_number`, which stand here as the unsigned numbers with those bits, and
-- `row_to_job` refuses the rows in which they are negative as the columns' own types.
pub mod Rows
pub mod Decoding
pub mod Table
pub mod Recovery
pub mod Schedule
pub mod Insertion
use digital_objects_network.Prelude.{
  ℕ, ℤ, zero, suc, ◌+◌, List, [], ◌∷◌, ◌++◌, Option, none, some, Bool, true, false, ◌&&◌, ◌||◌,
  Hash, hash_eq, String, str_eq, if◌then◌else◌, Result, ok, err, is_some, not, leb, ◌^◌,
}
use digital_objects_network.Prelude.Int.{leb_ℤ, ltb_ℤ}
use digital_objects_network.Relayer.Job.{JobStatus, queued, sending, submitted, RelayJob}

abbrev pub block_bits : Option ℕ → ℕ
block_bits none = 0
block_bits (some block_number) = block_number

-- The range checks on the columns INTEGER and BIGINT: those with the sign bit are negative.
pub row_to_job : RelayJob → Result String RelayJob
row_to_job row =
    if leb (2 ^ 31) row.attempt_count
    then err "invalid attempt_count"
    else if leb (2 ^ 63) (block_bits row.block_number)
    then err "invalid block_number"
    else ok row

abbrev some_job : Result String RelayJob → Result String (Option RelayJob)
some_job (ok job) = ok (some job)
some_job (err e) = err e

-- `row.map(row_to_job).transpose()`
unfoldable pub decode_row : Option RelayJob → Result String (Option RelayJob)
decode_row none = ok none
decode_row (some row) = some_job (row_to_job row)

-- The row of `get_job`: SELECT … WHERE job_id = $1.
unfoldable pub get_job : String → List RelayJob → Option RelayJob
get_job id [] = none
get_job id (row ∷ rows) = if str_eq row.job_id id then some row else get_job id rows

-- The row of `get_job_by_tx_final`: SELECT … WHERE tx_final = $1.
unfoldable pub get_job_by_tx_final : Hash → List RelayJob → Option RelayJob
get_job_by_tx_final h [] = none
get_job_by_tx_final h (row ∷ rows) =
    if hash_eq row.tx_final h then some row else get_job_by_tx_final h rows

-- INSERT … ON CONFLICT (tx_final) DO NOTHING RETURNING job_id: whether a row was inserted. The
-- primary key on `job_id` refuses a second row with that key.
pub insert_row : RelayJob → List RelayJob → Result String Bool × List RelayJob
insert_row job rows =
    if is_some (get_job_by_tx_final job.tx_final rows)
    then (ok false, rows)
    else if is_some (get_job job.job_id rows)
    then (err "duplicate key value violates unique constraint", rows)
    else (ok true, rows ++ job ∷ [])

-- UPDATE … WHERE job_id = $1.
pub update_row : RelayJob → List RelayJob → List RelayJob
update_row job [] = []
update_row job (row ∷ rows) =
    (if str_eq row.job_id job.job_id then job else row) ∷ update_row job rows

-- The rows that the statement affects.
pub rows_affected : String → List RelayJob → ℕ
rows_affected id [] = 0
rows_affected id (row ∷ rows) = (if str_eq row.job_id id then 1 else 0) + rows_affected id rows

abbrev is_zero : ℕ → Bool
is_zero zero = true
is_zero (suc n) = false

-- UPDATE … of all columns, an error when there is no such row.
pub put_job : RelayJob → List RelayJob → Result String (Unit {0}) × List RelayJob
unfolding rows_affected
put_job job rows = (
  if is_zero (rows_affected job.job_id rows) then err "job not found" else ok tt,
  update_row job rows,
)

-- WHERE status = 'sending' OR (status = 'submitted' AND tx_hash IS NULL)
abbrev pub is_inflight : JobStatus → Option String → Bool
is_inflight sending tx_hash = true
is_inflight submitted tx_hash = not (is_some tx_hash)
is_inflight _ tx_hash = false

pub requeue : ℤ → RelayJob → RelayJob
requeue now row =
    if is_inflight row.status row.tx_hash
    then record row { status = queued; next_attempt_at = some now; updated_at = now }
    else row

pub recover_inflight_jobs : ℤ → List RelayJob → ℕ × List RelayJob
recover_inflight_jobs now [] = (0, [])
recover_inflight_jobs now (row ∷ rows) =
    let (n, rest) = recover_inflight_jobs now rows in
    ((if is_inflight row.status row.tx_hash then 1 else 0) + n, requeue now row ∷ rest)

-- WHERE status IN ('queued', 'sending', 'submitted') AND (next_attempt_at IS NULL OR … <= $1)
abbrev pub is_active : JobStatus → Bool
is_active queued = true
is_active sending = true
is_active submitted = true
is_active _ = false

abbrev pub has_come : ℤ → Option ℤ → Bool
has_come now none = true
has_come now (some at) = leb_ℤ at now

abbrev pub is_due : ℤ → RelayJob → Bool
is_due now row = is_active row.status && has_come now row.next_attempt_at

-- COALESCE(next_attempt_at, created_at)
abbrev pub due_key : Option ℤ → ℤ → ℤ
due_key none created_at = created_at
due_key (some at) created_at = at

-- Whether a row comes strictly before another in ORDER BY COALESCE(…), created_at.
abbrev pub comes_before : RelayJob → RelayJob → Bool
comes_before a b =
    ltb_ℤ (due_key a.next_attempt_at a.created_at) (due_key b.next_attempt_at b.created_at)
    || (leb_ℤ (due_key a.next_attempt_at a.created_at) (due_key b.next_attempt_at b.created_at)
        && ltb_ℤ a.created_at b.created_at)

-- The first of the rows in that order; of rows that tie, the later one in the list gives way.
abbrev pub earlier : RelayJob → Option RelayJob → Option RelayJob
earlier row none = some row
earlier row (some best) = if comes_before best row then some best else some row

-- The row that `next_due_job` decodes: … LIMIT 1.
pub next_due_job : ℤ → List RelayJob → Option RelayJob
next_due_job now [] = none
next_due_job now (row ∷ rows) =
    let rest = next_due_job now rows in if is_due now row then earlier row rest else rest
