-- ===== src/Relayer/Store/Insertion.antt =====
-- What the INSERT of services/relayer/src/db.rs does to the table.
use digital_objects_network.Relayer.Job.{RelayJob, WorkerConfig}
use digital_objects_network.Relayer.Store.Table.{
  TableOk, UniqueIds, UniqueTxs, Evolves, Evolves-refl, SameJob-refl,
}
use digital_objects_network.Relayer.Store.{get_job, get_job_by_tx_final, insert_row}
use digital_objects_network.Relayer.Updates.JobOk.{JobOk}
use digital_objects_network.Prelude.{
  ◌≡◌, ◌⊎◌, inl, inr, List, [], ◌∷◌, ◌++◌, some, none, Option-cases, str_eq, str_eq_iff, hash_eq,
  hash_eq_iff, All-append, arith, refl, ok, false, String, Hash, true,
}

-- The rows are as before, or a good job under two new keys stands behind them.
abbrev pub Grows : WorkerConfig → List RelayJob → List RelayJob → Type 0
Grows cfg rows rows' =
    (rows' ≡ rows)
    ⊎ ((job : RelayJob) × (get_job job.job_id rows ≡ none)
        × (get_job_by_tx_final job.tx_final rows ≡ none)
        × JobOk cfg job
        × (rows' ≡ rows ++ job ∷ []))

pub insert_row-Grows :
    (cfg : WorkerConfig) (job : RelayJob) (rows : List RelayJob)
    → JobOk cfg job
    → Grows cfg rows (insert_row job rows).1
unfolding insert_row
insert_row-Grows cfg job rows v = elim (Option-cases (get_job_by_tx_final job.tx_final rows)) [
  | inr (row, e) ↦ inl (rw e)
  | inl e ↦ elim (Option-cases (get_job job.job_id rows)) [
    | inr (row, k) ↦ inl (rw (e, k))
    | inl k ↦ inr (job, k, e, v, rw (e, k))
  ]
]

-- A known `tx_final` inserts nothing.
pub insert_row_known :
    (job row : RelayJob) (rows : List RelayJob)
    → get_job_by_tx_final job.tx_final rows ≡ some row
    → insert_row job rows ≡ (ok false, rows)
unfolding insert_row
insert_row_known job row rows e = rw e

-- A row under two new keys goes behind the others.
pub insert_row_new :
    (job : RelayJob) (rows : List RelayJob)
    → get_job_by_tx_final job.tx_final rows ≡ none
    → get_job job.job_id rows ≡ none
    → insert_row job rows ≡ (ok true, rows ++ job ∷ [])
unfolding insert_row
insert_row_new job rows e k = rw (e, k)

pub get_job-append_old :
    (id : String) (rows : List RelayJob) (job a : RelayJob)
    → get_job id rows ≡ some a
    → get_job id (rows ++ job ∷ []) ≡ some a
unfolding get_job
get_job-append_old id [] job a e = cc
get_job-append_old id (row ∷ rows) job a e = ground (arith, get_job-append_old id rows job a)

pub get_job-append_new :
    (rows : List RelayJob) (job : RelayJob)
    → get_job job.job_id rows ≡ none
    → get_job job.job_id (rows ++ job ∷ []) ≡ some job
unfolding get_job
get_job-append_new [] job e = ground (arith, str_eq_iff job.job_id job.job_id)
get_job-append_new (row ∷ rows) job e = ground (arith, get_job-append_new rows job)

get_job-none-append :
    (id : String) (rows : List RelayJob) (job : RelayJob)
    → get_job id rows ≡ none
    → str_eq job.job_id id ≡ false
    → get_job id (rows ++ job ∷ []) ≡ none
unfolding get_job
get_job-none-append id [] job e n = rw n
get_job-none-append id (row ∷ rows) job e n = ground (arith, get_job-none-append id rows job)

get_tx_none-append :
    (h : Hash) (rows : List RelayJob) (job : RelayJob)
    → get_job_by_tx_final h rows ≡ none
    → hash_eq job.tx_final h ≡ false
    → get_job_by_tx_final h (rows ++ job ∷ []) ≡ none
unfolding get_job_by_tx_final
get_tx_none-append h [] job e n = rw n
get_tx_none-append h (row ∷ rows) job e n = ground (arith, get_tx_none-append h rows job)

UniqueIds-append :
    (rows : List RelayJob) (job : RelayJob)
    → UniqueIds rows
    → get_job job.job_id rows ≡ none
    → UniqueIds (rows ++ job ∷ [])
unfolding get_job
UniqueIds-append [] job u e = (refl, tt)
UniqueIds-append (row ∷ rows) job u e = (
  get_job-none-append row.job_id rows job u.0
      (ground (arith, str_eq_iff row.job_id job.job_id, str_eq_iff job.job_id row.job_id)),
  UniqueIds-append rows job u.1 (ground arith),
)

UniqueTxs-append :
    (rows : List RelayJob) (job : RelayJob)
    → UniqueTxs rows
    → get_job_by_tx_final job.tx_final rows ≡ none
    → UniqueTxs (rows ++ job ∷ [])
unfolding get_job_by_tx_final
UniqueTxs-append [] job u e = (refl, tt)
UniqueTxs-append (row ∷ rows) job u e = (
  get_tx_none-append row.tx_final rows job u.0 (
      ground (arith, hash_eq_iff row.tx_final job.tx_final, hash_eq_iff job.tx_final row.tx_final)),
  UniqueTxs-append rows job u.1 (ground arith),
)

pub Grows-sound :
    (cfg : WorkerConfig) (rows rows' : List RelayJob)
    → TableOk cfg rows
    → Grows cfg rows rows'
    → TableOk cfg rows' × Evolves rows rows'
Grows-sound cfg rows rows' t (inl same) = rw same (t, Evolves-refl rows)
Grows-sound cfg rows rows' t (inr (job, k, e, v, same)) = rw same (
  record {
    jobs_ok = All-append (JobOk cfg) rows (job ∷ []) t.jobs_ok (v, tt);
    ids_unique = UniqueIds-append rows job t.ids_unique k;
    txs_unique = UniqueTxs-append rows job t.txs_unique e;
  },
  λ id a f. (a, get_job-append_old id rows job a f, (SameJob-refl a, λ _. refl)),
)
