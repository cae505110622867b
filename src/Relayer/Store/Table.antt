-- ===== src/Relayer/Store/Table.antt =====
-- The table `relay_jobs` as a whole: its two unique keys, and how its rows may change.
use digital_objects_network.Prelude.{
  ◌≡◌, refl, ◌∙◌, List, [], ◌∷◌, none, some, true, Hash, hash_eq_iff, String, str_eq, str_eq_iff,
  arith, All, inl, inr, Bool-cases, false, ℤ,
}
use digital_objects_network.Relayer.Job.{RelayJob, WorkerConfig, is_terminal}
use digital_objects_network.Relayer.Store.{
  get_job, get_job_by_tx_final, update_row, next_due_job, is_due,
}
use digital_objects_network.Relayer.Updates.JobOk.{JobOk, SameJob}
use digital_objects_network.Relayer.Store.Rows.{
  All-update_row, get_job-update_row, get_job-update_row_ne,
}

-- The primary key, and the UNIQUE constraint on `tx_final`.
abbrev pub UniqueIds : List RelayJob → Type 0
UniqueIds [] = Unit {0}
UniqueIds (row ∷ rows) = (get_job row.job_id rows ≡ none) × UniqueIds rows

abbrev pub UniqueTxs : List RelayJob → Type 0
UniqueTxs [] = Unit {0}
UniqueTxs (row ∷ rows) = (get_job_by_tx_final row.tx_final rows ≡ none) × UniqueTxs rows

pub record TableOk (cfg : WorkerConfig) (rows : List RelayJob) : Type 0 where
  pub jobs_ok : All (JobOk cfg) rows
  pub ids_unique : UniqueIds rows
  pub txs_unique : UniqueTxs rows

-- A row stays, keeps its identity, and does not change once it is finished.
abbrev pub Becomes : RelayJob → RelayJob → Type 0
Becomes a b = SameJob a b × (is_terminal a.status ≡ true → b ≡ a)

abbrev pub Evolves : List RelayJob → List RelayJob → Type 0
Evolves rows rows' =
    (id : String) (a : RelayJob)
    → get_job id rows ≡ some a
    → (b : RelayJob) × (get_job id rows' ≡ some b) × Becomes a b

pub SameJob-refl : (a : RelayJob) → SameJob a a
SameJob-refl a = ground arith

pub Evolves-refl : (rows : List RelayJob) → Evolves rows rows
Evolves-refl rows id a e = (a, e, (SameJob-refl a, λ _. refl))

pub Evolves-trans : (a b c : List RelayJob) → Evolves a b → Evolves b c → Evolves a c
Evolves-trans a b c h k id x e =
    let (y, f, p) = h id x e in
    let (z, g, q) = k id y f in (z, g, (ground arith, λ t. q.1 (rw (p.1 t) t) ∙ p.1 t))

get_job-none-update_row :
    (id : String) (job : RelayJob) (rows : List RelayJob)
    → get_job id rows ≡ none
    → get_job id (update_row job rows) ≡ none
unfolding get_job update_row
get_job-none-update_row id job [] h = refl
get_job-none-update_row id job (row ∷ rows) h = ground (
  arith,
  str_eq_iff row.job_id job.job_id,
  str_eq_iff row.job_id id,
  str_eq_iff job.job_id id,
  get_job-none-update_row id job rows,
)

UniqueIds-update_row :
    (job : RelayJob) (rows : List RelayJob) → UniqueIds rows → UniqueIds (update_row job rows)
unfolding update_row
UniqueIds-update_row job [] u = tt
UniqueIds-update_row job (row ∷ rows) u = elim (Bool-cases (str_eq row.job_id job.job_id)) [
  | inl e ↦ rw e (
    get_job-none-update_row job.job_id job rows
        (let k = (str_eq_iff row.job_id job.job_id).0 e in rw (← k) u.0),
    UniqueIds-update_row job rows u.1,
  )
  | inr e ↦
      rw e (get_job-none-update_row row.job_id job rows u.0, UniqueIds-update_row job rows u.1)
]

-- The job to be written has the `tx_final` of the row it replaces.
abbrev pub SameTx : RelayJob → List RelayJob → Type 0
SameTx job rows = All (λ row. row.job_id ≡ job.job_id → row.tx_final ≡ job.tx_final) rows

get_tx_none-update_row :
    (h : Hash) (job : RelayJob) (rows : List RelayJob)
    → SameTx job rows
    → get_job_by_tx_final h rows ≡ none
    → get_job_by_tx_final h (update_row job rows) ≡ none
unfolding get_job_by_tx_final update_row
get_tx_none-update_row h job [] s e = refl
get_tx_none-update_row h job (row ∷ rows) s e = ground (
  arith,
  str_eq_iff row.job_id job.job_id,
  hash_eq_iff row.tx_final h,
  hash_eq_iff job.tx_final h,
  get_tx_none-update_row h job rows s.1,
)

UniqueTxs-update_row :
    (job : RelayJob) (rows : List RelayJob)
    → SameTx job rows
    → UniqueTxs rows
    → UniqueTxs (update_row job rows)
unfolding update_row
UniqueTxs-update_row job [] s u = tt
UniqueTxs-update_row job (row ∷ rows) s u = elim (Bool-cases (str_eq row.job_id job.job_id)) [
  | inl e ↦ rw e (
    get_tx_none-update_row job.tx_final job rows s.1
        (rw (← s.0 ((str_eq_iff row.job_id job.job_id).0 e)) u.0),
    UniqueTxs-update_row job rows s.1 u.1,
  )
  | inr e ↦
      rw e (
        get_tx_none-update_row row.tx_final job rows s.1 u.0,
        UniqueTxs-update_row job rows s.1 u.1,
      )
]

-- With unique keys the row that the key finds is the only one with it.
SameTx-absent :
    (job : RelayJob) (rows : List RelayJob) → get_job job.job_id rows ≡ none → SameTx job rows
unfolding get_job
SameTx-absent job [] h = tt
SameTx-absent job (row ∷ rows) h = (
  ground (arith, str_eq_iff row.job_id job.job_id),
  SameTx-absent job rows (ground (arith, str_eq_iff row.job_id job.job_id)),
)

SameTx-found :
    (job a : RelayJob) (rows : List RelayJob)
    → UniqueIds rows
    → get_job job.job_id rows ≡ some a
    → job.tx_final ≡ a.tx_final
    → SameTx job rows
unfolding get_job
SameTx-found job a [] u h e = tt
SameTx-found job a (row ∷ rows) u h e = elim (Bool-cases (str_eq row.job_id job.job_id)) [
  | inl k ↦
      let same = (str_eq_iff row.job_id job.job_id).0 k in
      (λ _. ground arith, SameTx-absent job rows (rw (← same) u.0))
  | inr k ↦ (
    λ same. ground (arith, str_eq_iff row.job_id job.job_id),
    SameTx-found job a rows u.1 (ground arith) e,
  )
]

-- One update of a row that is not finished.
pub TableOk-update_row :
    (cfg : WorkerConfig) (rows : List RelayJob) (a job : RelayJob)
    → TableOk cfg rows
    → get_job job.job_id rows ≡ some a
    → SameJob a job
    → JobOk cfg job
    → TableOk cfg (update_row job rows)
TableOk-update_row cfg rows a job t e s v = record {
  jobs_ok = All-update_row (JobOk cfg) job rows v t.jobs_ok;
  ids_unique = UniqueIds-update_row job rows t.ids_unique;
  txs_unique =
      UniqueTxs-update_row job rows (SameTx-found job a rows t.ids_unique e s.same_tx_final)
        t.txs_unique;
}

pub Evolves-update_row :
    (rows : List RelayJob) (a job : RelayJob)
    → get_job job.job_id rows ≡ some a
    → is_terminal a.status ≡ false
    → SameJob a job
    → Evolves rows (update_row job rows)
Evolves-update_row rows a job e busy s id x f = elim (Bool-cases (str_eq job.job_id id)) [
  | inl k ↦
      let same = (str_eq_iff job.job_id id).0 k in
      let is_a : x ≡ a = ground arith in
      (job, rw (← same) (get_job-update_row job rows (λ n. cc)), rw is_a (s, λ t. cc))
  | inr k ↦ (
    x,
    get_job-update_row_ne id job rows (λ same. ground (arith, str_eq_iff job.job_id id)) ∙ f,
    (SameJob-refl x, λ _. refl),
  )
]

-- The query for a due job returns a row of the table, and one that is due.
pub next_due_job-get_job :
    (now : ℤ) (rows : List RelayJob) (a : RelayJob)
    → UniqueIds rows
    → next_due_job now rows ≡ some a
    → (get_job a.job_id rows ≡ some a) × (is_due now a ≡ true)
unfolding next_due_job get_job
next_due_job-get_job now [] a u e = cc
next_due_job-get_job now (row ∷ rows) a u e =
    ground (arith, str_eq_iff row.job_id a.job_id, next_due_job-get_job now rows a u.1)

pub is_due-unfinished :
    (now : ℤ) (a : RelayJob) → is_due now a ≡ true → is_terminal a.status ≡ false
is_due-unfinished now a h = ground arith
