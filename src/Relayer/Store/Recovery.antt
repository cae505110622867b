-- ===== src/Relayer/Store/Recovery.antt =====
-- What the recovery at the start of the worker does to the table (`recover_inflight_jobs` of
-- services/relayer/src/db.rs).
use digital_objects_network.Relayer.Store.{
  get_job, get_job_by_tx_final, recover_inflight_jobs, requeue,
}
use digital_objects_network.Prelude.{
  inl, inr, [], ◌≡◌, Hash, String, ℤ, List, some, none, arith, ◌∷◌, Bool-cases, str_eq, hash_eq,
  refl, ap,
}
use digital_objects_network.Relayer.Job.{WorkerConfig, RelayJob}
use digital_objects_network.Relayer.Updates.JobOk.{JobOk}
use digital_objects_network.Relayer.Store.Table.{Evolves, TableOk, Becomes}

requeue-Becomes : (now : ℤ) (a : RelayJob) → Becomes a (requeue now a)
unfolding requeue
requeue-Becomes now a = (ground arith, λ t. ground arith)

requeue-JobOk :
    (cfg : WorkerConfig) (now : ℤ) (a : RelayJob) → JobOk cfg a → JobOk cfg (requeue now a)
unfolding requeue
requeue-JobOk cfg now a v = ground arith

requeue-same_id : (now : ℤ) (a : RelayJob) → (requeue now a).job_id ≡ a.job_id
requeue-same_id now a = (requeue-Becomes now a).0.same_id

requeue-same_tx : (now : ℤ) (a : RelayJob) → (requeue now a).tx_final ≡ a.tx_final
requeue-same_tx now a = (requeue-Becomes now a).0.same_tx_final

get_job-recover :
    (id : String) (now : ℤ) (rows : List RelayJob) (a : RelayJob)
    → get_job id rows ≡ some a
    → get_job id (recover_inflight_jobs now rows).1 ≡ some (requeue now a)
unfolding get_job recover_inflight_jobs
get_job-recover id now [] a e = cc
get_job-recover id now (row ∷ rows) a e = elim (Bool-cases (str_eq row.job_id id)) [
  | inl k ↦
      let e₁ : row ≡ a = ground arith in simp (requeue-same_id, k) (ap some (ap (requeue now) e₁))
  | inr k ↦ rw (requeue-same_id now row, k) (get_job-recover id now rows a (ground arith))
]

get_job-none-recover :
    (id : String) (now : ℤ) (rows : List RelayJob)
    → get_job id rows ≡ none
    → get_job id (recover_inflight_jobs now rows).1 ≡ none
unfolding get_job recover_inflight_jobs
get_job-none-recover id now [] e = refl
get_job-none-recover id now (row ∷ rows) e = elim (Bool-cases (str_eq row.job_id id)) [
  | inl k ↦ absurd (ground arith)
  | inr k ↦ rw (requeue-same_id now row, k) (get_job-none-recover id now rows (ground arith))
]

get_tx_none-recover :
    (h : Hash) (now : ℤ) (rows : List RelayJob)
    → get_job_by_tx_final h rows ≡ none
    → get_job_by_tx_final h (recover_inflight_jobs now rows).1 ≡ none
unfolding get_job_by_tx_final recover_inflight_jobs
get_tx_none-recover h now [] e = refl
get_tx_none-recover h now (row ∷ rows) e = elim (Bool-cases (hash_eq row.tx_final h)) [
  | inl k ↦ absurd (ground arith)
  | inr k ↦ rw (requeue-same_tx now row, k) (get_tx_none-recover h now rows (ground arith))
]

pub Evolves-recover :
    (now : ℤ) (rows : List RelayJob) → Evolves rows (recover_inflight_jobs now rows).1
Evolves-recover now rows id a e =
    (requeue now a, get_job-recover id now rows a e, requeue-Becomes now a)

pub TableOk-recover :
    (cfg : WorkerConfig) (now : ℤ) (rows : List RelayJob)
    → TableOk cfg rows
    → TableOk cfg (recover_inflight_jobs now rows).1
unfolding recover_inflight_jobs
TableOk-recover cfg now [] t = t
TableOk-recover cfg now (row ∷ rows) t =
    let rest = TableOk-recover cfg now rows (record {
      jobs_ok = t.jobs_ok.1;
      ids_unique = t.ids_unique.1;
      txs_unique = t.txs_unique.1;
    }) in
    record {
      jobs_ok = (requeue-JobOk cfg now row t.jobs_ok.0, rest.jobs_ok);
      ids_unique = (
        get_job-none-recover (requeue now row).job_id now rows
            (rw (requeue-same_id now row) t.ids_unique.0),
        rest.ids_unique,
      );
      txs_unique = (
        get_tx_none-recover (requeue now row).tx_final now rows
            (rw (requeue-same_tx now row) t.txs_unique.0),
        rest.txs_unique,
      );
    }
