-- ===== src/Relayer/System/Safety.antt =====
-- What every history of the relayer keeps.
use digital_objects_network.Prelude.{[], ◌≡◌, some, true, ◌<◌, ◌^◌, String, ◌∙◌, ap}
use digital_objects_network.Relayer.System.{
  Step, Reach, request, turn, restart, here, next, Services, WorkerConfig, World,
}
use digital_objects_network.Relayer.Worker.Invariant.{worker_turn-Sound, recover_sound}
use digital_objects_network.Relayer.Api.Submission.{submit_proof_sound}
use digital_objects_network.Relayer.Store.Table.{TableOk, Evolves, Evolves-refl, Evolves-trans}
use digital_objects_network.Relayer.Job.{RelayJob, is_terminal}
use digital_objects_network.Relayer.Store.{get_job}

module _ {E Proof : Type 0} (services : Services E Proof) (cfg : WorkerConfig)
    (max_ok : cfg.fee_bump_max < 2 ^ 32) where
  Step-sound :
      {w v : World E}
      → Step services cfg w v
      → TableOk cfg w.rows
      → TableOk cfg v.rows × Evolves w.rows v.rows
  Step-sound {w} (request req) t = submit_proof_sound services cfg req w t
  Step-sound {w} turn t = worker_turn-Sound services.outside cfg max_ok w t
  Step-sound {w} (restart now fault) t = recover_sound services.outside cfg max_ok now fault w t

  Reach-sound :
      {w v : World E}
      → Reach services cfg w v
      → TableOk cfg w.rows
      → TableOk cfg v.rows × Evolves w.rows v.rows
  Reach-sound {w} here t = (t, Evolves-refl w.rows)
  Reach-sound {w} (next {u} {v} r st) t =
      let (t₁, e₁) = Reach-sound r t in
      let (t₂, e₂) = Step-sound st t₁ in (t₂, Evolves-trans w.rows u.rows v.rows e₁ e₂)

  -- However requests, turns and restarts follow one another from the empty table, every row
  -- satisfies the invariant, and no two rows share a job id or a `tx_final`.
  pub Reach-TableOk : {w v : World E} → w.rows ≡ [] → Reach services cfg w v → TableOk cfg v.rows
  Reach-TableOk e r =
      (Reach-sound r (rw e (record { jobs_ok = tt; ids_unique = tt; txs_unique = tt }))).0

  -- Once a job is confirmed or failed, no later request, turn or restart changes it.
  pub Reach-finished :
      {w v : World E} (id : String) (a : RelayJob)
      → TableOk cfg w.rows
      → Reach services cfg w v
      → get_job id w.rows ≡ some a
      → is_terminal a.status ≡ true
      → get_job id v.rows ≡ some a
  Reach-finished id a t r e h = let (b, f, p) = (Reach-sound r t).1 id a e in f ∙ ap some (p.1 h)
