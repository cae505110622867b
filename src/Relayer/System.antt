-- ===== src/Relayer/System.antt =====
-- The relayer process as a step relation: requests to the API, turns of the worker and restarts, in
-- any order. A step is one handler or one turn of the loop; the clock, the node, the parser and the
-- connection to the database answer as they like.
pub mod Safety
use digital_objects_network.Prelude.{ℤ, Option, none, some, String}
use digital_objects_network.Relayer.Job.{WorkerConfig}
use digital_objects_network.Relayer.Outside.{World, statement_after}
use digital_objects_network.Relayer.Worker.{worker_turn, recover_rows}
use digital_objects_network.Relayer.Api.{Services, SubmitProofRequest, submit_proof}

module _ {E Proof : Type 0} (services : Services E Proof) (cfg : WorkerConfig) where
  pub data Step (w : World E) : World E → Type 0 where
    request : (req : SubmitProofRequest) → Step w (submit_proof services req w).1
    turn : Step w (worker_turn services.outside cfg w).1
    restart :
        (now : ℤ) (fault : Option String) → Step w (statement_after fault (recover_rows now) w).1

  pub data Reach (w : World E) : World E → Type 0 where
    here : Reach w w
    next : {u v : World E} → Reach w u → Step u v → Reach w v
