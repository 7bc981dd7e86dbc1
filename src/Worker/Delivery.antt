-- ===== src/Worker/Delivery.antt =====
-- Messages one after another, as the SQS consumer hands them to `handle_message`, and the stages of
-- a job as an abstract machine.
pub mod Stages
pub mod Refines
pub mod Completes
pub mod Tests
use yirang_taskforge.Prelude.{
  ◌≡◌, Bool, true, false, Option, none, some, List, [], ◌∷◌, Text, bytes, text_eq, ℤ, ok, All,
}
use yirang_taskforge.Json.{Json}
use yirang_taskforge.MessageValidation.{validate_request}
use yirang_taskforge.World.{World, Services, Event, redis_set, Act, pure, ◌>>=◌, ◌>>◌}
use yirang_taskforge.World.Redis.{written}
use yirang_taskforge.Configurations.{Configurations}
use yirang_taskforge.Worker.Process.{handle_message}

-- The handler is called for each message that is received, and its answer is always an
-- acknowledgement.
unfoldable pub deliver : (json : Json) → Services → Configurations → List Text → Act (Unit {0})
deliver json services config [] = pure tt
deliver json services config (body ∷ rest) =
    handle_message json services config body >>= λ acknowledged. deliver json services config rest

-- What the worker writes of a job.
pub data Stage : Type 0 where
  running queued done failed : Stage

abbrev pub name : Stage → Text
name running = bytes "running"
name queued = bytes "queued"
name done = bytes "done"
name failed = bytes "failed"

-- A job that has not ended, by the last stage that was written.
abbrev pub IsOpen : Option Stage → Type 0
IsOpen (some done) = ⊥
IsOpen (some failed) = ⊥
IsOpen _ = Unit

infix 40 ◌⟶◌ ◌⟶*◌
-- What may become of a job: the abstract machine.
pub data ◌⟶◌ : Option Stage → Option Stage → Type 0 where
  begin : {s : Option Stage} → IsOpen s → s ⟶ some running
  refuse : {s : Option Stage} → IsOpen s → s ⟶ some failed
  finish : some running ⟶ some done
  fail : some running ⟶ some failed
  requeue : some running ⟶ some queued

pub data ◌⟶*◌ : Option Stage → Option Stage → Type 0 where
  here : {s : Option Stage} → s ⟶* s
  then : {s t u : Option Stage} → s ⟶ t → t ⟶* u → s ⟶* u

module _ (json : Json) where
  open json use {Object, find, serialize, of_string}

  -- The last stage of a job that the trace shows: each write at the job's key is a document with a
  -- stage as its status.
  pub data Shows (job_id : Text) : List Event → Option Stage → Type 0 where
    unseen : Shows job_id [] none
    other :
        {es : List Event} {s : Option Stage} (e : Event)
        → written job_id e ≡ none
        → Shows job_id es s
        → Shows job_id (e ∷ es) s
    wrote :
        {es : List Event} {s : Option Stage} (document : Object) (stage : Stage) (ttl : ℤ)
        → find document (bytes "status") ≡ some (of_string (name stage))
        → Shows job_id es s
        → Shows job_id (redis_set job_id (serialize document) ttl ∷ es) (some stage)
