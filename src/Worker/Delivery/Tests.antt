-- ===== src/Worker/Delivery/Tests.antt =====
-- Tests and witnesses of deliveries, with a Redis that answers by its last write.
use yirang_taskforge.Prelude.{
  ◌≡◌, refl, inl, true, Option, none, some, List, [], ◌∷◌, Text, bytes, pos, ok, unexpected,
  Expected, All,
}
use yirang_taskforge.Json.Tree.{tree_json, serialize}
use yirang_taskforge.World.{World, Services, Event, redis_set}
use yirang_taskforge.World.Redis.{last_written, Durable, Unwritten}
use yirang_taskforge.MessageValidation.Tests.{request-valid}
use yirang_taskforge.Worker.Transfer.{text_at}
use yirang_taskforge.Worker.Delivery.{Stage, ◌⟶*◌, deliver, Shows, unseen}
use yirang_taskforge.Worker.Delivery.Refines.{IsRequestBody, IsRequestOf, deliver-⟶*}
use yirang_taskforge.Worker.Delivery.Stages.{is_ended, IsReadable}
use yirang_taskforge.Worker.Delivery.Completes.{IsRunnable, deliver-Ended}
use yirang_taskforge.Worker.Process.Success.{Working}
use yirang_taskforge.Worker.Process.Tests.{services-Working, registered}
use yirang_taskforge.Samples.{request, done_document, wordcount, services, config, world}

abbrev reply : Option Text → Expected Text
reply none = unexpected (bytes "nil")
reply (some value) = ok value

abbrev redis : Services
redis = record services { get = λ w key. reply (last_written key w.trace) }

redis-Durable : Durable redis
redis-Durable w key value h = rw h

abbrev body : Text
body = serialize request

abbrev pub job : Text
job = text_at tree_json request (bytes "job_id")

-- The request, delivered twice.
abbrev pub bodies : List Text
bodies = body ∷ body ∷ []

pub body-IsRequestBody : IsRequestBody tree_json body
body-IsRequestBody = record {
  value = tree_json.of_object request;
  message = request;
  parsed = tree_json.parse-serialize request tt;
  is_object = tree_json.as_object?-of_object request;
  valid = request-valid;
}

All-IsReadable : (es : List Event) → All (IsReadable tree_json) es
All-IsReadable [] = tt
All-IsReadable (redis_set key value ttl ∷ es) = (λ document e. tt, All-IsReadable es)
All-IsReadable (_ ∷ es) = (tt, All-IsReadable es)

deliver-⟶*_example :
    (t : Option Stage) × Shows tree_json job (deliver tree_json redis config bodies world).1.trace t
    × (none ⟶* t)
deliver-⟶*_example =
    deliver-⟶* tree_json redis config bodies job world none redis-Durable
      (body-IsRequestBody, (body-IsRequestBody, tt)) unseen
      (All-IsReadable (deliver tree_json redis config bodies world).1.trace)

-- A world in which the job has ended.
abbrev ended : World
ended = record world { trace = redis_set job (serialize done_document) (pos 3600) ∷ [] }

body-IsRequestOf : IsRequestOf tree_json job body
unfolding body-IsRequestBody
body-IsRequestOf = record { request = body-IsRequestBody; of_job = refl }

redis-Unwritten : Unwritten redis
redis-Unwritten w key h = (bytes "nil", rw h)

redis-Working : Working redis
redis-Working = record {
  downloads = services-Working.downloads;
  uploads = services-Working.uploads;
  url = services-Working.url;
  presigns = services-Working.presigns;
  executables = services-Working.executables;
  captures = services-Working.captures;
  run = services-Working.run;
  runs = services-Working.runs;
  in_time = services-Working.in_time;
  exits = services-Working.exits;
  iterates = services-Working.iterates;
}

body-IsRunnable : IsRunnable tree_json redis config job body
unfolding body-IsRequestOf body-IsRequestBody
body-IsRunnable = record {
  request = body-IsRequestOf;
  definition = wordcount;
  registered = registered;
}

deliver-Ended_example :
    (g : Stage) × (is_ended g ≡ true)
    × Shows tree_json job (deliver tree_json redis config bodies world).1.trace (some g)
deliver-Ended_example =
    deliver-Ended tree_json redis config bodies body job world none redis-Durable redis-Unwritten
      redis-Working (body-IsRequestBody, (body-IsRequestBody, tt)) (inl refl) body-IsRunnable unseen
      (All-IsReadable (deliver tree_json redis config bodies world).1.trace)
