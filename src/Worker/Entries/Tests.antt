-- ===== src/Worker/Entries/Tests.antt =====
-- The witnesses of a job's entry, after one message and after several.
use yirang_taskforge.Prelude.{none, ◌≡◌, refl, true, List, bytes}
use yirang_taskforge.Json.{lookup}
use yirang_taskforge.Json.Tree.{tree_json, serialize}
use yirang_taskforge.World.{World}
use yirang_taskforge.TaskDlq.{can_write}
use yirang_taskforge.MessageValidation.Tests.{request-valid}
use yirang_taskforge.Worker.Transfer.{text_at}
use yirang_taskforge.Worker.Failure.{dlq_of}
use yirang_taskforge.Worker.Failure.Entries.{Settles}
use yirang_taskforge.Worker.Process.{handle_message}
use yirang_taskforge.Worker.Process.Tests.{none_is_not_terminal}
use yirang_taskforge.Worker.Delivery.{deliver, unseen}
use yirang_taskforge.Worker.Delivery.Tests.{job, bodies, body-IsRequestBody}
use yirang_taskforge.Worker.Entries.Others.{IsSound}
use yirang_taskforge.Worker.Entries.Backlog.{Writable, Agrees, deliver-Agrees}
use yirang_taskforge.Worker.Entries.Message.{handle_message-Settles}
use yirang_taskforge.Worker.Delivery.{Stage}
use yirang_taskforge.Samples.{request, services, config, world}

writable :
    (u : World)
    → u.dlq ≡ world.dlq
    → can_write tree_json services (dlq_of config) u (text_at tree_json request (bytes "job_id"))
      ≡ true
unfolding can_write lookup
writable u e = rw e

handle_message-Settles_example :
    (earlier : List Stage) × Settles tree_json services config request earlier
      (handle_message tree_json services config (serialize request))
      world
handle_message-Settles_example =
    handle_message-Settles tree_json services config request (λ w. refl) (serialize request)
      (tree_json.of_object request) world writable (tree_json.parse-serialize request tt)
      (tree_json.as_object?-of_object request) request-valid none_is_not_terminal

services-Writable : Writable services
services-Writable = record { removes = λ w path. refl; opens = λ w path. refl }

world-IsSound : IsSound world.dlq
unfolding lookup
world-IsSound = (refl, λ j. refl)

world-Agrees : Agrees tree_json job world
unfolding lookup
world-Agrees = record { stage = none; shows = unseen; entry = refl }

deliver-Agrees_example :
    IsSound (deliver tree_json services config bodies world).1.dlq
    × Agrees tree_json job (deliver tree_json services config bodies world).1
deliver-Agrees_example =
    deliver-Agrees tree_json services config bodies job world services-Writable
      (body-IsRequestBody, (body-IsRequestBody, tt)) world-IsSound world-Agrees
