-- ===== src/Worker/Process/Tests.antt =====
-- Tests and witnesses of the handling of messages.
use yirang_taskforge.Prelude.{
  ◌≡◌, refl, ◌++◌, ◌||◌, true, false, some, List, [], All, Text, bytes, text_eq, c_str, ok,
  unexpected,
}
use yirang_taskforge.Json.{lookup, string_at, object_at}
use yirang_taskforge.Json.Tree.{tree_json, serialize, as_string?, as_object?, of_fields}
use yirang_taskforge.MessageValidation.Tests.{request-valid, request-invalid}
use yirang_taskforge.World.{Event, redis_get, record_event}
use yirang_taskforge.TaskExecutor.{find_task}
use yirang_taskforge.Worker.Status.{merge_status, is_terminal_reply}
use yirang_taskforge.Worker.Transfer.{text_at}
use yirang_taskforge.Worker.Process.{executor_of, task_of, handle_message}
use yirang_taskforge.Worker.Process.Redelivery.{
  is_terminal-merge_status, handle_message-IsFate, handle_message-Permitted,
}
use yirang_taskforge.Worker.Effects.{Statuses, Permitted}
use yirang_taskforge.Worker.Effects.Handling.{IsFate}
use yirang_taskforge.Samples.{
  request, unregistered_request, invalid_request, done_document, services, services_done, config,
  world,
}
use yirang_taskforge.Prelude.{pos, ◌∷◌}
use yirang_taskforge.World.{exited, timer}
use yirang_taskforge.TaskExecutor.{timed_out_after}
use yirang_taskforge.Worker.Process.Success.{Working, handle_message-done}
use yirang_taskforge.Samples.{wordcount}
use yirang_taskforge.Worker.Scope.{Scoped}
use yirang_taskforge.Worker.Scope.Message.{handle_message-Scoped}
use yirang_taskforge.World.{World}
use yirang_taskforge.Prelude.{◌⊎◌, ◌≢◌, false}
use yirang_taskforge.Worker.Process.Rejections.{Dropped, handle_message-Dropped}
use yirang_taskforge.Worker.Process.Ended.{handle_message-by_status}
use yirang_taskforge.Worker.Process.Accesses.{read_request, request_at, read_request-ok}
use yirang_taskforge.Worker.Transfer.{temp_root}

abbrev job : Text
job = text_at tree_json request (bytes "job_id")

pub none_is_not_terminal : is_terminal_reply tree_json (unexpected (bytes "nil")) ≡ false
unfolding is_terminal_reply
none_is_not_terminal = refl

handle_message-by_status_example :
    (((bytes "done" ≡ bytes "done") ⊎ (bytes "done" ≡ bytes "failed"))
      × (handle_message tree_json services_done config (serialize request) world
          ≡ (ok tt, record_event (redis_get job) world)))
    ⊎ ((bytes "done" ≢ bytes "done")
        × (bytes "done" ≢ bytes "failed")
        × ((new : List Event) × ((handle_message tree_json services_done config
                (serialize request)
                world).1.trace
              ≡ new ++ world.trace)
            × ((ss : List Text) × (ss ≢ []) × Statuses tree_json job new ss)))
unfolding lookup
handle_message-by_status_example =
    handle_message-by_status tree_json services_done config request (serialize request)
      (tree_json.of_object request) world done_document (bytes "done")
      (tree_json.parse-serialize request tt) (tree_json.as_object?-of_object request) request-valid
      refl tt refl

is_terminal-merge_status_example :
    is_terminal_reply tree_json (
      ok (
        serialize (
          merge_status tree_json done_document (bytes "job-1") (bytes "running") [] (bytes "now"))))
    ≡ (text_eq (bytes "running") (bytes "done") || text_eq (bytes "running") (bytes "failed"))
is_terminal-merge_status_example =
    is_terminal-merge_status tree_json services config done_document [] (bytes "job-1")
      (bytes "running") (bytes "now") (tree_json.find-empty (bytes "status")) tt

handle_message-IsFate_example :
    ((handle_message tree_json services config (serialize request) world).0 ≡ ok tt)
    × ((new : List Event) × ((handle_message tree_json services config
            (serialize request)
            world).1.trace
          ≡ new ++ world.trace)
        × ((ss : List Text) × IsFate ss × Statuses tree_json job new ss))
handle_message-IsFate_example =
    handle_message-IsFate tree_json services config (serialize request)
      (tree_json.of_object request) request world (tree_json.parse-serialize request tt)
      (tree_json.as_object?-of_object request)

handle_message-Permitted_example :
    (new : List Event) × ((handle_message tree_json services config
        (serialize request)
        world).1.trace
      ≡ new ++ world.trace)
    × All (Permitted tree_json services config request) new
handle_message-Permitted_example =
    handle_message-Permitted tree_json services config (serialize request)
      (tree_json.of_object request) request world (tree_json.parse-serialize request tt)
      (tree_json.as_object?-of_object request)

handle_message-Scoped_example :
    (new : List Event) × ((handle_message tree_json services config
        (serialize request)
        world).1.trace
      ≡ new ++ world.trace)
    × Scoped (temp_root services (text_at tree_json request (bytes "job_id"))) new false
handle_message-Scoped_example =
    handle_message-Scoped tree_json services config request (serialize request)
      (tree_json.of_object request) world (tree_json.parse-serialize request tt)
      (tree_json.as_object?-of_object request)

-- The job had ended: its status was "done".
handle_message-Dropped_example :
    ((handle_message tree_json services_done config (serialize invalid_request) world).0 ≡ ok tt)
    × Dropped tree_json services_done config invalid_request
        (bytes "unsupported mode: inspect")
        world
        (handle_message tree_json services_done config (serialize invalid_request) world).1
handle_message-Dropped_example =
    handle_message-Dropped tree_json services_done config (serialize invalid_request)
      (tree_json.of_object invalid_request) invalid_request world
      (bytes "unsupported mode: inspect") (tree_json.parse-serialize invalid_request tt)
      (tree_json.as_object?-of_object invalid_request) request-invalid

abbrev unlisted : World
unlisted = (handle_message tree_json services config (serialize unregistered_request) world).1

abbrev unlisted_job : Text
unlisted_job = text_at tree_json unregistered_request (bytes "job_id")

pub services-Working : Working services
unfolding timed_out_after
services-Working = record {
  downloads = λ w bucket key path. refl;
  uploads = λ w bucket key path. refl;
  url = λ w bucket key ttl. bytes "http://s3";
  presigns = λ w bucket key ttl. refl;
  executables = λ w path. refl;
  captures = λ w path. refl;
  run = λ w path args limit. record { completions = exited ∷ timer true ∷ []; exit_code = pos 0 };
  runs = λ w path args limit. refl;
  in_time = λ w path args limit. refl;
  exits = λ w path args limit. refl;
  iterates = λ w path. refl;
}

pub registered :
    find_task (executor_of config) (text_at tree_json (task_of tree_json request) (bytes "name"))
    ≡ some wordcount
unfolding find_task yirang_taskforge.TaskExecutor.find_in text_at task_of string_at object_at lookup
    as_string? as_object? of_fields c_str
registered = refl

handle_message-done_example :
    ((handle_message tree_json services config (serialize request) world).0 ≡ ok tt)
    × ((new : List Event) × ((handle_message tree_json services config
            (serialize request)
            world).1.trace
          ≡ new ++ world.trace)
        × Statuses tree_json job new (bytes "done" ∷ bytes "running" ∷ []))
handle_message-done_example =
    handle_message-done tree_json services config request services-Working (serialize request)
      (tree_json.of_object request) world wordcount (tree_json.parse-serialize request tt)
      (tree_json.as_object?-of_object request) request-valid none_is_not_terminal registered

read_request-ok_example : read_request tree_json request ≡ ok (request_at tree_json request)
read_request-ok_example = read_request-ok tree_json request request-valid
