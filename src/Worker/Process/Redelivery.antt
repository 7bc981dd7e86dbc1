-- ===== src/Worker/Process/Redelivery.antt =====
-- What every message does, and the equations of the branches of `handle_message`.
use yirang_taskforge.Prelude.{
  ◌≡◌, ◌||◌, true, false, none, some, List, Text, bytes, text_eq, ok, ◌++◌, All,
}
use yirang_taskforge.Json.{Json, string_at}
use yirang_taskforge.MessageValidation.{validate_request}
use yirang_taskforge.World.{World, Services, Event, redis_get, record_event, ◌>>=◌}
use yirang_taskforge.Configurations.{Configurations}
use yirang_taskforge.Worker.Status.{
  merge_status, is_terminal_document, is_terminal_reply, is_terminal_status,
}
use yirang_taskforge.Worker.Status.Merge.{find-merge_status}
use yirang_taskforge.Worker.Transfer.{text_at}
use yirang_taskforge.TaskExecutor.{find_task}
use yirang_taskforge.Worker.Failure.{fail_without_retry}
use yirang_taskforge.Worker.Process.{
  process_job, process_found, executor_of, task_of, not_registered, after_process, handle_object,
  handle_message,
}
use yirang_taskforge.Worker.Effects.{Statuses, Permitted}
use yirang_taskforge.Worker.Effects.Handling.{IsFate, handle_object-Performs}

module _ (json : Json) (services : Services) (config : Configurations) where
  open json use {
    Value, Object, find, parse, as_object?, of_string, of_object, serialize, IsEncodable,
  }

  -- A body that parses to an object is handled as that object.
  pub handle_message-object :
      (body : Text) (v : Value) (message : Object)
      → parse body ≡ some v
      → as_object? v ≡ some message
      → handle_message json services config body
        ≡ handle_object json services config message body (validate_request json message)
  unfolding handle_message
  handle_message-object body v message parsed object =
      rw (parsed, handle_message, object, handle_message)

  -- A valid message of a job whose stored status is terminal only asks for that status.
  pub handle_message-terminal :
      (body : Text) (v : Value) (message : Object) (w : World)
      → parse body ≡ some v
      → as_object? v ≡ some message
      → validate_request json message ≡ ok tt
      → is_terminal_reply json (services.get w (text_at json message (bytes "job_id"))) ≡ true
      → handle_message json services config body w
        ≡ (ok tt, record_event (redis_get (text_at json message (bytes "job_id"))) w)
  unfolding handle_object process_job is_terminal_status after_process ◌>>=◌
  handle_message-terminal body v message w parsed object valid ended =
      rw (handle_message-object body v message parsed object, valid, ended)

  -- The status that was written last decides: a document that `set_job_status` wrote is read back as
  -- terminal exactly if the status was "done" or "failed", provided that the updates have no field
  -- "status" of their own and the document is encodable.
  pub is_terminal-merge_status :
      (document updates : Object) (job_id status now : Text)
      → find updates (bytes "status") ≡ none
      → IsEncodable (merge_status json document job_id status updates now)
      → is_terminal_reply json
          (ok (serialize (merge_status json document job_id status updates now)))
        ≡ (text_eq status (bytes "done") || text_eq status (bytes "failed"))
  unfolding is_terminal_reply is_terminal_document string_at
  is_terminal-merge_status document updates job_id status now free fits = rw (
    json.parse-serialize _ fits,
    is_terminal_reply,
    json.as_object?-of_object,
    is_terminal_reply,
    find-merge_status json document job_id status updates now (bytes "status"),
    free,
    json.as_string?-of_string,
    is_terminal_document,
  )

  -- Every message whose body parses to an object is acknowledged, and what it writes of its job's
  -- status is one of: nothing; "failed"; or "running", and then "done", "failed" or "queued". It
  -- writes no other key of Redis.
  pub handle_message-IsFate :
      (body : Text) (v : Value) (message : Object) (w : World)
      → parse body ≡ some v
      → as_object? v ≡ some message
      → ((handle_message json services config body w).0 ≡ ok tt)
        × ((new : List Event) × ((handle_message json services config body w).1.trace
              ≡ new ++ w.trace)
            × ((ss : List Text) × IsFate ss
                × Statuses json (text_at json message (bytes "job_id")) new ss))
  handle_message-IsFate body v message w parsed object =
      let (new, e, (ss, (acknowledged, fate), did)) =
        (handle_object-Performs json services config message body
            (validate_request json message)).at
          w in
      rw (handle_message-object body v message parsed object)
        (acknowledged, (new, e, (ss, fate, did.marks)))

  -- Handling a message whose body parses to an object asks nothing of the services but what is
  -- permitted to that message: its own key in Redis; its own downloads, into the job's input
  -- directory; uploads from the job's output directory under its prefix; a retry that the limit
  -- allows; the executable that the whitelist gives for its task, with the message's arguments and
  -- at most the configured timeout; and the job's temporary directory.
  pub handle_message-Permitted :
      (body : Text) (v : Value) (message : Object) (w : World)
      → parse body ≡ some v
      → as_object? v ≡ some message
      → (new : List Event) × ((handle_message json services config body w).1.trace ≡ new ++ w.trace)
        × All (Permitted json services config message) new
  handle_message-Permitted body v message w parsed object =
      let (new, e, (ss, meets, did)) =
        (handle_object-Performs json services config message body
            (validate_request json message)).at
          w in
      rw (handle_message-object body v message parsed object) (new, e, did.permitted)

  -- A valid message for a task that is not in the whitelist is handled as `fail_without_retry` does,
  -- after the read of the status.
  pub handle_message-unregistered :
      (body : Text) (v : Value) (message : Object) (w : World)
      → parse body ≡ some v
      → as_object? v ≡ some message
      → validate_request json message ≡ ok tt
      → is_terminal_reply json (services.get w (text_at json message (bytes "job_id"))) ≡ false
      → find_task (executor_of config) (text_at json (task_of json message) (bytes "name")) ≡ none
      → handle_message json services config body w ≡ (
        ok tt,
        (fail_without_retry json services config
            (text_at json message (bytes "job_id"))
            message
            (not_registered (text_at json (task_of json message) (bytes "name")))
            (record_event (redis_get (text_at json message (bytes "job_id"))) w)).1,
      )
  unfolding handle_object process_job process_found is_terminal_status after_process ◌>>=◌
  handle_message-unregistered body v message w parsed object valid running missing =
      rw (handle_message-object body v message parsed object, valid, running, missing)
