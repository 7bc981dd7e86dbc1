-- ===== src/Worker/Process/Ended.antt =====
-- What the status that is stored for a job decides when a message of it is handled.
use yirang_taskforge.Prelude.{
  ◌≡◌, refl, sym, ◌∙◌, ◌++◌, ◌||◌, append_assoc, append-nil, ◌⊎◌, inl, inr, ◌≢◌, Bool-cases, true,
  false, Option, none, some, List, [], ◌∷◌, Text, bytes, text_eq, text_eq_iff, Expected, ok,
  unexpected, arith,
}
use yirang_taskforge.Json.{Json, string_at}
use yirang_taskforge.MessageValidation.{validate_request}
use yirang_taskforge.World.{World, Services, Event, redis_get, record_event, ◌>>=◌}
use yirang_taskforge.World.Trace.{Runs-weaken}
use yirang_taskforge.Configurations.{Configurations}
use yirang_taskforge.TaskExecutor.{TaskDefinition, find_task}
use yirang_taskforge.Worker.Status.{
  contract_fields, is_terminal_document, is_terminal_reply, is_terminal_status,
}
use yirang_taskforge.Worker.Status.Contract.{contract_fields-status}
use yirang_taskforge.Worker.Transfer.{text_at}
use yirang_taskforge.Worker.Process.{
  executor_of, task_of, process_found, process_job, after_process, handle_object, handle_message,
}
use yirang_taskforge.Worker.Process.Redelivery.{handle_message-object, handle_message-terminal}
use yirang_taskforge.Worker.Effects.{Statuses, start, quiet, Statuses-append}
use yirang_taskforge.Worker.Effects.Leaves.{
  Performs, Performs-pure, Performs-bind, set_job_status-Performs,
}
use yirang_taskforge.Worker.Effects.Failures.{
  with_temp_dir-Performs, fail_without_retry-Performs, handle_processing_failure-Performs,
}
use yirang_taskforge.Worker.Effects.Handling.{run_job-Performs}

append-eq-nil : (ts ss : List Text) → ts ++ ss ≡ [] → ss ≡ []
append-eq-nil [] ss e = e
append-eq-nil (t ∷ ts) ss e = absurd (cc)

module _ (json : Json) (services : Services) (config : Configurations)
    (message : Json.Object json) where
  open json use {Value, Object, find, parse, as_object?, of_string, serialize, IsEncodable}

  abbrev job : Text
  job = text_at json message (bytes "job_id")

  process_found-writes :
      (found : Option TaskDefinition)
      → find_task (executor_of config) (text_at json (task_of json message) (bytes "name")) ≡ found
      → Performs json services config message
          (process_found json services config job message found)
          (λ r ss. ss ≢ [])
  unfolding process_found
  process_found-writes none e =
      Performs-bind json services config message _ _
        (fail_without_retry-Performs json services config message _)
        λ _ ss wrote. Performs-pure json services config message _ (λ none_written. absurd (cc))
  process_found-writes (some definition) e =
      Performs-bind json services config message _ _
        (set_job_status-Performs json services config message (bytes "running")
          (contract_fields json message) (contract_fields-status json message))
        λ _ ss wrote.
          Runs-weaken _
            (with_temp_dir-Performs json services config message _
              (run_job-Performs json services config message definition e))
            λ r new h.
              let (ts, post, did) = h in
              (ts, (λ empty. absurd (let gone = append-eq-nil ts ss empty in cc)), did)

  after_process-writes :
      (body : Text) (r : Expected (Unit {0})) (ss : List Text)
      → ss ≢ []
      → Performs json services config message
          (after_process json services config message body r)
          (λ a ts. ts ++ ss ≢ [])
  unfolding after_process
  after_process-writes body (ok _) ss some_written =
      Performs-pure json services config message _ some_written
  after_process-writes body (unexpected e) ss some_written =
      Performs-bind json services config message _ _
        (handle_processing_failure-Performs json services config message body e)
        λ _ ts left.
          Performs-pure json services config message _
            (λ empty. some_written (append-eq-nil ts ss empty))

  taken_up-writes :
      (body : Text)
      → Performs json services config message
          (process_found json services config job message
              (find_task (executor_of config) (text_at json (task_of json message) (bytes "name")))
            >>= λ r. after_process json services config message body r)
          (λ a ss. ss ≢ [])
  taken_up-writes body =
      Performs-bind json services config message _ _ (process_found-writes _ refl)
        λ r ss some_written. after_process-writes body r ss some_written

  handled-unended :
      (body : Text) (v : Value) (w : World)
      → parse body ≡ some v
      → as_object? v ≡ some message
      → validate_request json message ≡ ok tt
      → is_terminal_reply json (services.get w job) ≡ false
      → handle_message json services config body w
        ≡ (process_found json services config job message (
                find_task (executor_of config) (text_at json (task_of json message) (bytes "name")))
              >>= λ r. after_process json services config message body r)
            (record_event (redis_get job) w)
  unfolding handle_object process_job is_terminal_status ◌>>=◌
  handled-unended body v w parsed object valid unended =
      rw (handle_message-object json services config body v message parsed object, valid, unended)

  is_terminal-serialize :
      (document : Object) (status : Text)
      → IsEncodable document
      → find document (bytes "status") ≡ some (of_string status)
      → is_terminal_reply json (ok (serialize document))
        ≡ (text_eq status (bytes "done") || text_eq status (bytes "failed"))
  unfolding is_terminal_reply is_terminal_document string_at
  is_terminal-serialize document status fits found = rw (
    json.parse-serialize document fits,
    is_terminal_reply,
    json.as_object?-of_object,
    is_terminal_reply,
    found,
    json.as_string?-of_string,
    is_terminal_document,
  )

  ended_cases :
      (status : Text)
      → (text_eq status (bytes "done") || text_eq status (bytes "failed")) ≡ true
      → (status ≡ bytes "done") ⊎ (status ≡ bytes "failed")
  ended_cases status h = elim (Bool-cases (text_eq status (bytes "done"))) [
    | inl e ↦ inl ((text_eq_iff status (bytes "done")).0 e)
    | inr e ↦ inr ((text_eq_iff status (bytes "failed")).0 (rw e at h))
  ]

  not_ended_cases :
      (status : Text)
      → (text_eq status (bytes "done") || text_eq status (bytes "failed")) ≡ false
      → (status ≢ bytes "done") × (status ≢ bytes "failed")
  not_ended_cases status h = (
    λ e. absurd (let same = (text_eq_iff status (bytes "done")).1 e in ground arith),
    λ e. absurd (let same = (text_eq_iff status (bytes "failed")).1 e in ground arith),
  )

  -- The status that Redis holds for a job decides what a valid message of it does, if the stored
  -- document can be read back: with "done" or "failed" the message is acknowledged with one read of
  -- that status, nothing else is asked of a service, and the DLQ stays as it is; with any other
  -- status the job is taken up, and at least one status of it is written.
  pub handle_message-by_status :
      (body : Text) (v : Value) (w : World) (document : Object) (status : Text)
      → parse body ≡ some v
      → as_object? v ≡ some message
      → validate_request json message ≡ ok tt
      → services.get w job ≡ ok (serialize document)
      → IsEncodable document
      → find document (bytes "status") ≡ some (of_string status)
      → (((status ≡ bytes "done") ⊎ (status ≡ bytes "failed"))
          × (handle_message json services config body w ≡ (ok tt, record_event (redis_get job) w)))
        ⊎ ((status ≢ bytes "done")
            × (status ≢ bytes "failed")
            × ((new : List Event) × ((handle_message json services config body w).1.trace
                  ≡ new ++ w.trace)
                × ((ss : List Text) × (ss ≢ []) × Statuses json job new ss)))
  handle_message-by_status body v w document status parsed object valid stored fits found =
      let reply : is_terminal_reply json (services.get w job)
          ≡ (text_eq status (bytes "done") || text_eq status (bytes "failed")) =
        rw stored (is_terminal-serialize document status fits found) in
      elim (Bool-cases (text_eq status (bytes "done") || text_eq status (bytes "failed"))) [
        | inl ended ↦ inl (
          ended_cases status ended,
          handle_message-terminal json services config body v message w parsed object valid
              (reply ∙ ended),
        )
        | inr unended ↦
            let (apart, other) = not_ended_cases status unended in
            let (new, e, (ss, written, did)) =
              (taken_up-writes body).at (record_event (redis_get job) w) in
            inr (
              apart,
              other,
              rw (handled-unended body v w parsed object valid (reply ∙ unended)) (
                new ++ redis_get job ∷ [],
                e ∙ sym (append_assoc new (redis_get job ∷ []) w.trace),
                (
                  ss,
                  written,
                  rw (append-nil ss) at
                      (Statuses-append json did.marks (quiet (redis_get job) refl start)),
                ),
              ),
            )
      ]
