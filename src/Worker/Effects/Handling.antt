-- ===== src/Worker/Effects/Handling.antt =====
-- The effects of one message from its receipt to its end.
use yirang_taskforge.Prelude.{
  ◌≡◌, refl, ◌++◌, ◌⊎◌, inl, inr, Option, none, some, List, [], ◌∷◌, Text, bytes, c_str, Expected,
  ok, unexpected, Option-cases,
}
use yirang_taskforge.Json.{Json, string_at}
use yirang_taskforge.MessageValidation.{is_valid_job_id}
use yirang_taskforge.World.{Services}
use yirang_taskforge.World.Trace.{Runs-if, Runs-weaken}
use yirang_taskforge.Configurations.{Configurations}
use yirang_taskforge.TaskExecutor.{TaskDefinition, TaskExecutionResult, find_task}
use yirang_taskforge.Worker.Status.{contract_fields}
use yirang_taskforge.Worker.Transfer.{text_at, temp_root}
use yirang_taskforge.Worker.Failure.{dlq_of, failure_updates}
use yirang_taskforge.Worker.Process.{
  executor_of, task_of, done_updates, finish_job, run_job, process_found, process_job, drop_invalid,
  after_process, handle_object,
}
use yirang_taskforge.Worker.Effects.Leaves.{
  Performs, Performs-pure, Performs-bind, Quiet-bind, Quiet-bind_ok, set_job_status-Performs,
  remove-Quiet, is_terminal_status-Quiet,
}
use yirang_taskforge.Worker.Effects.Files.{download_inputs-Quiet, upload_outputs-Quiet}
use yirang_taskforge.Worker.Status.Contract.{contract_fields-status}
use yirang_taskforge.Worker.Effects.Failures.{
  failure_updates-status, with_temp_dir-Performs, run_task-Quiet, FailedOrQueued,
  fail_without_retry-Performs, handle_processing_failure-Performs,
}

pub done_updates-status :
    (json : Json) (message : Json.Object json) (executed : TaskExecutionResult)
    (urls : List (Json.Value json))
    → Json.find json (done_updates json message executed urls) (bytes "status") ≡ none
unfolding done_updates
done_updates-status json message executed urls = simp (json.find-put, contract_fields-status)

-- A run of the task writes "done" exactly if it succeeds.
abbrev pub RunPost : Expected (Unit {0}) → List Text → Type 0
RunPost (ok _) ss = ss ≡ bytes "done" ∷ []
RunPost (unexpected e) ss = ss ≡ []

-- The statuses of `process_job`, by its result, the latest first.
abbrev pub ProcessPost : Expected (Unit {0}) → List Text → Type 0
ProcessPost (ok _) ss =
    (ss ≡ []) ⊎ ((ss ≡ bytes "failed" ∷ []) ⊎ (ss ≡ bytes "done" ∷ bytes "running" ∷ []))
ProcessPost (unexpected e) ss = ss ≡ bytes "running" ∷ []

-- The statuses that one message writes, the latest first: none; failed; or running, and then done,
-- failed or queued.
abbrev pub IsFate : List Text → Type 0
IsFate ss =
    (ss ≡ [])
    ⊎ ((ss ≡ bytes "failed" ∷ [])
        ⊎ ((ss ≡ bytes "done" ∷ bytes "running" ∷ [])
            ⊎ ((ss ≡ bytes "failed" ∷ bytes "running" ∷ [])
                ⊎ (ss ≡ bytes "queued" ∷ bytes "running" ∷ []))))

IsFate-of_ok : (ss : List Text) → ProcessPost (ok tt) ss → IsFate ss
IsFate-of_ok ss (inl e) = inl e
IsFate-of_ok ss (inr (inl e)) = inr (inl e)
IsFate-of_ok ss (inr (inr e)) = inr (inr (inl e))

IsFate-of_failure :
    (ss ts : List Text) → ss ≡ bytes "running" ∷ [] → FailedOrQueued ts → IsFate (ts ++ ss)
IsFate-of_failure ss ts e (inl f) = inr (inr (inr (inl (rw (e, f)))))
IsFate-of_failure ss ts e (inr f) = inr (inr (inr (inr (rw (e, f)))))

module _ (json : Json) (services : Services) (config : Configurations)
    (message : Json.Object json) where
  open json use {Object, Value}

  abbrev job : Text
  job = text_at json message (bytes "job_id")

  finish_job-Performs :
      (executed : TaskExecutionResult) (urls : List Value)
      → Performs json services config message
          (finish_job json services config job message executed urls)
          RunPost
  unfolding finish_job
  finish_job-Performs executed urls =
      Performs-bind json services config message _ _
        (set_job_status-Performs json services config message (bytes "done")
          (done_updates json message executed urls)
          (done_updates-status json message executed urls))
        λ _ ss wrote.
          Quiet-bind json services config message _ _
            (remove-Quiet json services config message (dlq_of config) job)
            λ _. Performs-pure json services config message _ wrote

  pub run_job-Performs :
      (definition : TaskDefinition)
      → find_task (executor_of config) (text_at json (task_of json message) (bytes "name"))
        ≡ some definition
      → Performs json services config message
          (run_job json services config job message definition (temp_root services job))
          RunPost
  unfolding run_job
  run_job-Performs definition found =
      Quiet-bind_ok json services config message _ _
        (download_inputs-Quiet json services config message) (λ e. refl)
        λ _.
          Quiet-bind_ok json services config message _ _
            (run_task-Quiet json services config message definition found) (λ e. refl)
            λ executed.
              Quiet-bind_ok json services config message _ _
                (upload_outputs-Quiet json services config message) (λ e. refl)
                λ urls. finish_job-Performs executed urls

  add_running :
      (r : Expected (Unit {0})) (ss : List Text)
      → RunPost r ss
      → ProcessPost r (ss ++ bytes "running" ∷ [])
  add_running (ok tt) ss h = inr (inr (rw h))
  add_running (unexpected e) ss h = rw h

  process_found-Performs :
      (found : Option TaskDefinition)
      → find_task (executor_of config) (text_at json (task_of json message) (bytes "name")) ≡ found
      → Performs json services config message
          (process_found json services config job message found)
          ProcessPost
  unfolding process_found
  process_found-Performs none e =
      Performs-bind json services config message _ _
        (fail_without_retry-Performs json services config message _)
        λ _ ss wrote. Performs-pure json services config message _ (inr (inl wrote))
  process_found-Performs (some definition) e =
      Performs-bind json services config message _ _
        (set_job_status-Performs json services config message (bytes "running")
          (contract_fields json message) (contract_fields-status json message))
        λ _ ss wrote.
          Runs-weaken _
            (with_temp_dir-Performs json services config message _ (run_job-Performs definition e))
            λ r new h. let (ts, post, did) = h in (ts, rw wrote (add_running r ts post), did)

  pub process_job-Performs :
      Performs json services config message (process_job json services config message) ProcessPost
  unfolding process_job
  process_job-Performs =
      Quiet-bind json services config message _ _
        (is_terminal_status-Quiet json services config message)
        λ terminal.
          Runs-if terminal _ _ (λ _. Performs-pure json services config message _ (inl refl))
            (λ _. process_found-Performs _ refl)

  after_process-Performs :
      (body : Text) (r : Expected (Unit {0})) (ss : List Text)
      → ProcessPost r ss
      → Performs json services config message
          (after_process json services config message body r)
          (λ a ts. (a ≡ ok tt) × IsFate (ts ++ ss))
  unfolding after_process
  after_process-Performs body (ok tt) ss post =
      Performs-pure json services config message _ (refl, IsFate-of_ok ss post)
  after_process-Performs body (unexpected e) ss post =
      Performs-bind json services config message _ _
        (handle_processing_failure-Performs json services config message body e)
        λ _ ts left.
          Performs-pure json services config message _ (refl, IsFate-of_failure ss ts post left)

  drop_invalid-Performs :
      (error : Text)
      → Performs json services config message
          (drop_invalid json services config message error)
          (λ _ ss. IsFate ss)
  unfolding drop_invalid
  drop_invalid-Performs error = elim (Option-cases (string_at json message (bytes "job_id"))) [
    | inl e ↦ rw (e, drop_invalid) (Performs-pure json services config message tt (inl refl))
    | inr (id, e) ↦
        let same : job ≡ c_str id = (unfold text_at in rw (e, text_at)) in
        rw (e, drop_invalid)
          (Runs-if (is_valid_job_id id) _ _
            (λ _. rw (← same) (
              Runs-weaken _
                (set_job_status-Performs json services config message (bytes "failed")
                  (failure_updates json message error) (failure_updates-status json message error))
                λ _ new h. (h.0, inr (inl h.1), h.2)))
            λ _. Performs-pure json services config message tt (inl refl))
  ]

  pub handle_object-Performs :
      (body : Text) (validated : Expected (Unit {0}))
      → Performs json services config message
          (handle_object json services config message body validated)
          (λ a ss. (a ≡ ok tt) × IsFate ss)
  unfolding handle_object
  handle_object-Performs body (unexpected error) =
      Performs-bind json services config message _ _ (drop_invalid-Performs error)
        λ _ ss fate. Performs-pure json services config message _ (refl, fate)
  handle_object-Performs body (ok tt) =
      Performs-bind json services config message _ _ process_job-Performs
        λ r ss post. after_process-Performs body r ss post
