-- ===== src/Worker/Entries/Message.antt =====
-- The DLQ entry of a job when one of its messages has been handled.
use yirang_taskforge.Prelude.{
  ◌≡◌, refl, sym, ap, ◌∙◌, ◌++◌, append_assoc, append-nil, true, false, Option-cases, inl, inr,
  none, some, List, [], ◌∷◌, Text, bytes, ℤ, Expected, ok, unexpected, succ32,
}
use yirang_taskforge.Json.{Json}
use yirang_taskforge.MessageValidation.{validate_request}
use yirang_taskforge.World.{
  World, Services, Event, Directory, Act, redis_get, record_event, pure, ◌>>=◌,
}
use yirang_taskforge.World.Trace.{Runs-weaken}
use yirang_taskforge.TaskExecutor.{TaskDefinition, TaskExecutionResult, find_task}
use yirang_taskforge.Configurations.{Configurations}
use yirang_taskforge.TaskDlq.{
  entry_name, entry_path, exists_in, can_write, previous_try_count, remove, record_failure,
}
use yirang_taskforge.Worker.Status.{
  contract_fields, set_job_status, is_terminal_reply, is_terminal_status,
}
use yirang_taskforge.Worker.Status.Contract.{contract_fields-status}
use yirang_taskforge.Worker.Transfer.{text_at}
use yirang_taskforge.Worker.Failure.{
  dlq_of, failure_updates, republish_of, inbound_try_count, fail_without_retry,
}
use yirang_taskforge.Worker.Failure.Entries.{
  Settles, removed_none, trace-remove, handle_processing_failure-Settles,
}
use yirang_taskforge.Worker.Process.{
  executor_of, task_of, not_registered, finish_job, run_job, process_found, process_job,
  after_process, handle_object, handle_message,
}
use yirang_taskforge.Worker.Process.Redelivery.{handle_message-object, handle_message-unregistered}
use yirang_taskforge.Worker.Delivery.{Stage, running, done, failed}
use yirang_taskforge.Worker.Effects.{Statuses, start, quiet, Statuses-append}
use yirang_taskforge.Worker.Effects.Leaves.{Performs, Performs-bind, set_job_status-Performs}
use yirang_taskforge.Worker.Effects.Failures.{failure_updates-status, with_temp_dir-Performs}
use yirang_taskforge.Worker.Effects.Handling.{RunPost, run_job-Performs}
use yirang_taskforge.Worker.Entries.{Turns, Turns-bind, Turns-bind_ok}
use yirang_taskforge.Worker.Entries.Keeps.{
  with_temp_dir-Turns, download_inputs-Keeps, run_task-Keeps, upload_outputs-Keeps,
  set_job_status-Keeps,
}

module _ (json : Json) (services : Services) (config : Configurations)
    (message : Json.Object json) where
  open json use {Value, Object, parse, as_object?}

  abbrev job : Text
  job = text_at json message (bytes "job_id")

  -- The read of the status comes first and writes none.
  Settles-after :
      {A B : Type 0} (earlier : List Stage) (m : Act A) (k : Act B) (w : World)
      → (m w).1 ≡ (k (record_event (redis_get job) w)).1
      → Settles json services config message earlier k (record_event (redis_get job) w)
      → Settles json services config message earlier m w
  Settles-after earlier m k w same s = record {
    stage = s.stage;
    new = s.new ++ redis_get job ∷ [];
    extends =
        ap (λ v. v.trace) same ∙ s.extends ∙ sym (append_assoc s.new (redis_get job ∷ []) w.trace);
    marks = rw (append-nil) at (Statuses-append json s.marks (quiet (redis_get job) refl start));
    entry = rw same s.entry;
  }

  -- A run that succeeds leaves no entry; one that fails leaves the directory as it was.
  abbrev Left : Expected (Unit {0}) → Directory → Directory → Type 0
  Left (ok _) before after = exists_in after (entry_name job) ≡ none
  Left (unexpected e) before after = after ≡ before

  module _
      (removes : (w : World) → services.removes w (entry_path (dlq_of config) job) ≡ true) where
    remove-Turns : Turns (remove services (dlq_of config) job >>= λ _. pure (ok tt)) Left
    unfolding ◌>>=◌ pure
    remove-Turns = record { at = λ w. removed_none json services config message w (removes w) }

    finish_job-Turns :
        (executed : TaskExecutionResult) (urls : List Value)
        → Turns (finish_job json services config job message executed urls) Left
    unfolding finish_job
    finish_job-Turns executed urls =
        Turns-bind _ _ (set_job_status-Keeps json services config _ _ _) λ _. remove-Turns

    run_job-Turns :
        (definition : TaskDefinition) (root : Text)
        → Turns (run_job json services config job message definition root) Left
    unfolding run_job
    run_job-Turns definition root =
        Turns-bind_ok _ _ (download_inputs-Keeps json services config message _) (λ e d. refl)
          λ _.
            Turns-bind_ok _ _ (run_task-Keeps json services config message definition root)
              (λ e d. refl)
              λ executed.
                Turns-bind_ok _ _ (upload_outputs-Keeps json services config _ _) (λ e d. refl)
                  λ urls. finish_job-Turns executed urls

    process_found-Turns :
        (definition : TaskDefinition)
        → Turns (process_found json services config job message (some definition)) Left
    unfolding process_found
    process_found-Turns definition =
        Turns-bind _ _ (set_job_status-Keeps json services config _ _ _)
          λ _. with_temp_dir-Turns _ _ (run_job-Turns definition _)

    process_found-Performs :
        (definition : TaskDefinition)
        → find_task (executor_of config) (text_at json (task_of json message) (bytes "name"))
          ≡ some definition
        → Performs json services config message
            (process_found json services config job message (some definition))
            (λ r ss. (ts : List Text) × RunPost r ts × (ss ≡ ts ++ bytes "running" ∷ []))
    unfolding process_found
    process_found-Performs definition found =
        Performs-bind json services config message _ _
          (set_job_status-Performs json services config message (bytes "running")
            (contract_fields json message) (contract_fields-status json message))
          λ _ ss wrote.
            Runs-weaken _
              (with_temp_dir-Performs json services config message _
                (run_job-Performs json services config message definition found))
              λ r new h. let (ts, post, did) = h in (ts, (ts, post, rw wrote), did)

    fail_without_retry-Settles :
        (reason : Text) (w : World)
        → Settles json services config message []
            (fail_without_retry json services config job message reason)
            w
    unfolding fail_without_retry ◌>>=◌
    fail_without_retry-Settles reason w =
        let marked =
          set_job_status json services config job (bytes "failed")
            (failure_updates json message reason) in
        let (new, e, (ss, one, did)) =
          (set_job_status-Performs json services config message (bytes "failed")
              (failure_updates json message reason) (failure_updates-status json message reason)).at
            w in
        record {
          stage = failed;
          new = new;
          extends = trace-remove json services config message (marked w).1 ∙ e;
          marks = rw one at did.marks;
          entry =
              rw (removed_none json services config message (marked w).1 (removes (marked w).1));
        }

    recorded :
        (body reason : Text) (n : ℤ) (v : World)
        → can_write json services (dlq_of config) v job ≡ true
        → (record_failure json services (dlq_of config) job body reason n v).0
          ≡ ok (succ32 (previous_try_count json services (dlq_of config) v job n))
    unfolding record_failure
    recorded body reason n v writable = rw writable

    -- After the run: done, or the failure's own end.
    after_process-Settles :
        (body : Text) (r : Expected (Unit {0})) (w v : World) (ts : List Text) (new : List Event)
        → ((u : World) → u.dlq ≡ w.dlq → can_write json services (dlq_of config) u job ≡ true)
        → RunPost r ts
        → Left r w.dlq v.dlq
        → v.trace ≡ new ++ w.trace
        → Statuses json job new (ts ++ bytes "running" ∷ [])
        → Settles json services config message
            (running ∷ [])
            (λ _. after_process json services config message body r v)
            w
    unfolding after_process ◌>>=◌ pure
    after_process-Settles body (ok _) w v ts new writable post gone traced marks = record {
      stage = done;
      new = new;
      extends = traced;
      marks = rw post at marks;
      entry = rw gone;
    }
    after_process-Settles body (unexpected e) w v ts new writable post kept traced marks =
        let republish = republish_of json job body in
        let s =
          handle_processing_failure-Settles json services config message removes body e _ v
            (recorded body e (inbound_try_count json republish) v (writable v kept)) in
        record {
          stage = s.stage;
          new = s.new ++ new;
          extends = s.extends ∙ ap (λ t. s.new ++ t) traced ∙ sym (append_assoc s.new new w.trace);
          marks = Statuses-append json s.marks (rw post at marks);
          entry = s.entry;
        }

    handled-found :
        (body : Text) (v : Value) (w : World) (definition : TaskDefinition)
        → parse body ≡ some v
        → as_object? v ≡ some message
        → validate_request json message ≡ ok tt
        → is_terminal_reply json (services.get w job) ≡ false
        → find_task (executor_of config) (text_at json (task_of json message) (bytes "name"))
          ≡ some definition
        → (let processed =
              process_found json services config job message
                (some definition)
                (record_event (redis_get job) w) in
            handle_message json services config body w
            ≡ after_process json services config message body processed.0 processed.1)
    unfolding handle_object process_job is_terminal_status ◌>>=◌
    handled-found body v w definition parsed object valid unended found = rw (
      handle_message-object json services config body v message parsed object,
      valid,
      unended,
      found,
    )

    -- No message leaves an orphan in the DLQ: for a valid message of a job that has not ended, if
    -- removals succeed and an entry of the job could be written as the directory stands, the job has
    -- an entry after the message exactly if its last stage that was written is `queued`.
    pub handle_message-Settles :
        (body : Text) (v : Value) (w : World)
        → ((u : World) → u.dlq ≡ w.dlq → can_write json services (dlq_of config) u job ≡ true)
        → parse body ≡ some v
        → as_object? v ≡ some message
        → validate_request json message ≡ ok tt
        → is_terminal_reply json (services.get w job) ≡ false
        → (earlier : List Stage) × Settles json services config message earlier
            (handle_message json services config body)
            w
    handle_message-Settles body v w writable parsed object valid unended =
        let asked = record_event (redis_get job) w in
        elim (Option-cases
          (find_task (executor_of config) (text_at json (task_of json message) (bytes "name")))) [
            | inl missing ↦
                let s =
                  fail_without_retry-Settles
                    (not_registered (text_at json (task_of json message) (bytes "name"))) asked in
                let same =
                  handle_message-unregistered json services config body v message w parsed object
                    valid unended missing in
                ([], Settles-after [] _ _ w (ap (λ p. p.1) same) s)
            | inr (definition, found) ↦
                let (new, e, (ss, (ts, post, all), did)) =
                  (process_found-Performs definition found).at asked in
                let s =
                  after_process-Settles body _ asked _ ts new writable post
                    ((process_found-Turns definition).at asked) e (rw all at did.marks) in
                let same = handled-found body v w definition parsed object valid unended found in
                (running ∷ [], Settles-after (running ∷ []) _ _ w (ap (λ p. p.1) same) s)
          ]
