-- ===== src/Worker/Effects/Failures.antt =====
-- The effects of the run of a task, of the temporary directory, and of the ways to fail.
use yirang_taskforge.Prelude.{
  ap, sym, ◌∙◌, ◌++◌, append_assoc, append-nil, All-append, ◌≡◌, refl, ◌⊎◌, inl, inr, true, not,
  none, some, List, [], ◌∷◌, Text, bytes, ℤ, Expected, ok, unexpected, arith,
}
use yirang_taskforge.Json.{Json}
use yirang_taskforge.World.{Services, Act, create_directories, remove_all, ◌>>=◌}
use yirang_taskforge.World.Trace.{Runs-if, Runs-weaken}
use yirang_taskforge.Configurations.{Configurations}
use yirang_taskforge.TaskDlq.{can_retry}
use yirang_taskforge.TaskExecutor.{TaskDefinition, find_task, execute}
use yirang_taskforge.Worker.Status.Contract.{contract_fields-status}
use yirang_taskforge.Worker.Transfer.{text_at, temp_root, inputs, outputs, with_temp_dir}
use yirang_taskforge.Worker.Failure.{
  dlq_of, failure_updates, retry_updates, give_up, give_up_unrecorded, after_send, requeue,
  after_record, handle_processing_failure, fail_without_retry,
}
use yirang_taskforge.Worker.Process.{executor_of, task_of, run_task}
use yirang_taskforge.Worker.Effects.{Statuses-append, start, quiet}
use yirang_taskforge.Worker.Effects.Leaves.{
  Performs, Quiet, Performs-pure, Performs-ask, Performs-call, Performs-bind, Quiet-bind,
  Quiet-bind_ok, set_job_status-Performs, remove-Quiet, record_failure-Quiet,
}
use yirang_taskforge.Worker.Effects.Files.{effective_timeout-le, sleep_backoff-Quiet}

-- The updates leave the status alone.
module _ (json : Json) where
  open json use {Object, Value, find, find-put, find-empty, as_string?, put}

  pub failure_updates-status :
      (message : Object) (reason : Text)
      → find (failure_updates json message reason) (bytes "status") ≡ none
  unfolding failure_updates
  failure_updates-status message reason = simp (find-put, contract_fields-status)

  pub retry_updates-status :
      (message : Object) (reason : Text) (n : ℤ)
      → find (retry_updates json message reason n) (bytes "status") ≡ none
  unfolding retry_updates
  retry_updates-status message reason n = simp (find-put, failure_updates-status)

-- The status that a failed attempt is left with.
abbrev pub FailedOrQueued : List Text → Type 0
FailedOrQueued ss = (ss ≡ bytes "failed" ∷ []) ⊎ (ss ≡ bytes "queued" ∷ [])

module _ (json : Json) (services : Services) (config : Configurations)
    (message : Json.Object json) where
  open json use {Object, Value}

  abbrev job : Text
  job = text_at json message (bytes "job_id")

  pub with_temp_dir-Performs :
      {A : Type 0} {Q : A → List Text → Type 0} (body : Act A)
      → Performs json services config message body Q
      → Performs json services config message (with_temp_dir (temp_root services job) body) Q
  unfolding with_temp_dir ◌>>=◌
  with_temp_dir-Performs {Q} body p =
      let root = temp_root services job in
      record {
        at = λ w.
            let begun = record w {
              trace =
                  create_directories (outputs root) ∷ create_directories (inputs root) ∷ w.trace;
            } in
            let (new, e, (ss, q, did)) = p.at begun in
            (
              remove_all root ∷ new
                  ++ create_directories (outputs root) ∷ create_directories (inputs root) ∷ [],
              ap (λ t. remove_all root ∷ t)
                  (e
                    ∙ sym (
                        append_assoc new
                          (create_directories (outputs root)
                            ∷ create_directories (inputs root)
                            ∷ [])
                          w.trace)),
              (
                ss,
                q,
                record {
                  marks = quiet (remove_all root) refl (
                      rw (← append-nil ss)
                        (Statuses-append json did.marks (quiet _ refl (quiet _ refl start))));
                  permitted = (refl, All-append _ new _ did.permitted (inr refl, (inl refl, tt)));
                },
              ),
            );
      }

  pub run_task-Quiet :
      (definition : TaskDefinition)
      → find_task (executor_of config) (text_at json (task_of json message) (bytes "name"))
        ≡ some definition
      → Quiet json services config message
          (run_task json services config message definition (temp_root services job))
  unfolding run_task execute
  run_task-Quiet definition found =
      Quiet-bind_ok json services config message _ _
        (Quiet-bind json services config message _ _
          (Performs-ask json services config message _ (λ w. refl))
          λ regular.
            Runs-if (not regular) _ _ (λ _. Performs-pure json services config message _ refl)
              λ _.
                Quiet-bind json services config message _ _
                  (Performs-call json services config message _ _ refl refl (λ w. refl))
                  λ opened.
                    Runs-if (not opened) _ _
                      (λ _. Performs-pure json services config message _ refl)
                      λ _.
                        Quiet-bind json services config message _ _
                          (Performs-call json services config message _ _ refl
                            (
                              definition,
                              found,
                              refl,
                              refl,
                              effective_timeout-le config.default_timeout_sec _,
                            )
                            (λ w. refl))
                          λ run. Performs-ask json services config message _ (λ w. refl))
        (λ e. refl) λ executed. Performs-pure json services config message _ refl

  pub fail_without_retry-Performs :
      (reason : Text)
      → Performs json services config message
          (fail_without_retry json services config job message reason)
          (λ _ ss. ss ≡ bytes "failed" ∷ [])
  unfolding fail_without_retry
  fail_without_retry-Performs reason =
      Performs-bind json services config message _ _
        (set_job_status-Performs json services config message (bytes "failed")
          (failure_updates json message reason) (failure_updates-status json message reason))
        λ _ ss wrote.
          Runs-weaken _ (remove-Quiet json services config message (dlq_of config) job)
            λ _ new h. let (ts, e, did) = h in (ts, rw (e, wrote), did)

  give_up-Performs :
      (republish : Object) (reason : Text) (n : ℤ)
      → Performs json services config message
          (give_up json services config job republish reason n)
          (λ _ ss. FailedOrQueued ss)
  unfolding give_up
  give_up-Performs republish reason n =
      Quiet-bind json services config message _ _
        (remove-Quiet json services config message (dlq_of config) job)
        λ _.
          Runs-weaken _
            (set_job_status-Performs json services config message (bytes "failed")
              (retry_updates json republish reason n)
              (retry_updates-status json republish reason n))
            λ _ new h. (h.0, inl h.1, h.2)

  after_send-Performs :
      (republish : Object) (reason : Text) (n : ℤ) (r : Expected (Unit {0}))
      → Performs json services config message
          (after_send json services config job republish reason n r)
          (λ _ ss. FailedOrQueued ss)
  unfolding after_send
  after_send-Performs republish reason n (unexpected e) = give_up-Performs republish _ n
  after_send-Performs republish reason n (ok tt) =
      Runs-weaken _
        (set_job_status-Performs json services config message (bytes "queued")
          (retry_updates json republish reason n) (retry_updates-status json republish reason n))
        λ _ new h. (h.0, inr h.1, h.2)

  requeue-Performs :
      (republish : Object) (reason : Text) (n : ℤ)
      → can_retry (dlq_of config) n ≡ true
      → Performs json services config message
          (requeue json services config job republish reason n)
          (λ _ ss. FailedOrQueued ss)
  unfolding requeue
  requeue-Performs republish reason n allowed =
      Quiet-bind json services config message _ _
        (sleep_backoff-Quiet json services config message n 1000 8000)
        λ _.
          Quiet-bind json services config message _ _
            (Performs-call json services config message _ _ refl (refl, (n, allowed, refl))
              (λ w. refl))
            λ r. after_send-Performs _ reason n r

  after_record-Performs :
      (republish : Object) (reason : Text) (r : Expected ℤ)
      → Performs json services config message
          (after_record json services config job republish reason r)
          (λ _ ss. FailedOrQueued ss)
  unfolding after_record give_up_unrecorded
  after_record-Performs republish reason (unexpected e) =
      Runs-weaken _
        (set_job_status-Performs json services config message (bytes "failed")
          (failure_updates json republish reason) (failure_updates-status json republish reason))
        λ _ new h. (h.0, inl h.1, h.2)
  after_record-Performs republish reason (ok n) =
      Runs-if (not (can_retry (dlq_of config) n)) _ _ (λ _. give_up-Performs republish reason n)
        λ may. requeue-Performs republish reason n (ground arith)

  pub handle_processing_failure-Performs :
      (body reason : Text)
      → Performs json services config message
          (handle_processing_failure json services config job body reason)
          (λ _ ss. FailedOrQueued ss)
  unfolding handle_processing_failure
  handle_processing_failure-Performs body reason =
      Quiet-bind json services config message _ _
        (record_failure-Quiet json services config message (dlq_of config) job body reason _)
        λ r. after_record-Performs _ reason r
