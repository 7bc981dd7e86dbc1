-- ===== src/Worker/Scope/Calls.antt =====
-- The calls of a job's run, which stand within the scope, and the calls that have to do with no file.
use yirang_taskforge.Prelude.{
  ℕ, zero, suc, refl, not, List, [], ◌∷◌, Text, ℤ, succ32, Expected, ok, unexpected, arith,
}
use yirang_taskforge.Json.{Json}
use yirang_taskforge.World.{Event, Services, OutputEntry, Act}
use yirang_taskforge.World.Trace.{Emits, Runs-if, Emits-bind, Emits-pure, Emits-ask, Emits-call}
use yirang_taskforge.Configurations.{Configurations}
use yirang_taskforge.TaskExecutor.{TaskDefinition, execute}
use yirang_taskforge.TaskDlq.{TaskDlq, can_retry, remove}
use yirang_taskforge.Worker.Backoff.{backoff_with_jitter, sleep_backoff}
use yirang_taskforge.Worker.Status.{set_job_status, is_terminal_status}
use yirang_taskforge.Worker.Transfer.{
  or_retry, download_attempts, download_entries, download_inputs, upload_file, upload_entries,
  upload_outputs,
}
use yirang_taskforge.Worker.Failure.{
  dlq_of, fail_without_retry, give_up, give_up_unrecorded, after_send, requeue, after_record,
  handle_processing_failure,
}
use yirang_taskforge.Worker.Failure.Retry.{trace-record_failure}
use yirang_taskforge.Worker.Process.{run_task, finish_job, run_job}
use yirang_taskforge.Worker.Scope.{IsFree, IsInner, Emits-bind_ok}

module _ (P : Event → Type 0) (free : (e : Event) → IsFree e → P e) where
  module _ (services : Services) where
    sleep_backoff-free :
        (attempt : ℤ) (base most : ℕ) → Emits P (sleep_backoff services attempt base most)
    unfolding sleep_backoff backoff_with_jitter
    sleep_backoff-free attempt base most =
        Emits-bind _ _ (Emits-ask _) λ delay. Emits-call _ _ (free _ (refl, refl))

    remove-free : (dlq : TaskDlq) (job_id : Text) → Emits P (remove services dlq job_id)
    unfolding remove
    remove-free dlq job_id = record { at = λ w. ([], ground arith, tt) }

  module _ (json : Json) (services : Services) (config : Configurations) where
    open json use {Value, Object}

    pub set_job_status-free :
        (job_id status : Text) (updates : Object)
        → Emits P (set_job_status json services config job_id status updates)
    unfolding set_job_status
    set_job_status-free job_id status updates =
        Emits-bind _ _ (Emits-call _ _ (free _ (refl, refl))) λ existing.
          Emits-bind _ _ (Emits-ask _)
            λ now. Emits-bind _ _ (Emits-call _ _ (free _ (refl, refl))) λ saved. Emits-pure tt

    pub is_terminal_status-free :
        (job_id : Text) → Emits P (is_terminal_status json services job_id)
    unfolding is_terminal_status
    is_terminal_status-free job_id =
        Emits-bind _ _ (Emits-call _ _ (free _ (refl, refl))) λ r. Emits-pure _

    pub finish_job-free :
        (job_id : Text) (message : Object) (executed : _) (urls : List Value)
        → Emits P (finish_job json services config job_id message executed urls)
    unfolding finish_job
    finish_job-free job_id message executed urls =
        Emits-bind _ _ (set_job_status-free _ _ _)
          λ _. Emits-bind _ _ (remove-free services _ _) λ _. Emits-pure _

    pub fail_without_retry-free :
        (job_id : Text) (message : Object) (reason : Text)
        → Emits P (fail_without_retry json services config job_id message reason)
    unfolding fail_without_retry
    fail_without_retry-free job_id message reason =
        Emits-bind _ _ (set_job_status-free _ _ _) λ _. remove-free services _ _

    give_up-free :
        (job_id : Text) (republish : Object) (reason : Text) (n : ℤ)
        → Emits P (give_up json services config job_id republish reason n)
    unfolding give_up
    give_up-free job_id republish reason n =
        Emits-bind _ _ (remove-free services _ _) λ _. set_job_status-free _ _ _

    after_send-free :
        (job_id : Text) (republish : Object) (reason : Text) (n : ℤ) (r : Expected (Unit {0}))
        → Emits P (after_send json services config job_id republish reason n r)
    unfolding after_send
    after_send-free job_id republish reason n (unexpected e) = give_up-free job_id republish _ n
    after_send-free job_id republish reason n (ok _) = set_job_status-free _ _ _

    requeue-free :
        (job_id : Text) (republish : Object) (reason : Text) (n : ℤ)
        → Emits P (requeue json services config job_id republish reason n)
    unfolding requeue
    requeue-free job_id republish reason n = Emits-bind _ _ (sleep_backoff-free services _ _ _) λ _.
        Emits-bind _ _ (Emits-call _ _ (free _ (refl, refl)))
          λ r. after_send-free job_id _ reason n r

    after_record-free :
        (job_id : Text) (republish : Object) (reason : Text) (r : Expected ℤ)
        → Emits P (after_record json services config job_id republish reason r)
    unfolding after_record give_up_unrecorded
    after_record-free job_id republish reason (unexpected e) = set_job_status-free _ _ _
    after_record-free job_id republish reason (ok n) =
        Runs-if (not (can_retry (dlq_of config) n)) _ _
          (λ _. give_up-free job_id republish reason n) λ _. requeue-free job_id republish reason n

    pub handle_processing_failure-free :
        (job_id body reason : Text)
        → Emits P (handle_processing_failure json services config job_id body reason)
    unfolding handle_processing_failure
    handle_processing_failure-free job_id body reason =
        Emits-bind _ _
          (record {
            at = λ w. ([], trace-record_failure json services _ job_id body reason _ w, tt);
          })
          λ r. after_record-free job_id _ reason r

module _ (json : Json) (services : Services) (config : Configurations) where
  open json use {Value, Object}

  or_retry-IsInner :
      (r : Expected (Unit {0})) (retry : Text → Act (Expected (Unit {0})))
      → ((e : Text) → Emits IsInner (retry e))
      → Emits IsInner (or_retry r retry)
  or_retry-IsInner (ok _) retry h = Emits-pure _
  or_retry-IsInner (unexpected e) retry h = h e

  download_attempts-IsInner :
      (left : ℕ) (attempt : ℤ) (bucket key path error : Text)
      → Emits IsInner (download_attempts services left attempt bucket key path error)
  unfolding download_attempts
  download_attempts-IsInner zero attempt bucket key path error = Emits-pure _
  download_attempts-IsInner (suc left) attempt bucket key path error =
      Emits-bind _ _ (Emits-call _ _ refl) λ r. or_retry-IsInner r _ λ e.
        Emits-bind _ _ (sleep_backoff-free IsInner (λ e h. h.0) services attempt _ _)
          λ _. download_attempts-IsInner left (succ32 attempt) bucket key path e

  download_entries-IsInner :
      (entries : List Value) (dir : Text)
      → Emits IsInner (download_entries json services entries dir)
  unfolding download_entries
  download_entries-IsInner [] dir = Emits-pure _
  download_entries-IsInner (entry ∷ rest) dir =
      Emits-bind_ok _ _ (download_attempts-IsInner _ _ _ _ _ _)
        λ _. download_entries-IsInner rest dir

  run_task-IsInner :
      (message : Object) (definition : TaskDefinition) (root : Text)
      → Emits IsInner (run_task json services config message definition root)
  unfolding run_task execute
  run_task-IsInner message definition root =
      Emits-bind_ok _ _
        (Emits-bind _ _ (Emits-ask _) λ regular.
          Runs-if (not regular) _ _ (λ _. Emits-pure _)
            λ _. Emits-bind _ _ (Emits-call _ _ refl) λ opened.
              Runs-if (not opened) _ _ (λ _. Emits-pure _)
                λ _. Emits-bind _ _ (Emits-call _ _ refl) λ run. Emits-ask _)
        λ executed. Emits-pure _

  upload_entries-IsInner :
      (prefix dir : Text) (entries : List OutputEntry) (results : List Value)
      → Emits IsInner (upload_entries json services config prefix dir entries results)
  unfolding upload_entries upload_file
  upload_entries-IsInner prefix dir [] results = Emits-pure _
  upload_entries-IsInner prefix dir (entry ∷ rest) results =
      Runs-if (not entry.is_regular_file) _ _ (λ _. upload_entries-IsInner prefix dir rest results)
        λ _.
          Emits-bind_ok _ _ (Emits-bind_ok _ _ (Emits-call _ _ refl) λ _. Emits-call _ _ refl)
            λ url. upload_entries-IsInner prefix dir rest _

  upload_outputs-IsInner :
      (prefix dir : Text) → Emits IsInner (upload_outputs json services config prefix dir)
  unfolding upload_outputs
  upload_outputs-IsInner prefix dir = Emits-bind _ _ (Emits-ask _) λ entries.
      Emits-bind _ _ (Emits-ask _) λ error.
        Emits-bind_ok _ _ (upload_entries-IsInner prefix dir entries []) λ results. Emits-pure _

  pub run_job-IsInner :
      (job_id : Text) (message : Object) (definition : TaskDefinition) (root : Text)
      → Emits IsInner (run_job json services config job_id message definition root)
  unfolding run_job download_inputs
  run_job-IsInner job_id message definition root =
      Emits-bind_ok _ _ (download_entries-IsInner _ _) λ _.
        Emits-bind_ok _ _ (run_task-IsInner message definition root) λ executed.
          Emits-bind_ok _ _ (upload_outputs-IsInner _ _) λ urls.
            finish_job-free IsInner (λ e h. h.0) json services config job_id message executed urls
