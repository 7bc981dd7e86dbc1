-- ===== src/Worker/Entries/Others.antt =====
-- What handling a message does to the entries of other jobs, and to the DLQ directory as a whole.
use yirang_taskforge.Prelude.{
  ◌≡◌, refl, sym, subst, ◌∙◌, Bool, true, false, not, Bool-cases, inl, inr, Option, none, some,
  Text, bytes, text_eq, ℤ, Expected, ok, unexpected, arith, if◌then◌else◌, succ32,
}
use yirang_taskforge.Json.{Json}
use yirang_taskforge.MessageValidation.{validate_request}
use yirang_taskforge.World.{Services, Directory, File, regular, Act, pure, ◌>>=◌}
use yirang_taskforge.TaskExecutor.{TaskDefinition}
use yirang_taskforge.Configurations.{Configurations}
use yirang_taskforge.TaskDlq.{
  TaskDlq, entry_name, entry_path, exists_in, is_file_or_new, can_write, can_retry,
  previous_try_count, remove, remove_entry, write_entry, record_failure,
}
use yirang_taskforge.TaskDlq.Record.{lookup-without, entry_exists_self, record_failure-writes}
use yirang_taskforge.Worker.Status.{set_job_status}
use yirang_taskforge.Worker.Transfer.{text_at}
use yirang_taskforge.Worker.Failure.{
  dlq_of, give_up, give_up_unrecorded, fail_without_retry, after_send, requeue, after_record,
  handle_processing_failure,
}
use yirang_taskforge.Worker.Process.{
  finish_job, run_job, process_found, process_job, after_process, handle_object, handle_message,
}
use yirang_taskforge.Worker.Process.Redelivery.{handle_message-object}
use yirang_taskforge.Worker.Entries.{Turns, Keeps, Turns-pure, Turns-if, Turns-bind_ok, Turns-seq}
use yirang_taskforge.Worker.Entries.Keeps.{
  Keeps-call, sleep_backoff-Keeps, with_temp_dir-Turns, download_inputs-Keeps, run_task-Keeps,
  upload_outputs-Keeps, set_job_status-Keeps, is_terminal_status-Keeps,
}

-- The directory is there, and each entry of a job is a file or is yet to be made.
abbrev pub IsSound : Directory → Type 0
IsSound d = (d.present ≡ true) × ((j : Text) → is_file_or_new (exists_in d (entry_name j)) ≡ true)

-- The entries of other jobs stay, and so does a sound directory.
abbrev pub Local : Text → Directory → Directory → Type 0
Local job before after =
    ((j : Text)
      → text_eq job j ≡ false
      → exists_in after (entry_name j) ≡ exists_in before (entry_name j))
    × (IsSound before → IsSound after)

Local-refl : (job : Text) (d : Directory) → Local job d d
Local-refl job d = (λ j apart. refl, λ sound. sound)

Local-trans : (job : Text) (a b c : Directory) → Local job a b → Local job b c → Local job a c
Local-trans job a b c p q = (λ j apart. q.0 j apart ∙ p.0 j apart, λ sound. q.1 (p.1 sound))

without-IsFile :
    (b : Bool) (o : Option File)
    → is_file_or_new o ≡ true
    → is_file_or_new (if b then none else o) ≡ true
without-IsFile true o h = refl
without-IsFile false o h = h

with-IsFile :
    (b : Bool) (contents : Text) (o : Option File)
    → is_file_or_new o ≡ true
    → is_file_or_new (if b then some (regular contents) else o) ≡ true
with-IsFile true contents o h = refl
with-IsFile false contents o h = h

module _ (job : Text) where
  abbrev Locals {ℓ} : {A : Type ℓ} → Act A → Type ℓ
  Locals m = Turns m (λ _. Local job)

  pure-Locals {ℓ} : {A : Type ℓ} (a : A) → Locals (pure a)
  pure-Locals a = Turns-pure a (Local-refl job)

  seq-Locals {ℓ κ} :
      {A : Type ℓ} {B : Type κ} (m : Act A) (f : A → Act B)
      → Locals m
      → ((a : A) → Locals (f a))
      → Locals (m >>= f)
  seq-Locals m f = Turns-seq (Local job) (Local-trans job) m f

  Keeps-Locals {ℓ} : {A : Type ℓ} (m : Act A) → Keeps m → Locals m
  Keeps-Locals m k = record { at = λ w. rw (k.at w) (Local-refl job w.dlq) }

  exists_in-remove_entry :
      (d : Directory) (j : Text)
      → d.present ≡ true
      → exists_in (remove_entry job d) (entry_name j)
        ≡ (if text_eq job j then none else exists_in d (entry_name j))
  unfolding remove_entry
  exists_in-remove_entry d j here =
      rw (here, lookup-without (entry_name job) (entry_name j) d.files, entry_exists_self job j)

  remove_entry-present : (d : Directory) → (remove_entry job d).present ≡ d.present
  unfolding remove_entry
  remove_entry-present d = ground arith

  remove_entry-absent : (d : Directory) → d.present ≡ false → remove_entry job d ≡ d
  unfolding remove_entry
  remove_entry-absent d away = rw away

  remove_entry-Local : (d : Directory) → Local job d (remove_entry job d)
  remove_entry-Local d = elim (Bool-cases d.present) [
    | inl here ↦ (
      (λ j apart. exists_in-remove_entry d j here ∙ rw apart),
      (λ sound. (
        remove_entry-present d ∙ here,
        λ j.
            subst (λ o. is_file_or_new o ≡ true) (sym (exists_in-remove_entry d j here))
              (without-IsFile (text_eq job j) (exists_in d (entry_name j)) (sound.1 j)),
      )),
    )
    | inr away ↦ subst (λ e. Local job d e) (sym (remove_entry-absent d away)) (Local-refl job d)
  ]

  remove-Locals : (services : Services) (dlq : TaskDlq) → Locals (remove services dlq job)
  unfolding remove
  remove-Locals services dlq = record {
    at = λ w. elim (Bool-cases (services.removes w (entry_path dlq job))) [
      | inl removed ↦ rw removed (remove_entry-Local w.dlq)
      | inr kept ↦ rw kept (Local-refl job w.dlq)
    ];
  }

module _ (json : Json) (services : Services) (config : Configurations) where
  open json use {Value, Object, parse, as_object?, serialize}

  record_failure-Locals :
      (dlq : TaskDlq) (job body reason : Text) (n : ℤ)
      → Locals job (record_failure json services dlq job body reason n)
  unfolding record_failure write_entry
  record_failure-Locals dlq job body reason n = record {
    at = λ w. elim (Bool-cases (can_write json services dlq w job)) [
      | inl can ↦
          let count = succ32 (previous_try_count json services dlq w job n) in
          let written =
            (record_failure-writes json services dlq w job body reason n count (rw can)).1 in
          (
            (λ j apart. written j ∙ rw apart),
            (λ sound. (rw can (sound.0), λ j. rw (written j) (with-IsFile _ _ _ (sound.1 j)))),
          )
      | inr cannot ↦ rw cannot (Local-refl job w.dlq)
    ];
  }

  set_job_status-Locals :
      (job status : Text) (updates : Object)
      → Locals job (set_job_status json services config job status updates)
  set_job_status-Locals job status updates =
      Keeps-Locals job _ (set_job_status-Keeps json services config job status updates)

  give_up-Locals :
      (job : Text) (republish : Object) (reason : Text) (n : ℤ)
      → Locals job (give_up json services config job republish reason n)
  unfolding give_up
  give_up-Locals job republish reason n =
      seq-Locals job _ _ (remove-Locals job services (dlq_of config))
        λ _. set_job_status-Locals job _ _

  fail_without_retry-Locals :
      (job : Text) (message : Object) (reason : Text)
      → Locals job (fail_without_retry json services config job message reason)
  unfolding fail_without_retry
  fail_without_retry-Locals job message reason =
      seq-Locals job _ _ (set_job_status-Locals job _ _)
        λ _. remove-Locals job services (dlq_of config)

  after_send-Locals :
      (job : Text) (republish : Object) (reason : Text) (n : ℤ) (r : Expected (Unit {0}))
      → Locals job (after_send json services config job republish reason n r)
  unfolding after_send
  after_send-Locals job republish reason n (ok _) = set_job_status-Locals job _ _
  after_send-Locals job republish reason n (unexpected e) = give_up-Locals job republish _ n

  requeue-Locals :
      (job : Text) (republish : Object) (reason : Text) (n : ℤ)
      → Locals job (requeue json services config job republish reason n)
  unfolding requeue
  requeue-Locals job republish reason n =
      seq-Locals job _ _ (Keeps-Locals job _ (sleep_backoff-Keeps services n _ _)) λ _.
        seq-Locals job _ _ (Keeps-Locals job _ (Keeps-call _ _))
          λ r. after_send-Locals job _ reason n r

  after_record-Locals :
      (job : Text) (republish : Object) (reason : Text) (r : Expected ℤ)
      → Locals job (after_record json services config job republish reason r)
  unfolding after_record give_up_unrecorded
  after_record-Locals job republish reason (ok n) =
      Turns-if (not (can_retry (dlq_of config) n)) _ _ (give_up-Locals job republish reason n)
        (requeue-Locals job republish reason n)
  after_record-Locals job republish reason (unexpected e) = set_job_status-Locals job _ _

  handle_processing_failure-Locals :
      (job body reason : Text)
      → Locals job (handle_processing_failure json services config job body reason)
  unfolding handle_processing_failure
  handle_processing_failure-Locals job body reason =
      seq-Locals job _ _ (record_failure-Locals (dlq_of config) job body reason _)
        λ r. after_record-Locals job _ reason r

  module _ (message : Object) where
    abbrev job : Text
    job = text_at json message (bytes "job_id")

    run_job-Locals :
        (definition : TaskDefinition) (root : Text)
        → Locals job (run_job json services config job message definition root)
    unfolding run_job finish_job
    run_job-Locals definition root =
        Turns-bind_ok _ _ (download_inputs-Keeps json services config message _)
          (λ e. Local-refl job)
          λ _.
            Turns-bind_ok _ _ (run_task-Keeps json services config message definition root)
              (λ e. Local-refl job)
              λ executed.
                Turns-bind_ok _ _ (upload_outputs-Keeps json services config _ _)
                  (λ e. Local-refl job)
                  λ urls. seq-Locals job _ _ (set_job_status-Locals job _ _) λ _.
                    seq-Locals job _ _ (remove-Locals job services (dlq_of config))
                      λ _. pure-Locals job _

    process_found-Locals :
        (found : Option TaskDefinition)
        → Locals job (process_found json services config job message found)
    unfolding process_found
    process_found-Locals none =
        seq-Locals job _ _ (fail_without_retry-Locals job message _) λ _. pure-Locals job _
    process_found-Locals (some definition) =
        seq-Locals job _ _ (set_job_status-Locals job _ _)
          λ _. with_temp_dir-Turns _ _ (run_job-Locals definition _)

    process_job-Locals : Locals job (process_job json services config message)
    unfolding process_job
    process_job-Locals =
        seq-Locals job _ _ (Keeps-Locals job _ (is_terminal_status-Keeps json services config job))
          λ terminal. Turns-if terminal _ _ (pure-Locals job _) (process_found-Locals _)

    after_process-Locals :
        (body : Text) (r : Expected (Unit {0}))
        → Locals job (after_process json services config message body r)
    unfolding after_process
    after_process-Locals body (ok _) = pure-Locals job _
    after_process-Locals body (unexpected e) =
        seq-Locals job _ _ (handle_processing_failure-Locals job body e) λ _. pure-Locals job _

    -- A valid message leaves the entries of other jobs, and a directory that is sound.
    pub handle_message-Locals :
        (body : Text) (v : Value)
        → parse body ≡ some v
        → as_object? v ≡ some message
        → validate_request json message ≡ ok tt
        → Locals job (handle_message json services config body)
    unfolding handle_object
    handle_message-Locals body v parsed object valid =
        rw (handle_message-object json services config body v message parsed object, valid)
          (seq-Locals job _ _ process_job-Locals λ r. after_process-Locals body r)
