-- ===== src/Worker/Process/Success.antt =====
-- A job whose services work: every step of `process_job` succeeds, and the job ends as done.
use yirang_taskforge.Prelude.{
  ℕ, suc, ◌≡◌, refl, sym, ◌∙◌, ◌++◌, append_assoc, Bool, true, false, none, some, List, [], ◌∷◌,
  Text, bytes, ℤ, pos, Expected, ok, unexpected, has_value, not, if◌then◌else◌,
}
use yirang_taskforge.Json.{Json}
use yirang_taskforge.MessageValidation.{validate_request}
use yirang_taskforge.World.{
  World, Services, Event, OutputEntry, Run, redis_get, record_event, Act, pure, ◌>>=◌,
}
use yirang_taskforge.World.Trace.{Runs-weaken}
use yirang_taskforge.Configurations.{Configurations}
use yirang_taskforge.TaskExecutor.{
  TaskDefinition, TaskExecutionResult, find_task, timed_out_after, finish_run, execute,
}
use yirang_taskforge.Worker.Status.{contract_fields, is_terminal_reply, is_terminal_status}
use yirang_taskforge.Worker.Status.Contract.{contract_fields-status}
use yirang_taskforge.Worker.Transfer.{
  on_ok, ◌>>=?◌, text_at, temp_root, download_attempts, download_entries, download_inputs,
  upload_file, upload_entries, upload_outputs,
}
use yirang_taskforge.Worker.Process.{
  executor_of, task_of, exit_checked, run_task, finish_job, run_job, process_found, process_job,
  after_process, handle_object, handle_message,
}
use yirang_taskforge.Worker.Process.Redelivery.{handle_message-object}
use yirang_taskforge.Worker.Effects.{Statuses, Statuses-append, start, quiet}
use yirang_taskforge.Worker.Effects.Leaves.{Performs, Performs-bind, set_job_status-Performs}
use yirang_taskforge.Worker.Effects.Failures.{with_temp_dir-Performs}
use yirang_taskforge.Worker.Effects.Handling.{RunPost, run_job-Performs}

-- The transfers succeed, and a task that is started exits with 0 in time.
pub record Working (services : Services) : Type 0 where
  pub downloads :
      (w : World) (bucket key path : Text) → services.download_file w bucket key path ≡ ok tt
  pub uploads :
      (w : World) (bucket key path : Text) → services.upload_file w bucket key path ≡ ok tt
  pub url : World → Text → Text → ℤ → Text
  pub presigns :
      (w : World) (bucket key : Text) (ttl : ℤ)
      → services.generate_presigned_url w bucket key ttl ≡ ok (url w bucket key ttl)
  pub executables : (w : World) (path : Text) → services.is_regular_file w path ≡ true
  pub captures : (w : World) (path : Text) → services.opens_stdout w path ≡ true
  pub run : World → Text → List Text → ℤ → Run
  pub runs :
      (w : World) (path : Text) (args : List Text) (limit : ℤ)
      → services.run w path args limit ≡ ok (run w path args limit)
  pub in_time :
      (w : World) (path : Text) (args : List Text) (limit : ℤ)
      → timed_out_after false (run w path args limit).completions ≡ false
  pub exits :
      (w : World) (path : Text) (args : List Text) (limit : ℤ)
      → (run w path args limit).exit_code ≡ pos 0
  pub iterates : (w : World) (path : Text) → services.directory_error w path ≡ none

abbrev Succeeds {ℓ} : {A : Type ℓ} → Act (Expected A) → Type 0
Succeeds m = (w : World) → has_value (m w).0 ≡ true

on_ok-Succeeds {ℓ κ} :
    {A : Type ℓ} {B : Type κ} (r : Expected A) (f : A → Act (Expected B))
    → has_value r ≡ true
    → ((a : A) → Succeeds (f a))
    → Succeeds (on_ok r f)
on_ok-Succeeds (ok a) f h k = k a
on_ok-Succeeds (unexpected e) f h k = absurd (cc)

then-Succeeds {ℓ κ} :
    {A : Type ℓ} {B : Type κ} (m : Act (Expected A)) (f : A → Act (Expected B))
    → Succeeds m
    → ((a : A) → Succeeds (f a))
    → Succeeds (m >>=? f)
unfolding ◌>>=◌
then-Succeeds m f h k w = on_ok-Succeeds (m w).0 f (h w) k (m w).1

pure-Succeeds {ℓ} : {A : Type ℓ} (a : A) → Succeeds (pure (ok a))
unfolding pure
pure-Succeeds a w = refl

if-Succeeds {ℓ} :
    {A : Type ℓ} (b : Bool) (m n : Act (Expected A))
    → Succeeds m
    → Succeeds n
    → Succeeds (if b then m else n)
if-Succeeds true m n h k = h
if-Succeeds false m n h k = k

module _ (services : Services) (working : Working services) where
  download_attempts-Succeeds :
      (left : ℕ) (attempt : ℤ) (bucket key path error : Text)
      → Succeeds (download_attempts services (suc left) attempt bucket key path error)
  unfolding download_attempts ◌>>=◌
  download_attempts-Succeeds left attempt bucket key path error w =
      rw (working.downloads w bucket key path)

  module _ (json : Json) where
    open json use {Value, Object}

    download_entries-Succeeds :
        (entries : List Value) (dir : Text) → Succeeds (download_entries json services entries dir)
    unfolding download_entries
    download_entries-Succeeds [] dir = pure-Succeeds tt
    download_entries-Succeeds (entry ∷ rest) dir =
        then-Succeeds _ _ (download_attempts-Succeeds 2 (pos 1) _ _ _ [])
          λ _. download_entries-Succeeds rest dir

    module _ (config : Configurations) where
      upload_file-Succeeds :
          (prefix dir name : Text) → Succeeds (upload_file json services config prefix dir name)
      unfolding upload_file ◌>>=◌
      upload_file-Succeeds prefix dir name w = rw (
        working.uploads w config.s3_bucket (prefix ++ name) _,
        working.presigns _ config.s3_bucket (prefix ++ name) config.presign_ttl_sec,
      )

      upload_entries-Succeeds :
          (prefix dir : Text) (entries : List OutputEntry) (results : List Value)
          → Succeeds (upload_entries json services config prefix dir entries results)
      unfolding upload_entries
      upload_entries-Succeeds prefix dir [] results = pure-Succeeds results
      upload_entries-Succeeds prefix dir (entry ∷ rest) results =
          if-Succeeds (not entry.is_regular_file) _ _
            (upload_entries-Succeeds prefix dir rest results)
            (then-Succeeds _ _ (upload_file-Succeeds prefix dir entry.name)
              λ url. upload_entries-Succeeds prefix dir rest _)

      upload_outputs-Succeeds :
          (prefix dir : Text) → Succeeds (upload_outputs json services config prefix dir)
      unfolding upload_outputs ◌>>=◌
      upload_outputs-Succeeds prefix dir w = rw (working.iterates w dir) (
          then-Succeeds
            (upload_entries json services config prefix dir (services.directory_entries w dir) [])
            (λ results. pure (ok results))
            (upload_entries-Succeeds prefix dir (services.directory_entries w dir) [])
            (λ results. pure-Succeeds results) w)

      module _ (message : Object) (definition : TaskDefinition) where
        run_task-Succeeds :
            (root : Text) → Succeeds (run_task json services config message definition root)
        unfolding run_task execute finish_run exit_checked ◌>>=◌
        run_task-Succeeds root w = rw (
          working.executables w _,
          working.captures w _,
          working.runs _ _ _ _,
          working.in_time _ _ _ _,
          working.exits _ _ _ _,
        )

        finish_job-Succeeds :
            (job_id : Text) (executed : TaskExecutionResult) (urls : List Value)
            → Succeeds (finish_job json services config job_id message executed urls)
        unfolding finish_job ◌>>=◌
        finish_job-Succeeds job_id executed urls w = refl

        run_job-Succeeds :
            (job_id root : Text)
            → Succeeds (run_job json services config job_id message definition root)
        unfolding run_job download_inputs
        run_job-Succeeds job_id root = then-Succeeds _ _ (download_entries-Succeeds _ _) λ _.
            then-Succeeds _ _ (run_task-Succeeds root) λ executed.
              then-Succeeds _ _ (upload_outputs-Succeeds _ _)
                λ urls. finish_job-Succeeds job_id executed urls

module _ (json : Json) (services : Services) (config : Configurations) (message : Json.Object json)
    (working : Working services) where
  open json use {Value, Object, parse, as_object?}

  abbrev job : Text
  job = text_at json message (bytes "job_id")

  done_of_success :
      (r : Expected (Unit {0})) (ss : List Text)
      → has_value r ≡ true
      → RunPost r ss
      → (r ≡ ok tt) × (ss ≡ bytes "done" ∷ [])
  done_of_success (ok tt) ss h post = (refl, post)
  done_of_success (unexpected e) ss h post = absurd (cc)

  run_job-Done :
      (definition : TaskDefinition)
      → find_task (executor_of config) (text_at json (task_of json message) (bytes "name"))
        ≡ some definition
      → Performs json services config message
          (run_job json services config job message definition (temp_root services job))
          (λ r ss. (r ≡ ok tt) × (ss ≡ bytes "done" ∷ []))
  run_job-Done definition found = record {
    at = λ w.
        let (new, e, (ss, post, did)) =
          (run_job-Performs json services config message definition found).at w in
        (
          new,
          e,
          (
            ss,
            done_of_success _ ss
                (run_job-Succeeds services working json config message definition job
                  (temp_root services job) w)
                post,
            did,
          ),
        );
  }

  process_found-Done :
      (definition : TaskDefinition)
      → find_task (executor_of config) (text_at json (task_of json message) (bytes "name"))
        ≡ some definition
      → Performs json services config message
          (process_found json services config job message (some definition))
          (λ r ss. (r ≡ ok tt) × (ss ≡ bytes "done" ∷ bytes "running" ∷ []))
  unfolding process_found
  process_found-Done definition found =
      Performs-bind json services config message _ _
        (set_job_status-Performs json services config message (bytes "running")
          (contract_fields json message) (contract_fields-status json message))
        λ _ ss wrote.
          Runs-weaken _
            (with_temp_dir-Performs json services config message _ (run_job-Done definition found))
            λ r new h. let (ts, (success, done), did) = h in (ts, (success, rw (wrote, done)), did)

  -- If the transfers succeed and a started task exits with 0 in time, a valid message of a job
  -- that has not ended, for a task of the whitelist, is acknowledged and writes two statuses of
  -- its job: first "running", and last "done".
  pub handle_message-done :
      (body : Text) (v : Value) (w : World) (definition : TaskDefinition)
      → parse body ≡ some v
      → as_object? v ≡ some message
      → validate_request json message ≡ ok tt
      → is_terminal_reply json (services.get w job) ≡ false
      → find_task (executor_of config) (text_at json (task_of json message) (bytes "name"))
        ≡ some definition
      → ((handle_message json services config body w).0 ≡ ok tt)
        × ((new : List Event) × ((handle_message json services config body w).1.trace
              ≡ new ++ w.trace)
            × Statuses json job new (bytes "done" ∷ bytes "running" ∷ []))
  unfolding handle_object process_job is_terminal_status after_process ◌>>=◌
  handle_message-done body v w definition parsed object valid running found =
      let asked = record_event (redis_get job) w in
      let (new, e, (ss, (success, done), did)) = (process_found-Done definition found).at asked in
      rw
        (
          handle_message-object json services config body v message parsed object,
          valid,
          running,
          found,
          success,
        )
        (
          refl,
          (
            new ++ redis_get job ∷ [],
            e ∙ sym (append_assoc new (redis_get job ∷ []) w.trace),
            Statuses-append json (rw done at did.marks) (quiet (redis_get job) refl start),
          ),
        )
