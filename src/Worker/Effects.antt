-- ===== src/Worker/Effects.antt =====
-- What handling a message may do to the services, as a predicate on the events and as the sequence
-- of the statuses that are written.
pub mod Leaves
pub mod Files
pub mod Failures
pub mod Handling
use yirang_taskforge.Prelude.{
  ℕ, ◌≡◌, refl, ◌⊎◌, ◌++◌, Bool, true, false, Bool-cases, inl, inr, text_eq, if◌then◌else◌, Option,
  some, List, [], ◌∷◌, Text, bytes, ℤ, ◌≤ℤ◌, All, All-append,
}
use yirang_taskforge.Json.{Json}
use yirang_taskforge.Paths.{◌/p◌}
use yirang_taskforge.World.{
  World, Services, Event, redis_get, redis_set, redis_put, redis_connect, s3_download, s3_upload,
  s3_presign, sqs_send, run_process, open_stdout, create_directories, remove_all, sleep_ms,
}
use yirang_taskforge.TaskDlq.{can_retry}
use yirang_taskforge.TaskExecutor.{TaskDefinition, find_task, resolve_executable}
use yirang_taskforge.Configurations.{Configurations}
use yirang_taskforge.Worker.Transfer.{
  key_filename, temp_root, inputs, outputs, stdout_log, text_at, list_at, object_of,
}
use yirang_taskforge.Worker.Failure.{dlq_of, dedup_id}
use yirang_taskforge.Worker.Process.{executor_of, task_of, arguments_of}

abbrev pub is_set : Event → Bool
is_set (redis_set key value ttl) = true
is_set (redis_put key value) = true
is_set _ = false

-- Membership by recursion.
abbrev pub In : {A : Type 0} → A → List A → Type 0
In a [] = ⊥
In a (x ∷ xs) = (a ≡ x) ⊎ In a xs

module _ (json : Json) where
  open json use {Object, find, serialize, of_string}

  -- The statuses that the events write for a job, the latest first.
  pub data Statuses (job_id : Text) : List Event → List Text → Type 0 where
    start : Statuses job_id [] []
    quiet :
        {es : List Event} {ss : List Text} (e : Event)
        → is_set e ≡ false
        → Statuses job_id es ss
        → Statuses job_id (e ∷ es) ss
    wrote :
        {es : List Event} {ss : List Text} (document : Object) (status : Text) (ttl : ℤ)
        → find document (bytes "status") ≡ some (of_string status)
        → Statuses job_id es ss
        → Statuses job_id (redis_set job_id (serialize document) ttl ∷ es) (status ∷ ss)

  pub Statuses-append :
      {job_id : Text} {es fs : List Event} {ss ts : List Text}
      → Statuses job_id es ss
      → Statuses job_id fs ts
      → Statuses job_id (es ++ fs) (ss ++ ts)
  Statuses-append start s = s
  Statuses-append (quiet e q r) s = quiet e q (Statuses-append r s)
  Statuses-append (wrote d t ttl e r) s = wrote d t ttl e (Statuses-append r s)

module _ (json : Json) (services : Services) (config : Configurations) where
  open json use {Value, Object}

  -- What handling `message` may ask of the services: its own key in Redis, with the configured
  -- lifetime; its own downloads, each to the last part of its key in the job's input directory;
  -- uploads of files of the job's output directory, to the configured bucket under the message's
  -- prefix; a retry under the configured group that is allowed by the configured limit; the
  -- executable that the whitelist gives for its task, with the job's directories and the message's
  -- arguments, and no more than the configured timeout; and the job's temporary directory.
  abbrev pub Permitted : Object → Event → Type 0
  Permitted message (redis_get key) = key ≡ text_at json message (bytes "job_id")
  Permitted message (redis_set key value ttl) =
      (key ≡ text_at json message (bytes "job_id")) × (ttl ≡ config.redis_ttl_sec)
  Permitted message (redis_put key value) = ⊥
  Permitted message redis_connect = ⊥
  Permitted message (s3_download bucket key path) =
      (entry : Value) × In entry (list_at json message (bytes "download_s3"))
      × (bucket ≡ text_at json (object_of json entry) (bytes "bucket"))
      × (key ≡ text_at json (object_of json entry) (bytes "key"))
      × (path
          ≡ ◌/p◌ (inputs (temp_root services (text_at json message (bytes "job_id"))))
              (key_filename key))
  Permitted message (s3_upload bucket key path) =
      (bucket ≡ config.s3_bucket)
      × ((name : Text) × (key ≡ text_at json message (bytes "output_prefix") ++ name)
          × (path
              ≡ ◌/p◌ (outputs (temp_root services (text_at json message (bytes "job_id")))) name))
  Permitted message (s3_presign bucket key ttl) =
      (bucket ≡ config.s3_bucket)
      × ((name : Text) × (key ≡ text_at json message (bytes "output_prefix") ++ name))
  Permitted message (sqs_send body group dedup) =
      (group ≡ config.sqs_message_group_id)
      × ((n : ℤ) × (can_retry (dlq_of config) n ≡ true)
          × (dedup ≡ dedup_id (text_at json message (bytes "job_id")) n))
  Permitted message (run_process path args timeout) =
      (definition : TaskDefinition) × (find_task (executor_of config)
          (text_at json (task_of json message) (bytes "name"))
        ≡ some definition)
      × (path ≡ resolve_executable (executor_of config) definition.executable)
      × (args
          ≡ inputs (temp_root services (text_at json message (bytes "job_id")))
            ∷ outputs (temp_root services (text_at json message (bytes "job_id")))
            ∷ arguments_of json (task_of json message))
      × (timeout ≤ℤ config.default_timeout_sec)
  Permitted message (open_stdout path) =
      path ≡ stdout_log (temp_root services (text_at json message (bytes "job_id")))
  Permitted message (create_directories path) =
      (path ≡ inputs (temp_root services (text_at json message (bytes "job_id"))))
      ⊎ (path ≡ outputs (temp_root services (text_at json message (bytes "job_id"))))
  Permitted message (remove_all path) =
      path ≡ temp_root services (text_at json message (bytes "job_id"))
  Permitted message (sleep_ms n) = Unit

  -- The new events are permitted, and write these statuses for the message's job.
  pub record Does (message : Object) (new : List Event) (ss : List Text) : Type 0 where
    pub marks : Statuses json (text_at json message (bytes "job_id")) new ss
    pub permitted : All (Permitted message) new

  pub Does-append :
      {message : Object} {later first : List Event} {ss ts : List Text}
      → Does message later ss
      → Does message first ts
      → Does message (later ++ first) (ss ++ ts)
  Does-append {message} {later} {first} d e = record {
    marks = Statuses-append json d.marks e.marks;
    permitted = All-append (Permitted message) later first d.permitted e.permitted;
  }

  pub Does-nothing : (message : Object) → Does message [] []
  Does-nothing message = record { marks = start; permitted = tt }
