-- ===== src/Worker/Lifecycle.antt =====
-- The start and the stop of the worker in Main/TaskForgeWorker.cpp. What the thread pool and the SQS
-- consumer answer is a parameter, `Library`.
pub mod Stop
pub mod Connect
pub mod Started
pub mod Tests
use yirang_taskforge.Prelude.{
  ℕ, zero, suc, ◌++◌, Bool, true, false, Option, none, some, List, [], ◌∷◌, Text, bytes, c_str,
  is_empty, leb_ℤ, to_int32, map, ℤ, pos, negsuc, succ32, pos_part, Expected, ok, unexpected,
  if◌then◌else◌, ◌≡◌,
}
use yirang_taskforge.Json.{Json}
use yirang_taskforge.World.{
  World, Services, Directory, redis_connect, redis_put, redis_set, Act, pure, ask, call, ◌>>=◌,
  ◌>>◌,
}
use yirang_taskforge.TaskExecutor.{TaskDefinition, TaskExecutor}
use yirang_taskforge.TaskDlq.{TaskDlq, create_dlq, pending_count}
use yirang_taskforge.Configurations.{Configurations, validate_required}
use yirang_taskforge.Worker.Backoff.{sleep_backoff}
use yirang_taskforge.Worker.Transfer.{or_retry, ◌>>=?◌}
use yirang_taskforge.Worker.Failure.{dlq_of}
use yirang_taskforge.Worker.Process.{executor_of}

abbrev pub redis_connect_attempts : ℕ
redis_connect_attempts = 5

abbrev pub redis_base_delay_ms : ℕ
redis_base_delay_ms = 500

abbrev pub redis_max_delay_ms : ℕ
redis_max_delay_ms = 4000

-- The members that `start` fills. A pointer to a library's object is whether it is set;
-- `stops` is how often `stop_promise_.set_value()` was called, which may happen once.
pub record TaskForgeWorker : Type 0 where
  pub task_executor : Option TaskExecutor
  pub task_dlq : Option TaskDlq
  pub thread_pool : Bool
  pub redis_client : Bool
  pub s3_client : Bool
  pub sqs_publisher : Bool
  pub sqs_consumer : Bool
  pub running : Bool
  pub stops : ℕ

abbrev pub constructed : TaskForgeWorker
constructed = record {
  task_executor = none;
  task_dlq = none;
  thread_pool = false;
  redis_client = false;
  s3_client = false;
  sqs_publisher = false;
  sqs_consumer = false;
  running = false;
  stops = 0;
}

-- The fields of the SDK's `ClientConfiguration` that the worker sets; `http` is whether the scheme is
-- HTTP.
pub record ClientConfiguration : Type 0 where
  pub region : Text
  pub endpoint_override : Text
  pub http : Bool
  pub verify_ssl : Bool

-- What the S3 client, the publisher and the consumer are made with: without credentials of the
-- configuration, the SDK looks for its own.
pub record AwsService : Type 0 where
  pub client : ClientConfiguration
  pub credentials : Option (Text × Text)
  pub use_virtual_addressing : Bool
  pub sqs_url : Text
  pub wait_time_seconds : ℤ
  pub visibility_timeout : ℤ
  pub max_number_of_messages : ℤ

-- The priorities of the library's thread pool, and what its calls at the start answer.
pub record Library : Type 1 where
  pub JobPriorities : Type 0
  pub high : JobPriorities
  pub normal : JobPriorities
  pub low : JobPriorities
  pub long_term : JobPriorities
  pub pool_start : World → List (List JobPriorities) → Expected (Unit {0})
  pub pool_push : World → Expected (Unit {0})
  -- a `ClientConfiguration` as the SDK makes it
  pub client_defaults : ClientConfiguration
  pub register_consume_handler : World → AwsService → Expected (Unit {0})
  pub consumer_start : World → AwsService → Expected (Unit {0})
  pub start_consume : World → AwsService → Expected (Unit {0})

abbrev pub replicate : {A : Type 0} → ℕ → A → List A
replicate zero a = []
replicate (suc n) a = a ∷ replicate n a

-- The priorities of the workers that `create_thread_pool` pushes, in order.
unfoldable pub thread_workers :
    (library : Library) → Configurations → List (List library.JobPriorities)
thread_workers library config =
    replicate (pos_part config.high_priority_count) (library.high ∷ [])
    ++ replicate (pos_part config.normal_priority_count) (library.normal ∷ library.high ∷ [])
    ++ replicate (pos_part config.low_priority_count) (library.low ∷ library.normal ∷ [])
    ++ (library.long_term ∷ []) ∷ []

unfoldable pub stop : TaskForgeWorker → TaskForgeWorker
stop worker =
    if worker.running
    then record worker {
      running = false;
      sqs_consumer = false;
      sqs_publisher = false;
      s3_client = false;
      thread_pool = false;
      redis_client = false;
      stops = suc worker.stops;
    }
    else worker

module _ (services : Services) where
  -- `connect()`, and the write that proves the connection
  unfoldable pub connect_once : Act (Expected (Unit {0}))
  connect_once = call redis_connect services.connect >>=? λ _.
      call (redis_set (bytes "taskforge:healthcheck") (bytes "ok") (pos 5))
        (λ w. services.set w (bytes "taskforge:healthcheck") (bytes "ok") (pos 5))

  -- The attempts that are left, the number of the next one, and the last error.
  unfoldable pub connect_attempts : ℕ → ℤ → Text → Act (Expected (Unit {0}))
  connect_attempts zero attempt last_error = pure (unexpected last_error)
  connect_attempts (suc left) attempt last_error = connect_once >>= λ connected.
      or_retry connected λ error.
        sleep_backoff services attempt redis_base_delay_ms redis_max_delay_ms
        >> connect_attempts left (succ32 attempt) error

  unfoldable pub connect_redis : Act (Expected (Unit {0}))
  connect_redis = connect_attempts redis_connect_attempts (pos 1) []

module _ (json : Json) where
  open json use {Value, Object, empty, put, of_string, of_array, of_object, serialize}

  unfoldable pub catalog_entry : TaskDefinition → Value
  catalog_entry definition =
      let named = put empty (bytes "name") (of_string definition.name) in
      of_object (put named (bytes "description") (of_string definition.description))

  unfoldable pub catalog_document : List TaskDefinition → Text → Object
  catalog_document whitelist now =
      let listed = put empty (bytes "tasks") (of_array (map catalog_entry whitelist)) in
      put listed (bytes "updated_at") (of_string now)

  unfoldable pub upload_task_catalog : Services → Configurations → Act (Expected (Unit {0}))
  upload_task_catalog services config = do
    now ← ask services.current_utc_timestamp
    let document = serialize (catalog_document config.task_whitelist now)
    call (redis_put (bytes "task_catalog") document)
        (λ w. services.put w (bytes "task_catalog") document)

unfoldable pub make_client_config : Library → Configurations → ClientConfiguration
make_client_config library config =
    let client = record library.client_defaults { region = c_str config.aws_region } in
    if is_empty config.aws_endpoint then client else record client {
      endpoint_override = c_str config.aws_endpoint;
      http = true;
      verify_ssl = false;
    }

unfoldable pub aws_service : Library → Configurations → AwsService
aws_service library config = record {
  client = make_client_config library config;
  credentials =
      if is_empty config.aws_access_key
      then none
      else some (config.aws_access_key, config.aws_secret_key);
  use_virtual_addressing = is_empty config.aws_endpoint;
  sqs_url = config.sqs_request_queue_url;
  wait_time_seconds = config.sqs_wait_time_seconds;
  visibility_timeout = config.sqs_visibility_timeout;
  max_number_of_messages = config.sqs_max_number_of_messages;
}

-- The registration of the handler, the start and the consumption, up to the first error.
unfoldable pub connect_aws_service : Library → Configurations → Act (Expected (Unit {0}))
connect_aws_service library config =
    let service = aws_service library config in
    ask (λ w. library.register_consume_handler w service) >>=? λ _.
    ask (λ w. library.consumer_start w service) >>=? λ _. ask (λ w. library.start_consume w service)

-- One round of the monitor's loop: `(int)backlog >= dlq_backlog_alert_count`, with the backlog.
unfoldable pub backlog_alert : Configurations → Directory → Option ℕ
backlog_alert config dlq =
    let backlog = pending_count dlq in
    if leb_ℤ config.dlq_backlog_alert_count (to_int32 (pos backlog)) then some backlog else none

abbrev add_alert : Option ℕ → List ℕ → List ℕ
add_alert none later = later
add_alert (some backlog) later = backlog ∷ later

-- The alerts of the loop, by what each round reads: `running_`, and the DLQ directory.
unfoldable pub dlq_backlog_monitor : Configurations → List (Bool × Directory) → List ℕ
dlq_backlog_monitor config [] = []
dlq_backlog_monitor config ((running, dlq) ∷ rounds) =
    let later = dlq_backlog_monitor config rounds in
    if running then add_alert (backlog_alert config dlq) later else []

-- The members that `start` sets before each of its steps.
abbrev pub with_pool : TaskForgeWorker → TaskForgeWorker
with_pool worker = record worker { thread_pool = true }

abbrev pub begun : Configurations → TaskForgeWorker → TaskForgeWorker
begun config worker = record worker {
  running = true;
  task_executor = some (executor_of config);
  task_dlq = some (dlq_of config);
}

abbrev pub with_redis : TaskForgeWorker → TaskForgeWorker
with_redis worker = record worker { redis_client = true }

abbrev pub with_clients : TaskForgeWorker → TaskForgeWorker
with_clients worker = record worker { s3_client = true; sqs_publisher = true; sqs_consumer = true }

-- A step of `start`: its error, with what it was about, ends the start.
unfoldable pub step :
    Text
    → Expected (Unit {0})
    → TaskForgeWorker
    → Act (Expected (Unit {0}) × TaskForgeWorker)
    → Act (Expected (Unit {0}) × TaskForgeWorker)
step what (ok _) worker next = next
step what (unexpected error) worker next = pure (unexpected (what ++ error), worker)

module _ (json : Json) (services : Services) (config : Configurations) (library : Library) where
  unfoldable pub start : TaskForgeWorker → Act (Expected (Unit {0}) × TaskForgeWorker)
  start worker = step (bytes "invalid configuration: ") (validate_required config) worker do
    create_dlq services (dlq_of config)
    let made = with_pool (begun config worker)
    pool ← ask (λ w. library.pool_start w (thread_workers library config))
    step (bytes "cannot create thread pool: ") pool made do
      let pooled = with_redis made
      connected ← connect_redis services
      step (bytes "cannot connect redis: ") connected pooled do
        uploaded ← upload_task_catalog json services config
        step (bytes "cannot upload task catalog: ") uploaded pooled do
          let served = with_clients pooled
          consuming ← connect_aws_service library config
          step (bytes "cannot connect aws service: ") consuming served do
            monitored ← ask library.pool_push
            step (bytes "cannot start dlq backlog monitor: ") monitored served
                (pure (ok tt, served))
