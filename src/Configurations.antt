-- ===== src/Configurations.antt =====
-- Main/Configurations.h and .cpp: the settings of the worker. A field stands for the member of its
-- name and for the getter that returns it; `write_interval()`, which casts to 16 bits, and the casts
-- to the log's types are not modelled.
pub mod Ranges
pub mod Sources
pub mod Tests
use yirang_taskforge.Prelude.{
  ℕ, Bool, true, false, ◌||◌, Option, none, some, List, [], ◌∷◌, Text, bytes, c_str, is_empty, ℤ,
  pos, negsuc, ltb_ℤ, leb_ℤ, to_int32, if◌then◌else◌, Expected, ok, unexpected, ◌>>◌, ◌>>=◌, guard,
  not,
}
use yirang_taskforge.Json.{Json, string_at, int64_at, array_at}
use yirang_taskforge.Paths.{◌/p◌}
use yirang_taskforge.TaskExecutor.{TaskDefinition}

pub record Configurations : Type 0 where
  pub root_path : Text
  pub config_path : Text
  pub worker_title : Text
  pub write_file_log : ℤ
  pub write_console_log : ℤ
  pub write_interval : ℤ
  pub log_root_path : Text
  pub high_priority_count : ℤ
  pub normal_priority_count : ℤ
  pub low_priority_count : ℤ
  pub redis_host : Text
  pub redis_port : ℤ
  pub redis_db_index : ℤ
  pub redis_ttl_sec : ℤ
  pub aws_region : Text
  pub aws_access_key : Text
  pub aws_secret_key : Text
  pub aws_endpoint : Text
  pub sqs_request_queue_url : Text
  pub sqs_message_group_id : Text
  pub sqs_wait_time_seconds : ℤ
  pub sqs_visibility_timeout : ℤ
  pub sqs_max_number_of_messages : ℤ
  pub s3_bucket : Text
  pub presign_ttl_sec : ℤ
  pub dlq_path : Text
  pub dlq_max_retry_count : ℤ
  pub dlq_backlog_alert_count : ℤ
  pub default_timeout_sec : ℤ
  pub task_whitelist : List TaskDefinition

-- The command line, as the library's `ArgumentParser` reads it.
pub record ArgumentParser : Type 0 where
  pub program_folder : Text
  pub to_string : Text → Option Text
  pub to_int : Text → Option ℤ

-- `LogTypes::Information` is a constant of the library.
unfoldable pub default_configurations : ℤ → Text → Text → Configurations
default_configurations information root_path config_path = record {
  root_path = root_path;
  config_path = config_path;
  worker_title = bytes "TaskForgeWorker";
  write_file_log = information;
  write_console_log = information;
  write_interval = pos 1000;
  log_root_path = [];
  high_priority_count = pos 1;
  normal_priority_count = pos 2;
  low_priority_count = pos 1;
  redis_host = bytes "127.0.0.1";
  redis_port = pos 6379;
  redis_db_index = pos 0;
  redis_ttl_sec = pos 3600;
  aws_region = bytes "us-east-1";
  aws_access_key = [];
  aws_secret_key = [];
  aws_endpoint = [];
  sqs_request_queue_url = [];
  sqs_message_group_id = bytes "request";
  sqs_wait_time_seconds = pos 5;
  sqs_visibility_timeout = pos 60;
  sqs_max_number_of_messages = pos 1;
  s3_bucket = [];
  presign_ttl_sec = pos 600;
  dlq_path = [];
  dlq_max_retry_count = pos 3;
  dlq_backlog_alert_count = pos 10;
  default_timeout_sec = pos 30;
  task_whitelist = [];
}

unfoldable pub validate_required : Configurations → Expected (Unit {0})
validate_required c = do
  guard (not (is_empty c.sqs_request_queue_url)) (bytes "sqs_request_queue_url is required")
  guard (not (is_empty c.s3_bucket)) (bytes "s3_bucket is required")
  guard (not (is_empty c.task_whitelist)) (bytes "task_whitelist must contain at least one task")

module _ (json : Json) where
  open json use {Value, Object, parse, as_object?}

  unfoldable pub read_string : Object → Text → Text → Text
  read_string message key target = elim (string_at json message key) [
    | none ↦ target
    | some s ↦ c_str s
  ]

  unfoldable pub read_int : Object → Text → ℤ → ℤ
  read_int message key target = elim (int64_at json message key) [
    | none ↦ target
    | some n ↦ to_int32 n
  ]

  unfoldable pub read_long : Object → Text → ℤ → ℤ
  read_long message key target = elim (int64_at json message key) [ none ↦ target | some n ↦ n ]

  -- One entry of the whitelist: ignored without a name and an executable.
  unfoldable pub read_definition : Object → Option TaskDefinition
  read_definition entry = elim (string_at json entry (bytes "name")) [
    | none ↦ none
    | some name ↦ elim (string_at json entry (bytes "executable")) [
      | none ↦ none
      | some executable ↦ some (record {
        name = c_str name;
        executable = c_str executable;
        description = read_string entry (bytes "description") [];
      })
    ]
  ]

  unfoldable pub read_entry : Value → Option TaskDefinition
  read_entry entry = elim (as_object? entry) [ none ↦ none | some o ↦ read_definition o ]

  abbrev pub push : Option TaskDefinition → List TaskDefinition → List TaskDefinition
  push none rest = rest
  push (some definition) rest = definition ∷ rest

  unfoldable pub read_whitelist : List Value → List TaskDefinition
  read_whitelist [] = []
  read_whitelist (entry ∷ rest) = push (read_entry entry) (read_whitelist rest)

  unfoldable pub load_message : Object → Configurations → Configurations
  load_message m c = record c {
    worker_title = read_string m (bytes "worker_title") c.worker_title;
    write_file_log = read_int m (bytes "write_file_log") c.write_file_log;
    write_console_log = read_int m (bytes "write_console_log") c.write_console_log;
    write_interval = read_int m (bytes "write_interval") c.write_interval;
    log_root_path = read_string m (bytes "log_root_path") c.log_root_path;
    high_priority_count = read_int m (bytes "high_priority_count") c.high_priority_count;
    normal_priority_count = read_int m (bytes "normal_priority_count") c.normal_priority_count;
    low_priority_count = read_int m (bytes "low_priority_count") c.low_priority_count;
    redis_host = read_string m (bytes "redis_host") c.redis_host;
    redis_port = read_int m (bytes "redis_port") c.redis_port;
    redis_db_index = read_int m (bytes "redis_db_index") c.redis_db_index;
    redis_ttl_sec = read_long m (bytes "redis_ttl_sec") c.redis_ttl_sec;
    aws_region = read_string m (bytes "aws_region") c.aws_region;
    aws_access_key = read_string m (bytes "aws_access_key") c.aws_access_key;
    aws_secret_key = read_string m (bytes "aws_secret_key") c.aws_secret_key;
    aws_endpoint = read_string m (bytes "aws_endpoint") c.aws_endpoint;
    sqs_request_queue_url = read_string m (bytes "sqs_request_queue_url") c.sqs_request_queue_url;
    sqs_message_group_id = read_string m (bytes "sqs_message_group_id") c.sqs_message_group_id;
    sqs_wait_time_seconds = read_int m (bytes "sqs_wait_time_seconds") c.sqs_wait_time_seconds;
    sqs_visibility_timeout = read_int m (bytes "sqs_visibility_timeout") c.sqs_visibility_timeout;
    sqs_max_number_of_messages =
        read_int m (bytes "sqs_max_number_of_messages") c.sqs_max_number_of_messages;
    s3_bucket = read_string m (bytes "s3_bucket") c.s3_bucket;
    presign_ttl_sec = read_int m (bytes "presign_ttl_sec") c.presign_ttl_sec;
    dlq_path = read_string m (bytes "dlq_path") c.dlq_path;
    dlq_max_retry_count = read_int m (bytes "dlq_max_retry_count") c.dlq_max_retry_count;
    dlq_backlog_alert_count =
        read_int m (bytes "dlq_backlog_alert_count") c.dlq_backlog_alert_count;
    default_timeout_sec = read_int m (bytes "default_timeout_sec") c.default_timeout_sec;
    task_whitelist = elim (array_at json m (bytes "task_whitelist")) [
      | none ↦ c.task_whitelist
      | some entries ↦ read_whitelist entries
    ];
  }

  -- The contents of the file; `none` is a file that cannot be opened or read.
  unfoldable pub load : Option Text → Configurations → Configurations
  load none c = c
  load (some contents) c = elim (parse contents) [
    | none ↦ c
    | some parsed ↦ elim (as_object? parsed) [ none ↦ c | some message ↦ load_message message c ]
  ]

abbrev pub or_else {ℓ} : {A : Type ℓ} → Option A → A → A
or_else none target = target
or_else (some value) target = value

unfoldable pub parse_arguments : ArgumentParser → Configurations → Configurations
parse_arguments arguments c = record c {
  write_console_log = or_else (arguments.to_int (bytes "--write_console_log")) c.write_console_log;
  write_file_log = or_else (arguments.to_int (bytes "--write_file_log")) c.write_file_log;
  worker_title = or_else (arguments.to_string (bytes "--worker_title")) c.worker_title;
  redis_host = or_else (arguments.to_string (bytes "--redis_host")) c.redis_host;
  aws_endpoint = or_else (arguments.to_string (bytes "--aws_endpoint")) c.aws_endpoint;
  sqs_request_queue_url =
      or_else (arguments.to_string (bytes "--sqs_request_queue_url")) c.sqs_request_queue_url;
}

-- `if (test) value = fallback;`
abbrev pub reset_if {ℓ} : {A : Type ℓ} → Bool → A → A → A
reset_if test fallback value = if test then fallback else value

unfoldable pub validate_configuration : Configurations → Configurations
validate_configuration c = record c {
  log_root_path = reset_if (is_empty c.log_root_path) c.root_path c.log_root_path;
  dlq_path = reset_if (is_empty c.dlq_path) (◌/p◌ c.root_path (bytes "dlq")) c.dlq_path;
  redis_port =
      reset_if (leb_ℤ c.redis_port (pos 0) || ltb_ℤ (pos 65535) c.redis_port) (pos 6379)
        c.redis_port;
  redis_ttl_sec = reset_if (ltb_ℤ c.redis_ttl_sec (pos 0)) (pos 3600) c.redis_ttl_sec;
  sqs_wait_time_seconds =
      reset_if (ltb_ℤ c.sqs_wait_time_seconds (pos 0) || ltb_ℤ (pos 20) c.sqs_wait_time_seconds)
        (pos 5) c.sqs_wait_time_seconds;
  sqs_visibility_timeout =
      reset_if (leb_ℤ c.sqs_visibility_timeout (pos 0)) (pos 60) c.sqs_visibility_timeout;
  sqs_max_number_of_messages =
      reset_if
        (leb_ℤ c.sqs_max_number_of_messages (pos 0) || ltb_ℤ (pos 10) c.sqs_max_number_of_messages)
        (pos 1) c.sqs_max_number_of_messages;
  presign_ttl_sec = reset_if (leb_ℤ c.presign_ttl_sec (pos 0)) (pos 600) c.presign_ttl_sec;
  dlq_max_retry_count =
      reset_if (ltb_ℤ c.dlq_max_retry_count (pos 0)) (pos 3) c.dlq_max_retry_count;
  default_timeout_sec =
      reset_if (leb_ℤ c.default_timeout_sec (pos 0)) (pos 30) c.default_timeout_sec;
  high_priority_count =
      reset_if (ltb_ℤ c.high_priority_count (pos 0)) (pos 1) c.high_priority_count;
  normal_priority_count =
      reset_if (ltb_ℤ c.normal_priority_count (pos 0)) (pos 2) c.normal_priority_count;
  low_priority_count = reset_if (ltb_ℤ c.low_priority_count (pos 0)) (pos 1) c.low_priority_count;
}

unfoldable pub config_path_of : ArgumentParser → Text
config_path_of arguments =
    or_else (arguments.to_string (bytes "--config_path"))
      (◌/p◌ arguments.program_folder (bytes "task_forge_worker_configurations.json"))

-- The constructor: the defaults, the file at the configured path, the command line, the checks.
unfoldable pub configurations : Json → ℤ → (Text → Option Text) → ArgumentParser → Configurations
configurations json information file arguments =
    let config_path = config_path_of arguments in
    let defaults = default_configurations information arguments.program_folder config_path in
    validate_configuration (parse_arguments arguments (load json (file config_path) defaults))
