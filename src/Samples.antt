-- ===== src/Samples.antt =====
-- Concrete messages, services and settings for the tests and the witnesses.
use yirang_taskforge.Prelude.{true, none, some, [], ◌∷◌, List, Text, bytes, ℤ, pos, ok, unexpected}
use yirang_taskforge.Json.Tree.{
  Tree, string, integer, array, object, of_items, of_fields, serialize,
}
use yirang_taskforge.World.{World, Services, exited, timer, regular}
use yirang_taskforge.TaskExecutor.{TaskDefinition}
use yirang_taskforge.Configurations.{Configurations}

abbrev pub Fields : Type 0
Fields = List (Text × Tree)

abbrev pub wordcount : TaskDefinition
wordcount = record {
  name = bytes "wordcount";
  executable = bytes "tasks/wordcount.sh";
  description = bytes "counts words";
}

abbrev pub task_fields : Text → Fields
task_fields name = (bytes "name", string name) ∷ (bytes "timeout_sec", integer (pos 10)) ∷ []

abbrev pub download_fields : Fields
download_fields =
    (bytes "bucket", string (bytes "jobs"))
    ∷ (bytes "key", string (bytes "in/a.txt"))
    ∷ (bytes "method", string (bytes "GET"))
    ∷ []

-- A request for a task, with the mode that is given.
abbrev pub request_of : Text → Text → Fields
request_of mode name =
    (bytes "job_id", string (bytes "job-1"))
    ∷ (bytes "mode", string mode)
    ∷ (bytes "task", object (of_fields (task_fields name)))
    ∷ (bytes "download_s3", array (of_items (object (of_fields download_fields) ∷ [])))
    ∷ (bytes "output_prefix", string (bytes "out/"))
    ∷ (bytes "enqueued_at", string (bytes "2026-01-01T00:00:00Z"))
    ∷ []

abbrev pub request : Fields
request = request_of (bytes "execute") (bytes "wordcount")

abbrev pub unregistered_request : Fields
unregistered_request = request_of (bytes "execute") (bytes "rm")

abbrev pub invalid_request : Fields
invalid_request = request_of (bytes "inspect") (bytes "wordcount")

-- The request when it comes back with a retry count.
abbrev pub retried_request : ℤ → Fields
retried_request n = (bytes "dlq_try_count", integer n) ∷ request

abbrev pub done_document : Fields
done_document = (bytes "status", string (bytes "done")) ∷ []

-- Services that do what they are asked; Redis holds nothing.
abbrev pub services : Services
services = record {
  connect = λ w. ok tt;
  put = λ w key value. ok tt;
  get = λ w key. unexpected (bytes "nil");
  set = λ w key value ttl. ok tt;
  download_file = λ w bucket key path. ok tt;
  upload_file = λ w bucket key path. ok tt;
  generate_presigned_url = λ w bucket key ttl. ok (bytes "http://s3");
  send_message = λ w body group dedup. ok tt;
  opens_stdout = λ w path. true;
  run = λ w path args timeout.
      ok (record { completions = exited ∷ timer true ∷ []; exit_code = pos 0 });
  read_file = λ w path. some (bytes "2 words");
  is_regular_file = λ w path. true;
  directory_entries =
      λ w path. record { name = bytes "a.wordcount.txt"; is_regular_file = true } ∷ [];
  directory_error = λ w path. none;
  creates_directory = λ w path. true;
  opens_for_reading = λ w path. true;
  opens_for_writing = λ w path. true;
  removes = λ w path. true;
  current_utc_timestamp = λ w. bytes "2026-01-01T00:00:00Z";
  draw = λ w n. n;
  temp_directory_path = bytes "/tmp";
}

-- The same, with a finished job in Redis.
abbrev pub services_done : Services
services_done = record services { get = λ w key. ok (serialize done_document) }

abbrev pub config : Configurations
config = record {
  root_path = bytes "/app";
  config_path = bytes "/app/c.json";
  worker_title = bytes "TaskForgeWorker";
  write_file_log = pos 4;
  write_console_log = pos 4;
  write_interval = pos 1000;
  log_root_path = bytes "/log";
  high_priority_count = pos 1;
  normal_priority_count = pos 2;
  low_priority_count = pos 1;
  redis_host = bytes "127.0.0.1";
  redis_port = pos 6379;
  redis_db_index = pos 0;
  redis_ttl_sec = pos 3600;
  aws_region = bytes "us-east-1";
  aws_access_key = [];
  aws_secret_key = [];
  aws_endpoint = [];
  sqs_request_queue_url = bytes "http://queue";
  sqs_message_group_id = bytes "request";
  sqs_wait_time_seconds = pos 5;
  sqs_visibility_timeout = pos 60;
  sqs_max_number_of_messages = pos 1;
  s3_bucket = bytes "jobs";
  presign_ttl_sec = pos 600;
  dlq_path = bytes "/app/dlq";
  dlq_max_retry_count = pos 3;
  dlq_backlog_alert_count = pos 10;
  default_timeout_sec = pos 30;
  task_whitelist = wordcount ∷ [];
}

-- A start with no events and an empty DLQ directory, and one with an entry of another job.
abbrev pub world : World
world = record { trace = []; dlq = record { present = true; files = [] } }

abbrev pub world_with_entry : World
world_with_entry = record {
  trace = [];
  dlq = record { present = true; files = (bytes "job-0.json", regular (bytes "{}")) ∷ [] };
}
