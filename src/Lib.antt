-- ===== src/Lib.antt =====
-- The TaskForge worker (Main): it receives requests for tasks from an SQS queue, downloads their
-- inputs from S3, runs an executable of its whitelist, uploads the outputs, and keeps the status of
-- each job as a JSON document in Redis. A failed job is sent to the queue again with a count, and a
-- file in the DLQ directory records it.
--
-- The files, and the code that each is about:
--   Json                Boost.JSON, as a record of operations with their documented laws; Json/Tree
--                       fills it with trees, so that every hypothesis on JSON has an instance
--   World               what the worker acts on: the services' answers as functions of the whole
--                       history, the calls as a trace, the DLQ directory as data; World/Trace has
--                       the rules by which the events of a computation are followed, and World/Redis
--                       what Redis promises of a key
--   Paths               std::filesystem::path as far as the worker uses it
--   MessageValidation   Main/MessageValidation.cpp: validate_request and is_valid_job_id
--   TaskDlq             Main/TaskDLQ.cpp: the constructor, record_failure, remove, can_retry,
--                       pending_count
--   TaskExecutor        Main/TaskExecutor.cpp: find_task, execute, read_stdout_tail
--   Configurations      Main/Configurations.cpp: load, parse, validate_configuration,
--                       validate_required
--   Worker/Backoff      Main/TaskForgeWorker.cpp: backoff_with_jitter
--   Worker/Status       contract_fields, set_job_status, is_terminal_status
--   Worker/Transfer     key_filename, TempDirGuard, download_inputs, upload_outputs
--   Worker/Failure      fail_without_retry, handle_processing_failure
--   Worker/Process      process_job, handle_message
--   Worker/Process/Rejections, Worker/Process/Ended  messages that fail their job at once, and
--                       what the stored status of a job decides
--   Worker/Process/Accesses  the same accesses to a message as functions that can throw
--   Worker/Delivery     calls of handle_message one after another, and a job's stages as an abstract
--                       machine beside it
--   Worker/Lifecycle    start, stop, create_thread_pool, connect_redis, upload_task_catalog,
--                       make_client_config, connect_aws_service, start_dlq_backlog_monitor
--   Main                Main/main.cpp: the process with its signal handlers as a step relation
--   Worker/Effects      what handling a message may do, proved for each of these in turn
--   Worker/Entries      what handling a message does to the DLQ directory, in the same way
--   Worker/Scope        when the calls on a job's temporary directory are made
--   Samples             concrete messages, services and settings, for the tests beside each part
--
-- How they interact: handle_message parses the body, checks it by MessageValidation, and gives it to
-- process_job, which reads the status, looks the task up, and within a temporary directory downloads,
-- executes and uploads; an error goes to handle_processing_failure, which counts it in the DLQ and
-- sends the message again or gives up. A function that changes state is an `Act`, a function of the
-- world; an error is an `Expected`, as std::expected is in the source.
--
-- Numbers and texts: a text is the list of its bytes; `int` is an integer that wraps at 32 bits where
-- the source casts or counts. Downloads are tried three times and the connection to Redis
-- five times, by structural recursion; only the decimal notation of a number (Prelude/Decimal) has
-- fuel, which the number itself gives.
--
-- Not modelled: the log; what runs at the same time as something else, but for a signal, which may
-- arrive between any two steps of the process; the default action of a signal without a handler;
-- the file system under the temporary directory, whose calls are events; exceptions of directory
-- iterations, of `exists` on a DLQ entry, of `temp_directory_path` and of writes to an open file; the JSON, AWS, Redis and process
-- libraries, which are parameters; the HTTP interfaces (Interface) and the task scripts (Main/tasks).
pub mod Prelude
pub mod Json
pub mod Paths
pub mod MessageValidation
pub mod World
pub mod TaskDlq
pub mod TaskExecutor
pub mod Configurations
pub mod Worker
pub mod Main
pub mod Samples
