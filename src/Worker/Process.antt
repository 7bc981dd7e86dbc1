-- ===== src/Worker/Process.antt =====
-- `process_job` and `handle_message` of Main/TaskForgeWorker.cpp.
pub mod Redelivery
pub mod Success
pub mod Accesses
pub mod Rejections
pub mod Ended
pub mod Tests
use yirang_taskforge.Prelude.{
  ℕ, ◌++◌, Bool, true, false, Option, none, some, List, [], ◌∷◌, Text, bytes, c_str, ℤ, pos, map,
  to_int32, if◌then◌else◌, Expected, ok, unexpected, not,
}
use yirang_taskforge.Prelude.Decimal.{int_text}
use yirang_taskforge.Json.{Json, string_at, int64_at, array_at, object_at}
use yirang_taskforge.MessageValidation.{is_valid_job_id, validate_request}
use yirang_taskforge.World.{World, Services, Act, pure, ask, call, ◌>>=◌, ◌>>◌}
use yirang_taskforge.TaskExecutor.{
  TaskDefinition, TaskExecutionResult, TaskExecutor, find_task, execute,
}
use yirang_taskforge.Configurations.{Configurations}
use yirang_taskforge.TaskDlq.{remove}
use yirang_taskforge.Worker.Status.{contract_fields, set_job_status, is_terminal_status}
use yirang_taskforge.Worker.Transfer.{
  ◌>>=?◌, on_ok, temp_root, inputs, outputs, stdout_log, with_temp_dir, text_at, list_at,
  download_inputs, upload_outputs,
}
use yirang_taskforge.Worker.Failure.{
  dlq_of, failure_updates, fail_without_retry, handle_processing_failure,
}

-- `task_executor_`, as `start` makes it
abbrev pub executor_of : Configurations → TaskExecutor
executor_of config = record {
  whitelist = config.task_whitelist;
  root_path = config.root_path;
  default_timeout_sec = config.default_timeout_sec;
}

module _ (json : Json) where
  open json use {
    Value, Object, as_string?, as_object?, empty, put, null, of_string, of_int, of_array,
  }

  unfoldable pub task_of : Object → Object
  task_of message = elim (object_at json message (bytes "task")) [ none ↦ empty | some task ↦ task ]

  -- `argument.as_string().c_str()`
  unfoldable pub argument_text : Value → Text
  argument_text argument = elim (as_string? argument) [ none ↦ [] | some s ↦ c_str s ]

  unfoldable pub arguments_of : Object → List Text
  arguments_of task = map argument_text (list_at json task (bytes "arguments"))

  unfoldable pub timeout_of : Object → ℤ
  timeout_of task = elim (int64_at json task (bytes "timeout_sec")) [
    | none ↦ pos 0
    | some n ↦ to_int32 n
  ]

  unfoldable pub done_updates : Object → TaskExecutionResult → List Value → Object
  done_updates message executed uploaded =
      let exited =
        put (contract_fields json message) (bytes "exit_code") (of_int executed.exit_code) in
      let printed = put exited (bytes "stdout_tail") (of_string executed.stdout_tail) in
      let linked = put printed (bytes "result_download_url") (of_array uploaded) in
      put linked (bytes "failure_reason") null

unfoldable pub exit_reason : Text → TaskExecutionResult → Text
exit_reason task_name executed =
    bytes "task ["
    ++ task_name
    ++ bytes "] exited with code "
    ++ int_text executed.exit_code
    ++ bytes ": "
    ++ executed.stdout_tail

unfoldable pub not_registered : Text → Text
not_registered task_name =
    bytes "task [" ++ task_name ++ bytes "] is not registered in the whitelist"

abbrev pub is_zero : ℤ → Bool
is_zero (pos ℕ.zero) = true
is_zero _ = false

-- `exit_code != 0` is a failure.
unfoldable pub exit_checked : Text → TaskExecutionResult → Expected TaskExecutionResult
exit_checked task_name executed =
    if is_zero executed.exit_code then ok executed else unexpected (exit_reason task_name executed)

module _ (json : Json) (services : Services) (config : Configurations) where
  open json use {Value, Object, parse, as_object?}

  unfoldable pub run_task : Object → TaskDefinition → Text → Act (Expected TaskExecutionResult)
  run_task message definition root =
      let task = task_of json message in
      execute services (executor_of config) definition (arguments_of json task) (inputs root)
        (outputs root) (stdout_log root) (timeout_of json task)
      >>=? λ executed. pure (exit_checked (text_at json task (bytes "name")) executed)

  unfoldable pub finish_job :
      Text → Object → TaskExecutionResult → List Value → Act (Expected (Unit {0}))
  finish_job job_id message executed uploaded = do
    set_job_status json services config job_id (bytes "done")
        (done_updates json message executed uploaded)
    remove services (dlq_of config) job_id
    pure (ok tt)

  -- The scope of the temporary directory.
  unfoldable pub run_job : Text → Object → TaskDefinition → Text → Act (Expected (Unit {0}))
  run_job job_id message definition root =
      download_inputs json services message (inputs root) >>=? λ _.
      run_task message definition root >>=? λ executed.
      upload_outputs json services config (text_at json message (bytes "output_prefix"))
        (outputs root)
      >>=? λ uploaded. finish_job job_id message executed uploaded

  -- What follows the terminal check.
  unfoldable pub process_found : Text → Object → Option TaskDefinition → Act (Expected (Unit {0}))
  process_found job_id message none = do
    fail_without_retry json services config job_id message
        (not_registered (text_at json (task_of json message) (bytes "name")))
    pure (ok tt)
  process_found job_id message (some definition) = do
    set_job_status json services config job_id (bytes "running") (contract_fields json message)
    let root = temp_root services job_id
    with_temp_dir root (run_job job_id message definition root)

  unfoldable pub process_job : Object → Act (Expected (Unit {0}))
  process_job message = do
    let job_id = text_at json message (bytes "job_id")
    let task_name = text_at json (task_of json message) (bytes "name")
    terminal ← is_terminal_status json services job_id
    if terminal
        then pure (ok tt)
        else process_found job_id message (find_task (executor_of config) task_name)

  -- An invalid message is dropped; a job id that is valid all the same is marked failed.
  unfoldable pub drop_invalid : Object → Text → Act (Unit {0})
  drop_invalid message error = elim (string_at json message (bytes "job_id")) [
    | none ↦ pure tt
    | some job_id ↦
        if is_valid_job_id job_id
        then set_job_status json services config (c_str job_id) (bytes "failed")
            (failure_updates json message error)
        else pure tt
  ]

  unfoldable pub after_process : Object → Text → Expected (Unit {0}) → Act (Expected (Unit {0}))
  after_process message message_body (ok _) = pure (ok tt)
  after_process message message_body (unexpected error) = do
    handle_processing_failure json services config (text_at json message (bytes "job_id"))
        message_body error
    pure (ok tt)

  unfoldable pub handle_object : Object → Text → Expected (Unit {0}) → Act (Expected (Unit {0}))
  handle_object message message_body (unexpected error) = do
    drop_invalid message error
    pure (ok tt)
  handle_object message message_body (ok _) = do
    processed ← process_job message
    after_process message message_body processed

  unfoldable pub handle_message : Text → Act (Expected (Unit {0}))
  handle_message message_body = elim (parse message_body) [
    | none ↦ pure (ok tt)
    | some parsed ↦ elim (as_object? parsed) [
      | none ↦ pure (ok tt)
      | some message ↦ handle_object message message_body (validate_request json message)
    ]
  ]
