-- ===== src/Worker/Failure.antt =====
-- The ways in which a job fails: `fail_without_retry` and `handle_processing_failure` of
-- Main/TaskForgeWorker.cpp.
pub mod Retry
pub mod Chain
pub mod Entries
pub mod Received
pub mod Tests
use yirang_taskforge.Prelude.{
  ℕ, ◌++◌, Bool, true, false, Option, none, some, List, [], ◌∷◌, Text, bytes, c_str, ℤ, pos,
  to_int32, if◌then◌else◌, Expected, ok, unexpected, not,
}
use yirang_taskforge.Prelude.Decimal.{int_text}
use yirang_taskforge.Json.{Json, int64_at}
use yirang_taskforge.World.{World, Services, sqs_send, Act, pure, ask, call, ◌>>=◌, ◌>>◌}
use yirang_taskforge.Configurations.{Configurations}
use yirang_taskforge.TaskDlq.{TaskDlq, can_retry, record_failure, remove}
use yirang_taskforge.Worker.Backoff.{sleep_backoff}
use yirang_taskforge.Worker.Status.{contract_fields, set_job_status}

abbrev pub retry_base_delay_ms : ℕ
retry_base_delay_ms = 1000

abbrev pub retry_max_delay_ms : ℕ
retry_max_delay_ms = 8000

-- `task_dlq_`, as `start` makes it
abbrev pub dlq_of : Configurations → TaskDlq
dlq_of config = record { dlq_path = config.dlq_path; max_retry_count = config.dlq_max_retry_count }

unfoldable pub dedup_id : Text → ℤ → Text
dedup_id job_id try_count = job_id ++ (bytes "-retry-" ++ int_text try_count)

module _ (json : Json) where
  open json use {Object, empty, put, of_string, of_int, parse, as_object?}

  -- `updates["failure_reason"] = reason` on the contract's fields
  unfoldable pub failure_updates : Object → Text → Object
  failure_updates message reason =
      put (contract_fields json message) (bytes "failure_reason") (of_string reason)

  unfoldable pub retry_updates : Object → Text → ℤ → Object
  retry_updates message reason try_count =
      put (failure_updates message reason) (bytes "retry_count") (of_int try_count)

  -- The received message as an object; one with the job id alone, if it is none.
  unfoldable pub republish_of : Text → Text → Object
  republish_of job_id message_body =
      let fallback = put empty (bytes "job_id") (of_string job_id) in
      elim (parse message_body) [
        | none ↦ fallback
        | some parsed ↦ elim (as_object? parsed) [ none ↦ fallback | some message ↦ message ]
      ]

  unfoldable pub inbound_try_count : Object → ℤ
  inbound_try_count republish = elim (int64_at json republish (bytes "dlq_try_count")) [
    | none ↦ pos 0
    | some n ↦ to_int32 n
  ]

module _ (json : Json) (services : Services) (config : Configurations) where
  open json use {Object, put, of_int, serialize}

  unfoldable pub fail_without_retry : Text → Object → Text → Act (Unit {0})
  fail_without_retry job_id message reason = do
    set_job_status json services config job_id (bytes "failed")
        (failure_updates json message reason)
    remove services (dlq_of config) job_id

  -- The DLQ entry could not be written.
  unfoldable pub give_up_unrecorded : Text → Object → Text → Act (Unit {0})
  give_up_unrecorded job_id republish reason =
      set_job_status json services config job_id (bytes "failed")
        (failure_updates json republish reason)

  unfoldable pub give_up : Text → Object → Text → ℤ → Act (Unit {0})
  give_up job_id republish reason try_count = do
    remove services (dlq_of config) job_id
    set_job_status json services config job_id (bytes "failed")
        (retry_updates json republish reason try_count)

  -- What follows `send_message`; `republish` holds the new count here.
  unfoldable pub after_send : Text → Object → Text → ℤ → Expected (Unit {0}) → Act (Unit {0})
  after_send job_id republish reason try_count (unexpected error) =
      give_up job_id republish (reason ++ bytes " (republish failed: " ++ error ++ bytes ")")
        try_count
  after_send job_id republish reason try_count (ok _) =
      set_job_status json services config job_id (bytes "queued")
        (retry_updates json republish reason try_count)

  unfoldable pub requeue : Text → Object → Text → ℤ → Act (Unit {0})
  requeue job_id republish reason try_count = do
    let counted = put republish (bytes "dlq_try_count") (of_int try_count)
    sleep_backoff services try_count retry_base_delay_ms retry_max_delay_ms
    let body = c_str (serialize counted)
    let group = config.sqs_message_group_id
    let dedup = dedup_id job_id try_count
    republished ← call (sqs_send body group dedup) (λ w. services.send_message w body group dedup)
    after_send job_id counted reason try_count republished

  unfoldable pub after_record : Text → Object → Text → Expected ℤ → Act (Unit {0})
  after_record job_id republish reason (unexpected error) =
      give_up_unrecorded job_id republish reason
  after_record job_id republish reason (ok try_count) =
      if not (can_retry (dlq_of config) try_count)
      then give_up job_id republish reason try_count
      else requeue job_id republish reason try_count

  unfoldable pub handle_processing_failure : Text → Text → Text → Act (Unit {0})
  handle_processing_failure job_id message_body reason = do
    let republish = republish_of json job_id message_body
    recorded ←
        record_failure json services (dlq_of config) job_id message_body reason
          (inbound_try_count json republish)
    after_record job_id republish reason recorded
