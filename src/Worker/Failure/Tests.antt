-- ===== src/Worker/Failure/Tests.antt =====
-- A chain of one retry, and the bound on it.
use yirang_taskforge.Prelude.{
  ℕ, ◌+◌, ◌≤◌, ◌≡◌, refl, sym, ◌⊎◌, inl, inr, ◌++◌, append-nil, true, false, List, [], ◌∷◌, Text,
  bytes, c_str, ℤ, pos, ok, arith, to_int32,
}
use yirang_taskforge.Json.{lookup, int64_at}
use yirang_taskforge.Json.Tree.{tree_json, integer, serialize, as_int64?}
use yirang_taskforge.World.{Event, sqs_send, ◌>>=◌}
use yirang_taskforge.TaskDlq.{entry_name, previous_try_count, can_retry, can_write, record_failure}
use yirang_taskforge.Worker.Backoff.{backoff_with_jitter, sleep_backoff}
use yirang_taskforge.Worker.Status.{set_job_status}
use yirang_taskforge.Worker.Failure.{
  dedup_id, republish_of, inbound_try_count, after_send, requeue, after_record,
  handle_processing_failure,
}
use yirang_taskforge.Worker.Failure.Chain.{Retries, stays, retried, Retries-bounded}
use yirang_taskforge.Worker.Tests.{body, arrived, second_arrival}
use yirang_taskforge.Worker.Effects.{In}
use yirang_taskforge.Samples.{retried_request, services, config, world}

abbrev job : Text
job = bytes "job-1"

abbrev events : List Event
events =
    (handle_processing_failure tree_json services config job (body (pos 1)) (bytes "failed")
      world).1.trace

-- The message that is sent when the one with a count of 1 fails.
abbrev next : Text
next =
    c_str (
      serialize (tree_json.put (retried_request (pos 1)) (bytes "dlq_try_count") (integer (pos 2))))

counted : inbound_try_count tree_json (retried_request (pos 1)) ≡ pos 1
unfolding inbound_try_count int64_at lookup as_int64? to_int32
counted = refl

sent : In (sqs_send next config.sqs_message_group_id (dedup_id job (pos 2))) events
unfolding handle_processing_failure record_failure can_write previous_try_count entry_name lookup
    after_record can_retry requeue sleep_backoff backoff_with_jitter after_send set_job_status ◌>>=◌
    yirang_taskforge.Prelude.succ32 inbound_try_count int64_at republish_of
    yirang_taskforge.Json.Tree.parse c_str serialize yirang_taskforge.Json.Tree.split_text
    yirang_taskforge.Json.Tree.of_items yirang_taskforge.Json.Tree.as_object? as_int64?
sent = (inr (inr (inl refl)))

one_retry : Retries tree_json services config job 1 (body (pos 1))
one_retry =
    retried (body (pos 1)) next (bytes "failed") config.sqs_message_group_id (dedup_id job (pos 2))
      world events (rw (arrived (pos 1)) second_arrival) (λ m. tt) (sym (append-nil events)) sent
      (stays next)

Retries-bounded_example : (◌≡◌ {A = ℕ} 1 0) ⊎ (1 + 1 ≤ 3)
Retries-bounded_example =
    Retries-bounded tree_json services config job 3 1 1 (body (pos 1)) refl (omega arith) one_retry
      (rw (arrived (pos 1)) counted)
