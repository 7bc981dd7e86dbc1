-- ===== src/Worker/Tests.antt =====
-- Tests and witnesses of the worker's parts: delays, status documents, transfers, retries.
use yirang_taskforge.Prelude.{
  to_int32, ◌*◌, ◌≤◌, ◌≡◌, refl, ◌⊎◌, ◌++◌, some, List, [], ◌∷◌, All, Text, bytes, text_eq, c_str,
  ℤ, pos, ◌<ℤ◌, if◌then◌else◌, arith,
}
use yirang_taskforge.Json.{lookup, int64_at}
use yirang_taskforge.Json.Tree.{tree_json, string, serialize, as_int64?}
use yirang_taskforge.World.{Event}
use yirang_taskforge.World.Trace.{Runs}
use yirang_taskforge.TaskDlq.{entry_name, previous_try_count}
use yirang_taskforge.TaskDlq.Record.{int_max}
use yirang_taskforge.Worker.Backoff.{capped_delay, backoff_with_jitter}
use yirang_taskforge.Worker.Backoff.Bounds.{backoff_bounds}
use yirang_taskforge.Worker.Status.{merge_status}
use yirang_taskforge.Worker.Status.Merge.{updated, find-merge_status}
use yirang_taskforge.Worker.Transfer.{after_last_slash, key_filename, download_attempts}
use yirang_taskforge.Worker.Transfer.Keys.{NoSlash, key_filename-NoSlash}
use yirang_taskforge.Worker.Transfer.Attempts.{Tried, download_attempts-Tried}
use yirang_taskforge.Worker.Failure.{
  dlq_of, republish_of, inbound_try_count, handle_processing_failure,
}
use yirang_taskforge.Worker.Failure.Received.{IsReceived, handle_processing_failure-IsReceived}
use yirang_taskforge.Worker.Failure.Retry.{IsRetry, handle_processing_failure-IsRetry}
use yirang_taskforge.Samples.{Fields, retried_request, services, config, world}

delays :
    (capped_delay (pos 1) 500 4000 ≡ 500)
    × (capped_delay (pos 3) 500 4000 ≡ 2000)
    × (capped_delay (pos 9) 500 4000 ≡ 4000)
unfolding capped_delay yirang_taskforge.Worker.Backoff.shift_of
delays = (refl, refl, refl)

local_name : key_filename (bytes "in/a.txt") ≡ bytes "a.txt"
unfolding key_filename after_last_slash
local_name = refl

backoff_bounds_example :
    (capped_delay (pos 2) 500 4000 ≤ (backoff_with_jitter services (pos 2) 500 4000 world).0)
    × (2 * (backoff_with_jitter services (pos 2) 500 4000 world).0
        ≤ 3 * capped_delay (pos 2) 500 4000)
    × (2 * (backoff_with_jitter services (pos 2) 500 4000 world).0 ≤ 3 * 4000)
backoff_bounds_example = backoff_bounds services (pos 2) 500 4000 world (λ v n. omega arith)

-- A document with an earlier reason, and an update that removes it.
abbrev earlier : Fields
earlier = (bytes "failure_reason", string (bytes "no disk")) ∷ []

abbrev cleared : Fields
cleared = (bytes "failure_reason", tree_json.null) ∷ []

find-merge_status_example :
    lookup
      (bytes "failure_reason")
      (merge_status tree_json earlier (bytes "job-1") (bytes "done") cleared (bytes "now"))
    ≡ (if text_eq (bytes "updated_at") (bytes "failure_reason")
        then some (string (bytes "now"))
        else updated tree_json (lookup (bytes "failure_reason") cleared) (
            if text_eq (bytes "status") (bytes "failure_reason")
            then some (string (bytes "done"))
            else if text_eq (bytes "job_id") (bytes "failure_reason")
            then some (string (bytes "job-1"))
            else lookup (bytes "failure_reason") earlier))
find-merge_status_example =
    find-merge_status tree_json earlier (bytes "job-1") (bytes "done") cleared (bytes "now")
      (bytes "failure_reason")

key_filename-NoSlash_example :
    NoSlash (key_filename (bytes "in/a.txt"))
    × ((key_filename (bytes "in/a.txt") ≡ bytes "in/a.txt")
        ⊎ ((before : Text) × (before ++ b'/' ∷ key_filename (bytes "in/a.txt") ≡ bytes "in/a.txt")))
key_filename-NoSlash_example = key_filename-NoSlash (bytes "in/a.txt")

download_attempts-Tried_example :
    Runs
      (download_attempts services 3 (pos 1) (bytes "jobs") (bytes "in/a.txt") (bytes "/a.txt") [])
      (Tried 3)
download_attempts-Tried_example =
    download_attempts-Tried services 3 (pos 1) (bytes "jobs") (bytes "in/a.txt") (bytes "/a.txt") []

abbrev pub body : ℤ → Text
body n = c_str (serialize (retried_request n))

pub arrived : (n : ℤ) → republish_of tree_json (bytes "job-1") (body n) ≡ retried_request n
unfolding republish_of
arrived n = rw (
  tree_json.c_str-serialize (retried_request n),
  republish_of,
  tree_json.parse-serialize (retried_request n) tt,
  republish_of,
  tree_json.as_object?-of_object (retried_request n),
  republish_of,
)

pub second_arrival :
    previous_try_count tree_json services
      (dlq_of config)
      world
      (bytes "job-1")
      (inbound_try_count tree_json (retried_request (pos 1)))
    <ℤ pos int_max
unfolding previous_try_count entry_name lookup inbound_try_count int64_at as_int64? to_int32
second_arrival = omega arith

handle_processing_failure-IsRetry_example :
    (new : List Event) × ((handle_processing_failure tree_json services config
        (bytes "job-1")
        (body (pos 1))
        (bytes "failed")
        world).1.trace
      ≡ new ++ world.trace)
    × All
        (IsRetry tree_json services config
          (bytes "job-1")
          (republish_of tree_json (bytes "job-1") (body (pos 1))))
        new
handle_processing_failure-IsRetry_example =
    handle_processing_failure-IsRetry tree_json services config world (bytes "job-1") (body (pos 1))
      (bytes "failed") (rw (arrived (pos 1)) second_arrival)

handle_processing_failure-IsReceived_example :
    (new : List Event) × ((handle_processing_failure tree_json services config
        (bytes "job-1")
        (body (pos 1))
        (bytes "failed")
        world).1.trace
      ≡ new ++ world.trace)
    × All
        (IsReceived tree_json services config world (bytes "job-1") (body (pos 1)) (bytes "failed"))
        new
handle_processing_failure-IsReceived_example =
    handle_processing_failure-IsReceived tree_json services config world (bytes "job-1")
      (body (pos 1)) (bytes "failed") (rw (arrived (pos 1)) second_arrival) (omega arith) (λ n. tt)
