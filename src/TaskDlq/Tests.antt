-- ===== src/TaskDlq/Tests.antt =====
-- Tests and witnesses of the DLQ.
use yirang_taskforge.Prelude.{
  ◌≡◌, ◌≢◌, refl, ◌<ℤ◌, ◌+◌, [], none, some, Text, bytes, text_eq, is_some, pos, max_ℤ, succ32,
  ltb_ℤ, if◌then◌else◌, ok, arith,
}
use yirang_taskforge.Json.{lookup}
use yirang_taskforge.Json.Tree.{tree_json, serialize}
use yirang_taskforge.World.{regular}
use yirang_taskforge.TaskDlq.{
  TaskDlq, entry_name, entry_path, exists_in, pending_count, remove, previous_try_count, can_write,
  failure_entry, record_failure, write_entry, write_file, count_json, is_json_file,
}
use yirang_taskforge.TaskDlq.Record.{
  record_failure-increases, record_failure-writes, record_failure-read_back,
}
use yirang_taskforge.TaskDlq.Pending.{
  IsDirectory, counted, record_failure-pending_count, remove-pending_count,
}
use yirang_taskforge.Paths.{◌/p◌, extension}
use yirang_taskforge.Samples.{services, world, world_with_entry}

abbrev dlq : TaskDlq
dlq = record { dlq_path = bytes "/app/dlq"; max_retry_count = pos 3 }

abbrev job : Text
job = bytes "job-1"

abbrev message : Text
message = bytes "{}"

abbrev reason : Text
reason = bytes "failed"

path_of_entry : entry_path dlq job ≡ bytes "/app/dlq/job-1.json"
unfolding entry_path entry_name ◌/p◌
path_of_entry = refl

second_try : (record_failure tree_json services dlq job message reason (pos 1) world).0 ≡ ok (pos 2)
unfolding record_failure previous_try_count can_write entry_name lookup succ32
second_try = refl

starts_at_one : previous_try_count tree_json services dlq world job (pos 1) ≡ pos 1
unfolding previous_try_count entry_name lookup
starts_at_one = refl

one_pending :
    pending_count (record_failure tree_json services dlq job message reason (pos 1) world).1.dlq ≡ 1
unfolding pending_count count_json is_json_file extension record_failure can_write write_entry
    write_file previous_try_count entry_name lookup
one_pending = refl

record_failure-increases_example : (pos 1 <ℤ pos 2) × (pos 0 <ℤ pos 2)
record_failure-increases_example =
    record_failure-increases tree_json services dlq world job message reason (pos 1) (pos 2)
      (rw starts_at_one (omega arith)) second_try

record_failure-writes_example :
    ((record_failure tree_json services dlq job message reason (pos 1) world).1.trace ≡ world.trace)
    × ((j : Text)
        → exists_in
            (record_failure tree_json services dlq job message reason (pos 1) world).1.dlq
            (entry_name j)
          ≡ (if text_eq job j
              then some (regular (serialize (failure_entry tree_json job (pos 2) reason message)))
              else exists_in world.dlq (entry_name j)))
record_failure-writes_example =
    record_failure-writes tree_json services dlq world job message reason (pos 1) (pos 2) second_try

record_failure-read_back_example :
    previous_try_count tree_json services dlq
      (record_failure tree_json services dlq job message reason (pos 1) world).1
      job
      (pos 0)
    ≡ max_ℤ (if ltb_ℤ (pos 0) (pos 0) then pos 0 else pos 0) (pos 2)
record_failure-read_back_example =
    record_failure-read_back tree_json services dlq world job message reason (pos 1) (pos 0) (pos 2)
      second_try tt refl

job-ne-empty : job ≢ []
job-ne-empty e = cc

record_failure-pending_count_example :
    IsDirectory (record_failure tree_json services dlq job message reason (pos 1) world).1.dlq
    × (pending_count (record_failure tree_json services dlq job message reason (pos 1) world).1.dlq
        ≡ (if is_some (exists_in world.dlq (entry_name job))
            then pending_count world.dlq
            else pending_count world.dlq + 1))
record_failure-pending_count_example =
    record_failure-pending_count tree_json services dlq world job message reason (pos 1) (pos 2) tt
      job-ne-empty second_try

lone_entry : IsDirectory world_with_entry.dlq
unfolding lookup
lone_entry = (refl, tt)

remove-pending_count_example :
    IsDirectory (remove services dlq (bytes "job-0") world_with_entry).1.dlq
    × (exists_in
          (remove services dlq (bytes "job-0") world_with_entry).1.dlq
          (entry_name (bytes "job-0"))
        ≡ none)
    × ((j : Text)
        → j ≢ bytes "job-0"
        → exists_in (remove services dlq (bytes "job-0") world_with_entry).1.dlq (entry_name j)
          ≡ exists_in world_with_entry.dlq (entry_name j))
    × (pending_count (remove services dlq (bytes "job-0") world_with_entry).1.dlq
          + counted
              (entry_name (bytes "job-0"))
              (exists_in world_with_entry.dlq (entry_name (bytes "job-0")))
        ≡ pending_count world_with_entry.dlq)
remove-pending_count_example =
    remove-pending_count tree_json services dlq world_with_entry (bytes "job-0") lone_entry refl
