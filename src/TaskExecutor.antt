-- ===== src/TaskExecutor.antt =====
-- Main/TaskExecutor.cpp and .h, with `TaskDefinition` of Main/Configurations.h: the whitelist lookup
-- and the run of one task with its timeout and its captured output.
pub mod Tail
pub mod Execute
pub mod Tests
use yirang_taskforge.Prelude.{
  ℕ, ◌-◌, ◌/◌, ◌%◌, ◌++◌, Bool, true, false, Option, none, some, List, [], ◌∷◌, Text, bytes,
  text_eq, length, drop, ltb, suc, ℤ, pos, ltb_ℤ, ◌==◌, if◌then◌else◌, Expected, ok, unexpected,
  not,
}
use yirang_taskforge.Prelude.Decimal.{int_text}
use yirang_taskforge.Paths.{is_absolute, ◌/p◌}
use yirang_taskforge.World.{
  World, Services, Event, Run, Completion, timer, exited, open_stdout, run_process, Act, pure, call,
  ask, ◌>>=◌,
}

pub record TaskDefinition : Type 0 where
  pub name : Text
  pub executable : Text
  pub description : Text

pub record TaskExecutionResult : Type 0 where
  pub exit_code : ℤ
  pub timed_out : Bool
  pub stdout_tail : Text

pub record TaskExecutor : Type 0 where
  pub whitelist : List TaskDefinition
  pub root_path : Text
  pub default_timeout_sec : ℤ

abbrev pub stdout_tail_bytes : ℕ
stdout_tail_bytes = 2048

unfoldable pub find_in : List TaskDefinition → Text → Option TaskDefinition
find_in [] name = none
find_in (definition ∷ rest) name =
    if text_eq definition.name name then some definition else find_in rest name

unfoldable pub find_task : TaskExecutor → Text → Option TaskDefinition
find_task executor name = find_in executor.whitelist name

unfoldable pub resolve_executable : TaskExecutor → Text → Text
resolve_executable executor executable =
    if is_absolute executable then executable else ◌/p◌ executor.root_path executable

unfoldable pub effective_timeout : ℤ → ℤ → ℤ
effective_timeout default_timeout_sec timeout_sec =
    let effective = if ltb_ℤ (pos 0) timeout_sec then timeout_sec else default_timeout_sec in
    if ltb_ℤ default_timeout_sec effective then default_timeout_sec else effective

-- `(byte & 0xC0) == 0x80`: the two high bits of the byte are 10.
unfoldable pub is_continuation : ℕ → Bool
is_continuation b = b / 64 % 4 == 2

-- The offset at which the loop over the leading continuation bytes stops.
unfoldable pub boundary_offset : Text → ℕ
boundary_offset [] = 0
boundary_offset (b ∷ s) = if is_continuation b then suc (boundary_offset s) else 0

-- The tail of what the file holds; `none` is a file that does not open.
unfoldable pub read_stdout_tail : Option Text → Text
read_stdout_tail none = []
read_stdout_tail (some contents) =
    let file_size = length contents in
    let read_size = if ltb stdout_tail_bytes file_size then stdout_tail_bytes else file_size in
    let tail = drop (file_size - read_size) contents in
    if ltb read_size file_size then drop (boundary_offset tail) tail else tail

-- The handlers of the timer and of the process, in the order in which they run: an expiry that was
-- not cancelled sets the flag (and terminates the process).
unfoldable pub timed_out_after : Bool → List Completion → Bool
timed_out_after flag [] = flag
timed_out_after flag (timer cancelled ∷ rest) =
    timed_out_after (if cancelled then flag else true) rest
timed_out_after flag (exited ∷ rest) = timed_out_after flag rest

unfoldable pub timeout_reason : Text → ℤ → Text
timeout_reason name effective =
    bytes "task [" ++ name ++ bytes "] timed out after " ++ int_text effective ++ bytes " seconds"

module _ (services : Services) where
  -- What follows the run of the process.
  unfoldable pub finish_run : Text → ℤ → Text → Expected Run → World → Expected TaskExecutionResult
  finish_run name effective stdout_path (unexpected what) w =
      unexpected (bytes "cannot execute task [" ++ name ++ bytes "]: " ++ what)
  finish_run name effective stdout_path (ok run) w =
      if timed_out_after false run.completions
      then unexpected (timeout_reason name effective)
      else ok (record {
        exit_code = run.exit_code;
        timed_out = false;
        stdout_tail = read_stdout_tail (services.read_file w stdout_path);
      })

  unfoldable pub execute :
      TaskExecutor
      → TaskDefinition
      → List Text
      → Text
      → Text
      → Text
      → ℤ
      → Act (Expected TaskExecutionResult)
  execute executor task arguments inputs_dir outputs_dir stdout_path timeout_sec = do
    let executable_path = resolve_executable executor task.executable
    let effective = effective_timeout executor.default_timeout_sec timeout_sec
    regular ← ask (λ w. services.is_regular_file w executable_path)
    if not regular
        then pure (unexpected (bytes "task executable not found: " ++ executable_path))
        else do
          opened ← call (open_stdout stdout_path) (λ w. services.opens_stdout w stdout_path)
          if not opened
              then pure (unexpected (bytes "cannot open stdout capture file: " ++ stdout_path))
              else do
                let process_arguments = inputs_dir ∷ outputs_dir ∷ arguments
                run ←
                    call (run_process executable_path process_arguments effective)
                      (λ w. services.run w executable_path process_arguments effective)
                ask (finish_run task.name effective stdout_path run)
