-- ===== src/TaskExecutor/Tests.antt =====
-- Tests and witnesses of the executor.
use yirang_taskforge.Prelude.{
  ℕ, zero, suc, ◌≤◌, ◌<◌, ◌≡◌, refl, ◌++◌, [], ◌∷◌, true, false, some, Text, bytes, length, pos, ok,
  arith,
}
use yirang_taskforge.World.{World, Run, timer, exited, ◌>>=◌}
use yirang_taskforge.Paths.{is_absolute, ◌/p◌}
use yirang_taskforge.TaskExecutor.{
  TaskExecutor, TaskExecutionResult, resolve_executable, effective_timeout, timed_out_after,
  read_stdout_tail, finish_run, execute,
}
use yirang_taskforge.TaskExecutor.Tail.{
  Utf8, done, char, read_stdout_tail-Utf8, read_stdout_tail-suffix, length-read_stdout_tail,
}
use yirang_taskforge.TaskExecutor.Execute.{Expired, execute-eq-ok, finished, opened}
use yirang_taskforge.Samples.{services, world, wordcount}

abbrev executor : TaskExecutor
executor = record {
  whitelist = wordcount ∷ [];
  root_path = bytes "/app";
  default_timeout_sec = pos 30;
}

abbrev result : TaskExecutionResult
result = record { exit_code = pos 0; timed_out = false; stdout_tail = bytes "2 words" }

resolved : resolve_executable executor wordcount.executable ≡ bytes "/app/tasks/wordcount.sh"
unfolding resolve_executable is_absolute ◌/p◌
resolved = refl

capped : effective_timeout (pos 30) (pos 3600) ≡ pos 30
unfolding effective_timeout
capped = refl

expiry_wins : timed_out_after false (timer false ∷ exited ∷ []) ≡ true
unfolding timed_out_after
expiry_wins = refl

ran :
    (execute services executor wordcount []
      (bytes "/i")
      (bytes "/o")
      (bytes "/log")
      (pos 10)
      world).0
    ≡ ok result
unfolding execute finish_run timed_out_after read_stdout_tail ◌>>=◌
ran = refl

-- `n` letters and the end of a text in which a cut can fall on "é"
abbrev long_output : ℕ → Text
long_output zero = 195 ∷ 169 ∷ []
long_output (suc n) = 195 ∷ 169 ∷ long_output n

long_output-Utf8 : (n : ℕ) → Utf8 (long_output n)
long_output-Utf8 zero = char (195 ∷ 169 ∷ []) [] (omega arith) done
long_output-Utf8 (suc n) = char (195 ∷ 169 ∷ []) (long_output n) (omega arith) (long_output-Utf8 n)

length-long_output : (n : ℕ) → n < length (long_output n)
length-long_output zero = omega arith
length-long_output (suc n) = omega (arith, length-long_output n)

read_stdout_tail-Utf8_example : Utf8 (read_stdout_tail (some (long_output 3)))
read_stdout_tail-Utf8_example = read_stdout_tail-Utf8 (long_output 3) (long_output-Utf8 3)

length-read_stdout_tail_example : 2045 ≤ length (read_stdout_tail (some (long_output 2048)))
length-read_stdout_tail_example =
    length-read_stdout_tail (long_output 2048) (long_output-Utf8 2048) (length-long_output 2048)

read_stdout_tail-suffix_example :
    ((before : Text) × (before ++ read_stdout_tail (some (bytes "abc")) ≡ bytes "abc"))
    × (length (read_stdout_tail (some (bytes "abc"))) ≤ 2048)
    × (length (bytes "abc") ≤ 2048 → read_stdout_tail (some (bytes "abc")) ≡ bytes "abc")
read_stdout_tail-suffix_example = read_stdout_tail-suffix (bytes "abc")

abbrev at_end : World
at_end =
    finished services executor wordcount [] (bytes "/i") (bytes "/o") (bytes "/log") (pos 10) world

execute-eq-ok_example :
    (services.is_regular_file world (resolve_executable executor wordcount.executable) ≡ true)
    × ((execute services executor wordcount []
          (bytes "/i")
          (bytes "/o")
          (bytes "/log")
          (pos 10)
          world).1
        ≡ at_end)
    × ((run : Run) × (services.run
            (opened services executor wordcount []
              (bytes "/i")
              (bytes "/o")
              (bytes "/log")
              (pos 10)
              world)
            (resolve_executable executor wordcount.executable)
            (bytes "/i" ∷ bytes "/o" ∷ [])
            (effective_timeout (pos 30) (pos 10))
          ≡ ok run)
        × (¬ Expired run.completions)
        × (result.exit_code ≡ run.exit_code)
        × (result.stdout_tail ≡ read_stdout_tail (services.read_file at_end (bytes "/log"))))
execute-eq-ok_example =
    execute-eq-ok services executor wordcount [] (bytes "/i") (bytes "/o") (bytes "/log") (pos 10)
      world result ran
