-- ===== src/TaskExecutor/Execute.antt =====
-- The whitelist lookup, the timeout, and what a successful run means.
use yirang_taskforge.Prelude.{
  ◌≡◌, ◌≢◌, refl, ap, ◌⊎◌, inl, inr, ◌++◌, true, false, none, some, Bool-cases, List, [], ◌∷◌, All,
  Text, text_eq, text_eq_iff, ℤ, pos, ◌≤ℤ◌, ◌<ℤ◌, Expected, ok, unexpected, arith,
}
use yirang_taskforge.World.{
  World, Services, Run, Completion, timer, exited, open_stdout, run_process, record_event, ◌>>=◌,
}
use yirang_taskforge.TaskExecutor.{
  TaskDefinition, TaskExecutor, TaskExecutionResult, find_in, resolve_executable, effective_timeout,
  timed_out_after, read_stdout_tail, finish_run, execute,
}

-- A task that is found has the name, and no entry before it has; none is found if no entry has it.
find_in-first :
    (whitelist : List TaskDefinition) (name : Text)
    → ((definition : TaskDefinition)
        → find_in whitelist name ≡ some definition
        → (before after : List TaskDefinition) × (whitelist ≡ before ++ definition ∷ after)
          × (definition.name ≡ name)
          × All (λ d. d.name ≢ name) before)
      × (find_in whitelist name ≡ none → All (λ d. d.name ≢ name) whitelist)
unfolding find_in
find_in-first [] name = (λ d h. absurd (cc), λ h. tt)
find_in-first (first ∷ rest) name = elim (Bool-cases (text_eq first.name name)) [
  | inl same ↦ (
    λ d h. ([], rest, ground arith, ground (arith, text_eq_iff first.name name), tt),
    λ h. absurd (ground arith),
  )
  | inr other ↦
      let differs : first.name ≢ name = ground (arith, text_eq_iff first.name name) in
      let (found, missing) = find_in-first rest name in
      (
        λ d h.
            let (before, after, split, named, none_before) = found d (ground arith) in
            (first ∷ before, after, ap (λ l. first ∷ l) split, named, (differs, none_before)),
        λ h. (differs, missing (ground arith)),
      )
]

-- With a positive default the timeout is positive and at most the default; a request between 1 and
-- the default is taken as it is, and any other gives the default.
effective_timeout_bounds :
    (most requested : ℤ)
    → pos 0 <ℤ most
    → (pos 0 <ℤ effective_timeout most requested)
      × (effective_timeout most requested ≤ℤ most)
      × (pos 0 <ℤ requested → requested ≤ℤ most → effective_timeout most requested ≡ requested)
      × ((requested ≤ℤ pos 0) ⊎ (most <ℤ requested) → effective_timeout most requested ≡ most)
unfolding effective_timeout
effective_timeout_bounds most requested h =
    (ground arith, ground arith, λ low high. ground arith, λ out. ground arith)

-- The flag is set exactly if an expiry that was not cancelled is among the handlers.
abbrev pub Expired : List Completion → Type 0
Expired [] = ⊥
Expired (timer false ∷ rest) = Unit
Expired (timer true ∷ rest) = Expired rest
Expired (exited ∷ rest) = Expired rest

timed_out_stays : (cs : List Completion) → timed_out_after true cs ≡ true
unfolding timed_out_after
timed_out_stays [] = refl
timed_out_stays (timer false ∷ rest) = timed_out_stays rest
timed_out_stays (timer true ∷ rest) = timed_out_stays rest
timed_out_stays (exited ∷ rest) = timed_out_stays rest

not-Expired : (cs : List Completion) → timed_out_after false cs ≡ false → ¬ Expired cs
unfolding timed_out_after
not-Expired [] h e = e
not-Expired (timer false ∷ rest) h e = cc (timed_out_stays rest)
not-Expired (timer true ∷ rest) h e = not-Expired rest h e
not-Expired (exited ∷ rest) h e = not-Expired rest h e

finish_run-eq-ok :
    (services : Services) (name : Text) (effective : ℤ) (stdout_path : Text) (r : Expected Run)
    (w : World) (result : TaskExecutionResult)
    → finish_run services name effective stdout_path r w ≡ ok result
    → (run : Run) × (r ≡ ok run)
      × (¬ Expired run.completions)
      × (result.exit_code ≡ run.exit_code)
      × (result.stdout_tail ≡ read_stdout_tail (services.read_file w stdout_path))
unfolding finish_run
finish_run-eq-ok services name effective stdout_path (unexpected e) w result h = absurd (cc)
finish_run-eq-ok services name effective stdout_path (ok run) w result h =
    let in_time : timed_out_after false run.completions ≡ false = ground arith in
    (run, refl, not-Expired run.completions in_time, ground arith, ground arith)

module _ (services : Services) (executor : TaskExecutor) (task : TaskDefinition)
    (arguments : List Text) (inputs_dir outputs_dir stdout_path : Text) (requested : ℤ)
    (w : World) where
  abbrev pub path : Text
  path = resolve_executable executor task.executable

  abbrev pub args : List Text
  args = inputs_dir ∷ outputs_dir ∷ arguments

  abbrev pub limit : ℤ
  limit = effective_timeout executor.default_timeout_sec requested

  -- The world in which the process is started, and the one that it leaves.
  abbrev pub opened : World
  opened = record_event (open_stdout stdout_path) w

  abbrev pub finished : World
  finished = record_event (run_process path args limit) opened

  -- If `execute` returns a result, the executable was a regular file and ran once, with the two
  -- directories before the arguments and within the capped timeout; no expiry was among its
  -- handlers; and the result has its exit code and the tail of its output.
  pub execute-eq-ok :
      (result : TaskExecutionResult)
      → (execute services executor task arguments inputs_dir outputs_dir stdout_path requested w).0
        ≡ ok result
      → (services.is_regular_file w path ≡ true)
        × ((execute services executor task arguments inputs_dir outputs_dir stdout_path requested
              w).1
            ≡ finished)
        × ((run : Run) × (services.run opened path args limit ≡ ok run)
            × (¬ Expired run.completions)
            × (result.exit_code ≡ run.exit_code)
            × (result.stdout_tail ≡ read_stdout_tail (services.read_file finished stdout_path)))
  unfolding execute ◌>>=◌
  execute-eq-ok result h = elim (Bool-cases (services.is_regular_file w path)) [
    | inl regular ↦ elim (Bool-cases (services.opens_stdout w stdout_path)) [
      | inl opens ↦ (
        regular,
        rw (execute, regular, opens),
        finish_run-eq-ok services task.name limit stdout_path (services.run opened path args limit)
            finished result (rw (execute, regular, opens) at h),
      )
      | inr fails ↦ absurd (ground arith)
    ]
    | inr missing ↦ absurd (ground arith)
  ]
