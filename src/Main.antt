-- ===== src/Main.antt =====
-- Main/main.cpp: the process from its start to its exit, with `TaskForgeWorker::start` of
-- Main/TaskForgeWorker.cpp taken apart into its calls, since a signal can arrive between any two of
-- them. A signal handler runs as one step, and so do the statements that make the three clients.
-- Left out are the log, and the end of the process by a signal that has no handler any more.
pub mod Exit
pub mod Startup
pub mod StopOnce
pub mod Tests
use yirang_taskforge.Prelude.{
  ℕ, ◌≡◌, ◌⊎◌, ◌++◌, ltb, Bool, true, false, Option, none, some, Text, bytes, Expected, ok,
  unexpected,
}
use yirang_taskforge.Configurations.{Configurations, validate_required}
use yirang_taskforge.Worker.Lifecycle.{
  TaskForgeWorker, constructed, begun, with_pool, with_redis, with_clients, stop,
}

-- Where the main thread is: before each of its statements, or crashed at a null pointer.
pub data Pc : Type 0 where
  configured initialising constructing validating : Pc
  pooling pool_starting redis_making redis_connecting cataloguing : Pc
  serving consuming pushing returning : Pc
  waiting failing releasing shutting_down deregistering exited crashed : Pc

-- The variables of `main`, and whether the signal handlers are registered and the SDK initialised.
pub record Process : Type 0 where
  pub pc : Pc
  pub signals : Bool
  pub sdk : Bool
  pub worker : Option TaskForgeWorker
  pub started : Option (Expected (Unit {0}))
  pub exit_code : ℕ

abbrev pub launched : Process
launched = record {
  pc = configured;
  signals = false;
  sdk = false;
  worker = none;
  started = none;
  exit_code = 0;
}

abbrev pub on_worker :
    (TaskForgeWorker → TaskForgeWorker) → Option TaskForgeWorker → Option TaskForgeWorker
on_worker f none = none
on_worker f (some worker) = some (f worker)

-- `worker_ != nullptr` and the member that a statement goes through
abbrev pub holds : (TaskForgeWorker → Bool) → Option TaskForgeWorker → Bool
holds member none = false
holds member (some worker) = member worker

-- The assignments of `start`: from, to, and what they set.
pub data Makes : Pc → Pc → (TaskForgeWorker → TaskForgeWorker) → Type 0 where
  make_thread_pool : Makes pooling pool_starting with_pool
  make_redis_client : Makes redis_making redis_connecting with_redis
  make_clients : Makes serving consuming with_clients

-- The calls of `start`: from, to, the member that is called, and what an error is reported as.
pub data Calls : Pc → Pc → (TaskForgeWorker → Bool) → Text → Type 0 where
  pool_start :
      Calls pool_starting redis_making (λ w. w.thread_pool) (bytes "cannot create thread pool: ")
  connect_redis :
      Calls redis_connecting cataloguing (λ w. w.redis_client) (bytes "cannot connect redis: ")
  upload_task_catalog :
      Calls cataloguing serving (λ w. w.redis_client) (bytes "cannot upload task catalog: ")
  connect_aws_service :
      Calls consuming pushing (λ w. w.sqs_consumer) (bytes "cannot connect aws service: ")
  start_dlq_backlog_monitor :
      Calls pushing returning (λ w. w.thread_pool) (bytes "cannot start dlq backlog monitor: ")

-- Within `worker_->start()`.
abbrev pub in_start : Pc → Bool
in_start validating = true
in_start pooling = true
in_start pool_starting = true
in_start redis_making = true
in_start redis_connecting = true
in_start cataloguing = true
in_start serving = true
in_start consuming = true
in_start pushing = true
in_start returning = true
in_start _ = false

-- The steps; with `early`, a signal may arrive within `start`.
module _ (config : Configurations) (early : Bool) where
  infix 40 ◌⟶◌
  pub data ◌⟶◌ : Process → Process → Type 0 where
    register_signal :
        {p : Process} → p.pc ≡ configured → p ⟶ record p { pc = initialising; signals = true }
    init_api : {p : Process} → p.pc ≡ initialising → p ⟶ record p { pc = constructing; sdk = true }
    construct :
        {p : Process}
        → p.pc ≡ constructing
        → p ⟶ record p { pc = validating; worker = some constructed }
    rejected :
        {p : Process} (error : Text)
        → p.pc ≡ validating
        → validate_required config ≡ unexpected error
        → p ⟶ record p {
          pc = failing;
          started = some (unexpected (bytes "invalid configuration: " ++ error));
        }
    accepted :
        {p : Process}
        → p.pc ≡ validating
        → validate_required config ≡ ok tt
        → p ⟶ record p { pc = pooling; worker = on_worker (begun config) p.worker }
    makes :
        {p : Process} {at next : Pc} {f : TaskForgeWorker → TaskForgeWorker}
        → Makes at next f
        → p.pc ≡ at
        → p ⟶ record p { pc = next; worker = on_worker f p.worker }
    succeeds :
        {p : Process} {at next : Pc} {member : TaskForgeWorker → Bool} {what : Text}
        → Calls at next member what
        → p.pc ≡ at
        → holds member p.worker ≡ true
        → p ⟶ record p { pc = next }
    fails :
        {p : Process} {at next : Pc} {member : TaskForgeWorker → Bool} {what : Text} (error : Text)
        → Calls at next member what
        → p.pc ≡ at
        → holds member p.worker ≡ true
        → p ⟶ record p { pc = failing; started = some (unexpected (what ++ error)) }
    crashes :
        {p : Process} {at next : Pc} {member : TaskForgeWorker → Bool} {what : Text}
        → Calls at next member what
        → p.pc ≡ at
        → holds member p.worker ≡ false
        → p ⟶ record p { pc = crashed }
    returns :
        {p : Process} → p.pc ≡ returning → p ⟶ record p { pc = waiting; started = some (ok tt) }
    wait_stop :
        {p : Process}
        → p.pc ≡ waiting
        → holds (λ w. ltb 0 w.stops) p.worker ≡ true
        → p ⟶ record p { pc = releasing }
    stop_failed :
        {p : Process}
        → p.pc ≡ failing
        → p ⟶ record p { pc = releasing; worker = on_worker stop p.worker; exit_code = 1 }
    -- The destructor calls `stop` once more, on an object that is gone after it.
    reset : {p : Process} → p.pc ≡ releasing → p ⟶ record p { pc = shutting_down; worker = none }
    shutdown_api :
        {p : Process} → p.pc ≡ shutting_down → p ⟶ record p { pc = deregistering; sdk = false }
    deregister_signal :
        {p : Process} → p.pc ≡ deregistering → p ⟶ record p { pc = exited; signals = false }
    signal_callback :
        {p : Process}
        → p.signals ≡ true
        → (early ≡ true) ⊎ (in_start p.pc ≡ false)
        → p ⟶ record p { signals = false; worker = on_worker stop p.worker }

  pub data Reach : Process → Type 0 where
    start : Reach launched
    later : {p q : Process} → Reach p → p ⟶ q → Reach q
