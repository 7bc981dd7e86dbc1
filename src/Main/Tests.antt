-- ===== src/Main/Tests.antt =====
-- Tests and witnesses of the process: a stop by a signal, a start that fails, a signal too early.
use yirang_taskforge.Prelude.{◌≤◌, ◌≡◌, ◌≢◌, refl, inl, inr, Bool, true, false, none, some, ok}
use yirang_taskforge.Configurations.{validate_required}
use yirang_taskforge.Worker.Lifecycle.{
  TaskForgeWorker, constructed, begun, with_pool, with_redis, stop,
}
use yirang_taskforge.Main.{
  redis_connecting, waiting, exited, crashed, Process, Makes, Calls, ◌⟶◌, Reach, later,
}
use yirang_taskforge.Main.Exit.{code, IsAnswered, Reach-exit}
use yirang_taskforge.Main.StopOnce.{Reach-stops}
use yirang_taskforge.Main.Startup.{full, at_statement, returned, Reach-safe}
use yirang_taskforge.Samples.{config}

required : validate_required config ≡ ok tt
unfolding validate_required
required = refl

abbrev half : TaskForgeWorker
half = with_redis (with_pool (begun config constructed))

redis_reached : (early : Bool) → Reach config early (at_statement redis_connecting half)
redis_reached early =
    later
      (later
        (later
          (later
            (later (later (later Reach.start (◌⟶◌.register_signal refl)) (◌⟶◌.init_api refl))
              (◌⟶◌.construct refl))
            (◌⟶◌.accepted refl required))
          (◌⟶◌.makes Makes.make_thread_pool refl))
        (◌⟶◌.succeeds Calls.pool_start refl refl))
      (◌⟶◌.makes Makes.make_redis_client refl)

-- A signal while the worker connects to Redis takes the client away from under `start`.
early_signal_crashes :
    Reach config true (record (at_statement crashed (stop half)) { signals = false })
unfolding stop
early_signal_crashes =
    later (later (redis_reached true) (◌⟶◌.signal_callback refl (inl refl)))
      (◌⟶◌.crashes Calls.connect_redis refl refl)

waiting_reached : Reach config false (returned (ok tt, full config))
waiting_reached =
    later
      (later
        (later
          (later
            (later (later (redis_reached false) (◌⟶◌.succeeds Calls.connect_redis refl refl))
              (◌⟶◌.succeeds Calls.upload_task_catalog refl refl))
            (◌⟶◌.makes Makes.make_clients refl))
          (◌⟶◌.succeeds Calls.connect_aws_service refl refl))
        (◌⟶◌.succeeds Calls.start_dlq_backlog_monitor refl refl))
      (◌⟶◌.returns refl)

-- The process after a signal has stopped it.
abbrev ended : Process
ended = record {
  pc = exited;
  signals = false;
  sdk = false;
  worker = none;
  started = some (ok tt);
  exit_code = 0;
}

stopped_reached :
    Reach config false (record (returned (ok tt, full config)) {
      signals = false;
      worker = some (stop (full config));
    })
stopped_reached = later waiting_reached (◌⟶◌.signal_callback refl (inr refl))

exit_reached : Reach config false ended
unfolding stop
exit_reached =
    later
      (later (later (later stopped_reached (◌⟶◌.wait_stop refl refl)) (◌⟶◌.reset refl))
        (◌⟶◌.shutdown_api refl))
      (◌⟶◌.deregister_signal refl)

Reach-exit_example :
    (ended.worker ≡ none)
    × (ended.sdk ≡ false)
    × (ended.signals ≡ false)
    × (ended.exit_code ≡ code ended.started)
    × IsAnswered ended.started
Reach-exit_example = Reach-exit config false exit_reached refl

Reach-stops_example :
    ((stop (full config)).stops ≤ 1)
    × ((stop (full config)).running ≡ true → (stop (full config)).stops ≡ 0)
Reach-stops_example = Reach-stops config false (stop (full config)) stopped_reached refl

Reach-safe_example :
    (waiting ≢ crashed)
    × (waiting ≡ waiting → true ≡ true → some (full config) ≡ some (full config))
Reach-safe_example = Reach-safe config waiting_reached
