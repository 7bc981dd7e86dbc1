-- ===== src/Main/StopOnce.antt =====
-- How often the process calls `stop_promise_.set_value()`.
use yirang_taskforge.Prelude.{
  ◌≤◌, ◌≡◌, refl, ◌⊎◌, inl, inr, Bool, true, false, Option, none, some, arith,
}
use yirang_taskforge.Configurations.{Configurations}
use yirang_taskforge.Worker.Lifecycle.{TaskForgeWorker, begun, stop}
use yirang_taskforge.Main.{Pc, validating, Process, on_worker, Makes, Calls, ◌⟶◌, Reach, later}

-- Running and not stopped yet; or not running, and stopped at most once.
abbrev Stops : Option TaskForgeWorker → Type 0
Stops none = Unit
Stops (some w) = ((w.running ≡ true) × (w.stops ≡ 0)) ⊎ ((w.running ≡ false) × (w.stops ≤ 1))

abbrev Fresh : Option TaskForgeWorker → Type 0
Fresh none = Unit
Fresh (some w) = (w.running ≡ false) × (w.stops ≡ 0)

-- A worker whose start has not begun is fresh.
abbrev StopFacts : Pc → Option TaskForgeWorker → Type 0
StopFacts validating worker = Fresh worker
StopFacts _ worker = Stops worker

stop-Fresh : (o : Option TaskForgeWorker) → Fresh o → Fresh (on_worker stop o)
unfolding stop
stop-Fresh none h = tt
stop-Fresh (some w) h = rw (h.0) (refl, h.1)

stop-Stops : (o : Option TaskForgeWorker) → Stops o → Stops (on_worker stop o)
unfolding stop
stop-Stops none h = tt
stop-Stops (some w) (inl h) = rw (h.0) (inr (refl, omega (arith, h.1)))
stop-Stops (some w) (inr h) = rw (h.0) (inr (refl, h.1))

stop-StopFacts :
    (pc : Pc) (o : Option TaskForgeWorker) → StopFacts pc o → StopFacts pc (on_worker stop o)
stop-StopFacts validating o h = stop-Fresh o h
stop-StopFacts _ o h = stop-Stops o h

begun-Stops :
    (config : Configurations) (o : Option TaskForgeWorker)
    → Fresh o
    → Stops (on_worker (begun config) o)
begun-Stops config none h = tt
begun-Stops config (some w) h = inl (refl, h.1)

made-StopFacts :
    {at next : Pc} {f : TaskForgeWorker → TaskForgeWorker} (o : Option TaskForgeWorker)
    → Makes at next f
    → StopFacts at o
    → StopFacts next (on_worker f o)
made-StopFacts none Makes.make_thread_pool h = tt
made-StopFacts none Makes.make_redis_client h = tt
made-StopFacts none Makes.make_clients h = tt
made-StopFacts (some w) Makes.make_thread_pool h = h
made-StopFacts (some w) Makes.make_redis_client h = h
made-StopFacts (some w) Makes.make_clients h = h

called-Stops :
    {at next : Pc} {member : TaskForgeWorker → Bool} {what : _} (o : Option TaskForgeWorker)
    → Calls at next member what
    → StopFacts at o
    → Stops o × StopFacts next o
called-Stops o Calls.pool_start h = (h, h)
called-Stops o Calls.connect_redis h = (h, h)
called-Stops o Calls.upload_task_catalog h = (h, h)
called-Stops o Calls.connect_aws_service h = (h, h)
called-Stops o Calls.start_dlq_backlog_monitor h = (h, h)

module _ (config : Configurations) (early : Bool) where
  Step-StopFacts :
      {p q : Process} → ◌⟶◌ config early p q → StopFacts p.pc p.worker → StopFacts q.pc q.worker
  Step-StopFacts (◌⟶◌.register_signal e) h = rw e at h
  Step-StopFacts (◌⟶◌.init_api e) h = rw e at h
  Step-StopFacts (◌⟶◌.construct e) h = (refl, refl)
  Step-StopFacts (◌⟶◌.rejected {p} error e r) h = fresh_stops p.worker (rw e at h)
    where
      fresh_stops : (o : Option TaskForgeWorker) → Fresh o → Stops o
      fresh_stops none k = tt
      fresh_stops (some w) k = inr (k.0, omega (arith, k.1))
  Step-StopFacts (◌⟶◌.accepted {p} e r) h = begun-Stops config p.worker (rw e at h)
  Step-StopFacts (◌⟶◌.makes {p} m e) h = made-StopFacts p.worker m (rw e at h)
  Step-StopFacts (◌⟶◌.succeeds {p} c e held) h = (called-Stops p.worker c (rw e at h)).1
  Step-StopFacts (◌⟶◌.fails {p} error c e held) h = (called-Stops p.worker c (rw e at h)).0
  Step-StopFacts (◌⟶◌.crashes {p} c e held) h = (called-Stops p.worker c (rw e at h)).0
  Step-StopFacts (◌⟶◌.returns e) h = rw e at h
  Step-StopFacts (◌⟶◌.wait_stop e set) h = rw e at h
  Step-StopFacts (◌⟶◌.stop_failed {p} e) h = stop-Stops p.worker (rw e at h)
  Step-StopFacts (◌⟶◌.reset e) h = tt
  Step-StopFacts (◌⟶◌.shutdown_api e) h = rw e at h
  Step-StopFacts (◌⟶◌.deregister_signal e) h = rw e at h
  Step-StopFacts (◌⟶◌.signal_callback {p} on may) h = stop-StopFacts p.pc p.worker h

  Reach-StopFacts : {p : Process} → Reach config early p → StopFacts p.pc p.worker
  Reach-StopFacts Reach.start = tt
  Reach-StopFacts (later r st) = Step-StopFacts st (Reach-StopFacts r)

  stops_bound :
      (pc : Pc) (w : TaskForgeWorker)
      → StopFacts pc (some w)
      → (w.stops ≤ 1) × (w.running ≡ true → w.stops ≡ 0)
  stops_bound validating w h = (omega (arith, h.1), λ on. h.1)
  stops_bound _ w (inl h) = (omega (arith, h.1), λ on. h.1)
  stops_bound _ w (inr h) = (h.1, λ on. absurd (let off = h.0 in cc))

  -- In every state that the process reaches, however signals arrive, the promise that ends the
  -- waiting has been set at most once, and not while the worker is marked as running.
  pub Reach-stops :
      {p : Process} (w : TaskForgeWorker)
      → Reach config early p
      → p.worker ≡ some w
      → (w.stops ≤ 1) × (w.running ≡ true → w.stops ≡ 0)
  Reach-stops {p} w r e = stops_bound p.pc w (rw e at (Reach-StopFacts r))
