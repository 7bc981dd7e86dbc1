-- ===== src/Main/Startup.antt =====
-- The start of the process, and the whole `start` of the worker beside its steps.
use yirang_taskforge.Prelude.{
  ◌≡◌, refl, ◌≢◌, ◌⊎◌, inl, inr, ◌++◌, Bool, true, false, none, some, Text, Expected, ok,
  unexpected,
}
use yirang_taskforge.Json.{Json}
use yirang_taskforge.World.{World, Services, Act, pure, ◌>>=◌}
use yirang_taskforge.Configurations.{Configurations, validate_required}
use yirang_taskforge.Worker.Lifecycle.{
  TaskForgeWorker, constructed, begun, with_pool, with_redis, with_clients, stop, Library, step,
  start,
}
use yirang_taskforge.Main.{
  Pc, validating, pooling, pool_starting, redis_making, redis_connecting, cataloguing, serving,
  consuming, pushing, returning, failing, waiting, crashed, Process, on_worker, Makes, Calls,
  in_start, ◌⟶◌, Reach, later,
}

module _ (config : Configurations) where
  -- The worker after each assignment of `start`.
  abbrev made : TaskForgeWorker
  made = with_pool (begun config constructed)

  abbrev pub full : TaskForgeWorker
  full = with_clients (with_redis made)

  abbrev Facts : Pc → Process → Type 0
  Facts validating p = p.worker ≡ some constructed
  Facts pooling p = p.worker ≡ some (begun config constructed)
  Facts pool_starting p = p.worker ≡ some made
  Facts redis_making p = p.worker ≡ some made
  Facts redis_connecting p = p.worker ≡ some (with_redis made)
  Facts cataloguing p = p.worker ≡ some (with_redis made)
  Facts serving p = p.worker ≡ some (with_redis made)
  Facts consuming p = p.worker ≡ some full
  Facts pushing p = p.worker ≡ some full
  Facts returning p = p.worker ≡ some full
  Facts waiting p = (p.worker ≡ some full) ⊎ ((p.signals ≡ false) × (p.worker ≡ some (stop full)))
  Facts crashed p = ⊥
  Facts _ p = Unit

  signal-Facts :
      (pc : Pc) (p : Process)
      → p.signals ≡ true
      → in_start pc ≡ false
      → Facts pc p
      → Facts pc (record p { signals = false; worker = on_worker stop p.worker })
  signal-Facts waiting p on outside (inl e) = inr (refl, rw e)
  signal-Facts waiting p on outside (inr h) = absurd (let off = h.0 in cc)
  signal-Facts validating p on outside h = absurd (cc)
  signal-Facts pooling p on outside h = absurd (cc)
  signal-Facts pool_starting p on outside h = absurd (cc)
  signal-Facts redis_making p on outside h = absurd (cc)
  signal-Facts redis_connecting p on outside h = absurd (cc)
  signal-Facts cataloguing p on outside h = absurd (cc)
  signal-Facts serving p on outside h = absurd (cc)
  signal-Facts consuming p on outside h = absurd (cc)
  signal-Facts pushing p on outside h = absurd (cc)
  signal-Facts returning p on outside h = absurd (cc)
  signal-Facts _ p on outside h = h

  Step-Facts : {p q : Process} → ◌⟶◌ config false p q → Facts p.pc p → Facts q.pc q
  Step-Facts (◌⟶◌.register_signal e) h = tt
  Step-Facts (◌⟶◌.init_api e) h = tt
  Step-Facts (◌⟶◌.construct e) h = refl
  Step-Facts (◌⟶◌.rejected error e r) h = tt
  Step-Facts (◌⟶◌.accepted e r) h = rw (rw e at h)
  Step-Facts (◌⟶◌.makes Makes.make_thread_pool e) h = rw (rw e at h)
  Step-Facts (◌⟶◌.makes Makes.make_redis_client e) h = rw (rw e at h)
  Step-Facts (◌⟶◌.makes Makes.make_clients e) h = rw (rw e at h)
  Step-Facts (◌⟶◌.succeeds Calls.pool_start e held) h = rw e at h
  Step-Facts (◌⟶◌.succeeds Calls.connect_redis e held) h = rw e at h
  Step-Facts (◌⟶◌.succeeds Calls.upload_task_catalog e held) h = rw e at h
  Step-Facts (◌⟶◌.succeeds Calls.connect_aws_service e held) h = rw e at h
  Step-Facts (◌⟶◌.succeeds Calls.start_dlq_backlog_monitor e held) h = rw e at h
  Step-Facts (◌⟶◌.fails error c e held) h = tt
  Step-Facts (◌⟶◌.crashes Calls.pool_start e held) h =
      absurd (let same = rw e at h in let gone = rw same at held in cc)
  Step-Facts (◌⟶◌.crashes Calls.connect_redis e held) h =
      absurd (let same = rw e at h in let gone = rw same at held in cc)
  Step-Facts (◌⟶◌.crashes Calls.upload_task_catalog e held) h =
      absurd (let same = rw e at h in let gone = rw same at held in cc)
  Step-Facts (◌⟶◌.crashes Calls.connect_aws_service e held) h =
      absurd (let same = rw e at h in let gone = rw same at held in cc)
  Step-Facts (◌⟶◌.crashes Calls.start_dlq_backlog_monitor e held) h =
      absurd (let same = rw e at h in let gone = rw same at held in cc)
  Step-Facts (◌⟶◌.returns e) h = inl (rw e at h)
  Step-Facts (◌⟶◌.wait_stop e set) h = tt
  Step-Facts (◌⟶◌.stop_failed e) h = tt
  Step-Facts (◌⟶◌.reset e) h = tt
  Step-Facts (◌⟶◌.shutdown_api e) h = tt
  Step-Facts (◌⟶◌.deregister_signal e) h = tt
  Step-Facts (◌⟶◌.signal_callback on (inl early)) h = absurd (cc)
  Step-Facts (◌⟶◌.signal_callback {p} on (inr outside)) h = signal-Facts p.pc p on outside h

  Reach-Facts : {p : Process} → Reach config false p → Facts p.pc p
  Reach-Facts Reach.start = tt
  Reach-Facts (later r st) = Step-Facts st (Reach-Facts r)

  -- If no signal arrives within `start`, the process never goes through a null pointer; and while it
  -- waits and no signal has arrived, the worker holds all that it was started with.
  pub Reach-safe :
      {p : Process}
      → Reach config false p
      → (p.pc ≢ crashed) × (p.pc ≡ waiting → p.signals ≡ true → p.worker ≡ some full)
  Reach-safe {p} r = (
    λ e. rw e at (Reach-Facts r),
    λ e on. elim (let h : Facts waiting p = rw e at (Reach-Facts r) in h) [
      | inl held ↦ held
      | inr stopped ↦ absurd (let off = stopped.0 in cc)
    ],
  )

abbrev Outcome : Type 0
Outcome = Expected (Unit {0}) × TaskForgeWorker

-- The process at a statement of `start`, and after `start` has returned.
abbrev pub at_statement : Pc → TaskForgeWorker → Process
at_statement pc worker = record {
  pc = pc;
  signals = true;
  sdk = true;
  worker = some worker;
  started = none;
  exit_code = 0;
}

abbrev pub returned : Outcome → Process
returned (ok _, worker) = record (at_statement waiting worker) { started = some (ok tt) }
returned (unexpected e, worker) = record (at_statement failing worker) {
  started = some (unexpected e);
}

module _ (config : Configurations) (early : Bool) where
  record Ends (m : Act Outcome) : Type 0 where
    at : (w : World) → Reach config early (returned (m w).0)

  bind-Ends {ℓ} :
      {A : Type ℓ} (m : Act A) (f : A → Act Outcome) → ((a : A) → Ends (f a)) → Ends (m >>= f)
  unfolding ◌>>=◌
  bind-Ends m f h = record { at = λ w. (h (m w).0).at (m w).1 }

  step-Ends :
      (what : Text) (r : Expected (Unit {0})) (worker : TaskForgeWorker) (next : Act Outcome)
      → ((e : Text)
          → r ≡ unexpected e
          → Reach config early (returned (unexpected (what ++ e), worker)))
      → (r ≡ ok tt → Ends next)
      → Ends (step what r worker next)
  unfolding step pure
  step-Ends what (ok _) worker next failed h = h refl
  step-Ends what (unexpected e) worker next failed h = record { at = λ w. failed e refl }

  call-Ends :
      {at next : Pc} {member : TaskForgeWorker → Bool} {what : Text} (r : Expected (Unit {0}))
      (worker : TaskForgeWorker) (rest : Act Outcome)
      → Calls at next member what
      → member worker ≡ true
      → Reach config early (at_statement at worker)
      → (Reach config early (at_statement next worker) → Ends rest)
      → Ends (step what r worker rest)
  call-Ends r worker rest c held reached h =
      step-Ends _ r worker rest (λ e failed. later reached (◌⟶◌.fails e c refl held))
        λ good. h (later reached (◌⟶◌.succeeds c refl held))

  validating_reached : Reach config early (at_statement validating constructed)
  validating_reached =
      later (later (later Reach.start (◌⟶◌.register_signal refl)) (◌⟶◌.init_api refl))
        (◌⟶◌.construct refl)

  returning_reached :
      Reach config early (at_statement returning (full config)) → Ends (pure (ok tt, full config))
  unfolding pure
  returning_reached reached = record { at = λ w. later reached (◌⟶◌.returns refl) }

  -- The steps of the process include the whole `start`: from the launch, and without a signal, the
  -- process reaches the state in which `start` has returned what it returns in any world, with the
  -- members that it leaves.
  start-Reach :
      (json : Json) (services : Services) (library : Library) (w : World)
      → Reach config early (returned (start json services config library constructed w).0)
  unfolding start
  start-Reach json services library w =
      (step-Ends _ (validate_required config) constructed _
          (λ e bad. later validating_reached (◌⟶◌.rejected e refl bad))
          λ good.
            let pooled =
              later (later validating_reached (◌⟶◌.accepted refl good))
                (◌⟶◌.makes Makes.make_thread_pool refl) in
            bind-Ends _ _ λ created. bind-Ends _ _ λ pool.
              call-Ends pool _ _ Calls.pool_start refl pooled λ started. bind-Ends _ _ λ connected.
                call-Ends connected _ _ Calls.connect_redis refl
                  (later started (◌⟶◌.makes Makes.make_redis_client refl))
                  λ verified. bind-Ends _ _ λ uploaded.
                    call-Ends uploaded _ _ Calls.upload_task_catalog refl verified λ listed.
                      bind-Ends _ _ λ consumed.
                        call-Ends consumed _ _ Calls.connect_aws_service refl
                          (later listed (◌⟶◌.makes Makes.make_clients refl))
                          λ served. bind-Ends _ _ λ monitored.
                            call-Ends monitored _ _ Calls.start_dlq_backlog_monitor refl served
                              returning_reached).at
        w
