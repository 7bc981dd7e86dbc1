-- ===== src/Main/Exit.antt =====
-- How the process ends, whenever the signals arrive.
use yirang_taskforge.Prelude.{
  ℕ, ◌≡◌, refl, Bool, true, false, Option, none, some, Expected, ok, unexpected,
}
use yirang_taskforge.Configurations.{Configurations}
use yirang_taskforge.Worker.Lifecycle.{stop}
use yirang_taskforge.Main.{
  Pc, failing, waiting, releasing, shutting_down, deregistering, exited, crashed, Process,
  on_worker, Makes, Calls, ◌⟶◌, Reach, later,
}

-- 1 for a start that failed
abbrev pub code : Option (Expected (Unit {0})) → ℕ
code (some (unexpected e)) = 1
code _ = 0

abbrev pub IsAnswered : Option (Expected (Unit {0})) → Type 0
IsAnswered none = ⊥
IsAnswered (some r) = Unit

abbrev IsFailure : Option (Expected (Unit {0})) → Type 0
IsFailure (some (unexpected e)) = Unit
IsFailure _ = ⊥

-- What holds where the main thread is.
abbrev Facts : Pc → Process → Type 0
Facts exited p =
    (p.worker ≡ none)
    × (p.sdk ≡ false)
    × (p.signals ≡ false)
    × (p.exit_code ≡ code p.started)
    × IsAnswered p.started
Facts deregistering p =
    (p.worker ≡ none) × (p.sdk ≡ false) × (p.exit_code ≡ code p.started) × IsAnswered p.started
Facts shutting_down p = (p.worker ≡ none) × (p.exit_code ≡ code p.started) × IsAnswered p.started
Facts releasing p = (p.exit_code ≡ code p.started) × IsAnswered p.started
Facts failing p = IsFailure p.started
Facts waiting p = (p.exit_code ≡ 0) × (p.started ≡ some (ok tt))
Facts crashed p = Unit
Facts _ p = p.exit_code ≡ 0

failure_code : (r : Option (Expected (Unit {0}))) → IsFailure r → (1 ≡ code r) × IsAnswered r
failure_code none h = absurd h
failure_code (some (ok _)) h = absurd h
failure_code (some (unexpected e)) h = (refl, tt)

signal-Facts :
    (pc : Pc) (p : Process)
    → p.signals ≡ true
    → Facts pc p
    → Facts pc (record p { signals = false; worker = on_worker stop p.worker })
signal-Facts exited p on h = (rw (h.0), h.1, refl, h.3, h.4)
signal-Facts deregistering p on h = (rw (h.0), h.1, h.2, h.3)
signal-Facts shutting_down p on h = (rw (h.0), h.1, h.2)
signal-Facts _ p on h = h

module _ (config : Configurations) (early : Bool) where
  Step-Facts : {p q : Process} → ◌⟶◌ config early p q → Facts p.pc p → Facts q.pc q
  Step-Facts (◌⟶◌.register_signal e) h = rw e at h
  Step-Facts (◌⟶◌.init_api e) h = rw e at h
  Step-Facts (◌⟶◌.construct e) h = rw e at h
  Step-Facts (◌⟶◌.rejected error e r) h = tt
  Step-Facts (◌⟶◌.accepted e r) h = rw e at h
  Step-Facts (◌⟶◌.makes Makes.make_thread_pool e) h = rw e at h
  Step-Facts (◌⟶◌.makes Makes.make_redis_client e) h = rw e at h
  Step-Facts (◌⟶◌.makes Makes.make_clients e) h = rw e at h
  Step-Facts (◌⟶◌.succeeds Calls.pool_start e held) h = rw e at h
  Step-Facts (◌⟶◌.succeeds Calls.connect_redis e held) h = rw e at h
  Step-Facts (◌⟶◌.succeeds Calls.upload_task_catalog e held) h = rw e at h
  Step-Facts (◌⟶◌.succeeds Calls.connect_aws_service e held) h = rw e at h
  Step-Facts (◌⟶◌.succeeds Calls.start_dlq_backlog_monitor e held) h = rw e at h
  Step-Facts (◌⟶◌.fails error c e held) h = tt
  Step-Facts (◌⟶◌.crashes c e held) h = tt
  Step-Facts (◌⟶◌.returns e) h = (rw e at h, refl)
  Step-Facts (◌⟶◌.wait_stop e set) h = let (zero, ok_) = rw e at h in (rw (zero, ok_), rw ok_ tt)
  Step-Facts (◌⟶◌.stop_failed {p} e) h = failure_code p.started (rw e at h)
  Step-Facts (◌⟶◌.reset e) h = let (c, a) = rw e at h in (refl, c, a)
  Step-Facts (◌⟶◌.shutdown_api e) h = let (n, c, a) = rw e at h in (n, refl, c, a)
  Step-Facts (◌⟶◌.deregister_signal e) h = let (n, s, c, a) = rw e at h in (n, s, refl, c, a)
  Step-Facts (◌⟶◌.signal_callback {p} on may) h = signal-Facts p.pc p on h

  Reach-Facts : {p : Process} → Reach config early p → Facts p.pc p
  Reach-Facts Reach.start = refl
  Reach-Facts (later r st) = Step-Facts st (Reach-Facts r)

  -- However signals arrive, a process that exits has released its worker, shut the SDK down and
  -- deregistered its handlers, and its exit code is 1 exactly if the start had failed.
  pub Reach-exit :
      {p : Process}
      → Reach config early p
      → p.pc ≡ exited
      → (p.worker ≡ none)
        × (p.sdk ≡ false)
        × (p.signals ≡ false)
        × (p.exit_code ≡ code p.started)
        × IsAnswered p.started
  Reach-exit {p} r e = rw e at (Reach-Facts r)
