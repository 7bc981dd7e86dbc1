-- ===== src/Worker/Failure/Entries.antt =====
-- The DLQ entry of a job and the status that a failure leaves.
use yirang_taskforge.Prelude.{
  map, Bool, false, ◌≡◌, refl, sym, ap, ◌∙◌, ◌++◌, append_assoc, true, not, Bool-cases, inl, inr,
  Option, none, is_some, List, [], ◌∷◌, Text, bytes, text_eq_refl, ℤ, Expected, ok, unexpected,
  arith,
}
use yirang_taskforge.Json.{Json}
use yirang_taskforge.World.{World, Services, Event, File, Act, ◌>>=◌}
use yirang_taskforge.Configurations.{Configurations}
use yirang_taskforge.TaskDlq.{
  entry_name, entry_path, exists_in, remove, remove_entry, can_retry, record_failure,
}
use yirang_taskforge.TaskDlq.Record.{lookup-without, record_failure-writes}
use yirang_taskforge.Worker.Backoff.{backoff_with_jitter, sleep_backoff}
use yirang_taskforge.Worker.Status.{set_job_status}
use yirang_taskforge.Worker.Transfer.{text_at}
use yirang_taskforge.Worker.Failure.{
  dlq_of, retry_updates, republish_of, inbound_try_count, give_up, after_send, requeue,
  after_record, handle_processing_failure,
}
use yirang_taskforge.Worker.Effects.{Statuses, start, quiet, Statuses-append}
use yirang_taskforge.Worker.Delivery.{Stage, queued, failed, name}
use yirang_taskforge.Worker.Effects.Leaves.{set_job_status-Performs}
use yirang_taskforge.Worker.Effects.Failures.{retry_updates-status}

abbrev pub is_queued : Stage → Bool
is_queued queued = true
is_queued _ = false

-- An entry stands exactly for a job that is to be retried.
abbrev pub Stands : Stage → Option File → Type 0
Stands stage file = is_some file ≡ is_queued stage

module _ (json : Json) (services : Services) (config : Configurations)
    (message : Json.Object json) where
  open json use {Object, find}

  abbrev pub job : Text
  job = text_at json message (bytes "job_id")

  -- The last stage of the job that the action writes, after the earlier ones, and the entry that it
  -- leaves exactly if that stage is `queued`.
  pub record Settles (earlier : List Stage) {A : Type 0} (m : Act A) (w : World) : Type 0 where
    pub stage : Stage
    pub new : List Event
    pub extends : (m w).1.trace ≡ new ++ w.trace
    pub marks : Statuses json job new (map name (stage ∷ earlier))
    pub entry : Stands stage (exists_in (m w).1.dlq (entry_name job))

  set_job_status-Settles :
      (stage : Stage) (updates : Object) (w : World)
      → find updates (bytes "status") ≡ none
      → Stands stage (exists_in w.dlq (entry_name job))
      → Settles [] (set_job_status json services config job (name stage) updates) w
  unfolding set_job_status ◌>>=◌
  set_job_status-Settles stage updates w free stands =
      let (new, e, (ss, one, did)) =
        (set_job_status-Performs json services config message (name stage) updates free).at w in
      record { stage = stage; new = new; extends = e; marks = rw one at did.marks; entry = stands }

  pub removed_none :
      (w : World)
      → services.removes w (entry_path (dlq_of config) job) ≡ true
      → exists_in (remove services (dlq_of config) job w).1.dlq (entry_name job) ≡ none
  unfolding remove remove_entry
  removed_none w removes = ground (
    arith,
    lookup-without (entry_name job) (entry_name job) w.dlq.files,
    text_eq_refl (entry_name job),
  )

  pub trace-remove : (w : World) → (remove services (dlq_of config) job w).1.trace ≡ w.trace
  unfolding remove
  trace-remove w = ground arith

  module _
      (removes : (w : World) → services.removes w (entry_path (dlq_of config) job) ≡ true) where
    give_up-Settles :
        (republish : Object) (reason : Text) (n : ℤ) (w : World)
        → Settles [] (give_up json services config job republish reason n) w
    unfolding give_up ◌>>=◌
    give_up-Settles republish reason n w =
        let gone = (remove services (dlq_of config) job w).1 in
        let s =
          set_job_status-Settles failed (retry_updates json republish reason n) gone
            (retry_updates-status json republish reason n) (rw (removed_none w (removes w))) in
        record {
          stage = s.stage;
          new = s.new;
          extends = s.extends ∙ ap (λ t. s.new ++ t) (trace-remove w);
          marks = s.marks;
          entry = s.entry;
        }

    after_send-Settles :
        (republish : Object) (reason : Text) (n : ℤ) (r : Expected (Unit {0})) (w : World)
        → is_some (exists_in w.dlq (entry_name job)) ≡ true
        → Settles [] (after_send json services config job republish reason n r) w
    unfolding after_send
    after_send-Settles republish reason n (unexpected e) w there = give_up-Settles republish _ n w
    after_send-Settles republish reason n (ok _) w there =
        set_job_status-Settles queued (retry_updates json republish reason n) w
          (retry_updates-status json republish reason n) there

    -- Events that write no status may come first.
    after_quiet :
        (m k : Act (Unit {0})) (w v : World) (e f : Event)
        → m w ≡ k v
        → v.trace ≡ f ∷ e ∷ w.trace
        → Statuses json job (f ∷ e ∷ []) []
        → Settles [] k v
        → Settles [] m w
    after_quiet m k w v e f same traced calm s = record {
      stage = s.stage;
      new = s.new ++ f ∷ e ∷ [];
      extends =
          ap (λ p. p.1.trace) same
          ∙ s.extends
          ∙ ap (λ t. s.new ++ t) traced
          ∙ sym (append_assoc s.new (f ∷ e ∷ []) w.trace);
      marks = Statuses-append json s.marks calm;
      entry = rw same s.entry;
    }

    requeue-Settles :
        (republish : Object) (reason : Text) (n : ℤ) (w : World)
        → is_some (exists_in w.dlq (entry_name job)) ≡ true
        → Settles [] (requeue json services config job republish reason n) w
    unfolding requeue sleep_backoff backoff_with_jitter ◌>>=◌
    requeue-Settles republish reason n w there =
        after_quiet _ _ w _ _ _ refl refl (quiet _ refl (quiet _ refl start))
          (after_send-Settles _ reason n _ _ there)

    after_record-Settles :
        (republish : Object) (reason : Text) (n : ℤ) (w : World)
        → is_some (exists_in w.dlq (entry_name job)) ≡ true
        → Settles [] (after_record json services config job republish reason (ok n)) w
    unfolding after_record
    after_record-Settles republish reason n w there =
        elim (Bool-cases (not (can_retry (dlq_of config) n))) [
          | inl over ↦ rw over (give_up-Settles republish reason n w)
          | inr may ↦ rw may (requeue-Settles republish reason n w there)
        ]

    -- No failure leaves an orphan in the DLQ: if the failure is recorded and removals succeed, one
    -- status of the job is written, and its entry stands after that exactly if the status is
    -- "queued".
    pub handle_processing_failure-Settles :
        (body reason : Text) (n : ℤ) (w : World)
        → (record_failure json services
            (dlq_of config)
            job
            body
            reason
            (inbound_try_count json (republish_of json job body))
            w).0
          ≡ ok n
        → Settles [] (handle_processing_failure json services config job body reason) w
    unfolding handle_processing_failure ◌>>=◌
    handle_processing_failure-Settles body reason n w recorded =
        let republish = republish_of json job body in
        let inbound = inbound_try_count json republish in
        let after = (record_failure json services (dlq_of config) job body reason inbound w).1 in
        let (quiet_trace, written) =
          record_failure-writes json services (dlq_of config) w job body reason inbound n
            recorded in
        let s =
          after_record-Settles republish reason n after (rw (written job, text_eq_refl job)) in
        let same : handle_processing_failure json services config job body reason w
            ≡ after_record json services config job republish reason (ok n) after =
          ap (λ r. after_record json services config job republish reason r after) recorded in
        record {
          stage = s.stage;
          new = s.new;
          extends = ap (λ p. p.1.trace) same ∙ s.extends ∙ ap (λ t. s.new ++ t) quiet_trace;
          marks = s.marks;
          entry = rw same s.entry;
        }
