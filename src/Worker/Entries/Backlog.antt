-- ===== src/Worker/Entries/Backlog.antt =====
-- The DLQ directory beside the stages of the jobs.
use yirang_taskforge.Prelude.{
  ◌≡◌, refl, sym, ap, subst, arith, ◌∙◌, Bool, true, false, Bool-cases, inl, inr, Option, none,
  some, is_some, List, [], ◌∷◌, Text, bytes, text_eq, text_eq_iff, All,
}
use yirang_taskforge.Json.{Json}
use yirang_taskforge.World.{World, Services, redis_get, record_event, pure}
use yirang_taskforge.Configurations.{Configurations}
use yirang_taskforge.TaskDlq.{entry_name, entry_path, exists_in, is_file_or_new, can_write}
use yirang_taskforge.Worker.Status.{is_terminal_reply}
use yirang_taskforge.Worker.Transfer.{text_at}
use yirang_taskforge.Worker.Failure.{dlq_of}
use yirang_taskforge.Worker.Failure.Entries.{is_queued}
use yirang_taskforge.Worker.Process.Redelivery.{handle_message-terminal, handle_message-IsFate}
use yirang_taskforge.Worker.Delivery.{Stage, Shows, other, deliver}
use yirang_taskforge.Worker.Delivery.Stages.{Shows-Statuses, Shows-other}
use yirang_taskforge.Worker.Delivery.Refines.{IsRequestBody, handled, deliver-after}
use yirang_taskforge.Worker.Entries.Message.{handle_message-Settles}
use yirang_taskforge.Worker.Entries.Others.{IsSound, handle_message-Locals}

-- An entry can be removed, and a file of the directory opened for writing.
pub record Writable (services : Services) : Type 0 where
  pub removes : (w : World) (path : Text) → services.removes w path ≡ true
  pub opens : (w : World) (path : Text) → services.opens_for_writing w path ≡ true

-- The last stage is `queued`.
abbrev pub waits : Option Stage → Bool
waits none = false
waits (some stage) = is_queued stage

module _ (json : Json) where
  -- A job has an entry exactly if its last stage that the trace shows is `queued`.
  pub record Agrees (job_id : Text) (w : World) : Type 0 where
    pub stage : Option Stage
    pub shows : Shows json job_id w.trace stage
    pub entry : is_some (exists_in w.dlq (entry_name job_id)) ≡ waits stage

module _ (json : Json) (services : Services) (config : Configurations) where
  open json use {Value, Object}

  can_write-IsSound :
      (job_id : Text) (w u : World)
      → Writable services
      → IsSound w.dlq
      → u.dlq ≡ w.dlq
      → can_write json services (dlq_of config) u job_id ≡ true
  unfolding can_write
  can_write-IsSound job_id w u writable sound same =
      let opens = writable.opens u (entry_path (dlq_of config) job_id) in
      let present : u.dlq.present ≡ true = ap (λ d. d.present) same ∙ sound.0 in
      let file : is_file_or_new (exists_in u.dlq (entry_name job_id)) ≡ true =
        ap (λ d. is_file_or_new (exists_in d (entry_name job_id))) same ∙ sound.1 job_id in
      ground arith

  -- The job of the message.
  own_job-Agrees :
      (body : Text) (r : IsRequestBody json body) (w : World)
      → Writable services
      → IsSound w.dlq
      → Agrees json (text_at json r.message (bytes "job_id")) w
      → Agrees json (text_at json r.message (bytes "job_id")) (handled json services config body w)
  own_job-Agrees body r w writable sound a =
      let job = text_at json r.message (bytes "job_id") in
      elim (Bool-cases (is_terminal_reply json (services.get w job))) [
        | inl terminal ↦
            let whole =
              handle_message-terminal json services config body r.value r.message w r.parsed
                r.is_object r.valid terminal in
            let read : handled json services config body w ≡ record_event (redis_get job) w =
              ap (λ p. p.1) whole in
            rw (read, handled)
              (record {
                stage = a.stage;
                shows = other (redis_get job) refl a.shows;
                entry = a.entry;
              })
        | inr unended ↦
            let (earlier, s) =
              handle_message-Settles json services config r.message (λ v. writable.removes v _) body
                r.value w (λ u same. can_write-IsSound job w u writable sound same) r.parsed
                r.is_object r.valid unended in
            record {
              stage = some s.stage;
              shows =
                  rw (s.extends) (Shows-Statuses json job (s.stage ∷ earlier) s.marks refl a.shows);
              entry = s.entry;
            }
      ]

  other_job-Agrees :
      (body : Text) (r : IsRequestBody json body) (j : Text) (w : World)
      → text_eq (text_at json r.message (bytes "job_id")) j ≡ false
      → Agrees json j w
      → Agrees json j (handled json services config body w)
  other_job-Agrees body r j w apart a =
      let (acknowledged, (new, e, (ss, fate, statuses))) =
        handle_message-IsFate json services config body r.value r.message w r.parsed r.is_object in
      let (kept, sound) =
        (handle_message-Locals json services config r.message body r.value r.parsed r.is_object
            r.valid).at
          w in
      record {
        stage = a.stage;
        shows = rw e (Shows-other json _ j apart statuses a.shows);
        entry = ap is_some (kept j apart) ∙ a.entry;
      }

  handle_message-Agrees :
      (body : Text) (r : IsRequestBody json body) (j : Text) (w : World)
      → Writable services
      → IsSound w.dlq
      → Agrees json j w
      → Agrees json j (handled json services config body w)
  handle_message-Agrees body r j w writable sound a =
      let job = text_at json r.message (bytes "job_id") in
      elim (Bool-cases (text_eq job j)) [
        | inl same ↦
            let e : job ≡ j = (text_eq_iff job j).0 same in
            subst (λ i. Agrees json i (handled json services config body w)) e
              (own_job-Agrees body r w writable sound (subst (λ i. Agrees json i w) (sym e) a))
        | inr apart ↦ other_job-Agrees body r j w apart a
      ]

  -- The backlog is exact: if entries can be written and removed, then whatever list of valid messages
  -- is delivered, each job that has a DLQ entry exactly if its last stage is `queued` is such a job
  -- after the last message too; and the directory stays one in which every job can have its entry.
  pub deliver-Agrees :
      (bodies : List Text) (job_id : Text) (w : World)
      → Writable services
      → All (IsRequestBody json) bodies
      → IsSound w.dlq
      → Agrees json job_id w
      → IsSound (deliver json services config bodies w).1.dlq
        × Agrees json job_id (deliver json services config bodies w).1
  unfolding deliver pure
  deliver-Agrees [] job_id w writable h sound a = (sound, a)
  deliver-Agrees (body ∷ rest) job_id w writable h sound a =
      let r = h.0 in
      let local =
        (handle_message-Locals json services config r.message body r.value r.parsed r.is_object
            r.valid).at
          w in
      rw (deliver-after json services config body rest w _ refl) (
        deliver-Agrees rest job_id (handled json services config body w) writable h.1
          (local.1 sound) (handle_message-Agrees body r job_id w writable sound a))
