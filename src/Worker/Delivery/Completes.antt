-- ===== src/Worker/Delivery/Completes.antt =====
-- Deliveries with services that work.
use yirang_taskforge.Prelude.{
  ◌≡◌, refl, sym, ap, ◌∙◌, true, false, Bool-cases, inl, inr, Option, none, some, List, [], ◌∷◌,
  Text, bytes, All,
}
use yirang_taskforge.Json.{Json}
use yirang_taskforge.World.{World, Services, redis_get, record_event}
use yirang_taskforge.World.Redis.{Durable, Unwritten}
use yirang_taskforge.TaskExecutor.{TaskDefinition, find_task}
use yirang_taskforge.Configurations.{Configurations}
use yirang_taskforge.Worker.Status.{is_terminal_reply}
use yirang_taskforge.Worker.Transfer.{text_at}
use yirang_taskforge.Worker.Process.{executor_of, task_of}
use yirang_taskforge.Worker.Process.Redelivery.{handle_message-terminal}
use yirang_taskforge.Worker.Process.Success.{Working, handle_message-done}
use yirang_taskforge.Worker.Effects.{In, Statuses}
use yirang_taskforge.Worker.Delivery.{Stage, running, done, Shows, other, deliver}
use yirang_taskforge.Worker.Delivery.Stages.{
  is_ended, ended_stays, IsReadable, Shows-Statuses, Shows-terminal, Shows-unwritten,
}
use yirang_taskforge.Worker.Delivery.Refines.{
  All-suffix, IsRequestBody, IsRequestOf, handled, handle_message-⟶*, deliver-extends,
  handle_message-extends, deliver-⟶*, deliver-after,
}

module _ (json : Json) (services : Services) (config : Configurations) where
  open json use {Value, Object}

  -- A request of the job, for a task of the whitelist.
  pub record IsRunnable (job_id body : Text) : Type 0 where
    pub request : IsRequestOf json job_id body
    pub definition : TaskDefinition
    pub registered :
        find_task
          (executor_of config)
          (text_at json (task_of json request.request.message) (bytes "name"))
        ≡ some definition

  abbrev Ended : Text → World → Type 0
  Ended job_id w = (g : Stage) × (is_ended g ≡ true) × Shows json job_id w.trace (some g)

  Unwritten-is_terminal_reply :
      (job_id : Text) (w : World)
      → Unwritten services
      → Shows json job_id w.trace none
      → is_terminal_reply json (services.get w job_id) ≡ false
  unfolding is_terminal_reply
  Unwritten-is_terminal_reply job_id w unwritten shows =
      let (error, missing) = unwritten w job_id (Shows-unwritten json job_id refl shows) in
      rw missing

  terminal-Ended :
      (job_id : Text) (w : World) (s : Option Stage)
      → Durable services
      → Unwritten services
      → Shows json job_id w.trace s
      → All (IsReadable json) w.trace
      → is_terminal_reply json (services.get w job_id) ≡ true
      → Ended job_id w
  terminal-Ended job_id w none durable unwritten shows readable terminal =
      absurd (let open_ = Unwritten-is_terminal_reply job_id w unwritten shows in cc)
  terminal-Ended job_id w (some g) durable unwritten shows readable terminal =
      (g, sym (Shows-terminal json services job_id w g durable shows readable) ∙ terminal, shows)

  handle_message-Ended :
      (body job_id : Text) (w : World) (s : Option Stage)
      → Durable services
      → Unwritten services
      → Working services
      → IsRunnable job_id body
      → Shows json job_id w.trace s
      → All (IsReadable json) w.trace
      → Ended job_id (handled json services config body w)
  handle_message-Ended body job_id w s durable unwritten working r shows readable =
      let q = r.request.request in
      let of_job = r.request.of_job in
      elim (Bool-cases (is_terminal_reply json (services.get w job_id))) [
        | inl terminal ↦
            let (g, ended, shown) =
              terminal-Ended job_id w s durable unwritten shows readable terminal in
            let read : handled json services config body w ≡ record_event (redis_get job_id) w =
              rw (← of_job) (
                ap (λ p. p.1)
                  (handle_message-terminal json services config body q.value q.message w q.parsed
                    q.is_object q.valid (rw of_job terminal))) in
            rw (read, handled) (g, ended, other (redis_get job_id) refl shown)
        | inr unended ↦
            let (acknowledged, (new, e, statuses)) =
              handle_message-done json services config q.message working body q.value w r.definition
                q.parsed q.is_object q.valid (rw of_job unended) r.registered in
            let written : Statuses json job_id new (bytes "done" ∷ bytes "running" ∷ []) =
              rw of_job at statuses in
            rw e (done, refl, Shows-Statuses json job_id (done ∷ running ∷ []) written refl shows)
      ]

  delivered :
      (first : Text) (rest : List Text) (w : World)
      → deliver json services config (first ∷ rest) w
        ≡ deliver json services config rest (handled json services config first w)
  delivered first rest w = deliver-after json services config first rest w _ refl

  -- What is readable in the end is so after the first message.
  deliver-IsReadable :
      (first : Text) (rest : List Text) (w : World)
      → All (IsRequestBody json) rest
      → All (IsReadable json) (deliver json services config (first ∷ rest) w).1.trace
      → All
          (IsReadable json)
          (deliver json services config rest (handled json services config first w)).1.trace
        × All (IsReadable json) (handled json services config first w).trace
  deliver-IsReadable first rest w h readable =
      let fits = rw (delivered first rest w) at readable in
      let (later, e) =
        deliver-extends json services config rest (handled json services config first w) h in
      (fits, All-suffix _ later _ (rw e at fits))

  -- Nothing is left hanging: with a Redis that keeps what is written and services that work, after
  -- any list of valid messages has been delivered, each job that one of them requests, for a task
  -- of the whitelist, has ended; if the documents that are written can be read back.
  pub deliver-Ended :
      (bodies : List Text) (body job_id : Text) (w : World) (s : Option Stage)
      → Durable services
      → Unwritten services
      → Working services
      → All (IsRequestBody json) bodies
      → In body bodies
      → IsRunnable job_id body
      → Shows json job_id w.trace s
      → All (IsReadable json) (deliver json services config bodies w).1.trace
      → (g : Stage) × (is_ended g ≡ true)
        × Shows json job_id (deliver json services config bodies w).1.trace (some g)
  deliver-Ended [] body job_id w s durable unwritten working h there r shows readable = absurd there
  deliver-Ended (first ∷ rest) body job_id w s durable unwritten working h (inl same) r shows
        readable =
      let (fits, fits_first) = deliver-IsReadable first rest w h.1 readable in
      let (before, e) = handle_message-extends json services config first w h.0 in
      let (g, ended, shown) =
        handle_message-Ended first job_id w s durable unwritten working (rw same at r) shows
          (All-suffix _ before w.trace (rw e at fits_first)) in
      let (t, shown', path) =
        deliver-⟶* json services config rest job_id (handled json services config first w) (some g)
          durable h.1 shown fits in
      rw (delivered first rest w) (g, ended, rw (ended_stays ended path) at shown')
  deliver-Ended (first ∷ rest) body job_id w s durable unwritten working h (inr there) r shows
        readable =
      let (fits, fits_first) = deliver-IsReadable first rest w h.1 readable in
      let (t, shown, path) =
        handle_message-⟶* json services config first job_id w s durable h.0 shows fits_first in
      rw (delivered first rest w) (
        deliver-Ended rest body job_id (handled json services config first w) t durable unwritten
          working h.1 there r shown fits)
