-- ===== src/Worker/Delivery/Refines.antt =====
-- The deliveries of messages, by the abstract machine of a job.
use yirang_taskforge.Prelude.{
  ◌≡◌, refl, sym, ap, ◌∙◌, ◌++◌, append_assoc, true, Bool-cases, inl, inr, Option, some, List, [],
  ◌∷◌, Text, bytes, text_eq, text_eq_iff, ok, All,
}
use yirang_taskforge.Json.{Json}
use yirang_taskforge.MessageValidation.{validate_request}
use yirang_taskforge.World.{World, Services, Event, redis_get, record_event, ◌>>=◌}
use yirang_taskforge.World.Redis.{Durable}
use yirang_taskforge.Configurations.{Configurations}
use yirang_taskforge.Worker.Status.{is_terminal_reply}
use yirang_taskforge.Worker.Transfer.{text_at}
use yirang_taskforge.Worker.Process.{handle_message}
use yirang_taskforge.Worker.Process.Redelivery.{handle_message-terminal, handle_message-IsFate}
use yirang_taskforge.Worker.Effects.{Statuses}
use yirang_taskforge.Worker.Effects.Handling.{IsFate}
use yirang_taskforge.Worker.Delivery.{Stage, IsOpen, ◌⟶*◌, here, deliver, Shows, other}
use yirang_taskforge.Worker.Delivery.Stages.{
  latest, append-⟶*, fate_path, IsReadable, Shows-Statuses, Shows-other, Shows-IsOpen,
}

pub All-suffix {κ} : (P : Event → Type κ) (es fs : List Event) → All P (es ++ fs) → All P fs
All-suffix P [] fs h = h
All-suffix P (e ∷ es) fs h = All-suffix P es fs h.1

module _ (json : Json) where
  open json use {Value, Object, parse, as_object?}

  -- A body that is a valid request.
  pub record IsRequestBody (body : Text) : Type 0 where
    pub value : Value
    pub message : Object
    pub parsed : parse body ≡ some value
    pub is_object : as_object? value ≡ some message
    pub valid : validate_request json message ≡ ok tt

  -- A valid request of a job.
  pub record IsRequestOf (job_id body : Text) : Type 0 where
    pub request : IsRequestBody body
    pub of_job : text_at json request.message (bytes "job_id") ≡ job_id

module _ (json : Json) (services : Services) (config : Configurations) where
  open json use {Value, Object}

  abbrev pub handled : Text → World → World
  handled body w = (handle_message json services config body w).1

  fate_stages :
      (body : Text) (r : IsRequestBody json body) (j : Text) (w : World) (s : Option Stage)
      (new : List Event) (ss : List Text)
      → (text_eq (text_at json r.message (bytes "job_id")) j ≡ true → IsOpen s)
      → Statuses json (text_at json r.message (bytes "job_id")) new ss
      → IsFate ss
      → Shows json j w.trace s
      → (t : Option Stage) × Shows json j (new ++ w.trace) t × (s ⟶* t)
  fate_stages body r j w s new ss open_if statuses fate shows =
      let job = text_at json r.message (bytes "job_id") in
      elim (Bool-cases (text_eq job j)) [
        | inl same ↦
            let (gs, named, path) = fate_path ss s fate (open_if same) in
            let e : job ≡ j = (text_eq_iff job j).0 same in
            (
              latest gs s,
              rw (← e) (Shows-Statuses json job gs statuses named (rw (← e) at shows)),
              path,
            )
        | inr apart ↦ (s, Shows-other json job j apart statuses shows, here)
      ]

  pub handle_message-⟶* :
      (body : Text) (j : Text) (w : World) (s : Option Stage)
      → Durable services
      → IsRequestBody json body
      → Shows json j w.trace s
      → All (IsReadable json) (handled body w).trace
      → (t : Option Stage) × Shows json j (handled body w).trace t × (s ⟶* t)
  handle_message-⟶* body j w s durable r shows readable =
      let job = text_at json r.message (bytes "job_id") in
      elim (Bool-cases (is_terminal_reply json (services.get w job))) [
        | inl ended ↦
            let read : handled body w ≡ record_event (redis_get job) w =
              ap (λ p. p.1)
                (handle_message-terminal json services config body r.value r.message w r.parsed
                  r.is_object r.valid ended) in
            rw (read, handled) (s, other (redis_get job) refl shows, here)
        | inr unended ↦
            let (acknowledged, (new, e, (ss, fate, statuses))) =
              handle_message-IsFate json services config body r.value r.message w r.parsed
                r.is_object in
            let fits : All (IsReadable json) w.trace =
              All-suffix _ new w.trace (rw e at readable) in
            rw e (
              fate_stages body r j w s new ss
                (λ same.
                  Shows-IsOpen json services j w s durable shows fits
                    (rw ((text_eq_iff job j).0 same) at unended))
                statuses fate shows)
      ]

  pub handle_message-extends :
      (body : Text) (w : World)
      → IsRequestBody json body
      → (new : List Event) × ((handled body w).trace ≡ new ++ w.trace)
  handle_message-extends body w r =
      let (acknowledged, (new, e, statuses)) =
        handle_message-IsFate json services config body r.value r.message w r.parsed r.is_object in
      (new, e)

  pub deliver-extends :
      (bodies : List Text) (w : World)
      → All (IsRequestBody json) bodies
      → (new : List Event) × ((deliver json services config bodies w).1.trace ≡ new ++ w.trace)
  unfolding deliver ◌>>=◌
  deliver-extends [] w h = ([], refl)
  deliver-extends (body ∷ rest) w h =
      let (first, e) = handle_message-extends body w h.0 in
      let (later, e') = deliver-extends rest (handled body w) h.1 in
      (later ++ first, e' ∙ ap (λ t. later ++ t) e ∙ sym (append_assoc later first w.trace))

  -- Refinement: with a Redis that keeps what is written, delivering any list of valid messages, of
  -- whatever jobs and with whatever redeliveries, takes each job along steps of the abstract machine
  -- only, if the documents that are written can be read back.
  pub deliver-⟶* :
      (bodies : List Text) (job_id : Text) (w : World) (s : Option Stage)
      → Durable services
      → All (IsRequestBody json) bodies
      → Shows json job_id w.trace s
      → All (IsReadable json) (deliver json services config bodies w).1.trace
      → (t : Option Stage) × Shows json job_id (deliver json services config bodies w).1.trace t
        × (s ⟶* t)
  unfolding deliver ◌>>=◌
  deliver-⟶* [] job_id w s durable h shows readable = (s, shows, here)
  deliver-⟶* (body ∷ rest) job_id w s durable h shows readable =
      let (later, e) = deliver-extends rest (handled body w) h.1 in
      let fits : All (IsReadable json) (handled body w).trace =
        All-suffix _ later (handled body w).trace (rw e at readable) in
      let (t, shows_t, p) = handle_message-⟶* body job_id w s durable h.0 shows fits in
      let (u, shows_u, q) =
        deliver-⟶* rest job_id (handled body w) t durable h.1 shows_t readable in
      (u, shows_u, append-⟶* p q)

  pub deliver-after :
      (body : Text) (rest : List Text) (w v : World)
      → handled body w ≡ v
      → deliver json services config (body ∷ rest) w ≡ deliver json services config rest v
  unfolding deliver ◌>>=◌
  deliver-after body rest w v e = ap (deliver json services config rest) e
