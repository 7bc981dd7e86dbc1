-- ===== src/Worker/Delivery/Stages.antt =====
-- How the stage of a job follows from the statuses that are written for it.
use yirang_taskforge.Prelude.{
  ◌≡◌, refl, ◌∙◌, ◌++◌, Bool, true, false, Option, none, some, List, [], ◌∷◌, Text, bytes, text_eq,
  text_eq_refl, ok, map, All, inl, inr,
}
use yirang_taskforge.Json.{Json, string_at}
use yirang_taskforge.World.{World, Services, Event, redis_set, redis_put}
use yirang_taskforge.World.Redis.{written, last_written, Durable}
use yirang_taskforge.Worker.Status.{is_terminal_reply, is_terminal_document}
use yirang_taskforge.Worker.Effects.{Statuses, start, quiet, wrote, is_set}
use yirang_taskforge.Worker.Effects.Handling.{IsFate}
use yirang_taskforge.Worker.Delivery.{
  Stage, running, queued, done, failed, name, IsOpen, begin, refuse, finish, fail, requeue, ◌⟶*◌,
  here, then, Shows, unseen, other,
}

-- The last of the stages, the latest first, after the stage before them.
abbrev pub latest : List Stage → Option Stage → Option Stage
latest [] s = s
latest (g ∷ gs) s = some g

abbrev pub is_ended : Stage → Bool
is_ended done = true
is_ended failed = true
is_ended _ = false

pub append-⟶* : {s t u : Option Stage} → s ⟶* t → t ⟶* u → s ⟶* u
append-⟶* here q = q
append-⟶* (then st p) q = then st (append-⟶* p q)

-- A stage in which a job has ended is the last one.
pub ended_stays : {g : Stage} {s : Option Stage} → is_ended g ≡ true → some g ⟶* s → s ≡ some g
ended_stays h here = refl
ended_stays {g = done} h (then (begin o) p) = absurd o
ended_stays {g = done} h (then (refuse o) p) = absurd o
ended_stays {g = failed} h (then (begin o) p) = absurd o
ended_stays {g = failed} h (then (refuse o) p) = absurd o
ended_stays {g = running} h p = absurd (cc)
ended_stays {g = queued} h p = absurd (cc)

-- The statuses of one message are a path of the machine.
pub fate_path :
    (ss : List Text) (s : Option Stage)
    → IsFate ss
    → IsOpen s
    → (gs : List Stage) × (ss ≡ map name gs) × (s ⟶* latest gs s)
fate_path ss s (inl e) o = ([], e, here)
fate_path ss s (inr (inl e)) o = (failed ∷ [], e, then (refuse o) here)
fate_path ss s (inr (inr (inl e))) o = (done ∷ running ∷ [], e, then (begin o) (then finish here))
fate_path ss s (inr (inr (inr (inl e)))) o =
    (failed ∷ running ∷ [], e, then (begin o) (then fail here))
fate_path ss s (inr (inr (inr (inr e)))) o =
    (queued ∷ running ∷ [], e, then (begin o) (then requeue here))

module _ (json : Json) where
  open json use {Object, find, serialize, of_string, IsEncodable}

  -- The status documents that are written can be read back.
  abbrev pub IsReadable : Event → Type 0
  IsReadable (redis_set key value ttl) =
      (document : Object) → value ≡ serialize document → IsEncodable document
  IsReadable _ = Unit

  quiet-written : (job_id : Text) (e : Event) → is_set e ≡ false → written job_id e ≡ none
  quiet-written job_id (redis_set key value ttl) h = absurd (cc)
  quiet-written job_id (redis_put key value) h = absurd (cc)
  quiet-written job_id _ h = refl

  pub Shows-Statuses :
      (job_id : Text) {new es : List Event} {ss : List Text} {s : Option Stage} (gs : List Stage)
      → Statuses json job_id new ss
      → ss ≡ map name gs
      → Shows json job_id es s
      → Shows json job_id (new ++ es) (latest gs s)
  Shows-Statuses job_id [] start e shows = shows
  Shows-Statuses job_id (g ∷ gs) start e shows = absurd (cc)
  Shows-Statuses job_id gs (quiet e calm rest) same shows =
      other e (quiet-written job_id e calm) (Shows-Statuses job_id gs rest same shows)
  Shows-Statuses job_id [] (wrote d status ttl found rest) e shows = absurd (cc)
  Shows-Statuses job_id (g ∷ gs) (wrote d status ttl found rest) e shows =
      let same : status ≡ name g = cc in
      let others : _ ≡ map name gs = cc in
      Shows.wrote d g ttl (rw (← same) found) (Shows-Statuses job_id gs rest others shows)

  -- What is written for one job leaves the stage of another.
  pub Shows-other :
      (job_id j : Text) {new es : List Event} {ss : List Text} {s : Option Stage}
      → text_eq job_id j ≡ false
      → Statuses json job_id new ss
      → Shows json j es s
      → Shows json j (new ++ es) s
  Shows-other job_id j apart start shows = shows
  Shows-other job_id j apart (quiet e calm rest) shows =
      other e (quiet-written j e calm) (Shows-other job_id j apart rest shows)
  Shows-other job_id j apart (wrote d status ttl found rest) shows =
      other _ (rw apart) (Shows-other job_id j apart rest shows)

  terminal_document :
      (document : Object) (g : Stage)
      → find document (bytes "status") ≡ some (of_string (name g))
      → is_terminal_document json document ≡ is_ended g
  unfolding is_terminal_document string_at
  terminal_document document running found =
      rw (found, json.as_string?-of_string, is_terminal_document)
  terminal_document document queued found =
      rw (found, json.as_string?-of_string, is_terminal_document)
  terminal_document document done found =
      rw (found, json.as_string?-of_string, is_terminal_document)
  terminal_document document failed found =
      rw (found, json.as_string?-of_string, is_terminal_document)

  terminal_reply :
      (document : Object)
      → IsEncodable document
      → is_terminal_reply json (ok (serialize document)) ≡ is_terminal_document json document
  unfolding is_terminal_reply
  terminal_reply document fits = rw (
    json.parse-serialize document fits,
    is_terminal_reply,
    json.as_object?-of_object,
    is_terminal_reply,
  )

  -- The stage that the trace shows is the one that Redis answers with.
  pub Shows-last_written :
      (job_id : Text) {es : List Event} {s : Option Stage} (g : Stage)
      → s ≡ some g
      → Shows json job_id es s
      → All IsReadable es
      → (value : Text) × (last_written job_id es ≡ some value)
        × (is_terminal_reply json (ok value) ≡ is_ended g)
  Shows-last_written job_id g e unseen fits = absurd (cc)
  Shows-last_written job_id g e (other event none_here rest) fits =
      rw none_here (Shows-last_written job_id g e rest fits.1)
  Shows-last_written job_id g e (Shows.wrote document stage ttl found rest) fits =
      let same : stage ≡ g = cc in
      (
        serialize document,
        rw (text_eq_refl job_id),
        terminal_reply document (fits.0 document refl)
            ∙ terminal_document document g (rw (← same) found),
      )

  pub Shows-unwritten :
      (job_id : Text) {es : List Event} {s : Option Stage}
      → s ≡ none
      → Shows json job_id es s
      → last_written job_id es ≡ none
  Shows-unwritten job_id e unseen = refl
  Shows-unwritten job_id e (other event none_here rest) =
      rw none_here (Shows-unwritten job_id e rest)
  Shows-unwritten job_id e (Shows.wrote document stage ttl found rest) = absurd (cc)

  -- The answer of Redis is terminal exactly if the stage that the trace shows is.
  pub Shows-terminal :
      (services : Services) (job_id : Text) (w : World) (g : Stage)
      → Durable services
      → Shows json job_id w.trace (some g)
      → All IsReadable w.trace
      → is_terminal_reply json (services.get w job_id) ≡ is_ended g
  Shows-terminal services job_id w g durable shows fits =
      let (value, last, ended) = Shows-last_written job_id g refl shows fits in
      rw (durable w job_id value last) ended

  -- A job whose status in Redis is not terminal is open in the abstract machine.
  pub Shows-IsOpen :
      (services : Services) (job_id : Text) (w : World) (s : Option Stage)
      → Durable services
      → Shows json job_id w.trace s
      → All IsReadable w.trace
      → is_terminal_reply json (services.get w job_id) ≡ false
      → IsOpen s
  Shows-IsOpen services job_id w none durable shows fits h = tt
  Shows-IsOpen services job_id w (some running) durable shows fits h = tt
  Shows-IsOpen services job_id w (some queued) durable shows fits h = tt
  Shows-IsOpen services job_id w (some done) durable shows fits h =
      let ended = Shows-terminal services job_id w done durable shows fits in absurd (cc)
  Shows-IsOpen services job_id w (some failed) durable shows fits h =
      let ended = Shows-terminal services job_id w failed durable shows fits in absurd (cc)
