-- ===== src/Worker/Effects/Leaves.antt =====
-- Rules for the effects of a computation, by the way in which it is built, and the status writes.
use yirang_taskforge.Prelude.{
  ◌≡◌, refl, ◌∙◌, ◌++◌, append-nil, false, none, List, [], ◌∷◌, Text, bytes, ℤ, Expected, ok,
  unexpected, arith,
}
use yirang_taskforge.Json.{Json}
use yirang_taskforge.World.{
  World, Services, Event, redis_get, redis_set, Act, pure, ask, call, ◌>>=◌,
}
use yirang_taskforge.World.Trace.{Runs, Runs-pure, Runs-ask, Runs-call, Runs-bind, Runs-weaken}
use yirang_taskforge.Configurations.{Configurations}
use yirang_taskforge.TaskDlq.{TaskDlq, remove, record_failure}
use yirang_taskforge.Worker.Status.{
  merge_status, stored_document, set_job_status, is_terminal_status,
}
use yirang_taskforge.Worker.Status.Merge.{find-merge_status}
use yirang_taskforge.Worker.Transfer.{text_at, on_ok, ◌>>=?◌}
use yirang_taskforge.Worker.Effects.{
  start, quiet, wrote, is_set, Permitted, Does, Does-append, Does-nothing,
}

module _ (json : Json) (services : Services) (config : Configurations) where
  open json use {Object, Value, find, serialize, of_string}

  -- `m` has permitted effects, and its result and the statuses that it writes meet `Q`.
  abbrev pub Performs : {A : Type 0} → Object → Act A → (A → List Text → Type 0) → Type 0
  Performs message m Q =
      Runs m (λ a new. (ss : List Text) × Q a ss × Does json services config message new ss)

  -- It writes no status.
  abbrev pub Quiet : {A : Type 0} → Object → Act A → Type 0
  Quiet message m = Performs message m (λ a ss. ss ≡ [])

  module _ (message : Object) {A : Type 0} {Q : A → List Text → Type 0} where
    pub Performs-pure : (a : A) → Q a [] → Performs message (pure a) Q
    Performs-pure a q = Runs-pure a ([], q, Does-nothing json services config message)

    pub Performs-ask : (f : World → A) → ((w : World) → Q (f w) []) → Performs message (ask f) Q
    Performs-ask f q = Runs-ask f (λ w. ([], q w, Does-nothing json services config message))

    pub Performs-call :
        (e : Event) (f : World → A)
        → is_set e ≡ false
        → Permitted json services config message e
        → ((w : World) → Q (f w) [])
        → Performs message (call e f) Q
    Performs-call e f calm p q =
        Runs-call e f λ w. ([], q w, record { marks = quiet e calm start; permitted = (p, tt) })

  module _ (message : Object) {A B : Type 0} {Q : B → List Text → Type 0} where
    pub Performs-bind :
        {Mid : A → List Text → Type 0} (m : Act A) (f : A → Act B)
        → Performs message m Mid
        → ((a : A) (ss : List Text) → Mid a ss → Performs message (f a) (λ b ts. Q b (ts ++ ss)))
        → Performs message (m >>= f) Q
    Performs-bind m f pm pf = Runs-bind m f pm λ a first mid.
        let (ss, at_a, did) = mid in
        Runs-weaken (f a) (pf a ss at_a) λ b later post.
          let (ts, at_b, did') = post in (ts ++ ss, at_b, Does-append json services config did' did)

    pub Quiet-bind :
        (m : Act A) (f : A → Act B)
        → Quiet message m
        → ((a : A) → Performs message (f a) Q)
        → Performs message (m >>= f) Q
    Quiet-bind m f pm pf = Performs-bind m f pm λ a ss none_written.
        Runs-weaken (f a) (pf a) λ b later post.
          let (ts, at_b, did) = post in (ts, rw (none_written, append-nil ts) at_b, did)

  module _ (message : Object) {A B : Type 0} {Q : Expected B → List Text → Type 0} where
    -- An early return with the error writes nothing more.
    pub Quiet-bind_ok :
        (m : Act (Expected A)) (f : A → Act (Expected B))
        → Quiet message m
        → ((e : Text) → Q (unexpected e) [])
        → ((a : A) → Performs message (f a) Q)
        → Performs message (m >>=? f) Q
    Quiet-bind_ok m f pm failed pf = Quiet-bind message m (λ r. on_ok r f) pm rest
      where
        rest : (r : Expected A) → Performs message (on_ok r f) Q
        rest (ok a) = pf a
        rest (unexpected e) = Performs-pure message (unexpected e) (failed e)

  -- A status that is written for the message's own job, where the updates leave it.
  pub set_job_status-Performs :
      (message : Object) (status : Text) (updates : Object)
      → find updates (bytes "status") ≡ none
      → Performs message
          (set_job_status json services config
            (text_at json message (bytes "job_id"))
            status
            updates)
          (λ _ ss. ss ≡ status ∷ [])
  unfolding set_job_status ◌>>=◌
  set_job_status-Performs message status updates free =
      let job_id = text_at json message (bytes "job_id") in
      record {
        at = λ w.
            let document =
              merge_status json (stored_document json (services.get w job_id)) job_id status updates
                (services.current_utc_timestamp
                  (record w { trace = redis_get job_id ∷ w.trace })) in
            (
              redis_set job_id (serialize document) config.redis_ttl_sec ∷ redis_get job_id ∷ [],
              refl,
              (
                status ∷ [],
                refl,
                record {
                  marks =
                      wrote document status config.redis_ttl_sec
                        (find-merge_status json _ job_id status updates _ (bytes "status")
                          ∙ rw free)
                        (quiet (redis_get job_id) refl start);
                  permitted = ((refl, refl), (refl, tt));
                },
              ),
            );
      }

  pub is_terminal_status-Quiet :
      (message : Object)
      → Quiet message (is_terminal_status json services (text_at json message (bytes "job_id")))
  unfolding is_terminal_status
  is_terminal_status-Quiet message =
      Quiet-bind message _ _ (Performs-call message _ _ refl refl (λ w. refl))
        (λ r. Performs-pure message _ refl)

  pub remove-Quiet :
      (message : Object) (dlq : TaskDlq) (job_id : Text)
      → Quiet message (remove services dlq job_id)
  unfolding remove
  remove-Quiet message dlq job_id = record {
    at = λ w. ([], ground arith, ([], refl, Does-nothing json services config message));
  }

  pub record_failure-Quiet :
      (message : Object) (dlq : TaskDlq) (job_id body reason : Text) (inbound : ℤ)
      → Quiet message (record_failure json services dlq job_id body reason inbound)
  unfolding record_failure
  record_failure-Quiet message dlq job_id body reason inbound = record {
    at = λ w. ([], ground arith, ([], refl, Does-nothing json services config message));
  }
