-- ===== src/Worker/Failure/Retry.antt =====
-- The retries: what is republished, how its count grows, and when it ends.
use mathlib.Core.List.{append_cancel_left}
use yirang_taskforge.Prelude.{
  ℕ, ◌≡◌, refl, ap, ◌∙◌, ◌++◌, Bool, true, false, not, List, [], ◌∷◌, All, Text, bytes, text_eq,
  c_str, ℤ, pos, ◌≤ℤ◌, ◌<ℤ◌, FitsInt32, to_int32_of_FitsInt32, Expected, ok, unexpected, arith,
}
use yirang_taskforge.Prelude.Decimal.{int_text, decimal_injective}
use yirang_taskforge.Json.{Json, int64_at}
use yirang_taskforge.World.{World, Services, Event, redis_get, sqs_send, ◌>>=◌}
use yirang_taskforge.World.Trace.{Emits, Runs-if, Emits-bind, Emits-pure, Emits-ask, Emits-call}
use yirang_taskforge.Configurations.{Configurations}
use yirang_taskforge.TaskDlq.{TaskDlq, can_retry, remove, record_failure, previous_try_count}
use yirang_taskforge.TaskDlq.Record.{int_max, record_failure-increases}
use yirang_taskforge.Worker.Backoff.{backoff_with_jitter, sleep_backoff}
use yirang_taskforge.Worker.Status.{set_job_status}
use yirang_taskforge.Worker.Failure.{
  dlq_of, dedup_id, republish_of, inbound_try_count, give_up, give_up_unrecorded, after_send,
  requeue, after_record, handle_processing_failure,
}

int_text_injective : (n m : ℕ) → int_text (pos n) ≡ int_text (pos m) → n ≡ m
unfolding int_text
int_text_injective n m e = decimal_injective n m e

-- Two retries of one job with different counts, which are natural numbers, have different
-- deduplication ids.
dedup_id_injective :
    (job_id : Text) (n m : ℕ) → dedup_id job_id (pos n) ≡ dedup_id job_id (pos m) → n ≡ m
unfolding dedup_id
dedup_id_injective job_id n m e = int_text_injective n m (
    append_cancel_left (bytes "-retry-") (int_text (pos n)) (int_text (pos m)) (
      append_cancel_left job_id (bytes "-retry-" ++ int_text (pos n))
        (bytes "-retry-" ++ int_text (pos m)) e))

module _ (json : Json) where
  open json use {Object, find, put, of_int, serialize, IsEncodable, find-put}

  -- A republished message, if it is encodable, is received as it was sent; its count is read back,
  -- and every other field is that of the message that failed.
  pub republish-read_back :
      (job_id : Text) (message : Object) (n : ℤ)
      → FitsInt32 n
      → IsEncodable (put message (bytes "dlq_try_count") (of_int n))
      → (republish_of json job_id
            (c_str (serialize (put message (bytes "dlq_try_count") (of_int n))))
          ≡ put message (bytes "dlq_try_count") (of_int n))
        × (inbound_try_count json (put message (bytes "dlq_try_count") (of_int n)) ≡ n)
        × ((k : Text)
            → text_eq (bytes "dlq_try_count") k ≡ false
            → find (put message (bytes "dlq_try_count") (of_int n)) k ≡ find message k)
  unfolding republish_of inbound_try_count int64_at
  republish-read_back job_id message n small fits = (
    rw (
      json.c_str-serialize,
      republish_of,
      json.parse-serialize _ fits,
      republish_of,
      json.as_object?-of_object,
    ),
    rw (inbound_try_count, int64_at, find-put, json.as_int64?-of_int, inbound_try_count)
        (to_int32_of_FitsInt32 n small),
    λ k other. rw (find-put, other),
  )

module _ (json : Json) (services : Services) (config : Configurations) (job_id : Text)
    (republish : Json.Object json) where
  open json use {Object, put, of_int, serialize}

  -- Only a retry is sent: the failed message with a count above the one that it came with, at most
  -- the configured limit, under the id of that count.
  abbrev pub IsRetry : Event → Type 0
  IsRetry (sqs_send body group dedup) =
      (n : ℤ) × (body ≡ c_str (serialize (put republish (bytes "dlq_try_count") (of_int n))))
      × (dedup ≡ dedup_id job_id n)
      × (inbound_try_count json republish <ℤ n)
      × (n ≤ℤ config.dlq_max_retry_count)
  IsRetry _ = Unit

  set_job_status-IsRetry :
      (status : Text) (updates : Object)
      → Emits IsRetry (set_job_status json services config job_id status updates)
  unfolding set_job_status
  set_job_status-IsRetry status updates = Emits-bind _ _ (Emits-call _ _ tt) λ existing.
      Emits-bind _ _ (Emits-ask _) λ now. Emits-bind _ _ (Emits-call _ _ tt) λ saved. Emits-pure tt

  remove-IsRetry : Emits IsRetry (remove services (dlq_of config) job_id)
  unfolding remove
  remove-IsRetry = record { at = λ w. ([], ground arith, tt) }

  give_up-IsRetry :
      (fields : Object) (reason : Text) (n : ℤ)
      → Emits IsRetry (give_up json services config job_id fields reason n)
  unfolding give_up
  give_up-IsRetry fields reason n = Emits-bind _ _ remove-IsRetry (λ _. set_job_status-IsRetry _ _)

  after_send-IsRetry :
      (fields : Object) (reason : Text) (n : ℤ) (r : Expected (Unit {0}))
      → Emits IsRetry (after_send json services config job_id fields reason n r)
  unfolding after_send
  after_send-IsRetry fields reason n (unexpected e) = give_up-IsRetry fields _ n
  after_send-IsRetry fields reason n (ok tt) = set_job_status-IsRetry _ _

  requeue-IsRetry :
      (reason : Text) (n : ℤ)
      → inbound_try_count json republish <ℤ n
      → n ≤ℤ config.dlq_max_retry_count
      → Emits IsRetry (requeue json services config job_id republish reason n)
  unfolding requeue sleep_backoff backoff_with_jitter
  requeue-IsRetry reason n above below =
      Emits-bind _ _ (Emits-bind _ _ (Emits-ask _) (λ delay. Emits-call _ _ tt)) λ _.
        Emits-bind _ _ (Emits-call _ _ (n, refl, refl, above, below))
          λ r. after_send-IsRetry _ reason n r

  after_record-IsRetry :
      (reason : Text) (r : Expected ℤ)
      → ((n : ℤ) → r ≡ ok n → inbound_try_count json republish <ℤ n)
      → Emits IsRetry (after_record json services config job_id republish reason r)
  unfolding after_record can_retry give_up_unrecorded
  after_record-IsRetry reason (unexpected e) grown = set_job_status-IsRetry _ _
  after_record-IsRetry reason (ok n) grown =
      Runs-if (not (can_retry (dlq_of config) n)) _ _ (λ _. give_up-IsRetry republish reason n)
        λ may. requeue-IsRetry reason n (grown n refl) (ground arith)

pub trace-record_failure :
    (json : Json) (services : Services) (dlq : TaskDlq) (job_id body reason : Text) (inbound : ℤ)
    (w : World)
    → (record_failure json services dlq job_id body reason inbound w).1.trace ≡ w.trace
unfolding record_failure
trace-record_failure json services dlq job_id body reason inbound w = ground arith

abbrev pub is_send : Event → Bool
is_send (sqs_send body group dedup) = true
is_send _ = false

module _ (json : Json) (services : Services) (config : Configurations) (w : World)
    (job_id body reason : Text) where
  -- There is room to count: what the count goes on from is not the largest `int`.
  abbrev pub HasRoom : Type 0
  HasRoom =
      previous_try_count json services (dlq_of config) w job_id
        (inbound_try_count json (republish_of json job_id body))
      <ℤ pos int_max

  -- If there is room to count, handling a failure sends nothing but a retry of the failed message:
  -- with a count above the one that it came with and at most `dlq_max_retry_count`, and under the
  -- id of that count.
  pub handle_processing_failure-IsRetry :
      HasRoom
      → (new : List Event) × ((handle_processing_failure json services config job_id body reason
            w).1.trace
          ≡ new ++ w.trace)
        × All (IsRetry json services config job_id (republish_of json job_id body)) new
  unfolding handle_processing_failure ◌>>=◌
  handle_processing_failure-IsRetry room =
      let republish = republish_of json job_id body in
      let inbound = inbound_try_count json republish in
      let recorded = record_failure json services (dlq_of config) job_id body reason inbound w in
      let (new, e, retries) =
        (after_record-IsRetry json services config job_id republish reason recorded.0 λ n done.
            (record_failure-increases json services (dlq_of config) w job_id body reason inbound n
              room done).0).at
          recorded.1 in
      (
        new,
        e
            ∙ ap (λ t. new ++ t)
                (trace-record_failure json services (dlq_of config) job_id body reason inbound w),
        retries,
      )

  no_retry :
      config.dlq_max_retry_count ≤ℤ inbound_try_count json (republish_of json job_id body)
      → (new : List Event)
      → All (IsRetry json services config job_id (republish_of json job_id body)) new
      → All (λ e. is_send e ≡ false) new
  no_retry spent [] h = tt
  no_retry spent (sqs_send b g d ∷ new) h =
      absurd (let (n, eq, id, above, below) = h.0 in omega arith)
  no_retry spent (redis_get k ∷ new) h = (refl, no_retry spent new h.1)
  no_retry spent (_ ∷ new) h = (refl, no_retry spent new h.1)

  -- If there is room to count, a message whose count has reached `dlq_max_retry_count` is not sent
  -- again.
  handle_processing_failure-spent :
      HasRoom
      → config.dlq_max_retry_count ≤ℤ inbound_try_count json (republish_of json job_id body)
      → (new : List Event) × ((handle_processing_failure json services config job_id body reason
            w).1.trace
          ≡ new ++ w.trace)
        × All (λ e. is_send e ≡ false) new
  handle_processing_failure-spent room spent =
      let (new, e, retries) = handle_processing_failure-IsRetry room in
      (new, e, no_retry spent new retries)
