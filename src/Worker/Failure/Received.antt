-- ===== src/Worker/Failure/Received.antt =====
-- A retry from its sending to its receipt.
use yirang_taskforge.Prelude.{
  ◌≡◌, ◌++◌, false, List, [], ◌∷◌, All, Option-cases, inl, inr, Text, bytes, text_eq, ℤ, pos,
  negsuc, to_int32-FitsInt32, FitsInt32, ◌≤ℤ◌, ◌<ℤ◌, arith,
}
use yirang_taskforge.Json.{Json, int64_at}
use yirang_taskforge.World.{World, Services, Event, sqs_send}
use yirang_taskforge.Configurations.{Configurations}
use yirang_taskforge.Worker.Failure.{
  dedup_id, republish_of, inbound_try_count, handle_processing_failure,
}
use yirang_taskforge.Worker.Failure.Retry.{
  HasRoom, IsRetry, republish-read_back, handle_processing_failure-IsRetry,
}

FitsInt32-between : (a n b : ℤ) → FitsInt32 a → a <ℤ n → n ≤ℤ b → FitsInt32 b → FitsInt32 n
FitsInt32-between (pos a) (pos n) (pos b) low above below high = omega arith
FitsInt32-between (pos a) (pos n) (negsuc b) low above below high = omega arith
FitsInt32-between (negsuc a) (pos n) (pos b) low above below high = omega arith
FitsInt32-between (negsuc a) (pos n) (negsuc b) low above below high = omega arith
FitsInt32-between (pos a) (negsuc n) (pos b) low above below high = omega arith
FitsInt32-between (pos a) (negsuc n) (negsuc b) low above below high = omega arith
FitsInt32-between (negsuc a) (negsuc n) (pos b) low above below high = omega arith
FitsInt32-between (negsuc a) (negsuc n) (negsuc b) low above below high = omega arith

module _ (json : Json) where
  open json use {Object, find, put, of_int, serialize, IsEncodable}

  inbound_try_count-FitsInt32 : (o : Object) → FitsInt32 (inbound_try_count json o)
  unfolding inbound_try_count
  inbound_try_count-FitsInt32 o = elim (Option-cases (int64_at json o (bytes "dlq_try_count"))) [
    | inl e ↦ rw (e, inbound_try_count) (omega arith)
    | inr (n, e) ↦ rw (e, inbound_try_count) (to_int32-FitsInt32 n)
  ]

module _ (json : Json) (services : Services) (config : Configurations) (w : World)
    (job_id body reason : Text) where
  open json use {Object, find, put, of_int, serialize, IsEncodable}

  abbrev failed_message : Object
  failed_message = republish_of json job_id body

  -- The worker that receives what is sent reads the failed message again: with the count that the
  -- deduplication id names, above the one that it came with and at most the limit, and with every
  -- other field as it was.
  abbrev pub IsReceived : Event → Type 0
  IsReceived (sqs_send sent group dedup) =
      (n : ℤ) × (dedup ≡ dedup_id job_id n)
      × (inbound_try_count json (republish_of json job_id sent) ≡ n)
      × (inbound_try_count json failed_message <ℤ n)
      × (n ≤ℤ config.dlq_max_retry_count)
      × ((k : Text)
          → text_eq (bytes "dlq_try_count") k ≡ false
          → find (republish_of json job_id sent) k ≡ find failed_message k)
  IsReceived _ = Unit

  received :
      (e : Event)
      → FitsInt32 config.dlq_max_retry_count
      → ((n : ℤ) → IsEncodable (put failed_message (bytes "dlq_try_count") (of_int n)))
      → IsRetry json services config job_id failed_message e
      → IsReceived e
  received (sqs_send sent group dedup) limit fits (n, is_body, is_dedup, above, below) =
      let small =
        FitsInt32-between (inbound_try_count json failed_message) n config.dlq_max_retry_count
          (inbound_try_count-FitsInt32 json failed_message) above below limit in
      let (read, counted, others) =
        republish-read_back json job_id failed_message n small (fits n) in
      rw is_body (n, is_dedup, rw read counted, above, below, λ k other. rw read (others k other))
  received _ limit fits h = tt

  All-IsReceived :
      (new : List Event)
      → FitsInt32 config.dlq_max_retry_count
      → ((n : ℤ) → IsEncodable (put failed_message (bytes "dlq_try_count") (of_int n)))
      → All (IsRetry json services config job_id failed_message) new
      → All IsReceived new
  All-IsReceived [] limit fits h = tt
  All-IsReceived (e ∷ new) limit fits h =
      (received e limit fits h.0, All-IsReceived new limit fits h.1)

  -- What handling a failure sends for a retry is received as the failed message: its count reads back
  -- as the one under whose id it was sent, above the count that the message came with and at most the
  -- limit; and every other field is that of the failed message. This holds if there is room to count,
  -- the limit is an `int`, and the failed message is encodable with any count.
  pub handle_processing_failure-IsReceived :
      HasRoom json services config w job_id body reason
      → FitsInt32 config.dlq_max_retry_count
      → ((n : ℤ) → IsEncodable (put failed_message (bytes "dlq_try_count") (of_int n)))
      → (new : List Event) × ((handle_processing_failure json services config job_id body reason
            w).1.trace
          ≡ new ++ w.trace)
        × All IsReceived new
  handle_processing_failure-IsReceived room limit fits =
      let (new, e, retries) =
        handle_processing_failure-IsRetry json services config w job_id body reason room in
      (new, e, All-IsReceived new limit fits retries)
