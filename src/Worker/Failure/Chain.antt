-- ===== src/Worker/Failure/Chain.antt =====
-- The retries of one job as a chain of messages, each sent while the one before it was handled.
use mathlib.Core.List.{append_cancel_right}
use mathlib.Core.Path.{subst}
use yirang_taskforge.Prelude.{
  ℕ, zero, suc, ◌+◌, ◌≤◌, ◌<◌, ◌^◌, ◌≡◌, refl, sym, ◌∙◌, ◌++◌, ◌⊎◌, inl, inr, List, [], ◌∷◌, All,
  Text, bytes, c_str, ℤ, pos, negsuc, ◌≤ℤ◌, ◌<ℤ◌, arith,
}
use yirang_taskforge.Json.{Json}
use yirang_taskforge.World.{World, Services, Event, sqs_send}
use yirang_taskforge.Configurations.{Configurations}
use yirang_taskforge.Worker.Failure.{republish_of, inbound_try_count, handle_processing_failure}
use yirang_taskforge.Worker.Failure.Retry.{
  HasRoom, IsRetry, republish-read_back, handle_processing_failure-IsRetry,
}
use yirang_taskforge.Worker.Effects.{In}

All-In {κ} : {A : Type 0} (P : A → Type κ) (a : A) (xs : List A) → All P xs → In a xs → P a
All-In P a [] h m = absurd m
All-In P a (x ∷ xs) h (inl e) = subst P (sym e) h.0
All-In P a (x ∷ xs) h (inr m) = All-In P a xs h.1 m

-- A count above a natural number is one.
above_natural : (k : ℕ) (m : ℤ) → pos k <ℤ m → (n : ℕ) × (m ≡ pos n) × (k < n)
above_natural k (pos n) h = (n, refl, omega arith)
above_natural k (negsuc n) h = absurd (omega arith)

module _ (json : Json) (services : Services) (config : Configurations) (job_id : Text) where
  open json use {Object, put, of_int, serialize, IsEncodable}

  -- `n` retries in a row: each is sent while the failure of the message before it is handled, in any
  -- world. Each of those messages is encodable with any count, and there is room to count.
  pub data Retries : ℕ → Text → Type 0 where
    stays : (body : Text) → Retries 0 body
    retried :
        {n : ℕ} (body next reason group dedup : Text) (w : World) (new : List Event)
        → HasRoom json services config w job_id body reason
        → ((m : ℤ)
            → IsEncodable (put (republish_of json job_id body) (bytes "dlq_try_count") (of_int m)))
        → (handle_processing_failure json services config job_id body reason w).1.trace
          ≡ new ++ w.trace
        → In (sqs_send next group dedup) new
        → Retries n next
        → Retries (suc n) body

  sent-IsRetry :
      (body next reason group dedup : Text) (w : World) (new : List Event)
      → HasRoom json services config w job_id body reason
      → (handle_processing_failure json services config job_id body reason w).1.trace
        ≡ new ++ w.trace
      → In (sqs_send next group dedup) new
      → IsRetry json services config job_id
          (republish_of json job_id body)
          (sqs_send next group dedup)
  sent-IsRetry body next reason group dedup w new room traced sent =
      let (found, e, retries) =
        handle_processing_failure-IsRetry json services config w job_id body reason room in
      let same : found ≡ new = append_cancel_right found new w.trace (sym e ∙ traced) in
      All-In _ (sqs_send next group dedup) new (rw same at retries) sent

  at_most :
      (m : ℤ) (i limit : ℕ)
      → m ≡ pos i
      → config.dlq_max_retry_count ≡ pos limit
      → m ≤ℤ config.dlq_max_retry_count
      → i ≤ limit
  at_most m i limit natural most h = ground arith

  read_count :
      (republish : Object) (next : Text) (m : ℤ) (i : ℕ)
      → m ≡ pos i
      → i < 2 ^ 31
      → IsEncodable (put republish (bytes "dlq_try_count") (of_int m))
      → next ≡ c_str (serialize (put republish (bytes "dlq_try_count") (of_int m)))
      → inbound_try_count json (republish_of json job_id next) ≡ pos i
  read_count republish next m i natural small fits sent_as =
      let (arrived, counted, others) =
        republish-read_back json job_id republish m (rw natural small) fits in
      rw (sent_as, arrived, counted) natural

  -- The retries of a job end: a message with a count of `k` is followed by at most as many retries
  -- as the limit, a natural number in the range of `int`, leaves above `k`; each message of the
  -- chain is encodable, and there is room to count.
  pub Retries-bounded :
      (limit n k : ℕ) (body : Text)
      → config.dlq_max_retry_count ≡ pos limit
      → limit < 2 ^ 31
      → Retries n body
      → inbound_try_count json (republish_of json job_id body) ≡ pos k
      → (n ≡ 0) ⊎ (k + n ≤ limit)
  Retries-bounded limit zero k body most small (stays _) counted = inl refl
  Retries-bounded limit (suc n) k body most small
        (retried _ next reason group dedup w new room fits traced sent rest) counted =
      let (m, sent_as, id, above, below) =
        sent-IsRetry body next reason group dedup w new room traced sent in
      let (i, natural, larger) = above_natural k m (rw counted at above) in
      let le : i ≤ limit = at_most m i limit natural most below in
      let count : inbound_try_count json (republish_of json job_id next) ≡ pos i =
        read_count (republish_of json job_id body) next m i natural (omega arith) (fits m)
          sent_as in
      elim (Retries-bounded limit n i next most small rest count) [
        | inl last ↦ inr (omega arith)
        | inr more ↦ inr (omega arith)
      ]
