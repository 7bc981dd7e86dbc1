-- ===== src/Configurations/Ranges.antt =====
-- The ranges that `validate_configuration` establishes.
use yirang_taskforge.Prelude.{
  ◌≡◌, refl, ◌≢◌, ◌↔◌, true, not, ◌||◌, List, [], ◌∷◌, Text, bytes, is_empty, ℤ, pos, ◌≤ℤ◌, ◌<ℤ◌,
  ltb_ℤ, leb_ℤ, Option, ok, >>-eq-ok, guard-eq-ok, arith,
}
use yirang_taskforge.Json.{Json}
use yirang_taskforge.Paths.{◌/p◌}
use yirang_taskforge.Configurations.{
  Configurations, ArgumentParser, reset_if, validate_required, validate_configuration,
  configurations,
}

pub record IsValid (c : Configurations) : Type 0 where
  pub redis_port_pos : pos 0 <ℤ c.redis_port
  pub redis_port_le : c.redis_port ≤ℤ pos 65535
  pub redis_ttl_nonneg : pos 0 ≤ℤ c.redis_ttl_sec
  pub wait_nonneg : pos 0 ≤ℤ c.sqs_wait_time_seconds
  pub wait_le : c.sqs_wait_time_seconds ≤ℤ pos 20
  pub visibility_pos : pos 0 <ℤ c.sqs_visibility_timeout
  pub messages_pos : pos 0 <ℤ c.sqs_max_number_of_messages
  pub messages_le : c.sqs_max_number_of_messages ≤ℤ pos 10
  pub presign_pos : pos 0 <ℤ c.presign_ttl_sec
  pub retries_nonneg : pos 0 ≤ℤ c.dlq_max_retry_count
  pub timeout_pos : pos 0 <ℤ c.default_timeout_sec
  pub high_nonneg : pos 0 ≤ℤ c.high_priority_count
  pub normal_nonneg : pos 0 ≤ℤ c.normal_priority_count
  pub low_nonneg : pos 0 ≤ℤ c.low_priority_count

-- A value that passes its test is kept.
kept_text : (fallback s : Text) → s ≢ [] → reset_if (is_empty s) fallback s ≡ s
kept_text fallback [] h = absurd (h refl)
kept_text fallback (b ∷ s) h = refl

kept_pos : (fallback z : ℤ) → pos 0 <ℤ z → reset_if (leb_ℤ z (pos 0)) fallback z ≡ z
kept_pos fallback z h = ground arith

kept_nonneg : (fallback z : ℤ) → pos 0 ≤ℤ z → reset_if (ltb_ℤ z (pos 0)) fallback z ≡ z
kept_nonneg fallback z h = ground arith

kept_between :
    (high fallback z : ℤ)
    → pos 0 <ℤ z
    → z ≤ℤ high
    → reset_if (leb_ℤ z (pos 0) || ltb_ℤ high z) fallback z ≡ z
kept_between high fallback z h k = ground arith

kept_within :
    (high fallback z : ℤ)
    → pos 0 ≤ℤ z
    → z ≤ℤ high
    → reset_if (ltb_ℤ z (pos 0) || ltb_ℤ high z) fallback z ≡ z
kept_within high fallback z h k = ground arith

pub validate_configuration-IsValid : (c : Configurations) → IsValid (validate_configuration c)
unfolding validate_configuration
validate_configuration-IsValid c = record {
  redis_port_pos = ground arith;
  redis_port_le = ground arith;
  redis_ttl_nonneg = ground arith;
  wait_nonneg = ground arith;
  wait_le = ground arith;
  visibility_pos = ground arith;
  messages_pos = ground arith;
  messages_le = ground arith;
  presign_pos = ground arith;
  retries_nonneg = ground arith;
  timeout_pos = ground arith;
  high_nonneg = ground arith;
  normal_nonneg = ground arith;
  low_nonneg = ground arith;
}

-- Settings that are in range, with both paths given, are left as they are.
validate_configuration_of_IsValid :
    (c : Configurations)
    → IsValid c
    → c.log_root_path ≢ []
    → c.dlq_path ≢ []
    → validate_configuration c ≡ c
unfolding validate_configuration
validate_configuration_of_IsValid c v log dlq =
    let log_kept = kept_text c.root_path c.log_root_path log in
    let dlq_kept = kept_text (◌/p◌ c.root_path (bytes "dlq")) c.dlq_path dlq in
    let port = kept_between (pos 65535) (pos 6379) c.redis_port v.redis_port_pos v.redis_port_le in
    let ttl = kept_nonneg (pos 3600) c.redis_ttl_sec v.redis_ttl_nonneg in
    let wait = kept_within (pos 20) (pos 5) c.sqs_wait_time_seconds v.wait_nonneg v.wait_le in
    let visibility = kept_pos (pos 60) c.sqs_visibility_timeout v.visibility_pos in
    let messages =
      kept_between (pos 10) (pos 1) c.sqs_max_number_of_messages v.messages_pos v.messages_le in
    let presign = kept_pos (pos 600) c.presign_ttl_sec v.presign_pos in
    let retries = kept_nonneg (pos 3) c.dlq_max_retry_count v.retries_nonneg in
    let timeout = kept_pos (pos 30) c.default_timeout_sec v.timeout_pos in
    let high = kept_nonneg (pos 1) c.high_priority_count v.high_nonneg in
    let normal = kept_nonneg (pos 2) c.normal_priority_count v.normal_nonneg in
    let low = kept_nonneg (pos 1) c.low_priority_count v.low_nonneg in
    λ i. record c {
      log_root_path = log_kept i;
      dlq_path = dlq_kept i;
      redis_port = port i;
      redis_ttl_sec = ttl i;
      sqs_wait_time_seconds = wait i;
      sqs_visibility_timeout = visibility i;
      sqs_max_number_of_messages = messages i;
      presign_ttl_sec = presign i;
      dlq_max_retry_count = retries i;
      default_timeout_sec = timeout i;
      high_priority_count = high i;
      normal_priority_count = normal i;
      low_priority_count = low i;
    }

-- Whatever the file and the command line hold, the settings of a constructed `Configurations` are in
-- range.
pub configurations-IsValid :
    (json : Json) (information : ℤ) (file : Text → Option Text) (arguments : ArgumentParser)
    → IsValid (configurations json information file arguments)
unfolding configurations
configurations-IsValid json information file arguments = validate_configuration-IsValid _

not_empty {ℓ} : {A : Type ℓ} (xs : List A) → not (is_empty xs) ≡ true → xs ≢ []
not_empty xs h e = cc (rw e at h)

given {ℓ} : {A : Type ℓ} (xs : List A) → xs ≢ [] → not (is_empty xs) ≡ true
given [] h = absurd (h refl)
given (x ∷ xs) h = refl

-- The start check passes exactly if the queue, the bucket and at least one task are configured.
pub validate_required_iff :
    (c : Configurations)
    → (validate_required c ≡ ok tt)
      ↔ ((c.sqs_request_queue_url ≢ []) × (c.s3_bucket ≢ []) × (c.task_whitelist ≢ []))
unfolding validate_required
validate_required_iff c = (
  (λ h.
      let (queue, more) = >>-eq-ok _ _ h in
      let (bucket, tasks) = >>-eq-ok _ _ more in
      (
        not_empty c.sqs_request_queue_url (guard-eq-ok _ _ queue),
        not_empty c.s3_bucket (guard-eq-ok _ _ bucket),
        not_empty c.task_whitelist (guard-eq-ok _ _ tasks),
      )),
  (λ h. rw (given c.sqs_request_queue_url h.0, given c.s3_bucket h.1, given c.task_whitelist h.2)),
)
