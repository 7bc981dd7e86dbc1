-- ===== src/Worker/Process/Rejections.antt =====
-- Messages that fail their job without a retry: an invalid one, and one for a task that is not
-- registered.
use yirang_taskforge.Prelude.{
  ◌≡◌, refl, ap, ◌∙◌, ◌⊎◌, inl, inr, Bool-cases, Option-cases, true, false, none, some, ◌∷◌, Text,
  bytes, c_str, ok, unexpected,
}
use yirang_taskforge.Json.{Json, string_at}
use yirang_taskforge.MessageValidation.{validate_request, is_valid_job_id}
use yirang_taskforge.MessageValidation.JobId.{IsJobId, is_valid_job_id_iff}
use yirang_taskforge.World.{World, Services, redis_get, redis_set, record_event, ◌>>=◌, pure}
use yirang_taskforge.Configurations.{Configurations}
use yirang_taskforge.Worker.Status.{merge_status, stored_document, set_job_status}
use yirang_taskforge.Worker.Status.Merge.{find-merge_status}
use yirang_taskforge.Worker.Failure.{failure_updates}
use yirang_taskforge.Worker.Process.{drop_invalid, handle_object, handle_message}
use yirang_taskforge.Worker.Process.Redelivery.{handle_message-object}
use yirang_taskforge.Worker.Effects.Failures.{failure_updates-status}
use yirang_taskforge.Worker.Entries.Keeps.{set_job_status-Keeps}

module _ (json : Json) (services : Services) (config : Configurations) where
  open json use {
    Value, Object, find, find-put, parse, as_object?, of_string, serialize, is_null-of_string,
  }

  -- Between the two worlds there are two calls of services: the job's document was read, and one with
  -- the status "failed" and the reason was written.
  pub record MarksFailed (job_id reason : Text) (first last : World) : Type 0 where
    pub document : Object
    pub traced :
        last.trace
        ≡ redis_set job_id (serialize document) config.redis_ttl_sec
          ∷ redis_get job_id
          ∷ first.trace
    pub status : find document (bytes "status") ≡ some (of_string (bytes "failed"))
    pub explained : find document (bytes "failure_reason") ≡ some (of_string reason)

  find-failure_updates :
      (message : Object) (reason : Text)
      → find (failure_updates json message reason) (bytes "failure_reason")
        ≡ some (of_string reason)
  unfolding failure_updates
  find-failure_updates message reason = simp (find-put)

  set_job_status-MarksFailed :
      (job_id reason : Text) (message : Object) (w : World)
      → MarksFailed job_id reason w
          (set_job_status json services config job_id
            (bytes "failed")
            (failure_updates json message reason)
            w).1
  unfolding set_job_status ◌>>=◌
  set_job_status-MarksFailed job_id reason message w =
      let before = stored_document json (services.get w job_id) in
      let now = services.current_utc_timestamp (record_event (redis_get job_id) w) in
      let updates = failure_updates json message reason in
      record {
        document = merge_status json before job_id (bytes "failed") updates now;
        traced = refl;
        status =
            find-merge_status json before job_id (bytes "failed") updates now (bytes "status")
            ∙ rw (failure_updates-status json message reason);
        explained =
            find-merge_status json before job_id (bytes "failed") updates now
              (bytes "failure_reason")
            ∙ rw (find-failure_updates message reason, is_null-of_string reason);
      }

  drop_invalid-unnamed :
      (message : Object) (reason : Text) (w : World)
      → string_at json message (bytes "job_id") ≡ none
      → drop_invalid json services config message reason w ≡ (tt, w)
  unfolding drop_invalid pure
  drop_invalid-unnamed message reason w e = rw (e, drop_invalid)

  drop_invalid-malformed :
      (message : Object) (reason id : Text) (w : World)
      → string_at json message (bytes "job_id") ≡ some id
      → is_valid_job_id id ≡ false
      → drop_invalid json services config message reason w ≡ (tt, w)
  unfolding drop_invalid pure
  drop_invalid-malformed message reason id w e bad = rw (e, drop_invalid, bad)

  drop_invalid-named :
      (message : Object) (reason id : Text) (w : World)
      → string_at json message (bytes "job_id") ≡ some id
      → is_valid_job_id id ≡ true
      → drop_invalid json services config message reason w
        ≡ set_job_status json services config
            (c_str id)
            (bytes "failed")
            (failure_updates json message reason)
            w
  unfolding drop_invalid
  drop_invalid-named message reason id w e good = rw (e, drop_invalid, good)

  -- The message names a job by a well-formed id, which is marked; or it names none, and nothing
  -- changes.
  abbrev pub Dropped : Object → Text → World → World → Type 0
  Dropped message reason first last =
      ((id : Text) × (string_at json message (bytes "job_id") ≡ some id)
        × IsJobId id
        × MarksFailed (c_str id) reason first last
        × (last.dlq ≡ first.dlq))
      ⊎ (((id : Text) → string_at json message (bytes "job_id") ≡ some id → ¬ IsJobId id)
          × (last ≡ first))

  drop_invalid-Dropped :
      (message : Object) (reason : Text) (w : World)
      → Dropped message reason w (drop_invalid json services config message reason w).1
  drop_invalid-Dropped message reason w =
      elim (Option-cases (string_at json message (bytes "job_id"))) [
        | inl unnamed ↦
            inr ((λ id e well. cc), ap (λ p. p.1) (drop_invalid-unnamed message reason w unnamed))
        | inr (id, named) ↦ elim (Bool-cases (is_valid_job_id id)) [
          | inl good ↦ rw (drop_invalid-named message reason id w named good) (
              inl (
                id,
                named,
                (is_valid_job_id_iff id).0 good,
                set_job_status-MarksFailed (c_str id) reason message w,
                (set_job_status-Keeps json services config _ _ _).at w,
              ))
          | inr bad ↦ inr (
            (λ other e well.
                let same : other ≡ id = cc in
                let good = (is_valid_job_id_iff other).1 well in
                absurd (let accepted = rw same at good in cc)),
            ap (λ p. p.1) (drop_invalid-malformed message reason id w named bad),
          )
        ]
      ]

  handled-invalid :
      (body : Text) (v : Value) (message : Object) (w : World) (reason : Text)
      → parse body ≡ some v
      → as_object? v ≡ some message
      → validate_request json message ≡ unexpected reason
      → handle_message json services config body w
        ≡ (ok tt, (drop_invalid json services config message reason w).1)
  unfolding handle_object ◌>>=◌ pure
  handled-invalid body v message w reason parsed object bad =
      rw (handle_message-object json services config body v message parsed object, bad)

  -- A message that fails the schema check is acknowledged. If its job id is a string of 1 to 64
  -- letters, digits, `-` and `_`, that job's document is read and written once, whatever its status
  -- was: with the status "failed" and the reason of the rejection; and the DLQ stays as it is. With
  -- any other job id nothing changes at all.
  pub handle_message-Dropped :
      (body : Text) (v : Value) (message : Object) (w : World) (reason : Text)
      → parse body ≡ some v
      → as_object? v ≡ some message
      → validate_request json message ≡ unexpected reason
      → ((handle_message json services config body w).0 ≡ ok tt)
        × Dropped message reason w (handle_message json services config body w).1
  handle_message-Dropped body v message w reason parsed object bad =
      rw (handled-invalid body v message w reason parsed object bad)
        (refl, drop_invalid-Dropped message reason w)
