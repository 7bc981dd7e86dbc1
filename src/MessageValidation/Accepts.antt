-- ===== src/MessageValidation/Accepts.antt =====
-- `validate_request` accepts exactly the requests of the schema.
use yirang_taskforge.Prelude.{
  ◌≡◌, refl, ◌↔◌, inl, inr, true, Option, none, some, Option-cases, List, [], ◌∷◌, Text, bytes,
  text_eq_iff, is_some, all, All, arith, ok, >>-eq-ok, guard-eq-ok,
}
use yirang_taskforge.Json.{Json, string_at, array_at, object_at}
use yirang_taskforge.MessageValidation.{
  has_text, validate_job_id, validate_mode, validate_arguments, validate_timeout, validate_task,
  validate_entry, validate_entries, validate_downloads, validate_request,
}
use yirang_taskforge.MessageValidation.JobId.{IsJobId, is_valid_job_id_iff}
use yirang_taskforge.MessageValidation.Schema.{HasText, HasArguments, IsTask, IsDownload, IsRequest}

is_some-eq_some {ℓ} : {A : Type ℓ} (o : Option A) → is_some o ≡ true → (a : A) × (o ≡ some a)
is_some-eq_some none h = cc
is_some-eq_some (some a) h = (a, refl)

module _ (json : Json) where
  open json use {Value, Object, find, as_string?, as_array?, as_object?, as_int64?}

  has_text-HasText : (o : Object) (k : Text) → has_text json o k ≡ true → HasText json o k
  unfolding has_text
  has_text-HasText o k h = elim (Option-cases (string_at json o k)) [
    | inl e ↦ absurd (ground arith)
    | inr (s, e) ↦ record { text = s; found = e; non_empty = ground arith }
  ]

  HasText-has_text : (o : Object) (k : Text) → HasText json o k → has_text json o k ≡ true
  unfolding has_text
  HasText-has_text o k h = let e = h.found in let n = h.non_empty in ground arith

  validate_job_id_sound :
      (m : Object)
      → validate_job_id json m ≡ ok tt
      → (s : Text) × (string_at json m (bytes "job_id") ≡ some s) × IsJobId s
  unfolding validate_job_id
  validate_job_id_sound m h = elim (Option-cases (string_at json m (bytes "job_id"))) [
    | inl e ↦ absurd (ground arith)
    | inr (s, e) ↦ (s, e, (is_valid_job_id_iff s).0 (ground arith))
  ]

  validate_mode_iff :
      (m : Object)
      → (validate_mode json m ≡ ok tt) ↔ (string_at json m (bytes "mode") ≡ some (bytes "execute"))
  unfolding validate_mode
  validate_mode_iff m = elim (Option-cases (string_at json m (bytes "mode"))) [
    | inl e ↦ ground arith
    | inr (s, e) ↦ ground (arith, text_eq_iff s (bytes "execute"))
  ]

  validate_job_id_complete :
      (m : Object) {s : Text}
      → string_at json m (bytes "job_id") ≡ some s
      → IsJobId s
      → validate_job_id json m ≡ ok tt
  unfolding validate_job_id
  validate_job_id_complete m {s} e v =
      let valid = (is_valid_job_id_iff s).1 v in
      let n = v.non_empty in rw (e, validate_job_id) (ground arith)

  all_strings_iff :
      (vs : List Value)
      → (all (λ a. is_some (as_string? a)) vs ≡ true)
        ↔ All (λ a. (s : Text) × (as_string? a ≡ some s)) vs
  all_strings_iff [] = ((λ _. tt), (λ _. refl))
  all_strings_iff (v ∷ vs) = elim (Option-cases (as_string? v)) [
    | inl e ↦ ((λ h. absurd (ground arith)), (λ h. absurd (cc (h.0.1))))
    | inr (s, e) ↦ (
      (λ h. ((s, e), (all_strings_iff vs).0 (rw e at h))),
      (λ h. rw e ((all_strings_iff vs).1 h.1)),
    )
  ]

  validate_arguments_sound :
      (task : Object) → validate_arguments json task ≡ ok tt → HasArguments json task
  unfolding validate_arguments
  validate_arguments_sound task h = record {
    strings = λ v e. elim (Option-cases (as_array? v)) [
      | inl no_array ↦ absurd (ground arith)
      | inr (vs, is_array) ↦ (
        vs,
        is_array,
        (all_strings_iff vs).0 (guard-eq-ok _ _ (rw (e, validate_arguments, is_array) at h)),
      )
    ];
  }

  validate_arguments_complete :
      (task : Object) → HasArguments json task → validate_arguments json task ≡ ok tt
  unfolding validate_arguments
  validate_arguments_complete task h = elim (Option-cases (find task (bytes "arguments"))) [
    | inl e ↦ rw (e, validate_arguments)
    | inr (v, e) ↦
        let (vs, is_array, strings) = h.strings v e in
        rw (e, validate_arguments, is_array, (all_strings_iff vs).1 strings)
  ]

  validate_timeout_iff :
      (task : Object)
      → (validate_timeout json task ≡ ok tt)
        ↔ ((v : Value) → find task (bytes "timeout_sec") ≡ some v → is_some (as_int64? v) ≡ true)
  unfolding validate_timeout
  validate_timeout_iff task = (
    (λ h v e. guard-eq-ok _ _ (rw (e, validate_timeout) at h)),
    (λ h. elim (Option-cases (find task (bytes "timeout_sec"))) [
      | inl e ↦ rw (e, validate_timeout)
      | inr (v, e) ↦ rw (e, validate_timeout, h v e)
    ]),
  )

  validate_task_sound :
      (m : Object)
      → validate_task json m ≡ ok tt
      → (task : Object) × (object_at json m (bytes "task") ≡ some task) × IsTask json task
  unfolding validate_task
  validate_task_sound m h = elim (Option-cases (object_at json m (bytes "task"))) [
    | inl e ↦ absurd (ground arith)
    | inr (task, e) ↦
        let (named, more) = >>-eq-ok _ _ (rw (e, validate_task) at h) in
        let (arguments, timeout) = >>-eq-ok _ _ more in
        (
          task,
          e,
          record {
            name = has_text-HasText task (bytes "name") (guard-eq-ok _ _ named);
            arguments = validate_arguments_sound task arguments;
            timeout_sec = (validate_timeout_iff task).0 timeout;
          },
        )
  ]

  validate_task_complete :
      (m : Object) {task : Object}
      → object_at json m (bytes "task") ≡ some task
      → IsTask json task
      → validate_task json m ≡ ok tt
  unfolding validate_task
  validate_task_complete m {task} e t = rw (
    e,
    validate_task,
    HasText-has_text task (bytes "name") t.name,
    validate_arguments_complete task t.arguments,
    (validate_timeout_iff task).1 t.timeout_sec,
  )

  validate_entry_sound : (v : Value) → validate_entry json v ≡ ok tt → IsDownload json v
  unfolding validate_entry
  validate_entry_sound v h = elim (Option-cases (as_object? v)) [
    | inl e ↦ absurd (ground arith)
    | inr (o, e) ↦
        let (bucket, more) = >>-eq-ok _ _ (rw (e, validate_entry) at h) in
        let (key, method) = >>-eq-ok _ _ more in
        record {
          object = o;
          is_object = e;
          bucket = has_text-HasText o (bytes "bucket") (guard-eq-ok _ _ bucket);
          key = has_text-HasText o (bytes "key") (guard-eq-ok _ _ key);
          method = guard-eq-ok _ _ method;
        }
  ]

  validate_entry_complete : (v : Value) → IsDownload json v → validate_entry json v ≡ ok tt
  unfolding validate_entry
  validate_entry_complete v d = rw (
    d.is_object,
    validate_entry,
    HasText-has_text d.object (bytes "bucket") d.bucket,
    HasText-has_text d.object (bytes "key") d.key,
    d.method,
  )

  validate_entries_iff :
      (vs : List Value) → (validate_entries json vs ≡ ok tt) ↔ All (IsDownload json) vs
  unfolding validate_entries
  validate_entries_iff [] = ((λ _. tt), (λ _. refl))
  validate_entries_iff (v ∷ vs) = (
    (λ h.
        let (here, later) = >>-eq-ok _ _ h in
        (validate_entry_sound v here, (validate_entries_iff vs).0 later)),
    (λ h. rw (validate_entry_complete v h.0) ((validate_entries_iff vs).1 h.1)),
  )

  validate_downloads_sound :
      (m : Object)
      → validate_downloads json m ≡ ok tt
      → (vs : List Value) × (array_at json m (bytes "download_s3") ≡ some vs)
        × All (IsDownload json) vs
  unfolding validate_downloads
  validate_downloads_sound m h = elim (Option-cases (array_at json m (bytes "download_s3"))) [
    | inl e ↦ absurd (ground arith)
    | inr (vs, e) ↦ (vs, e, (validate_entries_iff vs).0 (rw (e, validate_downloads) at h))
  ]

  pub validate_request_sound : (m : Object) → validate_request json m ≡ ok tt → IsRequest json m
  unfolding validate_request
  validate_request_sound m h =
      let (id_ok, more1) = >>-eq-ok _ _ h in
      let (mode_ok, more2) = >>-eq-ok _ _ more1 in
      let (task_ok, more3) = >>-eq-ok _ _ more2 in
      let (downloads_ok, prefix_ok) = >>-eq-ok _ _ more3 in
      let (id, id_found, id_valid) = validate_job_id_sound m id_ok in
      let (t, t_found, t_valid) = validate_task_sound m task_ok in
      let (vs, vs_found, vs_valid) = validate_downloads_sound m downloads_ok in
      record {
        job_id = id;
        job_id_found = id_found;
        job_id_valid = id_valid;
        mode = (validate_mode_iff m).0 mode_ok;
        task = t;
        task_found = t_found;
        task_valid = t_valid;
        downloads = vs;
        downloads_found = vs_found;
        downloads_valid = vs_valid;
        output_prefix = has_text-HasText m (bytes "output_prefix") (guard-eq-ok _ _ prefix_ok);
      }

  pub validate_request_complete : (m : Object) → IsRequest json m → validate_request json m ≡ ok tt
  unfolding validate_request validate_downloads
  validate_request_complete m r = rw (
    validate_job_id_complete m r.job_id_found r.job_id_valid,
    (validate_mode_iff m).1 r.mode,
    validate_task_complete m r.task_found r.task_valid,
    r.downloads_found,
    validate_downloads,
    (validate_entries_iff r.downloads).1 r.downloads_valid,
    HasText-has_text m (bytes "output_prefix") r.output_prefix,
  )

  -- `validate_request` accepts a message exactly when it meets the schema: a job id of 1 to 64
  -- letters, digits, `-` and `_`; the mode "execute"; a task object with a non-empty name, arguments
  -- (if any) that are an array of strings and a timeout (if any) that is an integer; an array of
  -- downloads, each an object with a non-empty bucket and key and a method that is a string; and a
  -- non-empty output prefix.
  pub validate_request_iff : (m : Object) → (validate_request json m ≡ ok tt) ↔ IsRequest json m
  validate_request_iff m = (validate_request_sound m, validate_request_complete m)
