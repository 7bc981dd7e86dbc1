-- ===== src/Worker/Process/Accesses.antt =====
-- The accesses of `process_job` and `download_inputs` to the message as they are in the source, where
-- `at` and the `as_` functions throw, beside the total accessors that stand for them elsewhere.
use yirang_taskforge.Prelude.{
  ◌≡◌, refl, true, Option, none, some, Option-cases, inl, inr, is_some, List, [], ◌∷◌, Text, bytes,
  c_str, ℤ, pos, to_int32, map, All, Expected, ok, unexpected, ◌>>=◌, arith,
}
use yirang_taskforge.Json.{Json, string_at, int64_at, array_at, object_at}
use yirang_taskforge.MessageValidation.{validate_request}
use yirang_taskforge.MessageValidation.Schema.{HasArguments, IsDownload}
use yirang_taskforge.MessageValidation.Accepts.{validate_request_iff}
use yirang_taskforge.Worker.Transfer.{text_at, list_at, object_of}
use yirang_taskforge.Worker.Process.{task_of, argument_text, arguments_of, timeout_of}

-- What is read of a message.
pub record Request : Type 0 where
  pub job_id : Text
  pub task_name : Text
  pub arguments : List Text
  pub timeout_sec : ℤ
  pub downloads : List (Text × Text)
  pub output_prefix : Text

-- The error of an access that throws.
abbrev thrown {ℓ} : {A : Type ℓ} → Expected A
thrown = unexpected (bytes "exception")

abbrev or_throw {ℓ} : {A : Type ℓ} → Option A → Expected A
or_throw none = thrown
or_throw (some a) = ok a

module _ (json : Json) where
  open json use {Value, Object, find, as_string?, as_int64?, as_array?, as_object?}

  -- `object.at(key).as_string().c_str()`
  unfoldable pub string_of : Value → Expected Text
  string_of v = or_throw (as_string? v) >>= λ s. ok (c_str s)

  unfoldable pub string_under : Object → Text → Expected Text
  string_under o k = or_throw (find o k) >>= λ v. string_of v

  unfoldable pub strings_of : List Value → Expected (List Text)
  strings_of [] = ok []
  strings_of (v ∷ vs) = string_of v >>= λ s. strings_of vs >>= λ ss. ok (s ∷ ss)

  unfoldable pub arguments_under : Object → Expected (List Text)
  arguments_under task = elim (find task (bytes "arguments")) [
    | none ↦ ok []
    | some v ↦ or_throw (as_array? v) >>= λ vs. strings_of vs
  ]

  unfoldable pub timeout_under : Object → Expected ℤ
  timeout_under task = elim (find task (bytes "timeout_sec")) [
    | none ↦ ok (pos 0)
    | some v ↦ or_throw (as_int64? v) >>= λ n. ok (to_int32 n)
  ]

  unfoldable pub download_of : Value → Expected (Text × Text)
  download_of entry = do
    o ← or_throw (as_object? entry)
    bucket ← string_under o (bytes "bucket")
    key ← string_under o (bytes "key")
    ok (bucket, key)

  unfoldable pub downloads_of : List Value → Expected (List (Text × Text))
  downloads_of [] = ok []
  downloads_of (entry ∷ rest) = download_of entry >>= λ d. downloads_of rest >>= λ ds. ok (d ∷ ds)

  -- The accesses of one message, in their order.
  unfoldable pub read_request : Object → Expected Request
  read_request message = do
    job_id ← string_under message (bytes "job_id")
    task_value ← or_throw (find message (bytes "task"))
    task ← or_throw (as_object? task_value)
    task_name ← string_under task (bytes "name")
    entries_value ← or_throw (find message (bytes "download_s3"))
    entries ← or_throw (as_array? entries_value)
    downloads ← downloads_of entries
    arguments ← arguments_under task
    timeout_sec ← timeout_under task
    output_prefix ← string_under message (bytes "output_prefix")
    ok (record {
      job_id = job_id;
      task_name = task_name;
      arguments = arguments;
      timeout_sec = timeout_sec;
      downloads = downloads;
      output_prefix = output_prefix;
    })

  abbrev download_at : Value → Text × Text
  download_at entry = (
    text_at json (object_of json entry) (bytes "bucket"),
    text_at json (object_of json entry) (bytes "key"),
  )

  -- What the model reads.
  abbrev pub request_at : Object → Request
  request_at message = record {
    job_id = text_at json message (bytes "job_id");
    task_name = text_at json (task_of json message) (bytes "name");
    arguments = arguments_of json (task_of json message);
    timeout_sec = timeout_of json (task_of json message);
    downloads = map download_at (list_at json message (bytes "download_s3"));
    output_prefix = text_at json message (bytes "output_prefix");
  }

  string_under-text_at :
      (o : Object) (k s : Text)
      → string_at json o k ≡ some s
      → string_under o k ≡ ok (text_at json o k)
  unfolding string_under string_of text_at string_at
  string_under-text_at o k s h = ground arith

  strings_of-map :
      (vs : List Value)
      → All (λ a. (s : Text) × (as_string? a ≡ some s)) vs
      → strings_of vs ≡ ok (map (argument_text json) vs)
  unfolding strings_of string_of argument_text
  strings_of-map [] h = refl
  strings_of-map (v ∷ vs) h = let (s, e) = h.0 in rw (e, strings_of-map vs h.1, argument_text)

  arguments_under-arguments_of :
      (task : Object) → HasArguments json task → arguments_under task ≡ ok (arguments_of json task)
  unfolding arguments_under arguments_of list_at array_at
  arguments_under-arguments_of task h = elim (Option-cases (find task (bytes "arguments"))) [
    | inl e ↦ rw (e, arguments_under, arguments_of, list_at)
    | inr (v, e) ↦
        let (vs, array, strings) = h.strings v e in
        rw (e, arguments_under, array, arguments_of, list_at) (strings_of-map vs strings)
  ]

  timeout_under-timeout_of :
      (task : Object)
      → ((v : Value) → find task (bytes "timeout_sec") ≡ some v → is_some (as_int64? v) ≡ true)
      → timeout_under task ≡ ok (timeout_of json task)
  unfolding timeout_under timeout_of int64_at
  timeout_under-timeout_of task h = elim (Option-cases (find task (bytes "timeout_sec"))) [
    | inl e ↦ ground arith
    | inr (v, e) ↦ let integer = h v e in ground arith
  ]

  downloads_of-map :
      (entries : List Value)
      → All (IsDownload json) entries
      → downloads_of entries ≡ ok (map download_at entries)
  unfolding downloads_of download_of object_of
  downloads_of-map [] h = refl
  downloads_of-map (entry ∷ rest) h =
      let d = h.0 in
      rw (
        d.is_object,
        object_of,
        string_under-text_at d.object (bytes "bucket") d.bucket.text d.bucket.found,
        string_under-text_at d.object (bytes "key") d.key.text d.key.found,
        downloads_of-map rest h.1,
      )

  object_at-eq-some :
      (o p : Object) (k : Text)
      → object_at json o k ≡ some p
      → (v : Value) × (find o k ≡ some v) × (as_object? v ≡ some p)
  unfolding object_at
  object_at-eq-some o p k h = elim (Option-cases (find o k)) [
    | inl e ↦ absurd (ground arith)
    | inr (v, e) ↦ (v, e, ground arith)
  ]

  array_at-eq-some :
      (o : Object) (vs : List Value) (k : Text)
      → array_at json o k ≡ some vs
      → (v : Value) × (find o k ≡ some v) × (as_array? v ≡ some vs)
  unfolding array_at
  array_at-eq-some o vs k h = elim (Option-cases (find o k)) [
    | inl e ↦ absurd (ground arith)
    | inr (v, e) ↦ (v, e, ground arith)
  ]

  task_of-found :
      (message task : Object)
      → object_at json message (bytes "task") ≡ some task
      → task_of json message ≡ task
  unfolding task_of
  task_of-found message task h = rw (h, task_of)

  list_at-found :
      (message : Object) (vs : List Value) (k : Text)
      → array_at json message k ≡ some vs
      → list_at json message k ≡ vs
  unfolding list_at
  list_at-found message vs k h = rw (h, list_at)

  -- No access to a message that passed the check throws: each key is there with the kind that its
  -- `as_` function wants, and what is read is what the model reads.
  pub read_request-ok :
      (message : Object)
      → validate_request json message ≡ ok tt
      → read_request message ≡ ok (request_at message)
  unfolding read_request
  read_request-ok message valid =
      let r = (validate_request_iff json message).0 valid in
      let (v, task_there, task_object) =
        object_at-eq-some message r.task (bytes "task") r.task_found in
      let (e, entries_there, entries_array) =
        array_at-eq-some message r.downloads (bytes "download_s3") r.downloads_found in
      let output = r.output_prefix in
      rw (
        task_of-found message r.task r.task_found,
        list_at-found message r.downloads (bytes "download_s3") r.downloads_found,
        string_under-text_at message (bytes "job_id") r.job_id r.job_id_found,
        task_there,
        task_object,
        string_under-text_at r.task (bytes "name") r.task_valid.name.text r.task_valid.name.found,
        entries_there,
        entries_array,
        downloads_of-map r.downloads r.downloads_valid,
        arguments_under-arguments_of r.task r.task_valid.arguments,
        timeout_under-timeout_of r.task r.task_valid.timeout_sec,
        string_under-text_at message (bytes "output_prefix") output.text output.found,
      )
