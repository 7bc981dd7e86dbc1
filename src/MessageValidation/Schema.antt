-- ===== src/MessageValidation/Schema.antt =====
-- The schema of a request message, stated apart from the code, and the agreement of the two.
use yirang_taskforge.Prelude.{◌≡◌, true, some, List, [], Text, bytes, is_some, All, ◌≢◌}
use yirang_taskforge.Json.{Json, string_at, array_at, object_at}
use yirang_taskforge.MessageValidation.{}
use yirang_taskforge.MessageValidation.JobId.{IsJobId}

module _ (json : Json) where
  open json use {Value, Object, find, as_string?, as_array?, as_object?, as_int64?}

  -- A non-empty string stands at the key.
  pub record HasText (o : Object) (k : Text) : Type 0 where
    pub text : Text
    pub found : string_at json o k ≡ some text
    pub non_empty : text ≢ []

  -- The arguments are absent, or an array of strings.
  pub record HasArguments (task : Object) : Type 0 where
    pub strings :
        (v : Value)
        → find task (bytes "arguments") ≡ some v
        → (vs : List Value) × (as_array? v ≡ some vs)
          × All (λ a. (s : Text) × (as_string? a ≡ some s)) vs

  pub record IsTask (task : Object) : Type 0 where
    pub name : HasText task (bytes "name")
    pub arguments : HasArguments task
    pub timeout_sec :
        (v : Value) → find task (bytes "timeout_sec") ≡ some v → is_some (as_int64? v) ≡ true

  pub record IsDownload (entry : Value) : Type 0 where
    pub object : Object
    pub is_object : as_object? entry ≡ some object
    pub bucket : HasText object (bytes "bucket")
    pub key : HasText object (bytes "key")
    pub method : is_some (string_at json object (bytes "method")) ≡ true

  pub record IsRequest (message : Object) : Type 0 where
    pub job_id : Text
    pub job_id_found : string_at json message (bytes "job_id") ≡ some job_id
    pub job_id_valid : IsJobId job_id
    pub mode : string_at json message (bytes "mode") ≡ some (bytes "execute")
    pub task : Object
    pub task_found : object_at json message (bytes "task") ≡ some task
    pub task_valid : IsTask task
    pub downloads : List Value
    pub downloads_found : array_at json message (bytes "download_s3") ≡ some downloads
    pub downloads_valid : All IsDownload downloads
    pub output_prefix : HasText message (bytes "output_prefix")
