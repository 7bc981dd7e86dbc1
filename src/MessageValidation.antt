-- ===== src/MessageValidation.antt =====
-- Main/MessageValidation.cpp and .h: the schema check of a request message, check by check in the
-- source's order.
pub mod JobId
pub mod Schema
pub mod Accepts
pub mod Tests
use yirang_taskforge.Prelude.{
  ℕ, ◌++◌, ◌≡◌, Bool, true, false, ◌&&◌, ◌||◌, not, Option, none, some, List, [], ◌∷◌, Text, bytes,
  text_eq, c_str, length, is_empty, is_some, all, leb, ◌==◌, if◌then◌else◌, Expected, ok,
  unexpected, ◌>>=◌, ◌>>◌, guard,
}
use yirang_taskforge.Json.{Json, string_at, int64_at, array_at, object_at}

abbrev pub job_id_max_length : ℕ
job_id_max_length = 64

unfoldable pub is_job_id_char : ℕ → Bool
is_job_id_char c =
    (leb b'a' c && leb c b'z')
    || (leb b'A' c && leb c b'Z')
    || (leb b'0' c && leb c b'9')
    || c == b'-'
    || c == b'_'

unfoldable pub is_valid_job_id : Text → Bool
unfolding is_job_id_char
is_valid_job_id job_id =
    if is_empty job_id || not (leb (length job_id) job_id_max_length)
    then false
    else all is_job_id_char job_id

module _ (json : Json) where
  open json use {Value, Object, find, as_string?, as_array?, as_object?, as_int64?}

  -- `contains(k) && at(k).is_string() && !at(k).as_string().empty()`
  unfoldable pub has_text : Object → Text → Bool
  has_text o k = elim (string_at json o k) [ none ↦ false | some s ↦ not (is_empty s) ]

  unfoldable pub validate_job_id : Object → Expected (Unit {0})
  validate_job_id message = elim (string_at json message (bytes "job_id")) [
    | none ↦ unexpected (bytes "job_id is required and must be a non-empty string")
    | some job_id ↦
        if is_empty job_id
        then unexpected (bytes "job_id is required and must be a non-empty string")
        else guard (is_valid_job_id job_id) (bytes "job_id must match [A-Za-z0-9_-]{1,64}")
  ]

  unfoldable pub validate_mode : Object → Expected (Unit {0})
  validate_mode message = elim (string_at json message (bytes "mode")) [
    | none ↦ unexpected (bytes "mode is required and must be a string")
    | some mode ↦ guard (text_eq mode (bytes "execute")) (bytes "unsupported mode: " ++ c_str mode)
  ]

  unfoldable pub validate_arguments : Object → Expected (Unit {0})
  validate_arguments task = elim (find task (bytes "arguments")) [
    | none ↦ ok tt
    | some v ↦ elim (as_array? v) [
      | none ↦ unexpected (bytes "task.arguments must be an array of strings")
      | some arguments ↦
          guard (all (λ a. is_some (as_string? a)) arguments)
            (bytes "task.arguments must contain only strings")
    ]
  ]

  unfoldable pub validate_timeout : Object → Expected (Unit {0})
  validate_timeout task = elim (find task (bytes "timeout_sec")) [
    | none ↦ ok tt
    | some v ↦ guard (is_some (as_int64? v)) (bytes "task.timeout_sec must be an integer")
  ]

  unfoldable pub validate_task : Object → Expected (Unit {0})
  validate_task message = elim (object_at json message (bytes "task")) [
    | none ↦ unexpected (bytes "task is required and must be an object")
    | some task ↦ do
      guard (has_text task (bytes "name"))
          (bytes "task.name is required and must be a non-empty string")
      validate_arguments task
      validate_timeout task
  ]

  unfoldable pub validate_entry : Value → Expected (Unit {0})
  validate_entry entry = elim (as_object? entry) [
    | none ↦ unexpected (bytes "download_s3 entries must be objects")
    | some o ↦ do
      guard (has_text o (bytes "bucket"))
          (bytes "download_s3.bucket is required and must be a non-empty string")
      guard (has_text o (bytes "key"))
          (bytes "download_s3.key is required and must be a non-empty string")
      guard (is_some (string_at json o (bytes "method")))
          (bytes "download_s3.method is required and must be a string")
  ]

  unfoldable pub validate_entries : List Value → Expected (Unit {0})
  validate_entries [] = ok tt
  validate_entries (entry ∷ rest) = do validate_entry entry; validate_entries rest

  unfoldable pub validate_downloads : Object → Expected (Unit {0})
  validate_downloads message = elim (array_at json message (bytes "download_s3")) [
    | none ↦ unexpected (bytes "download_s3 is required and must be an array")
    | some entries ↦ validate_entries entries
  ]

  unfoldable pub validate_request : Object → Expected (Unit {0})
  validate_request message = do
    validate_job_id message
    validate_mode message
    validate_task message
    validate_downloads message
    guard (has_text message (bytes "output_prefix"))
        (bytes "output_prefix is required and must be a non-empty string")
