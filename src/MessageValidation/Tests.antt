-- ===== src/MessageValidation/Tests.antt =====
-- Tests and witnesses of the message check.
use yirang_taskforge.Prelude.{◌≡◌, refl, ◌↔◌, true, false, Text, bytes, ok, unexpected}
use yirang_taskforge.Json.{lookup, string_at, object_at, array_at}
use yirang_taskforge.Json.Tree.{
  tree_json, as_string?, as_int64?, as_array?, as_object?, of_fields, of_items,
}
use yirang_taskforge.MessageValidation.{
  is_valid_job_id, has_text, validate_job_id, validate_mode, validate_arguments, validate_timeout,
  validate_task, validate_entry, validate_entries, validate_downloads, validate_request,
}
use yirang_taskforge.MessageValidation.Schema.{IsRequest}
use yirang_taskforge.MessageValidation.Accepts.{validate_request_iff}
use yirang_taskforge.Samples.{request, invalid_request}

job_ids : (is_valid_job_id (bytes "job-1") ≡ true) × (is_valid_job_id (bytes "../x") ≡ false)
unfolding is_valid_job_id
job_ids = (refl, refl)

pub request-valid : validate_request tree_json request ≡ ok tt
unfolding validate_request validate_job_id validate_mode validate_arguments validate_timeout
    validate_task validate_entry validate_entries validate_downloads has_text is_valid_job_id
    string_at object_at array_at lookup as_string? as_int64? as_array? as_object? of_fields of_items
request-valid = refl

pub request-invalid :
    validate_request tree_json invalid_request ≡ unexpected (bytes "unsupported mode: inspect")
unfolding validate_request validate_job_id validate_mode is_valid_job_id string_at lookup as_string?
    yirang_taskforge.Prelude.c_str
request-invalid = refl

validate_request_iff_example :
    (validate_request tree_json request ≡ ok tt) ↔ IsRequest tree_json request
validate_request_iff_example = validate_request_iff tree_json request
