-- ===== src/Worker/Transfer.antt =====
-- The files of a job: `key_filename`, `TempDirGuard`, `download_inputs` and `upload_outputs` of
-- Main/TaskForgeWorker.cpp. A text that comes from `c_str()`, and a key made of such texts, holds no
-- NUL byte, so the conversions to `Aws::String` leave it as it is.
pub mod Keys
pub mod Attempts
pub mod Uploads
pub mod Tests
use yirang_taskforge.Prelude.{
  ℕ, zero, suc, ◌++◌, Bool, true, false, Option, none, some, List, [], ◌∷◌, Text, bytes, c_str, ℤ,
  pos, succ32, ◌==◌, if◌then◌else◌, Expected, ok, unexpected, not,
}
use yirang_taskforge.Json.{Json, string_at, array_at}
use yirang_taskforge.Paths.{◌/p◌}
use yirang_taskforge.World.{
  World, Services, OutputEntry, s3_download, s3_upload, s3_presign, create_directories, remove_all,
  Act, pure, ask, call, ◌>>=◌, ◌>>◌,
}
use yirang_taskforge.Configurations.{Configurations}
use yirang_taskforge.Worker.Backoff.{sleep_backoff}

abbrev pub s3_download_attempts : ℕ
s3_download_attempts = 3

abbrev pub download_base_delay_ms : ℕ
download_base_delay_ms = 500

abbrev pub download_max_delay_ms : ℕ
download_max_delay_ms = 4000

-- What stands behind the last slash.
unfoldable pub after_last_slash : Text → Option Text
after_last_slash [] = none
after_last_slash (c ∷ s) = elim (after_last_slash s) [
  | some name ↦ some name
  | none ↦ if c == b'/' then some s else none
]

unfoldable pub key_filename : Text → Text
key_filename object_key = elim (after_last_slash object_key) [
  | none ↦ object_key
  | some name ↦ name
]

-- `if (!x) return std::unexpected(x.error());`, and the rest with the value
abbrev pub on_ok {ℓ κ} :
    {A : Type ℓ} {B : Type κ} → Expected A → (A → Act (Expected B)) → Act (Expected B)
on_ok (ok a) f = f a
on_ok (unexpected e) f = pure (unexpected e)

infixl 5 ◌>>=?◌
abbrev pub ◌>>=?◌ {ℓ κ} :
    {A : Type ℓ} {B : Type κ} → Act (Expected A) → (A → Act (Expected B)) → Act (Expected B)
m >>=? f = m >>= λ r. on_ok r f

unfoldable pub temp_root : Services → Text → Text
temp_root services job_id = ◌/p◌ (◌/p◌ services.temp_directory_path (bytes "taskforge")) job_id

abbrev pub inputs : Text → Text
inputs root = ◌/p◌ root (bytes "inputs")

abbrev pub outputs : Text → Text
outputs root = ◌/p◌ root (bytes "outputs")

abbrev pub stdout_log : Text → Text
stdout_log root = ◌/p◌ root (bytes "stdout.log")

-- The constructor of the guard, the scope, and the destructor on every way out of the scope.
unfoldable pub with_temp_dir {ℓ} : {A : Type ℓ} → Text → Act A → Act A
with_temp_dir root body = do
  call (create_directories (inputs root)) (λ w. tt)
  call (create_directories (outputs root)) (λ w. tt)
  result ← body
  call (remove_all root) (λ w. tt)
  pure result

-- A success ends the loop; an error goes on to what follows the failed attempt.
abbrev pub or_retry :
    Expected (Unit {0}) → (Text → Act (Expected (Unit {0}))) → Act (Expected (Unit {0}))
or_retry (ok _) retry = pure (ok tt)
or_retry (unexpected error) retry = retry error

module _ (services : Services) where
  -- The attempts that are left, the number of the next one, and the last error.
  unfoldable pub download_attempts : ℕ → ℤ → Text → Text → Text → Text → Act (Expected (Unit {0}))
  download_attempts zero attempt bucket object_key local_path last_error =
      pure (
        unexpected (bytes "cannot download s3 object [" ++ object_key ++ bytes "]: " ++ last_error))
  download_attempts (suc left) attempt bucket object_key local_path last_error =
      call (s3_download bucket object_key local_path)
        (λ w. services.download_file w bucket object_key local_path)
      >>= λ downloaded. or_retry downloaded λ error.
        sleep_backoff services attempt download_base_delay_ms download_max_delay_ms
        >> download_attempts left (succ32 attempt) bucket object_key local_path error

module _ (json : Json) where
  open json use {Value, Object, as_object?, as_array?, empty, put, of_string, of_object}

  -- `at(key).as_string().c_str()` and its like: validation has seen the string, the array, the
  -- object, and without them the source throws.
  unfoldable pub text_at : Object → Text → Text
  text_at o k = elim (string_at json o k) [ none ↦ [] | some s ↦ c_str s ]

  unfoldable pub list_at : Object → Text → List Value
  list_at o k = elim (array_at json o k) [ none ↦ [] | some vs ↦ vs ]

  unfoldable pub object_of : Value → Object
  object_of v = elim (as_object? v) [ none ↦ empty | some o ↦ o ]

  unfoldable pub download_entries : Services → List Value → Text → Act (Expected (Unit {0}))
  download_entries services [] inputs_dir = pure (ok tt)
  download_entries services (entry ∷ rest) inputs_dir =
      let bucket = text_at (object_of entry) (bytes "bucket") in
      let object_key = text_at (object_of entry) (bytes "key") in
      download_attempts services s3_download_attempts (pos 1) bucket object_key
        (◌/p◌ inputs_dir (key_filename object_key)) []
      >>=? λ _. download_entries services rest inputs_dir

  unfoldable pub download_inputs : Services → Object → Text → Act (Expected (Unit {0}))
  download_inputs services message inputs_dir =
      download_entries services (list_at message (bytes "download_s3")) inputs_dir

  unfoldable pub result_entry : Text → Text → Value
  result_entry filename download_url =
      let named = put empty (bytes "filename") (of_string filename) in
      let linked = put named (bytes "download_url") (of_string download_url) in
      of_object (put linked (bytes "method") (of_string (bytes "GET")))

  -- "cannot … output [filename]: error"
  abbrev pub with_context : Text → Text → Expected Text → Expected Text
  with_context what filename (ok a) = ok a
  with_context what filename (unexpected e) =
      unexpected (bytes "cannot " ++ what ++ bytes " output [" ++ filename ++ bytes "]: " ++ e)

  abbrev pub done_with : Expected (Unit {0}) → Expected Text
  done_with (ok _) = ok []
  done_with (unexpected e) = unexpected e

  unfoldable pub upload_file : Services → Configurations → Text → Text → Text → Act (Expected Text)
  upload_file services config output_prefix outputs_dir filename =
      let object_key = output_prefix ++ filename in
      let local_path = ◌/p◌ outputs_dir filename in
      call (s3_upload config.s3_bucket object_key local_path) (λ w.
        with_context (bytes "upload") filename
          (done_with (services.upload_file w config.s3_bucket object_key local_path)))
      >>=? λ _. call (s3_presign config.s3_bucket object_key config.presign_ttl_sec) (λ w.
        with_context (bytes "presign") filename
          (services.generate_presigned_url w config.s3_bucket object_key config.presign_ttl_sec))

  unfoldable pub upload_entries :
      Services
      → Configurations
      → Text
      → Text
      → List OutputEntry
      → List Value
      → Act (Expected (List Value))
  upload_entries services config output_prefix outputs_dir [] results = pure (ok results)
  upload_entries services config output_prefix outputs_dir (entry ∷ rest) results =
      if not entry.is_regular_file
      then upload_entries services config output_prefix outputs_dir rest results
      else upload_file services config output_prefix outputs_dir entry.name >>=? λ url.
          upload_entries services config output_prefix outputs_dir rest
            (results ++ result_entry entry.name url ∷ [])

  -- The iteration's own error is looked at after the loop.
  abbrev pub iterated : Option Text → List Value → Expected (List Value)
  iterated none results = ok results
  iterated (some message) results =
      unexpected (bytes "cannot iterate outputs directory: " ++ message)

  unfoldable pub upload_outputs :
      Services → Configurations → Text → Text → Act (Expected (List Value))
  upload_outputs services config output_prefix outputs_dir = do
    entries ← ask (λ w. services.directory_entries w outputs_dir)
    error ← ask (λ w. services.directory_error w outputs_dir)
    upload_entries services config output_prefix outputs_dir entries [] >>=? λ results.
        pure (iterated error results)
