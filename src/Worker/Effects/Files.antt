-- ===== src/Worker/Effects/Files.antt =====
-- The effects of the downloads, the run of the task, and the uploads.
use yirang_taskforge.Prelude.{
  ℕ, zero, suc, refl, inl, inr, not, List, [], ◌∷◌, Text, bytes, ℤ, pos, succ32, Expected, ok,
  unexpected, ◌≤ℤ◌, arith,
}
use yirang_taskforge.Json.{Json}
use yirang_taskforge.World.{Services, OutputEntry, s3_download, Act}
use yirang_taskforge.World.Trace.{Runs-if}
use yirang_taskforge.Configurations.{Configurations}
use yirang_taskforge.TaskExecutor.{effective_timeout}
use yirang_taskforge.Worker.Backoff.{backoff_with_jitter, sleep_backoff}
use yirang_taskforge.Worker.Transfer.{
  text_at, list_at, or_retry, download_attempts, download_entries, download_inputs, upload_file,
  upload_entries, upload_outputs, temp_root, inputs, outputs,
}
use yirang_taskforge.Worker.Effects.{In, Permitted}
use yirang_taskforge.Worker.Effects.Leaves.{
  Quiet, Performs-pure, Performs-ask, Performs-call, Quiet-bind, Quiet-bind_ok,
}

pub effective_timeout-le : (most requested : ℤ) → effective_timeout most requested ≤ℤ most
unfolding effective_timeout
effective_timeout-le most requested = ground arith

module _ (json : Json) (services : Services) (config : Configurations)
    (message : Json.Object json) where
  open json use {Object, Value}

  abbrev root : Text
  root = temp_root services (text_at json message (bytes "job_id"))

  pub sleep_backoff-Quiet :
      (attempt : ℤ) (base most : ℕ)
      → Quiet json services config message (sleep_backoff services attempt base most)
  unfolding sleep_backoff backoff_with_jitter
  sleep_backoff-Quiet attempt base most =
      Quiet-bind json services config message _ _
        (Performs-ask json services config message _ (λ w. refl))
        (λ delay. Performs-call json services config message _ _ refl tt (λ w. refl))

  or_retry-Quiet :
      (r : Expected (Unit {0})) (retry : Text → Act (Expected (Unit {0})))
      → ((e : Text) → Quiet json services config message (retry e))
      → Quiet json services config message (or_retry r retry)
  or_retry-Quiet (ok _) retry h = Performs-pure json services config message _ refl
  or_retry-Quiet (unexpected e) retry h = h e

  download_attempts-Quiet :
      (left : ℕ) (attempt : ℤ) (bucket key path error : Text)
      → Permitted json services config message (s3_download bucket key path)
      → Quiet json services config message
          (download_attempts services left attempt bucket key path error)
  unfolding download_attempts
  download_attempts-Quiet zero attempt bucket key path error p =
      Performs-pure json services config message _ refl
  download_attempts-Quiet (suc left) attempt bucket key path error p =
      Quiet-bind json services config message _ _
        (Performs-call json services config message _ _ refl p (λ w. refl))
        λ r. or_retry-Quiet r _ λ e.
          Quiet-bind json services config message _ _ (sleep_backoff-Quiet attempt 500 4000)
            λ _. download_attempts-Quiet left (succ32 attempt) bucket key path e p

  download_entries-Quiet :
      (entries : List Value)
      → ((entry : Value) → In entry entries → In entry (list_at json message (bytes "download_s3")))
      → Quiet json services config message (download_entries json services entries (inputs root))
  unfolding download_entries
  download_entries-Quiet [] among = Performs-pure json services config message _ refl
  download_entries-Quiet (entry ∷ rest) among =
      Quiet-bind_ok json services config message _ _
        (download_attempts-Quiet 3 (pos 1) _ _ _ []
          (entry, among entry (inl refl), refl, refl, refl))
        (λ e. refl) λ _. download_entries-Quiet rest (λ other i. among other (inr i))

  pub download_inputs-Quiet :
      Quiet json services config message (download_inputs json services message (inputs root))
  unfolding download_inputs
  download_inputs-Quiet = download_entries-Quiet _ (λ entry i. i)

  upload_file-Quiet :
      (name : Text)
      → Quiet json services config message (
          upload_file json services config
            (text_at json message (bytes "output_prefix"))
            (outputs root)
            name)
  unfolding upload_file
  upload_file-Quiet name =
      Quiet-bind_ok json services config message _ _
        (Performs-call json services config message _ _ refl (refl, (name, refl, refl)) (λ w. refl))
        (λ e. refl)
        λ _. Performs-call json services config message _ _ refl (refl, (name, refl)) (λ w. refl)

  upload_entries-Quiet :
      (entries : List OutputEntry) (results : List Value)
      → Quiet json services config message (
          upload_entries json services config
            (text_at json message (bytes "output_prefix"))
            (outputs root)
            entries
            results)
  unfolding upload_entries
  upload_entries-Quiet [] results = Performs-pure json services config message _ refl
  upload_entries-Quiet (entry ∷ rest) results =
      Runs-if (not entry.is_regular_file) _ _ (λ _. upload_entries-Quiet rest results)
        λ _.
          Quiet-bind_ok json services config message _ _ (upload_file-Quiet entry.name) (λ e. refl)
            λ url. upload_entries-Quiet rest _

  pub upload_outputs-Quiet : Quiet json services config message (
      upload_outputs json services config
        (text_at json message (bytes "output_prefix"))
        (outputs root))
  unfolding upload_outputs
  upload_outputs-Quiet =
      Quiet-bind json services config message _ _
        (Performs-ask json services config message _ (λ w. refl))
        λ entries.
          Quiet-bind json services config message _ _
            (Performs-ask json services config message _ (λ w. refl))
            λ error.
              Quiet-bind_ok json services config message _ _ (upload_entries-Quiet entries [])
                (λ e. refl) λ results. Performs-pure json services config message _ refl
