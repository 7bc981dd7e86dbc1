-- ===== src/Worker/Entries/Keeps.antt =====
-- What leaves the DLQ directory as it is: all that a job does before it is finished.
use yirang_taskforge.Prelude.{
  ℕ, zero, suc, refl, not, List, [], ◌∷◌, Text, ℤ, succ32, Expected, ok, unexpected,
}
use yirang_taskforge.Json.{Json}
use yirang_taskforge.World.{
  World, Event, Services, OutputEntry, Directory, Act, pure, ask, call, ◌>>=◌,
}
use yirang_taskforge.Configurations.{Configurations}
use yirang_taskforge.TaskExecutor.{TaskDefinition, TaskExecutor, execute}
use yirang_taskforge.Worker.Backoff.{backoff_with_jitter, sleep_backoff}
use yirang_taskforge.Worker.Status.{is_terminal_status, set_job_status}
use yirang_taskforge.Worker.Transfer.{
  or_retry, with_temp_dir, download_attempts, download_entries, download_inputs, upload_file,
  upload_entries, upload_outputs,
}
use yirang_taskforge.Worker.Process.{run_task}
use yirang_taskforge.Worker.Entries.{
  Turns, Keeps, Turns-pure, Turns-ask, Turns-call, Turns-if, Turns-bind, Turns-bind_ok,
}

module _ {ℓ} {A : Type ℓ} where
  Keeps-pure : (a : A) → Keeps (pure a)
  Keeps-pure a = Turns-pure a λ d. refl

  Keeps-ask : (f : World → A) → Keeps (ask f)
  Keeps-ask f = Turns-ask f λ a d. refl

  pub Keeps-call : (e : Event) (f : World → A) → Keeps (call e f)
  Keeps-call e f = Turns-call e f λ a d. refl

  -- The scope of the temporary directory does to the DLQ what its body does.
  pub with_temp_dir-Turns {κ} :
      {Post : A → Directory → Directory → Type κ} (root : Text) (body : Act A)
      → Turns body Post
      → Turns (with_temp_dir root body) Post
  unfolding with_temp_dir ◌>>=◌ pure call
  with_temp_dir-Turns root body h = record { at = λ w. h.at _ }

module _ (services : Services) where
  pub sleep_backoff-Keeps :
      (attempt : ℤ) (base most : ℕ) → Keeps (sleep_backoff services attempt base most)
  unfolding sleep_backoff backoff_with_jitter
  sleep_backoff-Keeps attempt base most = Turns-bind _ _ (Keeps-ask _) λ delay. Keeps-call _ _

  or_retry-Keeps :
      (r : Expected (Unit {0})) (retry : Text → Act (Expected (Unit {0})))
      → ((e : Text) → Keeps (retry e))
      → Keeps (or_retry r retry)
  or_retry-Keeps (ok _) retry h = Keeps-pure _
  or_retry-Keeps (unexpected e) retry h = h e

  download_attempts-Keeps :
      (left : ℕ) (attempt : ℤ) (bucket key path error : Text)
      → Keeps (download_attempts services left attempt bucket key path error)
  unfolding download_attempts
  download_attempts-Keeps zero attempt bucket key path error = Keeps-pure _
  download_attempts-Keeps (suc left) attempt bucket key path error =
      Turns-bind _ _ (Keeps-call _ _) λ r. or_retry-Keeps r _ λ e.
        Turns-bind _ _ (sleep_backoff-Keeps attempt _ _)
          λ _. download_attempts-Keeps left (succ32 attempt) bucket key path e

  execute-Keeps :
      (executor : TaskExecutor) (task : TaskDefinition) (arguments : List Text)
      (inputs_dir outputs_dir stdout_path : Text) (timeout_sec : ℤ)
      → Keeps
          (execute services executor task arguments inputs_dir outputs_dir stdout_path timeout_sec)
  unfolding execute
  execute-Keeps executor task arguments inputs_dir outputs_dir stdout_path timeout_sec =
      Turns-bind _ _ (Keeps-ask _) λ regular. Turns-if (not regular) _ _ (Keeps-pure _) (
        Turns-bind _ _ (Keeps-call _ _) λ opened.
          Turns-if (not opened) _ _ (Keeps-pure _)
            (Turns-bind _ _ (Keeps-call _ _) λ run. Keeps-ask _))

module _ (json : Json) (services : Services) (config : Configurations) where
  open json use {Value, Object}

  download_entries-Keeps :
      (entries : List Value) (dir : Text) → Keeps (download_entries json services entries dir)
  unfolding download_entries
  download_entries-Keeps [] dir = Keeps-pure _
  download_entries-Keeps (entry ∷ rest) dir =
      Turns-bind_ok _ _ (download_attempts-Keeps services _ _ _ _ _ _) (λ e d. refl)
        λ _. download_entries-Keeps rest dir

  pub download_inputs-Keeps :
      (message : Object) (dir : Text) → Keeps (download_inputs json services message dir)
  unfolding download_inputs
  download_inputs-Keeps message dir = download_entries-Keeps _ dir

  pub run_task-Keeps :
      (message : Object) (definition : TaskDefinition) (root : Text)
      → Keeps (run_task json services config message definition root)
  unfolding run_task
  run_task-Keeps message definition root =
      Turns-bind_ok _ _ (execute-Keeps services _ _ _ _ _ _ _) (λ e d. refl)
        λ executed. Keeps-pure _

  upload_entries-Keeps :
      (prefix dir : Text) (entries : List OutputEntry) (results : List Value)
      → Keeps (upload_entries json services config prefix dir entries results)
  unfolding upload_entries upload_file
  upload_entries-Keeps prefix dir [] results = Keeps-pure _
  upload_entries-Keeps prefix dir (entry ∷ rest) results =
      Turns-if (not entry.is_regular_file) _ _ (upload_entries-Keeps prefix dir rest results) (
        Turns-bind_ok _ _ (Turns-bind_ok _ _ (Keeps-call _ _) (λ e d. refl) λ _. Keeps-call _ _)
          (λ e d. refl) λ url. upload_entries-Keeps prefix dir rest _)

  pub upload_outputs-Keeps :
      (prefix dir : Text) → Keeps (upload_outputs json services config prefix dir)
  unfolding upload_outputs
  upload_outputs-Keeps prefix dir = Turns-bind _ _ (Keeps-ask _) λ entries.
      Turns-bind _ _ (Keeps-ask _) λ error.
        Turns-bind_ok _ _ (upload_entries-Keeps prefix dir entries []) (λ e d. refl)
          λ results. Keeps-pure _

  pub set_job_status-Keeps :
      (job_id status : Text) (updates : Object)
      → Keeps (set_job_status json services config job_id status updates)
  unfolding set_job_status ◌>>=◌
  set_job_status-Keeps job_id status updates = record { at = λ w. refl }

  pub is_terminal_status-Keeps : (job_id : Text) → Keeps (is_terminal_status json services job_id)
  unfolding is_terminal_status
  is_terminal_status-Keeps job_id = Turns-bind _ _ (Keeps-call _ _) λ r. Keeps-pure _
