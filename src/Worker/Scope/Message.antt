-- ===== src/Worker/Scope/Message.antt =====
-- The temporary directory while a message is handled.
use yirang_taskforge.Prelude.{
  ◌≡◌, ap, sym, ◌∙◌, ◌++◌, append_assoc, Bool, false, inl, inr, Option, Option-cases, none, some,
  List, [], ◌∷◌, Text, bytes, Expected, ok, unexpected, All,
}
use yirang_taskforge.Json.{Json, string_at}
use yirang_taskforge.MessageValidation.{validate_request, is_valid_job_id}
use yirang_taskforge.World.{
  World, Services, Event, create_directories, remove_all, Act, pure, call, ◌>>=◌,
}
use yirang_taskforge.World.Trace.{
  Runs, Runs-if, Runs-bind, Runs-weaken, Emits, Emits-pure, Emits-bind,
}
use yirang_taskforge.Configurations.{Configurations}
use yirang_taskforge.TaskExecutor.{TaskDefinition}
use yirang_taskforge.Worker.Transfer.{text_at, temp_root, inputs, outputs, with_temp_dir}
use yirang_taskforge.Worker.Process.{
  process_found, process_job, drop_invalid, after_process, handle_object, handle_message,
}
use yirang_taskforge.Worker.Process.Redelivery.{handle_message-object}
use yirang_taskforge.Worker.Scope.{
  IsFree, IsInner, Scoped, unopened, free, opened, used, closed, append-used,
}
use yirang_taskforge.Worker.Scope.Calls.{
  set_job_status-free, is_terminal_status-free, fail_without_retry-free,
  handle_processing_failure-free, run_job-IsInner,
}

Scoped-append :
    {root : Text} {es fs : List Event} {open_ : Bool}
    → Scoped root es open_
    → Scoped root fs false
    → Scoped root (es ++ fs) open_
Scoped-append unopened t = t
Scoped-append (free e h s) t = free e h (Scoped-append s t)
Scoped-append (opened s) t = opened (Scoped-append s t)
Scoped-append (used e h s) t = used e h (Scoped-append s t)
Scoped-append (closed s) t = closed (Scoped-append s t)

All-Scoped : (root : Text) (new : List Event) → All IsFree new → Scoped root new false
All-Scoped root [] h = unopened
All-Scoped root (e ∷ new) h = free e h.0 (All-Scoped root new h.1)

abbrev Scopes : {A : Type 0} → Text → Act A → Type 0
Scopes root m = Runs m (λ _ new. Scoped root new false)

module _ (root : Text) {A : Type 0} where
  free-Scopes : (m : Act A) → Emits IsFree m → Scopes root m
  free-Scopes m h = Runs-weaken m h λ a new all. All-Scoped root new all

  bind-Scopes :
      {B : Type 0} (m : Act A) (f : A → Act B)
      → Scopes root m
      → ((a : A) → Scopes root (f a))
      → Scopes root (m >>= f)
  bind-Scopes m f sm sf =
      Runs-bind m f sm λ a first s. Runs-weaken (f a) (sf a) λ b later t. Scoped-append t s

  with_temp_dir-Scopes : (body : Act A) → Emits IsInner body → Scopes root (with_temp_dir root body)
  unfolding with_temp_dir call pure ◌>>=◌
  with_temp_dir-Scopes body h = record {
    at = λ w.
        let start = create_directories (outputs root) ∷ create_directories (inputs root) ∷ [] in
        let (new, e, inner) = h.at (record w {
          trace = create_directories (outputs root) ∷ create_directories (inputs root) ∷ w.trace;
        }) in
        (
          remove_all root ∷ new ++ start,
          ap (λ t. remove_all root ∷ t) (e ∙ sym (append_assoc new start w.trace)),
          closed (append-used new inner (opened unopened)),
        );
  }

module _ (json : Json) (services : Services) (config : Configurations)
    (message : Json.Object json) where
  open json use {Value, Object, parse, as_object?}

  abbrev job : Text
  job = text_at json message (bytes "job_id")

  abbrev root : Text
  root = temp_root services job

  process_found-Scopes :
      (found : Option TaskDefinition)
      → Scopes root (process_found json services config job message found)
  unfolding process_found
  process_found-Scopes none = free-Scopes root _ (
      Emits-bind _ _ (fail_without_retry-free IsFree (λ e h. h) json services config job message _)
        λ _. Emits-pure _)
  process_found-Scopes (some definition) =
      bind-Scopes root _ _
        (free-Scopes root _ (set_job_status-free IsFree (λ e h. h) json services config _ _ _))
        λ _.
          with_temp_dir-Scopes root _
            (run_job-IsInner json services config job message definition root)

  process_job-Scopes : Scopes root (process_job json services config message)
  unfolding process_job
  process_job-Scopes =
      bind-Scopes root _ _
        (free-Scopes root _ (is_terminal_status-free IsFree (λ e h. h) json services config job))
        λ terminal.
          Runs-if terminal _ _ (λ _. free-Scopes root _ (Emits-pure _))
            (λ _. process_found-Scopes _)

  after_process-Scopes :
      (body : Text) (r : Expected (Unit {0}))
      → Scopes root (after_process json services config message body r)
  unfolding after_process
  after_process-Scopes body (ok _) = free-Scopes root _ (Emits-pure _)
  after_process-Scopes body (unexpected e) = free-Scopes root _ (
      Emits-bind _ _
        (handle_processing_failure-free IsFree (λ e h. h) json services config job body e)
        λ _. Emits-pure _)

  drop_invalid-IsFree :
      (error : Text) → Emits IsFree (drop_invalid json services config message error)
  unfolding drop_invalid
  drop_invalid-IsFree error = elim (Option-cases (string_at json message (bytes "job_id"))) [
    | inl e ↦ rw (e, drop_invalid) (Emits-pure _)
    | inr (id, e) ↦
        rw (e, drop_invalid)
          (Runs-if (is_valid_job_id id) _ _
            (λ _. set_job_status-free IsFree (λ e h. h) json services config _ _ _)
            (λ _. Emits-pure _))
  ]

  handle_object-Scopes :
      (body : Text) (validated : Expected (Unit {0}))
      → Scopes root (handle_object json services config message body validated)
  unfolding handle_object
  handle_object-Scopes body (unexpected error) =
      free-Scopes root _ (Emits-bind _ _ (drop_invalid-IsFree error) λ _. Emits-pure _)
  handle_object-Scopes body (ok _) =
      bind-Scopes root _ _ process_job-Scopes λ r. after_process-Scopes body r

  -- While a message whose body parses to an object is handled, the calls on the job's temporary
  -- directory are in order, whatever fails: both of its parts are created before any download, upload,
  -- opening of the output file or start of the task, and none of these is made after the removal of
  -- its root; and that removal is called for at the end of every scope that was opened.
  pub handle_message-Scoped :
      (body : Text) (v : Value) (w : World)
      → parse body ≡ some v
      → as_object? v ≡ some message
      → (new : List Event) × ((handle_message json services config body w).1.trace ≡ new ++ w.trace)
        × Scoped root new false
  handle_message-Scoped body v w parsed object =
      rw (handle_message-object json services config body v message parsed object)
        ((handle_object-Scopes body (validate_request json message)).at w)
