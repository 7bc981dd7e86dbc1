-- ===== src/Worker/Status.antt =====
-- The status documents in Redis: `contract_fields`, `set_job_status` and `is_terminal_status` of
-- Main/TaskForgeWorker.cpp.
pub mod Merge
pub mod Contract
use yirang_taskforge.Prelude.{
  ℕ, Bool, true, false, ◌||◌, Option, none, some, List, [], ◌∷◌, Text, bytes, text_eq, is_some,
  if◌then◌else◌, Expected, ok, unexpected,
}
use yirang_taskforge.Json.{Json, string_at, object_at}
use yirang_taskforge.World.{
  World, Services, redis_get, redis_set, Act, pure, ask, call, ◌>>=◌, ◌>>◌,
}
use yirang_taskforge.Configurations.{Configurations}

module _ (json : Json) where
  open json use {
    Value, Object, is_null, as_string?, as_object?, of_string, empty, find, put, erase, entries,
    parse, serialize,
  }

  -- The value at a key that holds a string, put under another key.
  unfoldable pub copy_string : Object → Text → Text → Object → Object
  copy_string source key target fields = elim (find source key) [
    | none ↦ fields
    | some v ↦ if is_some (as_string? v) then put fields target v else fields
  ]

  unfoldable pub task_field : Object → Object
  task_field message = elim (object_at json message (bytes "task")) [
    | none ↦ empty
    | some task ↦ copy_string task (bytes "name") (bytes "task_name") empty
  ]

  unfoldable pub contract_fields : Object → Object
  contract_fields message =
      copy_string message (bytes "enqueued_at") (bytes "enqueued_at") (task_field message)

  -- The document that a reply of Redis holds: a new one, if there is none or it does not parse to an
  -- object.
  unfoldable pub stored_document : Expected Text → Object
  stored_document (unexpected e) = empty
  stored_document (ok text) = elim (parse text) [
    | none ↦ empty
    | some parsed ↦ elim (as_object? parsed) [ none ↦ empty | some document ↦ document ]
  ]

  -- A null removes its field.
  unfoldable pub apply_updates : Object → List (Text × Value) → Object
  apply_updates document [] = document
  apply_updates document ((k, v) ∷ rest) =
      apply_updates (if is_null v then erase document k else put document k v) rest

  unfoldable pub merge_status : Object → Text → Text → Object → Text → Object
  merge_status document job_id status updates now =
      let named = put document (bytes "job_id") (of_string job_id) in
      let marked = put named (bytes "status") (of_string status) in
      put (apply_updates marked (entries updates)) (bytes "updated_at") (of_string now)

  -- `status == "done" || status == "failed"` of a document with a status that is a string
  unfoldable pub is_terminal_document : Object → Bool
  is_terminal_document document = elim (string_at json document (bytes "status")) [
    | none ↦ false
    | some status ↦ text_eq status (bytes "done") || text_eq status (bytes "failed")
  ]

  unfoldable pub is_terminal_reply : Expected Text → Bool
  is_terminal_reply (unexpected e) = false
  is_terminal_reply (ok text) = elim (parse text) [
    | none ↦ false
    | some parsed ↦ elim (as_object? parsed) [
      | none ↦ false
      | some document ↦ is_terminal_document document
    ]
  ]

module _ (json : Json) (services : Services) where
  unfoldable pub is_terminal_status : Text → Act Bool
  is_terminal_status job_id = do
    existing ← call (redis_get job_id) (λ w. services.get w job_id)
    pure (is_terminal_reply json existing)

module _ (json : Json) (services : Services) (config : Configurations) where
  open json use {Object, serialize}

  unfoldable pub set_job_status : Text → Text → Object → Act (Unit {0})
  set_job_status job_id status updates = do
    existing ← call (redis_get job_id) (λ w. services.get w job_id)
    now ← ask services.current_utc_timestamp
    let document = merge_status json (stored_document json existing) job_id status updates now
    saved ←
        call (redis_set job_id (serialize document) config.redis_ttl_sec)
          (λ w. services.set w job_id (serialize document) config.redis_ttl_sec)
    pure tt
