-- ===== src/Worker/Status/Contract.antt =====
-- The fields that every status document takes over from the message.
use yirang_taskforge.Prelude.{
  ◌≡◌, refl, ap, ◌∙◌, inl, inr, false, Option, none, some, Option-cases, Text, bytes, text_eq,
  text_eq_refl, arith,
}
use yirang_taskforge.Json.{Json, string_at, object_at}
use yirang_taskforge.Worker.Status.{contract_fields, copy_string, task_field}

module _ (json : Json) where
  open json use {Object, Value, find, find-put, find-empty, as_string?, put}

  copy_string-other :
      (source fields : Object) (key target k : Text)
      → text_eq target k ≡ false
      → find (copy_string json source key target fields) k ≡ find fields k
  unfolding copy_string
  copy_string-other source fields key target k other = elim (Option-cases (find source key)) [
    | inl e ↦ rw (e, copy_string)
    | inr (v, e) ↦ ground (arith, find-put fields target k v)
  ]

  copied :
      (source fields : Object) (key target : Text)
      → string_at json fields target ≡ none
      → string_at json (copy_string json source key target fields) target
        ≡ string_at json source key
  unfolding copy_string string_at
  copied source fields key target free = elim (Option-cases (find source key)) [
    | inl e ↦ rw (e, copy_string) free
    | inr (v, e) ↦ elim (Option-cases (as_string? v)) [
      | inl other ↦ rw (e, copy_string, other) free
      | inr (s, string) ↦
          rw (e, copy_string, string)
            (ground (arith, find-put fields target target v, text_eq_refl target, string))
    ]
  ]

  -- The name of the message's task, where both are there.
  abbrev pub name_of : Object → Option Text
  name_of message = elim (object_at json message (bytes "task")) [
    | none ↦ none
    | some task ↦ string_at json task (bytes "name")
  ]

  -- A key that holds no value holds no string.
  string_at-none : (o : Object) (k : Text) → find o k ≡ none → string_at json o k ≡ none
  unfolding string_at
  string_at-none o k e = rw e

  string_at-same :
      (o p : Object) (k : Text) → find o k ≡ find p k → string_at json o k ≡ string_at json p k
  unfolding string_at
  string_at-same o p k e = rw e

  task_field-name :
      (message : Object)
      → string_at json (task_field json message) (bytes "task_name") ≡ name_of message
  unfolding task_field
  task_field-name message = elim (Option-cases (object_at json message (bytes "task"))) [
    | inl e ↦
        ap (λ o. string_at json o (bytes "task_name"))
          (let absent : task_field json message ≡ json.empty = rw (e, task_field) in absent)
        ∙ string_at-none json.empty (bytes "task_name") (find-empty (bytes "task_name"))
        ∙ (let nameless : none ≡ name_of message = ground arith in nameless)
    | inr (task, e) ↦
        ap (λ o. string_at json o (bytes "task_name"))
          (let there : task_field json message
                ≡ copy_string json task (bytes "name") (bytes "task_name") json.empty =
              rw (e, task_field) in
            there)
        ∙ copied task json.empty (bytes "name") (bytes "task_name")
            (string_at-none json.empty (bytes "task_name") (find-empty (bytes "task_name")))
        ∙ (let named : string_at json task (bytes "name") ≡ name_of message = ground arith in named)
  ]

  task_field-other :
      (message : Object) (k : Text)
      → text_eq (bytes "task_name") k ≡ false
      → find (task_field json message) k ≡ none
  unfolding task_field
  task_field-other message k other = elim (Option-cases (object_at json message (bytes "task"))) [
    | inl e ↦ rw (e, task_field) (find-empty k)
    | inr (task, e) ↦
        rw (e, task_field)
          (copy_string-other task _ (bytes "name") (bytes "task_name") k other ∙ find-empty k)
  ]

  -- The contract's fields are the task's name, if the message has a task with a name that is a
  -- string, and the time of its queueing, if that is a string; nothing else.
  contract_fields_lem :
      (message : Object)
      → (string_at json (contract_fields json message) (bytes "task_name") ≡ name_of message)
        × (string_at json (contract_fields json message) (bytes "enqueued_at")
            ≡ string_at json message (bytes "enqueued_at"))
        × ((k : Text)
            → text_eq (bytes "task_name") k ≡ false
            → text_eq (bytes "enqueued_at") k ≡ false
            → find (contract_fields json message) k ≡ none)
  unfolding contract_fields
  contract_fields_lem message = (
    string_at-same _ (task_field json message) (bytes "task_name") (
          copy_string-other message _ (bytes "enqueued_at") (bytes "enqueued_at")
            (bytes "task_name") refl)
        ∙ task_field-name message,
    copied message _ (bytes "enqueued_at") (bytes "enqueued_at") (
        string_at-none _ (bytes "enqueued_at")
          (task_field-other message (bytes "enqueued_at") refl)),
    λ k no_name no_time.
        copy_string-other message _ (bytes "enqueued_at") (bytes "enqueued_at") k no_time
        ∙ task_field-other message k no_name,
  )

  pub contract_fields-status :
      (message : Object) → find (contract_fields json message) (bytes "status") ≡ none
  contract_fields-status message = (contract_fields_lem message).2 (bytes "status") refl refl
