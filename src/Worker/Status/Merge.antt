-- ===== src/Worker/Status/Merge.antt =====
-- The document that `set_job_status` writes, field by field, and the terminal test.
use yirang_taskforge.Prelude.{
  ◌≡◌, refl, ◌∙◌, Option, none, some, List, [], ◌∷◌, Text, bytes, text_eq, text_eq_iff,
  if◌then◌else◌, arith,
}
use yirang_taskforge.Json.{Json, lookup, UniqueKeys}
use yirang_taskforge.Worker.Status.{apply_updates, merge_status}

module _ (json : Json) where
  open json use {
    Value, Object, is_null, as_string?, of_string, find, put, erase, entries, parse, serialize,
    IsEncodable, find-put, find-erase,
  }

  -- What a field is after an update: the update's value, gone if that is null; else as before.
  abbrev pub updated : Option Value → Option Value → Option Value
  updated none before = before
  updated (some v) before = if is_null v then none else some v

  find-update :
      (o : Object) (k j : Text) (v : Value)
      → find (if is_null v then erase o k else put o k v) j
        ≡ (if text_eq k j then updated (some v) (find o j) else find o j)
  find-update o k j v = ground (arith, find-put o k j v, find-erase o k j)

  find-apply_updates :
      (o : Object) (m : List (Text × Value)) (k : Text)
      → UniqueKeys m
      → find (apply_updates json o m) k ≡ updated (lookup k m) (find o k)
  unfolding apply_updates lookup
  find-apply_updates o [] k u = refl
  find-apply_updates o ((j, v) ∷ m) k u =
      find-apply_updates (if is_null v then erase o j else put o j v) m k u.1
      ∙ ground (arith, find-update o j k v, text_eq_iff j k)

  -- A field of the written document: "updated_at" is the time; any other is the update's value, gone
  -- if that is null; without an update, "status" and "job_id" are the given ones, and the rest is
  -- what the stored document had.
  pub find-merge_status :
      (document : Object) (job_id status : Text) (updates : Object) (now k : Text)
      → find (merge_status json document job_id status updates now) k ≡ (
          if text_eq (bytes "updated_at") k
          then some (of_string now)
          else updated (find updates k) (
              if text_eq (bytes "status") k
              then some (of_string status)
              else if text_eq (bytes "job_id") k
              then some (of_string job_id)
              else find document k))
  unfolding merge_status
  find-merge_status document job_id status updates now k =
      simp
        (find-put, find-apply_updates _ _ k (json.entries-UniqueKeys updates), json.lookup-entries)
