-- ===== src/TaskDlq/Pending.antt =====
-- `pending_count` follows the jobs that have an entry.
use yirang_taskforge.Prelude.{
  ℕ, ◌+◌, ◌≡◌, refl, ◌≢◌, true, Option, none, some, List, [], ◌∷◌, Text, bytes, text_eq_iff,
  text_eq_refl, ℤ, if◌then◌else◌, ok, arith, Bool-cases, inl, inr, is_some,
}
use yirang_taskforge.Json.{Json, lookup, UniqueKeys}
use yirang_taskforge.Paths.{has_json_suffix, extension-json}
use yirang_taskforge.World.{File, regular, Directory, World, Services}
use yirang_taskforge.TaskDlq.{
  TaskDlq, entry_name, entry_path, without, write_file, exists_in, remove_entry, count_json,
  is_json_file, pending_count, remove, can_write, failure_entry, write_entry, record_failure,
}
use yirang_taskforge.TaskDlq.Record.{
  lookup-write_file, lookup-without, entry_name_injective, record_failure-eq-ok,
}

-- 1 if the entry that a lookup found is counted
abbrev pub counted : Text → Option File → ℕ
counted k none = 0
counted k (some f) = if is_json_file (k, f) then 1 else 0

count_json-write_file :
    (k contents : Text) (m : List (Text × File))
    → has_json_suffix k ≡ true
    → count_json (write_file k (regular contents) m) + counted k (lookup k m) ≡ count_json m + 1
unfolding count_json write_file lookup is_json_file
count_json-write_file k contents [] h = ground arith
count_json-write_file k contents ((j, f) ∷ m) h =
    ground (arith, count_json-write_file k contents m h, text_eq_iff j k)

without_of_absent {ℓ} :
    {V : Type ℓ} (k : Text) (m : List (Text × V)) → lookup k m ≡ none → without k m ≡ m
unfolding lookup without
without_of_absent k [] h = refl
without_of_absent k ((j, v) ∷ m) h = ground (arith, without_of_absent k m)

count_json-without :
    (k : Text) (m : List (Text × File))
    → UniqueKeys m
    → count_json (without k m) + counted k (lookup k m) ≡ count_json m
unfolding count_json without lookup is_json_file
count_json-without k [] u = refl
count_json-without k ((j, f) ∷ m) u =
    ground (arith, count_json-without k m u.1, text_eq_iff j k, without_of_absent k m)

UniqueKeys-write_file {ℓ} :
    {V : Type ℓ} (k : Text) (v : V) (m : List (Text × V))
    → UniqueKeys m
    → UniqueKeys (write_file k v m)
unfolding write_file lookup
UniqueKeys-write_file k v [] u = (refl, tt)
UniqueKeys-write_file k v ((j, w) ∷ m) u = ground (
  arith,
  UniqueKeys-write_file k v m u.1,
  text_eq_iff j k,
  text_eq_iff k j,
  lookup-write_file k j v m,
)

UniqueKeys-without {ℓ} :
    {V : Type ℓ} (k : Text) (m : List (Text × V)) → UniqueKeys m → UniqueKeys (without k m)
unfolding without
UniqueKeys-without k [] u = tt
UniqueKeys-without k ((j, w) ∷ m) u =
    ground
      (arith, UniqueKeys-without k m u.1, text_eq_iff j k, text_eq_iff k j, lookup-without k j m)

-- No two entries of the directory have one name.
abbrev pub IsDirectory : Directory → Type 0
IsDirectory d = UniqueKeys d.files

entry_name-json : (job_id : Text) → job_id ≢ [] → has_json_suffix (entry_name job_id) ≡ true
unfolding entry_name
entry_name-json job_id h = rw (extension-json job_id h) (text_eq_refl (bytes ".json"))

module _ (json : Json) (services : Services) (dlq : TaskDlq) where
  -- In a DLQ directory whose names are distinct, recording a failure of a job that has no entry
  -- adds one to `pending_count`; for a job that has one, the count stays. The names stay distinct.
  -- The job id is not empty.
  pub record_failure-pending_count :
      (w : World) (job_id message reason : Text) (inbound n : ℤ)
      → IsDirectory w.dlq
      → job_id ≢ []
      → (record_failure json services dlq job_id message reason inbound w).0 ≡ ok n
      → IsDirectory (record_failure json services dlq job_id message reason inbound w).1.dlq
        × (pending_count (record_failure json services dlq job_id message reason inbound w).1.dlq
            ≡ (if is_some (exists_in w.dlq (entry_name job_id))
                then pending_count w.dlq
                else pending_count w.dlq + 1))
  unfolding write_entry pending_count can_write is_json_file
  record_failure-pending_count w job_id message reason inbound n u named done =
      let (can, same, after) =
        record_failure-eq-ok json services dlq w job_id message reason inbound n done in
      rw after (
        UniqueKeys-write_file (entry_name job_id) _ w.dlq.files u,
        ground (
          arith,
          can,
          entry_name-json job_id named,
          count_json-write_file (entry_name job_id)
              (json.serialize (failure_entry json job_id n reason message)) w.dlq.files,
        ),
      )

  -- In a DLQ directory whose names are distinct, a removal that succeeds takes the job's entry
  -- away, leaves every other job's, and takes one from `pending_count` exactly when the job's
  -- entry was counted. The names stay distinct.
  pub remove-pending_count :
      (w : World) (job_id : Text)
      → IsDirectory w.dlq
      → services.removes w (entry_path dlq job_id) ≡ true
      → IsDirectory (remove services dlq job_id w).1.dlq
        × (exists_in (remove services dlq job_id w).1.dlq (entry_name job_id) ≡ none)
        × ((j : Text)
            → j ≢ job_id
            → exists_in (remove services dlq job_id w).1.dlq (entry_name j)
              ≡ exists_in w.dlq (entry_name j))
        × (pending_count (remove services dlq job_id w).1.dlq
              + counted (entry_name job_id) (exists_in w.dlq (entry_name job_id))
            ≡ pending_count w.dlq)
  unfolding remove remove_entry pending_count
  remove-pending_count w job_id u removed =
      rw (remove, removed)
        (elim (Bool-cases w.dlq.present) [
          | inl here ↦ rw here (
            UniqueKeys-without (entry_name job_id) w.dlq.files u,
            rw lookup-without (rw text_eq_refl),
            λ j other. rw lookup-without (
                ground (
                  arith,
                  text_eq_iff (entry_name job_id) (entry_name j),
                  entry_name_injective job_id j,
                )),
            count_json-without (entry_name job_id) w.dlq.files u,
          )
          | inr missing ↦ rw missing (u, refl, λ j other. refl, omega arith)
        ])
