-- ===== src/TaskDlq.antt =====
-- Main/TaskDLQ.cpp and .h: the failure records, one JSON file for each job in the DLQ directory.
pub mod Record
pub mod Pending
pub mod Tests
use yirang_taskforge.Prelude.{
  ℕ, suc, ◌≡◌, ◌++◌, Bool, true, false, ◌&&◌, not, Option, none, some, List, [], ◌∷◌, Text, bytes,
  text_eq, ℤ, pos, ltb_ℤ, leb_ℤ, to_int32, succ32, max_ℤ, if◌then◌else◌, Expected, ok, unexpected,
}
use yirang_taskforge.Json.{Json, lookup, int64_at}
use yirang_taskforge.Paths.{◌/p◌, has_json_suffix}
use yirang_taskforge.World.{
  File, regular, other, Directory, World, Services, Act, pure, ask, ◌>>=◌, ◌>>◌,
}

pub record TaskDlq : Type 0 where
  pub dlq_path : Text
  pub max_retry_count : ℤ

-- The constructor's `create_directories`: it leaves a directory that is there as it is, and makes
-- an empty one otherwise.
unfoldable pub create_dlq : Services → TaskDlq → Act (Unit {0})
create_dlq services dlq w =
    if services.creates_directory w dlq.dlq_path
    then (
      tt,
      record w { dlq = if w.dlq.present then w.dlq else record { present = true; files = [] } },
    )
    else (tt, w)

-- The file name of a job's entry, and its path.
unfoldable pub entry_name : Text → Text
entry_name job_id = job_id ++ bytes ".json"

unfoldable pub entry_path : TaskDlq → Text → Text
entry_path dlq job_id = ◌/p◌ dlq.dlq_path (entry_name job_id)

module _ {ℓ} {V : Type ℓ} where
  unfoldable pub without : Text → List (Text × V) → List (Text × V)
  without k [] = []
  without k ((j, v) ∷ m) = let rest = without k m in if text_eq j k then rest else (j, v) ∷ rest

  -- A file is written over where it stands; a new one comes last.
  unfoldable pub write_file : Text → V → List (Text × V) → List (Text × V)
  write_file k v [] = (k, v) ∷ []
  write_file k v ((j, w) ∷ m) = if text_eq j k then (j, v) ∷ m else (j, w) ∷ write_file k v m

unfoldable pub can_retry : TaskDlq → ℤ → Bool
can_retry dlq try_count = leb_ℤ try_count dlq.max_retry_count

-- `exists(path)` of a file of the directory
abbrev pub exists_in : Directory → Text → Option File
exists_in d name = if d.present then lookup name d.files else none

-- whether a file can be opened for writing under a name, by what stands there
abbrev pub is_file_or_new : Option File → Bool
is_file_or_new none = true
is_file_or_new (some (regular contents)) = true
is_file_or_new (some other) = false

unfoldable pub is_json_file : Text × File → Bool
is_json_file (name, regular contents) = has_json_suffix name
is_json_file (name, other) = false

unfoldable pub count_json : List (Text × File) → ℕ
count_json [] = 0
count_json (f ∷ m) = let rest = count_json m in if is_json_file f then suc rest else rest

unfoldable pub pending_count : Directory → ℕ
pending_count d = if d.present then count_json d.files else 0

unfoldable pub remove_entry : Text → Directory → Directory
remove_entry job_id d =
    if d.present then record d { files = without (entry_name job_id) d.files } else d

unfoldable pub remove : Services → TaskDlq → Text → Act (Unit {0})
remove services dlq job_id w =
    if services.removes w (entry_path dlq job_id)
    then (tt, record w { dlq = remove_entry job_id w.dlq })
    else (tt, w)

-- The count to go on from: the larger of the message's and the file's.
unfoldable pub merge_stored : ℤ → Option ℤ → ℤ
merge_stored try_count none = try_count
merge_stored try_count (some n) = max_ℤ try_count (to_int32 n)

module _ (json : Json) where
  open json use {Object, empty, put, of_string, of_int, parse, as_object?, serialize}

  -- `try_count` of the contents, if they parse to an object with one
  unfoldable pub stored_try_count : Text → Option ℤ
  stored_try_count contents = elim (parse contents) [
    | none ↦ none
    | some parsed ↦ elim (as_object? parsed) [
      | none ↦ none
      | some o ↦ int64_at json o (bytes "try_count")
    ]
  ]

  unfoldable pub failure_entry : Text → ℤ → Text → Text → Object
  failure_entry job_id try_count failure_reason request_message =
      let named = put empty (bytes "job_id") (of_string job_id) in
      let counted = put named (bytes "try_count") (of_int try_count) in
      let explained = put counted (bytes "failure_reason") (of_string failure_reason) in
      put explained (bytes "request_message") (of_string request_message)

  unfoldable pub write_entry : Text → Object → Directory → Directory
  write_entry job_id entry d = record d {
    files = write_file (entry_name job_id) (regular (serialize entry)) d.files;
  }

module _ (json : Json) (services : Services) (dlq : TaskDlq) where
  unfoldable pub count_in_file : World → Text → ℤ → File → ℤ
  count_in_file w path try_count other = try_count
  count_in_file w path try_count (regular contents) =
      if services.opens_for_reading w path
      then merge_stored try_count (stored_try_count json contents)
      else try_count

  unfoldable pub previous_try_count : World → Text → ℤ → ℤ
  previous_try_count w job_id inbound =
      let from_message = if ltb_ℤ (pos 0) inbound then inbound else pos 0 in
      elim (exists_in w.dlq (entry_name job_id)) [
        | none ↦ from_message
        | some file ↦ count_in_file w (entry_path dlq job_id) from_message file
      ]

  -- `std::ofstream output(path, trunc)` opens: not without the directory, nor on what is no file
  unfoldable pub can_write : World → Text → Bool
  can_write w job_id =
      w.dlq.present
      && is_file_or_new (exists_in w.dlq (entry_name job_id))
      && services.opens_for_writing w (entry_path dlq job_id)

  unfoldable pub record_failure : Text → Text → Text → ℤ → Act (Expected ℤ)
  record_failure job_id request_message failure_reason inbound_try_count w =
      let try_count = succ32 (previous_try_count w job_id inbound_try_count) in
      let entry = failure_entry json job_id try_count failure_reason request_message in
      if can_write w job_id
      then (ok try_count, record w { dlq = write_entry json job_id entry w.dlq })
      else (unexpected (bytes "cannot write dlq entry: " ++ entry_path dlq job_id), w)
