-- ===== src/TaskDlq/Record.antt =====
-- `record_failure`: the count that it returns, and the directory that it leaves.
use yirang_taskforge.Prelude.{
  ℕ, zero, suc, ◌+◌, ◌^◌, ◌-◌, ◌≡◌, refl, ap, ◌∙◌, true, none, some, List, [], ◌∷◌, Text, bytes,
  text_eq, text_eq_iff, text_eq_refl, ℤ, pos, negsuc, ltb_ℤ, ◌≤ℤ◌, ◌<ℤ◌, to_int32,
  to_int32_of_FitsInt32, to_int32-FitsInt32, FitsInt32, succ32, max_ℤ, if◌then◌else◌, ok, arith,
  Bool-cases, inl, inr,
}
use mathlib.Core.List.{append_cancel_right}
use yirang_taskforge.Json.{Json, lookup, int64_at}
use yirang_taskforge.World.{regular, World, Services}
use yirang_taskforge.TaskDlq.{
  TaskDlq, entry_name, entry_path, without, write_file, exists_in, stored_try_count, merge_stored,
  count_in_file, previous_try_count, failure_entry, can_write, write_entry, record_failure,
}

module _ {ℓ} {V : Type ℓ} where
  pub lookup-write_file :
      (k j : Text) (v : V) (m : List (Text × V))
      → lookup j (write_file k v m) ≡ (if text_eq k j then some v else lookup j m)
  unfolding lookup write_file
  lookup-write_file k j v [] = refl
  lookup-write_file k j v ((i, w) ∷ m) =
      ground (arith, text_eq_iff k j, text_eq_iff i k, text_eq_iff i j, lookup-write_file k j v m)

  pub lookup-without :
      (k j : Text) (m : List (Text × V))
      → lookup j (without k m) ≡ (if text_eq k j then none else lookup j m)
  unfolding lookup without
  lookup-without k j [] = ground arith
  lookup-without k j ((i, v) ∷ m) =
      ground (arith, lookup-without k j m, text_eq_iff i k, text_eq_iff i j, text_eq_iff k j)

pub entry_name_injective : (i j : Text) → entry_name i ≡ entry_name j → i ≡ j
unfolding entry_name
entry_name_injective i j e = append_cancel_right i j (bytes ".json") e

-- The largest `int`.
abbrev pub int_max : ℕ
int_max = 2 ^ 31 - 1

max_grows : (a b : ℤ) → (a ≤ℤ max_ℤ a b) × (b ≤ℤ max_ℤ a b)
unfolding max_ℤ
max_grows a b = ground arith

pub succ32_grows : (a : ℤ) → a <ℤ pos int_max → a <ℤ succ32 a
unfolding succ32 to_int32
succ32_grows (pos n) h = ground arith
succ32_grows (negsuc zero) h = omega arith
succ32_grows (negsuc (suc n)) h = omega arith

succ32-FitsInt32 : (a : ℤ) → pos 0 ≤ℤ a → FitsInt32 (succ32 a)
unfolding succ32
succ32-FitsInt32 (pos n) h = to_int32-FitsInt32 (pos (n + 1))
succ32-FitsInt32 (negsuc n) h = absurd (omega arith)

pub entry_exists_self : (i j : Text) → text_eq (entry_name i) (entry_name j) ≡ text_eq i j
entry_exists_self i j = ground (
  arith,
  text_eq_iff i j,
  text_eq_iff (entry_name i) (entry_name j),
  entry_name_injective i j,
  λ (e : i ≡ j). ap entry_name e,
)

module _ (json : Json) (services : Services) (dlq : TaskDlq) where
  open json use {IsEncodable, serialize}

  -- The count of the message is at most the one that the code goes on from, and so is 0.
  previous_bounds :
      (w : World) (job_id : Text) (inbound : ℤ)
      → (pos 0 ≤ℤ previous_try_count json services dlq w job_id inbound)
        × (inbound ≤ℤ previous_try_count json services dlq w job_id inbound)
  unfolding previous_try_count count_in_file merge_stored max_ℤ
  previous_bounds w job_id inbound = (ground arith, ground arith)

  -- Whatever happened before: the count that `record_failure` returns is above the count in the
  -- message, and at least 1, unless the count to go on from is the largest `int`.
  pub record_failure-increases :
      (w : World) (job_id message reason : Text) (inbound n : ℤ)
      → previous_try_count json services dlq w job_id inbound <ℤ pos int_max
      → (record_failure json services dlq job_id message reason inbound w).0 ≡ ok n
      → (inbound <ℤ n) × (pos 0 <ℤ n)
  unfolding record_failure
  record_failure-increases w job_id message reason inbound n room done =
      let (nonneg, least) = previous_bounds w job_id inbound in
      let grown = succ32_grows (previous_try_count json services dlq w job_id inbound) room in
      let same : succ32 (previous_try_count json services dlq w job_id inbound) ≡ n =
        ground arith in
      rw (← same) (omega arith)

  -- What a successful `record_failure` did, with its test.
  pub record_failure-eq-ok :
      (w : World) (job_id message reason : Text) (inbound n : ℤ)
      → (record_failure json services dlq job_id message reason inbound w).0 ≡ ok n
      → (can_write json services dlq w job_id ≡ true)
        × (n ≡ succ32 (previous_try_count json services dlq w job_id inbound))
        × ((record_failure json services dlq job_id message reason inbound w).1 ≡ record w {
          dlq = write_entry json job_id (failure_entry json job_id n reason message) w.dlq;
        })
  unfolding record_failure
  record_failure-eq-ok w job_id message reason inbound n done =
      elim (Bool-cases (can_write json services dlq w job_id)) [
        | inl can ↦ (can, ground arith, ground arith)
        | inr cannot ↦ absurd (ground arith)
      ]

  pub can_write-present :
      (w : World) (job_id : Text)
      → can_write json services dlq w job_id ≡ true
      → w.dlq.present ≡ true
  unfolding can_write
  can_write-present w job_id can = ground arith

  -- A failure that is written changes no event and the job's own file alone, which then holds the
  -- entry with the returned count, the reason and the message.
  pub record_failure-writes :
      (w : World) (job_id message reason : Text) (inbound n : ℤ)
      → (record_failure json services dlq job_id message reason inbound w).0 ≡ ok n
      → ((record_failure json services dlq job_id message reason inbound w).1.trace ≡ w.trace)
        × ((j : Text)
            → exists_in
                (record_failure json services dlq job_id message reason inbound w).1.dlq
                (entry_name j)
              ≡ (if text_eq job_id j
                  then some (regular (serialize (failure_entry json job_id n reason message)))
                  else exists_in w.dlq (entry_name j)))
  unfolding write_entry
  record_failure-writes w job_id message reason inbound n done =
      let (can, counted, after) = record_failure-eq-ok w job_id message reason inbound n done in
      rw after (
        refl,
        λ j. rw (
          can_write-present w job_id can,
          lookup-write_file (entry_name job_id) (entry_name j),
          entry_exists_self,
        ),
      )

  int64_at-failure_entry :
      (job_id : Text) (n : ℤ) (reason message : Text)
      → int64_at json (failure_entry json job_id n reason message) (bytes "try_count") ≡ some n
  unfolding int64_at failure_entry
  int64_at-failure_entry job_id n reason message = simp (json.find-put, json.as_int64?-of_int)

  stored-failure_entry :
      (job_id : Text) (n : ℤ) (reason message : Text)
      → IsEncodable (failure_entry json job_id n reason message)
      → stored_try_count json (serialize (failure_entry json job_id n reason message)) ≡ some n
  unfolding stored_try_count
  stored-failure_entry job_id n reason message fits = rw (
    stored_try_count,
    json.parse-serialize _ fits,
    stored_try_count,
    json.as_object?-of_object,
    int64_at-failure_entry job_id n reason message,
  )

  previous-found :
      (w : World) (job_id : Text) (inbound n : ℤ) {contents : Text}
      → exists_in w.dlq (entry_name job_id) ≡ some (regular contents)
      → services.opens_for_reading w (entry_path dlq job_id) ≡ true
      → stored_try_count json contents ≡ some n
      → FitsInt32 n
      → previous_try_count json services dlq w job_id inbound
        ≡ max_ℤ (if ltb_ℤ (pos 0) inbound then inbound else pos 0) n
  unfolding previous_try_count count_in_file merge_stored
  previous-found w job_id inbound n found opens stored small = rw (
    previous_try_count,
    found,
    previous_try_count,
    count_in_file,
    opens,
    stored,
    merge_stored,
    to_int32_of_FitsInt32 n small,
  )

  -- The count survives: after a failure is recorded with the count `n`, the next failure of the same
  -- job goes on from the larger of `n` and the message's own count, provided that the entry is valid
  -- UTF-8 and its file opens for reading.
  pub record_failure-read_back :
      (w : World) (job_id message reason : Text) (inbound next n : ℤ)
      → (record_failure json services dlq job_id message reason inbound w).0 ≡ ok n
      → IsEncodable (failure_entry json job_id n reason message)
      → services.opens_for_reading
          (record_failure json services dlq job_id message reason inbound w).1
          (entry_path dlq job_id)
        ≡ true
      → previous_try_count json services dlq
          (record_failure json services dlq job_id message reason inbound w).1
          job_id
          next
        ≡ max_ℤ (if ltb_ℤ (pos 0) next then next else pos 0) n
  record_failure-read_back w job_id message reason inbound next n done fits opens =
      let (can, counted, after) = record_failure-eq-ok w job_id message reason inbound n done in
      let (nonneg, least) = previous_bounds w job_id inbound in
      let small : FitsInt32 n =
        rw counted
          (succ32-FitsInt32 (previous_try_count json services dlq w job_id inbound) nonneg) in
      let found = (record_failure-writes w job_id message reason inbound n done).1 in
      previous-found _ job_id next n (found job_id ∙ rw (text_eq_refl job_id)) opens
        (stored-failure_entry job_id n reason message fits) small
