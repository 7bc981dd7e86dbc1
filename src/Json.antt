-- ===== src/Json.antt =====
-- JSON values and objects, as the worker uses Boost.JSON (a third-party library, hence a record of
-- operations and documented laws that every definition over JSON takes as a parameter).
-- `find` stands for `contains` followed by `at`; `put` for `object[key] = value`.
pub mod Tree
use yirang_taskforge.Prelude.{
  ◌≡◌, Bool, true, false, Option, none, some, List, [], ◌∷◌, Text, text_eq, c_str, ℤ, if◌then◌else◌,
}

-- What an association list holds at a key, and that no key stands in it twice.
module _ {ℓ} {V : Type ℓ} where
  unfoldable pub lookup : Text → List (Text × V) → Option V
  lookup k [] = none
  lookup k ((j, v) ∷ m) = if text_eq j k then some v else lookup k m

  abbrev pub UniqueKeys : List (Text × V) → Type ℓ
  UniqueKeys [] = Unit
  UniqueKeys ((k, v) ∷ m) = (lookup k m ≡ none) × UniqueKeys m

pub record Json : Type 1 where
  pub Value : Type 0
  pub Object : Type 0
  pub is_null : Value → Bool
  pub as_string? : Value → Option Text
  pub as_int64? : Value → Option ℤ
  pub as_array? : Value → Option (List Value)
  pub as_object? : Value → Option Object
  pub null : Value
  pub of_string : Text → Value
  pub of_int : ℤ → Value
  pub of_array : List Value → Value
  pub of_object : Object → Value
  pub empty : Object
  pub find : Object → Text → Option Value
  pub put : Object → Text → Value → Object
  pub erase : Object → Text → Object
  pub entries : Object → List (Text × Value)
  pub parse : Text → Option Value
  pub serialize : Object → Text
  -- an object that `serialize` writes and `parse` reads back: valid UTF-8, nested at most 32 deep
  pub IsEncodable : Object → Type 0
  pub is_null-null : is_null null ≡ true
  pub is_null-of_string : (s : Text) → is_null (of_string s) ≡ false
  pub is_null-of_int : (z : ℤ) → is_null (of_int z) ≡ false
  pub is_null-of_array : (vs : List Value) → is_null (of_array vs) ≡ false
  pub is_null-as_string? : (v : Value) (s : Text) → as_string? v ≡ some s → is_null v ≡ false
  pub as_string?-of_string : (s : Text) → as_string? (of_string s) ≡ some s
  pub as_int64?-of_int : (z : ℤ) → as_int64? (of_int z) ≡ some z
  pub as_array?-of_array : (vs : List Value) → as_array? (of_array vs) ≡ some vs
  pub as_object?-of_object : (o : Object) → as_object? (of_object o) ≡ some o
  pub find-empty : (k : Text) → find empty k ≡ none
  pub find-put :
      (o : Object) (k j : Text) (v : Value)
      → find (put o k v) j ≡ (if text_eq k j then some v else find o j)
  pub find-erase :
      (o : Object) (k j : Text) → find (erase o k) j ≡ (if text_eq k j then none else find o j)
  pub lookup-entries : (o : Object) (k : Text) → lookup k (entries o) ≡ find o k
  pub entries-UniqueKeys : (o : Object) → UniqueKeys (entries o)
  -- control characters are escaped, so a text of `serialize` has no NUL byte
  pub c_str-serialize : (o : Object) → c_str (serialize o) ≡ serialize o
  pub parse-serialize : (o : Object) → IsEncodable o → parse (serialize o) ≡ some (of_object o)

module _ (json : Json) where
  open json use {Value, Object, find, as_string?, as_int64?, as_array?, as_object?}

  abbrev and_then {ℓ} : {A : Type ℓ} → (Value → Option A) → Option Value → Option A
  and_then f none = none
  and_then f (some v) = f v

  -- `contains(k) && at(k).is_string()`, with the string that `as_string()` then gives
  unfoldable pub string_at : Object → Text → Option Text
  string_at o k = and_then as_string? (find o k)

  unfoldable pub int64_at : Object → Text → Option ℤ
  int64_at o k = and_then as_int64? (find o k)

  unfoldable pub array_at : Object → Text → Option (List Value)
  array_at o k = and_then as_array? (find o k)

  unfoldable pub object_at : Object → Text → Option Object
  object_at o k = and_then as_object? (find o k)
