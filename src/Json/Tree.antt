-- ===== src/Json/Tree.antt =====
-- A JSON library that meets the laws of `Json`, for tests and witnesses: values as binary trees, and
-- a prefix code in place of the text format. An object is a list of fields; the first one with a key
-- counts.
use yirang_taskforge.Prelude.{
  ℕ, zero, suc, ◌≤◌, ◌≡◌, refl, ap, ◌++◌, append_assoc, append-nil, Bool, true, false, Option, none,
  some, List, [], ◌∷◌, Text, text_eq, text_eq_iff, ℤ, pos, negsuc, if◌then◌else◌, length,
  length-append, arith, c_str, c_str_of_NoNul, NoNul,
}
use yirang_taskforge.Json.{Json, lookup, UniqueKeys}

-- `items` and `fields` hold a first part and the rest; `end` closes both.
pub data Tree : Type 0 where
  null : Tree
  boolean : Bool → Tree
  integer : ℤ → Tree
  string : Text → Tree
  array : Tree → Tree
  object : Tree → Tree
  end : Tree
  item : Tree → Tree → Tree
  field : Text → Tree → Tree → Tree

unfoldable pub encode_text : Text → Text
encode_text s = length s ∷ s

unfoldable pub encode : Tree → Text
unfolding encode_text
encode null = 0 ∷ []
encode (boolean false) = 1 ∷ []
encode (boolean true) = 2 ∷ []
encode (integer (pos n)) = 3 ∷ n ∷ []
encode (integer (negsuc n)) = 4 ∷ n ∷ []
encode (string s) = 5 ∷ encode_text s
encode (array t) = 6 ∷ encode t
encode (object t) = 7 ∷ encode t
encode end = 8 ∷ []
encode (item t rest) = 9 ∷ encode t ++ encode rest
encode (field k t rest) = 10 ∷ encode_text k ++ (encode t ++ encode rest)

-- Cuts a counted text off.
unfoldable pub split_text : ℕ → Text → Text × Text
split_text zero s = ([], s)
split_text (suc n) [] = ([], [])
split_text (suc n) (b ∷ s) = let (t, r) = split_text n s in (b ∷ t, r)

abbrev decode_text : Text → Text × Text
decode_text [] = ([], [])
decode_text (n ∷ s) = split_text n s

abbrev bind {ℓ} : {A : Type ℓ} → Option (Tree × Text) → (Tree → Text → Option A) → Option A
bind none f = none
bind (some (t, s)) f = f t s

abbrev decode_tag : (Text → Option (Tree × Text)) → ℕ → Text → Option (Tree × Text)
decode_tag again zero s = some (null, s)
decode_tag again (suc zero) s = some (boolean false, s)
decode_tag again (suc (suc zero)) s = some (boolean true, s)
decode_tag again (suc (suc (suc zero))) [] = none
decode_tag again (suc (suc (suc zero))) (n ∷ s) = some (integer (pos n), s)
decode_tag again (suc (suc (suc (suc zero)))) [] = none
decode_tag again (suc (suc (suc (suc zero)))) (n ∷ s) = some (integer (negsuc n), s)
decode_tag again (suc (suc (suc (suc (suc zero))))) s =
    let (t, r) = decode_text s in some (string t, r)
decode_tag again (suc (suc (suc (suc (suc (suc zero)))))) s =
    bind (again s) (λ t r. some (array t, r))
decode_tag again (suc (suc (suc (suc (suc (suc (suc zero))))))) s =
    bind (again s) (λ t r. some (object t, r))
decode_tag again (suc (suc (suc (suc (suc (suc (suc (suc zero)))))))) s = some (end, s)
decode_tag again (suc (suc (suc (suc (suc (suc (suc (suc (suc zero))))))))) s =
    bind (again s) (λ t r. bind (again r) (λ u r'. some (item t u, r')))
decode_tag again (suc (suc (suc (suc (suc (suc (suc (suc (suc (suc n)))))))))) s =
    let (k, r) = decode_text s in
    bind (again r) (λ t r'. bind (again r') (λ u r''. some (field k t u, r'')))

unfoldable pub decode : ℕ → Text → Option (Tree × Text)
decode zero s = none
decode (suc fuel) [] = none
decode (suc fuel) (tag ∷ s) = decode_tag (decode fuel) tag s

split_text-append : (s r : Text) → split_text (length s) (s ++ r) ≡ (s, r)
unfolding split_text
split_text-append [] r = refl
split_text-append (b ∷ s) r = rw (split_text-append s r)

length-encode_pos : (t : Tree) → 1 ≤ length (encode t)
unfolding encode
length-encode_pos null = omega arith
length-encode_pos (boolean false) = omega arith
length-encode_pos (boolean true) = omega arith
length-encode_pos (integer (pos n)) = omega arith
length-encode_pos (integer (negsuc n)) = omega arith
length-encode_pos _ = omega arith

decode-encode :
    (fuel : ℕ) (t : Tree) (r : Text)
    → length (encode t) ≤ fuel
    → decode fuel (encode t ++ r) ≡ some (t, r)
unfolding decode encode encode_text
decode-encode zero t r h = absurd (omega (arith, length-encode_pos t))
decode-encode (suc fuel) null r h = refl
decode-encode (suc fuel) (boolean false) r h = refl
decode-encode (suc fuel) (boolean true) r h = refl
decode-encode (suc fuel) (integer (pos n)) r h = refl
decode-encode (suc fuel) (integer (negsuc n)) r h = refl
decode-encode (suc fuel) (string s) r h = rw (split_text-append s r)
decode-encode (suc fuel) (array t) r h = rw (decode-encode fuel t r (omega arith))
decode-encode (suc fuel) (object t) r h = rw (decode-encode fuel t r (omega arith))
decode-encode (suc fuel) end r h = refl
decode-encode (suc fuel) (item t u) r h = rw (
  append_assoc (encode t) (encode u) r,
  decode-encode fuel t (encode u ++ r) (omega (arith, length-append (encode t) (encode u))),
  decode-encode fuel u r (omega (arith, length-append (encode t) (encode u))),
)
decode-encode (suc fuel) (field k t u) r h =
    let sizes = length-append (encode t) (encode u) in
    let key = length-append k (encode t ++ encode u) in
    rw (
      append_assoc k (encode t ++ encode u) r,
      append_assoc (encode t) (encode u) r,
      split_text-append k (encode t ++ (encode u ++ r)),
      decode-encode fuel t (encode u ++ r) (omega arith),
      decode-encode fuel u r (omega arith),
    )

-- The fields of an object, and an object of fields.
unfoldable pub to_fields : Tree → Option (List (Text × Tree))
to_fields end = some []
to_fields (field k t rest) = elim (to_fields rest) [ none ↦ none | some m ↦ some ((k, t) ∷ m) ]
to_fields _ = none

unfoldable pub of_fields : List (Text × Tree) → Tree
of_fields [] = end
of_fields ((k, t) ∷ m) = field k t (of_fields m)

to_fields-of_fields : (m : List (Text × Tree)) → to_fields (of_fields m) ≡ some m
unfolding to_fields of_fields
to_fields-of_fields [] = refl
to_fields-of_fields ((k, t) ∷ m) = rw (to_fields-of_fields m, to_fields)

unfoldable pub to_items : Tree → Option (List Tree)
to_items end = some []
to_items (item t rest) = elim (to_items rest) [ none ↦ none | some ts ↦ some (t ∷ ts) ]
to_items _ = none

unfoldable pub of_items : List Tree → Tree
of_items [] = end
of_items (t ∷ ts) = item t (of_items ts)

to_items-of_items : (ts : List Tree) → to_items (of_items ts) ≡ some ts
unfolding to_items of_items
to_items-of_items [] = refl
to_items-of_items (t ∷ ts) = rw (to_items-of_items ts, to_items)

abbrev Fields : Type 0
Fields = List (Text × Tree)

unfoldable pub without : Text → Fields → Fields
without k [] = []
without k ((j, t) ∷ m) = let rest = without k m in if text_eq j k then rest else (j, t) ∷ rest

lookup-without :
    (k j : Text) (m : Fields) → lookup j (without k m) ≡ (if text_eq k j then none else lookup j m)
unfolding lookup without
lookup-without k j [] = ground arith
lookup-without k j ((i, t) ∷ m) =
    ground (arith, lookup-without k j m, text_eq_iff i k, text_eq_iff i j, text_eq_iff k j)

pub lookup-put :
    (m : Fields) (k j : Text) (t : Tree)
    → lookup j ((k, t) ∷ m) ≡ (if text_eq k j then some t else lookup j m)
unfolding lookup
lookup-put m k j t = refl

-- The fields that count: each key once.
unfoldable pub visible : Fields → Fields
visible [] = []
visible ((k, t) ∷ m) = (k, t) ∷ without k (visible m)

pub lookup-visible : (m : Fields) (k : Text) → lookup k (visible m) ≡ lookup k m
unfolding lookup visible
lookup-visible [] k = refl
lookup-visible ((j, t) ∷ m) k =
    ground (arith, lookup-visible m k, lookup-without j k (visible m), text_eq_iff j k)

without-UniqueKeys : (k : Text) (m : Fields) → UniqueKeys m → UniqueKeys (without k m)
unfolding without
without-UniqueKeys k [] u = tt
without-UniqueKeys k ((j, t) ∷ m) u =
    ground
      (arith, without-UniqueKeys k m u.1, text_eq_iff j k, text_eq_iff k j, lookup-without k j m)

pub visible-UniqueKeys : (m : Fields) → UniqueKeys (visible m)
unfolding visible
visible-UniqueKeys [] = tt
visible-UniqueKeys ((k, t) ∷ m) =
    let own : lookup k (without k (visible m)) ≡ none =
      ground (arith, lookup-without k k (visible m), text_eq_iff k k) in
    (own, without-UniqueKeys k (visible m) (visible-UniqueKeys m))

unfoldable pub is_null : Tree → Bool
is_null null = true
is_null _ = false

unfoldable pub as_string? : Tree → Option Text
as_string? (string s) = some s
as_string? _ = none

unfoldable pub as_int64? : Tree → Option ℤ
as_int64? (integer z) = some z
as_int64? _ = none

unfoldable pub as_array? : Tree → Option (List Tree)
unfolding to_items
as_array? (array t) = to_items t
as_array? _ = none

unfoldable pub as_object? : Tree → Option Fields
unfolding to_fields
as_object? (object t) = to_fields t
as_object? _ = none

pub is_null-as_string? : (t : Tree) (s : Text) → as_string? t ≡ some s → is_null t ≡ false
unfolding is_null as_string?
is_null-as_string? null s h = cc
is_null-as_string? _ s h = refl

-- A text is one value and nothing behind it.
unfoldable pub whole : Option (Tree × Text) → Option Tree
whole none = none
whole (some (t, [])) = some t
whole (some (t, b ∷ s)) = none

-- The numbers of a text stand for themselves plus 1, so that none is 0.
unfoldable pub shift : Text → Text
shift [] = []
shift (b ∷ s) = suc b ∷ shift s

unfoldable pub unshift : Text → Text
unshift [] = []
unshift (zero ∷ s) = zero ∷ unshift s
unshift (suc b ∷ s) = b ∷ unshift s

unshift-shift : (s : Text) → unshift (shift s) ≡ s
unfolding unshift shift
unshift-shift [] = refl
unshift-shift (b ∷ s) = ap (λ t. b ∷ t) (unshift-shift s)

length-shift : (s : Text) → length (shift s) ≡ length s
unfolding shift
length-shift [] = refl
length-shift (b ∷ s) = ap suc (length-shift s)

shift-NoNul : (s : Text) → NoNul (shift s)
unfolding shift
shift-NoNul [] = tt
shift-NoNul (b ∷ s) = (ground arith, shift-NoNul s)

unfoldable pub parse : Text → Option Tree
unfolding whole decode unshift
parse s = whole (decode (length s) (unshift s))

parse-encode : (t : Tree) → parse (shift (encode t)) ≡ some t
unfolding parse whole
parse-encode t =
    let read = decode-encode (length (encode t)) t [] (omega arith) in
    let here : decode (length (encode t)) (encode t) ≡ some (t, []) =
      rw (append-nil (encode t)) at read in
    rw (parse, length-shift, unshift-shift, here)

unfoldable pub serialize : Fields → Text
unfolding encode of_fields shift
serialize m = shift (encode (object (of_fields m)))

pub c_str-serialize : (m : Fields) → c_str (serialize m) ≡ serialize m
unfolding serialize
c_str-serialize m = c_str_of_NoNul _ (shift-NoNul (encode (object (of_fields m))))

pub as_object?-of_fields : (m : Fields) → as_object? (object (of_fields m)) ≡ some m
unfolding as_object?
as_object?-of_fields m = to_fields-of_fields m

pub as_array?-of_items : (ts : List Tree) → as_array? (array (of_items ts)) ≡ some ts
unfolding as_array?
as_array?-of_items ts = to_items-of_items ts

pub serialize-parse : (m : Fields) → parse (serialize m) ≡ some (object (of_fields m))
unfolding serialize
serialize-parse m = parse-encode (object (of_fields m))

pub as_string?-string : (s : Text) → as_string? (string s) ≡ some s
unfolding as_string?
as_string?-string s = refl

pub as_int64?-integer : (z : ℤ) → as_int64? (integer z) ≡ some z
unfolding as_int64?
as_int64?-integer z = refl

pub kinds :
    (is_null null ≡ true)
    × ((s : Text) → is_null (string s) ≡ false)
    × ((z : ℤ) → is_null (integer z) ≡ false)
    × ((ts : List Tree) → is_null (array (of_items ts)) ≡ false)
unfolding is_null
kinds = (refl, λ s. refl, λ z. refl, λ ts. refl)

pub lookup-empty : (k : Text) → lookup {V = Tree} k [] ≡ none
unfolding lookup
lookup-empty k = refl

pub lookup-erase :
    (o : Fields) (k j : Text) → lookup j (without k o) ≡ (if text_eq k j then none else lookup j o)
lookup-erase o k j = lookup-without k j o

abbrev pub tree_json : Json
tree_json = record {
  Value = Tree;
  Object = Fields;
  is_null = is_null;
  as_string? = as_string?;
  as_int64? = as_int64?;
  as_array? = as_array?;
  as_object? = as_object?;
  null = null;
  of_string = string;
  of_int = integer;
  of_array = λ ts. array (of_items ts);
  of_object = λ m. object (of_fields m);
  empty = [];
  find = λ m k. lookup k m;
  put = λ m k t. (k, t) ∷ m;
  erase = λ m k. without k m;
  entries = visible;
  parse = parse;
  serialize = serialize;
  IsEncodable = λ m. Unit;
  is_null-null = kinds.0;
  is_null-of_string = kinds.1;
  is_null-of_int = kinds.2;
  is_null-of_array = kinds.3;
  is_null-as_string? = is_null-as_string?;
  as_string?-of_string = as_string?-string;
  as_int64?-of_int = as_int64?-integer;
  as_array?-of_array = as_array?-of_items;
  as_object?-of_object = as_object?-of_fields;
  find-empty = lookup-empty;
  find-put = lookup-put;
  find-erase = lookup-erase;
  lookup-entries = lookup-visible;
  entries-UniqueKeys = visible-UniqueKeys;
  c_str-serialize = c_str-serialize;
  parse-serialize = λ o h. serialize-parse o;
}
