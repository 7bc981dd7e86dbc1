-- ===== src/Paths.antt =====
-- `std::filesystem::path` on POSIX, as far as the worker uses it, over texts.
use yirang_taskforge.Prelude.{
  ◌≡◌, ◌≢◌, refl, arith, ◌++◌, Bool, false, Option, none, some, [], ◌∷◌, Text, bytes, text_eq, ◌==◌,
  if◌then◌else◌,
}

-- `path.is_absolute()`
unfoldable pub is_absolute : Text → Bool
is_absolute [] = false
is_absolute (c ∷ s) = c == b'/'

ends_with_slash : Text → Bool
ends_with_slash [] = false
ends_with_slash (c ∷ []) = c == b'/'
ends_with_slash (c ∷ d ∷ s) = ends_with_slash (d ∷ s)

-- `base / name`: an absolute name replaces the base; one separator stands between the two.
unfoldable pub ◌/p◌ : Text → Text → Text
unfolding is_absolute ends_with_slash
◌/p◌ [] name = name
◌/p◌ (c ∷ base) name =
    if is_absolute name
    then name
    else if ends_with_slash (c ∷ base)
    then (c ∷ base) ++ name
    else (c ∷ base) ++ b'/' ∷ name

-- The part of a name from its last dot on.
last_dot : Text → Option Text
last_dot [] = none
last_dot (c ∷ s) = elim (last_dot s) [
  | some e ↦ some e
  | none ↦ if c == b'.' then some (c ∷ s) else none
]

-- `path.extension()` of a file name: none for "..", and none for a dot at the front alone.
unfoldable pub extension : Text → Text
unfolding last_dot
extension [] = []
extension (c ∷ s) =
    if text_eq (c ∷ s) (bytes "..") then [] else elim (last_dot s) [ none ↦ [] | some e ↦ e ]

abbrev pub has_json_suffix : Text → Bool
has_json_suffix name = text_eq (extension name) (bytes ".json")

last_dot-append : (s : Text) → last_dot (s ++ bytes ".json") ≡ some (bytes ".json")
unfolding last_dot
last_dot-append [] = refl
last_dot-append (c ∷ s) = rw (last_dot-append s, last_dot)

-- A name that ends in ".json", with something before it, has that extension.
pub extension-json : (s : Text) → s ≢ [] → extension (s ++ bytes ".json") ≡ bytes ".json"
unfolding extension
extension-json [] h = absurd (h refl)
extension-json (c ∷ []) h = ground arith
extension-json (c ∷ d ∷ []) h = ground arith
extension-json (c ∷ d ∷ e ∷ s) h = ground (arith, last_dot-append s)
