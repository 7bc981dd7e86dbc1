-- ===== src/Worker/Scope.antt =====
-- The scope of a job's temporary directory: which calls are made within it, and when it is opened and
-- closed.
pub mod Calls
pub mod Message
use yirang_taskforge.Prelude.{
  ◌≡◌, refl, ◌++◌, Bool, true, false, List, [], ◌∷◌, Text, bytes, Expected, ok, unexpected, All,
}
use yirang_taskforge.World.{
  World, Services, Event, redis_connect, s3_download, s3_upload, open_stdout, run_process,
  create_directories, remove_all, Act, pure, ◌>>=◌,
}
use yirang_taskforge.World.Trace.{Emits, Emits-bind, Emits-pure}
use yirang_taskforge.Worker.Transfer.{on_ok, ◌>>=?◌, inputs, outputs}

-- A call that opens or closes the directory.
abbrev pub is_bracket : Event → Bool
is_bracket (create_directories path) = true
is_bracket (remove_all path) = true
is_bracket _ = false

-- A call that reads or writes files of the directory.
abbrev pub is_file_call : Event → Bool
is_file_call (s3_download bucket key path) = true
is_file_call (s3_upload bucket key path) = true
is_file_call (open_stdout path) = true
is_file_call (run_process path arguments timeout) = true
is_file_call _ = false

-- A call that has to do with no file.
abbrev pub IsFree : Event → Type 0
IsFree e = (is_bracket e ≡ false) × (is_file_call e ≡ false)

-- A call that may stand within the scope.
abbrev pub IsInner : Event → Type 0
IsInner e = is_bracket e ≡ false

-- The events, the latest first, and whether the scope is open after them: it is opened by the creation
-- of both directories, closed by the removal of their root, and calls that use files are made while
-- it is open alone.
pub data Scoped (root : Text) : List Event → Bool → Type 0 where
  unopened : Scoped root [] false
  free :
      {es : List Event} {open_ : Bool} (e : Event)
      → IsFree e
      → Scoped root es open_
      → Scoped root (e ∷ es) open_
  opened :
      {es : List Event}
      → Scoped root es false
      → Scoped root (create_directories (outputs root) ∷ create_directories (inputs root) ∷ es) true
  used : {es : List Event} (e : Event) → IsInner e → Scoped root es true → Scoped root (e ∷ es) true
  closed : {es : List Event} → Scoped root es true → Scoped root (remove_all root ∷ es) false

pub append-used :
    {root : Text} {es : List Event} (new : List Event)
    → All IsInner new
    → Scoped root es true
    → Scoped root (new ++ es) true
append-used [] h s = s
append-used (e ∷ new) h s = used e h.0 (append-used new h.1 s)

module _ {A B : Type 0} {P : Event → Type 0} where
  Emits-on_ok :
      (r : Expected A) (f : A → Act (Expected B)) → ((a : A) → Emits P (f a)) → Emits P (on_ok r f)
  Emits-on_ok (ok a) f ef = ef a
  Emits-on_ok (unexpected e) f ef = Emits-pure _

  pub Emits-bind_ok :
      (m : Act (Expected A)) (f : A → Act (Expected B))
      → Emits P m
      → ((a : A) → Emits P (f a))
      → Emits P (m >>=? f)
  Emits-bind_ok m f em ef = Emits-bind m _ em λ r. Emits-on_ok r f ef
