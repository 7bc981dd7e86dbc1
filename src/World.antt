-- ===== src/World.antt =====
-- What the worker acts on. The services behind the third-party clients (Redis, S3, SQS), the
-- processes that it starts, the clock and the random numbers answer by functions of the whole
-- history, `Services`; every call that reaches one of them is an event of the trace, the latest
-- first. The DLQ directory is the worker's own, and is kept as data.
-- Log output is left out.
pub mod Trace
pub mod Redis
use yirang_taskforge.Prelude.{
  ℕ, Bool, true, false, Option, none, some, List, [], ◌∷◌, Text, ℤ, Expected,
}

-- One entry of the DLQ directory: a regular file with its contents, or anything else.
pub data File : Type 0 where
  regular : Text → File
  other : File

pub record Directory : Type 0 where
  pub present : Bool
  pub files : List (Text × File)

pub data Event : Type 0 where
  redis_get : Text → Event
  redis_set : Text → Text → ℤ → Event
  -- a write without a lifetime
  redis_put : Text → Text → Event
  redis_connect : Event
  s3_download : Text → Text → Text → Event
  s3_upload : Text → Text → Text → Event
  s3_presign : Text → Text → ℤ → Event
  sqs_send : Text → Text → Text → Event
  run_process : Text → List Text → ℤ → Event
  open_stdout : Text → Event
  create_directories : Text → Event
  remove_all : Text → Event
  sleep_ms : ℕ → Event

pub record World : Type 0 where
  pub trace : List Event
  pub dlq : Directory

-- One entry that `directory_iterator` gives for the outputs: its name, and whether it is a regular
-- file.
pub record OutputEntry : Type 0 where
  pub name : Text
  pub is_regular_file : Bool

-- The order in which the handlers of the process and of its timer run. `timer true` is a timer that
-- was cancelled.
pub data Completion : Type 0 where
  timer : Bool → Completion
  exited : Completion

-- What `io_context.run()` did, and the exit code that the process then has.
pub record Run : Type 0 where
  pub completions : List Completion
  pub exit_code : ℤ

pub record Services : Type 0 where
  pub connect : World → Expected (Unit {0})
  pub put : World → Text → Text → Expected (Unit {0})
  pub get : World → Text → Expected Text
  pub set : World → Text → Text → ℤ → Expected (Unit {0})
  pub download_file : World → Text → Text → Text → Expected (Unit {0})
  pub upload_file : World → Text → Text → Text → Expected (Unit {0})
  pub generate_presigned_url : World → Text → Text → ℤ → Expected Text
  pub send_message : World → Text → Text → Text → Expected (Unit {0})
  -- `fopen` of the capture file
  pub opens_stdout : World → Text → Bool
  -- a launch that fails throws the text
  pub run : World → Text → List Text → ℤ → Expected Run
  -- the bytes of a file that opens for reading
  pub read_file : World → Text → Option Text
  pub is_regular_file : World → Text → Bool
  -- the entries of a directory, and the error that ends the iteration
  pub directory_entries : World → Text → List OutputEntry
  pub directory_error : World → Text → Option Text
  -- whether `create_directories` of the DLQ directory succeeds
  pub creates_directory : World → Text → Bool
  -- whether a file of the DLQ directory opens
  pub opens_for_reading : World → Text → Bool
  pub opens_for_writing : World → Text → Bool
  -- whether `remove` of an entry of the DLQ directory succeeds
  pub removes : World → Text → Bool
  pub current_utc_timestamp : World → Text
  -- a draw from 0 to the bound
  pub draw : World → ℕ → ℕ
  pub temp_directory_path : Text

-- A computation on the world.
abbrev pub Act {ℓ} : Type ℓ → Type ℓ
Act A = World → A × World

unfoldable pub pure {ℓ} : {A : Type ℓ} → A → Act A
pure a w = (a, w)

abbrev pub record_event : Event → World → World
record_event e w = record w { trace = e ∷ w.trace }

-- A call of a service: its answer, and its event.
unfoldable pub call {ℓ} : {A : Type ℓ} → Event → (World → A) → Act A
call e answer w = (answer w, record_event e w)

-- A question that leaves no trace.
unfoldable pub ask {ℓ} : {A : Type ℓ} → (World → A) → Act A
ask answer w = (answer w, w)

infixl 5 ◌>>=◌ ◌>>◌
-- Opening this opens `pure`, `call` and `ask` too.
unfoldable pub ◌>>=◌ {ℓ κ} : {A : Type ℓ} {B : Type κ} → Act A → (A → Act B) → Act B
unfolding pure call ask
◌>>=◌ m f w = let (a, w') = m w in f a w'

abbrev pub ◌>>◌ {κ} : {B : Type κ} → Act (Unit {0}) → Act B → Act B
m >> k = m >>= λ _. k
