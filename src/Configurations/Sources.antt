-- ===== src/Configurations/Sources.antt =====
-- Where the settings come from: the command line before the file before the defaults.
use yirang_taskforge.Prelude.{
  ◌≡◌, ap, Option, none, some, Option-cases, inl, inr, List, [], ◌∷◌, Text, bytes, c_str, ℤ,
  to_int32, ◌⊎◌, arith,
}
use yirang_taskforge.Json.{Json, string_at, int64_at}
use yirang_taskforge.TaskExecutor.{TaskDefinition}
use yirang_taskforge.Configurations.{
  Configurations, ArgumentParser, or_else, read_string, read_int, read_definition, read_entry,
  read_whitelist, load, load_message, parse_arguments, validate_configuration, configurations,
  config_path_of, default_configurations,
}

module _ (json : Json) where
  open json use {Value, Object, as_object?, parse}

  -- An entry that names a task: an object with a name and an executable, both strings.
  pub record IsTaskEntry (entry : Value) (definition : TaskDefinition) : Type 0 where
    pub object : Object
    pub is_object : as_object? entry ≡ some object
    pub name : Text
    pub named : string_at json object (bytes "name") ≡ some name
    pub executable : Text
    pub executes : string_at json object (bytes "executable") ≡ some executable
    pub name_of : definition.name ≡ c_str name
    pub executable_of : definition.executable ≡ c_str executable

  -- The whitelist of an array: its entries that name a task, in order.
  pub data Reads : List Value → List TaskDefinition → Type 0 where
    all_read : Reads [] []
    taken :
        {entries : List Value} {definitions : List TaskDefinition} (entry : Value)
        (definition : TaskDefinition)
        → IsTaskEntry entry definition
        → Reads entries definitions
        → Reads (entry ∷ entries) (definition ∷ definitions)
    ignored :
        {entries : List Value} {definitions : List TaskDefinition} (entry : Value)
        → ((definition : TaskDefinition) → ¬ IsTaskEntry entry definition)
        → Reads entries definitions
        → Reads (entry ∷ entries) definitions

  read_definition-eq-some :
      (entry : Value) (o : Object) (definition : TaskDefinition)
      → as_object? entry ≡ some o
      → read_definition json o ≡ some definition
      → IsTaskEntry entry definition
  unfolding read_definition
  read_definition-eq-some entry o definition e h =
      elim (Option-cases (string_at json o (bytes "name"))) [
        | inl unnamed ↦ absurd (ground arith)
        | inr (name, named) ↦ elim (Option-cases (string_at json o (bytes "executable"))) [
          | inl idle ↦ absurd (ground arith)
          | inr (executable, executes) ↦ record {
            object = o;
            is_object = e;
            name = name;
            named = named;
            executable = executable;
            executes = executes;
            name_of = ground arith;
            executable_of = ground arith;
          }
        ]
      ]

  read_entry-eq-some :
      (entry : Value) (definition : TaskDefinition)
      → read_entry json entry ≡ some definition
      → IsTaskEntry entry definition
  unfolding read_entry
  read_entry-eq-some entry definition h = elim (Option-cases (as_object? entry)) [
    | inl e ↦ absurd (ground arith)
    | inr (o, e) ↦ read_definition-eq-some entry o definition e (rw (e, read_entry) at h)
  ]

  read_entry-eq-none :
      (entry : Value)
      → read_entry json entry ≡ none
      → (definition : TaskDefinition) → ¬ IsTaskEntry entry definition
  unfolding read_entry read_definition
  read_entry-eq-none entry h definition t =
      let e = t.is_object in let named = t.named in let executes = t.executes in ground arith

  -- The whitelist holds the entries of the array that are objects with a name and an executable, in
  -- their order, and no others.
  pub read_whitelist-Reads : (entries : List Value) → Reads entries (read_whitelist json entries)
  unfolding read_whitelist
  read_whitelist-Reads [] = all_read
  read_whitelist-Reads (entry ∷ rest) = elim (Option-cases (read_entry json entry)) [
    | inl e ↦ rw e (ignored entry (read_entry-eq-none entry e) (read_whitelist-Reads rest))
    | inr (d, e) ↦ rw e (taken entry d (read_entry-eq-some entry d e) (read_whitelist-Reads rest))
  ]

  module _ (file : Text → Option Text) (arguments : ArgumentParser) where
    -- The configured file can be read and holds a JSON object.
    pub record Holds (m : Object) : Type 0 where
      pub contents : Text
      pub readable : file (config_path_of arguments) ≡ some contents
      pub value : Value
      pub parsed : parse contents ≡ some value
      pub is_object : as_object? value ≡ some m

    -- The text of a setting, by where it comes from.
    pub data TextFrom (option key default : Text) : Text → Type 0 where
      by_option : (s : Text) → arguments.to_string option ≡ some s → TextFrom option key default s
      by_file :
          (m : Object) (s : Text)
          → arguments.to_string option ≡ none
          → Holds m
          → string_at json m key ≡ some s
          → TextFrom option key default (c_str s)
      by_default :
          arguments.to_string option ≡ none
          → ((m : Object) → Holds m → string_at json m key ≡ none)
          → TextFrom option key default default

    -- The number of a setting: that of the file is cast to 32 bits.
    pub data NumberFrom (option key : Text) (default : ℤ) : ℤ → Type 0 where
      by_option : (n : ℤ) → arguments.to_int option ≡ some n → NumberFrom option key default n
      by_file :
          (m : Object) (n : ℤ)
          → arguments.to_int option ≡ none
          → Holds m
          → int64_at json m key ≡ some n
          → NumberFrom option key default (to_int32 n)
      by_default :
          arguments.to_int option ≡ none
          → ((m : Object) → Holds m → int64_at json m key ≡ none)
          → NumberFrom option key default default

    Holds-unique : (m n : Object) → Holds m → Holds n → m ≡ n
    Holds-unique m n h k =
        let a = h.readable in
        let b = k.readable in
        let c = h.parsed in let d = k.parsed in let e = h.is_object in let f = k.is_object in cc

    -- The file as `load` reads it: an object of the file, or nothing.
    abbrev Loads : (c : Configurations) → Type 0
    Loads c =
        ((m : Object) × Holds m
          × (load json (file (config_path_of arguments)) c ≡ load_message json m c))
        ⊎ (((m : Object) → ¬ Holds m) × (load json (file (config_path_of arguments)) c ≡ c))

    load-Loads : (c : Configurations) → Loads c
    unfolding load
    load-Loads c = elim (Option-cases (file (config_path_of arguments))) [
      | inl missing ↦ inr ((λ m h. absurd (let readable = h.readable in cc)), rw (missing, load))
      | inr (contents, readable) ↦ elim (Option-cases (parse contents)) [
        | inl broken ↦ inr (
          (λ m h. absurd (let a = h.readable in let b = h.parsed in cc)),
          rw (readable, load, broken, load),
        )
        | inr (v, parsed) ↦ elim (Option-cases (as_object? v)) [
          | inl other ↦ inr (
            (λ m h. absurd (let a = h.readable in let b = h.parsed in let d = h.is_object in cc)),
            rw (readable, load, parsed, load, other, load),
          )
          | inr (m, object) ↦ inl (
            m,
            record {
              contents = contents;
              readable = readable;
              value = v;
              parsed = parsed;
              is_object = object;
            },
            rw (readable, load, parsed, load, object, load),
          )
        ]
      ]
    ]

    -- A field that the file may set, by what the file holds.
    abbrev Loaded {ℓ} : {A : Type ℓ} → (Object → A) → A → A → Type ℓ
    Loaded read default loaded =
        ((m : Object) × Holds m × (loaded ≡ read m))
        ⊎ (((m : Object) → ¬ Holds m) × (loaded ≡ default))

    Loads-Loaded {ℓ} :
        {A : Type ℓ} (get : Configurations → A) (c : Configurations)
        → Loads c
        → Loaded
            (λ m. get (load_message json m c))
            (get c)
            (get (load json (file (config_path_of arguments)) c))
    Loads-Loaded get c (inl (m, h, e)) = inl (m, h, ap get e)
    Loads-Loaded get c (inr (nothing, e)) = inr (nothing, ap get e)

    or_else-TextFrom :
        (option key default loaded : Text)
        → Loaded (λ m. read_string json m key default) default loaded
        → TextFrom option key default (or_else (arguments.to_string option) loaded)
    unfolding read_string
    or_else-TextFrom option key default loaded h =
        elim (Option-cases (arguments.to_string option)) [
          | inr (s, given) ↦ rw given (TextFrom.by_option s given)
          | inl missing ↦ rw missing (text_from option key default loaded missing h)
        ]
      where
        text_from :
            (option key default loaded : Text)
            → arguments.to_string option ≡ none
            → Loaded (λ m. read_string json m key default) default loaded
            → TextFrom option key default loaded
        text_from option key default loaded missing (inr (nothing, e)) =
            rw e (TextFrom.by_default missing (λ m h. absurd (nothing m h)))
        text_from option key default loaded missing (inl (m, h, e)) =
            elim (Option-cases (string_at json m key)) [
              | inr (s, found) ↦ rw (e, found, read_string) (TextFrom.by_file m s missing h found)
              | inl absent ↦
                  rw (e, absent, read_string)
                    (TextFrom.by_default missing (λ n k. rw (Holds-unique n m k h) absent))
            ]

    or_else-NumberFrom :
        (option key : Text) (default loaded : ℤ)
        → Loaded (λ m. read_int json m key default) default loaded
        → NumberFrom option key default (or_else (arguments.to_int option) loaded)
    unfolding read_int
    or_else-NumberFrom option key default loaded h = elim (Option-cases (arguments.to_int option)) [
      | inr (n, given) ↦ rw given (NumberFrom.by_option n given)
      | inl missing ↦ rw missing (number_from option key default loaded missing h)
    ]
      where
        number_from :
            (option key : Text) (default loaded : ℤ)
            → arguments.to_int option ≡ none
            → Loaded (λ m. read_int json m key default) default loaded
            → NumberFrom option key default loaded
        number_from option key default loaded missing (inr (nothing, e)) =
            rw e (NumberFrom.by_default missing (λ m h. absurd (nothing m h)))
        number_from option key default loaded missing (inl (m, h, e)) =
            elim (Option-cases (int64_at json m key)) [
              | inr (n, found) ↦ rw (e, found, read_int) (NumberFrom.by_file m n missing h found)
              | inl absent ↦
                  rw (e, absent, read_int)
                    (NumberFrom.by_default missing (λ o k. rw (Holds-unique o m k h) absent))
            ]

    -- Each of the six settings that both sources can give is the command line's value, if it has one;
    -- else what the file holds under the setting's name, if the file can be read, parses to an object
    -- and has a value of the right kind there: a string up to its first NUL byte, or an integer cast
    -- to 32 bits; else the default. A file that cannot be read or parsed changes none of them.
    pub configurations_precedence :
        (information : ℤ)
        → let c = configurations json information file arguments in
          TextFrom
            (bytes "--sqs_request_queue_url")
            (bytes "sqs_request_queue_url")
            []
            c.sqs_request_queue_url
          × TextFrom (bytes "--redis_host") (bytes "redis_host") (bytes "127.0.0.1") c.redis_host
          × TextFrom (bytes "--aws_endpoint") (bytes "aws_endpoint") [] c.aws_endpoint
          × TextFrom
              (bytes "--worker_title")
              (bytes "worker_title")
              (bytes "TaskForgeWorker")
              c.worker_title
          × NumberFrom
              (bytes "--write_console_log")
              (bytes "write_console_log")
              information
              c.write_console_log
          × NumberFrom
              (bytes "--write_file_log")
              (bytes "write_file_log")
              information
              c.write_file_log
    unfolding configurations validate_configuration parse_arguments load_message
        default_configurations
    configurations_precedence information =
        let start =
          default_configurations information arguments.program_folder (config_path_of arguments) in
        let loads = load-Loads start in
        (
          or_else-TextFrom _ _ _ _ (Loads-Loaded (λ c. c.sqs_request_queue_url) start loads),
          or_else-TextFrom _ _ _ _ (Loads-Loaded (λ c. c.redis_host) start loads),
          or_else-TextFrom _ _ _ _ (Loads-Loaded (λ c. c.aws_endpoint) start loads),
          or_else-TextFrom _ _ _ _ (Loads-Loaded (λ c. c.worker_title) start loads),
          or_else-NumberFrom _ _ _ _ (Loads-Loaded (λ c. c.write_console_log) start loads),
          or_else-NumberFrom _ _ _ _ (Loads-Loaded (λ c. c.write_file_log) start loads),
        )
