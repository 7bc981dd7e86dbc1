-- ===== src/Configurations/Tests.antt =====
-- Tests and witnesses of the settings.
use yirang_taskforge.Prelude.{
  c_str, ◌≡◌, refl, List, [], ◌∷◌, Option, none, some, Text, bytes, ℤ, pos, arith,
}
use yirang_taskforge.Json.{lookup, string_at}
use yirang_taskforge.Json.Tree.{
  Tree, tree_json, string, integer, object, of_fields, serialize, as_string?, as_object?,
}
use yirang_taskforge.Configurations.{
  Configurations, ArgumentParser, read_string, read_definition, read_entry, read_whitelist,
  validate_configuration, configurations,
}
use yirang_taskforge.Configurations.Ranges.{IsValid, configurations-IsValid}
use yirang_taskforge.Configurations.Sources.{
  Reads, TextFrom, NumberFrom, read_whitelist-Reads, configurations_precedence,
}
use yirang_taskforge.Samples.{Fields, config}

-- A command line without options.
abbrev arguments : ArgumentParser
arguments = record {
  program_folder = bytes "/app";
  to_string = λ name. none;
  to_int = λ name. none;
}

abbrev settings : Fields
settings =
    (bytes "redis_host", string (bytes "redis")) ∷ (bytes "redis_port", integer (pos 70000)) ∷ []

-- Every path holds the settings.
abbrev file : Text → Option Text
file path = some (serialize settings)

abbrev information : ℤ
information = pos 4

port_reset :
    (validate_configuration (record config { redis_port = pos 70000 })).redis_port ≡ pos 6379
unfolding validate_configuration
port_reset = refl

wait_of_zero_kept :
    (validate_configuration (record config { sqs_wait_time_seconds = pos 0 })).sqs_wait_time_seconds
    ≡ pos 0
unfolding validate_configuration
wait_of_zero_kept = refl

abbrev entries : List Tree
entries =
    object (
      of_fields
        ((bytes "name", string (bytes "a")) ∷ (bytes "executable", string (bytes "a.sh")) ∷ []))
    ∷ integer (pos 1)
    ∷ object (of_fields ((bytes "name", string (bytes "b")) ∷ []))
    ∷ []

one_task :
    read_whitelist tree_json entries
    ≡ record { name = bytes "a"; executable = bytes "a.sh"; description = [] } ∷ []
unfolding read_whitelist read_entry read_definition read_string string_at lookup as_string?
    as_object? of_fields c_str
one_task = refl

configurations-IsValid_example : IsValid (configurations tree_json information file arguments)
configurations-IsValid_example = configurations-IsValid tree_json information file arguments

config-IsValid : IsValid config
config-IsValid = record {
  redis_port_pos = omega arith;
  redis_port_le = omega arith;
  redis_ttl_nonneg = omega arith;
  wait_nonneg = omega arith;
  wait_le = omega arith;
  visibility_pos = omega arith;
  messages_pos = omega arith;
  messages_le = omega arith;
  presign_pos = omega arith;
  retries_nonneg = omega arith;
  timeout_pos = omega arith;
  high_nonneg = omega arith;
  normal_nonneg = omega arith;
  low_nonneg = omega arith;
}

read_whitelist-Reads_example : Reads tree_json entries (read_whitelist tree_json entries)
read_whitelist-Reads_example = read_whitelist-Reads tree_json entries

abbrev built : Configurations
built = configurations tree_json information file arguments

configurations_precedence_example :
    TextFrom tree_json file arguments
      (bytes "--sqs_request_queue_url")
      (bytes "sqs_request_queue_url")
      []
      built.sqs_request_queue_url
    × TextFrom tree_json file arguments
        (bytes "--redis_host")
        (bytes "redis_host")
        (bytes "127.0.0.1")
        built.redis_host
    × TextFrom tree_json file arguments
        (bytes "--aws_endpoint")
        (bytes "aws_endpoint")
        []
        built.aws_endpoint
    × TextFrom tree_json file arguments
        (bytes "--worker_title")
        (bytes "worker_title")
        (bytes "TaskForgeWorker")
        built.worker_title
    × NumberFrom tree_json file arguments
        (bytes "--write_console_log")
        (bytes "write_console_log")
        information
        built.write_console_log
    × NumberFrom tree_json file arguments
        (bytes "--write_file_log")
        (bytes "write_file_log")
        information
        built.write_file_log
configurations_precedence_example = configurations_precedence tree_json file arguments information
