-- ===== src/Demo/ParseOptions.antt =====
-- src/demo/parse_options.cpp. The command line is the list of `argv` from `argv[1]` on; behind its end
-- there is a null pointer.
pub mod Pairs
mod Tests
use cpp_rt_pubsub.Prelude.{
  Bool, true, false, String, List, [], ◌∷◌, Option, none, some, Result, ok, err, out_of_bounds,
  str_eq, if◌then◌else◌,
}
use cpp_rt_pubsub.Json.{lookup}

abbrev pub Options : Type 0
Options = List (String × String)

abbrev pub option_names : List (String × String)
option_names =
    ("--node_name", "node_name")
    ∷ ("--topic_name", "topic_name")
    ∷ ("--topic_priority", "topic_priority")
    ∷ ("--message_type_name", "message_type_name")
    ∷ ("--broker_ip", "broker_ip")
    ∷ ("--bench_node_type", "bench_node_type")
    ∷ ("--message_size", "message_size")
    ∷ ("--publish_period_ms", "publish_period_ms")
    ∷ ("--publish_count", "publish_count")
    ∷ []

-- `options[option_name] = value`.
unfoldable pub set_option : String → String → Options → Options
set_option k v [] = (k, v) ∷ []
set_option k v ((j, w) ∷ m) = if str_eq j k then (k, v) ∷ m else (j, w) ∷ set_option k v m

-- The loop from `argv[i]` on. The value of an option at the end of the line would be a string that is
-- made of a null pointer.
unfoldable pub parse_from : List String → Options → Result Options
parse_from [] options = ok options
parse_from (arg ∷ []) options = elim (lookup arg option_names) [
  | none ↦ ok options
  | some name ↦ err out_of_bounds
]
parse_from (arg ∷ value ∷ rest) options = elim (lookup arg option_names) [
  | none ↦ parse_from (value ∷ rest) options
  | some name ↦ parse_from rest (set_option name value options)
]

abbrev pub parse_options : List String → Result Options
parse_options argv = parse_from argv []

unfoldable pub option_or_default : Options → String → String → String
option_or_default p_options p_option_name p_default_value = elim (lookup p_option_name p_options) [
  | none ↦ p_default_value
  | some value ↦ value
]
