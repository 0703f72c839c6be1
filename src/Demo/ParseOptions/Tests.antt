-- ===== src/Demo/ParseOptions/Tests.antt =====
-- A command line with a repeated option.
use cpp_rt_pubsub.Prelude.{◌≡◌, refl, String, List, [], ◌∷◌, ◌++◌, none, ok, err, out_of_bounds}
use cpp_rt_pubsub.Json.{lookup}
use cpp_rt_pubsub.Demo.ParseOptions.{Options, parse_options, option_or_default}
use cpp_rt_pubsub.Demo.ParseOptions.Pairs.{
  Pair, IsKnown, command_line, last_value, or_default, parse_options_pairs,
  parse_options_missing_value,
}

abbrev ip : Pair
ip = record { written = "--broker_ip"; name = "broker_ip"; value = "10.0.0.1" }

abbrev name : Pair
name = record { written = "--node_name"; name = "node_name"; value = "sensor" }

abbrev line : List Pair
line = ip ∷ name ∷ record ip { value = "10.0.0.2" } ∷ []

ip-IsKnown : IsKnown ip
unfolding lookup
ip-IsKnown = refl

name-IsKnown : IsKnown name
unfolding lookup
name-IsKnown = refl

parse_options_pairs_example :
    (o : Options) × (parse_options (command_line line) ≡ ok o)
    × ((n d : String) → option_or_default o n d ≡ or_default (last_value n line none) d)
parse_options_pairs_example =
    parse_options_pairs line (ip-IsKnown, (name-IsKnown, (ip-IsKnown, tt)))

parse_options_missing_value_example :
    parse_options (command_line line ++ "--broker_ip" ∷ []) ≡ err out_of_bounds
parse_options_missing_value_example =
    parse_options_missing_value line ip (ip-IsKnown, (name-IsKnown, (ip-IsKnown, tt))) ip-IsKnown
