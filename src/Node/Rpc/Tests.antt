-- ===== src/Node/Rpc/Tests.antt =====
-- A node's first RPC to a new broker, and its registration.
use cpp_rt_pubsub.Prelude.{
  ◌++◌, ◌∙◌, ap, drop, ◌>>=◌, ◌≡◌, refl, true, String, [], ◌∷◌, ◌<◌, length, some, Bytes, ok, arith,
  replicate,
}
use cpp_rt_pubsub.Json.Sample.{sample, sample-IsLawful}
use cpp_rt_pubsub.Protocol.RoundTrip.{control_packet}
use cpp_rt_pubsub.Broker.Control.{process_control_request}
use cpp_rt_pubsub.Broker.Spin.{received, spin_round}
use cpp_rt_pubsub.Broker.Spin.Answer.{spin_round-control}
use cpp_rt_pubsub.Node.Requests.Served.{process_control_request_lem}
use cpp_rt_pubsub.Broker.{Broker, new_broker, verify_and_update_client_counter, assign, find_from}
use cpp_rt_pubsub.Broker
use cpp_rt_pubsub.Node.Requests.{request_json}
use cpp_rt_pubsub.Node.Requests
use cpp_rt_pubsub.Node.Requests.Answers.{node_id, answer_json, success_json, serve, or_refused}
use cpp_rt_pubsub.Node.Registration.{register_node}
use cpp_rt_pubsub.Node.Registration.Connected.{keep_id, is_given, register_node_lem}
use cpp_rt_pubsub.Node.State.{Node, new_node}
use cpp_rt_pubsub.Node.Rpc.{broker_rpc_blocking}
use cpp_rt_pubsub.Node.Rpc.Broker.{World, accept_all, broker_network}
use cpp_rt_pubsub.Node.Rpc.Broker.Exchange.{world_after, node_after, broker_rpc_blocking_lem}
use cpp_rt_pubsub.Json.{lookup}
use cpp_rt_pubsub.Json.Sample.{to_fields}
use cpp_rt_pubsub.Json.Sample.Code.{encode, encode_fields}
use cpp_rt_pubsub.Json.Sample.Text.{encode_text}

abbrev sensor : Node
sensor = new_node "sensor" (replicate 200 0)

abbrev address : String
address = "10.0.0.1:9"

abbrev world : World
world = record {
  server = record { broker = new_broker; buffer = replicate 200 0; sent = [] };
  running = true;
  inbox = [];
}

abbrev counted : Broker
counted = record new_broker { client_counters = (address, 1) ∷ [] }

accepted : verify_and_update_client_counter world.server.broker address 1 ≡ (counted, true)
unfolding verify_and_update_client_counter lookup assign
accepted = refl

abbrev registered : Broker
registered = record counted { nodes = record { name = "sensor"; address = address } ∷ [] }

-- What the sample library writes for a value.
written : sample.Value → Bytes
unfolding sample encode encode_fields encode_text to_fields
written v = encode v

abbrev request : sample.Value
request = request_json sample 0 (Requests.register_node "sensor")

abbrev answer : sample.Value
answer = answer_json sample 0 (node_id 0)

dump-written : (v : sample.Value) → sample.dump v ≡ some (written v)
unfolding sample written
dump-written v = refl

request-small : length (written request) < 160
unfolding written sample encode encode_fields encode_text to_fields
request-small = omega arith

answer-small : length (written answer) < 160
unfolding written sample encode encode_fields encode_text to_fields answer_json success_json
answer-small = omega arith

served : serve counted address (Requests.register_node "sensor") ≡ ok (registered, node_id 0)
unfolding serve Broker.register_node find_from
served = refl

broker_rpc_blocking_lem_example :
    broker_rpc_blocking sample (broker_network sample true address) sensor world request
    ≡ ok (
      node_after sensor (control_packet 1 (written answer)),
      world_after address world registered
          (control_packet 1 (written request))
          (control_packet 1 (written answer)),
      answer,
    )
unfolding written
broker_rpc_blocking_lem_example =
    broker_rpc_blocking_lem sample sample-IsLawful true address sensor world
      (Requests.register_node "sensor") counted registered (node_id 0) (written request)
      (written answer) refl refl (omega arith) tt accepted served (dump-written request)
      (dump-written answer) (omega (arith, request-small)) (omega (arith, answer-small))
      (omega (arith, request-small)) (omega arith) (omega (arith, answer-small)) (omega arith)

given : Broker.register_node counted address "sensor" ≡ (registered, some 0)
unfolding Broker.register_node find_from
given = refl

register_node_lem_example :
    register_node sample (broker_network sample true address) sensor world
    ≡ ok (
      keep_id
          (Broker.register_node counted address "sensor").1
          (node_after sensor (control_packet 1 (written answer))),
      world_after address world
          (Broker.register_node counted address "sensor").0
          (control_packet 1 (written request))
          (control_packet 1 (written answer)),
      is_given (Broker.register_node counted address "sensor").1,
    )
unfolding written Broker.register_node find_from or_refused
register_node_lem_example =
    register_node_lem sample sample-IsLawful true address sensor world counted (written request)
      (written answer) refl refl (omega arith) accepted (dump-written request) (dump-written answer)
      (omega (arith, request-small)) (omega (arith, answer-small)) (omega (arith, request-small))
      (omega arith) (omega (arith, answer-small)) (omega arith)

handled : process_control_request sample counted address request ≡ ok (registered, answer)
handled =
    process_control_request_lem sample sample-IsLawful 0 (omega arith) counted address
      (Requests.register_node "sensor") tt
    ∙ ap (λ r. r >>= λ s. ok (s.0, answer_json sample 0 s.1)) served

spin_round-control_example :
    spin_round sample true accept_all world.server
      (received address (control_packet 1 (written request)))
    ≡ ok (
      record {
        broker = registered;
        buffer =
            control_packet 1 (written request)
            ++ drop (length (control_packet 1 (written request))) world.server.buffer;
        sent = [] ++ (address, control_packet 1 (written answer)) ∷ [];
      },
      true,
    )
spin_round-control_example =
    spin_round-control sample sample-IsLawful true accept_all world.server address 1 request answer
      (written request) (written answer) counted registered (omega arith) (dump-written request)
      (omega (arith, request-small)) (omega (arith, request-small)) (omega arith) accepted handled
      (dump-written answer)
