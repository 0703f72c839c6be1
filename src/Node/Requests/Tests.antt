-- ===== src/Node/Requests/Tests.antt =====
-- Registrations over the protocol at concrete inputs.
use cpp_rt_pubsub.Prelude.{◌≡◌, ok, ◌>>=◌, arith}
use cpp_rt_pubsub.Json.Sample.{sample, sample-IsLawful}
use cpp_rt_pubsub.Broker.{new_broker}
use cpp_rt_pubsub.Broker
use cpp_rt_pubsub.Broker.Control.{process_control_request}
use cpp_rt_pubsub.Node.Requests.{register_node, register_message_type, request_json}
use cpp_rt_pubsub.Node.Requests.Answers.{serve, answer_json}
use cpp_rt_pubsub.Node.Requests.Served.{process_control_request_lem}
use cpp_rt_pubsub.Node.Requests.Replies.{registered, registered_lem}

process_control_request_lem_example :
    process_control_request sample new_broker "10.0.0.1:9"
      (request_json sample 3 (register_message_type "Pose" 24))
    ≡ (serve new_broker "10.0.0.1:9" (register_message_type "Pose" 24) >>= λ s.
        ok (s.0, answer_json sample 3 s.1))
process_control_request_lem_example =
    process_control_request_lem sample sample-IsLawful 3 (omega arith) new_broker "10.0.0.1:9"
      (register_message_type "Pose" 24) (omega arith)

registered_lem_example :
    (registered sample sample-IsLawful 3 new_broker "10.0.0.1:9" (register_node "sensor") "node_id"
      ≡ ok (Broker.register_node new_broker "10.0.0.1:9" "sensor"))
    × (registered sample sample-IsLawful 3 new_broker "10.0.0.1:9"
          (register_message_type "sensor" 24)
          "message_type_id"
        ≡ ok (Broker.register_message_type new_broker "sensor" 24))
registered_lem_example =
    registered_lem sample sample-IsLawful 3 (omega arith) new_broker "10.0.0.1:9" "sensor" 24
      (omega arith)
