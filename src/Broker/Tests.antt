-- ===== src/Broker/Tests.antt =====
-- A broker with two nodes and a topic: its theorems at concrete inputs.
use cpp_rt_pubsub.Prelude.{
  ℕ, ◌+◌, ◌≡◌, ◌≢◌, refl, Bool, true, false, String, List, [], ◌∷◌, ◌++◌, none, some, Bytes, ok,
  err, Ensures, out_of_bounds, pos, int_eq_refl, arith, length, replicate, drop, str_eq, eq_iff,
  ◌==◌, if◌then◌else◌,
}
use cpp_rt_pubsub.Json.{lookup}
use cpp_rt_pubsub.Json.Sample.{sample}
use cpp_rt_pubsub.Protocol.{Packet, blank, bp_fill_data_header, data_message}
use cpp_rt_pubsub.Broker.{
  Broker, Topic, to_u32, find_from, index, assign, register_node, register_message_type,
  register_topic,
}
use cpp_rt_pubsub.Broker.Inv.{IsValid, register_message_type-IsValid}
use cpp_rt_pubsub.Broker.Counters.{
  verify_all, counters_after, in_sequence-accepted, lost_packet_locks_out,
}
use cpp_rt_pubsub.Broker.Registry.{register_node_twice, register_message_type_twice}
use cpp_rt_pubsub.Broker.Agreement.{register_topic_unknown_type}
use cpp_rt_pubsub.Broker.Stable.{Extends, register_node-Extends, register_message_type-Extends}
use cpp_rt_pubsub.Broker.Spin.{
  Server, Event, recv_failed, received, Datagram, forward_data, spin_round, spin,
}
use cpp_rt_pubsub.Broker.Spin.Safe.{spin-IsValid, spin-Extends}
use cpp_rt_pubsub.Broker.Spin.Deliver.{
  audience, deliveries, forward_data-audience, forward_data_debug_faults,
}
use cpp_rt_pubsub.Broker.Spin.Round.{spin_round-data}

abbrev sensor : String
sensor = "10.0.0.1:9"

abbrev pose_topic : Topic
pose_topic = record {
  name = "/pose";
  message_type_id = 0;
  priority = pos 5;
  publishers = 0 ∷ [];
  subscribers = 1 ∷ [];
}

abbrev two_nodes : Broker
two_nodes = record {
  client_counters = (sensor, 6) ∷ [];
  nodes =
      record { name = "sensor"; address = sensor }
      ∷ record { name = "display"; address = "10.0.0.2:9" }
      ∷ [];
  message_types = record { name = "Pose"; size = 24 } ∷ [];
  topics = pose_topic ∷ [];
}

differ : (s t : String) → str_eq s t ≡ false → s ≢ t
differ s t h e = ground (arith, (eq_iff s t).1 e)

two_nodes-IsValid : IsValid two_nodes
two_nodes-IsValid = record {
  node_names = ((differ "sensor" "display" refl, tt), (tt, tt));
  type_names = (tt, tt);
  topic_names = (tt, tt);
  topics = (
    record { typed = omega arith; published = (omega arith, tt); subscribed = (omega arith, tt) },
    tt,
  );
}

abbrev server : Server
server = record { broker = two_nodes; buffer = replicate 32 0; sent = [] }

-- Every `sendto` succeeds.
abbrev accept_all : List Datagram → String → Bytes → Bool
accept_all sent address packet = true

abbrev events : List Event
events = recv_failed ∷ received sensor (0 ∷ 0 ∷ []) ∷ []

spin-IsValid_example : Ensures (λ r. IsValid r.0.broker) (spin sample true accept_all server events)
spin-IsValid_example = spin-IsValid sample true accept_all events server two_nodes-IsValid

spin-Extends_example :
    Ensures (λ r. Extends two_nodes r.0.broker) (spin sample true accept_all server events)
spin-Extends_example = spin-Extends sample true accept_all events server

abbrev pose_packet : Packet sample.Value
pose_packet = record (blank sample) { header_type = data_message; counter = 7 }

forward_data-audience_example :
    forward_data sample true accept_all server (1 ∷ []) pose_packet
    ≡ ok (record server {
      sent = [] ++ deliveries two_nodes.nodes (1 ∷ []) (audience two_nodes 0 0);
    })
forward_data-audience_example =
    forward_data-audience sample true accept_all server (1 ∷ []) pose_packet two_nodes-IsValid
      (λ on. omega arith)

audience_of_pose : audience two_nodes 0 0 ≡ 1 ∷ []
unfolding audience
audience_of_pose = refl

forward_data_debug_faults_example :
    forward_data sample true accept_all server [] (record pose_packet { topic_id = 1 })
    ≡ err out_of_bounds
forward_data_debug_faults_example =
    forward_data_debug_faults sample true accept_all server [] (record pose_packet { topic_id = 1 })
      refl (omega arith)

sensor_counter : lookup sensor two_nodes.client_counters ≡ some 6
unfolding lookup
sensor_counter = refl

spin_round-data_example :
    (packet : Bytes) × (bp_fill_data_header (to_u32 (6 + 1)) 0 0 2 (replicate 17 0 ++ (8 ∷ 9 ∷ []))
      ≡ ok packet)
    × (drop 17 packet ≡ 8 ∷ 9 ∷ [])
    × (spin_round sample true accept_all server (received sensor packet)
        ≡ ok (
          record {
            broker = record two_nodes {
              client_counters = assign sensor (to_u32 (6 + 1)) two_nodes.client_counters;
            };
            buffer = packet ++ drop (length packet) server.buffer;
            sent = [] ++ deliveries two_nodes.nodes packet (audience two_nodes 0 0);
          },
          true,
        ))
spin_round-data_example =
    spin_round-data sample true accept_all server sensor 6 0 0 (replicate 17 0) (8 ∷ 9 ∷ [])
      two_nodes-IsValid sensor_counter (omega arith) (omega arith) (λ on. omega arith) refl
      (omega arith) (omega arith)

in_sequence-accepted_example :
    (verify_all two_nodes sensor (counters_after 6 3)).1 ≡ replicate 3 true
in_sequence-accepted_example = in_sequence-accepted 3 two_nodes sensor sensor_counter

lost_packet_locks_out_example :
    verify_all two_nodes sensor (counters_after (to_u32 (6 + 1)) 2) ≡ (two_nodes, replicate 2 false)
lost_packet_locks_out_example =
    lost_packet_locks_out 2 two_nodes sensor sensor_counter (omega arith)

node_is_new : (register_node two_nodes "10.0.0.3:9" "plotter").1 ≡ some 2
unfolding register_node find_from
node_is_new = refl

abbrev with_plotter : Broker
with_plotter = (register_node two_nodes "10.0.0.3:9" "plotter").0

-- Another node comes after the plotter.
abbrev with_camera : Broker
with_camera = (register_node with_plotter "10.0.0.4:9" "camera").0

register_node_twice_example :
    (index with_camera.nodes 2 ≡ ok (record { name = "plotter"; address = "10.0.0.3:9" }))
    × ((other : String) → register_node with_camera other "plotter" ≡ (with_camera, none))
register_node_twice_example =
    register_node_twice two_nodes with_camera "10.0.0.3:9" "plotter" node_is_new (omega arith)
      (register_node-Extends with_plotter "10.0.0.4:9" "camera")

type_is_known : (register_message_type two_nodes "Pose" 24).1 ≡ some 0
unfolding register_message_type find_from
type_is_known = refl

-- Another message type comes after "Pose".
abbrev with_image : Broker
with_image = (register_message_type (register_message_type two_nodes "Pose" 24).0 "Image" 8).0

register_message_type_twice_example :
    (index with_image.message_types 0 ≡ ok (record { name = "Pose"; size = 24 }))
    × ((other : ℕ)
        → register_message_type with_image "Pose" other
          ≡ (with_image, (if 24 == other then some 0 else none)))
register_message_type_twice_example =
    register_message_type_twice two_nodes with_image "Pose" 24 type_is_known (omega arith)
      (register_message_type-Extends (register_message_type two_nodes "Pose" 24).0 "Image" 8)
      (register_message_type-IsValid "Image" 8
        (register_message_type-IsValid "Pose" 24 two_nodes-IsValid))

abbrev with_scan : Broker
with_scan = record two_nodes {
  message_types = two_nodes.message_types ++ record { name = "Scan"; size = 8 } ∷ [];
}

register_topic_unknown_type_example :
    register_topic two_nodes "/image" 1 (pos 3) ≡ err out_of_bounds
register_topic_unknown_type_example =
    register_topic_unknown_type "/image" 1 two_nodes (pos 3) (differ "/image" "/pose" refl, tt)
      (omega arith) (λ e. ground (arith, int_eq_refl (pos 3)))
