-- ===== src/Node/Registration/Tests.antt =====
-- A node with a publisher and a subscriber connects to a broker.
use cpp_rt_pubsub.Prelude.{◌≡◌, refl, true, List, [], ◌∷◌, Ensures, arith, pos, replicate}
use cpp_rt_pubsub.Json.Sample.{sample, sample-IsLawful}
use cpp_rt_pubsub.Broker.{new_broker}
use cpp_rt_pubsub.Publisher.{Publisher, new_publisher}
use cpp_rt_pubsub.Subscriber.{Subscriber, new_subscriber}
use cpp_rt_pubsub.Node.State.{Node, new_node, before, change_prio}
use cpp_rt_pubsub.Node.State.Order.{Descending}
use cpp_rt_pubsub.Node.Loop.Kept.{IsValid}
use cpp_rt_pubsub.Node.Rpc.Broker.{World, broker_network}
use cpp_rt_pubsub.Node.Registration.{connect, list_subscriber}
use cpp_rt_pubsub.Node.Registration.Listed.{Listed}
use cpp_rt_pubsub.Node.Registration.Safe.{Client, publisher, subscriber, create, connect-IsValid}

abbrev clients : List Client
clients = publisher "/pose" "Pose" 24 (pos 5) ∷ subscriber "/alarm" "Alarm" 2 (pos 9) ∷ []

abbrev world : World
world = record {
  server = record { broker = new_broker; buffer = replicate 64 0; sent = [] };
  running = true;
  inbox = [];
}

connect-IsValid_example :
    Ensures
      (λ r. IsValid r.0 × Descending r.0.topics_by_prio)
      (connect sample
        (broker_network sample true "10.0.0.1:9")
        true
        true
        (create clients (new_node "robot" (replicate 64 0)))
        world)
connect-IsValid_example =
    connect-IsValid sample sample-IsLawful (broker_network sample true "10.0.0.1:9") true true
      "robot" (replicate 64 0) clients world (omega arith)
      (omega arith, ((omega arith, omega arith), tt))

-- A node with a topic of priority 5, and a client of one of priority 9.
abbrev pose_node : Node
pose_node = record (new_node "robot" []) {
  topics = (3, record { publishers = 0 ∷ []; subscribers = [] }) ∷ [];
  topics_by_prio = (pos 5, record { publishers = 0 ∷ []; subscribers = [] }) ∷ [];
}

abbrev alarm_publisher : Publisher
alarm_publisher = record (new_publisher "/alarm" "Alarm" 2 (pos 9) 17) { topic_id = 4 }

abbrev alarm_subscriber : Subscriber
alarm_subscriber = record (new_subscriber "/alarm" "Alarm" 2 (pos 9)) { topic_id = 4 }

alarm_first :
    (list_subscriber pose_node 1 alarm_subscriber).topics_by_prio
    ≡ (pos 9, record { publishers = []; subscribers = 1 ∷ [] })
      ∷ (pos 5, record { publishers = 0 ∷ []; subscribers = [] })
      ∷ []
unfolding list_subscriber change_prio before
alarm_first = refl
