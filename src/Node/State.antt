-- ===== src/Node/State.antt =====
-- include/crps/node.h: the members of a `Node`, with its publishers and subscribers by their indices
-- wherever the code keeps pointers to them; and the parts of src/node.cpp that only make them.
pub mod Order
use cpp_rt_pubsub.Prelude.{
  ℕ, zero, suc, ◌+◌, ◌<◌, Bool, true, false, String, List, [], ◌∷◌, ◌++◌, map, Bytes, length, ℤ,
  pos, negsuc, int_eq, ltb, ◌==◌, if◌then◌else◌,
}
use cpp_rt_pubsub.Protocol.{bp_header_size, bp_data_header_size}
use cpp_rt_pubsub.Publisher.{Publisher, new_publisher}
use cpp_rt_pubsub.Subscriber.{Subscriber, new_subscriber}
use cpp_rt_pubsub.Node.Incoming.{Receiver}

pub record TopicInfo : Type 0 where
  pub publishers : List ℕ
  pub subscribers : List ℕ

abbrev pub no_clients : TopicInfo
no_clients = record { publishers = []; subscribers = [] }

abbrev pub push_publisher : ℕ → TopicInfo → TopicInfo
push_publisher i info = record info { publishers = info.publishers ++ i ∷ [] }

abbrev pub push_subscriber : ℕ → TopicInfo → TopicInfo
push_subscriber i info = record info { subscribers = info.subscribers ++ i ∷ [] }

-- `topics_by_prio` is in the order of its iteration.
pub record Node : Type 0 where
  pub name : String
  pub node_id : ℕ
  pub publishers : List Publisher
  pub subscribers : List Subscriber
  pub topics : List (ℕ × TopicInfo)
  pub topics_by_prio : List (ℤ × TopicInfo)
  pub bp_counter : ℕ
  pub buffer : Bytes

-- The constructor; the broker's address is that of the one peer.
abbrev pub new_node : String → Bytes → Node
new_node p_name buffer = record {
  name = p_name;
  node_id = 0;
  publishers = [];
  subscribers = [];
  topics = [];
  topics_by_prio = [];
  bp_counter = 0;
  buffer = buffer;
}

-- The index stands for the pointer that is returned.
unfoldable pub create_publisher : Node → String → String → ℕ → ℤ → Node × ℕ
create_publisher n p_topic_name p_type_name p_message_size p_topic_priority =
    let made =
      new_publisher p_topic_name p_type_name p_message_size p_topic_priority
        (bp_header_size + bp_data_header_size) in
    (record n { publishers = n.publishers ++ made ∷ [] }, length n.publishers)

unfoldable pub create_subscriber : Node → String → String → ℕ → ℤ → Node × ℕ
create_subscriber n p_topic_name p_type_name p_message_size p_topic_priority =
    let made = new_subscriber p_topic_name p_type_name p_message_size p_topic_priority in
    (record n { subscribers = n.subscribers ++ made ∷ [] }, length n.subscribers)

-- `m_topics[id]`, which is made if it is missing, changed.
unfoldable pub change_topic :
    ℕ → (TopicInfo → TopicInfo) → List (ℕ × TopicInfo) → List (ℕ × TopicInfo)
change_topic id change [] = (id, change no_clients) ∷ []
change_topic id change ((k, info) ∷ m) =
    if k == id then (k, change info) ∷ m else (k, info) ∷ change_topic id change m

-- `TopicsComparator`: a higher priority comes first.
unfoldable pub before : ℤ → ℤ → Bool
before (pos a) (pos b) = ltb b a
before (pos a) (negsuc b) = true
before (negsuc a) (pos b) = false
before (negsuc a) (negsuc b) = ltb a b

-- The same of `m_topics_by_prio`.
unfoldable pub change_prio :
    ℤ → (TopicInfo → TopicInfo) → List (ℤ × TopicInfo) → List (ℤ × TopicInfo)
change_prio prio change [] = (prio, change no_clients) ∷ []
change_prio prio change ((k, info) ∷ m) =
    if int_eq k prio
    then (k, change info) ∷ m
    else if before prio k
    then (prio, change no_clients) ∷ (k, info) ∷ m
    else (k, info) ∷ change_prio prio change m

-- What `receive_message` and `process_incoming_message` see of a node, and change.
abbrev pub receiver : Node → Receiver
receiver n = record {
  subscribers = n.subscribers;
  topics = map (λ (t : ℕ × TopicInfo). (t.0, t.1.subscribers)) n.topics;
  buffer = n.buffer;
}

abbrev pub with_receiver : Node → Receiver → Node
with_receiver n r = record n { subscribers = r.subscribers; buffer = r.buffer }
