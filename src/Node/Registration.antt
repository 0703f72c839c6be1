-- ===== src/Node/Registration.antt =====
-- src/node.cpp: `Node::register_node`, `register_message_type`, `register_topic`,
-- `register_publisher`, `register_subscriber` and `connect`.
pub mod Connected
pub mod Prepared
pub mod Listed
pub mod Asked
pub mod Publishers
pub mod Subscribers
pub mod Safe
mod Tests
use cpp_rt_pubsub.Prelude.{
  ℕ, zero, suc, ◌-◌, Bool, true, false, not, String, List, [], ◌∷◌, Option, none, some, Result, ok,
  ◌>>=◌, set, length, ℤ, if◌then◌else◌,
}
use cpp_rt_pubsub.Json.{Json}
use cpp_rt_pubsub.Broker.{index}
use cpp_rt_pubsub.Publisher.{Publisher}
use cpp_rt_pubsub.Publisher
use cpp_rt_pubsub.Subscriber.{Subscriber}
use cpp_rt_pubsub.Subscriber
use cpp_rt_pubsub.Node.Requests.{Request, request_json, is_success, read_id, read_topic}
use cpp_rt_pubsub.Node.Requests
use cpp_rt_pubsub.Node.State.{
  Node, TopicInfo, push_publisher, push_subscriber, change_topic, change_prio,
}
use cpp_rt_pubsub.Node.Rpc.{Network, broker_rpc_blocking}

-- `if (!ok) return failed`: what follows is given what there is.
abbrev or_return : {A R : Type 0} → Option A → R → (A → R) → R
or_return none failed next = failed
or_return (some a) failed next = next a

unfoldable pub set_publisher : Node → ℕ → Publisher → Node
set_publisher n i p = record n { publishers = set n.publishers i p }

unfoldable pub set_subscriber : Node → ℕ → Subscriber → Node
set_subscriber n i s = record n { subscribers = set n.subscribers i s }

-- The end of `register_publisher`: the publisher's topic and priority get a pointer to it.
unfoldable pub list_publisher : Node → ℕ → Publisher → Node
list_publisher n i p = record n {
  topics = change_topic p.topic_id (push_publisher i) n.topics;
  topics_by_prio = change_prio p.topic_priority (push_publisher i) n.topics_by_prio;
}

unfoldable pub list_subscriber : Node → ℕ → Subscriber → Node
list_subscriber n i s = record n {
  topics = change_topic s.topic_id (push_subscriber i) n.topics;
  topics_by_prio = change_prio s.topic_priority (push_subscriber i) n.topics_by_prio;
}

module _ (json : Json) {W : Type 0} (network : Network W) where
  -- A request, with the RPC ID of this moment, and what `read` takes from the response.
  unfoldable pub ask :
      {A : Type 0} → Node → W → Request → (json.Value → Result A) → Result (Node × W × A)
  ask n w r read = do
    s ← broker_rpc_blocking json network n w (request_json json n.bp_counter r)
    a ← read s.2
    ok (s.0, s.1, a)

  unfoldable pub register_node : Node → W → Result (Node × W × Bool)
  register_node n w = do
    s ← ask n w (Requests.register_node n.name) (read_id json "node_id")
    ok (or_return s.2 (s.0, s.1, false) (λ id. (record s.0 { node_id = id }, s.1, true)))

  unfoldable pub register_message_type : Node → W → String → ℕ → Result (Node × W × Option ℕ)
  register_message_type n w p_message_type_name p_message_size =
      ask n w (Requests.register_message_type p_message_type_name p_message_size)
        (read_id json "message_type_id")

  -- With `nullptr` for the actual priority, and without.
  unfoldable pub register_topic : Node → W → String → ℕ → ℤ → Result (Node × W × Option ℕ)
  register_topic n w p_topic_name p_message_type_id p_topic_priority =
      ask n w (Requests.register_topic p_topic_name p_message_type_id p_topic_priority)
        (read_id json "topic_id")

  unfoldable pub register_topic_priority :
      Node → W → String → ℕ → ℤ → Result (Node × W × Option (ℕ × ℤ))
  register_topic_priority n w p_topic_name p_message_type_id p_topic_priority =
      ask n w (Requests.register_topic p_topic_name p_message_type_id p_topic_priority)
        (read_topic json)

  -- The parts of `register_publisher` from the back: add publisher, register topic, the whole.
  unfoldable pub publisher_added : Node → W → ℕ → Publisher → Result (Node × W × Bool)
  publisher_added n w i p = do
    s ← ask n w (Requests.add_publisher n.node_id p.topic_id p.message_type_id) (is_success json)
    ok (if s.2 then (list_publisher s.0 i p, s.1, true) else (s.0, s.1, false))

  unfoldable pub publisher_topic : Node → W → ℕ → Publisher → Result (Node × W × Bool)
  publisher_topic n w i p = do
    s ← register_topic n w p.topic_name p.message_type_id p.topic_priority
    or_return s.2 (ok (s.0, s.1, false)) (λ id.
        let p' = Publisher.set_topic_id p id in publisher_added (set_publisher s.0 i p') s.1 i p')

  unfoldable pub register_publisher : Node → W → ℕ → Result (Node × W × Bool)
  register_publisher n w i = do
    p ← index n.publishers i
    s ← register_message_type n w p.message_type_name p.message_size
    or_return s.2 (ok (s.0, s.1, false)) (λ id.
        let p' = Publisher.set_message_type_id p id in
        publisher_topic (set_publisher s.0 i p') s.1 i p')

  unfoldable pub subscriber_added : Node → W → ℕ → Subscriber → Result (Node × W × Bool)
  subscriber_added n w i s = do
    a ← ask n w (Requests.add_subscriber n.node_id s.topic_id s.message_type_id) (is_success json)
    ok (if a.2 then (list_subscriber a.0 i s, a.1, true) else (a.0, a.1, false))

  unfoldable pub subscriber_topic : Node → W → ℕ → Subscriber → Result (Node × W × Bool)
  subscriber_topic n w i s = do
    a ← register_topic_priority n w s.topic_name s.message_type_id s.topic_priority
    or_return a.2 (ok (a.0, a.1, false)) (λ t.
        let s' = Subscriber.set_topic_priority (Subscriber.set_topic_id s t.0) t.1 in
        subscriber_added (set_subscriber a.0 i s') a.1 i s')

  unfoldable pub register_subscriber : Node → W → ℕ → Result (Node × W × Bool)
  register_subscriber n w i = do
    s ← index n.subscribers i
    a ← register_message_type n w s.message_type_name s.message_size
    or_return a.2 (ok (a.0, a.1, false)) (λ id.
        let s' = Subscriber.set_message_type_id s id in
        subscriber_topic (set_subscriber a.0 i s') a.1 i s')

  -- A loop of `connect`, with the rounds that are left: it ends with the first failure.
  unfoldable pub register_each :
      (Node → W → ℕ → Result (Node × W × Bool)) → ℕ → ℕ → Node → W → Result (Node × W × Bool)
  register_each register zero i n w = ok (n, w, true)
  register_each register (suc k) i n w = do
    s ← register n w i
    let rest = register_each register k (suc i) s.0 s.1
    if s.2 then rest else ok (s.0, s.1, false)

  unfoldable pub register_clients : Node → W → Result (Node × W × Bool)
  register_clients n w = do
    s ← register_each register_publisher (length n.publishers) 0 n w
    let subscribers = register_each register_subscriber (length s.0.subscribers) 0 s.0 s.1
    if s.2 then subscribers else ok (s.0, s.1, false)

  -- `connect`, with the results of the network's `socket` and `connect`.
  unfoldable pub connect : Bool → Bool → Node → W → Result (Node × W × Bool)
  connect socket_ok connect_ok n w = do
    let connected : Result (Node × W × Bool) = do
      s ← register_node n w
      if s.2 then register_clients s.0 s.1 else ok (s.0, s.1, false)
    if not socket_ok
        then ok (n, w, false)
        else if not connect_ok
        then ok (n, w, false)
        else connected
