-- ===== src/Node/Requests/Answers.antt =====
-- The specification of the broker's control requests: what it does with each, and what it answers.
use cpp_rt_pubsub.Prelude.{
  ℕ, Bool, true, false, String, List, [], ◌∷◌, Option, none, some, Result, ok, ◌>>=◌, ℤ, pos,
}
use cpp_rt_pubsub.Json.{Json}
use cpp_rt_pubsub.Broker.{Broker}
use cpp_rt_pubsub.Broker
use cpp_rt_pubsub.Broker.Control.{rpc_failure_response}
use cpp_rt_pubsub.Node.Requests.{
  Request, register_node, register_message_type, register_topic, add_publisher, add_subscriber,
}

-- An answer of the broker: a refusal with its message, or what the request asked for.
pub data Answer : Type 0 where
  refused : String → Answer
  node_id message_type_id : ℕ → Answer
  topic_id : ℕ → ℤ → Answer
  added : Answer

unfoldable pub or_refused : {A : Type 0} → String → (A → Answer) → Option A → Answer
or_refused message f none = refused message
or_refused message f (some a) = f a

unfoldable pub or_added : String → Bool → Answer
or_added message true = added
or_added message false = refused message

unfoldable pub added_by :
    (Broker → ℕ → ℕ → ℕ → Result (Broker × Bool))
    → String
    → Broker
    → ℕ
    → ℕ
    → ℕ
    → Result (Broker × Answer)
unfolding or_added
added_by add message b node topic type = do
  r ← add b node topic type
  ok (r.0, or_added message r.1)

-- The specification: each request is one operation on the broker's tables.
unfoldable pub serve : Broker → String → Request → Result (Broker × Answer)
unfolding or_refused added_by
serve b client (register_node name) =
    let (b', r) = Broker.register_node b client name in
    ok (b', or_refused "Failed to register node" node_id r)
serve b client (register_message_type name size) =
    let (b', r) = Broker.register_message_type b name size in
    ok (b', or_refused "Failed to register message type" message_type_id r)
serve b client (register_topic name type priority) = do
  r ← Broker.register_topic b name type priority
  ok (r.0, or_refused "Failed to register topic" (λ t. topic_id t.0 t.1) r.1)
serve b client (add_publisher node topic type) =
    added_by Broker.add_publisher "Failed to add publisher" b node topic type
serve b client (add_subscriber node topic type) =
    added_by Broker.add_subscriber "Failed to add subscriber" b node topic type

module _ (json : Json) where
  open json use {Value, of_bool, of_u32, of_i8, object}

  unfoldable pub success_json : ℕ → List (String × Value) → Value
  success_json rpc_id more = object (("rpc_id", of_u32 rpc_id) ∷ ("success", of_bool true) ∷ more)

  unfoldable pub answer_json : ℕ → Answer → Value
  unfolding success_json
  answer_json rpc_id (refused message) = rpc_failure_response json (pos rpc_id) 0 message
  answer_json rpc_id (node_id n) = success_json rpc_id (("node_id", of_u32 n) ∷ [])
  answer_json rpc_id (message_type_id n) = success_json rpc_id (("message_type_id", of_u32 n) ∷ [])
  answer_json rpc_id (topic_id n priority) =
      success_json rpc_id (("topic_id", of_u32 n) ∷ ("topic_priority", of_i8 priority) ∷ [])
  answer_json rpc_id added = success_json rpc_id []
