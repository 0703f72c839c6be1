-- ===== src/Broker/Control.antt =====
-- src/broker.cpp: `Broker::process_control_request` and `Broker::rpc_failure_response`, over the
-- parameter for the JSON library. Log output is left out.
pub mod Keeps
pub mod Counted
use cpp_rt_pubsub.Prelude.{
  ℕ, Bool, true, false, String, List, [], ◌∷◌, Option, none, some, Result, ok, ◌>>=◌, or_fail,
  exception, ℤ, pos, if◌then◌else◌,
}
use cpp_rt_pubsub.Json.{Json}
use cpp_rt_pubsub.Broker.{
  Broker, register_node, register_message_type, register_topic, add_publisher, add_subscriber,
}

module _ (json : Json) where
  open json use {
    Value, at, is_text, get_text, get_u32, get_i8, get_int, of_text, of_u32, of_i8, of_int, of_bool,
    null, object,
  }

  -- A conversion of a JSON value, which throws if it is of another type.
  abbrev pub convert : {A : Type 0} → Option A → Result A
  convert o = or_fail o exception

  unfoldable pub rpc_failure_response : ℤ → ℕ → String → Value
  rpc_failure_response rpc_id p_error_code p_error_message = object (
      ("rpc_id", of_int rpc_id)
      ∷ ("success", of_bool false)
      ∷ ("error_code", of_u32 p_error_code)
      ∷ ("error_message", of_text p_error_message)
      ∷ [])

  unfoldable pub fail_rpc : Broker → Value → String → Result (Broker × Value)
  fail_rpc b p_request p_error_message = do
    id ← at p_request "rpc_id"
    rpc_id ← convert (get_int id)
    ok (b, rpc_failure_response rpc_id 0 p_error_message)

  -- A response that begins with the request's ID and with success.
  unfoldable pub succeed : Broker → Value → List (String × Value) → Result (Broker × Value)
  succeed b p_request more = do
    id ← at p_request "rpc_id"
    ok (b, object (("rpc_id", id) ∷ ("success", of_bool true) ∷ more))

  -- `p_request[scope]["params"][key]`.
  unfoldable pub param : Value → String → String → Result Value
  param p_request scope key = do s ← at p_request scope; ps ← at s "params"; at ps key

  unfoldable pub u32_param : Value → String → String → Result ℕ
  u32_param p_request scope key = do v ← param p_request scope key; convert (get_u32 v)

  unfoldable pub text_param : Value → String → String → Result String
  text_param p_request scope key = do v ← param p_request scope key; convert (get_text v)

  unfoldable pub node_reply : Value → Broker × Option ℕ → Result (Broker × Value)
  node_reply p_request (b, none) = fail_rpc b p_request "Failed to register node"
  node_reply p_request (b, some node_id) = succeed b p_request (("node_id", of_u32 node_id) ∷ [])

  unfoldable pub request_node : Broker → String → Value → Result (Broker × Value)
  unfolding node_reply
  request_node b p_client_address p_request = do
    name ← text_param p_request "node" "name"
    node_reply p_request (register_node b p_client_address name)

  unfoldable pub message_reply : Value → Broker × Option ℕ → Result (Broker × Value)
  message_reply p_request (b, none) = fail_rpc b p_request "Failed to register message type"
  message_reply p_request (b, some message_type_id) =
      succeed b p_request (("message_type_id", of_u32 message_type_id) ∷ [])

  unfoldable pub request_message : Broker → Value → Result (Broker × Value)
  unfolding message_reply
  request_message b p_request = do
    name ← text_param p_request "message" "name"
    size ← u32_param p_request "message" "size"
    message_reply p_request (register_message_type b name size)

  unfoldable pub topic_reply : Value → Broker × Option (ℕ × ℤ) → Result (Broker × Value)
  topic_reply p_request (b, none) = fail_rpc b p_request "Failed to register topic"
  topic_reply p_request (b, some (topic_id, actual_topic_priority)) =
      succeed b p_request
        (("topic_id", of_u32 topic_id) ∷ ("topic_priority", of_i8 actual_topic_priority) ∷ [])

  unfoldable pub request_topic : Broker → Value → Result (Broker × Value)
  unfolding topic_reply
  request_topic b p_request = do
    name ← text_param p_request "topic" "name"
    message_type_id ← u32_param p_request "topic" "message_type_id"
    prio ← param p_request "topic" "priority"
    priority ← convert (get_i8 prio)
    r ← register_topic b name message_type_id priority
    topic_reply p_request r

  unfoldable pub add_reply : Value → String → Broker × Bool → Result (Broker × Value)
  add_reply p_request p_error_message (b, true) = succeed b p_request []
  add_reply p_request p_error_message (b, false) = fail_rpc b p_request p_error_message

  unfoldable pub request_add :
      (Broker → ℕ → ℕ → ℕ → Result (Broker × Bool))
      → String
      → Broker
      → Value
      → Result (Broker × Value)
  unfolding add_reply
  request_add add p_error_message b p_request = do
    node_id ← u32_param p_request "topic" "node_id"
    topic_id ← u32_param p_request "topic" "topic_id"
    message_type_id ← u32_param p_request "topic" "message_type_id"
    r ← add b node_id topic_id message_type_id
    add_reply p_request p_error_message r

  unfoldable pub dispatch_topic : Broker → Value → Value → Result (Broker × Value)
  dispatch_topic b p_request action =
      if is_text action "register"
      then request_topic b p_request
      else if is_text action "add_publisher"
      then request_add add_publisher "Failed to add publisher" b p_request
      else if is_text action "add_subscriber"
      then request_add add_subscriber "Failed to add subscriber" b p_request
      else ok (b, null)

  -- `p_request[scope]["action"]`.
  unfoldable pub action_of : Value → String → Result Value
  action_of p_request scope = do s ← at p_request scope; at s "action"

  unfoldable pub dispatch_scope : Broker → String → Value → Value → Result (Broker × Value)
  dispatch_scope b p_client_address p_request scope =
      if is_text scope "node"
      then (action_of p_request "node" >>= λ action.
          if is_text action "register"
          then request_node b p_client_address p_request
          else ok (b, null))
      else if is_text scope "message"
      then (action_of p_request "message" >>= λ action.
          if is_text action "register" then request_message b p_request else ok (b, null))
      else if is_text scope "topic"
      then (action_of p_request "topic" >>= λ action. dispatch_topic b p_request action)
      else ok (b, null)

  -- The broker after a control request, and the response. A request that the code does not know
  -- is answered by `json{}`.
  unfoldable pub process_control_request : Broker → String → Value → Result (Broker × Value)
  process_control_request b p_client_address p_request = do
    scope ← at p_request "scope"
    dispatch_scope b p_client_address p_request scope
