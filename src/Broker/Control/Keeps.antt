-- ===== src/Broker/Control/Keeps.antt =====
-- Properties of the broker's tables over a control request, whatever its JSON value holds.
use cpp_rt_pubsub.Prelude.{
  ℕ, Bool, true, false, String, List, Option, none, some, Result, ◌>>=◌, Ensures, Ensures-bind,
  Ensures-then, ℤ, if◌then◌else◌,
}
use cpp_rt_pubsub.Json.{Json}
use cpp_rt_pubsub.Broker.{
  Broker, register_node, register_message_type, register_topic, add_publisher, add_subscriber,
}
use cpp_rt_pubsub.Broker.Inv.{IsValid, register_node-IsValid, register_message_type-IsValid}
use cpp_rt_pubsub.Broker.Topics.{
  register_topic-IsValid, add_publisher-IsValid, add_subscriber-IsValid,
}
use cpp_rt_pubsub.Broker.Control.{
  fail_rpc, succeed, text_param, u32_param, param, node_reply, request_node, message_reply,
  request_message, topic_reply, request_topic, add_reply, request_add, dispatch_topic, action_of,
  dispatch_scope, process_control_request, convert,
}

-- The property is kept by each operation that a request asks for.
pub record IsKeptByRequests (P : Broker → Type 0) : Type 0 where
  pub node : (b : Broker) (address name : String) → P b → P (register_node b address name).0
  pub message :
      (b : Broker) (name : String) (size : ℕ) → P b → P (register_message_type b name size).0
  pub topic :
      (b : Broker) (name : String) (type : ℕ) (priority : ℤ)
      → P b
      → Ensures (λ r. P r.0) (register_topic b name type priority)
  pub publisher : (b : Broker) (n t m : ℕ) → P b → Ensures (λ r. P r.0) (add_publisher b n t m)
  pub subscriber : (b : Broker) (n t m : ℕ) → P b → Ensures (λ r. P r.0) (add_subscriber b n t m)

-- And by a change of the packet counters.
pub record IsKept (P : Broker → Type 0) : Type 0 where
  pub counters : (b : Broker) (cs : List (String × ℕ)) → P b → P (record b { client_counters = cs })
  pub requests : IsKeptByRequests P

module _ (json : Json) (P : Broker → Type 0) (kept : IsKeptByRequests P) where
  abbrev Keeps : Result (Broker × json.Value) → Type 0
  Keeps = Ensures (λ r. P r.0)

  fail_rpc-Keeps :
      (b : Broker) (request : json.Value) (m : String) → P b → Keeps (fail_rpc json b request m)
  unfolding fail_rpc
  fail_rpc-Keeps b request m h =
      Ensures-bind _ (json.at request "rpc_id") _
        λ id _. Ensures-bind _ (convert json (json.get_int id)) _ λ rpc_id _. h

  succeed-Keeps :
      (b : Broker) (request : json.Value) (more : List (String × json.Value))
      → P b
      → Keeps (succeed json b request more)
  unfolding succeed
  succeed-Keeps b request more h = Ensures-bind _ (json.at request "rpc_id") _ λ id _. h

  node_reply-Keeps :
      (request : json.Value) (r : Broker × Option ℕ) → P r.0 → Keeps (node_reply json request r)
  unfolding node_reply
  node_reply-Keeps request (b, none) h = fail_rpc-Keeps b request _ h
  node_reply-Keeps request (b, some id) h = succeed-Keeps b request _ h

  message_reply-Keeps :
      (request : json.Value) (r : Broker × Option ℕ) → P r.0 → Keeps (message_reply json request r)
  unfolding message_reply
  message_reply-Keeps request (b, none) h = fail_rpc-Keeps b request _ h
  message_reply-Keeps request (b, some id) h = succeed-Keeps b request _ h

  topic_reply-Keeps :
      (request : json.Value) (r : Broker × Option (ℕ × ℤ))
      → P r.0
      → Keeps (topic_reply json request r)
  unfolding topic_reply
  topic_reply-Keeps request (b, none) h = fail_rpc-Keeps b request _ h
  topic_reply-Keeps request (b, some (id, p)) h = succeed-Keeps b request _ h

  add_reply-Keeps :
      (request : json.Value) (m : String) (r : Broker × Bool)
      → P r.0
      → Keeps (add_reply json request m r)
  unfolding add_reply
  add_reply-Keeps request m (b, true) h = succeed-Keeps b request _ h
  add_reply-Keeps request m (b, false) h = fail_rpc-Keeps b request _ h

  bind-Keeps {ℓ} :
      {A : Type ℓ} (m : Result A) (f : A → Result (Broker × json.Value))
      → ((a : A) → Keeps (f a))
      → Keeps (m >>= f)
  bind-Keeps m f h = Ensures-bind _ m f λ a _. h a

  then-Keeps {ℓ} :
      {A : Type ℓ} (m : Result (Broker × A)) (f : Broker × A → Result (Broker × json.Value))
      → Ensures (λ r. P r.0) m
      → ((r : Broker × A) → P r.0 → Keeps (f r))
      → Keeps (m >>= f)
  then-Keeps m f k h = Ensures-then (λ r. P r.0) _ m f k h

  if-Keeps :
      (c : Bool) (x y : Result (Broker × json.Value))
      → Keeps x
      → Keeps y
      → Keeps (if c then x else y)
  if-Keeps true x y hx hy = hx
  if-Keeps false x y hx hy = hy

  request_node-Keeps :
      (b : Broker) (client : String) (request : json.Value)
      → P b
      → Keeps (request_node json b client request)
  unfolding request_node
  request_node-Keeps b client request h =
      bind-Keeps (text_param json request "node" "name") _
        λ name. node_reply-Keeps request (register_node b client name) (kept.node b client name h)

  request_message-Keeps :
      (b : Broker) (request : json.Value) → P b → Keeps (request_message json b request)
  unfolding request_message
  request_message-Keeps b request h =
      bind-Keeps (text_param json request "message" "name") _ λ name.
        bind-Keeps (u32_param json request "message" "size") _ λ size.
          message_reply-Keeps request (register_message_type b name size)
            (kept.message b name size h)

  request_topic-Keeps :
      (b : Broker) (request : json.Value) → P b → Keeps (request_topic json b request)
  unfolding request_topic
  request_topic-Keeps b request h = bind-Keeps (text_param json request "topic" "name") _ λ name.
      bind-Keeps (u32_param json request "topic" "message_type_id") _ λ type.
        bind-Keeps (param json request "topic" "priority") _ λ prio.
          bind-Keeps (convert json (json.get_i8 prio)) _ λ priority.
            then-Keeps (register_topic b name type priority) _ (kept.topic b name type priority h)
              (topic_reply-Keeps request)

  request_add-Keeps :
      (add : Broker → ℕ → ℕ → ℕ → Result (Broker × Bool)) (m : String) (b : Broker)
      (request : json.Value)
      → ((n t type : ℕ) → Ensures (λ r. P r.0) (add b n t type))
      → Keeps (request_add json add m b request)
  unfolding request_add
  request_add-Keeps add m b request h = bind-Keeps (u32_param json request "topic" "node_id") _ λ n.
      bind-Keeps (u32_param json request "topic" "topic_id") _ λ t.
        bind-Keeps (u32_param json request "topic" "message_type_id") _
          λ type. then-Keeps (add b n t type) _ (h n t type) (add_reply-Keeps request m)

  dispatch_topic-Keeps :
      (b : Broker) (request action : json.Value)
      → P b
      → Keeps (dispatch_topic json b request action)
  unfolding dispatch_topic
  dispatch_topic-Keeps b request action h =
      if-Keeps (json.is_text action "register") _ _ (request_topic-Keeps b request h) (
        if-Keeps (json.is_text action "add_publisher") _ _
          (request_add-Keeps add_publisher _ b request (λ n t m. kept.publisher b n t m h))
          (if-Keeps (json.is_text action "add_subscriber") _ _
            (request_add-Keeps add_subscriber _ b request (λ n t m. kept.subscriber b n t m h)) h))

  dispatch_scope-Keeps :
      (b : Broker) (client : String) (request scope : json.Value)
      → P b
      → Keeps (dispatch_scope json b client request scope)
  unfolding dispatch_scope
  dispatch_scope-Keeps b client request scope h =
      if-Keeps (json.is_text scope "node") _ _
        (bind-Keeps (action_of json request "node") _ λ action.
          if-Keeps (json.is_text action "register") _ _ (request_node-Keeps b client request h) h)
        (if-Keeps (json.is_text scope "message") _ _
          (bind-Keeps (action_of json request "message") _ λ action.
            if-Keeps (json.is_text action "register") _ _ (request_message-Keeps b request h) h)
          (if-Keeps (json.is_text scope "topic") _ _
            (bind-Keeps (action_of json request "topic") _
              λ action. dispatch_topic-Keeps b request action h)
            h))

  -- Every control request keeps the property.
  pub process_control_request-Keeps :
      (b : Broker) (client : String) (request : json.Value)
      → P b
      → Ensures (λ r. P r.0) (process_control_request json b client request)
  unfolding process_control_request
  process_control_request-Keeps b client request h =
      bind-Keeps (json.at request "scope") _ λ scope. dispatch_scope-Keeps b client request scope h

pub IsValid-IsKept : IsKept IsValid
IsValid-IsKept = record {
  counters = λ b cs v. record {
    node_names = v.node_names;
    type_names = v.type_names;
    topic_names = v.topic_names;
    topics = v.topics;
  };
  requests = record {
    node = λ b address name v. register_node-IsValid address name v;
    message = λ b name size v. register_message_type-IsValid name size v;
    topic = λ b name type priority v. register_topic-IsValid name type priority v;
    publisher = λ b n t m v. add_publisher-IsValid n t m v;
    subscriber = λ b n t m v. add_subscriber-IsValid n t m v;
  };
}
