-- ===== src/Node/Requests/Served.antt =====
-- What the broker does with each request of a node.
use cpp_rt_pubsub.Prelude.{
  ℕ, ◌<◌, ◌^◌, ◌≡◌, refl, ◌∙◌, Bool, true, false, String, List, [], ◌∷◌, Option, none, some, Result,
  ok, err, ◌>>=◌, ℤ, pos, str_eq, str_eq_refl, IsI8,
}
use cpp_rt_pubsub.Json.{Json, IsLawful, lookup}
use cpp_rt_pubsub.Broker.{Broker}
use cpp_rt_pubsub.Broker
use cpp_rt_pubsub.Broker.Control.{
  rpc_failure_response, fail_rpc, succeed, param, u32_param, text_param, request_node,
  request_message, request_topic, request_add, dispatch_topic, action_of, dispatch_scope,
  process_control_request, node_reply, message_reply, topic_reply, add_reply,
}
use cpp_rt_pubsub.Node.Requests.Answers.{
  node_id, message_type_id, topic_id, or_refused, or_added, added_by, serve, success_json,
  answer_json,
}
use cpp_rt_pubsub.Node.Requests.{
  Request, register_node, register_message_type, register_topic, add_publisher, add_subscriber,
  Fits, request_json, action, ids,
}

bind-ok :
    {A B C : Type 0} (m : Result A) (f : A → Result C) (k : A → B) (l : B → C)
    → ((a : A) → f a ≡ ok (l (k a)))
    → (m >>= f) ≡ ((m >>= λ a. ok (k a)) >>= λ s. ok (l s))
bind-ok (ok a) f k l h = h a
bind-ok (err e) f k l h = refl

module _ (json : Json) where
  open json use {Value, of_bool, of_u32, of_i8, object}

  module _ (laws : IsLawful json) (rpc_id : ℕ) (small : rpc_id < 2 ^ 31) (b : Broker)
      (client : String) where
    Serves : Request → Type 0
    Serves r =
        process_control_request json b client (request_json json rpc_id r)
        ≡ (serve b client r >>= λ s. ok (s.0, answer_json json rpc_id s.1))

    -- The parts of a request; its scope is no other key of it.
    module _ (scope name : String) (params : List (String × Value))
        (no_scope : str_eq "scope" scope ≡ false) (no_id : str_eq scope "rpc_id" ≡ false) where
      request : Value
      request = action json scope name params rpc_id

      scope_lem : json.at request "scope" ≡ ok (json.of_text scope)
      unfolding request lookup
      scope_lem = laws.at-object "scope" (json.of_text scope) _ refl

      rpc_id_lem : json.at request "rpc_id" ≡ ok (of_u32 rpc_id)
      unfolding request lookup
      rpc_id_lem = laws.at-object "rpc_id" (of_u32 rpc_id) _ (rw no_id)

      inner :
          json.at request scope
          ≡ ok (object (("action", json.of_text name) ∷ ("params", object params) ∷ []))
      unfolding request lookup
      inner = laws.at-object scope _ _ (rw (no_scope, str_eq_refl scope))

      action_of_lem : action_of json request scope ≡ ok (json.of_text name)
      unfolding action_of lookup
      action_of_lem = rw inner (laws.at-object "action" (json.of_text name) _ refl)

      param_lem :
          (key : String) (v : Value)
          → lookup key params ≡ some v
          → param json request scope key ≡ ok v
      unfolding param lookup
      param_lem key v h =
          rw
            (
              inner,
              laws.at-object "params" (object params)
                  (("action", json.of_text name) ∷ ("params", object params) ∷ []) refl,
            )
            (laws.at-object key v params h)

      text_param_lem :
          (key t : String)
          → lookup key params ≡ some (json.of_text t)
          → text_param json request scope key ≡ ok t
      unfolding text_param
      text_param_lem key t h = rw (param_lem key (json.of_text t) h, laws.get_text-of_text t)

      u32_param_lem :
          (key : String) (n : ℕ)
          → lookup key params ≡ some (of_u32 n)
          → n < 2 ^ 32
          → u32_param json request scope key ≡ ok n
      unfolding u32_param
      u32_param_lem key n h fits = rw (param_lem key (of_u32 n) h, laws.get_u32-of_u32 n fits)

      succeed_lem :
          (b' : Broker) (more : List (String × Value))
          → succeed json b' request more ≡ ok (b', success_json json rpc_id more)
      unfolding succeed success_json
      succeed_lem b' more = rw rpc_id_lem

      fail_rpc_lem :
          (b' : Broker) (message : String)
          → fail_rpc json b' request message
            ≡ ok (b', rpc_failure_response json (pos rpc_id) 0 message)
      unfolding fail_rpc
      fail_rpc_lem b' message = rw (rpc_id_lem, laws.get_int-of_u32 rpc_id small)

      node_reply_lem :
          (r : Broker × Option ℕ)
          → node_reply json request r
            ≡ ok (r.0, answer_json json rpc_id (or_refused "Failed to register node" node_id r.1))
      unfolding node_reply answer_json or_refused
      node_reply_lem (b', none) = fail_rpc_lem b' "Failed to register node"
      node_reply_lem (b', some n) = succeed_lem b' _

      message_reply_lem :
          (r : Broker × Option ℕ)
          → message_reply json request r
            ≡ ok (
              r.0,
              answer_json json rpc_id
                  (or_refused "Failed to register message type" message_type_id r.1),
            )
      unfolding message_reply answer_json or_refused
      message_reply_lem (b', none) = fail_rpc_lem b' "Failed to register message type"
      message_reply_lem (b', some n) = succeed_lem b' _

      topic_reply_lem :
          (r : Broker × Option (ℕ × ℤ))
          → topic_reply json request r
            ≡ ok (
              r.0,
              answer_json json rpc_id
                  (or_refused "Failed to register topic" (λ t. topic_id t.0 t.1) r.1),
            )
      unfolding topic_reply answer_json or_refused
      topic_reply_lem (b', none) = fail_rpc_lem b' "Failed to register topic"
      topic_reply_lem (b', some (n, priority)) = succeed_lem b' _

      add_reply_lem :
          (message : String) (r : Broker × Bool)
          → add_reply json request message r
            ≡ ok (r.0, answer_json json rpc_id (or_added message r.1))
      unfolding add_reply answer_json or_added
      add_reply_lem message (b', true) = succeed_lem b' _
      add_reply_lem message (b', false) = fail_rpc_lem b' message

    Serves-node : (name : String) → Serves (register_node name)
    unfolding Serves process_control_request dispatch_scope request_node request lookup serve
    Serves-node name =
        rw
          (
            scope_lem "node" "register" (("name", json.of_text name) ∷ []) refl refl,
            laws.is_text-of_text "node" "node",
            action_of_lem "node" "register" (("name", json.of_text name) ∷ []) refl refl,
            laws.is_text-of_text "register" "register",
            text_param_lem "node" "register" (("name", json.of_text name) ∷ []) refl refl "name"
                name refl,
          )
          (node_reply_lem "node" "register" (("name", json.of_text name) ∷ []) refl refl
            (Broker.register_node b client name))

    Serves-message_type :
        (name : String) (size : ℕ) → size < 2 ^ 32 → Serves (register_message_type name size)
    unfolding Serves process_control_request dispatch_scope request_message request lookup serve
    Serves-message_type name size fits =
        let params : List (String × Value) =
          ("name", json.of_text name) ∷ ("size", of_u32 size) ∷ [] in
        rw
          (
            scope_lem "message" "register" params refl refl,
            laws.is_text-of_text "message" "node",
            laws.is_text-of_text "message" "message",
            action_of_lem "message" "register" params refl refl,
            laws.is_text-of_text "register" "register",
            text_param_lem "message" "register" params refl refl "name" name refl,
            u32_param_lem "message" "register" params refl refl "size" size refl fits,
          )
          (message_reply_lem "message" "register" params refl refl
            (Broker.register_message_type b name size))

    -- A request about topics gets to its action.
    topic_action :
        (name : String) (params : List (String × Value))
        → process_control_request json b client (request "topic" name params refl refl)
          ≡ dispatch_topic json b (request "topic" name params refl refl) (json.of_text name)
    unfolding process_control_request dispatch_scope
    topic_action name params = rw (
      scope_lem "topic" name params refl refl,
      laws.is_text-of_text "topic" "node",
      laws.is_text-of_text "topic" "message",
      laws.is_text-of_text "topic" "topic",
      action_of_lem "topic" name params refl refl,
    )

    Serves-topic :
        (name : String) (type : ℕ) (priority : ℤ)
        → type < 2 ^ 32
        → IsI8 priority
        → Serves (register_topic name type priority)
    unfolding Serves dispatch_topic request_topic request lookup serve
    Serves-topic name type priority fits is_i8 =
        let params : List (String × Value) =
          ("name", json.of_text name)
          ∷ ("message_type_id", of_u32 type)
          ∷ ("priority", of_i8 priority)
          ∷ [] in
        topic_action "register" params
        ∙ rw
            (
              laws.is_text-of_text "register" "register",
              text_param_lem "topic" "register" params refl refl "name" name refl,
              u32_param_lem "topic" "register" params refl refl "message_type_id" type refl fits,
              param_lem "topic" "register" params refl refl "priority" (of_i8 priority) refl,
              laws.get_i8-of_i8 priority is_i8,
            )
            (bind-ok (Broker.register_topic b name type priority) _ _
              (λ s. (s.0, answer_json json rpc_id s.1))
              (topic_reply_lem "topic" "register" params refl refl))

    request_add_lem :
        (add : Broker → ℕ → ℕ → ℕ → Result (Broker × Bool)) (name message : String)
        (node topic type : ℕ)
        → node < 2 ^ 32
        → topic < 2 ^ 32
        → type < 2 ^ 32
        → request_add json add message b (request "topic" name (ids json node topic type) refl refl)
          ≡ (added_by add message b node topic type >>= λ s. ok (s.0, answer_json json rpc_id s.1))
    unfolding request_add lookup added_by
    request_add_lem add name message node topic type h_node h_topic h_type =
        let params = ids json node topic type in
        rw
          (
            u32_param_lem "topic" name params refl refl "node_id" node refl h_node,
            u32_param_lem "topic" name params refl refl "topic_id" topic refl h_topic,
            u32_param_lem "topic" name params refl refl "message_type_id" type refl h_type,
          )
          (bind-ok (add b node topic type) _ _ (λ s. (s.0, answer_json json rpc_id s.1))
            (add_reply_lem "topic" name params refl refl message))

    Serves-add_publisher :
        (node topic type : ℕ)
        → Fits (add_publisher node topic type)
        → Serves (add_publisher node topic type)
    unfolding Serves dispatch_topic request serve
    Serves-add_publisher node topic type h =
        topic_action "add_publisher" (ids json node topic type)
        ∙ rw
            (
              laws.is_text-of_text "add_publisher" "register",
              laws.is_text-of_text "add_publisher" "add_publisher",
            )
            (request_add_lem Broker.add_publisher "add_publisher" "Failed to add publisher" node
              topic type h.0 h.1 h.2)

    Serves-add_subscriber :
        (node topic type : ℕ)
        → Fits (add_subscriber node topic type)
        → Serves (add_subscriber node topic type)
    unfolding Serves dispatch_topic request serve
    Serves-add_subscriber node topic type h =
        topic_action "add_subscriber" (ids json node topic type)
        ∙ rw
            (
              laws.is_text-of_text "add_subscriber" "register",
              laws.is_text-of_text "add_subscriber" "add_publisher",
              laws.is_text-of_text "add_subscriber" "add_subscriber",
            )
            (request_add_lem Broker.add_subscriber "add_subscriber" "Failed to add subscriber" node
              topic type h.0 h.1 h.2)

  -- With a JSON library that meets `IsLawful`, for every request that a node makes, with an RPC ID
  -- below 2 ^ 31 and with numbers that fit in their types: the broker does the operation that was
  -- asked for on its tables, and nothing else, and answers with its result; a fault is one of that
  -- operation.
  pub process_control_request_lem :
      IsLawful json
      → (rpc_id : ℕ) → rpc_id < 2 ^ 31
      → (b : Broker) (client : String) (r : Request) → Fits r
      → process_control_request json b client (request_json json rpc_id r)
        ≡ (serve b client r >>= λ s. ok (s.0, answer_json json rpc_id s.1))
  unfolding Serves
  process_control_request_lem laws rpc_id small b client (register_node name) h =
      Serves-node laws rpc_id small b client name
  process_control_request_lem laws rpc_id small b client (register_message_type name size) h =
      Serves-message_type laws rpc_id small b client name size h
  process_control_request_lem laws rpc_id small b client (register_topic name type priority) h =
      Serves-topic laws rpc_id small b client name type priority h.0 h.1
  process_control_request_lem laws rpc_id small b client (add_publisher node topic type) h =
      Serves-add_publisher laws rpc_id small b client node topic type h
  process_control_request_lem laws rpc_id small b client (add_subscriber node topic type) h =
      Serves-add_subscriber laws rpc_id small b client node topic type h
