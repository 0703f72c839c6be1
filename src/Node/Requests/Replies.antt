-- ===== src/Node/Requests/Replies.antt =====
-- A registration over the protocol: the request, the broker's work, and what the node reads.
use cpp_rt_pubsub.Prelude.{
  ℕ, ◌<◌, ◌^◌, ◌≡◌, refl, true, false, String, List, [], ◌∷◌, Option, none, some, Result, ok, ◌>>=◌,
  pos, str_eq, arith, Option-cases, inl, inr, ◌==◌, Bool-cases,
}
use cpp_rt_pubsub.Json.{Json, IsLawful, lookup}
use cpp_rt_pubsub.Broker.{Broker, NodeInfo, MessageTypeInfo, find_from}
use cpp_rt_pubsub.Broker
use cpp_rt_pubsub.Broker.Control.{rpc_failure_response, process_control_request}
use cpp_rt_pubsub.Node.Requests.{
  Request, register_node, register_message_type, request_json, is_success, read_u32_field, read_id,
}
use cpp_rt_pubsub.Node.Requests.Answers.{
  node_id, message_type_id, or_refused, serve, success_json, answer_json,
}
use cpp_rt_pubsub.Node.Requests.Served.{process_control_request_lem}

-- IDs are 32-bit numbers.
abbrev pub Small : Option ℕ → Type 0
Small none = Unit
Small (some n) = n < 2 ^ 32

pub register_node-Small :
    (b : Broker) (client name : String) → Small (Broker.register_node b client name).1
unfolding Broker.register_node
register_node-Small b client name =
    elim (Option-cases (find_from 0 (λ (ni : NodeInfo). str_eq ni.name name) b.nodes)) [
      | inl e ↦ rw (e, Broker.register_node) (omega arith)
      | inr (found, e) ↦ rw (e, Broker.register_node) tt
    ]

register_message_type-Small :
    (b : Broker) (name : String) (size : ℕ) → Small (Broker.register_message_type b name size).1
unfolding Broker.register_message_type
register_message_type-Small b name size =
    elim (Option-cases
      (find_from 0 (λ (mti : MessageTypeInfo). str_eq mti.name name) b.message_types)) [
        | inl e ↦ rw (e, Broker.register_message_type) (omega arith)
        | inr ((i, mti), e) ↦
            rw (e, Broker.register_message_type)
              (elim (Bool-cases (mti.size == size)) [
                | inl same ↦ rw same (omega arith)
                | inr other ↦ rw other tt
              ])
      ]

module _ (json : Json) (laws : IsLawful json) (rpc_id : ℕ) where
  success_lem :
      (more : List (String × json.Value))
      → is_success json (success_json json rpc_id more) ≡ ok true
  unfolding is_success success_json lookup
  success_lem more = rw (
    laws.empty-object ("rpc_id", json.of_u32 rpc_id) (("success", json.of_bool true) ∷ more),
    laws.member-object "success" (json.of_bool true)
        (("rpc_id", json.of_u32 rpc_id) ∷ ("success", json.of_bool true) ∷ more) refl,
    laws.get_bool-of_bool true,
  )

  failure_lem :
      (message : String)
      → is_success json (rpc_failure_response json (pos rpc_id) 0 message) ≡ ok false
  unfolding is_success rpc_failure_response lookup
  failure_lem message =
      let more : List (String × json.Value) =
        ("success", json.of_bool false)
        ∷ ("error_code", json.of_u32 0)
        ∷ ("error_message", json.of_text message)
        ∷ [] in
      rw (
        laws.empty-object ("rpc_id", json.of_int (pos rpc_id)) more,
        laws.member-object "success" (json.of_bool false)
            (("rpc_id", json.of_int (pos rpc_id)) ∷ more) refl,
        laws.get_bool-of_bool false,
      )

  read_id-refused :
      (key message : String)
      → read_id json key (rpc_failure_response json (pos rpc_id) 0 message) ≡ ok none
  unfolding read_id
  read_id-refused key message = rw (failure_lem message)

  read_id-success :
      (key : String) (n : ℕ)
      → str_eq "rpc_id" key ≡ false
      → str_eq "success" key ≡ false
      → str_eq key key ≡ true
      → n < 2 ^ 32
      → read_id json key (success_json json rpc_id ((key, json.of_u32 n) ∷ [])) ≡ ok (some n)
  unfolding read_id read_u32_field lookup success_json
  read_id-success key n no_id no_success self fits = rw (
    success_lem ((key, json.of_u32 n) ∷ []),
    laws.member-object key (json.of_u32 n)
        (("rpc_id", json.of_u32 rpc_id)
          ∷ ("success", json.of_bool true)
          ∷ (key, json.of_u32 n)
          ∷ [])
        (rw (no_id, no_success, self)),
    laws.get_u32-of_u32 n fits,
  )

  pub node_answer :
      (r : Option ℕ)
      → Small r
      → read_id json "node_id"
          (answer_json json rpc_id (or_refused "Failed to register node" node_id r))
        ≡ ok r
  unfolding answer_json or_refused
  node_answer none h = read_id-refused "node_id" "Failed to register node"
  node_answer (some n) h = read_id-success "node_id" n refl refl refl h

  message_type_answer :
      (r : Option ℕ)
      → Small r
      → read_id json "message_type_id"
          (answer_json json rpc_id (or_refused "Failed to register message type" message_type_id r))
        ≡ ok r
  unfolding answer_json or_refused
  message_type_answer none h = read_id-refused "message_type_id" "Failed to register message type"
  message_type_answer (some n) h = read_id-success "message_type_id" n refl refl refl h

  -- The broker's part of an RPC and the node's reading of the response.
  abbrev pub registered : Broker → String → Request → String → Result (Broker × Option ℕ)
  registered b client r key =
      process_control_request json b client (request_json json rpc_id r) >>= λ s.
      read_id json key s.1 >>= λ id. ok (s.0, id)

  -- With a JSON library that meets `IsLawful`, an RPC ID below 2 ^ 31 and a 32-bit message size: what
  -- `Node::register_node` and `Node::register_message_type` read in the response is exactly what the
  -- broker's operations of those names return (`none` for a failure), and the broker's tables are
  -- exactly what these operations leave; nothing faults.
  pub registered_lem :
      rpc_id < 2 ^ 31
      → (b : Broker) (client name : String) (size : ℕ) → size < 2 ^ 32
      → (registered b client (register_node name) "node_id"
          ≡ ok (Broker.register_node b client name))
        × (registered b client (register_message_type name size) "message_type_id"
            ≡ ok (Broker.register_message_type b name size))
  unfolding serve
  registered_lem small b client name size fits = (
    rw (
      process_control_request_lem json laws rpc_id small b client (register_node name) tt,
      node_answer (Broker.register_node b client name).1 (register_node-Small b client name),
    ),
    rw (
      process_control_request_lem json laws rpc_id small b client (register_message_type name size)
          fits,
      message_type_answer (Broker.register_message_type b name size).1
          (register_message_type-Small b name size),
    ),
  )
