-- ===== src/Node/Registration/Publishers.antt =====
-- Registration of the node and of its publishers: what it leaves of the node, whatever the responses.
use cpp_rt_pubsub.Prelude.{
  ℕ, ◌<◌, Bool, true, false, String, Option, none, some, length, get_or, get_elem?-eq-get_or,
  All-get_or, ok, Ensures-then, if◌then◌else◌, arith,
}
use cpp_rt_pubsub.Json.{Json, IsLawful}
use cpp_rt_pubsub.Broker.{index}
use cpp_rt_pubsub.Publisher.{Publisher}
use cpp_rt_pubsub.Publisher.Queued
use cpp_rt_pubsub.Node.Requests.{
  Request, request_json, is_success, read_id, read_topic, read_u32_field,
}
use cpp_rt_pubsub.Node.Requests
use cpp_rt_pubsub.Node.Requests.Replies.{Small}
use cpp_rt_pubsub.Node.State.{Node}
use cpp_rt_pubsub.Node.Loop.Kept.{no_publisher}
use cpp_rt_pubsub.Node.Rpc.{Network}
use cpp_rt_pubsub.Node.Registration.{
  list_publisher, or_return, set_publisher, ask, register_node, register_message_type,
  register_topic, publisher_added, publisher_topic, register_publisher,
}
use cpp_rt_pubsub.Node.Registration.Prepared.{
  Prepared, Prepared-set_publisher, Prepared-list_publisher,
}
use cpp_rt_pubsub.Node.Registration.Asked.{read_id-Small, Held, Keeps, Any, Ensures-Any, ask-Keeps}

module _ (json : Json) (laws : IsLawful json) {W : Type 0} (network : Network W) (n0 : Node) where
  identified-Prepared :
      (n : Node) (id : ℕ) → Prepared n0 n → Prepared n0 (record n { node_id = id })
  identified-Prepared n id v = record {
    valid = record {
      receives = v.valid.receives;
      ready = v.valid.ready;
      publishers = v.valid.publishers;
      subscribers = v.valid.subscribers;
    };
    order = v.order;
    publishers_left = v.publishers_left;
    subscribers_left = v.subscribers_left;
    buffer_left = v.buffer_left;
  }

  pub register_node-Keeps :
      (n : Node) (w : W) → Prepared n0 n → Keeps n0 Any (register_node json network n w)
  unfolding register_node
  register_node-Keeps n w v =
      Ensures-then _ _
        (ask json network n w (Requests.register_node n.name) (read_id json "node_id")) _
        (ask-Keeps json laws network n0 Small n w (Requests.register_node n.name)
          (read_id json "node_id") v (read_id-Small json laws "node_id"))
        λ s h.
          elim s.2
            as (λ o.
              Held n0 Any
                (or_return o (s.0, s.1, false) (λ id. (record s.0 { node_id = id }, s.1, true)))) [
                  | none ↦ (h.0, tt)
                  | some id ↦ (identified-Prepared s.0 id h.0, tt)
                ]

  pub register_message_type-Keeps :
      (n : Node) (w : W) (name : String) (size : ℕ)
      → Prepared n0 n
      → Keeps n0 Small (register_message_type json network n w name size)
  unfolding register_message_type
  register_message_type-Keeps n w name size v =
      ask-Keeps json laws network n0 Small n w (Requests.register_message_type name size)
        (read_id json "message_type_id") v (read_id-Small json laws "message_type_id")

  -- A publisher with an ID that it got.
  publisher_added-Keeps :
      (n : Node) (w : W) (i : ℕ) (p : Publisher)
      → Prepared n0 n
      → i < length n0.publishers
      → Keeps n0 Any (publisher_added json network n w i p)
  unfolding publisher_added
  publisher_added-Keeps n w i p v h =
      Ensures-then _ _
        (ask json network n w (Requests.add_publisher n.node_id p.topic_id p.message_type_id)
          (is_success json))
        _
        (ask-Keeps json laws network n0 Any n w
          (Requests.add_publisher n.node_id p.topic_id p.message_type_id) (is_success json) v
          (λ x. Ensures-Any (is_success json x)))
        λ s k. added s.0 s.1 s.2 k.0
    where
      added :
          (m : Node) (u : W) (b : Bool)
          → Prepared n0 m
          → Held n0 Any (if b then (list_publisher m i p, u, true) else (m, u, false))
      added m u true k = (Prepared-list_publisher n0 m k i p h, tt)
      added m u false k = (k, tt)

  publisher_topic-Keeps :
      (n : Node) (w : W) (i : ℕ) (p : Publisher)
      → Prepared n0 n
      → i < length n0.publishers
      → Queued.Ready p
      → Keeps n0 Any (publisher_topic json network n w i p)
  unfolding publisher_topic register_topic
  publisher_topic-Keeps n w i p v h r =
      Ensures-then _ _
        (ask json network n w
          (Requests.register_topic p.topic_name p.message_type_id p.topic_priority)
          (read_id json "topic_id"))
        _
        (ask-Keeps json laws network n0 Small n w
          (Requests.register_topic p.topic_name p.message_type_id p.topic_priority)
          (read_id json "topic_id") v (read_id-Small json laws "topic_id"))
        λ s k. next s.0 s.1 s.2 k.0 k.1
    where
      next :
          (m : Node) (u : W) (o : Option ℕ)
          → Prepared n0 m
          → Small o
          → Keeps n0 Any (
              or_return o (ok (m, u, false)) (λ id.
                let p' : Publisher = record p { topic_id = id } in
                publisher_added json network (set_publisher m i p') u i p'))
      next m u none k small = (k, tt)
      next m u (some id) k small =
          let p' : Publisher = record p { topic_id = id } in
          let r' : Queued.Ready p' = record {
            valid = r.valid;
            headers = r.headers;
            sized = r.sized;
            small = r.small;
            topic = small;
            type = r.type;
          } in
          publisher_added-Keeps (set_publisher m i p') u i p'
            (Prepared-set_publisher n0 m k i p' r') h

  pub register_publisher-Keeps :
      (n : Node) (w : W) (i : ℕ)
      → Prepared n0 n
      → i < length n0.publishers
      → Keeps n0 Any (register_publisher json network n w i)
  unfolding register_publisher index
  register_publisher-Keeps n w i v h =
      let lt : i < length n.publishers = omega (arith, v.publishers_left) in
      let p = get_or n.publishers i no_publisher in
      let r = All-get_or Queued.Ready n.publishers i no_publisher v.valid.ready lt in
      rw (get_elem?-eq-get_or n.publishers i no_publisher lt) (
        Ensures-then _ _ (register_message_type json network n w p.message_type_name p.message_size)
          _ (register_message_type-Keeps n w p.message_type_name p.message_size v)
          λ s k. next p r s.0 s.1 s.2 k.0 k.1)
    where
      next :
          (p : Publisher)
          → Queued.Ready p
          → (m : Node) (u : W) (o : Option ℕ) → Prepared n0 m
          → Small o
          → Keeps n0 Any (
              or_return o (ok (m, u, false)) (λ id.
                let p' : Publisher = record p { message_type_id = id } in
                publisher_topic json network (set_publisher m i p') u i p'))
      next p r m u none k small = (k, tt)
      next p r m u (some id) k small =
          let p' : Publisher = record p { message_type_id = id } in
          let r' : Queued.Ready p' = record {
            valid = r.valid;
            headers = r.headers;
            sized = r.sized;
            small = r.small;
            topic = r.topic;
            type = small;
          } in
          publisher_topic-Keeps (set_publisher m i p') u i p'
            (Prepared-set_publisher n0 m k i p' r') h r'
