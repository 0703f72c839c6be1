-- ===== src/Node/Registration/Subscribers.antt =====
-- Registration of the subscribers of a node, and `connect`: what they leave of the node.
use cpp_rt_pubsub.Prelude.{
  ℕ, zero, suc, ◌+◌, ◌≤◌, ◌<◌, Bool, true, false, not, Option, none, some, length, get_or,
  get_elem?-eq-get_or, All-get_or, Result, ok, Ensures-then, Ensures-if, ℤ, if◌then◌else◌, arith,
}
use cpp_rt_pubsub.Json.{Json, IsLawful}
use cpp_rt_pubsub.Broker.{index}
use cpp_rt_pubsub.Subscriber.{Subscriber}
use cpp_rt_pubsub.Subscriber.Delivery.{Ready}
use cpp_rt_pubsub.Node.Requests.{
  Request, request_json, is_success, read_id, read_topic, read_u32_field,
}
use cpp_rt_pubsub.Node.Requests
use cpp_rt_pubsub.Node.State.{Node}
use cpp_rt_pubsub.Node.Loop.Kept.{no_subscriber}
use cpp_rt_pubsub.Node.Rpc.{Network}
use cpp_rt_pubsub.Node.Registration.{
  list_subscriber, or_return, set_subscriber, ask, register_node, register_message_type,
  register_topic_priority, register_publisher, subscriber_added, subscriber_topic,
  register_subscriber, register_each, register_clients, connect,
}
use cpp_rt_pubsub.Node.Registration.Prepared.{
  Prepared, Prepared-set_subscriber, Prepared-list_subscriber,
}
use cpp_rt_pubsub.Node.Registration.Asked.{Held, Keeps, Any, Ensures-Any, ask-Keeps}
use cpp_rt_pubsub.Node.Registration.Publishers.{
  register_node-Keeps, register_message_type-Keeps, register_publisher-Keeps,
}

module _ (json : Json) (laws : IsLawful json) {W : Type 0} (network : Network W) (n0 : Node) where
  subscriber_added-Keeps :
      (n : Node) (w : W) (i : ℕ) (s : Subscriber)
      → Prepared n0 n
      → i < length n0.subscribers
      → Keeps n0 Any (subscriber_added json network n w i s)
  unfolding subscriber_added
  subscriber_added-Keeps n w i s v h =
      Ensures-then _ _
        (ask json network n w (Requests.add_subscriber n.node_id s.topic_id s.message_type_id)
          (is_success json))
        _
        (ask-Keeps json laws network n0 Any n w
          (Requests.add_subscriber n.node_id s.topic_id s.message_type_id) (is_success json) v
          (λ x. Ensures-Any (is_success json x)))
        λ a k. added a.0 a.1 a.2 k.0
    where
      added :
          (m : Node) (u : W) (b : Bool)
          → Prepared n0 m
          → Held n0 Any (if b then (list_subscriber m i s, u, true) else (m, u, false))
      added m u true k = (Prepared-list_subscriber n0 m k i s h, tt)
      added m u false k = (k, tt)

  -- A subscriber of the node, with the IDs and the priority that it got.
  abbrev Usable : Subscriber → Type 0
  Usable s = Ready s × (17 + s.message_size ≤ length n0.buffer)

  subscriber_topic-Keeps :
      (n : Node) (w : W) (i : ℕ) (s : Subscriber)
      → Prepared n0 n
      → i < length n0.subscribers
      → Usable s
      → Keeps n0 Any (subscriber_topic json network n w i s)
  unfolding subscriber_topic register_topic_priority
  subscriber_topic-Keeps n w i s v h r =
      Ensures-then _ _
        (ask json network n w
          (Requests.register_topic s.topic_name s.message_type_id s.topic_priority)
          (read_topic json))
        _
        (ask-Keeps json laws network n0 Any n w
          (Requests.register_topic s.topic_name s.message_type_id s.topic_priority)
          (read_topic json) v (λ x. Ensures-Any (read_topic json x)))
        λ a k. next a.0 a.1 a.2 k.0
    where
      next :
          (m : Node) (u : W) (o : Option (ℕ × ℤ))
          → Prepared n0 m
          → Keeps n0 Any (
              or_return o (ok (m, u, false)) (λ t.
                let s' : Subscriber = record s { topic_id = t.0; topic_priority = t.1 } in
                subscriber_added json network (set_subscriber m i s') u i s'))
      next m u none k = (k, tt)
      next m u (some t) k =
          let s' : Subscriber = record s { topic_id = t.0; topic_priority = t.1 } in
          let r' : Ready s' = record {
            valid = r.0.valid;
            sized = r.0.sized;
            small = r.0.small;
            capacity = r.0.capacity;
          } in
          subscriber_added-Keeps (set_subscriber m i s') u i s'
            (Prepared-set_subscriber n0 m k i s' r' r.1) h

  register_subscriber-Keeps :
      (n : Node) (w : W) (i : ℕ)
      → Prepared n0 n
      → i < length n0.subscribers
      → Keeps n0 Any (register_subscriber json network n w i)
  unfolding register_subscriber index
  register_subscriber-Keeps n w i v h =
      let lt : i < length n.subscribers = omega (arith, v.subscribers_left) in
      let s = get_or n.subscribers i no_subscriber in
      let r = All-get_or Ready n.subscribers i no_subscriber v.valid.receives.ready lt in
      let room =
        All-get_or (λ (t : Subscriber). 17 + t.message_size ≤ length n.buffer) n.subscribers i
          no_subscriber v.valid.receives.room lt in
      rw (get_elem?-eq-get_or n.subscribers i no_subscriber lt) (
        Ensures-then _ _ (register_message_type json network n w s.message_type_name s.message_size)
          _
          (register_message_type-Keeps json laws network n0 n w s.message_type_name s.message_size
            v)
          λ a k. next s (r, omega (arith, room, v.buffer_left)) a.0 a.1 a.2 k.0)
    where
      next :
          (s : Subscriber)
          → Usable s
          → (m : Node) (u : W) (o : Option ℕ) → Prepared n0 m
          → Keeps n0 Any (
              or_return o (ok (m, u, false)) (λ id.
                let s' : Subscriber = record s { message_type_id = id } in
                subscriber_topic json network (set_subscriber m i s') u i s'))
      next s r m u none k = (k, tt)
      next s r m u (some id) k =
          let s' : Subscriber = record s { message_type_id = id } in
          let r' : Ready s' = record {
            valid = r.0.valid;
            sized = r.0.sized;
            small = r.0.small;
            capacity = r.0.capacity;
          } in
          subscriber_topic-Keeps (set_subscriber m i s') u i s'
            (Prepared-set_subscriber n0 m k i s' r' r.1) h (r', r.1)

  register_each-Keeps :
      (register : Node → W → ℕ → Result (Node × W × Bool)) (total : ℕ)
      → ((n : Node) (w : W) (i : ℕ) → Prepared n0 n → i < total → Keeps n0 Any (register n w i))
      → (k i : ℕ) (n : Node) (w : W) → i + k ≤ total
      → Prepared n0 n
      → Keeps n0 Any (register_each json network register k i n w)
  unfolding register_each
  register_each-Keeps register total one zero i n w fits v = (v, tt)
  register_each-Keeps register total one (suc k) i n w fits v =
      Ensures-then _ _ (register n w i) _ (one n w i v (omega arith)) λ s h.
        Ensures-if _ s.2 _ _
          (register_each-Keeps register total one k (suc i) s.0 s.1 (omega arith) h.0) h

  register_clients-Keeps :
      (n : Node) (w : W) → Prepared n0 n → Keeps n0 Any (register_clients json network n w)
  unfolding register_clients
  register_clients-Keeps n w v =
      Ensures-then _ _
        (register_each json network (register_publisher json network) (length n.publishers) 0 n w) _
        (register_each-Keeps (register_publisher json network) (length n0.publishers)
          (register_publisher-Keeps json laws network n0) (length n.publishers) 0 n w
          (omega (arith, v.publishers_left)) v)
        λ s h.
          Ensures-if _ s.2 _ _
            (register_each-Keeps (register_subscriber json network) (length n0.subscribers)
              register_subscriber-Keeps (length s.0.subscribers) 0 s.0 s.1
              (omega (arith, h.0.subscribers_left)) h.0)
            h

  pub connect-Keeps :
      (socket_ok connect_ok : Bool) (n : Node) (w : W)
      → Prepared n0 n
      → Keeps n0 Any (connect json network socket_ok connect_ok n w)
  unfolding connect
  connect-Keeps socket_ok connect_ok n w v =
      Ensures-if _ (not socket_ok) _ _ (v, tt)
        (Ensures-if _ (not connect_ok) _ _ (v, tt)
          (Ensures-then _ _ (register_node json network n w) _
            (register_node-Keeps json laws network n0 n w v)
            λ s h. Ensures-if _ s.2 _ _ (register_clients-Keeps s.0 s.1 h.0) h))
