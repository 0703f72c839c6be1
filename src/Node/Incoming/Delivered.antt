-- ===== src/Node/Incoming/Delivered.antt =====
-- What each subscriber of a node gets from a data packet: `Node::process_incoming_message`.
use cpp_rt_pubsub.Prelude.{
  ℕ, ◌≤◌, ◌<◌, ◌≡◌, ◌≢◌, refl, sym, ◌∙◌, ap, subst, List, [], ◌∷◌, some, Bytes, min, length,
  length-set, length-drop, drop, set, get_or, get_or-set_self, get_or-set_ne, get_elem?-eq-get_or,
  All, All-get_or, All-set, All-map, ok, pos, arith,
}
use cpp_rt_pubsub.Json.{Json}
use cpp_rt_pubsub.Protocol.{Packet, blank, decode_packet_buffer, data_message}
use cpp_rt_pubsub.Broker.{index}
use cpp_rt_pubsub.MessageQueue.Inv.{Distinct}
use cpp_rt_pubsub.MessageQueue.Fifo.{spec_push, contents}
use cpp_rt_pubsub.Subscriber.{Subscriber, message_queue_capacity}
use cpp_rt_pubsub.Subscriber.Delivery.{Ready}
use cpp_rt_pubsub.Node.Incoming.{
  received, Receiver, find_topic, deliver, receive_message, deliver_to, process_outcome,
  process_incoming_message,
}
use cpp_rt_pubsub.Node.Incoming.Safe.{
  IsValid, queue_message-Ready, dummy, find_topic-All, refilled, refilled-IsValid,
}

abbrev pub subscriber_at : List Subscriber → ℕ → Subscriber
subscriber_at ss i = get_or ss i dummy

-- The second is the first with a message queued, cut to its message size, or dropped if 10 wait.
pub record Got (data_behind : Bytes) (s s' : Subscriber) : Type 0 where
  pub same_rest : s' ≡ record s { message_queue = s'.message_queue }
  pub queued :
      contents 0 s'.message_queue
      ≡ (spec_push message_queue_capacity s.message_size (contents 0 s.message_queue) data_behind).0

-- The subscribers after a delivery to those of a topic.
pub record Delivered (data_behind : Bytes) (is : List ℕ) (ss ss' : List Subscriber) : Type 0 where
  pub ready : All Ready ss'
  pub as_many : length ss' ≡ length ss
  pub listed : All (λ i. Got data_behind (subscriber_at ss i) (subscriber_at ss' i)) is
  pub others : (j : ℕ) → All (λ i. i ≢ j) is → subscriber_at ss' j ≡ subscriber_at ss j

All-ne : (i : ℕ) (is : List ℕ) → All (λ j. i ≢ j) is → All (λ j. j ≢ i) is
All-ne i is h = All-map (λ j ne e. ne (sym e)) is h

-- Those that come later in the list have not changed.
later :
    (x : Bytes) (ss ss' : List Subscriber) (i : ℕ) (s : Subscriber) (is : List ℕ)
    → All (λ j. i ≢ j) is
    → All (λ j. Got x (subscriber_at (set ss i s) j) (subscriber_at ss' j)) is
    → All (λ j. Got x (subscriber_at ss j) (subscriber_at ss' j)) is
later x ss ss' i s [] ne h = tt
later x ss ss' i s (j ∷ is) ne h = (
  subst (λ t. Got x t (subscriber_at ss' j)) (get_or-set_ne ss i j s dummy ne.0) h.0,
  later x ss ss' i s is ne.1 h.1,
)

deliver-Delivered :
    (x : Bytes) (is : List ℕ) (ss : List Subscriber)
    → All Ready ss
    → All (λ (s : Subscriber). s.message_size ≤ length x) ss
    → All (λ i. i < length ss) is
    → Distinct is
    → (ss' : List Subscriber) × (deliver x is ss ≡ ok ss') × Delivered x is ss ss'
unfolding deliver index
deliver-Delivered x [] ss r room known d =
    (ss, refl, record { ready = r; as_many = refl; listed = tt; others = λ j h. refl })
deliver-Delivered x (i ∷ is) ss r room known d =
    let s = subscriber_at ss i in
    let fits : s.message_size ≤ length x =
      All-get_or (λ (t : Subscriber). t.message_size ≤ length x) ss i dummy room known.0 in
    let (s', b, e, r', same, got) =
      queue_message-Ready s x (All-get_or Ready ss i dummy r known.0) fits in
    let len = length-set ss i s' in
    let small : s'.message_size ≤ length x =
      rw (ap (λ (t : Subscriber). t.message_size) same) fits in
    let (ss', eq, h) =
      deliver-Delivered x is (set ss i s') (All-set Ready ss i s' r r')
        (All-set (λ (t : Subscriber). t.message_size ≤ length x) ss i s' room small)
        (All-map (λ k h. rw len h) is known.1) d.1 in
    let here : subscriber_at ss' i ≡ s' =
      h.others i (All-ne i is d.0) ∙ get_or-set_self ss i s' dummy known.0 in
    (
      ss',
      rw (get_elem?-eq-get_or ss i dummy known.0, e, eq),
      record {
        ready = h.ready;
        as_many = h.as_many ∙ len;
        listed = (
          subst (Got x s) (sym here) (record { same_rest = same; queued = got }),
          later x ss ss' i s' is d.0 h.listed,
        );
        others = λ j ne. h.others j ne.1 ∙ get_or-set_ne ss i j s' dummy ne.0;
      },
    )

module _ (json : Json) where
  -- For a valid node, and a datagram that decodes to a data packet of a topic with subscribers, none of
  -- them listed twice: `process_incoming_message` returns 1; each of the topic's subscribers gets the
  -- bytes behind the headers at the end of its queue, as many as its messages have, unless 10 messages
  -- wait; and every other subscriber, and the topics, are as they were.
  pub process_incoming_message-Delivered :
      (n : Receiver) (payload : Bytes) (p : Packet json.Value) (i : ℕ) (is : List ℕ)
      → IsValid n
      → decode_packet_buffer json
          (refilled json n payload)
          (min (length payload) (length n.buffer))
          (blank json)
        ≡ ok (data_message, p)
      → find_topic p.topic_id n.topics ≡ some (i ∷ is)
      → Distinct (i ∷ is)
      → (ss' : List Subscriber) × (process_incoming_message json n (received payload)
          ≡ ok (record n { buffer = refilled json n payload; subscribers = ss' }, pos 1))
        × Delivered (drop 17 (refilled json n payload)) (i ∷ is) n.subscribers ss'
  unfolding process_incoming_message receive_message process_outcome deliver_to index
  process_incoming_message-Delivered n payload p i is v decodes found d =
      let b = refilled json n payload in
      let w = refilled-IsValid json n payload v in
      let known : All (λ k. k < length n.subscribers) (i ∷ is) =
        find_topic-All (All (λ k. k < length n.subscribers)) p.topic_id n.topics (i ∷ is) v.known
          found in
      let (ss', e, h) =
        deliver-Delivered (drop 17 b) (i ∷ is) n.subscribers v.ready
          (All-map (λ t fits. omega (arith, length-drop 17 b)) n.subscribers w.room) known d in
      (ss', rw (decodes, found, get_elem?-eq-get_or n.subscribers i dummy known.0, e) refl, h)
