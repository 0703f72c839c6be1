-- ===== src/Node/Incoming/Safe.antt =====
-- The invariant of a node's subscribers, and `Node::process_incoming_message`.
use cpp_rt_pubsub.Prelude.{
  ℕ, ◌+◌, ◌-◌, ◌≤◌, ◌<◌, ◌≡◌, refl, ◌∙◌, ap, ap₂, subst, Bool, List, [], ◌∷◌, Option, none, some,
  Bytes, overwrite, min, length, length-set, length-overwrite, length-drop, drop, set, get_or,
  get_elem?-eq-get_or, All, All-get_or, All-set, All-map, Result, ok, ℤ, pos, negsuc, ◌==◌,
  if◌then◌else◌, arith, Bool-cases, inl, inr,
}
use cpp_rt_pubsub.Json.{Json}
use cpp_rt_pubsub.Protocol.{Packet, blank, decode_packet_buffer, invalid, data_message}
use cpp_rt_pubsub.Broker.{index}
use cpp_rt_pubsub.MessageQueue.Fifo.{push_refines, spec_push, contents}
use cpp_rt_pubsub.Subscriber.{Subscriber, new_subscriber, queue_message, message_queue_capacity}
use cpp_rt_pubsub.Subscriber.Delivery.{Ready}
use cpp_rt_pubsub.Node.Incoming.{
  Event, failed, would_block, received, Receiver, find_topic, Outcome, error, nothing, message,
  deliver, receive_message, deliver_to, process_outcome, process_incoming_message,
}

-- The invariant: topics hold subscribers of the node, which are ready, and the buffer has room for
-- their messages behind the headers.
pub record IsValid (n : Receiver) : Type 0 where
  pub headers : 17 ≤ length n.buffer
  pub ready : All Ready n.subscribers
  pub room : All (λ (s : Subscriber). 17 + s.message_size ≤ length n.buffer) n.subscribers
  pub known : All (λ (t : ℕ × List ℕ). All (λ i. i < length n.subscribers) t.1) n.topics

-- The message is queued, if there is room, and all else is as it was.
pub queue_message-Ready :
    (s : Subscriber) (x : Bytes)
    → Ready s
    → s.message_size ≤ length x
    → (s' : Subscriber) × (b : Bool) × (queue_message s x ≡ ok (s', b))
      × Ready s'
      × (s' ≡ record s { message_queue = s'.message_queue })
      × (contents 0 s'.message_queue
          ≡ (spec_push message_queue_capacity s.message_size (contents 0 s.message_queue) x).0)
unfolding queue_message
queue_message-Ready s x r enough =
    let (q', e, h) =
      push_refines 0 s.message_queue x r.valid (omega arith) (omega (arith, r.sized, r.small))
        (omega (arith, r.sized)) in
    (
      record s { message_queue = q' },
      (spec_push s.message_queue.queue_capacity (s.message_queue.message_size - 0)
          (contents 0 s.message_queue) x).1,
      rw e,
      record {
        valid = h.valid;
        sized = h.same_size ∙ r.sized;
        small = r.small;
        capacity = h.same_capacity ∙ r.capacity;
      },
      refl,
      h.holds
          ∙ ap₂ (λ c n. (spec_push c n (contents 0 s.message_queue) x).0) r.capacity
              (omega (arith, r.sized)),
    )

abbrev pub dummy : Subscriber
dummy = new_subscriber "" "" 0 (pos 0)

deliver-ok :
    (x : Bytes) (is : List ℕ) (ss : List Subscriber)
    → All Ready ss
    → All (λ (s : Subscriber). s.message_size ≤ length x) ss
    → All (λ i. i < length ss) is
    → (ss' : List Subscriber) × (deliver x is ss ≡ ok ss')
      × All Ready ss'
      × All (λ (s : Subscriber). s.message_size ≤ length x) ss'
      × (length ss' ≡ length ss)
unfolding deliver index
deliver-ok x [] ss r room known = (ss, refl, r, room, refl)
deliver-ok x (i ∷ is) ss r room known =
    let s = get_or ss i dummy in
    let (s', b, e, r', same, got) =
      queue_message-Ready s x (All-get_or Ready ss i dummy r known.0)
        (All-get_or (λ (t : Subscriber). t.message_size ≤ length x) ss i dummy room known.0) in
    let len = length-set ss i s' in
    let small : s'.message_size ≤ length x =
      rw (ap (λ (t : Subscriber). t.message_size) same)
        (All-get_or (λ (t : Subscriber). t.message_size ≤ length x) ss i dummy room known.0) in
    let (ss', eq, rs, rooms, same_length) =
      deliver-ok x is (set ss i s') (All-set Ready ss i s' r r')
        (All-set (λ (t : Subscriber). t.message_size ≤ length x) ss i s' room small)
        (All-map (λ k h. rw len h) is known.1) in
    (ss', rw (get_elem?-eq-get_or ss i dummy known.0, e, eq), rs, rooms, same_length ∙ len)

pub find_topic-All :
    (P : List ℕ → Type 0) (id : ℕ) (m : List (ℕ × List ℕ)) (ss : List ℕ)
    → All (λ (t : ℕ × List ℕ). P t.1) m
    → find_topic id m ≡ some ss
    → P ss
unfolding find_topic
find_topic-All P id [] ss h e = cc
find_topic-All P id ((k, ts) ∷ m) ss h e = elim (Bool-cases (k == id)) [
  | inl same ↦ let here : ts ≡ ss = ground (arith, rw same at e) in subst P here h.0
  | inr other ↦ find_topic-All P id m ss h.1 (rw other at e)
]

module _ (json : Json) where
  -- What a call of the node's leaves: a result, and a valid node with the same topics.
  abbrev Total : Receiver → Result (Receiver × ℤ) → Type 0
  Total n r =
      (n' : Receiver) × (z : ℤ) × (r ≡ ok (n', z))
      × IsValid n'
      × (n'.topics ≡ n.topics)
      × (length n'.subscribers ≡ length n.subscribers)

  deliver_to-Total :
      (n : Receiver) (o : Option (List ℕ))
      → IsValid n
      → ((ss : List ℕ) → o ≡ some ss → All (λ i. i < length n.subscribers) ss)
      → Total n (deliver_to json n o)
  unfolding deliver_to index
  deliver_to-Total n none v known = (n, negsuc 0, refl, v, refl, refl)
  deliver_to-Total n (some []) v known = (n, negsuc 0, refl, v, refl, refl)
  deliver_to-Total n (some (s ∷ ss)) v known =
      let is = known (s ∷ ss) refl in
      let data_behind = drop 17 n.buffer in
      let (ss', e, r, room, len) =
        deliver-ok data_behind (s ∷ ss) n.subscribers v.ready
          (All-map (λ t h. omega (arith, length-drop 17 n.buffer)) n.subscribers v.room) is in
      (
        record n { subscribers = ss' },
        pos 1,
        rw (get_elem?-eq-get_or n.subscribers s dummy is.0, e),
        record {
          headers = v.headers;
          ready = r;
          room = All-map (λ t h. omega (arith, v.headers, length-drop 17 n.buffer)) ss' room;
          known = rw len v.known;
        },
        refl,
        len,
      )

  process_outcome-Total :
      (n : Receiver) (o : Outcome json.Value) → IsValid n → Total n (process_outcome json n o)
  unfolding process_outcome
  process_outcome-Total n error v = (n, negsuc 0, refl, v, refl, refl)
  process_outcome-Total n nothing v = (n, pos 0, refl, v, refl, refl)
  process_outcome-Total n (message (bp_type, p)) v = elim (Bool-cases (bp_type == data_message)) [
    | inl yes' ↦ rw yes' (
        deliver_to-Total n (find_topic p.topic_id n.topics) v (λ ss e.
          find_topic-All (All (λ i. i < length n.subscribers)) p.topic_id n.topics ss v.known e))
    | inr no' ↦ rw no' (n, negsuc 0, refl, v, refl, refl)
  ]

  -- The buffer once a datagram is received.
  abbrev pub refilled : Receiver → Bytes → Bytes
  refilled n payload = overwrite n.buffer 0 payload (min (length payload) (length n.buffer))

  -- Decoding what arrived neither faults nor throws.
  abbrev pub Decodes : Receiver → Event → Type 0
  Decodes n failed = Unit
  Decodes n would_block = Unit
  Decodes n (received payload) =
      (d : ℕ × Packet json.Value) × (decode_packet_buffer json (refilled n payload)
          (min (length payload) (length n.buffer)) (blank json)
        ≡ ok d)

  pub refilled-IsValid :
      (n : Receiver) (payload : Bytes)
      → IsValid n
      → IsValid (record n { buffer = refilled n payload })
  refilled-IsValid n payload v =
      let same =
        length-overwrite n.buffer 0 payload (min (length payload) (length n.buffer)) (omega arith)
          (omega arith) in
      record {
        headers = rw same v.headers;
        ready = v.ready;
        room = rw same v.room;
        known = v.known;
      }

  -- For a valid node (each topic holds subscribers of the node, whose queues are valid and made for
  -- their messages, and the receive buffer has room for the headers and each message), whatever
  -- `recvfrom` ends with, if what was received can be decoded: `process_incoming_message` does not
  -- fault, returns a result, and leaves a valid node with the same topics and as many subscribers.
  pub process_incoming_message-IsValid :
      (n : Receiver) (e : Event)
      → IsValid n
      → Decodes n e
      → (n' : Receiver) × (z : ℤ) × (process_incoming_message json n e ≡ ok (n', z))
        × IsValid n'
        × (n'.topics ≡ n.topics)
        × (length n'.subscribers ≡ length n.subscribers)
  unfolding process_incoming_message receive_message
  process_incoming_message-IsValid n failed v d = process_outcome-Total n error v
  process_incoming_message-IsValid n would_block v d = process_outcome-Total n nothing v
  process_incoming_message-IsValid n (received payload) v (d, e) = rw e (
      process_outcome-Total (record n { buffer = refilled n payload })
        (if d.0 == invalid then error else message d) (refilled-IsValid n payload v))
