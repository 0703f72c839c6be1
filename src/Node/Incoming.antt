-- ===== src/Node/Incoming.antt =====
-- src/node.cpp: `Node::receive_message` and `Node::process_incoming_message`. Subscribers are indices
-- into the node's subscribers, which `m_topics` holds by topic ID; log output is left out.
pub mod Safe
pub mod Delivered
pub mod Tests
use cpp_rt_pubsub.Prelude.{
  ℕ, ◌+◌, ◌-◌, ◌≤◌, ◌<◌, ◌^◌, ◌≡◌, refl, sym, ◌∙◌, ap, subst, Bool, true, false, not, List, [], ◌∷◌,
  Option, none, some, Bytes, overwrite, min, length, length-set, length-overwrite, length-drop,
  drop, set, get_or, get_elem?-eq-get_or, All, All-get_or, All-set, All-map, Result, ok, ◌>>=◌, ℤ,
  pos, negsuc, ◌==◌, if◌then◌else◌, arith, Bool-cases, inl, inr, or_fail, out_of_bounds, get_elem?,
}
use cpp_rt_pubsub.Json.{Json}
use cpp_rt_pubsub.Protocol.{
  Packet, blank, decode_packet_buffer, invalid, data_message, bp_header_size, bp_data_header_size,
}
use cpp_rt_pubsub.Broker.{index}
use cpp_rt_pubsub.MessageQueue.Fifo.{push_refines, spec_push, contents}
use cpp_rt_pubsub.Subscriber.{Subscriber, new_subscriber, queue_message}
use cpp_rt_pubsub.Subscriber.Delivery.{Ready}

-- What `recvfrom` ends with: an error, nothing to receive, or a datagram.
pub data Event : Type 0 where
  failed would_block : Event
  received : Bytes → Event

-- `m_subscribers`, the subscribers in `m_topics`, and `m_buffer`.
pub record Receiver : Type 0 where
  pub subscribers : List Subscriber
  pub topics : List (ℕ × List ℕ)
  pub buffer : Bytes

unfoldable pub find_topic : ℕ → List (ℕ × List ℕ) → Option (List ℕ)
find_topic id [] = none
find_topic id ((k, ss) ∷ m) = if k == id then some ss else find_topic id m

-- The result and the out-parameters of `receive_message`.
pub data Outcome (V : Type 0) : Type 0 where
  error nothing : Outcome V
  message : ℕ × Packet V → Outcome V

-- The loop over the subscribers of a topic; a full queue drops the message.
unfoldable pub deliver : Bytes → List ℕ → List Subscriber → Result (List Subscriber)
deliver p_data [] ss = ok ss
deliver p_data (i ∷ is) ss = do
  s ← index ss i
  r ← queue_message s p_data
  deliver p_data is (set ss i r.0)

module _ (json : Json) where
  unfoldable pub receive_message : Bool → Receiver → Event → Result (Receiver × Outcome json.Value)
  receive_message p_block n failed = ok (n, error)
  receive_message p_block n would_block = ok (n, (if p_block then error else nothing))
  receive_message p_block n (received payload) = do
    let bytes_received = min (length payload) (length n.buffer)
    let buffer = overwrite n.buffer 0 payload bytes_received
    d ← decode_packet_buffer json buffer bytes_received (blank json)
    ok (record n { buffer = buffer }, (if d.0 == invalid then error else message d))

  unfoldable pub deliver_to : Receiver → Option (List ℕ) → Result (Receiver × ℤ)
  deliver_to n none = ok (n, negsuc 0)
  deliver_to n (some []) = ok (n, negsuc 0)
  deliver_to n (some (s ∷ ss)) = do
    -- The log line of a wrong message type reads that of the first subscriber.
    first ← index n.subscribers s
    subscribers ←
        deliver (drop (bp_header_size + bp_data_header_size) n.buffer) (s ∷ ss) n.subscribers
    ok (record n { subscribers = subscribers }, pos 1)

  unfoldable pub process_outcome : Receiver → Outcome json.Value → Result (Receiver × ℤ)
  process_outcome n error = ok (n, negsuc 0)
  process_outcome n nothing = ok (n, pos 0)
  process_outcome n (message (bp_type, p)) =
      let delivered = deliver_to n (find_topic p.topic_id n.topics) in
      if not (bp_type == data_message) then ok (n, negsuc 0) else delivered

  unfoldable pub process_incoming_message : Receiver → Event → Result (Receiver × ℤ)
  process_incoming_message n e = do r ← receive_message false n e; process_outcome r.0 r.1
