-- ===== src/Broker/Spin.antt =====
-- src/broker.cpp: `Broker::start`, `Broker::spin` and the sends. The socket is an environment: what
-- `recvfrom` returns is a list of events, and whether a `sendto` succeeds is a function `accepts` of
-- the calls before it. `debug` says whether CRPS_LOGGER_DEBUG lines are compiled in (the default).
pub mod Deliver
pub mod Safe
pub mod Round
pub mod Answer
use cpp_rt_pubsub.Prelude.{
  ℕ, ◌+◌, min, Bool, true, false, String, List, [], ◌∷◌, ◌++◌, Option, none, some, Bytes, overwrite,
  Result, ok, ◌>>=◌, length, take, leb, ◌==◌, not, if◌then◌else◌,
}
use cpp_rt_pubsub.Json.{Json, lookup}
use cpp_rt_pubsub.Protocol.{
  Packet, blank, decode_packet_buffer, bp_control_json_to_packet_buffer, invalid, control,
  data_message,
}
use cpp_rt_pubsub.Broker.{Broker, Topic, NodeInfo, verify_and_update_client_counter, index, assign}
use cpp_rt_pubsub.Broker.Control.{process_control_request}

-- `Broker::start`, with the results of `socket`, `bind` and `listen`.
unfoldable pub start : Bool → Bool → Bool → Bool
start socket_ok bind_ok listen_ok =
    if not socket_ok
    then false
    else if not bind_ok
    then false
    else if not listen_ok
    then false
    else true

-- The arguments of a `sendto`.
abbrev pub Datagram : Type 0
Datagram = String × Bytes

-- The broker, its receive buffer, and the `sendto` calls so far.
pub record Server : Type 0 where
  pub broker : Broker
  pub buffer : Bytes
  pub sent : List Datagram

-- What `recvfrom` ends with: a failure, or a datagram of a client, cut off at the buffer's end.
pub data Event : Type 0 where
  recv_failed : Event
  received : String → Bytes → Event

-- `m_client_counters[key]`, which adds a missing key with the value 0.
unfoldable pub counter_entry : Option ℕ → ℕ
counter_entry none = 0
counter_entry (some c) = c

unfoldable pub touch_counter : String → Option ℕ → Broker → Broker
touch_counter k none b = record b { client_counters = assign k 0 b.client_counters }
touch_counter k (some c) b = b

module _ (json : Json) (debug : Bool) (accepts : List Datagram → String → Bytes → Bool) where
  -- `m_network->sendto`, as `Broker::send_data` calls it.
  unfoldable pub send_data : Server → String → Bytes → Server × Bool
  send_data s p_address p_buffer =
      (record s { sent = s.sent ++ (p_address, p_buffer) ∷ [] }, accepts s.sent p_address p_buffer)

  unfoldable pub send_control_response : Server → String → json.Value → Result (Server × Bool)
  send_control_response s p_address p_response = do
    let found = lookup p_address s.broker.client_counters
    buffer ← bp_control_json_to_packet_buffer json p_response (counter_entry found)
    ok (send_data (record s { broker = touch_counter p_address found s.broker }) p_address buffer)

  -- The loop over the subscribers of a topic. A failed send is logged, and the loop goes on.
  unfoldable pub send_to_subscribers : Bytes → List ℕ → Server → Result Server
  send_to_subscribers packet [] s = ok s
  send_to_subscribers packet (node_id ∷ rest) s = do
    subscriber_node ← index s.broker.nodes node_id
    send_to_subscribers packet rest (send_data s subscriber_node.address packet).0

  unfoldable pub log_topic : Server → ℕ → Result (Unit {0})
  log_topic s topic_id = if debug then (index s.broker.topics topic_id >>= λ t. ok tt) else ok tt

  -- The branch of a data packet.
  unfoldable pub forward_data : Server → Bytes → Packet json.Value → Result Server
  forward_data s packet p = do
    logged ← log_topic s p.topic_id
    if leb (length s.broker.topics) p.topic_id
        then ok s
        else (index s.broker.topics p.topic_id >>= λ topic.
            if leb (length s.broker.message_types) p.message_type_id
            then ok s
            else if not (topic.message_type_id == p.message_type_id)
            then ok s
            else send_to_subscribers packet topic.subscribers s)

  -- The branch of a control packet. The loop ends if the response cannot be sent.
  unfoldable pub answer_control : Server → String → json.Value → Result (Server × Bool)
  answer_control s client request = do
    r ← process_control_request json s.broker client request
    send_control_response (record s { broker = r.0 }) client r.1

  -- What is done with a packet that was decoded, by its type; true means that the loop goes on.
  unfoldable pub handle_packet :
      Server → String → Bytes → ℕ × Packet json.Value → Result (Server × Bool)
  handle_packet s client packet (bp_type, p) =
      let (broker', in_sequence) = verify_and_update_client_counter s.broker client p.counter in
      let s' : Server = record s { broker = broker' } in
      let forwarded : Result (Server × Bool) = forward_data s' packet p >>= λ t. ok (t, true) in
      if not in_sequence
      then ok (s', true)
      else if bp_type == invalid
      then ok (s', true)
      else if bp_type == control
      then answer_control s' client p.control_json
      else if bp_type == data_message
      then forwarded
      else ok (s', true)

  -- One round of the loop in `Broker::spin`.
  unfoldable pub spin_round : Server → Event → Result (Server × Bool)
  spin_round s recv_failed = ok (s, true)
  spin_round s (received client payload) = do
    let n = min (length payload) (length s.buffer)
    let buffer = overwrite s.buffer 0 payload n
    decoded ← decode_packet_buffer json buffer n (blank json)
    handle_packet (record s { buffer = buffer }) client (take n buffer) decoded

  -- `Broker::spin` over the events until the loop ends; true means that it still runs.
  unfoldable pub spin : Server → List Event → Result (Server × Bool)
  spin s [] = ok (s, true)
  spin s (e ∷ es) = do r ← spin_round s e; if r.1 then spin r.0 es else ok (r.0, false)
