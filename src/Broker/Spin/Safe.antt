-- ===== src/Broker/Spin/Safe.antt =====
-- Properties of the broker's tables over whole runs of its loop.
use cpp_rt_pubsub.Prelude.{
  ℕ, ◌+◌, inl, inr, Bool, true, false, not, String, List, [], ◌∷◌, Option, none, some, Bytes, take,
  overwrite, Result, ok, Ensures, Ensures-bind, Ensures-then, length, min, ◌==◌, leb, if◌then◌else◌,
  Bool-cases,
}
use cpp_rt_pubsub.Json.{Json, lookup}
use cpp_rt_pubsub.Protocol.{
  Packet, blank, decode_packet_buffer, bp_control_json_to_packet_buffer, invalid, control,
  data_message,
}
use cpp_rt_pubsub.Broker.{Broker, index, to_u32, counter_step, verify_and_update_client_counter}
use cpp_rt_pubsub.Broker.Inv.{IsValid}
use cpp_rt_pubsub.Broker.Stable.{Extends, Extends-refl, Extends-IsKept}
use cpp_rt_pubsub.Broker.Control.{process_control_request}
use cpp_rt_pubsub.Broker.Control.Keeps.{IsKept, process_control_request-Keeps, IsValid-IsKept}
use cpp_rt_pubsub.Broker.Spin.{
  Server, Event, recv_failed, received, Datagram, counter_entry, touch_counter, send_data,
  send_control_response, send_to_subscribers, log_topic, forward_data, answer_control,
  handle_packet, spin_round, spin,
}

module _ (json : Json) (debug : Bool) (accepts : List Datagram → String → Bytes → Bool)
    (P : Broker → Type 0) (kept : IsKept P) where
  counter_step-Keeps :
      (b : Broker) (client : String) (c : ℕ) (last : Option ℕ)
      → P b
      → P (counter_step b client c last).0
  unfolding counter_step
  counter_step-Keeps b client c none h = kept.counters b _ h
  counter_step-Keeps b client c (some last) h = elim (Bool-cases (to_u32 (last + 1) == c)) [
    | inl e ↦ rw e (kept.counters b _ h)
    | inr e ↦ rw e h
  ]

  verify-Keeps :
      (b : Broker) (client : String) (c : ℕ)
      → P b
      → P (verify_and_update_client_counter b client c).0
  unfolding verify_and_update_client_counter
  verify-Keeps b client c h = counter_step-Keeps b client c (lookup client b.client_counters) h

  touch_counter-Keeps : (k : String) (o : Option ℕ) (b : Broker) → P b → P (touch_counter k o b)
  unfolding touch_counter
  touch_counter-Keeps k none b h = kept.counters b _ h
  touch_counter-Keeps k (some c) b h = h

  send_to_subscribers-Keeps :
      (packet : Bytes) (ns : List ℕ) (s : Server)
      → P s.broker
      → Ensures (λ t. P t.broker) (send_to_subscribers json debug accepts packet ns s)
  unfolding send_to_subscribers send_data
  send_to_subscribers-Keeps packet [] s h = h
  send_to_subscribers-Keeps packet (n ∷ ns) s h =
      Ensures-bind _ (index s.broker.nodes n) _ λ node _. send_to_subscribers-Keeps packet ns _ h

  if-Ensures :
      {A : Type 0} (Q : A → Type 0) (c : Bool) (x y : Result A)
      → Ensures Q x
      → Ensures Q y
      → Ensures Q (if c then x else y)
  if-Ensures Q true x y hx hy = hx
  if-Ensures Q false x y hx hy = hy

  forward_data-Keeps :
      (s : Server) (packet : Bytes) (p : Packet json.Value)
      → P s.broker
      → Ensures (λ t. P t.broker) (forward_data json debug accepts s packet p)
  unfolding forward_data
  forward_data-Keeps s packet p h =
      Ensures-bind _ (log_topic json debug accepts s p.topic_id) _ λ logged _.
        if-Ensures _ (leb (length s.broker.topics) p.topic_id) (ok s) _ h (
          Ensures-bind _ (index s.broker.topics p.topic_id) _ λ topic _.
            if-Ensures _ (leb (length s.broker.message_types) p.message_type_id) (ok s) _ h (
              if-Ensures _ (not (topic.message_type_id == p.message_type_id)) (ok s) _ h
                (send_to_subscribers-Keeps packet topic.subscribers s h)))

  send_control_response-Keeps :
      (s : Server) (client : String) (v : json.Value)
      → P s.broker
      → Ensures (λ r. P r.0.broker) (send_control_response json debug accepts s client v)
  unfolding send_control_response send_data
  send_control_response-Keeps s client v h =
      Ensures-bind _
        (bp_control_json_to_packet_buffer json v
          (counter_entry (lookup client s.broker.client_counters)))
        _ λ buffer _. touch_counter-Keeps client (lookup client s.broker.client_counters) s.broker h

  answer_control-Keeps :
      (s : Server) (client : String) (v : json.Value)
      → P s.broker
      → Ensures (λ r. P r.0.broker) (answer_control json debug accepts s client v)
  unfolding answer_control
  answer_control-Keeps s client v h =
      Ensures-then (λ r. P r.0) _ (process_control_request json s.broker client v) _
        (process_control_request-Keeps json P kept.requests s.broker client v h)
        λ r k. send_control_response-Keeps (record s { broker = r.0 }) client r.1 k

  handle_packet-Keeps :
      (s : Server) (client : String) (packet : Bytes) (d : ℕ × Packet json.Value)
      → P s.broker
      → Ensures (λ r. P r.0.broker) (handle_packet json debug accepts s client packet d)
  unfolding handle_packet
  handle_packet-Keeps s client packet (bp_type, p) h =
      let b' = (verify_and_update_client_counter s.broker client p.counter).0 in
      let s' : Server = record s { broker = b' } in
      let k : P b' = verify-Keeps s.broker client p.counter h in
      if-Ensures _ (not (verify_and_update_client_counter s.broker client p.counter).1)
        (ok (s', true)) _ k
        (if-Ensures _ (bp_type == invalid) (ok (s', true)) _ k (
          if-Ensures _ (bp_type == control)
            (answer_control json debug accepts s' client p.control_json) _
            (answer_control-Keeps s' client p.control_json k)
            (if-Ensures _ (bp_type == data_message) _ (ok (s', true))
              (Ensures-then (λ t. P t.broker) _ (forward_data json debug accepts s' packet p) _
                (forward_data-Keeps s' packet p k) (λ t kt. kt))
              k)))

  spin_round-Keeps :
      (s : Server) (e : Event)
      → P s.broker
      → Ensures (λ r. P r.0.broker) (spin_round json debug accepts s e)
  unfolding spin_round
  spin_round-Keeps s recv_failed h = h
  spin_round-Keeps s (received client payload) h =
      let n = min (length payload) (length s.buffer) in
      let buffer = overwrite s.buffer 0 payload n in
      Ensures-bind _ (decode_packet_buffer json buffer n (blank json)) _ λ decoded _.
        handle_packet-Keeps (record s { buffer = buffer }) client (take n buffer) decoded h

  pub spin-Keeps :
      (es : List Event) (s : Server)
      → P s.broker
      → Ensures (λ r. P r.0.broker) (spin json debug accepts s es)
  unfolding spin
  spin-Keeps [] s h = h
  spin-Keeps (e ∷ es) s h =
      Ensures-then (λ r. P r.0.broker) _ (spin_round json debug accepts s e) _
        (spin_round-Keeps s e h) λ r k. if-Ensures _ r.1 _ (ok (r.0, false)) (spin-Keeps es r.0 k) k

module _ (json : Json) (debug : Bool) (accepts : List Datagram → String → Bytes → Bool) where
  -- Whatever packets arrive, from whatever clients and in whatever order, while the loop has not
  -- faulted: names of nodes, message types and topics stay unique, and every ID of a message type,
  -- a publisher or a subscriber in a topic is that of a registered entry.
  pub spin-IsValid :
      (es : List Event) (s : Server)
      → IsValid s.broker
      → Ensures (λ r. IsValid r.0.broker) (spin json debug accepts s es)
  spin-IsValid = spin-Keeps json debug accepts IsValid IsValid-IsKept

  -- Whatever packets arrive, while the loop has not faulted: every node, message type and topic keeps
  -- its ID, name, address, size, type and priority, and publishers and subscribers of a topic are
  -- only added, at the end.
  pub spin-Extends :
      (es : List Event) (s : Server)
      → Ensures (λ r. Extends s.broker r.0.broker) (spin json debug accepts s es)
  spin-Extends es s =
      spin-Keeps json debug accepts (Extends s.broker) (Extends-IsKept s.broker) es s
        (Extends-refl s.broker)
