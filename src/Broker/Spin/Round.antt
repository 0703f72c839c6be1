-- ===== src/Broker/Spin/Round.antt =====
-- A round of the broker's loop with a data packet, from the datagram to the sends.
use cpp_rt_pubsub.Prelude.{
  ℕ, ◌+◌, ◌-◌, ◌^◌, ◌≤◌, ◌<◌, ◌≡◌, refl, ◌∙◌, ap, Bool, true, String, List, ◌++◌, some, Bytes,
  overwrite, ok, arith, length, min, drop, take_of_length, take_all,
}
use cpp_rt_pubsub.Json.{Json, lookup}
use cpp_rt_pubsub.Protocol.{Packet, blank, decode_packet_buffer, data_message, bp_fill_data_header}
use cpp_rt_pubsub.Protocol.RoundTrip.{data_round_trip, data_result}
use cpp_rt_pubsub.Broker.{Broker, to_u32, assign, verify_and_update_client_counter}
use cpp_rt_pubsub.Broker.Inv.{IsValid}
use cpp_rt_pubsub.Broker.Counters.{verify-next}
use cpp_rt_pubsub.Broker.Control.Keeps.{IsValid-IsKept}
use cpp_rt_pubsub.Broker.Spin.{Server, received, Datagram, handle_packet, spin_round}
use cpp_rt_pubsub.Broker.Spin.Deliver.{audience, deliveries, forward_data-audience}

-- A datagram that fits is copied to the front of the buffer.
pub fill :
    (buffer payload : Bytes)
    → length payload ≤ length buffer
    → overwrite buffer 0 payload (min (length payload) (length buffer))
      ≡ payload ++ drop (length payload) buffer
fill buffer payload h =
    let whole : min (length payload) (length buffer) ≡ length payload = omega arith in
    rw whole (
      ap (λ x. x ++ drop (0 + length payload) buffer)
        (take_all (length payload) payload (omega arith))
      ∙ ap (λ k. payload ++ drop k buffer) (omega arith))

module _ (json : Json) (debug : Bool) (accepts : List Datagram → String → Bytes → Bool) (s : Server)
    (client : String) where
  -- A datagram that fits in the receive buffer is handled whole.
  pub spin_round-decoded :
      (packet : Bytes) (decoded : ℕ × Packet json.Value)
      → length packet ≤ length s.buffer
      → decode_packet_buffer json
          (packet ++ drop (length packet) s.buffer)
          (length packet)
          (blank json)
        ≡ ok decoded
      → spin_round json debug accepts s (received client packet)
        ≡ handle_packet json debug accepts
            (record s { buffer = packet ++ drop (length packet) s.buffer })
            client
            packet
            decoded
  unfolding spin_round
  spin_round-decoded packet decoded h e =
      let whole : min (length packet) (length s.buffer) ≡ length packet = omega arith in
      rw (
        fill s.buffer packet h,
        whole,
        e,
        take_of_length packet (drop (length packet) s.buffer) (length packet) refl,
      )

  handle_packet-data :
      (last : ℕ) (packet buffer : Bytes) (p : Packet json.Value)
      → IsValid s.broker
      → lookup client s.broker.client_counters ≡ some last
      → p.counter ≡ to_u32 (last + 1)
      → (debug ≡ true → p.topic_id < length s.broker.topics)
      → handle_packet json debug accepts
          (record s { buffer = buffer })
          client
          packet
          (data_message, p)
        ≡ ok (
          record {
            broker = record s.broker {
              client_counters = assign client (to_u32 (last + 1)) s.broker.client_counters;
            };
            buffer = buffer;
            sent =
                s.sent
                ++ deliveries s.broker.nodes packet
                    (audience s.broker p.topic_id p.message_type_id);
          },
          true,
        )
  unfolding handle_packet audience
  handle_packet-data last packet buffer p v known counter dbg =
      let counters = assign client (to_u32 (last + 1)) s.broker.client_counters in
      let b' : Broker = record s.broker { client_counters = counters } in
      let verified : verify_and_update_client_counter s.broker client p.counter ≡ (b', true) =
        rw counter (verify-next s.broker client known) in
      let s' : Server = record { broker = b'; buffer = buffer; sent = s.sent } in
      let sent =
        forward_data-audience json debug accepts s' packet p
          (IsValid-IsKept.counters s.broker counters v) dbg in
      rw verified (rw sent)

  -- A round of the loop of a valid broker with a data packet as `Node::send_data` makes it, from a
  -- known client, in sequence, and no longer than the receive buffer: the broker sends the very
  -- packet to the audience of its topic and message type, takes note of the counter, and goes on.
  -- With debug lines compiled in, this needs a topic ID that is registered.
  pub spin_round-data :
      (last topic type : ℕ) (header body : Bytes)
      → IsValid s.broker
      → lookup client s.broker.client_counters ≡ some last
      → topic < 2 ^ 32
      → type < 2 ^ 32
      → (debug ≡ true → topic < length s.broker.topics)
      → length header ≡ 17
      → 17 + length body ≤ length s.buffer
      → length body < 2 ^ 32 - 9
      → (packet : Bytes) × (bp_fill_data_header
            (to_u32 (last + 1))
            topic
            type
            (length body)
            (header ++ body)
          ≡ ok packet)
        × (drop 17 packet ≡ body)
        × (spin_round json debug accepts s (received client packet)
            ≡ ok (
              record {
                broker = record s.broker {
                  client_counters = assign client (to_u32 (last + 1)) s.broker.client_counters;
                };
                buffer = packet ++ drop (length packet) s.buffer;
                sent = s.sent ++ deliveries s.broker.nodes packet (audience s.broker topic type);
              },
              true,
            ))
  spin_round-data last topic type header body v known ht hm dbg hh room small =
      let (packet, e, len, body_eq, decodes) =
        data_round_trip json (blank json) (to_u32 (last + 1)) topic type header body
          (drop (17 + length body) s.buffer) hh (omega arith) ht hm small in
      (
        packet,
        e,
        body_eq,
        spin_round-decoded packet
              (
                data_message,
                data_result json (blank json) (to_u32 (last + 1)) topic type (length body),
              )
              (omega arith) (rw len (rw len at decodes))
            ∙ handle_packet-data last packet _ _ v known refl dbg,
      )
