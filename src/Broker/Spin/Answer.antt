-- ===== src/Broker/Spin/Answer.antt =====
-- A round of the broker's loop with a control packet, from the datagram to the response.
use cpp_rt_pubsub.Prelude.{
  ℕ, ◌+◌, ◌-◌, ◌^◌, ◌≤◌, ◌<◌, ◌≡◌, ◌∙◌, ap, subst, Bool, true, String, List, [], ◌∷◌, ◌++◌, Option,
  none, some, Bytes, ok, arith, length, length-drop, drop, ◌==◌, Bool-cases, inl, inr,
}
use cpp_rt_pubsub.Json.{Json, IsLawful, lookup}
use cpp_rt_pubsub.Protocol.{blank, control}
use cpp_rt_pubsub.Protocol.RoundTrip.{
  control_packet, length-control_packet, control_result, decode-control_packet,
  bp_control_json_to_packet_buffer-ok,
}
use cpp_rt_pubsub.Broker.{Broker, to_u32, counter_step, verify_and_update_client_counter}
use cpp_rt_pubsub.Broker.Counters.{lookup-assign_self}
use cpp_rt_pubsub.Broker.Control.{process_control_request}
use cpp_rt_pubsub.Broker.Control.Counted.{process_control_request-counters}
use cpp_rt_pubsub.Broker.Spin.{
  Server, received, Datagram, counter_entry, touch_counter, send_data, send_control_response,
  answer_control, handle_packet, spin_round,
}
use cpp_rt_pubsub.Broker.Spin.Round.{spin_round-decoded}

step-known :
    (b b' : Broker) (client : String) (c : ℕ) (o : Option ℕ)
    → counter_step b client c o ≡ (b', true)
    → lookup client b'.client_counters ≡ some c
unfolding counter_step
step-known b b' client c none h =
    subst (λ x. lookup client x.client_counters ≡ some c) (ap (λ r. r.0) h)
      (lookup-assign_self client c b.client_counters)
step-known b b' client c (some last) h = elim (Bool-cases (to_u32 (last + 1) == c)) [
  | inl next ↦
      let h' = rw next at h in
      subst (λ x. lookup client x.client_counters ≡ some c) (ap (λ r. r.0) h')
        (lookup-assign_self client c b.client_counters)
  | inr other ↦ let h' = rw other at h in absurd (cc h')
]

-- The counter of a packet that was let through is the client's from then on.
pub verify-known :
    (b b' : Broker) (client : String) (c : ℕ)
    → verify_and_update_client_counter b client c ≡ (b', true)
    → lookup client b'.client_counters ≡ some c
unfolding verify_and_update_client_counter
verify-known b b' client c h = step-known b b' client c (lookup client b.client_counters) h

module _ (json : Json) (laws : IsLawful json) (debug : Bool)
    (accepts : List Datagram → String → Bytes → Bool) (s : Server) (client : String) where
  send_control_response-known :
      (b : Broker) (buffer : Bytes) (c : ℕ) (response : json.Value) (text : Bytes)
      → lookup client b.client_counters ≡ some c
      → json.dump response ≡ some text
      → send_control_response json debug accepts
          (record s { broker = b; buffer = buffer })
          client
          response
        ≡ ok (
          record {
            broker = b;
            buffer = buffer;
            sent = s.sent ++ (client, control_packet c text) ∷ [];
          },
          accepts s.sent client (control_packet c text),
        )
  unfolding send_control_response send_data touch_counter counter_entry
  send_control_response-known b buffer c response text known dumps =
      rw (known, bp_control_json_to_packet_buffer-ok json (blank json) response text c dumps)

  -- A round of the loop with a control packet that a node made of a JSON request, no longer than the
  -- receive buffer, whose counter the broker lets through, and whose request it can handle: the broker
  -- does what `process_control_request` does, and sends its response, with the client's counter, to
  -- the client. The loop goes on exactly if that `sendto` succeeds. (The texts of both JSON values are
  -- shorter than 2 ^ 32 - 9 bytes, and the JSON library meets `IsLawful`.)
  pub spin_round-control :
      (counter : ℕ) (request response : json.Value) (request_text response_text : Bytes)
      (b b' : Broker)
      → counter < 2 ^ 32
      → json.dump request ≡ some request_text
      → length request_text < 2 ^ 32 - 9
      → 9 + length request_text ≤ length s.buffer
      → 17 ≤ length s.buffer
      → verify_and_update_client_counter s.broker client counter ≡ (b, true)
      → process_control_request json b client request ≡ ok (b', response)
      → json.dump response ≡ some response_text
      → spin_round json debug accepts s (received client (control_packet counter request_text))
        ≡ ok (
          record {
            broker = b';
            buffer =
                control_packet counter request_text
                ++ drop (length (control_packet counter request_text)) s.buffer;
            sent = s.sent ++ (client, control_packet counter response_text) ∷ [];
          },
          accepts s.sent client (control_packet counter response_text),
        )
  unfolding handle_packet answer_control
  spin_round-control counter request response request_text response_text b b' small dumps short fits
        room accepted handled answers =
      let packet = control_packet counter request_text in
      let len = length-control_packet counter request_text in
      let buffer' = packet ++ drop (length packet) s.buffer in
      let decoded =
        decode-control_packet json (blank json) request request_text
          (laws.parse-dump request request_text dumps) counter (drop (length packet) s.buffer) short
          small (omega (arith, len, length-drop (length packet) s.buffer)) in
      let known : lookup client b'.client_counters ≡ some counter =
        ap (lookup client)
          (process_control_request-counters json b b' client request response handled)
        ∙ verify-known s.broker b client counter accepted in
      spin_round-decoded json debug accepts s client packet
        (control, control_result json (blank json) counter (length request_text) request)
        (omega (arith, len)) decoded
      ∙ rw accepted (
          rw handled
            (send_control_response-known b' buffer' counter response response_text known answers))
