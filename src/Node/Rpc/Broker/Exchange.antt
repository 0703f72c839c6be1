-- ===== src/Node/Rpc/Broker/Exchange.antt =====
-- A blocking RPC of a node, through the broker and back.
use cpp_rt_pubsub.Prelude.{
  ◌+◌, ◌-◌, ◌^◌, ◌≤◌, ◌<◌, ◌≡◌, refl, ◌∙◌, Bool, true, String, [], ◌∷◌, ◌++◌, some, Bytes, ok,
  arith, length, length-drop, drop, drop-append, str_eq_refl, min,
}
use cpp_rt_pubsub.Json.{Json, IsLawful}
use cpp_rt_pubsub.Protocol.{blank}
use cpp_rt_pubsub.Protocol.RoundTrip.{
  control_packet, length-control_packet, decode-control_packet, bp_control_json_to_packet_buffer-ok,
}
use cpp_rt_pubsub.Broker.{Broker, verify_and_update_client_counter}
use cpp_rt_pubsub.Broker.Control.{process_control_request}
use cpp_rt_pubsub.Broker.Spin.Round.{fill}
use cpp_rt_pubsub.Broker.Spin.Answer.{spin_round-control}
use cpp_rt_pubsub.Node.{next_bp_counter}
use cpp_rt_pubsub.Node.Requests.{Request, Fits, request_json}
use cpp_rt_pubsub.Node.Requests.Answers.{Answer, serve, answer_json}
use cpp_rt_pubsub.Node.Requests.Served.{process_control_request_lem}
use cpp_rt_pubsub.Node.State.{Node}
use cpp_rt_pubsub.Node.Incoming.{receive_message}
use cpp_rt_pubsub.Node.Rpc.{send_control, await_response, broker_rpc_blocking, response_of}
use cpp_rt_pubsub.Node.Rpc.Broker.{
  World, addressed_to, accept_all, to_broker, from_broker, next_datagram, broker_network,
}

-- What was appended to a list of sends.
addressed_to_self :
    (client : String) (packet : Bytes) → addressed_to client ((client, packet) ∷ []) ≡ packet ∷ []
unfolding addressed_to
addressed_to_self client packet = rw (str_eq_refl client) refl

-- The world and the node after an exchange.
abbrev pub world_after : String → World → Broker → Bytes → Bytes → World
world_after client w b request response = record w {
  server = record {
    broker = b;
    buffer = request ++ drop (length request) w.server.buffer;
    sent = w.server.sent ++ (client, response) ∷ [];
  };
  inbox = [];
}

abbrev pub node_after : Node → Bytes → Node
node_after n response = record n {
  bp_counter = next_bp_counter n.bp_counter;
  buffer = response ++ drop (length response) n.buffer;
}

module _ (json : Json) (laws : IsLawful json) (debug : Bool) (client : String) where
  module _ (n : Node) (w : World) (running : w.running ≡ true) (quiet : w.inbox ≡ [])
      (b b' : Broker) (request response : json.Value) (request_text response_text : Bytes) where
    abbrev sent_packet : Bytes
    sent_packet = control_packet (next_bp_counter n.bp_counter) request_text

    abbrev returned_packet : Bytes
    returned_packet = control_packet (next_bp_counter n.bp_counter) response_text

    to_broker-control :
        json.dump request ≡ some request_text
        → length request_text < 2 ^ 32 - 9
        → 9 + length request_text ≤ length w.server.buffer
        → 17 ≤ length w.server.buffer
        → verify_and_update_client_counter w.server.broker client (next_bp_counter n.bp_counter)
          ≡ (b, true)
        → process_control_request json b client request ≡ ok (b', response)
        → json.dump response ≡ some response_text
        → to_broker json debug client w sent_packet
          ≡ ok (
            record (world_after client w b' sent_packet returned_packet) {
              inbox = returned_packet ∷ [];
            },
            true,
          )
    unfolding to_broker
    to_broker-control dumps short fits room accepted handled answers =
        let round =
          spin_round-control json laws debug accept_all w.server client
            (next_bp_counter n.bp_counter) request response request_text response_text b b'
            (omega arith) dumps short fits room accepted handled answers in
        rw
          (
            running,
            round,
            drop-append w.server.sent ((client, returned_packet) ∷ []),
            addressed_to_self client returned_packet,
            quiet,
          )
          refl

    await_response-control :
        json.parse response_text ≡ some response
        → length response_text < 2 ^ 32 - 9
        → 9 + length response_text ≤ length n.buffer
        → 17 ≤ length n.buffer
        → await_response json
            (broker_network json debug client)
            (record n { bp_counter = next_bp_counter n.bp_counter })
            (record (world_after client w b' sent_packet returned_packet) {
              inbox = returned_packet ∷ [];
            })
          ≡ ok (
            node_after n returned_packet,
            world_after client w b' sent_packet returned_packet,
            response,
          )
    unfolding await_response from_broker next_datagram receive_message response_of
    await_response-control parses short fits room =
        let len = length-control_packet (next_bp_counter n.bp_counter) response_text in
        let rest = drop (length returned_packet) n.buffer in
        let whole : min (length returned_packet) (length n.buffer) ≡ length returned_packet =
          omega (arith, len) in
        let decoded =
          decode-control_packet json (blank json) response response_text parses
            (next_bp_counter n.bp_counter) rest short (omega arith)
            (omega (arith, len, length-drop (length returned_packet) n.buffer)) in
        rw (fill n.buffer returned_packet (omega (arith, len)), whole, decoded) refl

  -- A node's blocking RPC over a network that loses nothing, with the broker's loop running and nothing
  -- in the node's inbox: the request is one that a node makes, its numbers fit in their types, and the
  -- RPC ID is below 2 ^ 31; the broker lets the packet's counter through, and does what is asked for
  -- without a fault; the texts of request and answer are shorter than 2 ^ 32 - 9 bytes, and they fit,
  -- with 9 header bytes, into the two receive buffers, which have 17 bytes at least; the JSON library
  -- meets `IsLawful`. Then the RPC returns the broker's answer; the broker has done what was asked for,
  -- and nothing else, with the counter taken note of; the node's inbox is empty again, and its own
  -- state is changed in the counter and the receive buffer only.
  pub broker_rpc_blocking_lem :
      (n : Node) (w : World) (r : Request) (b b' : Broker) (answer : Answer)
      (request_text answer_text : Bytes)
      → w.running ≡ true
      → w.inbox ≡ []
      → n.bp_counter < 2 ^ 31
      → Fits r
      → verify_and_update_client_counter w.server.broker client (next_bp_counter n.bp_counter)
        ≡ (b, true)
      → serve b client r ≡ ok (b', answer)
      → json.dump (request_json json n.bp_counter r) ≡ some request_text
      → json.dump (answer_json json n.bp_counter answer) ≡ some answer_text
      → length request_text < 2 ^ 32 - 9
      → length answer_text < 2 ^ 32 - 9
      → 9 + length request_text ≤ length w.server.buffer
      → 17 ≤ length w.server.buffer
      → 9 + length answer_text ≤ length n.buffer
      → 17 ≤ length n.buffer
      → broker_rpc_blocking json
          (broker_network json debug client)
          n
          w
          (request_json json n.bp_counter r)
        ≡ ok (
          node_after n (control_packet (next_bp_counter n.bp_counter) answer_text),
          world_after client w b'
              (control_packet (next_bp_counter n.bp_counter) request_text)
              (control_packet (next_bp_counter n.bp_counter) answer_text),
          answer_json json n.bp_counter answer,
        )
  unfolding broker_rpc_blocking send_control
  broker_rpc_blocking_lem n w r b b' answer request_text answer_text running quiet small fits
        accepted served dumps answers short short' room room' space space' =
      let request = request_json json n.bp_counter r in
      let response = answer_json json n.bp_counter answer in
      let handled : process_control_request json b client request ≡ ok (b', response) =
        process_control_request_lem json laws n.bp_counter small b client r fits ∙ rw served refl in
      let sends =
        to_broker-control n w running quiet b b' request response request_text answer_text dumps
          short room room' accepted handled answers in
      let awaits =
        await_response-control n w running quiet b b' request response request_text answer_text
          (laws.parse-dump response answer_text answers) short' space space' in
      rw
        (
          bp_control_json_to_packet_buffer-ok json (blank json) request request_text
              (next_bp_counter n.bp_counter) dumps,
          sends,
        )
        awaits
