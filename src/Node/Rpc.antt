-- ===== src/Node/Rpc.antt =====
-- src/node.cpp: `Node::send_control` and `Node::broker_rpc_blocking`. The network is a state `W` with
-- the two calls that the node makes of it; a `recvfrom` is a blocking one.
pub mod Broker
mod Tests
use cpp_rt_pubsub.Prelude.{ℕ, Bool, true, Bytes, Result, ok, ◌>>=◌, ◌==◌, if◌then◌else◌}
use cpp_rt_pubsub.Json.{Json}
use cpp_rt_pubsub.Protocol.{Packet, bp_control_json_to_packet_buffer, control}
use cpp_rt_pubsub.Node.{next_bp_counter}
use cpp_rt_pubsub.Node.Incoming.{Event, Outcome, error, nothing, message, receive_message}
use cpp_rt_pubsub.Node.State.{Node, receiver, with_receiver}

-- The calls of `m_network` while a node waits for the broker.
pub record Network (W : Type 0) : Type 0 where
  pub sendto : W → Bytes → Result (W × Bool)
  pub recvfrom : W → Result (W × Event)

module _ (json : Json) {W : Type 0} (network : Network W) where
  unfoldable pub send_control : Node → W → json.Value → Result (Node × W × Bool)
  send_control n w p_request = do
    let next = next_bp_counter n.bp_counter
    buffer ← bp_control_json_to_packet_buffer json p_request next
    r ← network.sendto w buffer
    ok (record n { bp_counter = next }, r.0, r.1)

  -- The response that `broker_rpc_blocking` returns, by the result of `receive_message`.
  unfoldable pub response_of : Outcome json.Value → json.Value
  response_of error = json.null
  response_of nothing = json.null
  response_of (message (bp_type, p)) = if bp_type == control then p.control_json else json.null

  unfoldable pub await_response : Node → W → Result (Node × W × json.Value)
  await_response n w = do
    e ← network.recvfrom w
    r ← receive_message json true (receiver n) e.1
    ok (with_receiver n r.0, e.0, response_of r.1)

  -- `json{}` stands for a failure.
  unfoldable pub broker_rpc_blocking : Node → W → json.Value → Result (Node × W × json.Value)
  broker_rpc_blocking n w p_request = do
    s ← send_control n w p_request
    if s.2 then await_response s.0 s.1 else ok (s.0, s.1, json.null)
