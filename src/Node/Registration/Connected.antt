-- ===== src/Node/Registration/Connected.antt =====
-- Registration of a node against the broker, from the call to the ID that it keeps.
use cpp_rt_pubsub.Prelude.{
  ℕ, ◌+◌, ◌-◌, ◌^◌, ◌≤◌, ◌<◌, ◌≡◌, refl, Bool, true, false, String, [], Option, none, some, Bytes,
  Result, ok, length,
}
use cpp_rt_pubsub.Json.{Json, IsLawful}
use cpp_rt_pubsub.Protocol.RoundTrip.{control_packet}
use cpp_rt_pubsub.Broker.{Broker, verify_and_update_client_counter}
use cpp_rt_pubsub.Broker
use cpp_rt_pubsub.Node.{next_bp_counter}
use cpp_rt_pubsub.Node.Requests.{request_json}
use cpp_rt_pubsub.Node.Requests
use cpp_rt_pubsub.Node.Requests.Answers.{node_id, or_refused, serve, answer_json}
use cpp_rt_pubsub.Node.Requests.Replies.{node_answer, register_node-Small}
use cpp_rt_pubsub.Node.State.{Node}
use cpp_rt_pubsub.Node.Rpc.Broker.{World, broker_network}
use cpp_rt_pubsub.Node.Rpc.Broker.Exchange.{world_after, node_after, broker_rpc_blocking_lem}
use cpp_rt_pubsub.Node.Registration.{ask, register_node, or_return}

-- What `register_node` makes of the ID that the broker gives.
abbrev pub keep_id : Option ℕ → Node → Node
keep_id none n = n
keep_id (some id) n = record n { node_id = id }

abbrev pub is_given : Option ℕ → Bool
is_given none = false
is_given (some id) = true

keep_id-or_return :
    {V : Type 0} (o : Option ℕ) (n : Node) (w : V)
    → ◌≡◌ {A = Result (Node × V × Bool)}
        (ok (or_return o (n, w, false) (λ id. (record n { node_id = id }, w, true))))
        (ok (keep_id o n, w, is_given o))
keep_id-or_return none n w = refl
keep_id-or_return (some id) n w = refl

module _ (json : Json) (laws : IsLawful json) (debug : Bool) (client : String) (n : Node)
    (w : World) where
  -- The answer of a broker to the registration of this node.
  abbrev pub id_answer : Broker → json.Value
  id_answer b =
      answer_json json n.bp_counter
        (or_refused "Failed to register node" node_id (Broker.register_node b client n.name).1)

  -- `Node::register_node` over a network that loses nothing, with the broker's loop running, nothing in
  -- the node's inbox, an RPC ID below 2 ^ 31, and a counter that the broker lets through; the texts of
  -- request and answer are shorter than 2 ^ 32 - 9 bytes and fit, with 9 header bytes, into the two
  -- receive buffers, which have 17 bytes at least; the JSON library meets `IsLawful`. The call succeeds
  -- exactly if the broker's `register_node` gives an ID, the node has that ID from then on (and keeps
  -- its own after a failure), and the broker's tables are what its `register_node` leaves.
  pub register_node_lem :
      (b : Broker) (request_text answer_text : Bytes)
      → w.running ≡ true
      → w.inbox ≡ []
      → n.bp_counter < 2 ^ 31
      → verify_and_update_client_counter w.server.broker client (next_bp_counter n.bp_counter)
        ≡ (b, true)
      → json.dump (request_json json n.bp_counter (Requests.register_node n.name))
        ≡ some request_text
      → json.dump (id_answer b) ≡ some answer_text
      → length request_text < 2 ^ 32 - 9
      → length answer_text < 2 ^ 32 - 9
      → 9 + length request_text ≤ length w.server.buffer
      → 17 ≤ length w.server.buffer
      → 9 + length answer_text ≤ length n.buffer
      → 17 ≤ length n.buffer
      → register_node json (broker_network json debug client) n w
        ≡ ok (
          keep_id
              (Broker.register_node b client n.name).1
              (node_after n (control_packet (next_bp_counter n.bp_counter) answer_text)),
          world_after client w
              (Broker.register_node b client n.name).0
              (control_packet (next_bp_counter n.bp_counter) request_text)
              (control_packet (next_bp_counter n.bp_counter) answer_text),
          is_given (Broker.register_node b client n.name).1,
        )
  unfolding register_node ask serve
  register_node_lem b request_text answer_text running quiet small accepted dumps answers short
        short' room room' space space' =
      let given = Broker.register_node b client n.name in
      let rpc =
        broker_rpc_blocking_lem json laws debug client n w (Requests.register_node n.name) b given.0
          (or_refused "Failed to register node" node_id given.1) request_text answer_text running
          quiet small tt accepted refl dumps answers short short' room room' space space' in
      let read = node_answer json laws n.bp_counter given.1 (register_node-Small b client n.name) in
      rw (rpc, read) (keep_id-or_return given.1 _ _)
