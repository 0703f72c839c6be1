-- ===== src/Node/Registration/Asked.antt =====
-- A request of a node with a response that may hold anything: what it leaves of the node.
use cpp_rt_pubsub.Prelude.{
  ℕ, ◌^◌, ◌<◌, ◌≡◌, refl, ◌∙◌, true, String, Option, none, some, Bytes, length, min, Result, ok,
  err, Ensures, Ensures-bind, Ensures-then, Ensures-if, or_fail, exception, ℤ, length-overwrite,
  overwrite, arith,
}
use cpp_rt_pubsub.Json.{Json, IsLawful}
use cpp_rt_pubsub.Protocol.{blank, bp_control_json_to_packet_buffer, decode_packet_buffer}
use cpp_rt_pubsub.Node.{next_bp_counter}
use cpp_rt_pubsub.Node.Incoming.{Event, failed, would_block, received, receive_message}
use cpp_rt_pubsub.Node.Requests.{
  Request, request_json, is_success, read_id, read_topic, read_u32_field,
}
use cpp_rt_pubsub.Node.Requests.Replies.{Small}
use cpp_rt_pubsub.Node.State.{Node, receiver, with_receiver}
use cpp_rt_pubsub.Node.Loop.Kept.{counter-IsValid}
use cpp_rt_pubsub.Node.Rpc.{Network, send_control, await_response, broker_rpc_blocking}
use cpp_rt_pubsub.Node.Registration.{ask}
use cpp_rt_pubsub.Node.Registration.Prepared.{Prepared}

-- The topic ID is a 32-bit number.
abbrev pub SmallTopic : Option (ℕ × ℤ) → Type 0
SmallTopic none = Unit
SmallTopic (some t) = t.0 < 2 ^ 32

abbrev pub Any : {A : Type 0} → A → Type 0
Any a = Unit

-- The node is prepared, and the rest of the result meets a condition.
abbrev pub Held : {W A : Type 0} → Node → (A → Type 0) → Node × W × A → Type 0
Held n0 Q r = Prepared n0 r.0 × Q r.2

abbrev pub Keeps : {W A : Type 0} → Node → (A → Type 0) → Result (Node × W × A) → Type 0
Keeps n0 Q m = Ensures (Held n0 Q) m

pub Ensures-Any : {A : Type 0} (r : Result A) → Ensures Any r
Ensures-Any (ok a) = tt
Ensures-Any (err e) = tt

module _ (json : Json) (laws : IsLawful json) where
  read_u32_field-small :
      (key : String) (v : json.Value) → Ensures (λ n. n < 2 ^ 32) (read_u32_field json key v)
  unfolding read_u32_field
  read_u32_field-small key v =
      Ensures-bind _ (or_fail (json.member v key) exception) _ λ m _. small m (json.get_u32 m) refl
    where
      small :
          (m : json.Value) (o : Option ℕ)
          → json.get_u32 m ≡ o
          → Ensures (λ n. n < 2 ^ 32) (or_fail o exception)
      small m none e = tt
      small m (some n) e = laws.get_u32-small m n e

  pub read_id-Small : (key : String) (v : json.Value) → Ensures Small (read_id json key v)
  unfolding read_id
  read_id-Small key v = Ensures-bind _ (is_success json v) _ λ s _.
      Ensures-if _ s _ _
        (Ensures-then _ _ (read_u32_field json key v) _ (read_u32_field-small key v) (λ n h. h)) tt

  pub read_topic-SmallTopic : (v : json.Value) → Ensures SmallTopic (read_topic json v)
  unfolding read_topic
  read_topic-SmallTopic v = Ensures-bind _ (is_success json v) _ λ s _.
      Ensures-if _ s _ _
        (Ensures-then _ _ (read_u32_field json "topic_id" v) _ (read_u32_field-small "topic_id" v)
          (λ n h.
            Ensures-bind _ (or_fail (json.member v "topic_priority") exception) _
              λ m _. Ensures-bind _ (or_fail (json.get_i8 m) exception) _ λ p _. h))
        tt

  module _ {W : Type 0} (network : Network W) (n0 : Node) where
    received-Prepared :
        (n : Node) (payload : Bytes)
        → Prepared n0 n
        → Prepared n0 (record n {
          buffer = overwrite n.buffer 0 payload (min (length payload) (length n.buffer));
        })
    received-Prepared n payload v =
        let same =
          length-overwrite n.buffer 0 payload (min (length payload) (length n.buffer)) (omega arith)
            (omega arith) in
        record {
          valid = record {
            receives = record {
              headers = rw same v.valid.receives.headers;
              ready = v.valid.receives.ready;
              room = rw same v.valid.receives.room;
              known = v.valid.receives.known;
            };
            ready = v.valid.ready;
            publishers = v.valid.publishers;
            subscribers = v.valid.subscribers;
          };
          order = v.order;
          publishers_left = v.publishers_left;
          subscribers_left = v.subscribers_left;
          buffer_left = same ∙ v.buffer_left;
        }

    counted-Prepared :
        (n : Node) (c : ℕ) → Prepared n0 n → Prepared n0 (record n { bp_counter = c })
    counted-Prepared n c v = record {
      valid = counter-IsValid n c v.valid;
      order = v.order;
      publishers_left = v.publishers_left;
      subscribers_left = v.subscribers_left;
      buffer_left = v.buffer_left;
    }

    receive_message-Prepared :
        (n : Node) (e : Event)
        → Prepared n0 n
        → Ensures
            (λ r. Prepared n0 (with_receiver n r.0))
            (receive_message json true (receiver n) e)
    unfolding receive_message
    receive_message-Prepared n failed v = v
    receive_message-Prepared n would_block v = v
    receive_message-Prepared n (received payload) v =
        Ensures-bind _
          (decode_packet_buffer json
            (overwrite n.buffer 0 payload (min (length payload) (length n.buffer)))
            (min (length payload) (length n.buffer)) (blank json))
          _ λ d _. received-Prepared n payload v

    send_control-Keeps :
        (n : Node) (w : W) (request : json.Value)
        → Prepared n0 n
        → Keeps n0 Any (send_control json network n w request)
    unfolding send_control
    send_control-Keeps n w request v =
        Ensures-bind _
          (bp_control_json_to_packet_buffer json request (next_bp_counter n.bp_counter)) _
          λ buffer _.
            Ensures-bind _ (network.sendto w buffer) _
              λ r _. (counted-Prepared n (next_bp_counter n.bp_counter) v, tt)

    await_response-Keeps :
        (n : Node) (w : W) → Prepared n0 n → Keeps n0 Any (await_response json network n w)
    unfolding await_response
    await_response-Keeps n w v = Ensures-bind _ (network.recvfrom w) _ λ e _.
        Ensures-then _ _ (receive_message json true (receiver n) e.1) _
          (receive_message-Prepared n e.1 v) λ r h. (h, tt)

    broker_rpc_blocking-Keeps :
        (n : Node) (w : W) (request : json.Value)
        → Prepared n0 n
        → Keeps n0 Any (broker_rpc_blocking json network n w request)
    unfolding broker_rpc_blocking
    broker_rpc_blocking-Keeps n w request v =
        Ensures-then _ _ (send_control json network n w request) _
          (send_control-Keeps n w request v)
          λ s h. Ensures-if _ s.2 _ _ (await_response-Keeps s.0 s.1 h.0) h

    pub ask-Keeps :
        {A : Type 0} (Q : A → Type 0) (n : Node) (w : W) (r : Request)
        (read : json.Value → Result A)
        → Prepared n0 n
        → ((v : json.Value) → Ensures Q (read v))
        → Keeps n0 Q (ask json network n w r read)
    unfolding ask
    ask-Keeps Q n w r read v reads =
        Ensures-then _ _ (broker_rpc_blocking json network n w (request_json json n.bp_counter r)) _
          (broker_rpc_blocking-Keeps n w (request_json json n.bp_counter r) v)
          λ s h. Ensures-then _ _ (read s.2) _ (reads s.2) λ a q. (h.0, q)
