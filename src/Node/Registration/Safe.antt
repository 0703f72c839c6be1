-- ===== src/Node/Registration/Safe.antt =====
-- A node from its constructor to the end of `connect`.
use cpp_rt_pubsub.Prelude.{
  ℕ, ◌+◌, ◌^◌, ◌≤◌, ◌<◌, ◌≡◌, refl, Bool, String, List, [], ◌∷◌, Bytes, length, All, All-append,
  Ensures, Ensures-mono, ℤ,
}
use cpp_rt_pubsub.Json.{Json, IsLawful}
use cpp_rt_pubsub.Publisher.{new_publisher}
use cpp_rt_pubsub.Publisher.Queued.{new_publisher-Ready}
use cpp_rt_pubsub.Publisher.Queued
use cpp_rt_pubsub.Subscriber.{Subscriber, new_subscriber}
use cpp_rt_pubsub.Subscriber.Delivery.{Ready, new_subscriber-Ready}
use cpp_rt_pubsub.Node.State.{Node, new_node, create_publisher, create_subscriber}
use cpp_rt_pubsub.Node.State.Order.{Descending}
use cpp_rt_pubsub.Node.Loop.Kept.{IsValid}
use cpp_rt_pubsub.Node.Rpc.{Network}
use cpp_rt_pubsub.Node.Registration.{connect}
use cpp_rt_pubsub.Node.Registration.Prepared.{Prepared}
use cpp_rt_pubsub.Node.Registration.Subscribers.{connect-Keeps}

-- The arguments of `create_publisher` and `create_subscriber`.
pub data Client : Type 0 where
  publisher subscriber : String → String → ℕ → ℤ → Client

abbrev pub create : List Client → Node → Node
create [] n = n
create (publisher topic type size priority ∷ cs) n =
    create cs (create_publisher n topic type size priority).0
create (subscriber topic type size priority ∷ cs) n =
    create cs (create_subscriber n topic type size priority).0

-- A packet with the client's messages is no longer than the receive buffer, nor than 2 ^ 32 bytes.
abbrev pub FitsIn : Bytes → Client → Type 0
FitsIn buffer (publisher topic type size priority) = 17 + size < 2 ^ 32
FitsIn buffer (subscriber topic type size priority) = (17 + size ≤ length buffer) × (size < 2 ^ 32)

record Unconnected (buffer : Bytes) (n : Node) : Type 0 where
  topics : n.topics ≡ []
  order : n.topics_by_prio ≡ []
  same_buffer : n.buffer ≡ buffer
  publishers : All Queued.Ready n.publishers
  subscribers : All Ready n.subscribers
  room : All (λ (s : Subscriber). 17 + s.message_size ≤ length buffer) n.subscribers

create-Unconnected :
    (buffer : Bytes) (cs : List Client) (n : Node)
    → All (FitsIn buffer) cs
    → Unconnected buffer n
    → Unconnected buffer (create cs n)
unfolding create_publisher create_subscriber
create-Unconnected buffer [] n h v = v
create-Unconnected buffer (publisher topic type size priority ∷ cs) n h v =
    create-Unconnected buffer cs (create_publisher n topic type size priority).0 h.1 (record {
      topics = v.topics;
      order = v.order;
      same_buffer = v.same_buffer;
      publishers =
          All-append Queued.Ready n.publishers (new_publisher topic type size priority 17 ∷ [])
            v.publishers ((new_publisher-Ready topic type size priority h.0).0, tt);
      subscribers = v.subscribers;
      room = v.room;
    })
create-Unconnected buffer (subscriber topic type size priority ∷ cs) n h v =
    let made : Subscriber = new_subscriber topic type size priority in
    create-Unconnected buffer cs (create_subscriber n topic type size priority).0 h.1 (record {
      topics = v.topics;
      order = v.order;
      same_buffer = v.same_buffer;
      publishers = v.publishers;
      subscribers =
          All-append Ready n.subscribers (made ∷ []) v.subscribers
            (new_subscriber-Ready topic type size priority h.0.1, tt);
      room =
          All-append (λ (s : Subscriber). 17 + s.message_size ≤ length buffer) n.subscribers
            (made ∷ []) v.room (h.0.0, tt);
    })

Unconnected-Prepared :
    (buffer : Bytes) (n : Node) → 17 ≤ length buffer → Unconnected buffer n → Prepared n n
Unconnected-Prepared buffer n h v = record {
  valid = record {
    receives = record {
      headers = rw v.same_buffer h;
      ready = v.subscribers;
      room = rw v.same_buffer v.room;
      known = rw v.topics tt;
    };
    ready = v.publishers;
    publishers = rw v.order tt;
    subscribers = rw v.order tt;
  };
  order = rw v.order tt;
  publishers_left = refl;
  subscribers_left = refl;
  buffer_left = refl;
}

-- A new node with any publishers and subscribers whose packets fit (17 bytes and a message are fewer
-- than 2 ^ 32, and no more than the receive buffer of a subscriber's node, which has 17 bytes at
-- least), and with a JSON library that meets `IsLawful`: whatever the network does and the responses
-- hold, if `connect` returns, with true or false, the node is fit for `spin_once`. All its publishers and
-- subscribers are ready, its topics hold only those, and its topics are in strictly descending order
-- of priority.
pub connect-IsValid :
    {W : Type 0} (json : Json)
    → IsLawful json
    → (network : Network W) (socket_ok connect_ok : Bool) (name : String) (buffer : Bytes)
      (cs : List Client) (w : W)
    → 17 ≤ length buffer
    → All (FitsIn buffer) cs
    → Ensures
        (λ r. IsValid r.0 × Descending r.0.topics_by_prio)
        (connect json network socket_ok connect_ok (create cs (new_node name buffer)) w)
connect-IsValid json laws network socket_ok connect_ok name buffer cs w room fits =
    let n = create cs (new_node name buffer) in
    let start = Unconnected-Prepared buffer n room (
      create-Unconnected buffer cs (new_node name buffer) fits (record {
        topics = refl;
        order = refl;
        same_buffer = refl;
        publishers = tt;
        subscribers = tt;
        room = tt;
      })) in
    Ensures-mono _ _ (connect json network socket_ok connect_ok n w) (λ r h. (h.0.valid, h.0.order))
      (connect-Keeps json laws network n socket_ok connect_ok n w start)
