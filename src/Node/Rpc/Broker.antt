-- ===== src/Node/Rpc/Broker.antt =====
-- The broker as the network of a node: what the node sends is a round of the broker's loop, and what
-- the broker sends to the node's address waits for the node. No datagram is lost.
pub mod Exchange
use cpp_rt_pubsub.Prelude.{
  ℕ, Bool, true, String, List, [], ◌∷◌, ◌++◌, Bytes, Result, ok, ◌>>=◌, length, drop, str_eq,
  if◌then◌else◌,
}
use cpp_rt_pubsub.Json.{Json}
use cpp_rt_pubsub.Broker.Spin.{Server, Datagram, spin_round}
use cpp_rt_pubsub.Broker.Spin
use cpp_rt_pubsub.Node.Incoming.{Event, failed, received}
use cpp_rt_pubsub.Node.Rpc.{Network}

pub record World : Type 0 where
  pub server : Server
  pub running : Bool
  pub inbox : List Bytes

-- The payloads of the datagrams to an address.
unfoldable pub addressed_to : String → List Datagram → List Bytes
addressed_to client [] = []
addressed_to client ((address, payload) ∷ ds) =
    if str_eq address client then payload ∷ addressed_to client ds else addressed_to client ds

-- Every `sendto` of the broker succeeds.
abbrev pub accept_all : List Datagram → String → Bytes → Bool
accept_all sent address payload = true

module _ (json : Json) (debug : Bool) (client : String) where
  unfoldable pub to_broker : World → Bytes → Result (World × Bool)
  to_broker w packet = do
    let handled : Result (World × Bool) = do
      r ← spin_round json debug accept_all w.server (Spin.received client packet)
      ok (
        record {
          server = r.0;
          running = r.1;
          inbox = w.inbox ++ addressed_to client (drop (length w.server.sent) r.0.sent);
        },
        true,
      )
    if w.running then handled else ok (w, true)

  -- With nothing to come a blocking `recvfrom` would not return; it is an error here.
  unfoldable pub next_datagram : World → List Bytes → Result (World × Event)
  next_datagram w [] = ok (w, failed)
  next_datagram w (x ∷ xs) = ok (record w { inbox = xs }, received x)

  unfoldable pub from_broker : World → Result (World × Event)
  from_broker w = next_datagram w w.inbox

  abbrev pub broker_network : Network World
  broker_network = record { sendto = to_broker; recvfrom = from_broker }
