-- ===== src/Node/Loop.antt =====
-- src/node.cpp: `Node::spin_once`, `Node::spin` and `Node::spin_while_work`. What each `recvfrom` ends
-- with is given, and whether a `sendto` succeeds is a function `accepts` of the calls before it. A
-- callback may change what its user data points to, `User`, and publish on the node's publishers; it
-- does not call the node, nor write to the message.
pub mod Kept
pub mod Refused
pub mod Turns
pub mod Safe
pub mod Waiting
pub mod Drain
pub mod Packets
pub mod Round
pub mod Ordered
mod Tests
use cpp_rt_pubsub.Prelude.{
  ℕ, Bool, true, false, ◌||◌, ◌&&◌, not, List, [], ◌∷◌, ◌++◌, Bytes, Option, none, some, Result, ok,
  ◌>>=◌, set, ℤ, pos, negsuc, ltb, ◌==◌, if◌then◌else◌,
}
use cpp_rt_pubsub.Json.{Json}
use cpp_rt_pubsub.Broker.{index}
use cpp_rt_pubsub.Publisher.{Publisher}
use cpp_rt_pubsub.Publisher
use cpp_rt_pubsub.Subscriber.{Subscriber, run_callback}
use cpp_rt_pubsub.Subscriber
use cpp_rt_pubsub.Node.{publisher_turn}
use cpp_rt_pubsub.Node.Incoming.{Event, process_incoming_message}
use cpp_rt_pubsub.Node.State.{Node, TopicInfo, receiver, with_receiver}

pub data SpinOnceResult : Type 0 where
  invalid success no_work error : SpinOnceResult

abbrev pub is_success : SpinOnceResult → Bool
is_success success = true
is_success no_work = false
is_success error = false
is_success invalid = false

abbrev pub is_no_work : SpinOnceResult → Bool
is_no_work success = false
is_no_work no_work = true
is_no_work error = false
is_no_work invalid = false

-- The condition of the loop in `spin`.
abbrev pub goes_on : SpinOnceResult → Bool
goes_on r = is_success r || is_no_work r

-- The node, what its callbacks work on, the packets sent so far, and the local `work_done`.
pub record Loop (User : Type 0) : Type 0 where
  pub node : Node
  pub user : User
  pub sent : List Bytes
  pub work_done : Bool

abbrev pub is_positive : ℤ → Bool
is_positive (pos n) = ltb 0 n
is_positive (negsuc n) = false

-- A call for each entry in turn, until one is false.
unfoldable pub each : {A S : Type 0} → (S → A → Result (S × Bool)) → List A → S → Result (S × Bool)
each step [] s = ok (s, true)
each step (a ∷ as') s = do
  r ← step s a
  let rest = each step as' r.0
  if r.1 then rest else ok (r.0, false)

-- What `spin_once` returns after its loops, which end early on an error.
abbrev pub result_of : {User : Type 0} → Loop User × Bool → SpinOnceResult
result_of (l, false) = error
result_of (l, true) = if not l.work_done then no_work else success

module _ {User : Type 0}
    (callback : ℕ → Bytes → ℕ → User × List Publisher → Result (User × List Publisher))
    (accepts : List Bytes → Bytes → Bool) where
  unfoldable pub subscriber_turn : Loop User → ℕ → Result (Loop User × Bool)
  subscriber_turn l i = do
    s ← index l.node.subscribers i
    let called : Result (Loop User × Bool) = do
      r ← run_callback (λ m size u. u >>= callback i m size) s (ok (l.user, l.node.publishers))
      u ← r.1
      ok (
        record l {
          node = record l.node { subscribers = set l.node.subscribers i r.0; publishers = u.1 };
          user = u.0;
        },
        r.2,
      )
    if Subscriber.messages_queued s == 0 then ok (l, true) else called

  unfoldable pub publisher_step : Loop User → ℕ → Result (Loop User × Bool)
  publisher_step l i = do
    p ← index l.node.publishers i
    t ← publisher_turn (accepts l.sent) l.node.bp_counter p
    ok (
      record l {
        node = record l.node {
          publishers = set l.node.publishers i t.publisher;
          bp_counter = t.counter;
        };
        sent = l.sent ++ t.sent;
        work_done = l.work_done || not (Publisher.messages_queued p == 0) && t.succeeded;
      },
      t.succeeded,
    )

  unfoldable pub topic_turn : Loop User → ℤ × TopicInfo → Result (Loop User × Bool)
  topic_turn l (priority, info) = do
    r ← each subscriber_turn info.subscribers l
    let publishers = each publisher_step info.publishers r.0
    if r.1 then publishers else ok (r.0, false)

  module _ (json : Json) where
    unfoldable pub spin_once :
        Node → User → List Bytes → Event → Result (Loop User × SpinOnceResult)
    spin_once n u sent e = do
      r ← process_incoming_message json (receiver n) e
      let l : Loop User = record {
        node = with_receiver n r.0;
        user = u;
        sent = sent;
        work_done = is_positive r.1;
      }
      t ← each topic_turn l.node.topics_by_prio l
      ok (t.0, result_of t)

    -- The loops, for the calls of `recvfrom` that there are: `none` while the loop still runs.
    unfoldable pub spin : Node → User → List Bytes → List Event → Result (Loop User × Option Bool)
    spin n u sent [] = ok (record { node = n; user = u; sent = sent; work_done = false }, none)
    spin n u sent (e ∷ es) = do
      r ← spin_once n u sent e
      let rest = spin r.0.node r.0.user r.0.sent es
      if goes_on r.1 then rest else ok (r.0, some false)

    unfoldable pub spin_while_work :
        Node → User → List Bytes → List Event → Result (Loop User × Option Bool)
    spin_while_work n u sent [] =
        ok (record { node = n; user = u; sent = sent; work_done = false }, none)
    spin_while_work n u sent (e ∷ es) = do
      r ← spin_once n u sent e
      let rest = spin_while_work r.0.node r.0.user r.0.sent es
      if is_success r.1 then rest else ok (r.0, some (is_no_work r.1))
