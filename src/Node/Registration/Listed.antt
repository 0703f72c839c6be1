-- ===== src/Node/Registration/Listed.antt =====
-- Where a registered subscriber or publisher is found.
use cpp_rt_pubsub.Prelude.{
  ℕ, ◌≡◌, List, [], ◌∷◌, Option, none, some, ℤ, int_eq, ◌==◌, if◌then◌else◌,
}
use cpp_rt_pubsub.Publisher.{Publisher}
use cpp_rt_pubsub.Subscriber.{Subscriber}
use cpp_rt_pubsub.Node.State.{Node, TopicInfo}
use cpp_rt_pubsub.Node.State.Order.{Descending, find_prio, or_no_clients}

abbrev subscribers_of : ℕ × TopicInfo → ℕ × List ℕ
subscribers_of t = (t.0, t.1.subscribers)

abbrev pub or_nil : Option (List ℕ) → List ℕ
or_nil none = []
or_nil (some is) = is

-- `m_topics` at an ID.
unfoldable pub find_info : ℕ → List (ℕ × TopicInfo) → Option TopicInfo
find_info k [] = none
find_info k ((j, info) ∷ m) = if j == k then some info else find_info k m

-- A client is in a node: `push` puts it among those of its priority and those of its topic, which are
-- made if they are missing; those of other priorities and topics, and all other members, are as before.
pub record Listed (push : TopicInfo → TopicInfo) (id : ℕ) (priority : ℤ) (n n' : Node)
    : Type 0 where
  pub ordered : Descending n'.topics_by_prio
  pub at_priority :
      (k : ℤ)
      → find_prio k n'.topics_by_prio ≡ (
          if int_eq priority k
          then some (push (or_no_clients (find_prio priority n.topics_by_prio)))
          else find_prio k n.topics_by_prio)
  pub at_topic :
      (k : ℕ)
      → find_info k n'.topics ≡ (
          if id == k
          then some (push (or_no_clients (find_info id n.topics)))
          else find_info k n.topics)
  pub same_rest : n' ≡ record n { topics = n'.topics; topics_by_prio = n'.topics_by_prio }
