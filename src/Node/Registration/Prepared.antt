-- ===== src/Node/Registration/Prepared.antt =====
-- The invariant of a node while it registers its clients.
use cpp_rt_pubsub.Prelude.{
  ℕ, ◌+◌, ◌≤◌, ◌<◌, ◌≡◌, ◌∙◌, List, [], ◌∷◌, map, length, length-set, set, All, All-set, All-append,
  ℤ, int_eq, ◌==◌, Bool-cases, inl, inr, arith,
}
use cpp_rt_pubsub.Publisher.{Publisher}
use cpp_rt_pubsub.Publisher.Queued
use cpp_rt_pubsub.Subscriber.{Subscriber}
use cpp_rt_pubsub.Subscriber.Delivery.{Ready}
use cpp_rt_pubsub.Node.State.{
  Node, TopicInfo, no_clients, push_publisher, push_subscriber, change_topic, before, change_prio,
}
use cpp_rt_pubsub.Node.State.Order.{Descending, change_prio-Descending}
use cpp_rt_pubsub.Node.Loop.Kept.{InRange, IsValid, publishers-IsValid, subscriber-IsValid}
use cpp_rt_pubsub.Node.Registration.{set_publisher, set_subscriber, list_publisher, list_subscriber}

change_prio-All :
    (Q : ℤ × TopicInfo → Type 0) (q : ℤ) (change : TopicInfo → TopicInfo) (m : List (ℤ × TopicInfo))
    → ((k : ℤ) (info : TopicInfo) → Q (k, info) → Q (k, change info))
    → Q (q, change no_clients)
    → All Q m
    → All Q (change_prio q change m)
unfolding change_prio
change_prio-All Q q change [] f h a = (h, tt)
change_prio-All Q q change ((k, info) ∷ m) f h a = elim (Bool-cases (int_eq k q)) [
  | inl e ↦ rw e (f k info a.0, a.1)
  | inr ne ↦ rw ne (elim (Bool-cases (before q k)) [
    | inl b ↦ rw b (h, a)
    | inr b ↦ rw b (a.0, change_prio-All Q q change m f h a.1)
  ])
]

abbrev subscribers_of : ℕ × TopicInfo → ℕ × List ℕ
subscribers_of t = (t.0, t.1.subscribers)

change_topic-All :
    (Q : ℕ × List ℕ → Type 0) (id : ℕ) (change : TopicInfo → TopicInfo) (m : List (ℕ × TopicInfo))
    → ((k : ℕ) (info : TopicInfo) → Q (k, info.subscribers) → Q (k, (change info).subscribers))
    → Q (id, (change no_clients).subscribers)
    → All Q (map subscribers_of m)
    → All Q (map subscribers_of (change_topic id change m))
unfolding change_topic
change_topic-All Q id change [] f h a = (h, tt)
change_topic-All Q id change ((k, info) ∷ m) f h a = elim (Bool-cases (k == id)) [
  | inl e ↦ rw e (f k info a.0, a.1)
  | inr ne ↦ rw ne (a.0, change_topic-All Q id change m f h a.1)
]

-- Of two states of a node: the second is valid, with its topics in the order of priority, as many
-- clients and a buffer as long.
pub record Prepared (n0 n : Node) : Type 0 where
  pub valid : IsValid n
  pub order : Descending n.topics_by_prio
  pub publishers_left : length n.publishers ≡ length n0.publishers
  pub subscribers_left : length n.subscribers ≡ length n0.subscribers
  pub buffer_left : length n.buffer ≡ length n0.buffer

module _ (n0 n : Node) (v : Prepared n0 n) where
  pub Prepared-set_publisher :
      (i : ℕ) (p : Publisher) → Queued.Ready p → Prepared n0 (set_publisher n i p)
  unfolding set_publisher
  Prepared-set_publisher i p r =
      let len = length-set n.publishers i p in
      record {
        valid =
            publishers-IsValid n (set n.publishers i p) v.valid
              (All-set Queued.Ready n.publishers i p v.valid.ready r) len;
        order = v.order;
        publishers_left = len ∙ v.publishers_left;
        subscribers_left = v.subscribers_left;
        buffer_left = v.buffer_left;
      }

  pub Prepared-set_subscriber :
      (i : ℕ) (s : Subscriber)
      → Ready s
      → 17 + s.message_size ≤ length n0.buffer
      → Prepared n0 (set_subscriber n i s)
  unfolding set_subscriber
  Prepared-set_subscriber i s r room = record {
    valid = subscriber-IsValid n i s v.valid r (rw v.buffer_left room);
    order = v.order;
    publishers_left = v.publishers_left;
    subscribers_left = length-set n.subscribers i s ∙ v.subscribers_left;
    buffer_left = v.buffer_left;
  }

  pub Prepared-list_publisher :
      (i : ℕ) (p : Publisher) → i < length n0.publishers → Prepared n0 (list_publisher n i p)
  unfolding list_publisher
  Prepared-list_publisher i p h =
      let lt : i < length n.publishers = omega (arith, v.publishers_left) in
      record {
        valid = record {
          receives = record {
            headers = v.valid.receives.headers;
            ready = v.valid.receives.ready;
            room = v.valid.receives.room;
            known =
                change_topic-All (λ t. InRange (length n.subscribers) t.1) p.topic_id
                  (push_publisher i) n.topics (λ k info q. q) tt v.valid.receives.known;
          };
          ready = v.valid.ready;
          publishers =
              change_prio-All (λ t. InRange (length n.publishers) t.1.publishers) p.topic_priority
                (push_publisher i) n.topics_by_prio
                (λ k info q.
                  All-append (λ j. j < length n.publishers) info.publishers (i ∷ []) q (lt, tt))
                (lt, tt) v.valid.publishers;
          subscribers =
              change_prio-All (λ t. InRange (length n.subscribers) t.1.subscribers) p.topic_priority
                (push_publisher i) n.topics_by_prio (λ k info q. q) tt v.valid.subscribers;
        };
        order = change_prio-Descending p.topic_priority (push_publisher i) n.topics_by_prio v.order;
        publishers_left = v.publishers_left;
        subscribers_left = v.subscribers_left;
        buffer_left = v.buffer_left;
      }

  pub Prepared-list_subscriber :
      (i : ℕ) (s : Subscriber) → i < length n0.subscribers → Prepared n0 (list_subscriber n i s)
  unfolding list_subscriber
  Prepared-list_subscriber i s h =
      let lt : i < length n.subscribers = omega (arith, v.subscribers_left) in
      record {
        valid = record {
          receives = record {
            headers = v.valid.receives.headers;
            ready = v.valid.receives.ready;
            room = v.valid.receives.room;
            known =
                change_topic-All (λ t. InRange (length n.subscribers) t.1) s.topic_id
                  (push_subscriber i) n.topics
                  (λ k info q.
                    All-append (λ j. j < length n.subscribers) info.subscribers (i ∷ []) q (lt, tt))
                  (lt, tt) v.valid.receives.known;
          };
          ready = v.valid.ready;
          publishers =
              change_prio-All (λ t. InRange (length n.publishers) t.1.publishers) s.topic_priority
                (push_subscriber i) n.topics_by_prio (λ k info q. q) tt v.valid.publishers;
          subscribers =
              change_prio-All (λ t. InRange (length n.subscribers) t.1.subscribers) s.topic_priority
                (push_subscriber i) n.topics_by_prio
                (λ k info q.
                  All-append (λ j. j < length n.subscribers) info.subscribers (i ∷ []) q (lt, tt))
                (lt, tt) v.valid.subscribers;
        };
        order =
            change_prio-Descending s.topic_priority (push_subscriber i) n.topics_by_prio v.order;
        publishers_left = v.publishers_left;
        subscribers_left = v.subscribers_left;
        buffer_left = v.buffer_left;
      }
