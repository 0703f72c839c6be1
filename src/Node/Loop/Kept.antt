-- ===== src/Node/Loop/Kept.antt =====
-- The invariant of a node: its clients, and the topics that hold them.
use cpp_rt_pubsub.Prelude.{
  ℕ, ◌+◌, ◌≤◌, ◌<◌, ◌≡◌, refl, ◌∙◌, Bool, true, false, List, [], ◌∷◌, length, length-set, set,
  get_or, get_elem?-eq-get_or, All, All-set, Result, ok, ℤ, pos, Bool-cases, inl, inr,
}
use cpp_rt_pubsub.Broker.{index}
use cpp_rt_pubsub.Publisher.{Publisher, new_publisher}
use cpp_rt_pubsub.Publisher.Queued.{queued_buffer}
use cpp_rt_pubsub.Publisher.Queued
use cpp_rt_pubsub.Subscriber.{Subscriber, new_subscriber}
use cpp_rt_pubsub.Subscriber.Delivery.{Ready}
use cpp_rt_pubsub.Node.Incoming.Safe
use cpp_rt_pubsub.Node.State.{Node, TopicInfo, receiver}
use cpp_rt_pubsub.Node.Loop.{each}

-- A call for each entry does not fault, keeps an invariant, and is false only for a cause, of the
-- state that it leaves, if each call does so.
pub each-total :
    {A S : Type 0} (Inv : S → Type 0) (Fits : A → Type 0) (Cause : S → Type 0)
    (step : S → A → Result (S × Bool))
    → ((s : S) (a : A)
        → Inv s
        → Fits a
        → (s' : S) × (b : Bool) × (step s a ≡ ok (s', b)) × Inv s' × (b ≡ false → Cause s'))
    → (as' : List A) (s : S) → Inv s
    → All Fits as'
    → (s' : S) × (b : Bool) × (each step as' s ≡ ok (s', b)) × Inv s' × (b ≡ false → Cause s')
unfolding each
each-total Inv Fits Cause step one [] s v h = (s, true, refl, v, λ e. cc)
each-total Inv Fits Cause step one (a ∷ as') s v h =
    let (s', b, e, v', cause) = one s a v h.0 in
    let (s'', b', e', v'', cause') = each-total Inv Fits Cause step one as' s' v' h.1 in
    elim (Bool-cases b) [
      | inl yes' ↦ (s'', b', rw (e, yes') e', v'', cause')
      | inr no' ↦ (s', false, rw (e, no') refl, v', λ h'. cause no')
    ]

abbrev pub InRange : ℕ → List ℕ → Type 0
InRange n = All (λ i. i < n)

-- The invariant: the receiver's, publishers are ready, and topics hold clients of the node.
pub record IsValid (n : Node) : Type 0 where
  pub receives : Safe.IsValid (receiver n)
  pub ready : All Queued.Ready n.publishers
  pub publishers :
      All (λ (t : ℤ × TopicInfo). InRange (length n.publishers) t.1.publishers) n.topics_by_prio
  pub subscribers :
      All (λ (t : ℤ × TopicInfo). InRange (length n.subscribers) t.1.subscribers) n.topics_by_prio

-- Of two states of a node: the second is valid, with as many clients, in the same topics.
pub record Kept (n n' : Node) : Type 0 where
  pub valid : IsValid n'
  pub as_many_publishers : length n'.publishers ≡ length n.publishers
  pub as_many_subscribers : length n'.subscribers ≡ length n.subscribers
  pub same_topics : n'.topics ≡ n.topics
  pub same_order : n'.topics_by_prio ≡ n.topics_by_prio

abbrev pub no_publisher : Publisher
no_publisher = new_publisher "" "" 0 (pos 0) 0

abbrev pub no_subscriber : Subscriber
no_subscriber = new_subscriber "" "" 0 (pos 0)

pub index-in_range :
    {A : Type 0} (xs : List A) (i : ℕ) (d : A) → i < length xs → index xs i ≡ ok (get_or xs i d)
unfolding index
index-in_range xs i d h = rw (get_elem?-eq-get_or xs i d h) refl

-- Publishers replaced by as many that are ready.
pub publishers-IsValid :
    (n : Node) (ps : List Publisher)
    → IsValid n
    → All Queued.Ready ps
    → length ps ≡ length n.publishers
    → IsValid (record n { publishers = ps })
publishers-IsValid n ps v r len = record {
  receives = v.receives;
  ready = r;
  publishers = rw len v.publishers;
  subscribers = v.subscribers;
}

pub counter-IsValid : (n : Node) (c : ℕ) → IsValid n → IsValid (record n { bp_counter = c })
counter-IsValid n c v = record {
  receives = v.receives;
  ready = v.ready;
  publishers = v.publishers;
  subscribers = v.subscribers;
}

-- A subscriber replaced by one that is ready, for messages of the same size.
pub subscriber-IsValid :
    (n : Node) (i : ℕ) (s : Subscriber)
    → IsValid n
    → Ready s
    → 17 + s.message_size ≤ length n.buffer
    → IsValid (record n { subscribers = set n.subscribers i s })
subscriber-IsValid n i s v r room =
    let len = length-set n.subscribers i s in
    record {
      receives = record {
        headers = v.receives.headers;
        ready = All-set Ready n.subscribers i s v.receives.ready r;
        room =
            All-set (λ (t : Subscriber). 17 + t.message_size ≤ length n.buffer) n.subscribers i s
              v.receives.room room;
        known = rw len v.receives.known;
      };
      ready = v.ready;
      publishers = v.publishers;
      subscribers = rw len v.subscribers;
    }

pub Kept-trans : {a b c : Node} → Kept a b → Kept b c → Kept a c
Kept-trans x y = record {
  valid = y.valid;
  as_many_publishers = y.as_many_publishers ∙ x.as_many_publishers;
  as_many_subscribers = y.as_many_subscribers ∙ x.as_many_subscribers;
  same_topics = y.same_topics ∙ x.same_topics;
  same_order = y.same_order ∙ x.same_order;
}

pub Kept-refl : (n : Node) → IsValid n → Kept n n
Kept-refl n v = record {
  valid = v;
  as_many_publishers = refl;
  as_many_subscribers = refl;
  same_topics = refl;
  same_order = refl;
}
