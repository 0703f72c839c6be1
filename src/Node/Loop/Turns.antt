-- ===== src/Node/Loop/Turns.antt =====
-- A turn of a subscriber, of a publisher, and of a topic in `spin_once`.
use cpp_rt_pubsub.Prelude.{
  ℕ, suc, ◌+◌, ◌≤◌, ◌<◌, ◌≡◌, refl, sym, ◌∙◌, Bool, true, false, ◌||◌, ◌&&◌, not, List, [], ◌∷◌,
  ◌++◌, ap, Bytes, length, length-set, set, get_or, All, All-get_or, All-set, Result, ok, ◌>>=◌, ℤ,
  ◌==◌, arith, ==-ne, Bool-cases, inl, inr,
}
use cpp_rt_pubsub.Json.{Json}
use cpp_rt_pubsub.MessageQueue.{size, empty, pop}
use cpp_rt_pubsub.MessageQueue.Fifo.{pop_refines, spec_pop}
use cpp_rt_pubsub.Publisher.{Publisher, new_publisher}
use cpp_rt_pubsub.Publisher
use cpp_rt_pubsub.Publisher.Queued.{queued_buffer}
use cpp_rt_pubsub.Publisher.Queued
use cpp_rt_pubsub.Subscriber.{Subscriber, run_callback}
use cpp_rt_pubsub.Subscriber.Delivery.{Ready}
use cpp_rt_pubsub.Node.{Turn, publisher_turn}
use cpp_rt_pubsub.Node.Outgoing.{publisher_turn_lem}
use cpp_rt_pubsub.Protocol.{blank}
use cpp_rt_pubsub.Node.State.{Node, TopicInfo}
use cpp_rt_pubsub.Node.Loop.{Loop, subscriber_turn, publisher_step, topic_turn}
use cpp_rt_pubsub.Node.Loop.Refused.{Continues, Continues-trans, LastRefused}
use cpp_rt_pubsub.Node.Loop.Kept.{
  InRange, Kept, each-total, no_publisher, no_subscriber, index-in_range, publishers-IsValid,
  counter-IsValid, subscriber-IsValid,
}

-- What a callback does to the publishers of the node: it may publish on them, and neither faults nor
-- makes them unfit for sending.
abbrev pub Behaves :
    {User : Type 0}
    → (ℕ → Bytes → ℕ → User × List Publisher → Result (User × List Publisher))
    → Type 0
Behaves {User} callback =
    (i : ℕ) (m : Bytes) (u : User) (ps : List Publisher)
    → All Queued.Ready ps
    → (u' : User) × (ps' : List Publisher) × (callback i m (length m) (u, ps) ≡ ok (u', ps'))
      × All Queued.Ready ps'
      × (length ps' ≡ length ps)

-- The clients of a topic are the node's.
abbrev pub OfNode : Node → ℤ × TopicInfo → Type 0
OfNode n t =
    InRange (length n.subscribers) t.1.subscribers × InRange (length n.publishers) t.1.publishers

-- `run_callback` on a subscriber with a message waiting.
run_callback-waiting :
    {St : Type 0} (callback : Bytes → ℕ → St → St) (s : Subscriber) (st : St) {b : ℕ} {bs : List ℕ}
    → Ready s
    → s.message_queue.queue ≡ b ∷ bs
    → (s' : Subscriber) × (m : Bytes) × (run_callback callback s st
        ≡ ok (s', callback m (length m) st, true))
      × Ready s'
      × (s'.message_size ≡ s.message_size)
unfolding run_callback empty spec_pop
run_callback-waiting callback s st {b} {bs} r e =
    let q = s.message_queue in
    let (here, lt, there, long, oldest) = queued_buffer q r.valid e in
    let (returned, h) = pop_refines 17 q r.valid in
    let popped : (pop q).1 ≡ true = returned ∙ rw oldest refl in
    let m = get_or q.buffers b [] in
    let sized : length m ≡ s.message_size = long ∙ r.sized in
    (
      record s { message_queue = (pop q).0 },
      m,
      rw (here, there, popped, e, sized) refl,
      record {
        valid = h.valid;
        sized = h.same_size ∙ r.sized;
        small = r.small;
        capacity = h.same_capacity ∙ r.capacity;
      },
      refl,
    )

module _ {User : Type 0}
    (callback : ℕ → Bytes → ℕ → User × List Publisher → Result (User × List Publisher))
    (accepts : List Bytes → Bytes → Bool) (behaves : Behaves callback) (n : Node)
    (start : List Bytes) where
  abbrev pub Inv : Loop User → Type 0
  Inv l = Kept n l.node × Continues start l.sent

  -- The last `sendto` has failed.
  abbrev pub Refused : Loop User → Type 0
  Refused l = LastRefused accepts start l.sent

  abbrev pub Total : Result (Loop User × Bool) → Type 0
  Total r = (l' : Loop User) × (b : Bool) × (r ≡ ok (l', b)) × Inv l' × (b ≡ false → Refused l')

  subscriber_turn-waiting :
      (l : Loop User) (i b : ℕ) (bs : List ℕ)
      → Inv l
      → i < length l.node.subscribers
      → (get_or l.node.subscribers i no_subscriber).message_queue.queue ≡ b ∷ bs
      → Total (subscriber_turn callback accepts l i)
  unfolding subscriber_turn size
  subscriber_turn-waiting l i b bs (v, went) h e =
      let ss = l.node.subscribers in
      let s = get_or ss i no_subscriber in
      let r = All-get_or Ready ss i no_subscriber v.valid.receives.ready h in
      let (s', m, run, r', same) =
        run_callback-waiting (λ m k (u : Result (User × List Publisher)). u >>= callback i m k) s
          (ok (l.user, l.node.publishers)) r e in
      let (u', ps', called, rs, len) = behaves i m l.user l.node.publishers v.valid.ready in
      let room =
        All-get_or (λ (t : Subscriber). 17 + t.message_size ≤ length l.node.buffer) ss i
          no_subscriber v.valid.receives.room h in
      let with_publishers = publishers-IsValid l.node ps' v.valid rs len in
      (
        record l {
          node = record l.node { subscribers = set ss i s'; publishers = ps' };
          user = u';
        },
        true,
        rw
            (
              index-in_range ss i no_subscriber h,
              e,
              ==-ne (suc (length bs)) 0 (λ z. omega arith),
              run,
              called,
            )
            refl,
        (
          record {
            valid =
                subscriber-IsValid (record l.node { publishers = ps' }) i s' with_publishers r'
                  (rw same room);
            as_many_publishers = len ∙ v.as_many_publishers;
            as_many_subscribers = length-set ss i s' ∙ v.as_many_subscribers;
            same_topics = v.same_topics;
            same_order = v.same_order;
          },
          went,
        ),
        λ z. cc,
      )

  subscriber_turn-idle :
      (l : Loop User) (i : ℕ)
      → i < length l.node.subscribers
      → (get_or l.node.subscribers i no_subscriber).message_queue.queue ≡ []
      → subscriber_turn callback accepts l i ≡ ok (l, true)
  unfolding subscriber_turn size
  subscriber_turn-idle l i h e = rw (index-in_range l.node.subscribers i no_subscriber h, e) refl

  subscriber_turn-by :
      (l : Loop User) (i : ℕ) (bs : List ℕ)
      → (get_or l.node.subscribers i no_subscriber).message_queue.queue ≡ bs
      → Inv l
      → i < length n.subscribers
      → Total (subscriber_turn callback accepts l i)
  subscriber_turn-by l i [] e v h =
      (l, true, subscriber_turn-idle l i (rw v.0.as_many_subscribers h) e, v, λ z. cc)
  subscriber_turn-by l i (b ∷ bs) e v h =
      subscriber_turn-waiting l i b bs v (rw v.0.as_many_subscribers h) e

  module _ (json : Json) where
    -- The turn of a ready publisher returns, and leaves it ready.
    publisher_turn-Ready :
        (f : Bytes → Bool) (counter : ℕ) (p : Publisher) (bs : List ℕ)
        → Queued.Ready p
        → p.message_queue.queue ≡ bs
        → (t : Turn) × (publisher_turn f counter p ≡ ok t)
          × Queued.Ready t.publisher
          × (t.succeeded ≡ false → (packet : Bytes) × (t.sent ≡ packet ∷ []) × (f packet ≡ false))
    unfolding publisher_turn size
    publisher_turn-Ready f counter p [] r e = (
      record { counter = counter; publisher = p; sent = []; succeeded = true },
      rw e refl,
      r,
      λ z. cc,
    )
    publisher_turn-Ready f counter p (b ∷ bs) r e =
        let (here, lt, there, long, oldest) = queued_buffer p.message_queue r.valid e in
        let (t, packet, sends) = publisher_turn_lem json (blank json) [] f counter p r _ _ oldest in
        (t, sends.returned, sends.ready, λ z. (packet, sends.once, sym sends.succeeded ∙ z))

    publisher_step-Total :
        (l : Loop User) (i : ℕ)
        → Inv l
        → i < length n.publishers
        → Total (publisher_step callback accepts l i)
    unfolding publisher_step
    publisher_step-Total l i (v, went) h =
        let ps = l.node.publishers in
        let lt : i < length ps = rw v.as_many_publishers h in
        let p = get_or ps i no_publisher in
        let (t, e, r, refused) =
          publisher_turn-Ready (accepts l.sent) l.node.bp_counter p p.message_queue.queue
            (All-get_or Queued.Ready ps i no_publisher v.valid.ready lt) refl in
        let len = length-set ps i t.publisher in
        (
          record l {
            node = record l.node { publishers = set ps i t.publisher; bp_counter = t.counter };
            sent = l.sent ++ t.sent;
            work_done = l.work_done || not (Publisher.messages_queued p == 0) && t.succeeded;
          },
          t.succeeded,
          rw (index-in_range ps i no_publisher lt, e) refl,
          (
            record {
              valid =
                  counter-IsValid (record l.node { publishers = set ps i t.publisher }) t.counter
                    (publishers-IsValid l.node (set ps i t.publisher) v.valid
                      (All-set Queued.Ready ps i t.publisher v.valid.ready r) len);
              as_many_publishers = len ∙ v.as_many_publishers;
              as_many_subscribers = v.as_many_subscribers;
              same_topics = v.same_topics;
              same_order = v.same_order;
            },
            Continues-trans start l.sent (l.sent ++ t.sent) went (t.sent, refl),
          ),
          λ z.
              let (packet, once, f) = refused z in
              record {
                earlier = l.sent;
                packet = packet;
                since = went;
                last = ap (λ xs. l.sent ++ xs) once;
                refused = f;
              },
        )

    pub topic_turn-Total :
        (l : Loop User) (t : ℤ × TopicInfo)
        → Inv l
        → OfNode n t
        → Total (topic_turn callback accepts l t)
    unfolding topic_turn
    topic_turn-Total l (priority, info) v h =
        let (l', b, e, v', cause) =
          each-total Inv (λ i. i < length n.subscribers) Refused (subscriber_turn callback accepts)
            (λ s i w k.
              subscriber_turn-by s i (get_or s.node.subscribers i no_subscriber).message_queue.queue
                refl w k)
            info.subscribers l v h.0 in
        let (l'', b', e', v'', cause') =
          each-total Inv (λ i. i < length n.publishers) Refused (publisher_step callback accepts)
            publisher_step-Total info.publishers l' v' h.1 in
        elim (Bool-cases b) [
          | inl yes' ↦ (l'', b', rw (e, yes') e', v'', cause')
          | inr no' ↦ (l', false, rw (e, no') refl, v', λ z. cause no')
        ]
