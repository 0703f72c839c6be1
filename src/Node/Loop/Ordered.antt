-- ===== src/Node/Loop/Ordered.antt =====
-- Which packets a call of `spin_once` sends, and in which order.
use cpp_rt_pubsub.Prelude.{
  ℕ, ◌<◌, ◌≡◌, refl, sym, ◌∙◌, ap, Bool, true, false, List, [], ◌∷◌, ◌++◌, append_assoc, append-nil,
  Bytes, length, All, All-append, Result, ok, ℤ,
}
use cpp_rt_pubsub.Json.{Json}
use cpp_rt_pubsub.MessageQueue.{size}
use cpp_rt_pubsub.MessageQueue.Inv.{Distinct}
use cpp_rt_pubsub.Publisher.{Publisher}
use cpp_rt_pubsub.Node.Incoming.{
  would_block, process_incoming_message, process_outcome, receive_message,
}
use cpp_rt_pubsub.Node.State.{Node, TopicInfo, receiver, with_receiver}
use cpp_rt_pubsub.Node.Loop.{
  Loop, result_of, each, subscriber_turn, publisher_step, topic_turn, spin_once,
}
use cpp_rt_pubsub.Node.Loop.Kept.{IsValid, InRange, no_subscriber, index-in_range}
use cpp_rt_pubsub.Node.Loop.Packets.{
  schedule, publisher_at, Distinct-right, Idle, InOrder, done, InOrder-append,
}
use cpp_rt_pubsub.Node.Loop.Round.{Round, Sent, publisher_step-queue}

module _ (json : Json) where
  module _ {User : Type 0}
      (callback : ℕ → Bytes → ℕ → User × List Publisher → Result (User × List Publisher))
      (accepts : List Bytes → Bytes → Bool)
      (all_sent : (sent : List Bytes) (packet : Bytes) → accepts sent packet ≡ true)
      (ps : List Publisher) where
    -- A turn of nobody, and turns one after the other.
    each-publisher_step :
        (is js : List ℕ) (l : Loop User)
        → Distinct (is ++ js)
        → Round json callback accepts all_sent ps (is ++ js) l
        → Sent json callback accepts all_sent ps is js l
            (each (publisher_step callback accepts) is l)
    unfolding each
    each-publisher_step [] js l d v = record {
      after = l;
      packets = [];
      returned = refl;
      added = sym (append-nil l.sent);
      in_order = done l.node.bp_counter;
      same_subscribers = refl;
      rest = v;
    }
    each-publisher_step (i ∷ is) js l d v =
        let a =
          publisher_step-queue json callback accepts all_sent ps l i (is ++ js)
            (publisher_at l.node.publishers i).message_queue.queue v d.0 refl in
        let b = each-publisher_step is js a.after d.1 a.rest in
        record {
          after = b.after;
          packets = a.packets ++ b.packets;
          returned = rw (a.returned, b.returned) refl;
          added =
              b.added
              ∙ ap (λ xs. xs ++ b.packets) a.added
              ∙ append_assoc l.sent a.packets b.packets;
          in_order =
              InOrder-append json ps l.node.bp_counter a.after.node.bp_counter
                b.after.node.bp_counter (i ∷ []) is a.packets b.packets a.in_order b.in_order;
          same_subscribers = b.same_subscribers ∙ a.same_subscribers;
          rest = b.rest;
        }

    each-subscriber_turn :
        (is : List ℕ) (l : Loop User)
        → Idle l.node.subscribers is
        → each (subscriber_turn callback accepts) is l ≡ ok (l, true)
    unfolding each subscriber_turn size
    each-subscriber_turn [] l h = refl
    each-subscriber_turn (i ∷ is) l h =
        rw (index-in_range l.node.subscribers i no_subscriber h.0.0, h.0.1)
          (each-subscriber_turn is l h.1)

    each-topic_turn :
        (ts : List (ℤ × TopicInfo)) (l : Loop User)
        → Distinct (schedule ts)
        → Round json callback accepts all_sent ps (schedule ts) l
        → All (λ (t : ℤ × TopicInfo). Idle l.node.subscribers t.1.subscribers) ts
        → Sent json callback accepts all_sent ps
            (schedule ts)
            []
            l
            (each (topic_turn callback accepts) ts l)
    unfolding each topic_turn
    each-topic_turn [] l d v h = record {
      after = l;
      packets = [];
      returned = refl;
      added = sym (append-nil l.sent);
      in_order = done l.node.bp_counter;
      same_subscribers = refl;
      rest = v;
    }
    each-topic_turn ((priority, info) ∷ ts) l d v h =
        let a = each-publisher_step info.publishers (schedule ts) l d v in
        let b =
          each-topic_turn ts a.after (Distinct-right info.publishers (schedule ts) d) a.rest
            (rw a.same_subscribers h.1) in
        record {
          after = b.after;
          packets = a.packets ++ b.packets;
          returned = rw (each-subscriber_turn info.subscribers l h.0, a.returned, b.returned) refl;
          added =
              b.added
              ∙ ap (λ xs. xs ++ b.packets) a.added
              ∙ append_assoc l.sent a.packets b.packets;
          in_order =
              InOrder-append json ps l.node.bp_counter a.after.node.bp_counter
                b.after.node.bp_counter info.publishers (schedule ts) a.packets b.packets a.in_order
                b.in_order;
          same_subscribers = b.same_subscribers ∙ a.same_subscribers;
          rest = b.rest;
        }

  -- Every publisher of a valid node's topics is in range.
  schedule-InRange :
      (n : ℕ) (ts : List (ℤ × TopicInfo))
      → All (λ (t : ℤ × TopicInfo). InRange n t.1.publishers) ts
      → InRange n (schedule ts)
  schedule-InRange n [] h = tt
  schedule-InRange n (t ∷ ts) h =
      All-append (λ i. i < n) t.1.publishers (schedule ts) h.0 (schedule-InRange n ts h.1)

  All-same : {A B : Type 0} (f : A → B) (xs : List A) → All (λ x. f x ≡ f x) xs
  All-same f [] = tt
  All-same f (x ∷ xs) = (refl, All-same f xs)

  -- For a valid node in whose topics no publisher stands twice, whose subscribers have nothing queued,
  -- and if nothing arrives and every `sendto` succeeds: `spin_once` does not fault; it sends one packet
  -- for each publisher that has a message waiting, in the order of the topics in `topics_by_prio` and then of the
  -- publishers in a topic, and nothing else; each packet has the publisher's IDs and message size, the
  -- counter, which goes up with each, and the publisher's oldest message; and the result is success or
  -- that there was no work.
  pub spin_once-InOrder :
      {User : Type 0}
      (callback : ℕ → Bytes → ℕ → User × List Publisher → Result (User × List Publisher))
      (accepts : List Bytes → Bytes → Bool) (n : Node) (u : User) (sent : List Bytes)
      → IsValid n
      → Distinct (schedule n.topics_by_prio)
      → All (λ (t : ℤ × TopicInfo). Idle n.subscribers t.1.subscribers) n.topics_by_prio
      → ((before : List Bytes) (packet : Bytes) → accepts before packet ≡ true)
      → (l : Loop User) × (packets : List Bytes) × (spin_once callback accepts json n u sent
            would_block
          ≡ ok (l, result_of (l, true)))
        × (l.sent ≡ sent ++ packets)
        × InOrder json n.publishers n.bp_counter l.node.bp_counter
            (schedule n.topics_by_prio)
            packets
  unfolding spin_once process_incoming_message receive_message process_outcome
  spin_once-InOrder {User} callback accepts n u sent v d h all_sent =
      let start : Loop User = record {
        node = with_receiver n (receiver n);
        user = u;
        sent = sent;
        work_done = false;
      } in
      let round : Round json callback accepts all_sent n.publishers (schedule n.topics_by_prio)
          start =
        record {
          ready = v.ready;
          in_range = schedule-InRange (length n.publishers) n.topics_by_prio v.publishers;
          unchanged = All-same (publisher_at n.publishers) (schedule n.topics_by_prio);
        } in
      let s =
        each-topic_turn callback accepts all_sent n.publishers n.topics_by_prio start d round h in
      (s.after, s.packets, rw s.returned refl, s.added, s.in_order)
