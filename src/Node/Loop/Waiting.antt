-- ===== src/Node/Loop/Waiting.antt =====
-- The messages that wait to be sent, which a round of `spin_once` does not make more.
use cpp_rt_pubsub.Prelude.{
  ℕ, zero, suc, ◌+◌, ◌≤◌, ◌≡◌, Bool, true, false, ◌&&◌, not, List, [], ◌∷◌, Bytes, length, set,
  Result, ok, ◌>>=◌, Ensures, Ensures-bind, Ensures-then, Ensures-if, Ensures-mono, or_fail,
  out_of_bounds, ℤ, ◌==◌, arith, Bool-cases, inl, inr,
}
use cpp_rt_pubsub.Broker.{index}
use cpp_rt_pubsub.MessageQueue.{MessageQueue, deref, size, empty, pop, get}
use cpp_rt_pubsub.Publisher.{Publisher, get_message, packet_size, pop_message, write_message}
use cpp_rt_pubsub.Publisher
use cpp_rt_pubsub.Subscriber.{Subscriber, run_callback}
use cpp_rt_pubsub.Subscriber
use cpp_rt_pubsub.Node.{publisher_turn, next_bp_counter, send_data}
use cpp_rt_pubsub.Node.State.{TopicInfo}
use cpp_rt_pubsub.Node.Loop.{Loop, each, subscriber_turn, publisher_step, topic_turn}

abbrev waits : Publisher → ℕ
waits p = length p.message_queue.queue

-- The messages that wait to be sent.
abbrev pub waiting : List Publisher → ℕ
waiting [] = 0
waiting (p ∷ ps) = waits p + waiting ps

abbrev as_number : Bool → ℕ
as_number true = 1
as_number false = 0

waiting-set :
    (ps : List Publisher) (i : ℕ) (p q : Publisher)
    → index ps i ≡ ok p
    → waiting (set ps i q) + waits p ≡ waiting ps + waits q
unfolding index
waiting-set [] i p q e = cc
waiting-set (x ∷ ps) zero p q e = let here : x ≡ p = cc in rw here (omega arith)
waiting-set (x ∷ ps) (suc i) p q e = omega (arith, waiting-set ps i p q e)

pop-takes :
    (q : MessageQueue) → (length q.queue == 0) ≡ false → length (pop q).0.queue + 1 ≤ length q.queue
unfolding pop
pop-takes q e = takes q.queue e
  where
    takes :
        (bs : List ℕ)
        → (length bs == 0) ≡ false
        → length (pop (record q { queue = bs })).0.queue + 1 ≤ length bs
    takes [] h = cc
    takes (b ∷ bs) h = omega arith

-- A turn takes one message off the queue if it sends one.
publisher_turn-takes :
    (accepts : Bytes → Bool) (counter : ℕ) (p : Publisher)
    → Ensures
        (λ t.
          waits t.publisher + as_number (not (Publisher.messages_queued p == 0) && t.succeeded)
          ≤ waits p)
        (publisher_turn accepts counter p)
unfolding publisher_turn size
publisher_turn-takes accepts counter p = elim (Bool-cases (waits p == 0)) [
  | inl e ↦ rw e (omega arith)
  | inr e ↦ rw e (
      Ensures-bind _ (or_fail (get_message p) out_of_bounds) _ λ pointer _.
        Ensures-bind _ (deref p.message_queue pointer) _ λ buffer _.
          Ensures-bind _
            (send_data (next_bp_counter counter) p.topic_id p.message_type_id buffer
              (packet_size p))
            _
            λ r _. elim (Bool-cases (accepts r.1)) [
              | inl a ↦ rw a (pop-takes (write_message p pointer r.0).message_queue e)
              | inr a ↦ rw a (omega arith)
            ])
]

-- A callback leaves no more messages to send than there were.
abbrev pub Quiet :
    {User : Type 0}
    → (ℕ → Bytes → ℕ → User × List Publisher → Result (User × List Publisher))
    → Type 0
Quiet {User} callback =
    (i : ℕ) (m : Bytes) (size : ℕ) (u : User) (ps : List Publisher)
    → Ensures (λ r. waiting r.1 ≤ waiting ps) (callback i m size (u, ps))

module _ {User : Type 0}
    (callback : ℕ → Bytes → ℕ → User × List Publisher → Result (User × List Publisher))
    (accepts : List Bytes → Bytes → Bool) (quiet : Quiet callback) where
  -- What waits, with what was already sent in a round counted once.
  abbrev pub measure : Loop User → ℕ
  measure l = waiting l.node.publishers + as_number l.work_done

  run_callback-quiet :
      (i : ℕ) (s : Subscriber) (u : User) (ps : List Publisher)
      → Ensures
          (λ r. Ensures (λ x. waiting x.1 ≤ waiting ps) r.1)
          (run_callback
            (λ m size (x : Result (User × List Publisher)). x >>= callback i m size)
            s
            (ok (u, ps)))
  unfolding run_callback
  run_callback-quiet i s u ps = Ensures-if _ (empty s.message_queue) _ _ (omega arith) (
      Ensures-bind _ (or_fail (get s.message_queue) out_of_bounds) _ λ pointer _.
        Ensures-bind _ (deref s.message_queue pointer) _ λ m _. quiet i m s.message_size u ps)

  subscriber_turn-quiet :
      (l : Loop User) (i : ℕ)
      → Ensures (λ r. measure r.0 ≤ measure l) (subscriber_turn callback accepts l i)
  unfolding subscriber_turn
  subscriber_turn-quiet l i = Ensures-bind _ (index l.node.subscribers i) _ λ s _.
      Ensures-if _ (Subscriber.messages_queued s == 0) _ _ (omega arith) (
        Ensures-then _ _
          (run_callback (λ m size (x : Result (User × List Publisher)). x >>= callback i m size) s
            (ok (l.user, l.node.publishers)))
          _ (run_callback-quiet i s l.user l.node.publishers)
          λ r h. Ensures-then _ _ r.1 _ h λ x k. omega arith)

  publisher_step-takes :
      (l : Loop User) (i : ℕ)
      → Ensures (λ r. measure r.0 ≤ measure l) (publisher_step callback accepts l i)
  unfolding publisher_step
  publisher_step-takes l i = Ensures-bind _ (index l.node.publishers i) _ λ p here.
      Ensures-then _ _ (publisher_turn (accepts l.sent) l.node.bp_counter p) _
        (publisher_turn-takes (accepts l.sent) l.node.bp_counter p)
        λ t h.
          let moved = waiting-set l.node.publishers i p t.publisher here in
          elim (Bool-cases l.work_done) [
            | inl w ↦ rw w (omega (arith, moved, h))
            | inr w ↦ rw w (omega (arith, moved, h))
          ]

  pub each-takes :
      {A : Type 0} (step : Loop User → A → Result (Loop User × Bool))
      → ((l : Loop User) (a : A) → Ensures (λ r. measure r.0 ≤ measure l) (step l a))
      → (as' : List A) (l : Loop User) → Ensures (λ r. measure r.0 ≤ measure l) (each step as' l)
  unfolding each
  each-takes step one [] l = omega arith
  each-takes step one (a ∷ as') l = Ensures-then _ _ (step l a) _ (one l a) λ r h.
      Ensures-if _ r.1 _ _
        (Ensures-mono _ _ (each step as' r.0) (λ t k. omega arith) (each-takes step one as' r.0)) h

  pub topic_turn-takes :
      (l : Loop User) (t : ℤ × TopicInfo)
      → Ensures (λ r. measure r.0 ≤ measure l) (topic_turn callback accepts l t)
  unfolding topic_turn
  topic_turn-takes l (priority, info) =
      Ensures-then _ _ (each (subscriber_turn callback accepts) info.subscribers l) _
        (each-takes (subscriber_turn callback accepts) subscriber_turn-quiet info.subscribers l)
        λ r h.
          Ensures-if _ r.1 _ _
            (Ensures-mono _ _ (each (publisher_step callback accepts) info.publishers r.0)
              (λ t k. omega arith)
              (each-takes (publisher_step callback accepts) publisher_step-takes info.publishers
                r.0))
            h
