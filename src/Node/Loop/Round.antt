-- ===== src/Node/Loop/Round.antt =====
-- A publisher's turn in a round: the packet it sends, and what is left for the turns to come.
use cpp_rt_pubsub.Prelude.{
  ℕ, ◌≡◌, ◌≢◌, refl, sym, ◌∙◌, ap, subst, Bool, true, ◌||◌, ◌&&◌, not, List, [], ◌∷◌, ◌++◌, Bytes,
  length, length-set, drop, set, get_or, get_or-set_ne, All, All-get_or, All-set, Result, ok, ◌==◌,
}
use cpp_rt_pubsub.Json.{Json}
use cpp_rt_pubsub.Protocol.{blank}
use cpp_rt_pubsub.MessageQueue.{size}
use cpp_rt_pubsub.MessageQueue.Fifo.{contents, bodies}
use cpp_rt_pubsub.Publisher.{Publisher}
use cpp_rt_pubsub.Publisher
use cpp_rt_pubsub.Publisher.Queued.{Ready, queued_buffer}
use cpp_rt_pubsub.Node.{Turn, publisher_turn, next_bp_counter}
use cpp_rt_pubsub.Node.Outgoing.{publisher_turn_lem}
use cpp_rt_pubsub.Node.Loop.{Loop, publisher_step}
use cpp_rt_pubsub.Node.Loop.Kept.{InRange, no_publisher, index-in_range}
use cpp_rt_pubsub.Node.Loop.Packets.{publisher_at, Carries, InOrder, done, idle, sends}

module _ (json : Json) where
  module _ {User : Type 0}
      (callback : ℕ → Bytes → ℕ → User × List Publisher → Result (User × List Publisher))
      (accepts : List Bytes → Bytes → Bool)
      (all_sent : (sent : List Bytes) (packet : Bytes) → accepts sent packet ≡ true)
      (ps : List Publisher) where
    -- In a round: publishers are ready, and those whose turn is yet to come are as at its beginning.
    pub record Round (is : List ℕ) (l : Loop User) : Type 0 where
      pub ready : All Ready l.node.publishers
      pub in_range : InRange (length l.node.publishers) is
      pub unchanged : All (λ j. publisher_at l.node.publishers j ≡ publisher_at ps j) is

    -- What some turns did: the packets they sent, and the state after them.
    pub record Sent (is js : List ℕ) (l : Loop User) (r : Result (Loop User × Bool)) : Type 0 where
      pub after : Loop User
      pub packets : List Bytes
      pub returned : r ≡ ok (after, true)
      pub added : after.sent ≡ l.sent ++ packets
      pub in_order : InOrder json ps l.node.bp_counter after.node.bp_counter is packets
      pub same_subscribers : after.node.subscribers ≡ l.node.subscribers
      pub rest : Round js after

    unchanged-set :
        (qs : List Publisher) (i : ℕ) (q : Publisher) (is : List ℕ)
        → All (λ j. i ≢ j) is
        → All (λ j. publisher_at qs j ≡ publisher_at ps j) is
        → All (λ j. publisher_at (set qs i q) j ≡ publisher_at ps j) is
    unchanged-set qs i q [] ne h = tt
    unchanged-set qs i q (j ∷ is) ne h =
        (get_or-set_ne qs i j q no_publisher ne.0 ∙ h.0, unchanged-set qs i q is ne.1 h.1)

    Sent-turn :
        (l : Loop User) (i : ℕ) (js : List ℕ) (t : Turn)
        → Round (i ∷ js) l
        → All (λ j. i ≢ j) js
        → publisher_turn (accepts l.sent) l.node.bp_counter (publisher_at l.node.publishers i)
          ≡ ok t
        → t.succeeded ≡ true
        → Ready t.publisher
        → InOrder json ps l.node.bp_counter t.counter (i ∷ []) t.sent
        → Sent (i ∷ []) js l (publisher_step callback accepts l i)
    unfolding publisher_step
    Sent-turn l i js t v ne e went r ordered =
        let qs = l.node.publishers in
        let len = length-set qs i t.publisher in
        let l' : Loop User = record l {
          node = record l.node { publishers = set qs i t.publisher; bp_counter = t.counter };
          sent = l.sent ++ t.sent;
          work_done =
              l.work_done
              || not (Publisher.messages_queued (publisher_at qs i) == 0) && t.succeeded;
        } in
        record {
          after = l';
          packets = t.sent;
          returned =
              rw (index-in_range qs i no_publisher v.in_range.0, e) (ap (λ b. ok (l', b)) went);
          added = refl;
          in_order = ordered;
          same_subscribers = refl;
          rest = record {
            ready = All-set Ready qs i t.publisher v.ready r;
            in_range = rw len v.in_range.1;
            unchanged = unchanged-set qs i t.publisher js ne v.unchanged.1;
          };
        }

    -- The turn of a publisher by what waits in its queue.
    pub publisher_step-queue :
        (l : Loop User) (i : ℕ) (js bs : List ℕ)
        → Round (i ∷ js) l
        → All (λ j. i ≢ j) js
        → (publisher_at l.node.publishers i).message_queue.queue ≡ bs
        → Sent (i ∷ []) js l (publisher_step callback accepts l i)
    publisher_step-queue l i js [] v ne e =
        let q = publisher_at l.node.publishers i in
        let c = l.node.bp_counter in
        let r = All-get_or Ready l.node.publishers i no_publisher v.ready v.in_range.0 in
        let nothing : contents 17 (publisher_at ps i).message_queue ≡ [] =
          subst (λ (p : Publisher). contents 17 p.message_queue ≡ []) v.unchanged.0 (rw e refl) in
        Sent-turn l i js (record { counter = c; publisher = q; sent = []; succeeded = true }) v ne
          (unfold publisher_turn size in rw e refl) refl r (idle c c i [] [] nothing (done c))
    publisher_step-queue l i js (b ∷ bs) v ne e =
        let q = publisher_at l.node.publishers i in
        let c = l.node.bp_counter in
        let r = All-get_or Ready l.node.publishers i no_publisher v.ready v.in_range.0 in
        let (here, lt, there, long, oldest) = queued_buffer q.message_queue r.valid e in
        let x : Bytes = drop 17 (get_or q.message_queue.buffers b []) in
        let xs = bodies 17 q.message_queue.buffers bs in
        let (t, packet, s) =
          publisher_turn_lem json (blank json) [] (accepts l.sent) c q r x xs oldest in
        let carries : Carries json (next_bp_counter c) q x packet = record {
          whole = s.is_sent.whole;
          message_last = s.is_sent.message_last;
          decoded = s.is_sent.decoded;
        } in
        let one =
          sends c (next_bp_counter c) i [] packet [] x xs
            (subst (λ (p : Publisher). contents 17 p.message_queue ≡ x ∷ xs) v.unchanged.0 oldest)
            (subst (λ p. Carries json (next_bp_counter c) p x packet) v.unchanged.0 carries)
            (done (next_bp_counter c)) in
        Sent-turn l i js t v ne s.returned (s.succeeded ∙ all_sent l.sent packet) s.ready (
          subst (λ d. InOrder json ps c d (i ∷ []) t.sent) (sym s.counted)
            (subst (λ xs. InOrder json ps c (next_bp_counter c) (i ∷ []) xs) (sym s.once) one))
