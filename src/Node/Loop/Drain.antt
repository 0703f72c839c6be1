-- ===== src/Node/Loop/Drain.antt =====
-- `spin_while_work`: why it ends.
use cpp_rt_pubsub.Prelude.{
  ℕ, zero, suc, ◌+◌, ◌≤◌, ◌<◌, ◌≡◌, refl, subst, Bool, true, false, List, some, Bytes, Result, ok,
  Ensures, Ensures-then, arith, Bool-cases, inl, inr, replicate,
}
use cpp_rt_pubsub.Json.{Json}
use cpp_rt_pubsub.Publisher.{Publisher}
use cpp_rt_pubsub.Node.Incoming.{
  would_block, process_incoming_message, process_outcome, receive_message,
}
use cpp_rt_pubsub.Node.State.{Node, receiver, with_receiver}
use cpp_rt_pubsub.Node.Loop.{
  Loop, SpinOnceResult, success, no_work, error, invalid, result_of, goes_on, each, topic_turn,
  spin_once, spin_while_work,
}
use cpp_rt_pubsub.Node.Loop.Kept.{IsValid, Kept, Kept-trans}
use cpp_rt_pubsub.Node.Loop.Refused.{Continues, LastRefused, LastRefused-earlier}
use cpp_rt_pubsub.Node.Loop.Turns.{Behaves}
use cpp_rt_pubsub.Node.Loop.Safe.{spin_once-IsValid}
use cpp_rt_pubsub.Node.Loop.Waiting.{waiting, Quiet, measure, each-takes, topic_turn-takes}

module _ {User : Type 0}
    (callback : ℕ → Bytes → ℕ → User × List Publisher → Result (User × List Publisher))
    (accepts : List Bytes → Bytes → Bool) (quiet : Quiet callback) where
  module _ (behaves : Behaves callback) (json : Json) where
    spin_once-takes :
        (n : Node) (u : User) (sent : List Bytes)
        → Ensures
            (λ r. r.1 ≡ success → waiting r.0.node.publishers < waiting n.publishers)
            (spin_once callback accepts json n u sent would_block)
    unfolding spin_once process_incoming_message receive_message process_outcome
    spin_once-takes n u sent =
        let start : Loop User = record {
          node = with_receiver n (receiver n);
          user = u;
          sent = sent;
          work_done = false;
        } in
        Ensures-then _ _ (each (topic_turn callback accepts) n.topics_by_prio start) _
          (each-takes callback accepts quiet (topic_turn callback accepts)
            (topic_turn-takes callback accepts quiet) n.topics_by_prio start)
          λ t h. worked t.0 t.1 h
      where
        worked :
            (l : Loop User) (b : Bool)
            → measure callback accepts quiet l ≤ waiting n.publishers + 0
            → result_of (l, b) ≡ success
            → waiting l.node.publishers < waiting n.publishers
        worked l false h e = cc
        worked l true h e = elim (Bool-cases l.work_done) [
          | inl w ↦ let h' = rw w at h in omega arith
          | inr w ↦ let e' = rw w at e in absurd (cc e')
        ]

    -- The rest of a run leaves the node valid, and ends with false only if its last `sendto` failed.
    abbrev Ends : ℕ → Node → User → List Bytes → Type 0
    Ends k n u sent =
        (l : Loop User) × (b : Bool) × (spin_while_work callback accepts json n u sent
            (replicate k would_block)
          ≡ ok (l, some b))
        × Kept n l.node
        × (b ≡ false → LastRefused accepts sent l.sent)

    Ends-spin_once :
        (k : ℕ) (n : Node) (u : User) (sent : List Bytes) (l : Loop User) (r : SpinOnceResult)
        → spin_once callback accepts json n u sent would_block ≡ ok (l, r)
        → Kept n l.node
        → Continues sent l.sent
        → (goes_on r ≡ false → LastRefused accepts sent l.sent)
        → (r ≡ success → Ends k l.node l.user l.sent)
        → Ends (suc k) n u sent
    unfolding spin_while_work
    Ends-spin_once k n u sent l success e kept more cause rest =
        let (l', b, e', kept', cause') = rest refl in
        (
          l',
          b,
          rw e e',
          Kept-trans kept kept',
          λ z. LastRefused-earlier accepts sent l.sent l'.sent more (cause' z),
        )
    Ends-spin_once k n u sent l no_work e kept more cause rest = (l, true, rw e refl, kept, λ z. cc)
    Ends-spin_once k n u sent l error e kept more cause rest =
        (l, false, rw e refl, kept, λ z. cause refl)
    Ends-spin_once k n u sent l invalid e kept more cause rest =
        (l, false, rw e refl, kept, λ z. cause refl)

    -- For a valid node whose callbacks neither fault, nor make its publishers unfit for sending, nor
    -- leave more messages to send than there were, and with nothing to receive: `spin_while_work`
    -- returns after at most one call of `spin_once` more than messages wait to be sent. It leaves the
    -- node valid, and returns false only if the last `sendto` that it made, of a packet that is refused
    -- after those before it, failed.
    pub spin_while_work_ends :
        (k : ℕ) (n : Node) (u : User) (sent : List Bytes)
        → IsValid n
        → waiting n.publishers < k
        → (l : Loop User) × (b : Bool) × (spin_while_work callback accepts json n u sent
              (replicate k would_block)
            ≡ ok (l, some b))
          × Kept n l.node
          × (b ≡ false → LastRefused accepts sent l.sent)
    spin_while_work_ends zero n u sent v h = absurd (omega arith)
    spin_while_work_ends (suc k) n u sent v h =
        let (l, r, e, kept, more, cause) =
          spin_once-IsValid callback accepts behaves json n u sent would_block v tt in
        let takes : r ≡ success → waiting l.node.publishers < waiting n.publishers =
          subst
            (Ensures (λ (x : Loop User × SpinOnceResult).
              x.1 ≡ success → waiting x.0.node.publishers < waiting n.publishers))
            e (spin_once-takes n u sent) in
        Ends-spin_once k n u sent l r e kept more cause
          (λ s. spin_while_work_ends k l.node l.user l.sent kept.valid (omega (arith, takes s)))
