-- ===== src/Node/Loop/Safe.antt =====
-- `spin_once` and `spin`: what they do to a node whatever arrives.
use cpp_rt_pubsub.Prelude.{
  ℕ, ◌≡◌, refl, sym, subst, Bool, true, false, List, [], ◌∷◌, some, Bytes, length, All, Result, ok,
  err, Fault, Result-cases, Ensures, Ensures-then, Ensures-mono, ◌⊎◌, min, ℤ, Bool-cases, inl, inr,
}
use cpp_rt_pubsub.Json.{Json}
use cpp_rt_pubsub.Protocol.{blank, decode_packet_buffer}
use cpp_rt_pubsub.Publisher.{Publisher}
use cpp_rt_pubsub.Protocol.{blank}
use cpp_rt_pubsub.Node.Incoming.{
  Event, failed, would_block, received, Receiver, receive_message, process_incoming_message,
}
use cpp_rt_pubsub.Node.Incoming.Safe
use cpp_rt_pubsub.Node.State.{Node, TopicInfo, receiver, with_receiver}
use cpp_rt_pubsub.Node.Loop.{
  Loop, SpinOnceResult, result_of, is_positive, goes_on, spin, topic_turn, spin_once,
}
use cpp_rt_pubsub.Node.Loop.Kept.{InRange, IsValid, Kept, Kept-trans, Kept-refl, each-total}
use cpp_rt_pubsub.Node.Loop.Refused.{Continues, Continues-refl, LastRefused, LastRefused-earlier}
use cpp_rt_pubsub.Node.Loop.Turns.{Behaves, Inv, Refused, OfNode, topic_turn-Total}

result_of-stops :
    {User : Type 0} (l : Loop User) (b : Bool) → goes_on (result_of (l, b)) ≡ false → b ≡ false
result_of-stops l false e = refl
result_of-stops l true e = elim (Bool-cases l.work_done) [
  | inl w ↦ let e' = rw w at e in absurd (cc e')
  | inr w ↦ let e' = rw w at e in absurd (cc e')
]

module _ {User : Type 0}
    (callback : ℕ → Bytes → ℕ → User × List Publisher → Result (User × List Publisher))
    (accepts : List Bytes → Bytes → Bool) (behaves : Behaves callback) (json : Json) where
  received-Kept :
      (n : Node) (r : Receiver)
      → IsValid n
      → Safe.IsValid r
      → r.topics ≡ (receiver n).topics
      → length r.subscribers ≡ length n.subscribers
      → Kept n (with_receiver n r)
  received-Kept n r v w same len = record {
    valid = record {
      receives = record {
        headers = w.headers;
        ready = w.ready;
        room = w.room;
        known = rw same at w.known;
      };
      ready = v.ready;
      publishers = v.publishers;
      subscribers = rw len v.subscribers;
    };
    as_many_publishers = refl;
    as_many_subscribers = len;
    same_topics = refl;
    same_order = refl;
  }

  All-both :
      (n : Node) (ts : List (ℤ × TopicInfo))
      → All (λ (t : ℤ × TopicInfo). InRange (length n.publishers) t.1.publishers) ts
      → All (λ (t : ℤ × TopicInfo). InRange (length n.subscribers) t.1.subscribers) ts
      → All (OfNode n) ts
  All-both n [] p s = tt
  All-both n (t ∷ ts) p s = ((s.0, p.0), All-both n ts p.1 s.1)

  -- For a valid node (its receiver, its publishers and subscribers are ready, and its topics hold only
  -- those), callbacks that neither fault nor make its publishers unfit for sending, and whatever
  -- `recvfrom` ends with, if what was received can be decoded: `spin_once` does not fault, and returns a
  -- result; the node stays valid, with as many clients in the same topics, in the same order of
  -- priority; the calls of `sendto` only add to those before; and unless the result is success or that
  -- there was no work, this call has made one, and the last one, of a packet that is refused after those
  -- before it, failed.
  pub spin_once-IsValid :
      (n : Node) (u : User) (sent : List Bytes) (e : Event)
      → IsValid n
      → Safe.Decodes json (receiver n) e
      → (l : Loop User) × (r : SpinOnceResult) × (spin_once callback accepts json n u sent e
          ≡ ok (l, r))
        × Kept n l.node
        × Continues sent l.sent
        × (goes_on r ≡ false → LastRefused accepts sent l.sent)
  unfolding spin_once
  spin_once-IsValid n u sent e v d =
      let (n', z, arrived, w, same, len) =
        Safe.process_incoming_message-IsValid json (receiver n) e v.receives d in
      let start : Loop User = record {
        node = with_receiver n n';
        user = u;
        sent = sent;
        work_done = is_positive z;
      } in
      let (l, b, turns, (kept, more), cause) =
        each-total (Inv callback accepts behaves n sent) (OfNode n)
          (Refused callback accepts behaves n sent) (topic_turn callback accepts)
          (topic_turn-Total callback accepts behaves n sent json) n.topics_by_prio start
          (received-Kept n n' v w same len, Continues-refl sent)
          (All-both n n.topics_by_prio v.publishers v.subscribers) in
      (
        l,
        result_of (l, b),
        rw (arrived, turns) refl,
        kept,
        more,
        λ h. cause (result_of-stops l b h),
      )

  Decodes-or_err :
      (n : Node) (e : Event)
      → Safe.Decodes json (receiver n) e
        ⊎ ((f : Fault) × (process_incoming_message json (receiver n) e ≡ err f))
  unfolding process_incoming_message receive_message
  Decodes-or_err n failed = inl tt
  Decodes-or_err n would_block = inl tt
  Decodes-or_err n (received payload) =
      elim (Result-cases (
        decode_packet_buffer json (Safe.refilled json (receiver n) payload)
          (min (length payload) (length n.buffer)) (blank json))) [
            | inl (d, h) ↦ inl (d, h)
            | inr (f, h) ↦ inr (f, rw h refl)
          ]

  Returned : Node → List Bytes → Loop User × SpinOnceResult → Type 0
  Returned n sent r =
      Kept n r.0.node
      × Continues sent r.0.sent
      × (goes_on r.1 ≡ false → LastRefused accepts sent r.0.sent)

  spin_once-Returned :
      (n : Node) (u : User) (sent : List Bytes) (e : Event)
      → IsValid n
      → Ensures (Returned n sent) (spin_once callback accepts json n u sent e)
  unfolding spin_once Returned
  spin_once-Returned n u sent e v = elim (Decodes-or_err n e) [
    | inl d ↦
        let (l, r, h, kept, more, cause) = spin_once-IsValid n u sent e v d in
        subst (Ensures (Returned n sent)) (sym h) (kept, more, cause)
    | inr (f, h) ↦ rw h tt
  ]

  -- For a valid node, and callbacks that neither fault nor make its publishers unfit for sending: over any
  -- list of what `recvfrom` ends with, if `spin` does not fault (in decoding what arrives), the node
  -- stays valid, with as many clients in the same topics; and if `spin` returns, it returns false, and the
  -- last `sendto` that it made, of a packet that is refused after those before it, has failed.
  pub spin-Kept :
      (es : List Event) (n : Node) (u : User) (sent : List Bytes)
      → IsValid n
      → Ensures
          (λ r.
            Kept n r.0.node
            × ((b : Bool) → r.1 ≡ some b → (b ≡ false) × LastRefused accepts sent r.0.sent))
          (spin callback accepts json n u sent es)
  unfolding spin Returned
  spin-Kept [] n u sent v = (Kept-refl n v, λ b e. cc)
  spin-Kept (e ∷ es) n u sent v =
      Ensures-then (Returned n sent) _ (spin_once callback accepts json n u sent e) _
        (spin_once-Returned n u sent e v)
        λ r h. elim (Bool-cases (goes_on r.1)) [
          | inl on ↦ rw on (
              Ensures-mono _ _ (spin callback accepts json r.0.node r.0.user r.0.sent es)
                (λ t k. (
                  Kept-trans h.0 k.0,
                  λ b e'.
                      let (ended, last) = k.1 b e' in
                      (ended, LastRefused-earlier accepts sent r.0.sent t.0.sent h.1 last),
                ))
                (spin-Kept es r.0.node r.0.user r.0.sent h.0.valid))
          | inr off ↦ rw off (h.0, λ b e'. (cc e', h.2 off))
        ]
