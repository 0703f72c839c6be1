-- ===== src/Publisher/Queued.antt =====
-- A publisher's queue of packets: the messages that wait in it, and the operations on them.
use cpp_rt_pubsub.Prelude.{
  ℕ, ℤ, String, ◌+◌, ◌-◌, ◌%◌, ◌^◌, ◌≤◌, ◌<◌, ◌≡◌, refl, sym, ◌∙◌, ap, ap₂, subst, Bool, false,
  List, [], ◌∷◌, ◌++◌, none, some, Bytes, arith, length, length-set, All, All-set, All-append_right,
  All-get_or, get_or, get_or-set_self, get_or-set_ne, get_elem?-eq-get_or, set, drop, ok,
  ℕ_discrete,
}
use cpp_rt_pubsub.MessageQueue.{MessageQueue, deref, get, push}
use cpp_rt_pubsub.MessageQueue.Inv.{IsValid, make-IsValid}
use cpp_rt_pubsub.MessageQueue.Fifo.{
  bodies, contents, push_refines, push-refused, pop_refines, spec_push, spec_pop,
}
use cpp_rt_pubsub.MessageQueue.Run.{make-fields}
use cpp_rt_pubsub.Subscriber.{message_queue_capacity}
use cpp_rt_pubsub.Publisher.{Publisher, new_publisher, publish, pop_message, write_message}

-- Every packet in the publisher's queue has room for the headers and a message.
pub record Ready (p : Publisher) : Type 0 where
  pub valid : IsValid p.message_queue
  pub headers : p.packet_header_size ≡ 17
  pub sized : p.message_queue.message_size ≡ 17 + p.message_size
  pub small : 17 + p.message_size < 2 ^ 32
  pub topic : p.topic_id < 2 ^ 32
  pub type : p.message_type_id < 2 ^ 32

-- A write that changes no more than the header keeps all bodies.
bodies-rewritten :
    (n : ℕ) (bs : List Bytes) (b : ℕ) (w : Bytes) (ps : List ℕ)
    → b < length bs
    → drop n w ≡ drop n (get_or bs b [])
    → bodies n (set bs b w) ps ≡ bodies n bs ps
bodies-rewritten n bs b w [] lt same = refl
bodies-rewritten n bs b w (p ∷ ps) lt same = ap₂ ◌∷◌ one (bodies-rewritten n bs b w ps lt same)
  where
    one : drop n (get_or (set bs b w) p []) ≡ drop n (get_or bs p [])
    one = elim (ℕ_discrete b p) [
      | yes e ↦
          subst (λ k. drop n (get_or (set bs b w) k []) ≡ drop n (get_or bs k [])) e
            (ap (drop n) (get_or-set_self bs b w [] lt) ∙ same)
      | no ne ↦ ap (drop n) (get_or-set_ne bs b p w [] ne)
    ]

module _ (q : MessageQueue) (b : ℕ) (w : Bytes) (v : IsValid q) (lt : b < length q.buffers)
    (sized : length w ≡ q.message_size) where
  rewritten : MessageQueue
  rewritten = record q { buffers = set q.buffers b w }

  rewritten-IsValid : IsValid rewritten
  unfolding rewritten
  rewritten-IsValid = record {
    sized = All-set (λ x. length x ≡ q.message_size) q.buffers b w v.sized sized;
    allocated = length-set q.buffers b w ∙ v.allocated;
    counted = v.counted;
    in_range = v.in_range;
    distinct = v.distinct;
  }

-- The buffer at the front of a queue.
pub queued_buffer :
    (q : MessageQueue) {b : ℕ} {bs : List ℕ}
    → IsValid q
    → q.queue ≡ b ∷ bs
    → (get q ≡ some b)
      × (b < length q.buffers)
      × (deref q b ≡ ok (get_or q.buffers b []))
      × (length (get_or q.buffers b []) ≡ q.message_size)
      × (contents 17 q ≡ drop 17 (get_or q.buffers b []) ∷ bodies 17 q.buffers bs)
unfolding get deref
queued_buffer q {b} {bs} v e =
    let range : All (λ p. p < q.queue_capacity) (q.free_buffers ++ b ∷ bs) = rw e at v.in_range in
    let below = (All-append_right (λ p. p < q.queue_capacity) q.free_buffers (b ∷ bs) range).0 in
    let lt : b < length q.buffers = omega (arith, below, v.allocated) in
    (
      rw e,
      lt,
      rw (get_elem?-eq-get_or q.buffers b [] lt),
      All-get_or (λ x. length x ≡ q.message_size) q.buffers b [] v.sized lt,
      rw e,
    )

-- The publisher once the front buffer is overwritten with a packet of the same message.
module _ (p : Publisher) (r : Ready p) (b : ℕ) (packet : Bytes)
    (lt : b < length p.message_queue.buffers) (whole : length packet ≡ 17 + p.message_size)
    (same : drop 17 packet ≡ drop 17 (get_or p.message_queue.buffers b [])) where
  pub Ready-write_message : Ready (write_message p b packet)
  unfolding rewritten
  Ready-write_message = record {
    valid = rewritten-IsValid p.message_queue b packet r.valid lt (whole ∙ sym r.sized);
    headers = r.headers;
    sized = r.sized;
    small = r.small;
    topic = r.topic;
    type = r.type;
  }

  pub contents-write_message :
      contents 17 (write_message p b packet).message_queue ≡ contents 17 p.message_queue
  contents-write_message =
      bodies-rewritten 17 p.message_queue.buffers b packet p.message_queue.queue lt same

pub Ready-pop_message : (p : Publisher) → Ready p → Ready (pop_message p).0
Ready-pop_message p r =
    let (returned, h) = pop_refines 17 p.message_queue r.valid in
    record {
      valid = h.valid;
      headers = r.headers;
      sized = h.same_size ∙ r.sized;
      small = r.small;
      topic = r.topic;
      type = r.type;
    }

pub contents-pop_message :
    (p : Publisher) (x : Bytes) (xs : List Bytes)
    → Ready p
    → contents 17 p.message_queue ≡ x ∷ xs
    → contents 17 (pop_message p).0.message_queue ≡ xs
unfolding spec_pop
contents-pop_message p x xs r e =
    (pop_refines 17 p.message_queue r.valid).1.holds ∙ ap (λ c. (spec_pop c).0) e

-- A new publisher with room for the headers is ready, with nothing queued.
pub new_publisher-Ready :
    (topic type : String) (size : ℕ) (priority : ℤ)
    → 17 + size < 2 ^ 32
    → Ready (new_publisher topic type size priority 17)
      × (contents 17 (new_publisher topic type size priority 17).message_queue ≡ [])
new_publisher-Ready topic type size priority small =
    let (sized, capacity, none_left) = make-fields ((17 + size) % 2 ^ 32) message_queue_capacity in
    (
      record {
        valid = make-IsValid ((17 + size) % 2 ^ 32) message_queue_capacity;
        headers = refl;
        sized = sized ∙ omega arith;
        small = small;
        topic = omega arith;
        type = omega arith;
      },
      rw none_left,
    )

publish-pushed :
    (p : Publisher) (message : Bytes) {q' : MessageQueue} {b : Bool}
    → push p.message_queue message none p.packet_header_size ≡ ok (q', b)
    → publish p message ≡ ok (record p { message_queue = q' }, b)
unfolding publish
publish-pushed p message e = rw e

-- `publish` of at least a whole message, on a ready publisher, does not fault: it queues the message
-- behind those that wait, and returns true, if fewer of them wait than the queue has buffers; it
-- returns false otherwise. Nothing but the queue is changed, and nothing at all if it returns false.
pub publish_lem :
    (p : Publisher) (message : Bytes)
    → Ready p
    → p.message_size ≤ length message
    → (p' : Publisher) × (publish p message
        ≡ ok (
          p',
          (spec_push p.message_queue.queue_capacity p.message_size
              (contents 17 p.message_queue)
              message).1,
        ))
      × Ready p'
      × (contents 17 p'.message_queue
          ≡ (spec_push p.message_queue.queue_capacity p.message_size
              (contents 17 p.message_queue)
              message).0)
      × (p' ≡ record p { message_queue = p'.message_queue })
      × ((spec_push p.message_queue.queue_capacity p.message_size
              (contents 17 p.message_queue)
              message).1
            ≡ false
          → p' ≡ p)
publish_lem p message r enough =
    let q = p.message_queue in
    let (q', e, h) =
      push_refines 17 q message r.valid (omega (arith, r.sized)) (omega (arith, r.sized, r.small))
        (omega (arith, r.sized)) in
    let body : q.message_size - 17 ≡ p.message_size = omega (arith, r.sized) in
    let same = ap (λ n. spec_push q.queue_capacity n (contents 17 q) message) body in
    (
      record p { message_queue = q' },
      publish-pushed p message (ap (push q message none) r.headers ∙ e)
          ∙ ap (λ s. ok (record p { message_queue = q' }, s.1)) same,
      record {
        valid = h.valid;
        headers = r.headers;
        sized = h.same_size ∙ r.sized;
        small = r.small;
        topic = r.topic;
        type = r.type;
      },
      h.holds ∙ ap (λ s. s.0) same,
      refl,
      λ refused.
          ap (λ q. record p { message_queue = q })
            (push-refused q q' message 17
              (e ∙ ap (λ b. ok (q', b)) (ap (λ s. s.1) same ∙ refused))),
    )
