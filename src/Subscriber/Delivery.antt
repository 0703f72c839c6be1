-- ===== src/Subscriber/Delivery.antt =====
-- Which messages a subscriber's callback gets, over whole histories of arrivals and callbacks.
use cpp_rt_pubsub.Prelude.{
  ℕ, ◌∙◌, sym, ap, ap₂, ◌≤◌, ◌<◌, ◌^◌, ◌≡◌, refl, Bool, true, false, String, List, [], ◌∷◌, ◌++◌,
  some, Bytes, arith, length, All, All-append_right, get_elem?-eq-get_or, get_or, Result, ok, ◌>>=◌,
  ℤ,
}
use cpp_rt_pubsub.MessageQueue.{MessageQueue, empty, get, pop, deref}
use cpp_rt_pubsub.MessageQueue.Inv.{IsValid, make-IsValid}
use cpp_rt_pubsub.MessageQueue.Fifo.{
  spec_push, spec_pop, bodies, contents, push_refines, pop_refines,
}
use cpp_rt_pubsub.MessageQueue.Run.{make-fields}
use cpp_rt_pubsub.Subscriber.{
  Subscriber, new_subscriber, queue_message, run_callback, message_queue_capacity,
}

-- A message arrives, or the node runs the callback.
pub data Event : Type 0 where
  arrive : Bytes → Event
  dispatch : Event

-- An arriving message has at least the bytes that `queue_message` copies.
abbrev pub Whole : ℕ → Event → Type 0
Whole size (arrive x) = size ≤ length x
Whole size dispatch = Unit

-- The subscriber's queue is made for its messages.
pub record Ready (s : Subscriber) : Type 0 where
  pub valid : IsValid s.message_queue
  pub sized : s.message_queue.message_size ≡ s.message_size
  pub small : s.message_size < 2 ^ 32
  pub capacity : s.message_queue.queue_capacity ≡ message_queue_capacity

pub new_subscriber-Ready :
    (topic type : String) (size : ℕ) (priority : ℤ)
    → size < 2 ^ 32
    → Ready (new_subscriber topic type size priority)
new_subscriber-Ready topic type size priority small =
    let (sized, capacity, none_left) = make-fields size message_queue_capacity in
    record {
      valid = make-IsValid size message_queue_capacity;
      sized = sized;
      small = small;
      capacity = capacity;
    }

module _ {St : Type 0} (callback : Bytes → ℕ → St → St) where
  unfoldable pub step : Subscriber → St → Event → Result (Subscriber × St × Bool)
  step s st (arrive x) = do r ← queue_message s x; ok (r.0, st, r.1)
  step s st dispatch = run_callback callback s st

  -- The callback's state after the events, and what each call returned.
  unfoldable pub run : Subscriber → St → List Event → Result (St × List Bool)
  run s st [] = ok (st, [])
  run s st (e ∷ es) = do r ← step s st e; rest ← run r.0 r.1 es; ok (rest.0, r.2 ∷ rest.1)

  -- The specification: the waiting messages are a list of at most `capacity`, oldest first.
  module _ (capacity size : ℕ) where
    unfoldable pub spec_step : List Bytes → St → Event → List Bytes × St × Bool
    spec_step xs st (arrive x) = let (ys, b) = spec_push capacity size xs x in (ys, st, b)
    spec_step [] st dispatch = ([], st, false)
    spec_step (x ∷ xs) st dispatch = (xs, callback x size st, true)

    unfoldable pub spec_run : List Bytes → St → List Event → St × List Bool
    spec_run xs st [] = (st, [])
    spec_run xs st (e ∷ es) =
        let (ys, st', b) = spec_step xs st e in
        let (last, bs) = spec_run ys st' es in (last, b ∷ bs)

  abbrev Steps : Subscriber → St → Event → Type 0
  Steps s st e =
      let (xs, st', b) =
        spec_step message_queue_capacity s.message_size (contents 0 s.message_queue) st e in
      (s' : Subscriber) × (step s st e ≡ ok (s', st', b))
      × Ready s'
      × (s'.message_size ≡ s.message_size)
      × (contents 0 s'.message_queue ≡ xs)

  step-arrive :
      (s : Subscriber) (st : St) (x : Bytes)
      → Ready s
      → s.message_size ≤ length x
      → Steps s st (arrive x)
  unfolding step spec_step queue_message
  step-arrive s st x r enough =
      let (q', e, h) =
        push_refines 0 s.message_queue x r.valid (omega arith) (omega (arith, r.sized, r.small))
          (omega (arith, r.sized)) in
      let same =
        ap₂ (λ c n. spec_push c n (contents 0 s.message_queue) x) r.capacity
          (omega (arith, r.sized)) in
      (
        record s { message_queue = q' },
        rw e (ap (λ p. ok (record s { message_queue = q' }, st, p.1)) same),
        record {
          valid = h.valid;
          sized = h.same_size ∙ r.sized;
          small = r.small;
          capacity = h.same_capacity ∙ r.capacity;
        },
        refl,
        h.holds ∙ ap (λ p. p.0) same,
      )

  run_callback-queued :
      (s : Subscriber) (st : St) {pointer : ℕ} {message : Bytes}
      → empty s.message_queue ≡ false
      → get s.message_queue ≡ some pointer
      → deref s.message_queue pointer ≡ ok message
      → run_callback callback s st
        ≡ ok (
          record s { message_queue = (pop s.message_queue).0 },
          callback message s.message_size st,
          (pop s.message_queue).1,
        )
  unfolding run_callback
  run_callback-queued s st some_left here there = rw (some_left, here, there)

  queued_message :
      (q : MessageQueue) {b : ℕ} {bs : List ℕ}
      → IsValid q
      → q.queue ≡ b ∷ bs
      → (empty q ≡ false) × (get q ≡ some b) × (deref q b ≡ ok (get_or q.buffers b []))
  unfolding empty get deref
  queued_message q {b} {bs} v e =
      let range : All (λ p. p < q.queue_capacity) (q.free_buffers ++ b ∷ bs) = rw e at v.in_range in
      let lt = (All-append_right (λ p. p < q.queue_capacity) q.free_buffers (b ∷ bs) range).0 in
      (rw e, rw e, rw (get_elem?-eq-get_or q.buffers b [] (omega (arith, lt, v.allocated))))

  empty-nil : (q : MessageQueue) → q.queue ≡ [] → empty q ≡ true
  unfolding empty
  empty-nil q e = rw e

  run_callback-empty :
      (s : Subscriber) (st : St)
      → empty s.message_queue ≡ true
      → run_callback callback s st ≡ ok (s, st, false)
  unfolding run_callback
  run_callback-empty s st none_left = rw none_left

  step-dispatch :
      (s : Subscriber) (st : St)
      → Ready s
      → (bs : List ℕ) → s.message_queue.queue ≡ bs
      → Steps s st dispatch
  unfolding step spec_step spec_pop
  step-dispatch s st r [] e =
      let none_left : contents 0 s.message_queue ≡ [] = rw e in
      let spec : List Bytes → List Bytes × St × Bool =
        λ xs. spec_step message_queue_capacity s.message_size xs st dispatch in
      (
        s,
        run_callback-empty s st (empty-nil s.message_queue e)
            ∙ ap (λ xs. ok (s, (spec xs).1, (spec xs).2)) (sym none_left),
        r,
        refl,
        none_left ∙ ap (λ xs. (spec xs).0) (sym none_left),
      )
  step-dispatch s st r (b ∷ bs) e =
      let q = s.message_queue in
      let (returned, h) = pop_refines 0 q r.valid in
      let (some_left, here, there) = queued_message q r.valid e in
      let queued : contents 0 q ≡ get_or q.buffers b [] ∷ bodies 0 q.buffers bs = rw e in
      let spec : List Bytes → List Bytes × St × Bool =
        λ xs. spec_step message_queue_capacity s.message_size xs st dispatch in
      let s' : Subscriber = record s { message_queue = (pop q).0 } in
      (
        s',
        run_callback-queued s st some_left here there
            ∙ ap (λ o. ok (s', callback (get_or q.buffers b []) s.message_size st, o))
                (returned ∙ ap (λ xs. (spec_pop xs).1) queued)
            ∙ ap (λ xs. ok (s', (spec xs).1, (spec xs).2)) (sym queued),
        record {
          valid = h.valid;
          sized = h.same_size ∙ r.sized;
          small = r.small;
          capacity = h.same_capacity ∙ r.capacity;
        },
        refl,
        h.holds ∙ ap (λ xs. (spec_pop xs).0) queued ∙ ap (λ xs. (spec xs).0) (sym queued),
      )

  step_refines :
      (s : Subscriber) (st : St) (e : Event) → Ready s → Whole s.message_size e → Steps s st e
  step_refines s st (arrive x) r enough = step-arrive s st x r enough
  step_refines s st dispatch r enough = step-dispatch s st r s.message_queue.queue refl

  run_refines :
      (es : List Event) (s : Subscriber) (st : St)
      → Ready s
      → All (Whole s.message_size) es
      → run s st es
        ≡ ok (spec_run message_queue_capacity s.message_size (contents 0 s.message_queue) st es)
  unfolding run spec_run
  run_refines [] s st r enough = refl
  run_refines (e ∷ es) s st r enough =
      let (s', eq, r', same_size, holds) = step_refines s st e r enough.0 in
      let ih =
        run_refines es s'
          (spec_step message_queue_capacity s.message_size (contents 0 s.message_queue) st e).1 r'
          (rw same_size enough.1) in
      rw (eq, ih, same_size, holds)

  -- From a new subscriber of messages below 4 GiB, for every sequence of arrivals of whole messages and
  -- calls of `run_callback`: no call faults, and the callback gets exactly the messages, in the order
  -- of their arrival, that a list of at most 10 waiting messages would give it.
  pub run-new_subscriber :
      (topic type : String) (size : ℕ) (priority : ℤ) (st : St) (es : List Event)
      → size < 2 ^ 32
      → All (Whole size) es
      → run (new_subscriber topic type size priority) st es
        ≡ ok (spec_run message_queue_capacity size [] st es)
  run-new_subscriber topic type size priority st es small enough =
      let (sized, capacity, none_left) = make-fields size message_queue_capacity in
      run_refines es (new_subscriber topic type size priority) st
        (new_subscriber-Ready topic type size priority small) enough
      ∙ rw none_left
