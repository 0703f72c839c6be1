-- ===== src/MessageQueue/Run.antt =====
-- Whole histories of a `MessageQueue` against the bounded list of its bodies.
use cpp_rt_pubsub.Prelude.{
  ℕ, zero, suc, ◌∙◌, ◌-◌, ◌≤◌, ◌<◌, ◌^◌, ◌≡◌, refl, Bool, Option, List, [], ◌∷◌, Bytes, length, All,
  Result, ok, ◌>>=◌, none,
}
use cpp_rt_pubsub.MessageQueue.{MessageQueue, make, pop, push, add_buffers}
use cpp_rt_pubsub.MessageQueue.Inv.{IsValid, make-IsValid}
use cpp_rt_pubsub.MessageQueue.Fifo.{
  spec_push, spec_pop, spec_front, contents, Holds, Holds-self, push_refines, pop_refines,
  read_front, read_front_refines,
}

-- What a client asks of the queue, and what it sees.
pub data Op : Type 0 where
  put : Bytes → Op
  drop_front peek : Op

pub data Reply : Type 0 where
  done : Bool → Reply
  seen : Option Bytes → Reply

unfoldable pub step : ℕ → MessageQueue → Op → Result (MessageQueue × Reply)
step n q (put x) = do r ← push q x none n; ok (r.0, done r.1)
step n q drop_front = ok ((pop q).0, done (pop q).1)
step n q peek = do seen_bytes ← read_front n q; ok (q, seen seen_bytes)

unfoldable pub run : ℕ → MessageQueue → List Op → Result (List Reply)
run n q [] = ok []
run n q (op ∷ ops) = do r ← step n q op; replies ← run n r.0 ops; ok (r.1 ∷ replies)

module _ (capacity body : ℕ) where
  unfoldable pub spec_step : List Bytes → Op → List Bytes × Reply
  spec_step xs (put x) = let (ys, b) = spec_push capacity body xs x in (ys, done b)
  spec_step xs drop_front = let (ys, b) = spec_pop xs in (ys, done b)
  spec_step xs peek = (xs, seen (spec_front xs))

  unfoldable pub spec_run : List Bytes → List Op → List Reply
  spec_run xs [] = []
  spec_run xs (op ∷ ops) = let (ys, r) = spec_step xs op in r ∷ spec_run ys ops

-- The data of a push are at least as long as what `push` copies.
abbrev pub Enough : ℕ → Op → Type 0
Enough body (put x) = body ≤ length x
Enough body drop_front = Unit
Enough body peek = Unit

step_refines :
    (n : ℕ) (q : MessageQueue) (op : Op)
    → IsValid q
    → n ≤ q.message_size
    → q.message_size < 2 ^ 64
    → Enough (q.message_size - n) op
    → (q' : MessageQueue) × (step n q op
        ≡ ok (q', (spec_step q.queue_capacity (q.message_size - n) (contents n q) op).1))
      × Holds n q q' (spec_step q.queue_capacity (q.message_size - n) (contents n q) op).0
unfolding step spec_step
step_refines n q (put x) v fits small enough =
    let (q', e, h) = push_refines n q x v fits small enough in (q', rw e, h)
step_refines n q drop_front v fits small enough =
    let (e, h) = pop_refines n q v in ((pop q).0, rw e, h)
step_refines n q peek v fits small enough = (q, rw (read_front_refines n q v), Holds-self n q v)

run_refines' :
    (n : ℕ) (ops : List Op) (q : MessageQueue)
    → IsValid q
    → n ≤ q.message_size
    → q.message_size < 2 ^ 64
    → All (Enough (q.message_size - n)) ops
    → run n q ops ≡ ok (spec_run q.queue_capacity (q.message_size - n) (contents n q) ops)
unfolding run spec_run
run_refines' n [] q v fits small enough = refl
run_refines' n (op ∷ ops) q v fits small enough =
    let (q', e, h) = step_refines n q op v fits small enough.0 in
    let ih =
      run_refines' n ops q' h.valid (rw h.same_size fits) (rw h.same_size small)
        (rw h.same_size enough.1) in
    rw (e, ih, h.same_size, h.same_capacity, h.holds)

add_buffers-same :
    (n : ℕ) (q : MessageQueue)
    → ((add_buffers n q).message_size ≡ q.message_size)
      × ((add_buffers n q).queue_capacity ≡ q.queue_capacity)
      × ((add_buffers n q).queue ≡ q.queue)
unfolding add_buffers
add_buffers-same zero q = (refl, refl, refl)
add_buffers-same (suc n) q = add_buffers-same n _

pub make-fields :
    (message_size queue_capacity : ℕ)
    → ((make message_size queue_capacity).message_size ≡ message_size)
      × ((make message_size queue_capacity).queue_capacity ≡ queue_capacity)
      × ((make message_size queue_capacity).queue ≡ [])
unfolding make
make-fields message_size queue_capacity = add_buffers-same queue_capacity _

-- No sequence of `push` without header data, `pop` and `get` tells a new queue from a list of at most
-- `queue_capacity` message bodies, oldest first, where every push is given enough data, the header
-- fits in the message, and the message size fits in 64 bits: no call faults, a push fails exactly at
-- the full list, and what `get` points to is the oldest body.
pub run-make :
    (message_size queue_capacity header_size : ℕ) (ops : List Op)
    → header_size ≤ message_size
    → message_size < 2 ^ 64
    → All (Enough (message_size - header_size)) ops
    → run header_size (make message_size queue_capacity) ops
      ≡ ok (spec_run queue_capacity (message_size - header_size) [] ops)
run-make message_size queue_capacity header_size ops fits small enough =
    let (es, ec, eq) = make-fields message_size queue_capacity in
    run_refines' header_size ops _ (make-IsValid message_size queue_capacity) (rw es fits)
      (rw es small) (rw es enough)
    ∙ rw (es, ec, eq)
