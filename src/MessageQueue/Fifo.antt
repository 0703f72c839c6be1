-- ===== src/MessageQueue/Fifo.antt =====
-- A `MessageQueue` against a bounded first-in first-out list of message bodies: the bytes of each
-- message behind a header of `header_size` bytes, which `push` leaves for its caller to fill.
use cpp_rt_pubsub.Prelude.{
  ℕ, suc, ◌-◌, ◌≤◌, ◌<◌, ◌^◌, ◌≡◌, refl, ap, ap₂, ◌∙◌, sym, ◌≢◌, Bool, true, false, Option, none,
  some, List, [], ◌∷◌, ◌++◌, map, map-append, Bytes, arith, length, All, All-append_right, Result,
  ok, ◌>>=◌, set, get_or, take, drop, ltb, if◌then◌else◌, get_elem?-eq-get_or, get_or-set_self,
  get_or-set_ne, memcpy-ok, overwrite, drop-overwrite, length-overwrite, All-get_or,
}
use cpp_rt_pubsub.MessageQueue.{
  MessageQueue, pop_front, pop, deref, copy_header, push_into, push, body_size, get, front,
}
use cpp_rt_pubsub.MessageQueue.Inv.{IsValid, pushed, pushed-IsValid, pop-IsValid}

-- The specification: a list of at most `capacity` bodies, oldest first.
module _ (capacity body : ℕ) where
  unfoldable pub spec_push : List Bytes → Bytes → List Bytes × Bool
  spec_push xs x = if ltb (length xs) capacity then (xs ++ take body x ∷ [], true) else (xs, false)

  spec_push-room :
      (xs : List Bytes) (x : Bytes)
      → length xs < capacity
      → spec_push xs x ≡ (xs ++ take body x ∷ [], true)
  unfolding spec_push
  spec_push-room xs x h = ground arith

  spec_push-full :
      (xs : List Bytes) (x : Bytes) → capacity ≤ length xs → spec_push xs x ≡ (xs, false)
  unfolding spec_push
  spec_push-full xs x h = ground arith

unfoldable pub spec_pop : List Bytes → List Bytes × Bool
spec_pop [] = ([], false)
spec_pop (x ∷ xs) = (xs, true)

abbrev pub spec_front : List Bytes → Option Bytes
spec_front [] = none
spec_front (x ∷ xs) = some x

abbrev pub bodies : ℕ → List Bytes → List ℕ → List Bytes
bodies header_size buffers ps = map (λ p. drop header_size (get_or buffers p [])) ps

-- The bodies in the queue, oldest first.
abbrev pub contents : ℕ → MessageQueue → List Bytes
contents header_size q = bodies header_size q.buffers q.queue

length-bodies : (n : ℕ) (bs : List Bytes) (ps : List ℕ) → length (bodies n bs ps) ≡ length ps
length-bodies n bs [] = refl
length-bodies n bs (p ∷ ps) = ap suc (length-bodies n bs ps)

-- A write through a pointer that is not queued changes no queued body.
bodies-set :
    (n : ℕ) (bs : List Bytes) (b : ℕ) (v : Bytes) (ps : List ℕ)
    → All (λ p. b ≢ p) ps
    → bodies n (set bs b v) ps ≡ bodies n bs ps
bodies-set n bs b v [] h = refl
bodies-set n bs b v (p ∷ ps) h =
    ap₂ ◌∷◌ (ap (drop n) (get_or-set_ne bs b p v [] h.0)) (bodies-set n bs b v ps h.1)

contents-pushed :
    (q : MessageQueue) (n b : ℕ) (free : List ℕ) (v : Bytes)
    → b < length q.buffers
    → All (λ p. b ≢ p) q.queue
    → contents n (pushed q b free v) ≡ contents n q ++ drop n v ∷ []
contents-pushed q n b free v lt fresh =
    map-append _ q.queue (b ∷ [])
    ∙ ap₂ ◌++◌ (bodies-set n q.buffers b v q.queue fresh)
        (ap (λ w. drop n w ∷ []) (get_or-set_self q.buffers b v [] lt))

-- The queue after an operation: valid, of the same dimensions, with the given contents.
pub record Holds (header_size : ℕ) (q q' : MessageQueue) (xs : List Bytes) : Type 0 where
  pub valid : IsValid q'
  pub same_capacity : q'.queue_capacity ≡ q.queue_capacity
  pub same_size : q'.message_size ≡ q.message_size
  pub holds : contents header_size q' ≡ xs

pub Holds-self : (n : ℕ) (q : MessageQueue) → IsValid q → Holds n q q (contents n q)
Holds-self n q v = record { valid = v; same_capacity = refl; same_size = refl; holds = refl }

-- What `push` with no header does, by the specification.
abbrev pub Pushes : ℕ → MessageQueue → Bytes → Result (MessageQueue × Bool) → Type 0
Pushes n q x r =
    let (xs, b) = spec_push q.queue_capacity (q.message_size - n) (contents n q) x in
    (q' : MessageQueue) × (r ≡ ok (q', b)) × Holds n q q' xs

module _ (n : ℕ) (q : MessageQueue) (x : Bytes) (v : IsValid q) (fits : n ≤ q.message_size)
    (small : q.message_size < 2 ^ 64) (enough : q.message_size - n ≤ length x) where
  body_size_lem : body_size q n ≡ q.message_size - n
  body_size_lem = omega arith

  module _ (b : ℕ) (free : List ℕ) (e : q.free_buffers ≡ b ∷ free) where
    in_range : b < length q.buffers
    in_range = omega (arith, v.allocated, (rw e at v.in_range).0)

    buffer : Bytes
    buffer = get_or q.buffers b []

    length-buffer : length buffer ≡ q.message_size
    unfolding buffer
    length-buffer = All-get_or (λ b. length b ≡ q.message_size) q.buffers b [] v.sized in_range

    filled : Bytes
    filled = overwrite buffer n x (body_size q n)

    push_into-filled : push_into q (b ∷ free) x none n ≡ ok (pushed q b free filled, true)
    unfolding push_into copy_header deref filled buffer
    push_into-filled = rw (
      get_elem?-eq-get_or q.buffers b [] in_range,
      memcpy-ok (get_or q.buffers b []) n x (body_size q n) (omega (arith, length-buffer))
          (omega arith),
    )

    drop-filled : drop n filled ≡ take (q.message_size - n) x
    unfolding filled
    drop-filled =
        drop-overwrite buffer n x (body_size q n) (omega (arith, length-buffer))
        ∙ ap (λ k. take k x) body_size_lem

    length-filled : length filled ≡ q.message_size
    unfolding filled
    length-filled =
        length-overwrite buffer n x (body_size q n) (omega (arith, length-buffer)) (omega arith)
        ∙ length-buffer

    contents-filled :
        contents n (pushed q b free filled) ≡ contents n q ++ take (q.message_size - n) x ∷ []
    contents-filled =
        contents-pushed q n b free filled in_range
          (All-append_right (λ p. b ≢ p) free q.queue (rw e at v.distinct).0)
        ∙ ap (λ w. contents n q ++ w ∷ []) drop-filled

    has_room :
        spec_push q.queue_capacity (q.message_size - n) (contents n q) x
        ≡ (contents n q ++ take (q.message_size - n) x ∷ [], true)
    has_room =
        spec_push-room q.queue_capacity (q.message_size - n) (contents n q) x
          (omega (arith, v.counted, ap length e, length-bodies n q.buffers q.queue))

    push-room : Pushes n q x (push_into q (b ∷ free) x none n)
    push-room = (
      pushed q b free filled,
      push_into-filled ∙ ap (λ s. ok (pushed q b free filled, s.1)) (sym has_room),
      record {
        valid = pushed-IsValid b free filled v e length-filled;
        same_capacity = refl;
        same_size = refl;
        holds = contents-filled ∙ ap (λ s. s.0) (sym has_room);
      },
    )

  push_into_refines : (bs : List ℕ) → q.free_buffers ≡ bs → Pushes n q x (push_into q bs x none n)
  unfolding push_into
  push_into_refines [] e =
      let is_full =
        spec_push-full q.queue_capacity (q.message_size - n) (contents n q) x
          (omega (arith, v.counted, ap length e, length-bodies n q.buffers q.queue)) in
      rw is_full (q, refl, Holds-self n q v)
  push_into_refines (b ∷ free) e = push-room b free e

  -- `push` answers as the specification does, and leaves the queue with its contents.
  pub push_refines : Pushes n q x (push q x none n)
  unfolding push
  push_refines = push_into_refines q.free_buffers refl

-- A full queue is returned as it was.
pub push-refused :
    (q q' : MessageQueue) (x : Bytes) (n : ℕ) → push q x none n ≡ ok (q', false) → q' ≡ q
unfolding push push_into copy_header
push-refused q q' x n h = by_free q.free_buffers h
  where
    by_free : (bs : List ℕ) → push_into q bs x none n ≡ ok (q', false) → q' ≡ q
    by_free [] e = cc
    by_free (b ∷ bs) e = ground arith

pop_front_refines :
    (n : ℕ) (q : MessageQueue) (bs : List ℕ)
    → IsValid q
    → q.queue ≡ bs
    → (contents n (pop_front q bs).0, (pop_front q bs).1) ≡ spec_pop (contents n q)
unfolding pop_front spec_pop
pop_front_refines n q [] v e = rw e
pop_front_refines n q (b ∷ rest) v e = rw e

pop_front-same :
    (q : MessageQueue) (bs : List ℕ)
    → ((pop_front q bs).0.queue_capacity ≡ q.queue_capacity)
      × ((pop_front q bs).0.message_size ≡ q.message_size)
unfolding pop_front
pop_front-same q [] = (refl, refl)
pop_front-same q (b ∷ rest) = (refl, refl)

-- `pop` answers as the specification does, and leaves the queue with its contents.
pub pop_refines :
    (n : ℕ) (q : MessageQueue)
    → IsValid q
    → ((pop q).1 ≡ (spec_pop (contents n q)).1) × Holds n q (pop q).0 (spec_pop (contents n q)).0
unfolding pop
pop_refines n q v =
    let e = pop_front_refines n q q.queue v refl in
    (
      ap (λ s. s.1) e,
      record {
        valid = pop-IsValid v;
        same_capacity = (pop_front-same q q.queue).0;
        same_size = (pop_front-same q q.queue).1;
        holds = ap (λ s. s.0) e;
      },
    )

-- The bytes behind the pointer that `get` returns, past the header; `none` for `nullptr`.
read_at : ℕ → MessageQueue → Option ℕ → Result (Option Bytes)
read_at n q none = ok none
read_at n q (some p) = deref q p >>= λ b. ok (some (drop n b))

unfoldable pub read_front : ℕ → MessageQueue → Result (Option Bytes)
unfolding get read_at
read_front n q = read_at n q (get q)

read_at-front :
    (n : ℕ) (q : MessageQueue) (bs : List ℕ)
    → IsValid q
    → q.queue ≡ bs
    → read_at n q (front bs) ≡ ok (spec_front (bodies n q.buffers bs))
unfolding read_at deref
read_at-front n q [] v e = refl
read_at-front n q (b ∷ rest) v e =
    let range : All (λ p. p < q.queue_capacity) (q.free_buffers ++ b ∷ rest) = rw e at v.in_range in
    let lt = (All-append_right (λ p. p < q.queue_capacity) q.free_buffers (b ∷ rest) range).0 in
    rw (get_elem?-eq-get_or q.buffers b [] (omega (arith, lt, v.allocated)))

-- `get` points to the oldest message, and is `nullptr` exactly at the empty queue.
pub read_front_refines :
    (n : ℕ) (q : MessageQueue) → IsValid q → read_front n q ≡ ok (spec_front (contents n q))
unfolding read_front
read_front_refines n q v = read_at-front n q q.queue v refl
