-- ===== src/MessageQueue/Inv.antt =====
-- The representation invariant of `MessageQueue`: every buffer is either free or queued.
use cpp_rt_pubsub.Prelude.{
  ℕ, zero, suc, ◌+◌, ◌<◌, ◌≡◌, refl, sym, ◌≢◌, subst, Option, none, some, List, [], ◌∷◌, ◌++◌,
  append_assoc, Bytes, arith, length, All, All-append, All-set, All-map, length-append, length-set,
  length-replicate, replicate, ok, Ensures, memcpy, length-memcpy, set, get_elem?, Ensures-bind,
  append-nil, ◌∙◌,
}
use cpp_rt_pubsub.MessageQueue.{
  MessageQueue, add_buffers, make, pop_front, pop, deref, copy_header, push_into, push, body_size,
}

abbrev pub Distinct : List ℕ → Type 0
Distinct [] = Unit
Distinct (x ∷ xs) = All (λ y. x ≢ y) xs × Distinct xs

-- Every buffer has the size of a message, and every buffer is either free or queued, once.
pub record IsValid (q : MessageQueue) : Type 0 where
  pub sized : All (λ b. length b ≡ q.message_size) q.buffers
  pub allocated : length q.buffers ≡ q.queue_capacity
  pub counted : length q.free_buffers + length q.queue ≡ q.queue_capacity
  pub in_range : All (λ p. p < q.queue_capacity) (q.free_buffers ++ q.queue)
  pub distinct : Distinct (q.free_buffers ++ q.queue)

Distinct-snoc : (xs : List ℕ) (y : ℕ) → Distinct xs → All (λ x. y ≢ x) xs → Distinct (xs ++ y ∷ [])
Distinct-snoc [] y d h = (tt, tt)
Distinct-snoc (x ∷ xs) y d h =
    (All-append (λ z. x ≢ z) xs (y ∷ []) d.0 ((λ e. h.0 (sym e)), tt), Distinct-snoc xs y d.1 h.1)

-- Taking an element out of the middle to the front.
All-middle :
    (P : ℕ → Type 0) (xs ys : List ℕ) (y : ℕ) → All P (xs ++ y ∷ ys) → All P (y ∷ (xs ++ ys))
All-middle P [] ys y h = h
All-middle P (x ∷ xs) ys y h = let r = All-middle P xs ys y h.1 in (r.0, (h.0, r.1))

Distinct-middle : (xs ys : List ℕ) (y : ℕ) → Distinct (xs ++ y ∷ ys) → Distinct (y ∷ (xs ++ ys))
Distinct-middle [] ys y d = d
Distinct-middle (x ∷ xs) ys y d =
    let fresh = All-middle (λ z. x ≢ z) xs ys y d.0 in
    let rest = Distinct-middle xs ys y d.1 in (((λ e. fresh.0 (sym e)), rest.0), (fresh.1, rest.1))

pop_front-IsValid :
    (q : MessageQueue) (bs : List ℕ) → q.queue ≡ bs → IsValid q → IsValid (pop_front q bs).0
unfolding pop_front
pop_front-IsValid q [] e v = v
pop_front-IsValid q (b ∷ rest) e v = record {
  sized = v.sized;
  allocated = v.allocated;
  counted = ground (arith, v.counted);
  in_range = All-middle (λ p. p < q.queue_capacity) q.free_buffers rest b (rw e at v.in_range);
  distinct = Distinct-middle q.free_buffers rest b (rw e at v.distinct);
}

-- `pop` keeps the invariant.
pub pop-IsValid : {q : MessageQueue} → IsValid q → IsValid (pop q).0
unfolding pop
pop-IsValid {q} v = pop_front-IsValid q q.queue refl v

pub get_elem?-All {ℓ κ} :
    {A : Type ℓ} (P : A → Type κ) (xs : List A) (i : ℕ) (x : A)
    → All P xs
    → get_elem? xs i ≡ some x
    → P x
get_elem?-All P [] i x h e = cc
get_elem?-All P (y ∷ ys) zero x h e = subst P (cc) h.0
get_elem?-All P (y ∷ ys) (suc i) x h e = get_elem?-All P ys i x h.1 e

length-deref :
    {q : MessageQueue} (p : ℕ) {b : Bytes}
    → IsValid q
    → deref q p ≡ ok b
    → length b ≡ q.message_size
unfolding deref
length-deref {q} p {b} v e =
    get_elem?-All (λ b. length b ≡ q.message_size) q.buffers p b v.sized (ground arith)

length-copy_header :
    (b : Bytes) (h : Option Bytes) (n : ℕ) {out : Bytes}
    → copy_header b h n ≡ ok out
    → length out ≡ length b
unfolding copy_header
length-copy_header b none n e = ground arith
length-copy_header b (some h) n e = length-memcpy b 0 h n e

-- The queue after a push into the buffer `b`, whose bytes are `filled` now.
abbrev pub pushed : MessageQueue → ℕ → List ℕ → Bytes → MessageQueue
pushed q b free filled = record q {
  buffers = set q.buffers b filled;
  free_buffers = free;
  queue = q.queue ++ b ∷ [];
}

pub pushed-IsValid :
    {q : MessageQueue} (b : ℕ) (free : List ℕ) (filled : Bytes)
    → IsValid q
    → q.free_buffers ≡ b ∷ free
    → length filled ≡ q.message_size
    → IsValid (pushed q b free filled)
pushed-IsValid {q} b free filled v e h =
    let range : All (λ p. p < q.queue_capacity) (b ∷ (free ++ q.queue)) = rw e at v.in_range in
    let distinct : Distinct (b ∷ (free ++ q.queue)) = rw e at v.distinct in
    record {
      sized = All-set (λ b. length b ≡ q.message_size) q.buffers b filled v.sized h;
      allocated = length-set q.buffers b filled ∙ v.allocated;
      counted = ground (arith, v.counted, length-append q.queue (b ∷ []));
      in_range =
          rw (← append_assoc) (
            All-append (λ p. p < q.queue_capacity) (free ++ q.queue) (b ∷ []) range.1
              (range.0, tt));
      distinct = rw (← append_assoc) (Distinct-snoc (free ++ q.queue) b distinct.1 distinct.0);
    }

push_into-IsValid :
    {q : MessageQueue} (bs : List ℕ) (data' : Bytes) (h : Option Bytes) (n : ℕ)
    → IsValid q
    → q.free_buffers ≡ bs
    → Ensures (λ r. IsValid r.0) (push_into q bs data' h n)
unfolding push_into
push_into-IsValid [] data' h n v e = v
push_into-IsValid {q} (b ∷ free) data' h n v e = Ensures-bind _ (deref q b) _ λ buffer e₁.
    Ensures-bind _ (copy_header buffer h n) _ λ with_header e₂.
      Ensures-bind _ (memcpy with_header n data' (body_size q n)) _ λ filled e₃.
        pushed-IsValid b free filled v e (
          omega (
            arith,
            length-deref b v e₁,
            length-copy_header buffer h n e₂,
            length-memcpy with_header n data' (body_size q n) e₃,
          ))

-- `push` keeps the invariant, whatever it is given, unless it faults.
pub push-IsValid :
    {q : MessageQueue} (p_data : Bytes) (p_header : Option Bytes) (header_size : ℕ)
    → IsValid q
    → Ensures (λ r. IsValid r.0) (push q p_data p_header header_size)
unfolding push
push-IsValid {q} p_data p_header header_size v =
    push_into-IsValid q.free_buffers p_data p_header header_size v refl

-- What the constructor's loop keeps, with `n` rounds left.
record Filling (q : MessageQueue) (n : ℕ) : Type 0 where
  sized : All (λ b. length b ≡ q.message_size) q.buffers
  rounds : length q.buffers + n ≡ q.queue_capacity
  all_free : length q.free_buffers ≡ length q.buffers
  none_queued : q.queue ≡ []
  in_range : All (λ p. p < length q.buffers) q.free_buffers
  distinct : Distinct q.free_buffers

add_buffers-IsValid : (n : ℕ) (q : MessageQueue) → Filling q n → IsValid (add_buffers n q)
unfolding add_buffers
add_buffers-IsValid zero q f = record {
  sized = f.sized;
  allocated = ground (arith, f.rounds);
  counted = ground (arith, f.rounds, f.all_free, f.none_queued);
  in_range =
      rw (f.none_queued, append-nil)
        (All-map (λ p h. omega (arith, f.rounds)) q.free_buffers f.in_range);
  distinct = rw (f.none_queued, append-nil) f.distinct;
}
add_buffers-IsValid (suc n) q f = add_buffers-IsValid n _ (record {
  sized =
      All-append (λ b. length b ≡ q.message_size) q.buffers _ f.sized
        (length-replicate q.message_size 0, tt);
  rounds = omega (arith, f.rounds, length-append q.buffers (replicate q.message_size 0 ∷ []));
  all_free = omega (
    arith,
    f.all_free,
    length-append q.buffers (replicate q.message_size 0 ∷ []),
    length-append q.free_buffers (length q.buffers ∷ []),
  );
  none_queued = f.none_queued;
  in_range = rw (length-append q.buffers (replicate q.message_size 0 ∷ [])) (
      All-append _ q.free_buffers _ (All-map (λ p h. omega arith) q.free_buffers f.in_range)
        (omega arith, tt));
  distinct =
      Distinct-snoc q.free_buffers (length q.buffers) f.distinct
        (All-map (λ p h e. omega arith) q.free_buffers f.in_range);
})

-- A new queue is valid, and all its buffers are free.
pub make-IsValid : (message_size queue_capacity : ℕ) → IsValid (make message_size queue_capacity)
unfolding make
make-IsValid message_size queue_capacity = add_buffers-IsValid queue_capacity _ (record {
  sized = tt;
  rounds = omega arith;
  all_free = refl;
  none_queued = refl;
  in_range = tt;
  distinct = tt;
})
