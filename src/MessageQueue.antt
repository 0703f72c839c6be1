-- ===== src/MessageQueue.antt =====
-- include/crps/message_queue.h, src/message_queue.cpp: a bounded queue of messages over buffers that
-- are allocated once. A pointer to a buffer is its index in `buffers`, so a write through a pointer
-- is seen through every copy of it. `std::memcpy` outside an object is the fault `out_of_bounds`.
pub mod Inv
pub mod Fifo
pub mod Run
mod Tests
use cpp_rt_pubsub.Prelude.{
  ℕ, zero, suc, ◌+◌, ◌-◌, ◌%◌, ◌^◌, Bool, true, false, List, [], ◌∷◌, ◌++◌, Option, none, some,
  Bytes, memcpy, Result, ok, ◌>>=◌, or_fail, out_of_bounds, length, get_elem?, set, replicate,
}

-- Pointers are indices into `buffers`; the head of `queue` is its front.
pub record MessageQueue : Type 0 where
  pub message_size : ℕ
  pub queue_capacity : ℕ
  pub buffers : List Bytes
  pub free_buffers : List ℕ
  pub queue : List ℕ

-- The loop of the constructor, with the rounds that are left.
unfoldable pub add_buffers : ℕ → MessageQueue → MessageQueue
add_buffers zero q = q
add_buffers (suc n) q = add_buffers n (record q {
  buffers = q.buffers ++ replicate q.message_size 0 ∷ [];
  free_buffers = q.free_buffers ++ length q.buffers ∷ [];
})

unfoldable pub make : ℕ → ℕ → MessageQueue
unfolding add_buffers
make message_size queue_capacity = add_buffers queue_capacity (record {
  message_size = message_size;
  queue_capacity = queue_capacity;
  buffers = [];
  free_buffers = [];
  queue = [];
})

abbrev pub is_nil : List ℕ → Bool
is_nil [] = true
is_nil (x ∷ xs) = false

unfoldable pub empty : MessageQueue → Bool
empty q = is_nil q.queue

unfoldable pub full : MessageQueue → Bool
full q = is_nil q.free_buffers

unfoldable pub size : MessageQueue → ℕ
size q = length q.queue

abbrev pub front : List ℕ → Option ℕ
front [] = none
front (b ∷ bs) = some b

-- `get`: the pointer to the front buffer, `none` for `nullptr`.
unfoldable pub get : MessageQueue → Option ℕ
get q = front q.queue

-- The bytes behind a pointer.
unfoldable pub deref : MessageQueue → ℕ → Result Bytes
deref q p = or_fail (get_elem? q.buffers p) out_of_bounds

pop_front : MessageQueue → List ℕ → MessageQueue × Bool
pop_front q [] = (q, false)
pop_front q (b ∷ rest) = (record q { free_buffers = b ∷ q.free_buffers; queue = rest }, true)

unfoldable pub pop : MessageQueue → MessageQueue × Bool
unfolding pop_front
pop q = pop_front q q.queue

copy_header : Bytes → Option Bytes → ℕ → Result Bytes
copy_header buffer none header_size = ok buffer
copy_header buffer (some header) header_size = memcpy buffer 0 header header_size

-- `m_message_size - p_header_size`, in `size_t`.
abbrev pub body_size : MessageQueue → ℕ → ℕ
body_size q header_size = (q.message_size + 2 ^ 64 - header_size) % 2 ^ 64

push_into : MessageQueue → List ℕ → Bytes → Option Bytes → ℕ → Result (MessageQueue × Bool)
unfolding copy_header
push_into q [] p_data p_header header_size = ok (q, false)
push_into q (b ∷ free) p_data p_header header_size = do
  buffer ← deref q b
  with_header ← copy_header buffer p_header header_size
  filled ← memcpy with_header header_size p_data (body_size q header_size)
  ok (
    record q { buffers = set q.buffers b filled; free_buffers = free; queue = q.queue ++ b ∷ [] },
    true,
  )

-- `p_header = none` is the default argument `nullptr`.
unfoldable pub push : MessageQueue → Bytes → Option Bytes → ℕ → Result (MessageQueue × Bool)
unfolding push_into
push q p_data p_header header_size = push_into q q.free_buffers p_data p_header header_size
