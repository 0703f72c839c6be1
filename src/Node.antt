-- ===== src/Node.antt =====
-- src/node.cpp: how a node sends what its publishers have queued. A `sendto` is the bytes that it is
-- given; whether it succeeds is a function of them.
pub mod Outgoing
pub mod Requests
pub mod Incoming
pub mod State
pub mod Rpc
pub mod Registration
pub mod Loop
mod Tests
use cpp_rt_pubsub.Prelude.{
  ℕ, ◌+◌, ◌-◌, ◌%◌, ◌^◌, Bool, true, false, List, [], ◌∷◌, ◌++◌, Bytes, Result, ok, err, ◌>>=◌,
  or_fail, out_of_bounds, length, take, set, leb, ◌==◌, if◌then◌else◌,
}
use cpp_rt_pubsub.Protocol.{bp_fill_data_header, bp_header_size, bp_data_header_size}
use cpp_rt_pubsub.MessageQueue.{MessageQueue, deref}
use cpp_rt_pubsub.Publisher.{
  Publisher, packet_size, messages_queued, get_message, pop_message, write_message,
}

-- `Node::next_bp_counter`, which keeps the value that it returns.
abbrev pub next_bp_counter : ℕ → ℕ
next_bp_counter m_bp_counter = (m_bp_counter + 1) % 2 ^ 32

-- The bytes that `sendto` reads.
unfoldable pub read_range : Bytes → ℕ → Result Bytes
read_range buffer n = if leb n (length buffer) then ok (take n buffer) else err out_of_bounds

-- `Node::send_data` up to the `sendto`: the buffer with its headers filled in, and the packet.
unfoldable pub send_data : ℕ → ℕ → ℕ → Bytes → ℕ → Result (Bytes × Bytes)
send_data counter p_topic_id p_message_type_id p_buffer p_buffer_size = do
  filled ←
      bp_fill_data_header counter p_topic_id p_message_type_id
        ((p_buffer_size + 2 ^ 64 - (bp_header_size + bp_data_header_size)) % 2 ^ 64 % 2 ^ 32)
        p_buffer
  packet ← read_range filled p_buffer_size
  ok (filled, packet)

-- The counter, the publisher and the sends after a publisher's turn in `spin_once`; false is
-- `SpinOnceResult::Error`.
pub record Turn : Type 0 where
  pub counter : ℕ
  pub publisher : Publisher
  pub sent : List Bytes
  pub succeeded : Bool

module _ (accepts : Bytes → Bool) where
  -- What `spin_once` does for one publisher.
  unfoldable pub publisher_turn : ℕ → Publisher → Result Turn
  publisher_turn counter p = do
    let next = next_bp_counter counter
    let sending : Result Turn = do
      pointer ← or_fail (get_message p) out_of_bounds
      buffer ← deref p.message_queue pointer
      r ← send_data next p.topic_id p.message_type_id buffer (packet_size p)
      let p' = write_message p pointer r.0
      ok (
          if accepts r.1
          then record {
            counter = next;
            publisher = (pop_message p').0;
            sent = r.1 ∷ [];
            succeeded = true;
          }
          else record { counter = next; publisher = p'; sent = r.1 ∷ []; succeeded = false })
    if messages_queued p == 0
        then ok (record { counter = counter; publisher = p; sent = []; succeeded = true })
        else sending
