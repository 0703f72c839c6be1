-- ===== src/Publisher.antt =====
-- include/crps/publisher.h, src/publisher.cpp: a publisher with its queue of outgoing packets. Each has
-- room for the headers in front of the message.
pub mod Queued
mod Tests
use cpp_rt_pubsub.Prelude.{
  ℕ, ◌+◌, ◌%◌, ◌^◌, Bool, String, none, Option, Bytes, set, Result, ok, ◌>>=◌, ℤ,
}
use cpp_rt_pubsub.MessageQueue.{MessageQueue, make, size, get, pop, push}
use cpp_rt_pubsub.Subscriber.{message_queue_capacity}

pub record Publisher : Type 0 where
  pub topic_name : String
  pub message_type_name : String
  pub message_size : ℕ
  pub topic_priority : ℤ
  pub packet_header_size : ℕ
  pub topic_id : ℕ
  pub message_type_id : ℕ
  pub message_queue : MessageQueue

-- The constructor. The queue takes its message size as a `uint32_t`.
abbrev pub new_publisher : String → String → ℕ → ℤ → ℕ → Publisher
new_publisher p_topic_name p_message_type_name p_message_size p_topic_priority
      p_packet_header_size =
    record {
      topic_name = p_topic_name;
      message_type_name = p_message_type_name;
      message_size = p_message_size;
      topic_priority = p_topic_priority;
      packet_header_size = p_packet_header_size;
      topic_id = 0;
      message_type_id = 0;
      message_queue =
          make ((p_packet_header_size + p_message_size) % 2 ^ 32) message_queue_capacity;
    }

abbrev pub set_message_type_id : Publisher → ℕ → Publisher
set_message_type_id p p_message_type_id = record p { message_type_id = p_message_type_id }

abbrev pub set_topic_id : Publisher → ℕ → Publisher
set_topic_id p p_topic_id = record p { topic_id = p_topic_id }

unfoldable pub publish : Publisher → Bytes → Result (Publisher × Bool)
publish p p_data = do
  r ← push p.message_queue p_data none p.packet_header_size
  ok (record p { message_queue = r.0 }, r.1)

-- In `size_t`.
abbrev pub packet_size : Publisher → ℕ
packet_size p = (p.packet_header_size + p.message_size) % 2 ^ 64

abbrev pub messages_queued : Publisher → ℕ
messages_queued p = size p.message_queue

abbrev pub get_message : Publisher → Option ℕ
get_message p = get p.message_queue

abbrev pub pop_message : Publisher → Publisher × Bool
pop_message p = (record p { message_queue = (pop p.message_queue).0 }, (pop p.message_queue).1)

-- A write through a pointer into the publisher's queue.
abbrev pub write_message : Publisher → ℕ → Bytes → Publisher
write_message p pointer bytes = record p {
  message_queue = record p.message_queue { buffers = set p.message_queue.buffers pointer bytes };
}
