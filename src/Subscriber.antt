-- ===== src/Subscriber.antt =====
-- include/crps/subscriber.h, src/subscriber.cpp: a subscriber with its queue of incoming messages.
-- The callback is a function of the message, its size and a state that stands for what it changes
-- through its user data; it does not write to the message.
pub mod Delivery
mod Tests
use cpp_rt_pubsub.Prelude.{
  ℕ, Bool, true, false, String, none, Bytes, Result, ok, ◌>>=◌, or_fail, out_of_bounds, ℤ,
  if◌then◌else◌,
}
use cpp_rt_pubsub.MessageQueue.{MessageQueue, make, empty, size, get, deref, pop, push}

-- include/crps/defaults.h
abbrev pub message_queue_capacity : ℕ
message_queue_capacity = 10

pub record Subscriber : Type 0 where
  pub topic_name : String
  pub message_type_name : String
  pub message_size : ℕ
  pub topic_priority : ℤ
  pub topic_id : ℕ
  pub message_type_id : ℕ
  pub message_queue : MessageQueue

-- The constructor.
abbrev pub new_subscriber : String → String → ℕ → ℤ → Subscriber
new_subscriber p_topic_name p_message_type_name p_message_size p_topic_priority = record {
  topic_name = p_topic_name;
  message_type_name = p_message_type_name;
  message_size = p_message_size;
  topic_priority = p_topic_priority;
  topic_id = 0;
  message_type_id = 0;
  message_queue = make p_message_size message_queue_capacity;
}

abbrev pub set_message_type_id : Subscriber → ℕ → Subscriber
set_message_type_id s p_message_type_id = record s { message_type_id = p_message_type_id }

abbrev pub set_topic_id : Subscriber → ℕ → Subscriber
set_topic_id s p_topic_id = record s { topic_id = p_topic_id }

abbrev pub set_topic_priority : Subscriber → ℤ → Subscriber
set_topic_priority s p_topic_priority = record s { topic_priority = p_topic_priority }

unfoldable pub queue_message : Subscriber → Bytes → Result (Subscriber × Bool)
queue_message s p_data = do
  r ← push s.message_queue p_data none 0
  ok (record s { message_queue = r.0 }, r.1)

abbrev pub messages_queued : Subscriber → ℕ
messages_queued s = size s.message_queue

module _ {St : Type 0} (callback : Bytes → ℕ → St → St) where
  unfoldable pub run_callback : Subscriber → St → Result (Subscriber × St × Bool)
  run_callback s st = do
    let q = s.message_queue
    let called : Result (Subscriber × St × Bool) = do
      pointer ← or_fail (get q) out_of_bounds
      message ← deref q pointer
      ok (record s { message_queue = (pop q).0 }, callback message s.message_size st, (pop q).1)
    if empty q then ok (s, st, false) else called
