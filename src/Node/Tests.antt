-- ===== src/Node/Tests.antt =====
-- A publisher's turn at concrete inputs.
use cpp_rt_pubsub.Prelude.{refl, Bool, true, [], ◌∷◌, ◌++◌, Bytes, arith, pos, replicate}
use cpp_rt_pubsub.Json.Sample.{sample}
use cpp_rt_pubsub.Protocol.{blank}
use cpp_rt_pubsub.MessageQueue.{MessageQueue}
use cpp_rt_pubsub.MessageQueue.Inv.{IsValid}
use cpp_rt_pubsub.Publisher.{Publisher}
use cpp_rt_pubsub.Publisher.Queued.{Ready}
use cpp_rt_pubsub.Node.{Turn}
use cpp_rt_pubsub.Node.Outgoing.{Sends, publisher_turn_lem}

-- Two buffers, the first of which holds a message.
abbrev pub queue : MessageQueue
queue = record {
  message_size = 19;
  queue_capacity = 2;
  buffers = (replicate 17 0 ++ (7 ∷ 8 ∷ [])) ∷ replicate 19 0 ∷ [];
  free_buffers = 1 ∷ [];
  queue = 0 ∷ [];
}

queue-IsValid : IsValid queue
queue-IsValid = record {
  sized = (refl, (refl, tt));
  allocated = refl;
  counted = refl;
  in_range = (omega arith, (omega arith, tt));
  distinct = (((λ e. omega arith), tt), (tt, tt));
}

abbrev pub poses : Publisher
poses = record {
  topic_name = "/pose";
  message_type_name = "Pose";
  message_size = 2;
  topic_priority = pos 5;
  packet_header_size = 17;
  topic_id = 3;
  message_type_id = 4;
  message_queue = queue;
}

pub poses-Ready : Ready poses
poses-Ready = record {
  valid = queue-IsValid;
  headers = refl;
  sized = refl;
  small = omega arith;
  topic = omega arith;
  type = omega arith;
}

-- Every `sendto` succeeds.
abbrev accept_all : Bytes → Bool
accept_all packet = true

publisher_turn_lem_example :
    (t : Turn) × (packet : Bytes) × Sends sample
      (blank sample)
      (0 ∷ [])
      accept_all
      6
      poses
      poses-Ready
      (7 ∷ 8 ∷ [])
      []
      t
      packet
publisher_turn_lem_example =
    publisher_turn_lem sample (blank sample) (0 ∷ []) accept_all 6 poses poses-Ready (7 ∷ 8 ∷ []) []
      refl
