-- ===== src/Node/Incoming/Tests.antt =====
-- A data packet that arrives at a node.
use cpp_rt_pubsub.Prelude.{
  length, ◌≡◌, refl, List, drop, [], ◌∷◌, ◌++◌, Bytes, ok, ℤ, pos, arith, replicate,
}
use cpp_rt_pubsub.Json.Sample.{sample}
use cpp_rt_pubsub.Protocol.{decode_packet_buffer, decode_data, read_u8, read_u32}
use cpp_rt_pubsub.Subscriber.{Subscriber, new_subscriber}
use cpp_rt_pubsub.Subscriber.Delivery.{new_subscriber-Ready}
use cpp_rt_pubsub.Node.Incoming.{Receiver, received, find_topic, process_incoming_message}
use cpp_rt_pubsub.Node.Incoming.Safe.{IsValid, Decodes, process_incoming_message-IsValid, refilled}
use cpp_rt_pubsub.Node.Incoming.Delivered.{Delivered, process_incoming_message-Delivered}

abbrev pub display : Receiver
display = record {
  subscribers = new_subscriber "/pose" "Pose" 2 (pos 5) ∷ [];
  topics = (3, 0 ∷ []) ∷ [];
  buffer = replicate 32 0;
}

pub display-IsValid : IsValid display
display-IsValid = record {
  headers = omega arith;
  ready = (new_subscriber-Ready "/pose" "Pose" 2 (pos 5) (omega arith), tt);
  room = (omega arith, tt);
  known = ((omega arith, tt), tt);
}

-- A packet for topic 3 with a message of two bytes.
abbrev pub pose : Bytes
pose =
    2
    ∷ (replicate 3 0
        ++ (1
            ∷ (replicate 3 0
                ++ (3 ∷ (replicate 3 0 ++ (4 ∷ (replicate 3 0 ++ (2 ∷ 7 ∷ 8 ∷ []))))))))

pub pose-Decodes : Decodes sample display (received pose)
unfolding decode_packet_buffer decode_data read_u8 read_u32
pose-Decodes = (_, refl)

process_incoming_message-IsValid_example :
    (n' : Receiver) × (z : ℤ) × (process_incoming_message sample display (received pose)
      ≡ ok (n', z))
    × IsValid n'
    × (n'.topics ≡ display.topics)
    × (length n'.subscribers ≡ length display.subscribers)
process_incoming_message-IsValid_example =
    process_incoming_message-IsValid sample display (received pose) display-IsValid pose-Decodes

-- The display gets the pose.
process_incoming_message-Delivered_example :
    (ss' : List Subscriber) × (process_incoming_message sample display (received pose)
      ≡ ok (record display { buffer = refilled sample display pose; subscribers = ss' }, pos 1))
    × Delivered (drop 17 (refilled sample display pose)) (0 ∷ []) display.subscribers ss'
unfolding decode_packet_buffer decode_data read_u8 read_u32 find_topic
process_incoming_message-Delivered_example =
    process_incoming_message-Delivered sample display pose _ 0 [] display-IsValid refl refl (tt, tt)
