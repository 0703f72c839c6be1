-- ===== src/Node/Loop/Packets.antt =====
-- The packets of a round of publishers, in order: what `Node::spin_once` is to send.
use cpp_rt_pubsub.Prelude.{
  ℕ, ◌+◌, ◌<◌, ◌≡◌, List, [], ◌∷◌, ◌++◌, Bytes, length, drop, get_or, All, ok, ℤ,
}
use cpp_rt_pubsub.Json.{Json}
use cpp_rt_pubsub.Protocol.{blank, decode_packet_buffer, data_message}
use cpp_rt_pubsub.Protocol.RoundTrip.{data_result}
use cpp_rt_pubsub.MessageQueue.Inv.{Distinct}
use cpp_rt_pubsub.MessageQueue.Fifo.{contents}
use cpp_rt_pubsub.Publisher.{Publisher}
use cpp_rt_pubsub.Subscriber.{Subscriber}
use cpp_rt_pubsub.Node.{next_bp_counter}
use cpp_rt_pubsub.Node.State.{TopicInfo}
use cpp_rt_pubsub.Node.Loop.Kept.{no_publisher, no_subscriber}

-- The publishers of the topics, in the order of the topics.
abbrev pub schedule : List (ℤ × TopicInfo) → List ℕ
schedule [] = []
schedule (t ∷ ts) = t.1.publishers ++ schedule ts

abbrev pub publisher_at : List Publisher → ℕ → Publisher
publisher_at ps i = get_or ps i no_publisher

pub Distinct-right : (is js : List ℕ) → Distinct (is ++ js) → Distinct js
Distinct-right [] js d = d
Distinct-right (i ∷ is) js d = Distinct-right is js d.1

-- Subscribers with nothing queued have no turn.
abbrev pub Idle : List Subscriber → List ℕ → Type 0
Idle ss = All (λ i. (i < length ss) × ((get_or ss i no_subscriber).message_queue.queue ≡ []))

module _ (json : Json) where
  -- The packet decodes to the counter, and to the publisher's IDs and message size, with the message behind the headers.
  pub record Carries (counter : ℕ) (p : Publisher) (message packet : Bytes) : Type 0 where
    pub whole : length packet ≡ 17 + p.message_size
    pub message_last : drop 17 packet ≡ message
    pub decoded :
        decode_packet_buffer json (packet ++ []) (length packet) (blank json)
        ≡ ok (
          data_message,
          data_result json (blank json) counter p.topic_id p.message_type_id p.message_size,
        )

  -- One packet for each publisher of a list that has a message waiting, its oldest, in the order of the list;
  -- the counter goes up with each. The indices are the counter before and after, the list, and the packets.
  pub data InOrder (ps : List Publisher) : ℕ → ℕ → List ℕ → List Bytes → Type 0 where
    done : (c : ℕ) → InOrder ps c c [] []
    idle :
        (c d i : ℕ) (is : List ℕ) (packets : List Bytes)
        → contents 17 (publisher_at ps i).message_queue ≡ []
        → InOrder ps c d is packets
        → InOrder ps c d (i ∷ is) packets
    sends :
        (c d i : ℕ) (is : List ℕ) (packet : Bytes) (packets : List Bytes) (x : Bytes)
        (xs : List Bytes)
        → contents 17 (publisher_at ps i).message_queue ≡ x ∷ xs
        → Carries (next_bp_counter c) (publisher_at ps i) x packet
        → InOrder ps (next_bp_counter c) d is packets
        → InOrder ps c d (i ∷ is) (packet ∷ packets)

  pub InOrder-append :
      (ps : List Publisher) (c d e : ℕ) (is js : List ℕ) (xs ys : List Bytes)
      → InOrder ps c d is xs
      → InOrder ps d e js ys
      → InOrder ps c e (is ++ js) (xs ++ ys)
  InOrder-append ps c d e is js xs ys (done _) k = k
  InOrder-append ps c d e is js xs ys (idle _ _ i is' xs' h r) k =
      idle c e i (is' ++ js) (xs' ++ ys) h (InOrder-append ps c d e is' js xs' ys r k)
  InOrder-append ps c d e is js xs ys (sends _ _ i is' p xs' x rest h w r) k =
      sends c e i (is' ++ js) p (xs' ++ ys) x rest h w
        (InOrder-append ps (next_bp_counter c) d e is' js xs' ys r k)
