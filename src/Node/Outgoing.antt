-- ===== src/Node/Outgoing.antt =====
-- A publisher's turn in `spin_once`, from its queue to the packet that is sent.
use cpp_rt_pubsub.Prelude.{
  ℕ, zero, suc, ◌+◌, ◌-◌, ◌%◌, ◌^◌, ◌≡◌, refl, sym, ◌∙◌, ap, subst, Bool, true, false, List, [],
  ◌∷◌, ◌++◌, some, Bytes, arith, length, length-drop, length-take, get_or, take, drop, take_all, ok,
  leb-true, ◌==◌, ==-ne, if◌then◌else◌, Bool-cases, inl, inr,
}
use cpp_rt_pubsub.Json.{Json}
use cpp_rt_pubsub.Protocol.{Packet, decode_packet_buffer, data_message, bp_fill_data_header}
use cpp_rt_pubsub.Protocol.RoundTrip.{data_round_trip, data_result}
use cpp_rt_pubsub.MessageQueue.{deref, size}
use cpp_rt_pubsub.MessageQueue.Fifo.{contents}
use cpp_rt_pubsub.Publisher.{
  Publisher, packet_size, messages_queued, get_message, pop_message, write_message,
}
use cpp_rt_pubsub.Publisher.Queued.{
  Ready, queued_buffer, Ready-write_message, contents-write_message, Ready-pop_message,
  contents-pop_message,
}
use cpp_rt_pubsub.Node.{next_bp_counter, read_range, send_data, Turn, publisher_turn}

take-drop : (n : ℕ) (b : Bytes) → take n b ++ drop n b ≡ b
take-drop zero b = refl
take-drop (suc n) [] = refl
take-drop (suc n) (x ∷ b) = ap (◌∷◌ x) (take-drop n b)

module _ (json : Json) (out : Packet json.Value) (tail : Bytes) (counter : ℕ) (p : Publisher)
    (r : Ready p) where
  -- The packet for a message: what the broker decodes, and that the message follows the headers.
  pub record IsSent (packet message : Bytes) : Type 0 where
    pub whole : length packet ≡ 17 + p.message_size
    pub message_last : drop 17 packet ≡ message
    pub decoded :
        decode_packet_buffer json (packet ++ tail) (length packet) out
        ≡ ok (
          data_message,
          data_result json out
              (next_bp_counter counter)
              p.topic_id
              p.message_type_id
              p.message_size,
        )

  -- What `data_round_trip` says of a packet.
  Filled : Bytes → Bytes → Bytes → Type 0
  Filled header body packet =
      (bp_fill_data_header (next_bp_counter counter) p.topic_id p.message_type_id (length body)
          (header ++ body)
        ≡ ok packet)
      × (length packet ≡ 17 + length body)
      × (drop 17 packet ≡ body)
      × (decode_packet_buffer json (packet ++ tail) (length packet) out
          ≡ ok (
            data_message,
            data_result json out (next_bp_counter counter) p.topic_id p.message_type_id
                (length body),
          ))

  Filled-IsSent :
      (header body packet : Bytes)
      → Filled header body packet
      → length body ≡ p.message_size
      → IsSent packet body
  unfolding Filled
  Filled-IsSent header body packet (filled, len, last, decodes) e = record {
    whole = len ∙ ap (λ n. 17 + n) e;
    message_last = last;
    decoded = rw e at decodes;
  }

  Filled-sends :
      (header body packet : Bytes)
      → Filled header body packet
      → length body ≡ p.message_size
      → send_data
          (next_bp_counter counter)
          p.topic_id
          p.message_type_id
          (header ++ body)
          (packet_size p)
        ≡ ok (packet, packet)
  unfolding Filled send_data read_range
  Filled-sends header body packet (filled, len, last, decodes) e =
      let size : (packet_size p + 2 ^ 64 - 17) % 2 ^ 64 % 2 ^ 32 ≡ length body =
        omega (arith, r.headers, r.small) in
      let all_sent : packet_size p ≡ length packet = omega (arith, r.headers, r.small) in
      rw (
        size,
        filled,
        all_sent,
        leb-true (length packet) (length packet) (omega arith),
        take_all (length packet) packet (omega arith),
      )

  send_data-ok :
      (buffer : Bytes)
      → length buffer ≡ 17 + p.message_size
      → (packet : Bytes) × (send_data
            (next_bp_counter counter)
            p.topic_id
            p.message_type_id
            buffer
            (packet_size p)
          ≡ ok (packet, packet))
        × IsSent packet (drop 17 buffer)
  unfolding Filled
  send_data-ok buffer long =
      let body_length : length (drop 17 buffer) ≡ p.message_size =
        omega (arith, length-drop 17 buffer) in
      let (packet, filled, len, last, decodes) =
        data_round_trip json out (next_bp_counter counter) p.topic_id p.message_type_id
          (take 17 buffer) (drop 17 buffer) tail (omega (arith, length-take 17 buffer))
          (omega arith) r.topic r.type (omega (arith, r.small)) in
      let f : Filled (take 17 buffer) (drop 17 buffer) packet = (filled, len, last, decodes) in
      (
        packet,
        subst
            (λ x.
              send_data (next_bp_counter counter) p.topic_id p.message_type_id x (packet_size p)
              ≡ ok (packet, packet))
            (take-drop 17 buffer)
            (Filled-sends (take 17 buffer) (drop 17 buffer) packet f body_length),
        Filled-IsSent (take 17 buffer) (drop 17 buffer) packet f body_length,
      )

module _ (json : Json) (out : Packet json.Value) (tail : Bytes) (accepts : Bytes → Bool)
    (counter : ℕ) (p : Publisher) (r : Ready p) where
  -- What a turn does with the oldest message `x`, where `xs` wait behind it.
  pub record Sends (x : Bytes) (xs : List Bytes) (t : Turn) (packet : Bytes) : Type 0 where
    pub returned : publisher_turn accepts counter p ≡ ok t
    pub is_sent : IsSent json out tail counter p r packet x
    pub counted : t.counter ≡ next_bp_counter counter
    pub once : t.sent ≡ packet ∷ []
    pub succeeded : t.succeeded ≡ accepts packet
    pub ready : Ready t.publisher
    pub left : contents 17 t.publisher.message_queue ≡ (if accepts packet then xs else x ∷ xs)

  turn_result : Publisher → Bytes → Turn
  turn_result p' packet =
      if accepts packet
      then record {
        counter = next_bp_counter counter;
        publisher = (pop_message p').0;
        sent = packet ∷ [];
        succeeded = true;
      }
      else record {
        counter = next_bp_counter counter;
        publisher = p';
        sent = packet ∷ [];
        succeeded = false;
      }

  publisher_turn-sends :
      (b : ℕ) (buffer packet : Bytes)
      → (messages_queued p == 0) ≡ false
      → get_message p ≡ some b
      → deref p.message_queue b ≡ ok buffer
      → send_data (next_bp_counter counter) p.topic_id p.message_type_id buffer (packet_size p)
        ≡ ok (packet, packet)
      → publisher_turn accepts counter p ≡ ok (turn_result (write_message p b packet) packet)
  unfolding publisher_turn turn_result
  publisher_turn-sends b buffer packet waiting here there sends = rw (waiting, here, there, sends)

  turn_result-Sends :
      (p' : Publisher) (x : Bytes) (xs : List Bytes) (packet : Bytes)
      → publisher_turn accepts counter p ≡ ok (turn_result p' packet)
      → IsSent json out tail counter p r packet x
      → Ready p'
      → contents 17 p'.message_queue ≡ x ∷ xs
      → Sends x xs (turn_result p' packet) packet
  unfolding turn_result
  turn_result-Sends p' x xs packet e is_sent r' holds = elim (Bool-cases (accepts packet)) [
    | inl yes' ↦ rw yes' (record {
      returned = rw yes' at e;
      is_sent = is_sent;
      counted = refl;
      once = refl;
      succeeded = sym yes';
      ready = Ready-pop_message p' r';
      left = contents-pop_message p' x xs r' holds ∙ rw yes';
    })
    | inr no' ↦ rw no' (record {
      returned = rw no' at e;
      is_sent = is_sent;
      counted = refl;
      once = refl;
      succeeded = sym no';
      ready = r';
      left = holds ∙ rw no';
    })
  ]

  turn_queued :
      (b : ℕ) (bs : List ℕ) (x : Bytes) (xs : List Bytes)
      → p.message_queue.queue ≡ b ∷ bs
      → contents 17 p.message_queue ≡ x ∷ xs
      → (t : Turn) × (packet : Bytes) × Sends x xs t packet
  unfolding size
  turn_queued b bs x xs e holds =
      let (here, lt, there, long, oldest) = queued_buffer p.message_queue r.valid e in
      let (packet, sends, is_sent) =
        send_data-ok json out tail counter p r (get_or p.message_queue.buffers b [])
          (long ∙ r.sized) in
      let first : drop 17 (get_or p.message_queue.buffers b []) ≡ x =
        ap (λ c. get_or c 0 []) (sym oldest ∙ holds) in
      (
        turn_result (write_message p b packet) packet,
        packet,
        turn_result-Sends (write_message p b packet) x xs packet
            (publisher_turn-sends b (get_or p.message_queue.buffers b []) packet
              (rw e (==-ne (suc (length bs)) 0 (λ h. omega arith))) here there sends)
            (subst (IsSent json out tail counter p r packet) first is_sent)
            (Ready-write_message p r b packet lt is_sent.whole is_sent.message_last)
            (contents-write_message p r b packet lt is_sent.whole is_sent.message_last ∙ holds),
      )

  turn_of :
      (ps : List ℕ) (x : Bytes) (xs : List Bytes)
      → p.message_queue.queue ≡ ps
      → contents 17 p.message_queue ≡ x ∷ xs
      → (t : Turn) × (packet : Bytes) × Sends x xs t packet
  turn_of [] x xs e holds = absurd (ground (arith, rw e at holds))
  turn_of (b ∷ bs) x xs e holds = turn_queued b bs x xs e holds

  -- The turn of a publisher that is ready (its queue is valid and has room for 17 header bytes and a
  -- message in each packet, and its sizes and IDs fit in 32 bits) and has messages waiting: it does
  -- not fault, and makes one `sendto`, of a packet that decodes to the next counter, the publisher's
  -- IDs and its message size, with the oldest message behind the 17 bytes. If that succeeds, the
  -- message is gone from the queue; otherwise it stays at the front; the publisher stays ready.
  pub publisher_turn_lem :
      (x : Bytes) (xs : List Bytes)
      → contents 17 p.message_queue ≡ x ∷ xs
      → (t : Turn) × (packet : Bytes) × Sends x xs t packet
  publisher_turn_lem x xs holds = turn_of p.message_queue.queue x xs refl holds
