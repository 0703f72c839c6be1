-- ===== src/Protocol/RoundTrip.antt =====
-- Decoding what the encoders wrote: `decode_packet_buffer` after `bp_control_json_to_packet_buffer`
-- and after `bp_fill_data_header`, in a receive buffer with any bytes behind the packet.
use cpp_rt_pubsub.Prelude.{
  ℕ, ◌+◌, ◌-◌, ◌/◌, ◌%◌, ◌^◌, ◌≤◌, ◌<◌, ◌≡◌, refl, ◌∙◌, ap, some, ◌∷◌, ◌++◌, Bytes, ok, arith,
  length, length-append, get_or, take, drop, take_of_length, drop_of_length, subst, memcpy-ok,
  ltb-false, leb-true,
}
use cpp_rt_pubsub.Json.{Json, IsLawful}
use cpp_rt_pubsub.Protocol.{
  Packet, ntohl, htonl, end_offset, parse_range, decode_packet_buffer, control, data_message,
  bp_control_json_to_packet_buffer, bp_fill_data_header, data_header,
}
use cpp_rt_pubsub.Protocol.Decode.{word_at, decode-control, decode-data}

-- `ntohl` undoes `htonl`.
pub ntohl-htonl :
    (n : ℕ)
    → n < 2 ^ 32
    → ntohl ((n / 2 ^ 24) % 256) ((n / 2 ^ 16) % 256) ((n / 2 ^ 8) % 256) (n % 256) ≡ n
ntohl-htonl n h = omega arith

-- The bytes of a control packet.
abbrev pub control_packet : ℕ → Bytes → Bytes
control_packet c s = control ∷ (htonl c ++ (htonl (length s) ++ s))

pub length-control_packet : (c : ℕ) (s : Bytes) → length (control_packet c s) ≡ 9 + length s
unfolding htonl
length-control_packet c s = omega arith

module _ (json : Json) (out : Packet json.Value) where
  -- The out-parameters after a control packet.
  abbrev pub control_result : ℕ → ℕ → json.Value → Packet json.Value
  control_result c size v = record out {
    header_type = control;
    counter = c;
    control_size = size;
    control_json = v;
  }

  module _ (j : json.Value) (s : Bytes) (parses : json.parse s ≡ some j) (c : ℕ) (tail : Bytes)
      (small : length s < 2 ^ 32 - 9) (c_small : c < 2 ^ 32)
      (room : 17 ≤ 9 + length s + length tail) where
    buffer : Bytes
    buffer = control_packet c s ++ tail

    length-buffer : length buffer ≡ 9 + length s + length tail
    unfolding buffer
    length-buffer =
        omega (arith, length-append (control_packet c s) tail, length-control_packet c s)

    size_word : word_at buffer 5 ≡ length s
    unfolding buffer htonl
    size_word = ntohl-htonl (length s) (omega arith)

    counter_word : word_at buffer 1 ≡ c
    unfolding buffer htonl
    counter_word = ntohl-htonl c c_small

    type_byte : get_or buffer 0 0 ≡ control
    unfolding buffer
    type_byte = refl

    end_small : end_offset (length s) ≡ 9 + length s
    end_small = omega arith

    text_range : take (9 + length s - 9) (drop 9 buffer) ≡ s
    unfolding buffer htonl
    text_range = take_of_length s tail (9 + length s - 9) (omega arith)

    parses_rest : parse_range json buffer 9 (9 + length s) ≡ ok j
    unfolding parse_range
    parses_rest = rw (
      leb-true 9 (9 + length s) (omega arith),
      leb-true (9 + length s) (length buffer) (omega (arith, length-buffer)),
      text_range,
      parses,
    )

    decode_control_packet :
        decode_packet_buffer json buffer (9 + length s) out
        ≡ ok (control, control_result c (length s) j)
    decode_control_packet =
        decode-control json buffer (9 + length s) out (omega arith) (omega (arith, length-buffer))
          type_byte
        ∙ rw (
          size_word,
          counter_word,
          type_byte,
          end_small,
          ltb-false (9 + length s) (9 + length s) (omega arith),
          parses_rest,
        )

  pub decode-control_packet :
      (j : json.Value) (s : Bytes)
      → json.parse s ≡ some j
      → (c : ℕ) (tail : Bytes) → length s < 2 ^ 32 - 9
      → c < 2 ^ 32
      → 17 ≤ 9 + length s + length tail
      → decode_packet_buffer json (control_packet c s ++ tail) (length (control_packet c s)) out
        ≡ ok (control, control_result c (length s) j)
  unfolding buffer
  decode-control_packet j s parses c tail small c_small room =
      rw (length-control_packet c s) (decode_control_packet j s parses c tail small c_small room)

  pub bp_control_json_to_packet_buffer-ok :
      (j : json.Value) (s : Bytes) (c : ℕ)
      → json.dump j ≡ some s
      → bp_control_json_to_packet_buffer json j c ≡ ok (control_packet c s)
  unfolding bp_control_json_to_packet_buffer
  bp_control_json_to_packet_buffer-ok j s c dumps = rw dumps

  -- With a JSON library that meets `IsLawful`: a control packet decodes to the JSON value, counter and
  -- size that it was made of, if its text is shorter than 2 ^ 32 - 9 bytes, whatever bytes the
  -- receive buffer of at least 17 bytes holds behind it.
  pub control_round_trip :
      IsLawful json
      → (j : json.Value) (s : Bytes) → json.dump j ≡ some s
      → (c : ℕ) (tail : Bytes) → length s < 2 ^ 32 - 9
      → c < 2 ^ 32
      → 17 ≤ 9 + length s + length tail
      → (packet : Bytes) × (bp_control_json_to_packet_buffer json j c ≡ ok packet)
        × (decode_packet_buffer json (packet ++ tail) (length packet) out
            ≡ ok (control, control_result c (length s) j))
  control_round_trip laws j s dumps c tail small c_small room = (
    control_packet c s,
    bp_control_json_to_packet_buffer-ok j s c dumps,
    decode-control_packet j s (laws.parse-dump j s dumps) c tail small c_small room,
  )

  -- The out-parameters after a data packet.
  abbrev pub data_result : ℕ → ℕ → ℕ → ℕ → Packet json.Value
  data_result c t m size = record out {
    header_type = data_message;
    counter = c;
    topic_id = t;
    message_type_id = m;
    data_size = size;
  }

  module _ (c t m : ℕ) (body tail : Bytes) (c_small : c < 2 ^ 32) (t_small : t < 2 ^ 32)
      (m_small : m < 2 ^ 32) (small : length body < 2 ^ 32 - 9) where
    data_buffer : Bytes
    data_buffer = (data_header c t m (length body) ++ body) ++ tail

    length-data_buffer : length data_buffer ≡ 17 + length body + length tail
    unfolding data_buffer htonl
    length-data_buffer = omega (arith, length-append body tail)

    decode_data_packet :
        decode_packet_buffer json data_buffer (17 + length body) out
        ≡ ok (data_message, data_result c t m (length body))
    unfolding data_buffer htonl
    decode_data_packet =
        decode-data json data_buffer (17 + length body) out (omega arith)
          (omega (arith, length-data_buffer)) refl
        ∙ rw (
          ntohl-htonl c c_small,
          ntohl-htonl t t_small,
          ntohl-htonl m m_small,
          ntohl-htonl (length body) (omega arith),
          ltb-false (17 + length body) (end_offset (length body)) (omega arith),
        )

  -- `bp_fill_data_header` on a buffer of 17 bytes and a message body shorter than 2 ^ 32 - 9 bytes: the
  -- packet decodes to the 32-bit counter, IDs and size that it was given, and its body follows the
  -- 17 bytes unchanged, whatever bytes the receive buffer holds behind the packet.
  pub data_round_trip :
      (c t m : ℕ) (header body tail : Bytes)
      → length header ≡ 17
      → c < 2 ^ 32
      → t < 2 ^ 32
      → m < 2 ^ 32
      → length body < 2 ^ 32 - 9
      → (packet : Bytes) × (bp_fill_data_header c t m (length body) (header ++ body) ≡ ok packet)
        × (length packet ≡ 17 + length body)
        × (drop 17 packet ≡ body)
        × (decode_packet_buffer json (packet ++ tail) (length packet) out
            ≡ ok (data_message, data_result c t m (length body)))
  unfolding data_buffer bp_fill_data_header
  data_round_trip c t m header body tail h c_small t_small m_small small = (
    data_header c t m (length body) ++ body,
    memcpy-ok (header ++ body) 0 (data_header c t m (length body)) 17
          (omega (arith, length-append header body)) (omega arith)
        ∙ ap (λ b. ok (data_header c t m (length body) ++ b)) (drop_of_length header body 17 h),
    omega arith,
    refl,
    subst
        (λ k.
          decode_packet_buffer json ((data_header c t m (length body) ++ body) ++ tail) k out
          ≡ ok (data_message, data_result c t m (length body)))
        (omega arith) (decode_data_packet c t m body tail c_small t_small m_small small),
  )
