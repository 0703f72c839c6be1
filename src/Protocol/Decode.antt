-- ===== src/Protocol/Decode.antt =====
-- What `decode_packet_buffer` accepts, rejects and reads, on every buffer.
use cpp_rt_pubsub.Prelude.{
  ℕ, ◌+◌, ◌-◌, ◌^◌, ◌≤◌, ◌<◌, ◌≡◌, ◌≢◌, ◌↔◌, Bytes, ok, err, ◌>>=◌, out_of_bounds, arith, length,
  get_or, get_elem?-eq-get_or, if◌then◌else◌, ◌==◌, ltb, ltb-true, ltb-false, leb-false, ◌∙◌, sym,
  dec_lt, ℕ_discrete,
}
use cpp_rt_pubsub.Json.{Json}
use cpp_rt_pubsub.Protocol.{
  Packet, ntohl, end_offset, read_u8, read_u32, parse_range, decode_control, decode_data,
  decode_packet_buffer, control, data_message, invalid,
}

-- The number in the four bytes from offset `i` on.
abbrev pub word_at : Bytes → ℕ → ℕ
word_at buffer i =
    ntohl (get_or buffer i 0) (get_or buffer (i + 1) 0) (get_or buffer (i + 2) 0)
      (get_or buffer (i + 3) 0)

pub read_u32-ok : (b : Bytes) (i : ℕ) → i + 4 ≤ length b → read_u32 b i ≡ ok (word_at b i)
unfolding read_u32
read_u32-ok b i h = ground arith

pub read_u8-ok : (b : Bytes) (i : ℕ) → i < length b → read_u8 b i ≡ ok (get_or b i 0)
unfolding read_u8
read_u8-ok b i h = rw (get_elem?-eq-get_or b i 0 h)

-- A parse of a range of the buffer ends with a value or with an exception.
pub parse_range-safe :
    (json : Json) (buffer : Bytes) (first last : ℕ)
    → first ≤ last
    → last ≤ length buffer
    → parse_range json buffer first last ≢ err out_of_bounds
unfolding parse_range
parse_range-safe json buffer first last h k = ground arith

module _ (json : Json) (buffer : Bytes) (packet_size : ℕ) (out : Packet json.Value) where
  -- The out-parameters once the header is read.
  abbrev pub with_header : Packet json.Value
  with_header = record out { header_type = get_or buffer 0 0; counter = word_at buffer 1 }

  abbrev pub with_data : Packet json.Value
  with_data = record with_header {
    topic_id = word_at buffer 5;
    message_type_id = word_at buffer 9;
    data_size = word_at buffer 13;
  }

  -- A packet that is shorter than a header is invalid, and writes no out-parameter.
  pub decode-short :
      packet_size < 5 → decode_packet_buffer json buffer packet_size out ≡ ok (invalid, out)
  unfolding decode_packet_buffer
  decode-short h = ground arith

  decode_header :
      5 ≤ packet_size
      → 17 ≤ length buffer
      → decode_packet_buffer json buffer packet_size out ≡ (
          if get_or buffer 0 0 == control
          then decode_control json buffer packet_size with_header
          else if get_or buffer 0 0 == data_message
          then decode_data json buffer packet_size with_header
          else ok (get_or buffer 0 0, with_header))
  unfolding decode_packet_buffer
  decode_header h room = rw (
    ltb-false packet_size 5 h,
    read_u8-ok buffer 0 (omega arith),
    read_u32-ok buffer 1 (omega arith),
  )

  -- A data packet is handed on exactly if its message, taken to begin right after the 9 bytes of a
  -- control packet's headers, ends within the packet; a message here begins after 17 bytes, so the
  -- last 8 bytes may be missing.
  pub decode-data :
      5 ≤ packet_size
      → 17 ≤ length buffer
      → get_or buffer 0 0 ≡ data_message
      → decode_packet_buffer json buffer packet_size out
        ≡ ok (
            if ltb packet_size (end_offset (word_at buffer 13))
            then (invalid, with_data)
            else (data_message, with_data))
  unfolding decode_data
  decode-data h room e =
      decode_header h room
      ∙ rw (
        e,
        read_u32-ok buffer 5 (omega arith),
        read_u32-ok buffer 9 (omega arith),
        read_u32-ok buffer 13 (omega arith),
      )

  pub decode-control :
      5 ≤ packet_size
      → 17 ≤ length buffer
      → get_or buffer 0 0 ≡ control
      → decode_packet_buffer json buffer packet_size out ≡ (
          if ltb packet_size (end_offset (word_at buffer 5))
          then ok (invalid, record with_header { control_size = word_at buffer 5 })
          else (parse_range json buffer 9 (end_offset (word_at buffer 5)) >>= λ value. ok (
            control,
            record with_header { control_size = word_at buffer 5; control_json = value },
          )))
  unfolding decode_control
  decode-control h room e = decode_header h room ∙ rw (e, read_u32-ok buffer 5 (omega arith))

  -- A control packet of at least 8 bytes, in a receive buffer of at least 17, whose size field is
  -- within 9 of 2 ^ 32: it passes the test of its end, which has wrapped around, and `json::parse`
  -- gets a range that ends before it begins.
  pub decode_control_wraps :
      8 ≤ packet_size
      → 17 ≤ length buffer
      → get_or buffer 0 0 ≡ control
      → 2 ^ 32 - 9 ≤ word_at buffer 5
      → word_at buffer 5 < 2 ^ 32
      → decode_packet_buffer json buffer packet_size out ≡ err out_of_bounds
  unfolding parse_range
  decode_control_wraps h room e low high =
      decode-control (omega arith) room e
      ∙ rw (
        ltb-false packet_size (end_offset (word_at buffer 5)) (omega arith),
        leb-false 9 (end_offset (word_at buffer 5)) (omega arith),
      )

  -- A data packet of at least 5 bytes, in a receive buffer of at least 17, whose size field is more
  -- than 9 below 2 ^ 32: it is handed on exactly if 9 bytes and its message fit in the packet. (The
  -- message begins after 17 bytes, so a packet that misses up to 8 bytes of it is handed on too.)
  pub decode-data_iff :
      5 ≤ packet_size
      → 17 ≤ length buffer
      → get_or buffer 0 0 ≡ data_message
      → word_at buffer 13 < 2 ^ 32 - 9
      → (decode_packet_buffer json buffer packet_size out ≡ ok (data_message, with_data))
        ↔ (9 + word_at buffer 13 ≤ packet_size)
  decode-data_iff h room e low = (only_if, if_fits)
    where
      if_fits :
          9 + word_at buffer 13 ≤ packet_size
          → decode_packet_buffer json buffer packet_size out ≡ ok (data_message, with_data)
      if_fits k =
          decode-data h room e
          ∙ rw (ltb-false packet_size (end_offset (word_at buffer 13)) (omega arith))

      only_if :
          decode_packet_buffer json buffer packet_size out ≡ ok (data_message, with_data)
          → 9 + word_at buffer 13 ≤ packet_size
      only_if r = elim (dec_lt packet_size (9 + word_at buffer 13)) [
        | yes p ↦
            let q = sym r ∙ decode-data h room e in
            absurd (
              ground (
                arith,
                rw (ltb-true packet_size (end_offset (word_at buffer 13)) (omega arith)) at q,
              ))
        | no p ↦ omega arith
      ]

  -- A packet within a receive buffer of at least 17 bytes, whose size field is less than 2 ^ 32 - 9 if it
  -- is a control packet: decoding does not read outside of the buffer.
  pub decode_safe :
      packet_size ≤ length buffer
      → 17 ≤ length buffer
      → (get_or buffer 0 0 ≡ control → word_at buffer 5 < 2 ^ 32 - 9)
      → decode_packet_buffer json buffer packet_size out ≢ err out_of_bounds
  decode_safe inside room small r = elim (dec_lt packet_size 5) [
    | yes short ↦ cc (decode-short short)
    | no h ↦ elim (ℕ_discrete (get_or buffer 0 0) control) [
      | yes e ↦ ground (
        arith,
        decode-control (omega arith) room e,
        small e,
        parse_range-safe json buffer 9 (end_offset (word_at buffer 5)),
      )
      | no other ↦ ground (arith, decode_header (omega arith) room, decode-data (omega arith) room)
    ]
  ]
