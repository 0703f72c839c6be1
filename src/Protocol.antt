-- ===== src/Protocol.antt =====
-- include/crps/broker_protocol.h, src/broker_protocol.cpp: the packets between nodes and the broker.
-- A packed header is its bytes, and a field that goes through `htonl` or `ntohl` is four bytes, the
-- highest first. Log output is left out; a `BpType` is its byte, since any byte may arrive.
pub mod Decode
pub mod RoundTrip
mod Tests
use cpp_rt_pubsub.Prelude.{
  ℕ, ◌+◌, ◌-◌, ◌*◌, ◌/◌, ◌%◌, ◌^◌, Bool, ◌&&◌, List, [], ◌∷◌, ◌++◌, Option, Bytes, memcpy, Result,
  ok, err, ◌>>=◌, or_fail, out_of_bounds, exception, length, get_elem?, get_or, take, drop, ltb,
  leb, ◌==◌, if◌then◌else◌,
}
use cpp_rt_pubsub.Json.{Json}

-- `enum class BpType : uint8_t`: its values Invalid, Control and Data.
abbrev pub invalid : ℕ
invalid = 0

abbrev pub control : ℕ
control = 1

abbrev pub data_message : ℕ
data_message = 2

-- `bp_header_size`, `bp_control_header_size`, `bp_data_header_size`: the structs are packed.
abbrev pub bp_header_size : ℕ
bp_header_size = 5

abbrev pub bp_control_header_size : ℕ
bp_control_header_size = 4

abbrev pub bp_data_header_size : ℕ
bp_data_header_size = 12

-- The bytes in memory of `htonl(n)`, for an `n` that is first converted to `uint32_t`.
unfoldable pub htonl : ℕ → Bytes
htonl n = (n / 2 ^ 24) % 256 ∷ (n / 2 ^ 16) % 256 ∷ (n / 2 ^ 8) % 256 ∷ n % 256 ∷ []

-- The number in the four bytes `a b c d` of a field, through `ntohl`.
abbrev pub ntohl : ℕ → ℕ → ℕ → ℕ → ℕ
ntohl a b c d = a * 2 ^ 24 + b * 2 ^ 16 + c * 2 ^ 8 + d

-- `bp_control_json_to_packet_buffer`: the buffer that it fills.
unfoldable pub bp_control_json_to_packet_buffer : (json : Json) → json.Value → ℕ → Result Bytes
unfolding htonl
bp_control_json_to_packet_buffer json p_control_json p_counter = do
  control_string ← or_fail (json.dump p_control_json) exception
  ok (control ∷ (htonl p_counter ++ (htonl (length control_string) ++ control_string)))

-- The bytes of a `BpHeader` and a `BpDataHeader` that `bp_fill_data_header` writes.
abbrev pub data_header : ℕ → ℕ → ℕ → ℕ → Bytes
data_header p_counter p_topic_id p_message_type_id p_message_size =
    data_message
    ∷ (htonl p_counter ++ (htonl p_topic_id ++ (htonl p_message_type_id ++ htonl p_message_size)))

unfoldable pub bp_fill_data_header : ℕ → ℕ → ℕ → ℕ → Bytes → Result Bytes
unfolding htonl
bp_fill_data_header p_counter p_topic_id p_message_type_id p_message_size p_buffer =
    memcpy p_buffer 0 (data_header p_counter p_topic_id p_message_type_id p_message_size)
      (bp_header_size + bp_data_header_size)

-- The out-parameters of `decode_packet_buffer`, which the callers initialise.
pub record Packet (V : Type 0) : Type 0 where
  pub header_type : ℕ
  pub counter : ℕ
  pub control_size : ℕ
  pub topic_id : ℕ
  pub message_type_id : ℕ
  pub data_size : ℕ
  pub control_json : V

-- The callers' `BpHeader{}`, `BpControlHeader{}`, `BpDataHeader{}` and `json{}`.
abbrev pub blank : (json : Json) → Packet json.Value
blank json = record {
  header_type = 0;
  counter = 0;
  control_size = 0;
  topic_id = 0;
  message_type_id = 0;
  data_size = 0;
  control_json = json.null;
}

unfoldable pub read_u8 : Bytes → ℕ → Result ℕ
read_u8 buffer i = or_fail (get_elem? buffer i) out_of_bounds

unfoldable pub read_u32 : Bytes → ℕ → Result ℕ
read_u32 buffer i =
    if leb (i + 4) (length buffer)
    then ok (
        ntohl (get_or buffer i 0) (get_or buffer (i + 1) 0) (get_or buffer (i + 2) 0)
          (get_or buffer (i + 3) 0))
    else err out_of_bounds

-- `json::parse` over the bytes from offset `first` up to `last`, which are a range of the buffer.
unfoldable pub parse_range : (json : Json) → Bytes → ℕ → ℕ → Result json.Value
parse_range json buffer first last =
    if leb first last && leb last (length buffer)
    then or_fail (json.parse (take (last - first) (drop first buffer))) exception
    else err out_of_bounds

-- `json_end_offset` and `data_end_offset`, which are `uint32_t`; both are computed this way.
abbrev pub end_offset : ℕ → ℕ
end_offset size = (bp_header_size + bp_control_header_size + size) % 2 ^ 32

module _ (json : Json) (buffer : Bytes) (packet_size : ℕ) where
  unfoldable pub decode_control : Packet json.Value → Result (ℕ × Packet json.Value)
  decode_control out = do
    size ← read_u32 buffer bp_header_size
    let sized : Packet json.Value = record out { control_size = size }
    let parsed : Result (ℕ × Packet json.Value) = do
      value ← parse_range json buffer (bp_header_size + bp_control_header_size) (end_offset size)
      ok (out.header_type, record sized { control_json = value })
    if ltb packet_size (end_offset size) then ok (invalid, sized) else parsed

  unfoldable pub decode_data : Packet json.Value → Result (ℕ × Packet json.Value)
  decode_data out = do
    topic_id ← read_u32 buffer bp_header_size
    message_type_id ← read_u32 buffer (bp_header_size + 4)
    size ← read_u32 buffer (bp_header_size + 8)
    let filled : Packet json.Value = record out {
      topic_id = topic_id;
      message_type_id = message_type_id;
      data_size = size;
    }
    ok (if ltb packet_size (end_offset size) then (invalid, filled) else (out.header_type, filled))

  -- `decode_packet_buffer`: the type that it returns, and the out-parameters after it.
  unfoldable pub decode_packet_buffer : Packet json.Value → Result (ℕ × Packet json.Value)
  decode_packet_buffer out = if ltb packet_size bp_header_size then ok (invalid, out) else do
    header_type ← read_u8 buffer 0
    counter ← read_u32 buffer 1
    let header : Packet json.Value = record out { header_type = header_type; counter = counter }
    if header_type == control
        then decode_control header
        else if header_type == data_message
        then decode_data header
        else ok (header_type, header)
