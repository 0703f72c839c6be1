-- ===== src/Protocol/Tests.antt =====
-- Packets of the protocol, and its theorems at concrete inputs.
use cpp_rt_pubsub.Prelude.{
  ◌+◌, ◌≤◌, ◌≡◌, ◌≢◌, ◌↔◌, refl, true, [], ◌∷◌, ◌++◌, some, Bytes, ok, err, out_of_bounds, arith,
  length, replicate, drop,
}
use cpp_rt_pubsub.Json.Sample.{sample, sample-IsLawful}
use cpp_rt_pubsub.Protocol.{
  blank, control, data_message, bp_control_json_to_packet_buffer, bp_fill_data_header,
  decode_packet_buffer,
}
use cpp_rt_pubsub.Protocol.Decode.{
  word_at, with_data, decode-data_iff, decode_control_wraps, decode_safe,
}
use cpp_rt_pubsub.Protocol.RoundTrip.{
  control_result, data_result, control_round_trip, data_round_trip,
}

abbrev text : Bytes
text = 1 ∷ 1 ∷ []

text_of_true : sample.dump (sample.of_bool true) ≡ some text
unfolding sample
text_of_true = refl

control_round_trip_example :
    (packet : Bytes) × (bp_control_json_to_packet_buffer sample (sample.of_bool true) 7 ≡ ok packet)
    × (decode_packet_buffer sample (packet ++ replicate 8 0) (length packet) (blank sample)
        ≡ ok (control, control_result sample (blank sample) 7 (length text) (sample.of_bool true)))
control_round_trip_example =
    control_round_trip sample (blank sample) sample-IsLawful (sample.of_bool true) text text_of_true
      7 (replicate 8 0) (omega arith) (omega arith) (omega arith)

abbrev body : Bytes
body = 5 ∷ 6 ∷ []

data_round_trip_example :
    (packet : Bytes) × (bp_fill_data_header 1 2 3 (length body) (replicate 17 0 ++ body)
      ≡ ok packet)
    × (length packet ≡ 17 + length body)
    × (drop 17 packet ≡ body)
    × (decode_packet_buffer sample (packet ++ replicate 4 0) (length packet) (blank sample)
        ≡ ok (data_message, data_result sample (blank sample) 1 2 3 (length body)))
data_round_trip_example =
    data_round_trip sample (blank sample) 1 2 3 (replicate 17 0) body (replicate 4 0) refl
      (omega arith) (omega arith) (omega arith) (omega arith)

-- A data packet that names a message of 4 bytes.
abbrev data_buffer : Bytes
data_buffer = data_message ∷ (replicate 15 0 ++ (4 ∷ replicate 4 0))

decode-data_iff_example :
    (decode_packet_buffer sample data_buffer 13 (blank sample)
      ≡ ok (data_message, with_data sample data_buffer 13 (blank sample)))
    ↔ (9 + word_at data_buffer 13 ≤ 13)
decode-data_iff_example =
    decode-data_iff sample data_buffer 13 (blank sample) (omega arith) (omega arith) refl
      (omega arith)

-- A control packet that names a text of 2 ^ 32 - 1 bytes.
abbrev wrapping : Bytes
wrapping = control ∷ (replicate 4 0 ++ (replicate 4 255 ++ replicate 8 0))

decode_control_wraps_example :
    decode_packet_buffer sample wrapping 17 (blank sample) ≡ err out_of_bounds
decode_control_wraps_example =
    decode_control_wraps sample wrapping 17 (blank sample) (omega arith) (omega arith) refl
      (omega arith) (omega arith)

decode_safe_example : decode_packet_buffer sample data_buffer 13 (blank sample) ≢ err out_of_bounds
decode_safe_example =
    decode_safe sample data_buffer 13 (blank sample) (omega arith) (omega arith) (λ e. omega arith)
