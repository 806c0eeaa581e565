-- ===== src/Examples/Reports.antt =====
-- Messages of mininet-webrtc over a codec that writes the fields one behind the other.
use stupid_simple.Base.{
  ℕ, zero, suc, ◌-◌, ◌%◌, ◌^◌, ◌≡◌, refl, ◌==◌, true, false, if◌then◌else◌, none, some, List, [],
  ◌∷◌, ◌++◌, arith,
}
use stupid_simple.Base.Int.{ℤ, pos, negsuc}
use stupid_simple.Mininet.{
  Segment, Body, Codec, ping, pong, seg, pad, feedback, to_network, add_packet, sent_packet,
  received_packet,
}
use stupid_simple.Mininet.Sender.{Sender, new_mininet_sender}
use stupid_simple.Mininet.Dispatch.{send_padding, send_ping, update_sender_rtt, processing_msg}
use stupid_simple.Mininet.Receiver.{Receiver, new_mininet_receiver, receiver_processing_msg}
use stupid_simple.Mininet.Messages.{mid, IsCodec, ready}
use stupid_simple.Mininet.Agreement.{padding_reported, ping_measured}

abbrev time_fields : ℤ → List ℕ
time_fields (pos n) = 0 ∷ n ∷ []
time_fields (negsuc n) = 1 ∷ n ∷ []

abbrev fields : Body → List ℕ
fields (ping ts) = time_fields ts
fields (pong ts) = time_fields ts
fields (seg x) = x.transport_seq ∷ x.data_size ∷ []
fields (pad p) = p.pad_seq ∷ p.pad_size ∷ []
fields (feedback base bytes) = base ∷ bytes

abbrev field : ℕ → List ℕ → ℕ
field n [] = 0
field zero (x ∷ xs) = x
field (suc n) (x ∷ xs) = field n xs

abbrev waiting_segment : Segment
waiting_segment = record {
  packet_id = 1;
  fid = 1;
  timestamp = 0;
  index = 0;
  total = 1;
  ftype = 0;
  payload_type = 0;
  remb = 1;
  send_ts = 0;
  transport_seq = 4;
  data_size = 2;
  payload = 8 ∷ 9 ∷ [];
}

abbrev field_codec : Codec
field_codec = record {
  encode = λ uid body. mid body ∷ uid ∷ fields body;
  decode_header = λ bytes. some (field 0 bytes, field 1 bytes);
  decode_ts = λ bytes. if field 2 bytes == 0 then pos (field 3 bytes) else negsuc (field 3 bytes);
  decode_segment = λ bytes.
      some (record waiting_segment { transport_seq = field 2 bytes; data_size = field 3 bytes });
  decode_pad =
      λ bytes. some (record { pad_ts = 0; pad_seq = field 2 bytes; pad_size = field 3 bytes });
  decode_feedback = λ bytes. none;
  parses = λ bytes. true;
  pad_header_len = 16;
}

field_codec-IsCodec : IsCodec field_codec
field_codec-IsCodec = record {
  header = λ uid body h. refl;
  ping_time = λ uid n h. refl;
  pong_time = λ uid n h. refl;
  segment = λ uid x k fits whole. (_, refl, refl, refl);
  padding = λ uid p k fits. (_, refl, refl, refl);
}

abbrev pacing_sender : Sender
pacing_sender = record (new_mininet_sender 1 false) {
  running = true;
  first_ts = some 3000;
  pending_buf = (4, waiting_segment) ∷ [];
}

abbrev listening : Receiver
listening = new_mininet_receiver 60000

padding_reported_example :
    (bytes : List ℕ) × (overhead : ℕ) × ((send_padding field_codec pacing_sender 500 3500).0.out
      ≡ pacing_sender.out
        ++ (to_network pacing_sender.dst bytes
            ∷ add_packet pacing_sender.trans_seq overhead
            ∷ sent_packet pacing_sender.trans_seq 3500
            ∷ []))
    × (u : Receiver) × (receiver_processing_msg field_codec listening 3600 bytes ≡ some u)
    × (u.out
        ≡ (ready listening).out
          ++ (received_packet (3600 % 2 ^ 32) overhead pacing_sender.uid pacing_sender.trans_seq
              ∷ []))
unfolding new_mininet_sender
padding_reported_example =
    padding_reported field_codec field_codec-IsCodec pacing_sender listening 500 3500 3600
      (omega arith) (omega arith) (omega arith)

ping_measured_example :
    (asked answer : List ℕ) × ((send_ping field_codec pacing_sender 3500).out
      ≡ pacing_sender.out ++ (to_network pacing_sender.dst asked ∷ []))
    × (u : Receiver) × (receiver_processing_msg field_codec listening 3550 asked ≡ some u)
    × (u.out ≡ listening.out ++ (to_network listening.dst answer ∷ []))
    × (processing_msg field_codec (send_ping field_codec pacing_sender 3500) 3600 answer
        ≡ some (
            update_sender_rtt field_codec
              (send_ping field_codec pacing_sender 3500)
              ((3600 - 3500) % 2 ^ 32)))
unfolding new_mininet_sender new_mininet_receiver
ping_measured_example =
    ping_measured field_codec field_codec-IsCodec pacing_sender listening 3500 3550 3600
      (omega arith) (omega arith) (omega arith) (omega arith)
