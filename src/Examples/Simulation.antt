-- ===== src/Examples/Simulation.antt =====
-- Frames, round-trip times and padding of mininet-webrtc, and the queue of the BBR video sender.
use stupid_simple.Base.{
  ℕ, ◌+◌, ◌≤◌, ◌≡◌, ◌⊎◌, refl, true, false, Bool, Option, some, none, List, [], ◌∷◌, ◌++◌,
  replicate, arith,
}
use stupid_simple.Base.Int.{pos}
use stupid_simple.Frames.{
  get_frame, frame_split, split_sizes, new_generator, updata_rate, updata_rate_lem,
}
use stupid_simple.Mininet.{Segment, Codec}
use stupid_simple.Mininet.Sender.{Sender, new_mininet_sender, send_video}
use stupid_simple.Mininet.Dispatch.{initial_remain, time_to_send_packet, time_to_send_padding}
use stupid_simple.Mininet.Segments.{joined, Sound, send_video-queues, time_to_send_packet-once}
use stupid_simple.Mininet.Receiver.{new_mininet_receiver}
use stupid_simple.Mininet.Session.{Ends, run_receiver, run_receiver-Ends}
use stupid_simple.Mininet.Padding.{announced, time_to_send_padding_lem}
use stupid_simple.Mininet.Rtt.{receiver_update_rtt}
use stupid_simple.Mininet.Statistics.{
  Measured, sender_after, receiver_after, kept, sender_after-Measured, receiver_report_lem,
}
use stupid_simple.Header.{get_min_seq_length}
use stupid_simple.Bbr.State.{new_sender}
use stupid_simple.Bbr.Modes.{add_seq_and_timestamp}
use stupid_simple.Bbr.Sender.{on_packet_sent}
use stupid_simple.Bbr.Pacing.{new_pacing, pacing_packet_sent, time_until_send}
use stupid_simple.Bbr.App.{payload_of}
use stupid_simple.Bbr.App.Video.{
  take_frame, send_data_or_padding, wants_probe, video_send_fake_packet, video_receive,
  video_record_rate, MyBbrVideoSenderApp, new_video_app, video_process,
}
use stupid_simple.Bbr.App.Queue.{Longer, process_never_pops}
use stupid_simple.Examples.{some_env, some_net}

abbrev some_codec : Codec
some_codec = record {
  encode = λ uid body. uid ∷ [];
  decode_header = λ bytes. none;
  decode_ts = λ bytes. pos 0;
  decode_segment = λ bytes. none;
  decode_pad = λ bytes. none;
  decode_feedback = λ bytes. none;
  parses = λ bytes. true;
  pad_header_len = 516;
}

abbrev some_sender : Sender
some_sender = record (new_mininet_sender 1 false) { running = true }

abbrev some_frame : List ℕ
some_frame = replicate 12 5

send_video-queues_example :
    (t : Sender) × (new : List (ℕ × Segment)) × (send_video some_sender 0 0 4000 some_frame
      ≡ some t)
    × (t.pending_buf ≡ some_sender.pending_buf ++ new)
    × (joined new ≡ some_frame)
    × Sound new
send_video-queues_example =
    send_video-queues some_sender 0 0 4000 some_frame refl (omega arith) (omega arith)
      (unfold new_mininet_sender in omega arith) (unfold new_mininet_sender in tt)

abbrev some_segment : Segment
some_segment = record {
  packet_id = 1;
  fid = 1;
  timestamp = 0;
  index = 0;
  total = 1;
  ftype = 0;
  payload_type = 0;
  remb = 1;
  send_ts = 0;
  transport_seq = 4;
  data_size = 2;
  payload = 8 ∷ 9 ∷ [];
}

abbrev waiting : Sender
waiting = record some_sender {
  pending_buf = (4, some_segment) ∷ (5, some_segment) ∷ [];
  first_ts = some 3000;
}

time_to_send_packet-once_example :
    time_to_send_packet some_codec (time_to_send_packet some_codec waiting 4 5000) 4 6000
    ≡ time_to_send_packet some_codec waiting 4 5000
time_to_send_packet-once_example =
    time_to_send_packet-once some_codec waiting 4 5000 6000 (omega arith, tt)

time_to_send_padding_lem_example :
    (t : Sender) × (time_to_send_padding some_codec some_sender 1300 5000 ≡ some t)
    × (announced some_sender.out + initial_remain 1300 ≤ announced t.out + 99)
    × (announced t.out
        ≤ announced some_sender.out + initial_remain 1300 + some_codec.pad_header_len)
time_to_send_padding_lem_example = time_to_send_padding_lem some_codec some_sender 1300 5000

sender_after-Measured_example : Measured (sender_after (40 ∷ 3 ∷ 17 ∷ [])) (kept (40 ∷ 3 ∷ 17 ∷ []))
sender_after-Measured_example = sender_after-Measured 40 (3 ∷ 17 ∷ [])

receiver_report_lem_example :
    let report = (receiver_update_rtt (receiver_after (10 ∷ 30 ∷ [])) 100).1 in report.0 ≤ report.1
receiver_report_lem_example = receiver_report_lem (10 ∷ 30 ∷ []) 100

updata_rate_lem_example :
    let g = updata_rate (new_generator 25 1000000) 9000000 in
    ((new_generator 25 1000000).min_rate ≤ g.rate)
    × ((g.rate ≤ (new_generator 25 1000000).max_rate)
        ⊎ (g.rate ≡ (new_generator 25 1000000).min_rate))
updata_rate_lem_example = updata_rate_lem (new_generator 25 1000000) 9000000

abbrev some_video : MyBbrVideoSenderApp ℕ
some_video = record (new_video_app some_env (new_generator 25 1000000) 500000 1000000 5000000) {
  pending_queue = 700 ∷ [];
}

abbrev or_some_video : Option (Bool × MyBbrVideoSenderApp ℕ) → MyBbrVideoSenderApp ℕ
or_some_video none = some_video
or_some_video (some r) = r.1

abbrev after_process : MyBbrVideoSenderApp ℕ
after_process = or_some_video (video_process some_env some_net some_video 50000 [])

one_process : video_process some_env some_net some_video 50000 [] ≡ some (true, after_process)
unfolding video_process take_frame get_frame new_generator frame_split split_sizes
    send_data_or_padding wants_probe video_send_fake_packet pacing_packet_sent on_packet_sent
    add_seq_and_timestamp new_pacing new_sender payload_of get_min_seq_length time_until_send
    video_receive video_record_rate new_video_app
one_process = refl

process_never_pops_example : Longer some_video after_process
process_never_pops_example =
    process_never_pops some_env some_net some_video after_process 50000 [] true one_process

abbrev some_arrivals : List (ℕ × ℕ × List ℕ)
some_arrivals = (5000, 1, 1 ∷ []) ∷ (5200, 1, 2 ∷ []) ∷ (5300, 1, []) ∷ []

abbrev segments_codec : Codec
segments_codec = record some_codec {
  decode_header = λ bytes. some (23, 1234);
  decode_segment = λ bytes. some some_segment;
}

run_receiver-Ends_example :
    Ends (run_receiver segments_codec (new_mininet_receiver 60000) some_arrivals)
run_receiver-Ends_example = run_receiver-Ends segments_codec 60000 some_arrivals
