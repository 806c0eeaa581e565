-- ===== src/Quic/Video/Process.antt =====
-- MyQuicVideoSender (my_quic_video_sender.cc): what it does with acknowledgements, its retransmission
-- loop, and Process. `none` is a fault, or the loop running on when its fuel is used up.
use stupid_simple.Base.{
  ℕ, zero, suc, ◌+◌, ◌-◌, ◌*◌, ◌/◌, ltb, leb, ◌==◌, not, ◌&&◌, Bool, if◌then◌else◌, Option, none,
  some, List, [], ◌∷◌, ◌++◌, length, take, ◌>>=◌, erase, true, false,
}
use stupid_simple.Base.Int.{sub_ℕ}
use stupid_simple.Bbr.Env.{from_milliseconds, to_milliseconds}
use stupid_simple.Bbr.App.Sender.{log_line}
use stupid_simple.Frames.{get_frame, updata_rate, frame_split, max_split_number, max_video_size}
use stupid_simple.Quic.Sending.{Callback, ack_frame_start, ack_range, SendLib, open_datagram}
use stupid_simple.Quic.Video.{
  MyQuicVideoSender, quic_send_data_or_padding, video_on_retrans_packet,
  video_send_stop_waiting_frame,
}

module _ {S : Type 0} where
  -- RemoveAckedPacket
  unfoldable pub remove_acked_packet : MyQuicVideoSender S → ℕ → MyQuicVideoSender S
  remove_acked_packet s seq = record s { sent_queue = erase seq s.sent_queue }

  -- The loop of OnAckRange over `n` numbers, from `i` on.
  unfoldable pub remove_acked_packets : ℕ → ℕ → MyQuicVideoSender S → MyQuicVideoSender S
  unfolding remove_acked_packet
  remove_acked_packets zero i s = s
  remove_acked_packets (suc n) i s = remove_acked_packets n (i + 1) (remove_acked_packet s i)

  -- PostProcessAfterAckFrame
  unfoldable pub video_post_process_after_ack_frame :
      MyQuicVideoSender S → Bool → MyQuicVideoSender S
  video_post_process_after_ack_frame s send_stop_waiting = record s {
    stop_waiting_count = if send_stop_waiting then s.stop_waiting_count + 1 else 0;
  }

  -- The frame of Process: GetFrame, the assert, FrameSplit, and the loop that queues the sizes.
  unfoldable pub quic_take_frame : MyQuicVideoSender S → ℕ → Option (MyQuicVideoSender S)
  quic_take_frame s now =
      let (frame_len, source) = get_frame s.source now in
      if ltb 0 frame_len
      then (if ltb (frame_len / max_video_size) max_split_number
          then (frame_split frame_len >>= λ splits.
              some (record s { source = source; pending_queue = s.pending_queue ++ splits }))
          else none)
      else some (record s { source = source })

module _ {S D : Type 0} (lib : SendLib S D) (clock : ℕ → ℕ) where
  -- set_duration
  unfoldable pub quic_video_set_duration : MyQuicVideoSender S → ℕ → MyQuicVideoSender S
  quic_video_set_duration s ms = record s {
    stop = clock s.reads + from_milliseconds ms;
    reads = s.reads + 1;
  }

  -- RecordRate
  unfoldable pub quic_video_record_rate : MyQuicVideoSender S → ℕ → MyQuicVideoSender S
  unfolding log_line
  quic_video_record_rate s now =
      let later = now + from_milliseconds 100 in
      if not s.enable_log
      then s
      else (if s.last_output == 0
          then record s { ref_time = now; last_output = later }
          else (if ltb s.last_output now
              then record s {
                f_rate =
                    log_line s.f_rate (to_milliseconds (sub_ℕ now s.ref_time))
                      (lib.bandwidth_kbps s.sent_packet_manager);
                last_output = later;
              }
              else s))

  -- UpdateSourceRate, with rate_updata_gap_ of 200 ms.
  unfoldable pub update_source_rate : MyQuicVideoSender S → ℕ → MyQuicVideoSender S
  update_source_rate s now =
      let later = now + from_milliseconds 200 in
      if s.next_rate_update == 0
      then record s { next_rate_update = later }
      else (if ltb s.next_rate_update now
          then record s {
            source = updata_rate s.source (lib.bandwidth_kbps s.sent_packet_manager * 1000);
            next_rate_update = later;
          }
          else s)

  -- OnAckFrameStart
  unfoldable pub video_on_ack_frame_start :
      MyQuicVideoSender S → (largest ack_delay : ℕ) → MyQuicVideoSender S
  video_on_ack_frame_start s largest ack_delay = record s {
    sent_packet_manager =
        lib.on_ack_frame_start s.sent_packet_manager largest ack_delay
          s.time_of_last_received_packet;
    largest_acked = if leb s.largest_acked largest then largest else s.largest_acked;
  }

  -- OnAckRange
  unfoldable pub video_on_ack_range :
      MyQuicVideoSender S → (start end : ℕ) → Bool → MyQuicVideoSender S
  unfolding remove_acked_packets video_post_process_after_ack_frame
  video_on_ack_range s start end last_range =
      let ranged = lib.on_ack_range s.sent_packet_manager start end in
      let (_, ended) = lib.on_ack_frame_end ranged s.time_of_last_received_packet in
      let removed =
        remove_acked_packets (end - start) start (record s { sent_packet_manager = ranged }) in
      if not last_range
      then removed
      else video_post_process_after_ack_frame (record removed { sent_packet_manager = ended })
          (ltb start (lib.get_least_unacked ended))

  unfoldable pub video_on_callback : MyQuicVideoSender S → Callback → MyQuicVideoSender S
  unfolding video_on_ack_frame_start video_on_ack_range
  video_on_callback s (ack_frame_start largest ack_delay) =
      video_on_ack_frame_start s largest ack_delay
  video_on_callback s (ack_range start end last_range) = video_on_ack_range s start end last_range

  unfoldable pub video_on_callbacks : MyQuicVideoSender S → List Callback → MyQuicVideoSender S
  unfolding video_on_callback
  video_on_callbacks s [] = s
  video_on_callbacks s (c ∷ calls) = video_on_callbacks (video_on_callback s c) calls

  -- OnIncomingData
  unfoldable pub video_on_incoming_data :
      MyQuicVideoSender S → List ℕ → Option (MyQuicVideoSender S)
  unfolding open_datagram video_on_callbacks
  video_on_incoming_data s bytes =
      let now = clock s.reads in
      open_datagram lib bytes >>= λ rest. some (
        video_on_callbacks (record s { time_of_last_received_packet = now; reads = s.reads + 1 })
          (lib.process_frame_data now rest))

  -- Up to `fuel` rounds of the loop of SendRetransmission, at the time `now`, and whether the loop is
  -- still running after them. A fault is `none`.
  unfoldable pub video_retransmission_rounds :
      ℕ → (now : ℕ) → MyQuicVideoSender S → Option (Bool × MyQuicVideoSender S)
  unfolding video_on_retrans_packet
  video_retransmission_rounds zero now s = some (true, s)
  video_retransmission_rounds (suc fuel) now s =
      let (delay, manager) = lib.time_until_send s.sent_packet_manager now in
      let asked : MyQuicVideoSender S = record s { sent_packet_manager = manager } in
      let rest =
        video_on_retrans_packet lib clock asked (lib.next_pending_retransmission manager)
        >>= λ again. video_retransmission_rounds fuel now again in
      if delay == 0 && lib.has_pending_retransmissions manager then rest else some (false, asked)

  -- The loop, which has to end within `fuel` rounds.
  unfoldable pub video_retransmission_loop :
      ℕ → (now : ℕ) → MyQuicVideoSender S → Option (MyQuicVideoSender S)
  unfolding video_retransmission_rounds
  video_retransmission_loop fuel now s =
      video_retransmission_rounds fuel now s >>= λ r. if r.0 then none else some r.1

  -- SendRetransmission
  unfoldable pub video_send_retransmission : ℕ → MyQuicVideoSender S → Option (MyQuicVideoSender S)
  unfolding video_retransmission_loop
  video_send_retransmission fuel s =
      video_retransmission_loop fuel (clock s.reads) (record s { reads = s.reads + 1 })

  -- The second part of Process: data or padding goes out where the pacer lets it.
  unfoldable pub video_send_if_allowed :
      MyQuicVideoSender S → (now : ℕ) → Option (MyQuicVideoSender S)
  unfolding quic_send_data_or_padding
  video_send_if_allowed s now =
      let (delay, manager) = lib.time_until_send s.sent_packet_manager now in
      let asked : MyQuicVideoSender S = record s { sent_packet_manager = manager } in
      if delay == 0 then quic_send_data_or_padding lib clock asked else some asked

  -- Process up to the loop, with the datagram that RecvFrom returns (empty: none).
  unfoldable pub video_front : MyQuicVideoSender S → List ℕ → Option (MyQuicVideoSender S)
  unfolding quic_take_frame video_send_if_allowed video_on_incoming_data
      video_send_stop_waiting_frame
  video_front s datagram = do
    let now = clock s.reads
    framed ← quic_take_frame (record s { reads = s.reads + 1 }) now
    went ← video_send_if_allowed framed now
    received ←
        if leb (length datagram) 0
        then some went
        else video_on_incoming_data went (take 1500 datagram)
    some (
        if ltb 2 received.stop_waiting_count
        then video_send_stop_waiting_frame lib clock received
        else received)

  -- Process
  unfoldable pub quic_video_process :
      ℕ → MyQuicVideoSender S → List ℕ → Option (Bool × MyQuicVideoSender S)
  unfolding video_front video_send_retransmission update_source_rate quic_video_record_rate
  quic_video_process fuel s datagram = do
    let now = clock s.reads
    waited ← video_front s datagram
    again ← video_send_retransmission fuel waited
    some (
      not (not (waited.stop == 0) && ltb waited.stop now),
      quic_video_record_rate (update_source_rate again now) now,
    )
