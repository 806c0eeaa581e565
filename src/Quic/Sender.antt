-- ===== src/Quic/Sender.antt =====
-- MyQuicSender (my_quic_sender.{h,cc}): its state, and what it does with acknowledgements. `none` is a
-- fault of OnIncomingData.
pub mod Process
use stupid_simple.Base.{
  ℕ, zero, suc, ◌+◌, ◌%◌, ◌^◌, ltb, leb, ◌==◌, not, ◌&&◌, Bool, true, false, if◌then◌else◌, Option,
  none, some, List, [], ◌∷◌, ◌++◌, length, take, ◌>>=◌,
}
use stupid_simple.Base.Int.{ℤ, pos, sub_ℕ, add_ℤ}
use stupid_simple.Header.{get_min_seq_length}
use stupid_simple.Bbr.Env.{from_milliseconds, to_milliseconds}
use stupid_simple.Bbr.App.Sender.{log_line}
use stupid_simple.Bbr.App.Receiver.{to_uint64}
use stupid_simple.Quic.Sending.{
  Pending, not_retransmission, loss_retransmission, Callback, ack_frame_start, ack_range, SendLib,
  open_datagram, timed_packet, timed_payload, stop_waiting_packet,
}

-- `f_rate` is the file, where it is open, `sent` the datagrams of SendTo, and `reads` counts the
-- calls of clock_.Now(). next_ is never used.
pub record MyQuicSender (S : Type 0) : Type 0 where
  pub sent_packet_manager : S
  pub time_of_last_received_packet : ℕ
  pub seq : ℕ
  pub counter : ℕ
  pub stop : ℕ
  pub stop_waiting_count : ℕ
  pub largest_acked : ℕ
  pub last_output : ℕ
  pub ref_time : ℕ
  pub enable_log : Bool
  pub f_rate : Option (List (ℤ × ℕ))
  pub offset : ℤ
  pub sent : List (List ℕ)
  pub reads : ℕ

-- An int64_t stored into an int32_t.
unfoldable pub to_int32 : ℤ → ℤ
to_int32 x =
    let low = to_uint64 x % 2 ^ 32 in if ltb low (2 ^ 31) then pos low else sub_ℕ low (2 ^ 32)

module _ {S D : Type 0} (lib : SendLib S D) (clock : ℕ → ℕ) where
  -- The constructor, which reads the clock once.
  unfoldable pub new_quic_sender : MyQuicSender S
  new_quic_sender = record {
    sent_packet_manager = lib.new_manager;
    time_of_last_received_packet = clock 0;
    seq = 1;
    counter = 0;
    stop = 0;
    stop_waiting_count = 0;
    largest_acked = 1;
    last_output = 0;
    ref_time = 0;
    enable_log = false;
    f_rate = none;
    offset = pos 0;
    sent = [];
    reads = 1;
  }

  -- set_duration
  unfoldable pub quic_set_duration : MyQuicSender S → ℕ → MyQuicSender S
  quic_set_duration s ms = record s {
    stop = clock s.reads + from_milliseconds ms;
    reads = s.reads + 1;
  }

  -- EnableRateRecord, which opens the file.
  unfoldable pub quic_enable_rate_record : MyQuicSender S → MyQuicSender S
  quic_enable_rate_record s = record s { enable_log = true; f_rate = some [] }

  -- RecordRate
  unfoldable pub quic_sender_record_rate : MyQuicSender S → ℕ → MyQuicSender S
  unfolding to_int32 log_line
  quic_sender_record_rate s now =
      let later = now + from_milliseconds 100 in
      if not s.enable_log
      then s
      else (if s.last_output == 0
          then record s { ref_time = now; last_output = later }
          else (if ltb s.last_output now
              then record s {
                f_rate =
                    log_line s.f_rate
                      (to_int32 (add_ℤ (to_milliseconds (sub_ℕ now s.ref_time)) s.offset))
                      (lib.bandwidth_kbps s.sent_packet_manager);
                last_output = later;
              }
              else s))

  -- PostProcessAfterAckFrame
  unfoldable pub post_process_after_ack_frame : MyQuicSender S → Bool → MyQuicSender S
  post_process_after_ack_frame s send_stop_waiting = record s {
    stop_waiting_count = if send_stop_waiting then s.stop_waiting_count + 1 else 0;
  }

  -- OnAckFrameStart
  unfoldable pub on_ack_frame_start : MyQuicSender S → (largest ack_delay : ℕ) → MyQuicSender S
  on_ack_frame_start s largest ack_delay = record s {
    sent_packet_manager =
        lib.on_ack_frame_start s.sent_packet_manager largest ack_delay
          s.time_of_last_received_packet;
    largest_acked = if leb s.largest_acked largest then largest else s.largest_acked;
  }

  -- OnAckRange
  unfoldable pub on_ack_range : MyQuicSender S → (start end : ℕ) → Bool → MyQuicSender S
  unfolding post_process_after_ack_frame
  on_ack_range s start end last_range =
      let ranged = lib.on_ack_range s.sent_packet_manager start end in
      let (_, ended) = lib.on_ack_frame_end ranged s.time_of_last_received_packet in
      if not last_range
      then record s { sent_packet_manager = ranged }
      else post_process_after_ack_frame (record s { sent_packet_manager = ended })
          (ltb start (lib.get_least_unacked ended))

  unfoldable pub on_callback : MyQuicSender S → Callback → MyQuicSender S
  unfolding on_ack_frame_start on_ack_range
  on_callback s (ack_frame_start largest ack_delay) = on_ack_frame_start s largest ack_delay
  on_callback s (ack_range start end last_range) = on_ack_range s start end last_range

  unfoldable pub on_callbacks : MyQuicSender S → List Callback → MyQuicSender S
  unfolding on_callback
  on_callbacks s [] = s
  on_callbacks s (c ∷ calls) = on_callbacks (on_callback s c) calls

  -- OnIncomingData
  unfoldable pub sender_on_incoming_data : MyQuicSender S → List ℕ → Option (MyQuicSender S)
  unfolding open_datagram on_callbacks
  sender_on_incoming_data s bytes =
      let now = clock s.reads in
      open_datagram lib bytes >>= λ rest. some (
        on_callbacks (record s { time_of_last_received_packet = now; reads = s.reads + 1 })
          (lib.process_frame_data now rest))
