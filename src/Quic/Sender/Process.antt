-- ===== src/Quic/Sender/Process.antt =====
-- What MyQuicSender (my_quic_sender.cc) sends, and its Process. `none` is a fault, or the loop running
-- on when its fuel is used up.
use stupid_simple.Base.{
  ℕ, zero, suc, ◌+◌, ◌%◌, ◌^◌, ltb, leb, ◌==◌, not, ◌&&◌, Bool, true, if◌then◌else◌, Option, none,
  some, List, [], ◌∷◌, ◌++◌, length, take, ◌>>=◌,
}
use stupid_simple.Header.{get_min_seq_length}
use stupid_simple.Quic.Sending.{
  Pending, not_retransmission, loss_retransmission, SendLib, timed_packet, timed_payload,
  stop_waiting_packet,
}
use stupid_simple.Quic.Sender.{MyQuicSender, quic_sender_record_rate, sender_on_incoming_data}

module _ {S D : Type 0} (lib : SendLib S D) (clock : ℕ → ℕ) where
  -- OnPacketSent
  unfoldable pub sender_on_packet_sent : MyQuicSender S → (number len size : ℕ) → MyQuicSender S
  sender_on_packet_sent s number len size = record s {
    sent_packet_manager = lib.on_packet_sent s.sent_packet_manager (record {
      packet_number = number;
      packet_number_length = len;
      encrypted_length = size;
      retransmittable_frames = lib.new_stream_frame ∷ [];
      original_packet_number = 0;
      sent_time = clock s.reads;
      transmission_type = not_retransmission;
      has_retransmittable_data = true;
    });
    reads = s.reads + 1;
  }

  -- SendFakePacket
  unfoldable pub quic_send_fake_packet : MyQuicSender S → MyQuicSender S
  unfolding sender_on_packet_sent timed_packet timed_payload
  quic_send_fake_packet s =
      let went : MyQuicSender S = record s {
        sent = s.sent ++ (timed_packet lib s.seq (clock s.reads) ∷ []);
        reads = s.reads + 1;
      } in
      let told =
        sender_on_packet_sent went s.seq (get_min_seq_length lib.types s.seq)
          (timed_payload lib s.seq) in
      record told { seq = (s.seq + 1) % 2 ^ 32 }

  -- OnRetransPacket
  unfoldable pub on_retrans_packet : MyQuicSender S → Pending D → MyQuicSender S
  unfolding timed_packet timed_payload
  on_retrans_packet s pending =
      let now = clock s.reads in
      record s {
        sent = s.sent ++ (timed_packet lib s.seq now ∷ []);
        sent_packet_manager = lib.on_packet_sent s.sent_packet_manager (record {
          packet_number = s.seq;
          packet_number_length = get_min_seq_length lib.types s.seq;
          encrypted_length = timed_payload lib s.seq;
          retransmittable_frames = pending.retransmittable_frames;
          original_packet_number = pending.packet_number;
          sent_time = now;
          transmission_type = loss_retransmission;
          has_retransmittable_data = true;
        });
        seq = (s.seq + 1) % 2 ^ 32;
        reads = s.reads + 1;
      }

  -- The loop of SendRetransmission, at the time `now`.
  unfoldable pub retransmission_loop : ℕ → (now : ℕ) → MyQuicSender S → Option (MyQuicSender S)
  unfolding on_retrans_packet
  retransmission_loop zero now s = none
  retransmission_loop (suc fuel) now s =
      let (delay, manager) = lib.time_until_send s.sent_packet_manager now in
      let asked : MyQuicSender S = record s { sent_packet_manager = manager } in
      let rest =
        retransmission_loop fuel now
          (on_retrans_packet asked (lib.next_pending_retransmission manager)) in
      if delay == 0 && lib.has_pending_retransmissions manager then rest else some asked

  -- SendRetransmission
  unfoldable pub send_retransmission : ℕ → MyQuicSender S → Option (MyQuicSender S)
  unfolding retransmission_loop
  send_retransmission fuel s =
      retransmission_loop fuel (clock s.reads) (record s { reads = s.reads + 1 })

  -- SendStopWaitingFrame
  unfoldable pub send_stop_waiting_frame : MyQuicSender S → MyQuicSender S
  unfolding stop_waiting_packet
  send_stop_waiting_frame s = record s {
    stop_waiting_count = 0;
    sent =
        s.sent
        ++ (stop_waiting_packet lib s.seq (lib.get_least_unacked s.sent_packet_manager) ∷ []);
  }

  -- The first part of Process: a packet goes out where the pacer lets it.
  unfoldable pub send_if_allowed : MyQuicSender S → (now : ℕ) → MyQuicSender S
  unfolding quic_send_fake_packet
  send_if_allowed s now =
      let (delay, manager) = lib.time_until_send s.sent_packet_manager now in
      let asked : MyQuicSender S = record s { sent_packet_manager = manager } in
      if delay == 0
      then record (quic_send_fake_packet asked) { counter = (s.counter + 1) % 2 ^ 32 }
      else asked

  -- Process, with the datagram that RecvFrom returns (empty: none).
  unfoldable pub quic_sender_process : ℕ → MyQuicSender S → List ℕ → Option (Bool × MyQuicSender S)
  unfolding send_if_allowed sender_on_incoming_data send_retransmission send_stop_waiting_frame
  quic_sender_process fuel s datagram = do
    let now = clock s.reads
    let went = send_if_allowed (record s { reads = s.reads + 1 }) now
    received ←
        if leb (length datagram) 0
        then some went
        else sender_on_incoming_data lib clock went (take 1500 datagram)
    retransmitted ← send_retransmission fuel received
    let waited =
        if ltb 2 retransmitted.stop_waiting_count
        then send_stop_waiting_frame retransmitted
        else retransmitted
    some (
      not (not (received.stop == 0) && ltb received.stop now),
      quic_sender_record_rate lib clock waited now,
    )
