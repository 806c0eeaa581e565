-- ===== src/Quic/Receiver/Process.antt =====
-- What MyQuicReceiver (my_quic_receiver.cc) makes of a datagram, and its Process.
use stupid_simple.Base.{
  ℕ, ◌+◌, ◌-◌, ◌/◌, ◌%◌, ◌^◌, ltb, leb, ◌==◌, not, ◌||◌, Bool, false, if◌then◌else◌, none, List,
  length, take,
}
use stupid_simple.Header.{read_quic_header, read_number, read_sequence_number_length}
use stupid_simple.Bbr.Env.{from_milliseconds}
use stupid_simple.Quic.{QuicLib}
use stupid_simple.Quic.Receiver.{
  MyQuicReceiver, alarm_is_expired, first_byte, maybe_send_ack, quic_record_loss,
  quic_record_losses, quic_record_rate, quic_send_ack, record_oneway_delay, tick,
}

module _ {R A : Type 0} (lib : QuicLib R A) (clock : ℕ → ℕ) where
  -- What OnIncomingData notes of a stream frame before it counts it.
  unfoldable pub note_packet : MyQuicReceiver R → (seq now : ℕ) → MyQuicReceiver R
  unfolding quic_record_losses
  note_packet s seq now =
      let expected = (s.base_seq + 1) % 2 ^ 64 in
      let managed = record s {
        recv_packet_manager = lib.record_packet_received s.recv_packet_manager seq now;
      } in
      if leb expected seq
      then record (quic_record_losses lib clock (seq - expected) expected managed) {
        base_seq = seq;
      }
      else managed

  -- The branch of OnIncomingData for a stream frame of a datagram of `len` bytes.
  unfoldable pub on_stream_frame : MyQuicReceiver R → (len seq : ℕ) → List ℕ → MyQuicReceiver R
  on_stream_frame s len seq rest =
      let now = clock s.reads in
      let (sent_ts, _) = read_number lib.wire 4 rest in
      let owd = (now / 1000 % 2 ^ 32 + (2 ^ 32 - sent_ts % 2 ^ 32)) % 2 ^ 32 in
      let noted = note_packet (record_oneway_delay (tick s) seq owd) seq now in
      let counted =
        quic_record_rate
          (record noted {
            num_packets_received_since_last_ack_sent =
                (noted.num_packets_received_since_last_ack_sent + 1) % 2 ^ 64;
            received = (noted.received + 1) % 2 ^ 64;
            recv_byte = (noted.recv_byte + len) % 2 ^ 64;
          })
          now in
      let acked = maybe_send_ack lib clock counted in
      if lib.ack_frame_updated counted.recv_packet_manager then acked else counted

  -- OnIncomingData. The number of a stop-waiting frame is as long as that of the packet, and is
  -- taken to be 0 where it cannot be read, when the source leaves its variable unset.
  unfoldable pub quic_on_incoming_data : MyQuicReceiver R → List ℕ → MyQuicReceiver R
  quic_on_incoming_data s bytes =
      let (type, seq, rest) = read_quic_header lib.types lib.wire bytes in
      let streamed =
        if type == lib.stream_frame then on_stream_frame s (length bytes) seq rest else s in
      let seq_len = read_sequence_number_length lib.types (first_byte bytes / 16) in
      let (least_unack, _) = read_number lib.wire seq_len rest in
      if type == lib.stop_waiting_frame
      then record streamed {
        recv_packet_manager =
            lib.dont_wait_for_packets_before streamed.recv_packet_manager least_unack;
      }
      else streamed

  -- What Process sets when the first datagram comes.
  unfoldable pub begin_session : MyQuicReceiver R → (now remote : ℕ) → MyQuicReceiver R
  begin_session s now remote =
      let timed = if s.ref_time == 0 then record s { ref_time = now } else s in
      if timed.first
      then record timed {
        peer = remote;
        first = false;
        stop = now + from_milliseconds timed.duration;
      }
      else timed

  -- `if(ack_alarm_.IsExpired(clock_.Now())) SendAck();`
  unfoldable pub check_alarm : MyQuicReceiver R → MyQuicReceiver R
  unfolding alarm_is_expired quic_send_ack
  check_alarm s =
      let (expired, deadline) = alarm_is_expired s.ack_alarm (clock s.reads) in
      let checked = record (tick s) { ack_alarm = deadline } in
      if expired then quic_send_ack lib clock checked else checked

  -- Process, with the datagram that RecvFrom returns (empty: none).
  unfoldable pub quic_process : MyQuicReceiver R → (remote : ℕ) → List ℕ → Bool × MyQuicReceiver R
  unfolding begin_session quic_on_incoming_data check_alarm
  quic_process s remote datagram =
      let now = clock s.reads in
      let received =
        if leb (length datagram) 0
        then tick s
        else quic_on_incoming_data (begin_session (tick s) now remote) (take 1500 datagram) in
      (received.first || not (ltb received.stop now), check_alarm received)

  -- The destructor, which notes the last number in the loss record.
  unfoldable pub close_quic_receiver : MyQuicReceiver R → MyQuicReceiver R
  unfolding quic_record_loss
  close_quic_receiver s =
      let noted = quic_record_loss lib clock s s.base_seq in
      record noted { f_loss = none; f_rate = none; f_owd = none }
