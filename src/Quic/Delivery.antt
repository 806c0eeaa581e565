-- ===== src/Quic/Delivery.antt =====
-- The datagrams between the senders of quic-test/myquic and MyQuicReceiver: what a peer makes of them.
use stupid_simple.Base.{
  ℕ, ◌*◌, ◌/◌, ◌^◌, ◌≤◌, ◌<◌, ◌≡◌, ◌≢◌, ◌∙◌, ap, refl, ◌==◌, true, false, List, [], ◌++◌, length,
  arith, take, take_all, length-append, append_nil,
}
use stupid_simple.Header.{
  get_min_seq_length, quic_header, read_sequence_number_length, read_quic_header, read_number,
  get_packet_number_flags, read_byte,
}
use stupid_simple.Header.RoundTrip.{
  read-quic_header, read_length-flags, min_length_fits, public_flags_shift,
}
use stupid_simple.Quic.{QuicLib}
use stupid_simple.Quic.Receiver.{MyQuicReceiver, first_byte}
use stupid_simple.Quic.Receiver.Process.{quic_on_incoming_data, on_stream_frame}
use stupid_simple.Quic.Sending.{SendLib, stop_waiting_packet}
use stupid_simple.Quic.Video.Safety.{IsSendLib, length-quic_header, min_length_bound}

-- Both ends are built with the same QUIC library, and a packet fits what RecvFrom takes.
pub record IsPeer {R A S D : Type 0} (q : QuicLib R A) (l : SendLib S D) : Type 0 where
  pub types : q.types ≡ l.types
  pub wire : q.wire ≡ l.wire
  pub stream : q.stream_frame ≡ l.stream_frame
  pub stop_waiting : q.stop_waiting_frame ≡ l.stop_waiting_frame
  pub apart : l.stream_frame ≢ l.stop_waiting_frame
  pub known : IsSendLib l
  pub fits : l.k_max_packet_size ≤ 1500
  pub same_size : q.k_max_packet_size ≡ l.k_max_packet_size
  -- The framer writes into the room that it is given.
  pub bounded : (frame : A) (approx room : ℕ) → length (q.append_ack_frame frame approx room) ≤ room

module _ {R A S D : Type 0} (q : QuicLib R A) (l : SendLib S D) (peer : IsPeer q l) where
  pub read_front :
      (type seq : ℕ) (rest : List ℕ)
      → seq < 2 ^ 48
      → read_quic_header q.types q.wire (quic_header l.types l.wire type seq ++ rest)
        ≡ (type, seq, rest)
  read_front type seq rest h = rw (peer.types) (
      rw (peer.wire) (
        read-quic_header l.types l.wire type seq rest peer.known.types peer.known.wire
          (rw (peer.known.six) h)))

  -- The length of the packet's number, as the receiver reads it from the first byte.
  front_length :
      (type seq : ℕ) (rest : List ℕ)
      → read_sequence_number_length q.types
          (first_byte (quic_header l.types l.wire type seq ++ rest) / 16)
        ≡ get_min_seq_length l.types seq
  unfolding quic_header read_byte
  front_length type seq rest =
      let flags = get_packet_number_flags l.types (get_min_seq_length l.types seq) in
      let half : flags * 16 / 16 ≡ flags = omega arith in
      rw (peer.types) (
        rw (public_flags_shift l.types (get_min_seq_length l.types seq) peer.known.types)
          (rw half (read_length-flags l.types seq peer.known.types)))

  pub incoming_stream :
      (clock : ℕ → ℕ) (r : MyQuicReceiver R) (bytes : List ℕ) (seq : ℕ) (rest : List ℕ)
      → read_quic_header q.types q.wire bytes ≡ (l.stream_frame, seq, rest)
      → quic_on_incoming_data q clock r bytes ≡ on_stream_frame q clock r (length bytes) seq rest
  unfolding quic_on_incoming_data
  incoming_stream clock r bytes seq rest front =
      let is_stream : (l.stream_frame == q.stream_frame) ≡ true = ground (arith, peer.stream) in
      let no_stop : (l.stream_frame == q.stop_waiting_frame) ≡ false =
        ground (arith, peer.stop_waiting, peer.apart) in
      rw front (rw is_stream (rw no_stop refl))

  incoming_stop :
      (clock : ℕ → ℕ) (r : MyQuicReceiver R) (bytes : List ℕ) (seq unack_seq : ℕ)
      (rest after : List ℕ)
      → read_quic_header q.types q.wire bytes ≡ (l.stop_waiting_frame, seq, rest)
      → read_number q.wire (read_sequence_number_length q.types (first_byte bytes / 16)) rest
        ≡ (unack_seq, after)
      → quic_on_incoming_data q clock r bytes ≡ record r {
        recv_packet_manager = q.dont_wait_for_packets_before r.recv_packet_manager unack_seq;
      }
  unfolding quic_on_incoming_data
  incoming_stop clock r bytes seq unack_seq rest after front least =
      let no_stream : (l.stop_waiting_frame == q.stream_frame) ≡ false =
        ground (arith, peer.stream, peer.apart) in
      let is_stop : (l.stop_waiting_frame == q.stop_waiting_frame) ≡ true =
        ground (arith, peer.stop_waiting) in
      rw front (rw no_stream (rw is_stop (rw least refl)))

  read_least :
      (seq unack_seq : ℕ)
      → seq < 2 ^ 48
      → unack_seq ≤ seq
      → let seq_len = get_min_seq_length l.types seq in
        read_number q.wire seq_len (l.wire.write_uint seq_len unack_seq) ≡ (unack_seq, [])
  unfolding read_number
  read_least seq unack_seq small le =
      let seq_len = get_min_seq_length l.types seq in
      let fits = min_length_fits l.types seq (rw (peer.known.six) small) in
      let back = peer.known.wire.reads_back seq_len unack_seq [] (omega (arith, fits, le)) in
      rw (peer.wire)
        (rw (← append_nil (l.wire.write_uint seq_len unack_seq)) (rw (back, read_number) refl))

  -- Where both ends are as IsPeer says, the datagram of SendStopWaitingFrame, with a number
  -- below 2^48 and a least unacknowledged packet that is not above it, makes MyQuicReceiver
  -- tell its manager not to wait for packets before that one, and do nothing else.
  pub stop_waiting-reaches_receiver :
      (clock : ℕ → ℕ) (r : MyQuicReceiver R) (seq unack_seq : ℕ)
      → seq < 2 ^ 48
      → unack_seq ≤ seq
      → quic_on_incoming_data q clock r (take 1500 (stop_waiting_packet l seq unack_seq))
        ≡ record r {
          recv_packet_manager = q.dont_wait_for_packets_before r.recv_packet_manager unack_seq;
        }
  unfolding stop_waiting_packet
  stop_waiting-reaches_receiver clock r seq unack_seq small le =
      let front = quic_header l.types l.wire l.stop_waiting_frame seq in
      let seq_len = get_min_seq_length l.types seq in
      let number = l.wire.write_uint seq_len unack_seq in
      let short : length (front ++ number) ≤ 1500 = omega (
        arith,
        length-append front number,
        length-quic_header l peer.known l.stop_waiting_frame seq,
        peer.known.wire.length_written seq_len unack_seq,
        min_length_bound l peer.known seq,
      ) in
      ap (quic_on_incoming_data q clock r) (take_all 1500 (front ++ number) short)
      ∙ incoming_stop clock r (front ++ number) seq unack_seq number []
          (read_front l.stop_waiting_frame seq number small)
          (rw (front_length l.stop_waiting_frame seq number) (read_least seq unack_seq small le))
