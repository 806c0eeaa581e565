-- ===== src/Quic/Answers.antt =====
-- The acknowledgements of MyQuicReceiver (my_quic_receiver.cc), as MyQuicSender (my_quic_sender.cc)
-- opens them.
use stupid_simple.Base.{
  ℕ, suc, ◌+◌, ◌*◌, ◌/◌, ◌≤◌, ◌≡◌, ap, refl, true, some, List, [], ◌∷◌, ◌++◌, length, arith, drop,
  length-append, leb, le→leb, ◌-◌, ◌∙◌, take, take_all,
}
use stupid_simple.Header.{
  get_min_seq_length, public_flags, get_packet_number_flags, read_byte, Wire,
}
use stupid_simple.Header.RoundTrip.{read_length-flags, public_flags_shift}
use stupid_simple.Quic.{QuicLib}
use stupid_simple.Quic.Receiver.{MyQuicReceiver, quic_send_ack}
use stupid_simple.Quic.Sender.{MyQuicSender, sender_on_incoming_data, on_callbacks}
use stupid_simple.Quic.Sending.{SendLib, open_datagram}
use stupid_simple.Quic.Video.Safety.{min_length_bound}
use stupid_simple.Quic.Delivery.{IsPeer}

drop_front : (xs ys : List ℕ) → drop (length xs) (xs ++ ys) ≡ ys
drop_front [] ys = refl
drop_front (x ∷ xs) ys = drop_front xs ys

module _ {R A : Type 0} (q : QuicLib R A) where
  -- What the framer writes into the datagram of SendAck, and the datagram.
  abbrev pub answer : (ℕ → ℕ) → MyQuicReceiver R → List ℕ
  answer clock r =
      let seq_len = get_min_seq_length q.types r.seq in
      q.append_ack_frame (q.get_updated_ack_frame r.recv_packet_manager (clock r.reads)).0
        (clock r.reads) (q.k_max_packet_size - (1 + seq_len))

  abbrev pub answer_packet : (ℕ → ℕ) → MyQuicReceiver R → List ℕ
  answer_packet clock r =
      let seq_len = get_min_seq_length q.types r.seq in
      public_flags q.types seq_len ∷ (q.wire.write_uint seq_len r.seq ++ answer clock r)

module _ {R A S D : Type 0} (q : QuicLib R A) (l : SendLib S D) (peer : IsPeer q l) where
  -- A datagram with the header of a number is opened behind it.
  opened :
      (seq : ℕ) (rest : List ℕ)
      → let seq_len = get_min_seq_length l.types seq in
        1 + seq_len + length rest ≤ l.k_max_packet_size
        → open_datagram l (public_flags l.types seq_len ∷ (l.wire.write_uint seq_len seq ++ rest))
          ≡ some rest
  unfolding open_datagram read_byte
  opened seq rest room =
      let seq_len = get_min_seq_length l.types seq in
      let number = l.wire.write_uint seq_len seq in
      let written = peer.known.wire.length_written seq_len seq in
      let flags = get_packet_number_flags l.types seq_len in
      let half : flags * 16 / 16 ≡ flags = omega arith in
      let fits : leb (suc (length (number ++ rest))) l.k_max_packet_size ≡ true =
        le→leb (suc (length (number ++ rest))) l.k_max_packet_size
          (omega (arith, length-append number rest, written, room)) in
      let behind : leb (1 + seq_len) (suc (length (number ++ rest))) ≡ true =
        le→leb (1 + seq_len) (suc (length (number ++ rest)))
          (omega (arith, length-append number rest, written)) in
      let next : 1 + seq_len ≡ suc (length number) = omega (arith, written) in
      rw (public_flags_shift l.types seq_len peer.known.types) (
        rw half (
          rw (read_length-flags l.types seq peer.known.types)
            (rw fits (rw behind (rw next (ap some (drop_front number rest)))))))

  answer_opened :
      (clock : ℕ → ℕ) (r : MyQuicReceiver R)
      → (open_datagram l (answer_packet q clock r) ≡ some (answer q clock r))
        × (length (answer_packet q clock r) ≤ 1500)
  answer_opened clock r =
      let seq_len = get_min_seq_length l.types r.seq in
      let bound = min_length_bound l peer.known r.seq in
      let types = ap (λ t. get_min_seq_length t r.seq) peer.types in
      let room =
        peer.bounded (q.get_updated_ack_frame r.recv_packet_manager (clock r.reads)).0
          (clock r.reads) (q.k_max_packet_size - (1 + get_min_seq_length q.types r.seq)) in
      let small : 1 + seq_len + length (answer q clock r) ≤ l.k_max_packet_size =
        omega (arith, room, types, bound, peer.same_size, peer.known.long) in
      let front : answer_packet q clock r
          ≡ public_flags l.types seq_len ∷ (l.wire.write_uint seq_len r.seq ++ answer q clock r) =
        ap
          (λ t.
            public_flags t (get_min_seq_length t r.seq)
            ∷ (q.wire.write_uint (get_min_seq_length t r.seq) r.seq ++ answer q clock r))
          peer.types
        ∙ ap
            (λ (w : Wire).
              public_flags l.types seq_len ∷ (w.write_uint seq_len r.seq ++ answer q clock r))
            peer.wire in
      (
        ap (open_datagram l) front ∙ opened r.seq (answer q clock r) small,
        omega (
          arith,
          ap length front,
          length-append (l.wire.write_uint seq_len r.seq) (answer q clock r),
          peer.known.wire.length_written seq_len r.seq,
          small,
          peer.fits,
        ),
      )

  -- Where both ends are as IsPeer says, SendAck of MyQuicReceiver sends its peer one datagram,
  -- and MyQuicSender that gets it hands the framer exactly the bytes that the framer wrote for
  -- the acknowledgement, and makes the calls of its visitor that the framer makes of them.
  pub answer-reaches_sender :
      (clock : ℕ → ℕ) (r : MyQuicReceiver R) (own_clock : ℕ → ℕ) (s : MyQuicSender S)
      → ((quic_send_ack q clock r).sent ≡ r.sent ++ ((r.peer, answer_packet q clock r) ∷ []))
        × (sender_on_incoming_data l own_clock s (take 1500 (answer_packet q clock r))
            ≡ some (
                on_callbacks l own_clock
                  (record s {
                    time_of_last_received_packet = own_clock s.reads;
                    reads = s.reads + 1;
                  })
                  (l.process_frame_data (own_clock s.reads) (answer q clock r))))
  unfolding quic_send_ack sender_on_incoming_data
  answer-reaches_sender clock r own_clock s =
      let (opens, short) = answer_opened clock r in
      (
        refl,
        ap (sender_on_incoming_data l own_clock s) (take_all 1500 (answer_packet q clock r) short)
            ∙ (unfold sender_on_incoming_data in rw opens refl),
      )
