-- ===== src/Quic/Delays.antt =====
-- The one-way delays that MyQuicReceiver (my_quic_receiver.cc) records, and what the datagrams of the
-- senders make of them.
use stupid_simple.Base.{
  ℕ, zero, suc, ◌+◌, ◌-◌, ◌/◌, ◌%◌, ◌^◌, ◌≤◌, ◌<◌, ◌≡◌, ◌∙◌, ap, refl, inl, inr, ◌==◌, Bool-cases,
  Option-cases, some, List, [], ◌∷◌, ◌++◌, length, arith, take, take_all, replicate, length-append,
  length-replicate, append_assoc, leb, ltb,
}
use stupid_simple.Header.{quic_header, read_number}
use stupid_simple.Quic.{QuicLib}
use stupid_simple.Quic.Receiver.{
  MyQuicReceiver, tick, record_oneway_delay, quic_send_ack, quic_record_loss, quic_record_losses,
  quic_record_rate, maybe_send_ack, alarm_is_set,
}
use stupid_simple.Quic.Receiver.Process.{quic_on_incoming_data, on_stream_frame, note_packet}
use stupid_simple.Quic.Sending.{SendLib, timed_packet}
use stupid_simple.Quic.Video.Safety.{length-quic_header}
use stupid_simple.Quic.Delivery.{IsPeer, incoming_stream, read_front}

module _ {R A : Type 0} (lib : QuicLib R A) (clock : ℕ → ℕ) where
  loss_keeps : (s : MyQuicReceiver R) (i : ℕ) → (quic_record_loss lib clock s i).f_owd ≡ s.f_owd
  unfolding quic_record_loss
  loss_keeps s i = elim (Option-cases s.f_loss) [
    | inl shut ↦ rw (shut, quic_record_loss) refl
    | inr (lines, opened) ↦ rw (opened, quic_record_loss) refl
  ]

  losses_keep :
      (n i : ℕ) (s : MyQuicReceiver R) → (quic_record_losses lib clock n i s).f_owd ≡ s.f_owd
  unfolding quic_record_losses
  losses_keep zero i s = refl
  losses_keep (suc n) i s = losses_keep n (i + 1) (quic_record_loss lib clock s i) ∙ loss_keeps s i

  note_keeps :
      (s : MyQuicReceiver R) (seq now : ℕ) → (note_packet lib clock s seq now).f_owd ≡ s.f_owd
  unfolding note_packet
  note_keeps s seq now =
      let expected = (s.base_seq + 1) % 2 ^ 64 in
      elim (Bool-cases (leb expected seq)) [
        | inl ahead ↦ rw ahead (losses_keep (seq - expected) expected _)
        | inr old ↦ rw old refl
      ]

  rate_keeps : (s : MyQuicReceiver R) (now : ℕ) → (quic_record_rate s now).f_owd ≡ s.f_owd
  unfolding quic_record_rate
  rate_keeps s now = elim (Option-cases s.f_rate) [
    | inl shut ↦ rw (shut, quic_record_rate) refl
    | inr (lines, opened) ↦ elim (Bool-cases (s.next_output == 0)) [
      | inl first ↦ rw (opened, first, quic_record_rate) refl
      | inr later ↦ elim (Bool-cases (ltb s.next_output now)) [
        | inl due ↦ rw (opened, later, due, quic_record_rate) refl
        | inr early ↦ rw (opened, later, early, quic_record_rate) refl
      ]
    ]
  ]

  ack_keeps : (s : MyQuicReceiver R) → (maybe_send_ack lib clock s).f_owd ≡ s.f_owd
  unfolding maybe_send_ack quic_send_ack
  ack_keeps s = elim (Bool-cases (ltb s.received 100)) [
    | inl start ↦ rw start refl
    | inr going ↦ elim (Bool-cases (leb 10 s.num_packets_received_since_last_ack_sent)) [
      | inl many ↦ rw going (rw many refl)
      | inr few ↦ elim (Bool-cases (alarm_is_set s.ack_alarm)) [
        | inl set ↦ rw going (rw few (rw set refl))
        | inr unset ↦ rw going (rw few (rw unset refl))
      ]
    ]
  ]

  frame_keeps :
      (s : MyQuicReceiver R) (len seq : ℕ) (rest : List ℕ)
      → let sent_ts = (read_number lib.wire 4 rest).0 in
        let owd = (clock s.reads / 1000 % 2 ^ 32 + (2 ^ 32 - sent_ts % 2 ^ 32)) % 2 ^ 32 in
        (on_stream_frame lib clock s len seq rest).f_owd
        ≡ (record_oneway_delay (tick s) seq owd).f_owd
  unfolding on_stream_frame
  frame_keeps s len seq rest =
      let now = clock s.reads in
      let sent_ts = (read_number lib.wire 4 rest).0 in
      let owd = (now / 1000 % 2 ^ 32 + (2 ^ 32 - sent_ts % 2 ^ 32)) % 2 ^ 32 in
      let base = record_oneway_delay (tick s) seq owd in
      let noted = note_packet lib clock base seq now in
      let tallied : MyQuicReceiver R = record noted {
        num_packets_received_since_last_ack_sent =
            (noted.num_packets_received_since_last_ack_sent + 1) % 2 ^ 64;
        received = (noted.received + 1) % 2 ^ 64;
        recv_byte = (noted.recv_byte + len) % 2 ^ 64;
      } in
      let counted = quic_record_rate tallied now in
      let kept = rate_keeps tallied now ∙ note_keeps base seq now in
      elim (Bool-cases (lib.ack_frame_updated counted.recv_packet_manager)) [
        | inl fresh ↦ rw fresh (ack_keeps counted ∙ kept)
        | inr stale ↦ rw stale kept
      ]

  delay_line :
      (s : MyQuicReceiver R) (seq owd : ℕ) (lines : List (ℕ × ℕ))
      → s.f_owd ≡ some lines
      → (record_oneway_delay (tick s) seq owd).f_owd ≡ some (lines ++ ((seq, owd) ∷ []))
  unfolding record_oneway_delay
  delay_line s seq owd lines opened = rw (opened, record_oneway_delay) refl

  -- A stream frame leaves one line, with the delay modulo 2^32 in milliseconds.
  stream_delay :
      (s : MyQuicReceiver R) (len seq sent_ts : ℕ) (rest after : List ℕ) (lines : List (ℕ × ℕ))
      → s.f_owd ≡ some lines
      → read_number lib.wire 4 rest ≡ (sent_ts, after)
      → (on_stream_frame lib clock s len seq rest).f_owd
        ≡ some (
            lines
            ++ ((seq, (clock s.reads / 1000 % 2 ^ 32 + (2 ^ 32 - sent_ts % 2 ^ 32)) % 2 ^ 32) ∷ []))
  stream_delay s len seq sent_ts rest after lines opened stamp =
      let owd = λ (ts : ℕ). (clock s.reads / 1000 % 2 ^ 32 + (2 ^ 32 - ts % 2 ^ 32)) % 2 ^ 32 in
      let read = ap (λ (r : ℕ × List ℕ). r.0) stamp in
      frame_keeps s len seq rest
      ∙ ap (λ ts. (record_oneway_delay (tick s) seq (owd ts)).f_owd) read
      ∙ delay_line s seq (owd sent_ts) lines opened

module _ {R A S D : Type 0} (q : QuicLib R A) (l : SendLib S D) (peer : IsPeer q l) where
  -- The time of a datagram of MyQuicSender comes behind the header.
  read_time :
      (now : ℕ) (zeros : List ℕ)
      → read_number q.wire 4 (l.wire.write_uint 4 (now / 1000 % 2 ^ 32) ++ zeros)
        ≡ (now / 1000 % 2 ^ 32, zeros)
  unfolding read_number
  read_time now zeros =
      let back = peer.known.wire.reads_back 4 (now / 1000 % 2 ^ 32) zeros (omega arith) in
      rw (peer.wire) (rw (back, read_number) refl)

  delay_of :
      (sent_ms recv_ms : ℕ)
      → sent_ms ≤ recv_ms
      → recv_ms < sent_ms + 2 ^ 32
      → (recv_ms % 2 ^ 32 + (2 ^ 32 - sent_ms % 2 ^ 32 % 2 ^ 32)) % 2 ^ 32 ≡ recv_ms - sent_ms
  delay_of sent_ms recv_ms le near = omega arith

  div_mono : (a b : ℕ) → a ≤ b → a / 1000 ≤ b / 1000
  div_mono a b le = omega arith

  -- Where both ends are as IsPeer says, a data packet of MyQuicSender with a number below 2^48
  -- that MyQuicReceiver gets no earlier than it was sent and less than 2^32 ms later adds one
  -- line to the delay file, with its number and the difference of the two clock readings in
  -- whole milliseconds.
  pub delay-recorded :
      (clock : ℕ → ℕ) (r : MyQuicReceiver R) (seq sent_at : ℕ) (lines : List (ℕ × ℕ))
      → seq < 2 ^ 48
      → r.f_owd ≡ some lines
      → sent_at ≤ clock r.reads
      → clock r.reads / 1000 < sent_at / 1000 + 2 ^ 32
      → (quic_on_incoming_data q clock r (take 1500 (timed_packet l seq sent_at))).f_owd
        ≡ some (lines ++ ((seq, clock r.reads / 1000 - sent_at / 1000) ∷ []))
  unfolding timed_packet
  delay-recorded clock r seq sent_at lines small opened le near =
      let front = quic_header l.types l.wire l.stream_frame seq in
      let stamp = l.wire.write_uint 4 (sent_at / 1000 % 2 ^ 32) in
      let room = l.k_max_packet_size - length (front ++ stamp) in
      let zeros : List ℕ = replicate room 0 in
      let padded : length zeros ≡ room = length-replicate room 0 in
      let short : length ((front ++ stamp) ++ zeros) ≤ 1500 = omega (
        arith,
        length-append (front ++ stamp) zeros,
        length-append front stamp,
        length-quic_header l peer.known l.stream_frame seq,
        peer.known.wire.length_written 4 (sent_at / 1000 % 2 ^ 32),
        padded,
        peer.known.long,
        peer.fits,
      ) in
      let whole =
        take_all 1500 ((front ++ stamp) ++ zeros) short ∙ append_assoc front stamp zeros in
      let owd =
        delay_of (sent_at / 1000) (clock r.reads / 1000) (div_mono sent_at (clock r.reads) le)
          near in
      ap (λ bytes. (quic_on_incoming_data q clock r bytes).f_owd) whole
      ∙ ap (λ (t : MyQuicReceiver R). t.f_owd)
          (incoming_stream q l peer clock r (front ++ (stamp ++ zeros)) seq (stamp ++ zeros)
            (read_front q l peer l.stream_frame seq (stamp ++ zeros) small))
      ∙ stream_delay q clock r (length (front ++ (stamp ++ zeros))) seq (sent_at / 1000 % 2 ^ 32)
          (stamp ++ zeros) zeros lines opened (read_time sent_at zeros)
      ∙ ap (λ d. some (lines ++ ((seq, d) ∷ []))) owd
