-- ===== src/Quic/AckTimer.antt =====
-- About the acknowledgement timer of MyQuicReceiver (my_quic_receiver.cc).
use stupid_simple.Base.{
  ℕ, ap, ◌+◌, ◌-◌, ◌/◌, ◌%◌, ◌^◌, ◌≤◌, ◌<◌, ◌≡◌, refl, ◌∙◌, ◌⊎◌, inl, inr, Bool-cases, leb, ltb,
  ◌==◌, ◌&&◌, true, false, List, [], ◌∷◌, length, arith, take, Option,
}
use stupid_simple.Header.{read_number, read_quic_header}
use stupid_simple.Quic.{QuicLib}
use stupid_simple.Quic.Receiver.{
  MyQuicReceiver, tick, quic_send_ack, maybe_send_ack, record_oneway_delay, quic_record_rate,
  alarm_is_set, alarm_is_expired, new_quic_receiver,
}
use stupid_simple.Quic.Receiver.Process.{
  note_packet, on_stream_frame, quic_on_incoming_data, begin_session, check_alarm, quic_process,
}
use stupid_simple.Quic.Steps.{
  SameTimer, delay-SameTimer, rate-SameTimer, note_packet_keeps, begin-SameTimer,
}

module _ {R A : Type 0} (lib : QuicLib R A) (clock : ℕ → ℕ) where
  -- Calls of Process, each with a sender and a datagram.
  unfoldable pub run_process : MyQuicReceiver R → List (ℕ × List ℕ) → MyQuicReceiver R
  run_process s [] = s
  run_process s ((remote, datagram) ∷ rest) =
      run_process (quic_process lib clock s remote datagram).1 rest

  -- Fewer than ten packets wait, and where some do, the alarm is set, at most 25 ms ahead.
  abbrev Timed : MyQuicReceiver R → Type 0
  Timed s =
      (s.num_packets_received_since_last_ack_sent < 10)
      × ((s.num_packets_received_since_last_ack_sent ≡ 0) ⊎ (0 < s.ack_alarm))
      × (s.ack_alarm ≤ clock s.reads + 25000)

  -- Fewer than ten packets wait for an acknowledgement, and where some do, the alarm is set, was not
  -- due at the last reading of the clock, and is within 25 ms of the next.
  abbrev pub Owed : MyQuicReceiver R → Type 0
  Owed s =
      (s.num_packets_received_since_last_ack_sent < 10)
      × ((s.num_packets_received_since_last_ack_sent ≡ 0)
          ⊎ ((clock (s.reads - 1) < s.ack_alarm) × (s.ack_alarm ≤ clock s.reads + 25000)))

  module _ (mono : (m n : ℕ) → m ≤ n → clock m ≤ clock n) where
    send-Timed :
        (s : MyQuicReceiver R)
        → s.ack_alarm ≤ clock s.reads + 25000
        → Timed (quic_send_ack lib clock s)
    unfolding quic_send_ack
    send-Timed s near =
        let next = mono s.reads (s.reads + 1) (omega arith) in
        (omega arith, inl refl, omega (arith, near, next))

    set-Timed :
        (s : MyQuicReceiver R)
        → s.num_packets_received_since_last_ack_sent < 10
        → Timed (record s { ack_alarm = clock s.reads + 25000; reads = s.reads + 1 })
    set-Timed s few =
        let next = mono s.reads (s.reads + 1) (omega arith) in
        (few, inr (omega arith), omega (arith, next))

    maybe-Timed :
        (s : MyQuicReceiver R)
        → s.num_packets_received_since_last_ack_sent < 11
        → s.ack_alarm ≤ clock s.reads + 25000
        → Timed (maybe_send_ack lib clock s)
    unfolding maybe_send_ack alarm_is_set
    maybe-Timed s few near = elim (Bool-cases (ltb s.received 100)) [
      | inl start ↦ rw start (send-Timed s near)
      | inr going ↦ elim (Bool-cases (leb 10 s.num_packets_received_since_last_ack_sent)) [
        | inl many ↦ rw going (rw many (send-Timed s near))
        | inr short ↦
            let fewer : s.num_packets_received_since_last_ack_sent < 10 = ground (arith, short) in
            elim (Bool-cases (ltb 0 s.ack_alarm)) [
              | inl set ↦ rw going (rw short (rw set (fewer, inr (ground (arith, set)), near)))
              | inr unset ↦ rw going (rw short (rw unset (set-Timed s fewer)))
            ]
      ]
    ]

    -- A state with the timer of a timed one.
    kept-Timed : (s t : MyQuicReceiver R) → SameTimer lib clock s t → Timed s → Timed t
    kept-Timed s t same timed =
        let later = mono s.reads t.reads same.3 in
        rw (same.0) (rw (same.1) (timed.0, timed.1, omega (arith, timed.2, later)))

    not_due :
        (alarm reads : ℕ)
        → (ltb 0 alarm && leb alarm (clock reads)) ≡ false
        → 0 < alarm
        → clock (reads + 1 - 1) < alarm
    not_due alarm reads early set = ground (arith, early, set)

    check-Timed :
        (s : MyQuicReceiver R)
        → Timed s
        → Timed (check_alarm lib clock s) × Owed (check_alarm lib clock s)
    unfolding check_alarm alarm_is_expired alarm_is_set
    check-Timed s timed = elim (Bool-cases (ltb 0 s.ack_alarm && leb s.ack_alarm (clock s.reads))) [
      | inl due ↦
          rw due
            (send-Timed (record (tick s) { ack_alarm = 0 }) (omega arith), (omega arith, inl refl))
      | inr early ↦
          let kept = kept-Timed s (tick s) (refl, refl, refl, omega arith) timed in
          rw early (
            kept,
            (
              timed.0,
              elim (timed.1) [
                | inl none ↦ inl none
                | inr set ↦ inr (not_due s.ack_alarm s.reads early set, kept.2)
              ],
            ),
          )
    ]

    -- The packet is counted, and the alarm is not moved.
    abbrev Counted : MyQuicReceiver R → MyQuicReceiver R → Type 0
    Counted s t =
        (t.num_packets_received_since_last_ack_sent
          ≡ (s.num_packets_received_since_last_ack_sent + 1) % 2 ^ 64)
        × (t.ack_alarm ≡ s.ack_alarm)
        × (s.reads ≤ t.reads)

    Counted-Timed :
        (s t : MyQuicReceiver R) → Timed s → Counted s t → Timed (maybe_send_ack lib clock t)
    Counted-Timed s t timed c =
        let later = mono s.reads t.reads c.2 in
        maybe-Timed t (omega (arith, c.0, timed.0)) (omega (arith, c.1, timed.2, later))

    module _
        (updates : (r : R) (seq now : ℕ)
          → lib.ack_frame_updated (lib.record_packet_received r seq now) ≡ true) where
      stream-Timed :
          (s : MyQuicReceiver R) (len seq : ℕ) (rest : List ℕ)
          → Timed s
          → Timed (on_stream_frame lib clock s len seq rest)
      unfolding on_stream_frame
      stream-Timed s len seq rest timed =
          let now = clock s.reads in
          let (sent_ts, _) = read_number lib.wire 4 rest in
          let owd = (now / 1000 % 2 ^ 32 + (2 ^ 32 - sent_ts % 2 ^ 32)) % 2 ^ 32 in
          let base = record_oneway_delay (tick s) seq owd in
          let noted = note_packet lib clock base seq now in
          let tallied : MyQuicReceiver R = record noted {
            num_packets_received_since_last_ack_sent =
                (noted.num_packets_received_since_last_ack_sent + 1) % 2 ^ 64;
            received = (noted.received + 1) % 2 ^ 64;
            recv_byte = (noted.recv_byte + len) % 2 ^ 64;
          } in
          let counted = quic_record_rate tallied now in
          let one = delay-SameTimer lib clock (tick s) seq owd in
          let two = note_packet_keeps lib clock base seq now in
          let three = rate-SameTimer lib clock tallied now in
          let fresh : lib.ack_frame_updated counted.recv_packet_manager ≡ true =
            rw (three.2) (rw (two.2) (updates base.recv_packet_manager seq now)) in
          let same : noted.num_packets_received_since_last_ack_sent
              ≡ s.num_packets_received_since_last_ack_sent =
            two.0 ∙ one.0 in
          rw fresh (
            Counted-Timed s counted timed (
              three.0 ∙ ap (λ n. (n + 1) % 2 ^ 64) same,
              three.1 ∙ two.1 ∙ one.1,
              omega (arith, one.3, two.3, three.3),
            ))

      incoming-Timed :
          (s : MyQuicReceiver R) (bytes : List ℕ)
          → Timed s
          → Timed (quic_on_incoming_data lib clock s bytes)
      unfolding quic_on_incoming_data
      incoming-Timed s bytes timed =
          let (type, seq, rest) = read_quic_header lib.types lib.wire bytes in
          let streamed = stream-Timed s (length bytes) seq rest timed in
          elim (Bool-cases (type == lib.stream_frame)) [
            | inl stream ↦ elim (Bool-cases (type == lib.stop_waiting_frame)) [
              | inl stop ↦ rw stream (rw stop streamed)
              | inr other ↦ rw stream (rw other streamed)
            ]
            | inr none ↦ elim (Bool-cases (type == lib.stop_waiting_frame)) [
              | inl stop ↦ rw none (rw stop timed)
              | inr other ↦ rw none (rw other timed)
            ]
          ]

      process-Timed :
          (s : MyQuicReceiver R) (remote : ℕ) (datagram : List ℕ)
          → Timed s
          → Timed (quic_process lib clock s remote datagram).1
            × Owed (quic_process lib clock s remote datagram).1
      unfolding quic_process
      process-Timed s remote datagram timed =
          let now = clock s.reads in
          let ticked = kept-Timed s (tick s) (refl, refl, refl, omega arith) timed in
          elim (Bool-cases (leb (length datagram) 0)) [
            | inl nothing ↦ rw nothing (check-Timed (tick s) ticked)
            | inr something ↦
                let begun = begin_session lib clock (tick s) now remote in
                let ready =
                  kept-Timed (tick s) begun (begin-SameTimer lib clock (tick s) now remote)
                    ticked in
                rw something (
                  check-Timed (quic_on_incoming_data lib clock begun (take 1500 datagram))
                    (incoming-Timed begun (take 1500 datagram) ready))
          ]

      run-Timed :
          (s : MyQuicReceiver R) (datagrams : List (ℕ × List ℕ))
          → Timed s × Owed s
          → Owed (run_process s datagrams)
      unfolding run_process
      run-Timed s [] timed = timed.1
      run-Timed s ((remote, datagram) ∷ rest) timed =
          run-Timed (quic_process lib clock s remote datagram).1 rest
            (process-Timed s remote datagram (timed.0))

      -- Where the clock does not go back and the received packet manager has an updated
      -- acknowledgement frame after each packet, then after any calls of Process, whatever
      -- the datagrams, fewer than ten packets of a new receiver wait for an
      -- acknowledgement; where some do, the alarm is set, was not due when Process looked
      -- at it, and is due at most 25 ms after the next reading of the clock.
      pub run_process-Owed :
          (duration : ℕ) (loss rate owd : Option (List (ℕ × ℕ))) (datagrams : List (ℕ × List ℕ))
          → Owed (run_process (new_quic_receiver lib duration loss rate owd) datagrams)
      unfolding new_quic_receiver
      run_process-Owed duration loss rate owd datagrams =
          run-Timed (new_quic_receiver lib duration loss rate owd) datagrams
            ((omega arith, inl refl, omega arith), (omega arith, inl refl))
