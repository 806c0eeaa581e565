-- ===== src/Quic/Steps.antt =====
-- What MyQuicReceiver (my_quic_receiver.cc) does between two looks at its acknowledgement timer.
use stupid_simple.Base.{
  ℕ, zero, suc, ◌+◌, ◌-◌, ◌%◌, ◌^◌, ◌≤◌, ◌≡◌, refl, ◌∙◌, inl, inr, Bool-cases, Option-cases, leb,
  ltb, ◌==◌, arith,
}
use stupid_simple.Quic.{QuicLib}
use stupid_simple.Quic.Receiver.{
  MyQuicReceiver, quic_record_loss, quic_record_losses, record_oneway_delay, quic_record_rate,
}
use stupid_simple.Quic.Receiver.Process.{note_packet, begin_session}

module _ {R A : Type 0} (lib : QuicLib R A) (clock : ℕ → ℕ) where
  -- The acknowledgement timer is as before, and the clock may have been read.
  abbrev pub SameTimer : MyQuicReceiver R → MyQuicReceiver R → Type 0
  SameTimer s t =
      (t.num_packets_received_since_last_ack_sent ≡ s.num_packets_received_since_last_ack_sent)
      × (t.ack_alarm ≡ s.ack_alarm)
      × (t.recv_packet_manager ≡ s.recv_packet_manager)
      × (s.reads ≤ t.reads)

  loss-SameTimer : (s : MyQuicReceiver R) (i : ℕ) → SameTimer s (quic_record_loss lib clock s i)
  unfolding quic_record_loss
  loss-SameTimer s i = elim (Option-cases s.f_loss) [
    | inl shut ↦ rw (shut, quic_record_loss) (refl, refl, refl, omega arith)
    | inr (lines, opened) ↦ rw (opened, quic_record_loss) (refl, refl, refl, omega arith)
  ]

  losses-SameTimer :
      (n i : ℕ) (s : MyQuicReceiver R) → SameTimer s (quic_record_losses lib clock n i s)
  unfolding quic_record_losses
  losses-SameTimer zero i s = (refl, refl, refl, omega arith)
  losses-SameTimer (suc n) i s =
      let one = loss-SameTimer s i in
      let rest = losses-SameTimer n (i + 1) (quic_record_loss lib clock s i) in
      (rest.0 ∙ one.0, rest.1 ∙ one.1, rest.2 ∙ one.2, omega (arith, one.3, rest.3))

  pub delay-SameTimer :
      (s : MyQuicReceiver R) (seq owd : ℕ) → SameTimer s (record_oneway_delay s seq owd)
  unfolding record_oneway_delay
  delay-SameTimer s seq owd = elim (Option-cases s.f_owd) [
    | inl shut ↦ rw (shut, record_oneway_delay) (refl, refl, refl, omega arith)
    | inr (lines, opened) ↦ rw (opened, record_oneway_delay) (refl, refl, refl, omega arith)
  ]

  pub rate-SameTimer : (s : MyQuicReceiver R) (now : ℕ) → SameTimer s (quic_record_rate s now)
  unfolding quic_record_rate
  rate-SameTimer s now = elim (Option-cases s.f_rate) [
    | inl shut ↦ rw (shut, quic_record_rate) (refl, refl, refl, omega arith)
    | inr (lines, opened) ↦ elim (Bool-cases (s.next_output == 0)) [
      | inl fresh ↦ rw (opened, fresh, quic_record_rate) (refl, refl, refl, omega arith)
      | inr later ↦ elim (Bool-cases (ltb s.next_output now)) [
        | inl due ↦ rw (opened, later, due, quic_record_rate) (refl, refl, refl, omega arith)
        | inr early ↦ rw (opened, later, early, quic_record_rate) (refl, refl, refl, omega arith)
      ]
    ]
  ]

  -- What note_packet leaves: the manager has the packet.
  pub note_packet_keeps :
      (s : MyQuicReceiver R) (seq now : ℕ)
      → SameTimer
          (record s {
            recv_packet_manager = lib.record_packet_received s.recv_packet_manager seq now;
          })
          (note_packet lib clock s seq now)
  unfolding note_packet
  note_packet_keeps s seq now =
      let expected = (s.base_seq + 1) % 2 ^ 64 in
      elim (Bool-cases (leb expected seq)) [
        | inl ahead ↦ rw ahead (
            losses-SameTimer (seq - expected) expected (record s {
              recv_packet_manager = lib.record_packet_received s.recv_packet_manager seq now;
            }))
        | inr old ↦ rw old (refl, refl, refl, omega arith)
      ]

  pub begin-SameTimer :
      (s : MyQuicReceiver R) (now remote : ℕ) → SameTimer s (begin_session lib clock s now remote)
  unfolding begin_session
  begin-SameTimer s now remote = elim (Bool-cases (s.ref_time == 0)) [
    | inl begins ↦ elim (Bool-cases s.first) [
      | inl f ↦ rw begins (rw f (refl, refl, refl, omega arith))
      | inr later ↦ rw begins (rw later (refl, refl, refl, omega arith))
    ]
    | inr going ↦ elim (Bool-cases s.first) [
      | inl f ↦ rw going (rw f (refl, refl, refl, omega arith))
      | inr later ↦ rw going (rw later (refl, refl, refl, omega arith))
    ]
  ]
