-- ===== src/Quic/Faults.antt =====
-- About the datagrams that Process of MyQuicSender (my_quic_sender.cc) gets.
use stupid_simple.Base.{
  ℕ, suc, ◌+◌, ◌/◌, ◌<◌, ◌≡◌, ◌⊎◌, inl, inr, refl, ltb, leb, ◌==◌, not, ◌&&◌, Bool, if◌then◌else◌,
  Bool-cases, none, some, ◌>>=◌, List, length, leb→le, not-leb, take, drop, arith,
}
use stupid_simple.Header.{read_sequence_number_length}
use stupid_simple.Quic.Receiver.{first_byte}
use stupid_simple.Quic.Sending.{SendLib, open_datagram}
use stupid_simple.Quic.Sender.{
  MyQuicSender, sender_on_incoming_data, quic_sender_record_rate, on_callbacks,
}
use stupid_simple.Quic.Sender.Process.{
  send_retransmission, send_stop_waiting_frame, send_if_allowed, quic_sender_process,
}
use stupid_simple.Quic.Retransmission.{IsPending, retransmission_loop_ends}

module _ {S D : Type 0} (lib : SendLib S D) where
  -- Bytes that OnIncomingData copies past its buffer, or reads past their end.
  abbrev pub Overruns : List ℕ → Type 0
  Overruns bytes =
      (lib.k_max_packet_size < length bytes)
      ⊎ (length bytes < 1 + read_sequence_number_length lib.types (first_byte bytes / 16))

  open_datagram-cases :
      (bytes : List ℕ)
      → (Overruns bytes × (open_datagram lib bytes ≡ none))
        ⊎ ((¬ Overruns bytes) × (rest : List ℕ) × (open_datagram lib bytes ≡ some rest))
  unfolding open_datagram
  open_datagram-cases bytes =
      let header_len = 1 + read_sequence_number_length lib.types (first_byte bytes / 16) in
      elim (Bool-cases (leb (length bytes) lib.k_max_packet_size)) [
        | inr long ↦ inl (inl (not-leb (length bytes) lib.k_max_packet_size long), rw long refl)
        | inl fits ↦ elim (Bool-cases (leb header_len (length bytes))) [
          | inr short ↦ inl (inr (not-leb header_len (length bytes) short), rw fits (rw short refl))
          | inl whole ↦
              let small = leb→le (length bytes) lib.k_max_packet_size fits in
              let enough = leb→le header_len (length bytes) whole in
              inr (
                (λ over. elim over [ inl a ↦ omega (arith, a) | inr b ↦ omega (arith, b) ]),
                drop header_len bytes,
                rw fits (rw whole refl),
              )
        ]
      ]

  module _ (clock : ℕ → ℕ) (pending : S → List ℕ) (law : IsPending lib pending) where
    resends :
        (s : MyQuicSender S)
        → (fuel : ℕ) × (t : MyQuicSender S) × (send_retransmission lib clock fuel s ≡ some t)
    unfolding send_retransmission
    resends s =
        let begun : MyQuicSender S = record s { reads = s.reads + 1 } in
        let fuel = suc (length (pending s.sent_packet_manager)) in
        let (t, e) =
          retransmission_loop_ends lib pending law clock fuel (clock s.reads) begun (omega arith) in
        (fuel, t, e)

    -- What Process does behind the loop.
    ends : (now : ℕ) → MyQuicSender S → MyQuicSender S → Bool × MyQuicSender S
    ends now received resent =
        let waited =
          if ltb 2 resent.stop_waiting_count
          then send_stop_waiting_frame lib clock resent
          else resent in
        (
          not (not (received.stop == 0) && ltb received.stop now),
          quic_sender_record_rate lib clock waited now,
        )

    -- What follows a received datagram returns, with enough rounds of the loop.
    finishes :
        (s : MyQuicSender S) (f : MyQuicSender S → Bool × MyQuicSender S)
        → (fuel : ℕ) × (r : Bool × MyQuicSender S) × ((send_retransmission lib clock fuel s >>= λ t.
              some (f t))
            ≡ some r)
    finishes s f = let (fuel, t, e) = resends s in (fuel, f t, rw e refl)

    -- Where the manager is as IsPending says, Process of MyQuicSender faults, however many
    -- rounds its loop may take, where RecvFrom returned a datagram that is longer than
    -- kMaxPacketSize or ends in its header, and with no datagram or any other one it returns
    -- once its loop may take enough rounds.
    pub sender_process-cases :
        (s : MyQuicSender S) (datagram : List ℕ)
        → ((0 < length datagram)
            × Overruns (take 1500 datagram)
            × ((fuel : ℕ) → quic_sender_process lib clock fuel s datagram ≡ none))
          ⊎ ((¬ ((0 < length datagram) × Overruns (take 1500 datagram)))
              × (fuel : ℕ) × (r : Bool × MyQuicSender S) × (quic_sender_process lib clock fuel s
                    datagram
                  ≡ some r))
    unfolding quic_sender_process sender_on_incoming_data ends
    sender_process-cases s datagram =
        let went = send_if_allowed lib clock (record s { reads = s.reads + 1 }) (clock s.reads) in
        elim (Bool-cases (leb (length datagram) 0)) [
          | inl nothing ↦
              let (fuel, r, e) = finishes went (ends (clock s.reads) went) in
              inr (
                (λ over. omega (arith, over.0, leb→le (length datagram) 0 nothing)),
                fuel,
                r,
                rw nothing e,
              )
          | inr something ↦ elim (open_datagram-cases (take 1500 datagram)) [
            | inl (over, fault) ↦ inl (
              not-leb (length datagram) 0 something,
              over,
              (λ fuel. rw something (rw fault refl)),
            )
            | inr (fits, rest, opened) ↦
                let begun : MyQuicSender S = record went {
                  time_of_last_received_packet = clock went.reads;
                  reads = went.reads + 1;
                } in
                let received =
                  on_callbacks lib clock begun (lib.process_frame_data (clock went.reads) rest) in
                let (fuel, r, e) = finishes received (ends (clock s.reads) received) in
                inr ((λ over. fits over.1), fuel, r, rw something (rw opened e))
          ]
        ]
