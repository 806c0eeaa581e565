-- ===== src/Quic/Protocol/Timed.antt =====
-- About MyQuicSender (my_quic_sender.cc) and its manager.
use stupid_simple.Base.{
  ℕ, zero, suc, ◌+◌, ◌^◌, ◌≡◌, inl, inr, refl, ltb, leb, ◌==◌, Bool, true, false, if◌then◌else◌,
  Bool-cases, some, List, [], ◌∷◌, length, take, bind_some,
}
use stupid_simple.Quic.Sending.{SendLib, Callback, ack_frame_start, ack_range, open_datagram}
use stupid_simple.Quic.Sender.{
  MyQuicSender, sender_on_incoming_data, on_callback, on_callbacks, on_ack_range,
  on_ack_frame_start, post_process_after_ack_frame, quic_sender_record_rate, new_quic_sender,
}
use stupid_simple.Quic.Sender.Process.{
  sender_on_packet_sent, quic_send_fake_packet, on_retrans_packet, retransmission_loop,
  send_if_allowed, quic_sender_process, send_stop_waiting_frame, send_retransmission,
}
use stupid_simple.Quic.Protocol.{
  Manages, Managed, asked, sent_new, sent_again, ack_started, ack_ranged, ack_ended, fresh,
}

module _ {S D : Type 0} (lib : SendLib S D) (clock : ℕ → ℕ) where
  abbrev Keeps : MyQuicSender S → Type 0
  Keeps s = Managed lib (2 ^ 32) s.seq s.sent_packet_manager

  first_sent :
      (s : MyQuicSender S)
      → Manages lib (2 ^ 32) true s.seq s.sent_packet_manager
      → Keeps (quic_send_fake_packet lib clock s)
  unfolding quic_send_fake_packet sender_on_packet_sent
  first_sent s h = (
    false,
    sent_new s.seq s.sent_packet_manager _ h (record { number = refl; number_length = refl }) refl,
  )

  allowed-Keeps : (s : MyQuicSender S) (now : ℕ) → Keeps s → Keeps (send_if_allowed lib clock s now)
  unfolding send_if_allowed
  allowed-Keeps s now (b, h) =
      let (delay, manager) = lib.time_until_send s.sent_packet_manager now in
      let next = asked b s.seq now s.sent_packet_manager h in
      elim (Bool-cases (delay == 0)) [
        | inr early ↦ rw early (_, next)
        | inl ready ↦
            rw ready (first_sent (record s { sent_packet_manager = manager }) (rw ready at next))
      ]

  callback-Keeps : (s : MyQuicSender S) (c : Callback) → Keeps s → Keeps (on_callback lib clock s c)
  unfolding on_callback on_ack_frame_start on_ack_range post_process_after_ack_frame
  callback-Keeps s (ack_frame_start largest delay) (b, h) =
      (false, ack_started b s.seq largest delay s.time_of_last_received_packet _ h)
  callback-Keeps s (ack_range start end true) (b, h) = (
    false,
    ack_ended false s.seq s.time_of_last_received_packet _
        (ack_ranged b s.seq start end s.sent_packet_manager h),
  )
  callback-Keeps s (ack_range start end false) (b, h) =
      (false, ack_ranged b s.seq start end s.sent_packet_manager h)

  callbacks-Keeps :
      (s : MyQuicSender S) (calls : List Callback)
      → Keeps s
      → Keeps (on_callbacks lib clock s calls)
  unfolding on_callbacks
  callbacks-Keeps s [] h = h
  callbacks-Keeps s (c ∷ calls) h =
      callbacks-Keeps (on_callback lib clock s c) calls (callback-Keeps s c h)

  incoming-Keeps :
      (s t : MyQuicSender S) (bytes : List ℕ)
      → sender_on_incoming_data lib clock s bytes ≡ some t
      → Keeps s
      → Keeps t
  unfolding sender_on_incoming_data
  incoming-Keeps s t bytes e h =
      let (rest, opened, result) = bind_some (open_datagram lib bytes) _ t e in
      let begun : MyQuicSender S = record s {
        time_of_last_received_packet = clock s.reads;
        reads = s.reads + 1;
      } in
      let same : on_callbacks lib clock begun (lib.process_frame_data (clock s.reads) rest) ≡ t =
        cc in
      rw (← same) (callbacks-Keeps begun (lib.process_frame_data (clock s.reads) rest) h)

  loop-Keeps :
      (fuel now : ℕ) (s t : MyQuicSender S)
      → retransmission_loop lib clock fuel now s ≡ some t
      → Keeps s
      → Keeps t
  unfolding retransmission_loop on_retrans_packet
  loop-Keeps zero now s t e h = absurd cc
  loop-Keeps (suc fuel) now s t e (b, h) =
      let (delay, manager) = lib.time_until_send s.sent_packet_manager now in
      let ready : MyQuicSender S = record s { sent_packet_manager = manager } in
      let next = asked b s.seq now s.sent_packet_manager h in
      elim (Bool-cases (delay == 0)) [
        | inr early ↦ let same : ready ≡ t = cc (rw early at e) in rw (← same) (_, next)
        | inl allowed ↦ elim (Bool-cases (lib.has_pending_retransmissions manager)) [
          | inr over ↦ let same : ready ≡ t = cc (rw (allowed, over) at e) in rw (← same) (_, next)
          | inl more ↦
              loop-Keeps fuel now
                (on_retrans_packet lib clock ready (lib.next_pending_retransmission manager)) t
                (rw (allowed, more) at e)
                (
                  false,
                  sent_again s.seq manager _ (rw allowed at next)
                      (record { number = refl; number_length = refl }) refl more refl refl,
                )
        ]
      ]

  maybe_incoming-Keeps :
      (s t : MyQuicSender S) (bytes : List ℕ) (nothing : Bool)
      → (if nothing then some s else sender_on_incoming_data lib clock s bytes) ≡ some t
      → Keeps s
      → Keeps t
  maybe_incoming-Keeps s t bytes true e h = let same : s ≡ t = cc in rw (← same) h
  maybe_incoming-Keeps s t bytes false e h = incoming-Keeps s t bytes e h

  waited-Keeps :
      (s : MyQuicSender S) (due : Bool)
      → Keeps s
      → Keeps (if due then send_stop_waiting_frame lib clock s else s)
  unfolding send_stop_waiting_frame
  waited-Keeps s true h = h
  waited-Keeps s false h = h

  rate-Keeps :
      (s : MyQuicSender S) (now : ℕ) → Keeps s → Keeps (quic_sender_record_rate lib clock s now)
  unfolding quic_sender_record_rate
  rate-Keeps s now h = elim (Bool-cases s.enable_log) [
    | inr off ↦ rw off h
    | inl on ↦ elim (Bool-cases (s.last_output == 0)) [
      | inl first ↦ rw on (rw first h)
      | inr later ↦ elim (Bool-cases (ltb s.last_output now)) [
        | inl due ↦ rw on (rw later (rw due h))
        | inr early ↦ rw on (rw later (rw early h))
      ]
    ]
  ]

  process-Keeps :
      (fuel : ℕ) (s t : MyQuicSender S) (datagram : List ℕ) (goes_on : Bool)
      → quic_sender_process lib clock fuel s datagram ≡ some (goes_on, t)
      → Keeps s
      → Keeps t
  unfolding quic_sender_process send_retransmission
  process-Keeps fuel s t datagram goes_on e h =
      let now = clock s.reads in
      let begun : MyQuicSender S = record s { reads = s.reads + 1 } in
      let went = send_if_allowed lib clock begun now in
      let (received, got, rest) =
        bind_some
          (if leb (length datagram) 0
            then some went
            else sender_on_incoming_data lib clock went (take 1500 datagram))
          _ (goes_on, t) e in
      let (resent, looped, result) =
        bind_some (send_retransmission lib clock fuel received) _ (goes_on, t) rest in
      let waited =
        if ltb 2 resent.stop_waiting_count
        then send_stop_waiting_frame lib clock resent
        else resent in
      let same : quic_sender_record_rate lib clock waited now ≡ t = cc in
      let h1 =
        maybe_incoming-Keeps went received (take 1500 datagram) (leb (length datagram) 0) got
          (allowed-Keeps begun now h) in
      let h2 =
        loop-Keeps fuel (clock received.reads) (record received { reads = received.reads + 1 })
          resent looped h1 in
      rw (← same) (rate-Keeps waited now (waited-Keeps resent (ltb 2 resent.stop_waiting_count) h2))

  -- The states that calls of Process lead to from the constructor's, with datagrams of any content.
  pub data Reached : MyQuicSender S → Type 0 where
    begin : Reached (new_quic_sender lib clock)
    call :
        (fuel : ℕ) (s t : MyQuicSender S) (datagram : List ℕ) (goes_on : Bool)
        → Reached s
        → quic_sender_process lib clock fuel s datagram ≡ some (goes_on, t)
        → Reached t

  -- Whatever calls of Process of MyQuicSender return, from the constructor on and with
  -- datagrams of any content, it has used its QuicSentPacketManager as Manages says: packets
  -- are told to it one by one under the numbers from 1 on, in 32 bits, with the length that the
  -- header gives the number, each right after TimeUntilSend returned zero, and a packet is told
  -- to be sent again only where the manager offers it, with the number and the frames that it
  -- offers. seq_ is the number of the next one.
  pub timed_sender-Managed :
      (s : MyQuicSender S) → Reached s → Managed lib (2 ^ 32) s.seq s.sent_packet_manager
  unfolding new_quic_sender
  timed_sender-Managed s begin = (false, fresh)
  timed_sender-Managed t (call fuel s _ datagram goes_on before e) =
      process-Keeps fuel s t datagram goes_on e (timed_sender-Managed s before)
