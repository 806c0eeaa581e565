-- ===== src/Quic/Protocol/VideoRun.antt =====
-- About Process of MyQuicVideoSender (my_quic_video_sender.cc) and its manager.
use stupid_simple.Base.{
  ℕ, ◌+◌, ◌/◌, ◌^◌, ◌≡◌, inl, inr, refl, ltb, leb, ◌==◌, Bool, true, false, if◌then◌else◌,
  Bool-cases, some, List, ◌++◌, length, take, bind_some,
}
use mathlib.Core.Path.{subst}
use stupid_simple.Frames.{
  get_frame, frame_split, FakeVideoGenerator, max_split_number, max_video_size,
}
use stupid_simple.Quic.Sending.{SendLib}
use stupid_simple.Quic.Video.{
  MyQuicVideoSender, new_quic_video_sender, video_send_stop_waiting_frame,
}
use stupid_simple.Quic.Video.Process.{
  quic_take_frame, video_on_incoming_data, video_send_if_allowed, video_front,
  video_send_retransmission, update_source_rate, quic_video_record_rate, quic_video_process,
}
use stupid_simple.Quic.Protocol.{Managed, fresh, paced}
use stupid_simple.Quic.Protocol.Video.{Keeps, KeepsSome, allowed-Keeps, incoming-Keeps, loop-Keeps}

module _ {S D : Type 0} (lib : SendLib S D) (clock : ℕ → ℕ) where
  -- The frame that is taken is not the manager's.
  framed-same :
      (s t : MyQuicVideoSender S) (now : ℕ)
      → quic_take_frame s now ≡ some t
      → (t.seq ≡ s.seq) × (t.sent_packet_manager ≡ s.sent_packet_manager)
  unfolding quic_take_frame
  framed-same s t now e =
      let (frame_len, source) = get_frame s.source now in
      elim (Bool-cases (ltb 0 frame_len)) [
        | inr no_frame ↦
            let moved : MyQuicVideoSender S = record s { source = source } in
            let same : moved ≡ t = cc (rw no_frame at e) in rw (← same) (refl, refl)
        | inl frame ↦ elim (Bool-cases (ltb (frame_len / max_video_size) max_split_number)) [
          | inr asserted ↦ absurd (cc (rw (frame, asserted) at e))
          | inl small ↦
              let (splits, split, result) =
                bind_some (frame_split frame_len) _ t (rw (frame, small) at e) in
              let moved : MyQuicVideoSender S = record s {
                source = source;
                pending_queue = s.pending_queue ++ splits;
              } in
              let same : moved ≡ t = cc in rw (← same) (refl, refl)
        ]
      ]

  maybe_incoming-Keeps :
      (s t : MyQuicVideoSender S) (bytes : List ℕ) (nothing : Bool)
      → (if nothing then some s else video_on_incoming_data lib clock s bytes) ≡ some t
      → Keeps lib clock s
      → Keeps lib clock t
  maybe_incoming-Keeps s t bytes true e h = let same : s ≡ t = cc in rw (← same) h
  maybe_incoming-Keeps s t bytes false e h = incoming-Keeps lib clock s t bytes e h

  waited-Keeps :
      (s : MyQuicVideoSender S) (due : Bool)
      → Keeps lib clock s
      → Keeps lib clock (if due then video_send_stop_waiting_frame lib clock s else s)
  unfolding video_send_stop_waiting_frame
  waited-Keeps s true h = h
  waited-Keeps s false h = h

  front-Keeps :
      (s t : MyQuicVideoSender S) (datagram : List ℕ)
      → video_front lib clock s datagram ≡ some t
      → Keeps lib clock s
      → Keeps lib clock t
  unfolding video_front
  front-Keeps s t datagram e h =
      let now = clock s.reads in
      let begun : MyQuicVideoSender S = record s { reads = s.reads + 1 } in
      let (framed, taken, e1) = bind_some (quic_take_frame begun now) _ t e in
      let (went, sent, e2) = bind_some (video_send_if_allowed lib clock framed now) _ t e1 in
      let (received, got, result) =
        bind_some
          (if leb (length datagram) 0
            then some went
            else video_on_incoming_data lib clock went (take 1500 datagram))
          _ t e2 in
      let (q, m) = framed-same begun framed now taken in
      let h1 : Keeps lib clock framed = rw q (rw m h) in
      let h2 =
        maybe_incoming-Keeps went received (take 1500 datagram) (leb (length datagram) 0) got
          (allowed-Keeps lib clock framed went now sent h1) in
      subst (KeepsSome lib clock) result
        (waited-Keeps received (ltb 2 received.stop_waiting_count) h2)

  rate-Keeps :
      (s : MyQuicVideoSender S) (now : ℕ)
      → Keeps lib clock s
      → Keeps lib clock (quic_video_record_rate lib clock s now)
  unfolding quic_video_record_rate
  rate-Keeps s now h = elim (Bool-cases s.enable_log) [
    | inr off ↦ rw off h
    | inl on ↦ elim (Bool-cases (s.last_output == 0)) [
      | inl first ↦ rw on (rw first h)
      | inr later ↦ elim (Bool-cases (ltb s.last_output now)) [
        | inl due ↦ rw on (rw later (rw due h))
        | inr early ↦ rw on (rw later (rw early h))
      ]
    ]
  ]

  source_rate-Keeps :
      (s : MyQuicVideoSender S) (now : ℕ)
      → Keeps lib clock s
      → Keeps lib clock (update_source_rate lib clock s now)
  unfolding update_source_rate
  source_rate-Keeps s now h = elim (Bool-cases (s.next_rate_update == 0)) [
    | inl first ↦ rw first h
    | inr later ↦ elim (Bool-cases (ltb s.next_rate_update now)) [
      | inl due ↦ rw later (rw due h)
      | inr early ↦ rw later (rw early h)
    ]
  ]

  process-Keeps :
      (fuel : ℕ) (s t : MyQuicVideoSender S) (datagram : List ℕ) (goes_on : Bool)
      → quic_video_process lib clock fuel s datagram ≡ some (goes_on, t)
      → Keeps lib clock s
      → Keeps lib clock t
  unfolding quic_video_process video_send_retransmission
  process-Keeps fuel s t datagram goes_on e h =
      let now = clock s.reads in
      let (waited, front, e1) = bind_some (video_front lib clock s datagram) _ (goes_on, t) e in
      let (again, looped, result) =
        bind_some (video_send_retransmission lib clock fuel waited) _ (goes_on, t) e1 in
      let h1 =
        loop-Keeps lib clock fuel (clock waited.reads) (record waited { reads = waited.reads + 1 })
          again looped (front-Keeps s waited datagram front h) in
      let last = quic_video_record_rate lib clock (update_source_rate lib clock again now) now in
      let same : last ≡ t = cc in
      rw (← same)
        (rate-Keeps (update_source_rate lib clock again now) now (source_rate-Keeps again now h1))

  -- The states that calls of Process lead to from a new sender's, with datagrams of any content.
  pub data Reached (source : FakeVideoGenerator) : MyQuicVideoSender S → Type 0 where
    begin : Reached source (new_quic_video_sender lib clock source)
    call :
        (fuel : ℕ) (s t : MyQuicVideoSender S) (datagram : List ℕ) (goes_on : Bool)
        → Reached source s
        → quic_video_process lib clock fuel s datagram ≡ some (goes_on, t)
        → Reached source t

  -- Whatever calls of Process of MyQuicVideoSender return, from the constructor on and with
  -- datagrams of any content, it has used its QuicSentPacketManager as Manages says, padding
  -- included: packets are told to it one by one under the numbers from 1 on, in 64 bits, with
  -- the length that the header gives the number, each right after TimeUntilSend returned zero,
  -- and a packet is told to be sent again only where the manager offers it, with the number and
  -- the frames that it offers. seq_ is the number of the next one.
  pub video_sender-Managed :
      (source : FakeVideoGenerator) (s : MyQuicVideoSender S)
      → Reached source s
      → Managed lib (2 ^ 64) s.seq s.sent_packet_manager
  unfolding new_quic_video_sender
  video_sender-Managed source s begin = (false, paced 1 lib.new_manager fresh)
  video_sender-Managed source t (call fuel s _ datagram goes_on before e) =
      process-Keeps fuel s t datagram goes_on e (video_sender-Managed source s before)
