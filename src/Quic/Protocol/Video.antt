-- ===== src/Quic/Protocol/Video.antt =====
-- About the parts of Process of MyQuicVideoSender (my_quic_video_sender.cc) and its manager.
use stupid_simple.Base.{
  insert, find, sym, ◌∙◌, ℕ, zero, suc, ◌+◌, ◌-◌, ◌%◌, ◌^◌, ◌≡◌, inl, inr, refl, ◌==◌, true, false,
  Bool-cases, Option, Option-cases, none, some, List, [], ◌∷◌, ◌++◌, bind_some,
}
use mathlib.Core.Path.{subst}
use stupid_simple.Header.{get_min_seq_length}
use stupid_simple.Quic.Sending.{SendLib, Callback, ack_frame_start, ack_range, open_datagram}
use stupid_simple.Quic.Video.Rounds.{loop_next}
use stupid_simple.Quic.Video.{
  MyQuicVideoSender, video_packet, video_on_packet_sent, send_first, send_padding_data,
  quic_video_send_fake_packet, quic_send_data_or_padding, send_again, video_on_retrans_packet,
}
use stupid_simple.Quic.Video.Process.{
  remove_acked_packet, remove_acked_packets, video_post_process_after_ack_frame,
  video_on_ack_frame_start, video_on_ack_range, video_on_callback, video_on_callbacks,
  video_on_incoming_data, video_retransmission_loop, video_retransmission_rounds,
  video_send_if_allowed,
}
use stupid_simple.Quic.Protocol.{
  Manages, Managed, asked, sent_new, sent_again, ack_started, ack_ranged, ack_ended,
}

module _ {S D : Type 0} (lib : SendLib S D) (clock : ℕ → ℕ) where
  abbrev pub Keeps : MyQuicVideoSender S → Type 0
  Keeps s = Managed lib (2 ^ 64) s.seq s.sent_packet_manager

  abbrev pub KeepsSome : Option (MyQuicVideoSender S) → Type 0
  KeepsSome none = Unit {0}
  KeepsSome (some s) = Keeps s

  -- The last question allowed a packet.
  abbrev Allowed : MyQuicVideoSender S → Type 0
  Allowed s = Manages lib (2 ^ 64) true s.seq s.sent_packet_manager

  first-Keeps :
      (s t : MyQuicVideoSender S) (len : ℕ) (queue : List ℕ)
      → send_first lib clock s len queue ≡ some t
      → Allowed s
      → Keeps t
  unfolding send_first video_on_packet_sent
  first-Keeps s t len queue e h =
      let (packet, fits, result) = bind_some (video_packet lib clock s.seq len) _ t e in
      let went : MyQuicVideoSender S = record s { sent = s.sent ++ (packet ∷ []) } in
      let told =
        video_on_packet_sent lib clock went s.seq (get_min_seq_length lib.types s.seq)
          (len % 2 ^ 16) true in
      let after : MyQuicVideoSender S = record told {
        pending_queue = queue;
        sent_queue = insert s.seq len s.sent_queue;
        seq = (s.seq + 1) % 2 ^ 64;
      } in
      let same : after ≡ t = cc in
      rw (← same) (
        false,
        sent_new s.seq s.sent_packet_manager _ h (record { number = refl; number_length = refl })
            refl,
      )

  padding-Keeps : (s : MyQuicVideoSender S) → Allowed s → Keeps (send_padding_data lib clock s)
  unfolding send_padding_data video_on_packet_sent
  padding-Keeps s h = (
    false,
    sent_new s.seq s.sent_packet_manager _ h (record { number = refl; number_length = refl }) refl,
  )

  sent-Keeps :
      (s t : MyQuicVideoSender S) (queue : List ℕ)
      → s.pending_queue ≡ queue
      → quic_send_data_or_padding lib clock s ≡ some t
      → Allowed s
      → Keeps t
  unfolding quic_send_data_or_padding quic_video_send_fake_packet
  sent-Keeps s t [] q e h =
      elim (Bool-cases (lib.should_send_probing_packet s.sent_packet_manager)) [
        | inl probing ↦
            let same : send_padding_data lib clock s ≡ t =
              cc (simp (q, probing, quic_send_data_or_padding) at e) in
            rw (← same) (padding-Keeps s h)
        | inr quiet ↦
            let same : s ≡ t = cc (simp (q, quiet, quic_send_data_or_padding) at e) in
            rw (← same) (true, h)
      ]
  sent-Keeps s t (len ∷ queue) q e h =
      first-Keeps s t len queue
        (simp (q, quic_send_data_or_padding, quic_video_send_fake_packet) at e) h

  pub allowed-Keeps :
      (s t : MyQuicVideoSender S) (now : ℕ)
      → video_send_if_allowed lib clock s now ≡ some t
      → Keeps s
      → Keeps t
  unfolding video_send_if_allowed
  allowed-Keeps s t now e (b, h) =
      let (delay, manager) = lib.time_until_send s.sent_packet_manager now in
      let ready : MyQuicVideoSender S = record s { sent_packet_manager = manager } in
      let next = asked b s.seq now s.sent_packet_manager h in
      elim (Bool-cases (delay == 0)) [
        | inr early ↦ let same : ready ≡ t = cc (rw early at e) in rw (← same) (_, next)
        | inl allowed ↦
            sent-Keeps ready t s.pending_queue refl (rw allowed at e) (rw allowed at next)
      ]

  removed-same :
      (n i : ℕ) (s : MyQuicVideoSender S)
      → ((remove_acked_packets n i s).seq ≡ s.seq)
        × ((remove_acked_packets n i s).sent_packet_manager ≡ s.sent_packet_manager)
  unfolding remove_acked_packets remove_acked_packet
  removed-same zero i s = (refl, refl)
  removed-same (suc n) i s = removed-same n (i + 1) (remove_acked_packet s i)

  callback-Keeps :
      (s : MyQuicVideoSender S) (c : Callback) → Keeps s → Keeps (video_on_callback lib clock s c)
  unfolding video_on_callback video_on_ack_frame_start video_on_ack_range
      video_post_process_after_ack_frame
  callback-Keeps s (ack_frame_start largest delay) (b, h) =
      (false, ack_started b s.seq largest delay s.time_of_last_received_packet _ h)
  callback-Keeps s (ack_range start end true) (b, h) =
      let ranged : MyQuicVideoSender S = record s {
        sent_packet_manager = lib.on_ack_range s.sent_packet_manager start end;
      } in
      let (q, m) = removed-same (end - start) start ranged in
      rw q (
        false,
        ack_ended false s.seq s.time_of_last_received_packet _
            (ack_ranged b s.seq start end s.sent_packet_manager h),
      )
  callback-Keeps s (ack_range start end false) (b, h) =
      let ranged : MyQuicVideoSender S = record s {
        sent_packet_manager = lib.on_ack_range s.sent_packet_manager start end;
      } in
      let (q, m) = removed-same (end - start) start ranged in
      rw q (rw m (false, ack_ranged b s.seq start end s.sent_packet_manager h))

  callbacks-Keeps :
      (s : MyQuicVideoSender S) (calls : List Callback)
      → Keeps s
      → Keeps (video_on_callbacks lib clock s calls)
  unfolding video_on_callbacks
  callbacks-Keeps s [] h = h
  callbacks-Keeps s (c ∷ calls) h =
      callbacks-Keeps (video_on_callback lib clock s c) calls (callback-Keeps s c h)

  pub incoming-Keeps :
      (s t : MyQuicVideoSender S) (bytes : List ℕ)
      → video_on_incoming_data lib clock s bytes ≡ some t
      → Keeps s
      → Keeps t
  unfolding video_on_incoming_data
  incoming-Keeps s t bytes e h =
      let (rest, opened, result) = bind_some (open_datagram lib bytes) _ t e in
      let begun : MyQuicVideoSender S = record s {
        time_of_last_received_packet = clock s.reads;
        reads = s.reads + 1;
      } in
      let calls = lib.process_frame_data (clock s.reads) rest in
      let same : video_on_callbacks lib clock begun calls ≡ t = cc in
      rw (← same) (callbacks-Keeps begun calls h)

  again-Keeps :
      (s t : MyQuicVideoSender S)
      → video_on_retrans_packet lib clock s (lib.next_pending_retransmission s.sent_packet_manager)
        ≡ some t
      → lib.has_pending_retransmissions s.sent_packet_manager ≡ true
      → Allowed s
      → Keeps t
  unfolding video_on_retrans_packet send_again
  again-Keeps s t e more h =
      let pending = lib.next_pending_retransmission s.sent_packet_manager in
      elim (Option-cases (find pending.packet_number s.sent_queue)) [
        | inl unknown ↦
            let same : s ≡ t = cc (simp (unknown, video_on_retrans_packet) at e) in
            rw (← same) (true, h)
        | inr (len, known) ↦
            let sent_it : send_again lib clock s pending len ≡ some t =
              simp (known, video_on_retrans_packet) at e in
            let (packet, fits, result) = bind_some (video_packet lib clock s.seq len) _ t sent_it in
            subst KeepsSome result (
              false,
              sent_again s.seq s.sent_packet_manager _ h
                  (record { number = refl; number_length = refl }) refl more refl refl,
            )
      ]

  pub loop-Keeps :
      (fuel now : ℕ) (s t : MyQuicVideoSender S)
      → video_retransmission_loop lib clock fuel now s ≡ some t
      → Keeps s
      → Keeps t
  unfolding video_retransmission_loop video_retransmission_rounds
  loop-Keeps zero now s t e h = absurd cc
  loop-Keeps (suc fuel) now s t e (b, h) =
      let (delay, manager) = lib.time_until_send s.sent_packet_manager now in
      let ready : MyQuicVideoSender S = record s { sent_packet_manager = manager } in
      let next = asked b s.seq now s.sent_packet_manager h in
      let step = sym (loop_next lib clock fuel now s) ∙ e in
      elim (Bool-cases (delay == 0)) [
        | inr early ↦ let same : ready ≡ t = cc (rw early at step) in rw (← same) (_, next)
        | inl allowed ↦ elim (Bool-cases (lib.has_pending_retransmissions manager)) [
          | inr over ↦
              let same : ready ≡ t = cc (rw (allowed, over) at step) in rw (← same) (_, next)
          | inl more ↦
              let (again, went, rest) =
                bind_some
                  (video_on_retrans_packet lib clock ready
                    (lib.next_pending_retransmission manager))
                  _ t (rw (allowed, more) at step) in
              loop-Keeps fuel now again t rest
                (again-Keeps ready again went more (rw allowed at next))
        ]
      ]
