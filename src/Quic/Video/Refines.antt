-- ===== src/Quic/Video/Refines.antt =====
-- About Process of MyQuicVideoSender (my_quic_video_sender.cc) and the steps of Queues.
use stupid_simple.Base.{
  ℕ, zero, suc, ◌+◌, ◌^◌, ◌≤◌, ◌<◌, ◌≡◌, refl, inl, inr, ltb, true, false, Bool-cases, some, List,
  [], ◌∷◌, bind_some, arith, ◌==◌, Bool, ◌&&◌, leb, take, length, ◌∙◌, if◌then◌else◌,
}
use mathlib.Core.Path.{subst, sym, ap}
use stupid_simple.Quic.Sending.{SendLib}
use stupid_simple.Quic.Video.{
  MyQuicVideoSender, send_padding_data, video_on_retrans_packet, quic_send_data_or_padding,
  quic_video_send_fake_packet, video_send_stop_waiting_frame,
}
use stupid_simple.Quic.Video.Process.{
  quic_take_frame, video_on_incoming_data, video_send_if_allowed, video_retransmission_loop,
  video_retransmission_rounds, update_source_rate, quic_video_process, quic_video_record_rate,
  video_front, video_send_retransmission,
}
use stupid_simple.Quic.Video.Rounds.{loop_next}
use stupid_simple.Quic.Video.Queues.{Queues, Steps, Steps-trans, Steps-IsSmall, here, stop_waiting}
use stupid_simple.Quic.Video.Moves.{
  Small, Moves, Moves-IsSmall, one, first-Moves, frame-Moves, incoming-Moves, padding-Moves, queues,
  retrans-Moves, stays,
}
use stupid_simple.Quic.Video.Source.{IsSource, updata_rate-IsSource}

module _ {S D : Type 0} (lib : SendLib S D) (clock : ℕ → ℕ) (l : List (List ℕ)) where
  queue-Moves :
      (s t : MyQuicVideoSender S) (queue : List ℕ)
      → s.pending_queue ≡ queue
      → s.seq + 1 < 2 ^ 64
      → Small s
      → quic_send_data_or_padding lib clock s ≡ some t
      → Moves lib clock l l 1 s t
  unfolding quic_send_data_or_padding quic_video_send_fake_packet
  queue-Moves s t [] q room i e =
      elim (Bool-cases (lib.should_send_probing_packet s.sent_packet_manager)) [
        | inl probes ↦
            stays 1 s (send_padding_data lib clock s) t
              (rw (q, probes, quic_send_data_or_padding) at e) (padding-Moves lib clock l s q room)
        | inr quiet ↦
            stays 1 s s t (rw (q, quiet, quic_send_data_or_padding) at e)
              (here, omega arith, λ ok. ok)
      ]
  queue-Moves s t (len ∷ queue) q room i e =
      let chosen : quic_video_send_fake_packet lib clock s ≡ some t =
        rw (q, quic_send_data_or_padding) at e in
      first-Moves lib clock l s t len queue q room i (rw (q, quic_video_send_fake_packet) at chosen)

  pub send-Moves :
      (s t : MyQuicVideoSender S) (now : ℕ)
      → s.seq + 1 < 2 ^ 64
      → Small s
      → video_send_if_allowed lib clock s now ≡ some t
      → Moves lib clock l l 1 s t
  unfolding video_send_if_allowed
  send-Moves s t now room i e =
      let (delay, manager) = lib.time_until_send s.sent_packet_manager now in
      let asked : MyQuicVideoSender S = record s { sent_packet_manager = manager } in
      elim (Bool-cases (delay == 0)) [
        | inl allowed ↦ queue-Moves asked t s.pending_queue refl room i (rw allowed at e)
        | inr early ↦ stays 1 s asked t (rw early at e) (here, omega arith, λ ok. ok)
      ]

  loop-Moves :
      (fuel now : ℕ) (s t : MyQuicVideoSender S)
      → s.seq + fuel < 2 ^ 64
      → Small s
      → video_retransmission_loop lib clock fuel now s ≡ some t
      → Moves lib clock l l fuel s t
  unfolding video_retransmission_loop video_retransmission_rounds
  loop-Moves zero now s t room i e = absurd (cc)
  loop-Moves (suc fuel) now s t room i e =
      let (delay, manager) = lib.time_until_send s.sent_packet_manager now in
      let asked : MyQuicVideoSender S = record s { sent_packet_manager = manager } in
      let pending = lib.next_pending_retransmission manager in
      let step = sym (loop_next lib clock fuel now s) ∙ e in
      elim (Bool-cases (delay == 0 && lib.has_pending_retransmissions manager)) [
        | inr over ↦ stays (suc fuel) s asked t (rw over at step) (here, omega arith, λ ok. ok)
        | inl more ↦
            let (again, sent, rest) =
              bind_some (video_on_retrans_packet lib clock asked pending) _ t (rw more at step) in
            let first =
              retrans-Moves lib clock l asked again pending (omega (arith, room)) i sent in
            let last =
              loop-Moves fuel now again t (omega (arith, room, first.1))
                (Moves-IsSmall 1 asked again first i) rest in
            (Steps-trans first.0 last.0, omega (arith, first.1, last.1), λ ok. last.2 (first.2 ok))
      ]

  stop-Moves :
      (s : MyQuicVideoSender S) (waited : Bool)
      → Moves lib clock l l 0 s (if waited then video_send_stop_waiting_frame lib clock s else s)
  unfolding video_send_stop_waiting_frame
  stop-Moves s true =
      (one (stop_waiting (lib.get_least_unacked s.sent_packet_manager) refl), omega arith, λ ok. ok)
  stop-Moves s false = (here, omega arith, λ ok. ok)

-- The datagrams to come before a call of Process with this one: RecvFrom keeps 1500 bytes.
abbrev pub arrives : (datagram : List ℕ) → List (List ℕ) → List (List ℕ)
arrives datagram l = if leb (length datagram) 0 then l else take 1500 datagram ∷ l

module _ {S D : Type 0} (lib : SendLib S D) (clock : ℕ → ℕ) (l : List (List ℕ)) where
  datagram-Moves :
      (s t : MyQuicVideoSender S) (datagram : List ℕ) (nothing : Bool)
      → (if nothing then some s else video_on_incoming_data lib clock s (take 1500 datagram))
        ≡ some t
      → Moves lib clock (if nothing then l else take 1500 datagram ∷ l) l 0 s t
  datagram-Moves s t datagram true e = stays 0 s s t e (here, omega arith, λ ok. ok)
  datagram-Moves s t datagram false e = incoming-Moves lib clock l s t (take 1500 datagram) e

  pub front-Moves :
      (s t : MyQuicVideoSender S) (datagram : List ℕ)
      → s.seq + 1 < 2 ^ 64
      → Small s
      → video_front lib clock s datagram ≡ some t
      → Moves lib clock (arrives datagram l) l 1 s t
  unfolding video_front
  front-Moves s t datagram room i e =
      let now = clock s.reads in
      let ticked : MyQuicVideoSender S = record s { reads = s.reads + 1 } in
      let (framed, e1, rest1) = bind_some (quic_take_frame ticked now) _ t e in
      let (went, e2, rest2) = bind_some (video_send_if_allowed lib clock framed now) _ t rest1 in
      let (received, e3, done) =
        bind_some
          (if leb (length datagram) 0
            then some went
            else video_on_incoming_data lib clock went (take 1500 datagram))
          _ t rest2 in
      let m1 = frame-Moves lib clock (arrives datagram l) ticked framed now e1 in
      let m2 =
        send-Moves lib clock (arrives datagram l) framed went now (omega (arith, m1.1, room))
          (Moves-IsSmall 0 ticked framed m1 i) e2 in
      let m3 = datagram-Moves went received datagram (leb (length datagram) 0) e3 in
      let waited = ltb 2 received.stop_waiting_count in
      let m4 = stop-Moves lib clock l received waited in
      stays 1 s _ t done (
        Steps-trans (Steps-trans m1.0 m2.0) (Steps-trans m3.0 m4.0),
        omega (arith, m1.1, m2.1, m3.1, m4.1),
        λ ok. m4.2 (m3.2 (m2.2 (m1.2 ok))),
      )

  source_updated :
      (s : MyQuicVideoSender S) (now : ℕ)
      → (queues l (update_source_rate lib clock s now) ≡ queues l s)
        × (IsSource s.source → IsSource (update_source_rate lib clock s now).source)
  unfolding update_source_rate
  source_updated s now = elim (Bool-cases (s.next_rate_update == 0)) [
    | inl first ↦ rw first (refl, λ ok. ok)
    | inr later ↦ elim (Bool-cases (ltb s.next_rate_update now)) [
      | inl due ↦ rw later (rw due (refl, λ ok. updata_rate-IsSource s.source _ ok))
      | inr early ↦ rw later (rw early (refl, λ ok. ok))
    ]
  ]

  rate_recorded :
      (s : MyQuicVideoSender S) (now : ℕ)
      → (queues l (quic_video_record_rate lib clock s now) ≡ queues l s)
        × ((quic_video_record_rate lib clock s now).source ≡ s.source)
  unfolding quic_video_record_rate
  rate_recorded s now = elim (Bool-cases s.enable_log) [
    | inr off ↦ rw (off, quic_video_record_rate) (refl, refl)
    | inl on ↦ elim (Bool-cases (s.last_output == 0)) [
      | inl first ↦ rw (on, first, quic_video_record_rate) (refl, refl)
      | inr later ↦ elim (Bool-cases (ltb s.last_output now)) [
        | inl due ↦ rw (on, later, due, quic_video_record_rate) (refl, refl)
        | inr early ↦ rw (on, later, early, quic_video_record_rate) (refl, refl)
      ]
    ]
  ]

  pub process-Moves :
      (fuel : ℕ) (s t : MyQuicVideoSender S) (datagram : List ℕ) (goes_on : Bool)
      → s.seq + fuel + 1 < 2 ^ 64
      → Small s
      → quic_video_process lib clock fuel s datagram ≡ some (goes_on, t)
      → Steps lib clock (queues (arrives datagram l) s) (queues l t)
        × Small t
        × (t.seq ≤ s.seq + fuel + 1)
        × (IsSource s.source → IsSource t.source)
  unfolding quic_video_process video_send_retransmission
  process-Moves fuel s t datagram goes_on room i e =
      let now = clock s.reads in
      let (waited, e1, rest) = bind_some (video_front lib clock s datagram) _ (goes_on, t) e in
      let ticked : MyQuicVideoSender S = record waited { reads = waited.reads + 1 } in
      let (again, e2, done) =
        bind_some (video_retransmission_loop lib clock fuel (clock waited.reads) ticked) _
          (goes_on, t) rest in
      let m1 = front-Moves s waited datagram (omega (arith, room)) i e1 in
      let m2 =
        loop-Moves lib clock l fuel (clock waited.reads) ticked again (omega (arith, m1.1, room))
          (Moves-IsSmall 1 s waited m1 i) e2 in
      let sourced = update_source_rate lib clock again now in
      let ended = quic_video_record_rate lib clock sourced now in
      let last : ended ≡ t = cc in
      let same : queues l again ≡ queues l t =
        sym ((rate_recorded sourced now).0 ∙ (source_updated again now).0) ∙ ap (queues l) last in
      let steps =
        subst (Steps lib clock (queues (arrives datagram l) s)) same (Steps-trans m1.0 m2.0) in
      let number : again.seq ≡ t.seq = ap (λ (q : Queues). q.seq) same in
      let source : sourced.source ≡ t.source =
        sym ((rate_recorded sourced now).1) ∙ ap (λ (r : MyQuicVideoSender S). r.source) last in
      (
        steps,
        Steps-IsSmall steps i,
        omega (arith, m1.1, m2.1, number),
        λ ok. subst IsSource source ((source_updated again now).1 (m2.2 (m1.2 ok))),
      )
