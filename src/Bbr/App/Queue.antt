-- ===== src/Bbr/App/Queue.antt =====
-- The queue of split sizes of MyBbrVideoSenderApp.
use stupid_simple.Base.{
  ℕ, ◌+◌, ◌%◌, ◌/◌, ◌^◌, ◌≡◌, refl, sym, ap, ◌∙◌, inl, inr, ltb, leb, ◌==◌, true, false,
  if◌then◌else◌, Bool, Bool-cases, Option-cases, some, List, [], ◌∷◌, ◌++◌, length, take,
  append_nil, bind_some,
}
use stupid_simple.Frames.{get_frame, frame_split, max_split_number, max_video_size}
use stupid_simple.Bbr.Env.{BbrEnv}
use stupid_simple.Bbr.Pacing.{pacing_packet_sent, time_until_send}
use stupid_simple.Bbr.App.{Net, payload_of, fake_packet, test_proto_stream, test_proto_padding}
use stupid_simple.Bbr.App.Sender.{process_ack_frame}
use stupid_simple.Bbr.App.Video.{
  MyBbrVideoSenderApp, video_record_rate, video_send_fake_packet, send_padding_packet, wants_probe,
  send_data_or_padding, take_frame, video_receive, video_process,
}

module _ {F : Type 0} where
  -- The queue of `t` is that of `s` with more behind it.
  abbrev pub Longer : MyBbrVideoSenderApp F → MyBbrVideoSenderApp F → Type 0
  Longer s t = (added : List ℕ) × (t.pending_queue ≡ s.pending_queue ++ added)

  same_queue : (s t : MyBbrVideoSenderApp F) → t.pending_queue ≡ s.pending_queue → Longer s t
  same_queue s t e = ([], e ∙ sym (append_nil s.pending_queue))

  result_queue : (x t : MyBbrVideoSenderApp F) → some x ≡ some t → t.pending_queue ≡ x.pending_queue
  result_queue x t h = let same : x ≡ t = cc in sym (ap (λ r. r.pending_queue) same)

module _ {F : Type 0} (env : BbrEnv F) (net : Net) where
  data_keeps :
      (s t : MyBbrVideoSenderApp F) (now : ℕ)
      → video_send_fake_packet env net s now ≡ some t
      → t.pending_queue ≡ s.pending_queue
  unfolding video_send_fake_packet
  data_keeps s t now e =
      elim (Option-cases (pacing_packet_sent env s.pacing now s.seq (payload_of net s.seq))) [
        | inl fault ↦ absurd (cc (rw fault at e))
        | inr (pacing, sent) ↦
            result_queue
              (record s {
                seq = (s.seq + 1) % 2 ^ 32;
                pacing = pacing;
                sent = s.sent ++ (fake_packet net test_proto_stream s.seq ∷ []);
              })
              t (rw sent at e)
      ]

  padding_keeps :
      (s t : MyBbrVideoSenderApp F) (now : ℕ)
      → send_padding_packet env net s now ≡ some t
      → t.pending_queue ≡ s.pending_queue
  unfolding send_padding_packet
  padding_keeps s t now e =
      elim (Option-cases (pacing_packet_sent env s.pacing now s.seq (payload_of net s.seq))) [
        | inl fault ↦ absurd (cc (rw fault at e))
        | inr (pacing, sent) ↦
            result_queue
              (record s {
                seq = (s.seq + 1) % 2 ^ 32;
                pacing = pacing;
                sent = s.sent ++ (fake_packet net test_proto_padding s.seq ∷ []);
              })
              t (rw sent at e)
      ]

  nothing_pending :
      (s : MyBbrVideoSenderApp F) (now : ℕ)
      → s.pending_queue ≡ []
      → send_data_or_padding env net s now ≡ (
          if wants_probe env net s.pacing.sender then send_padding_packet env net s now else some s)
  unfolding send_data_or_padding
  nothing_pending s now q = simp (q, send_data_or_padding)

  something_pending :
      (s : MyBbrVideoSenderApp F) (now x : ℕ) (xs : List ℕ)
      → s.pending_queue ≡ x ∷ xs
      → send_data_or_padding env net s now ≡ video_send_fake_packet env net s now
  unfolding send_data_or_padding
  something_pending s now x xs q = simp (q, send_data_or_padding)

  probe_keeps :
      (s t : MyBbrVideoSenderApp F) (now : ℕ) (probes : Bool)
      → (if probes then send_padding_packet env net s now else some s) ≡ some t
      → t.pending_queue ≡ s.pending_queue
  probe_keeps s t now true e = padding_keeps s t now e
  probe_keeps s t now false e = result_queue s t e

  send_keeps :
      (s t : MyBbrVideoSenderApp F) (queue : List ℕ) (now : ℕ)
      → s.pending_queue ≡ queue
      → send_data_or_padding env net s now ≡ some t
      → t.pending_queue ≡ s.pending_queue
  send_keeps s t [] now q e =
      probe_keeps s t now (wants_probe env net s.pacing.sender) (sym (nothing_pending s now q) ∙ e)
  send_keeps s t (x ∷ xs) now q e = data_keeps s t now (sym (something_pending s now x xs q) ∙ e)

  maybe_send_keeps :
      (s t : MyBbrVideoSenderApp F) (now : ℕ) (gate : Bool)
      → (if gate then send_data_or_padding env net s now else some s) ≡ some t
      → t.pending_queue ≡ s.pending_queue
  maybe_send_keeps s t now true e = send_keeps s t s.pending_queue now refl e
  maybe_send_keeps s t now false e = result_queue s t e

  receive_keeps :
      (s t : MyBbrVideoSenderApp F) (now : ℕ) (datagram : List ℕ)
      → video_receive env net s now datagram ≡ some t
      → t.pending_queue ≡ s.pending_queue
  unfolding video_receive
  receive_keeps s t now datagram e = elim (Bool-cases (leb (length datagram) 0)) [
    | inl nothing ↦ result_queue s t (rw nothing at e)
    | inr something ↦
        let (pacing, sent, done) =
          bind_some (process_ack_frame env net s.pacing now (take 1500 datagram)) _ t
            (rw something at e) in
        result_queue _ t done
  ]

  rate_keeps_queue :
      (s : MyBbrVideoSenderApp F) (now : ℕ)
      → (video_record_rate env s now).pending_queue ≡ s.pending_queue
  unfolding video_record_rate
  rate_keeps_queue s now = elim (Bool-cases (s.next == 0)) [
    | inl first ↦ rw first refl
    | inr again ↦ elim (Bool-cases (ltb s.next now)) [
      | inl due ↦ rw again (rw due refl)
      | inr early ↦ rw again (rw early refl)
    ]
  ]

  frame-Longer :
      (s t : MyBbrVideoSenderApp F) (now : ℕ) → take_frame env net s now ≡ some t → Longer s t
  unfolding take_frame
  frame-Longer s t now e =
      let frame_len = (get_frame s.source now).0 in
      elim (Bool-cases (ltb 0 frame_len)) [
        | inr empty ↦ same_queue s t (result_queue _ t (rw empty at e))
        | inl frame ↦ elim (Bool-cases (ltb (frame_len / max_video_size) max_split_number)) [
          | inr failed ↦ absurd (cc (rw (frame, failed) at e))
          | inl fits ↦
              let (splits, split, done) =
                bind_some (frame_split frame_len) _ t (rw (frame, fits) at e) in
              (splits, result_queue _ t done)
        ]
      ]

  started_queue :
      (s : MyBbrVideoSenderApp F) (now : ℕ) (first : Bool)
      → (if first then record s { ref_time = now } else s).pending_queue ≡ s.pending_queue
  started_queue s now true = refl
  started_queue s now false = refl

  -- No call of Process of the video sender that does not fault takes a size out of
  -- pending_queue_: what was in the queue stays in front, also when a packet is sent because of
  -- it.
  pub process_never_pops :
      (s t : MyBbrVideoSenderApp F) (now : ℕ) (datagram : List ℕ) (goes_on : Bool)
      → video_process env net s now datagram ≡ some (goes_on, t)
      → Longer s t
  unfolding video_process
  process_never_pops s t now datagram goes_on e =
      let started : MyBbrVideoSenderApp F =
        if s.ref_time == 0 then record s { ref_time = now } else s in
      elim (Option-cases (take_frame env net started now)) [
        | inl fault ↦ absurd (cc (rw fault at e))
        | inr (framed, e1) ↦
            let gate = time_until_send framed.pacing now == 0 in
            elim (Option-cases
              (if gate then send_data_or_padding env net framed now else some framed)) [
                | inl fault ↦ absurd (cc (rw (e1, fault) at e))
                | inr (sent, e2) ↦ elim (Option-cases (video_receive env net sent now datagram)) [
                  | inl fault ↦ absurd (cc (rw (e1, e2, fault) at e))
                  | inr (received, e3) ↦
                      let ended = rw (e1, e2, e3) at e in
                      let last : video_record_rate env received now ≡ t = cc in
                      let (added, longer) = frame-Longer started framed now e1 in
                      (
                        added,
                        sym (ap (λ r. r.pending_queue) last)
                            ∙ rate_keeps_queue received now
                            ∙ receive_keeps sent received now datagram e3
                            ∙ maybe_send_keeps framed sent now gate e2
                            ∙ longer
                            ∙ ap (λ q. q ++ added) (started_queue s now (s.ref_time == 0)),
                      )
                ]
              ]
      ]
