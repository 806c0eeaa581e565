-- ===== src/Bbr/Session/Sending.antt =====
-- About what MyBbrSenderApp (my_bbr_sender_app.cc) sends in a session, and what its controller is
-- told.
use stupid_simple.Base.{
  ℕ, ◌+◌, ◌%◌, ◌^◌, ◌≤◌, ◌<◌, ◌≡◌, ◌⊎◌, inl, inr, refl, sym, ap, ◌∙◌, Option-cases, none, some,
  ◌>>=◌, List, [], ◌∷◌, ◌++◌, All, All-append, All-map, bind_some, arith,
}
use stupid_simple.Bbr.App.{Net, fake_packet, test_proto_stream, payload_of}
use stupid_simple.Bbr.App.Sender.{MyBbrSenderApp, send_fake_packet, receive}
use stupid_simple.Bbr.App.Delivery.{IsNet, ack-reaches_sender}
use stupid_simple.Bbr.Session.Receiving.{IsAck, IsData}
use stupid_simple.Bbr.Env.{BbrEnv}
use stupid_simple.Bbr.State.{MyBbrSender}
use stupid_simple.Bbr.Sender.{on_packet_sent, on_ack}
use stupid_simple.Bbr.Pacing.{MyPacingSender, pacing_packet_sent, on_congestion_event}
use stupid_simple.Bbr.Safety.LastAck.{on_packet_sent-keeps_ack, on_ack-moves_ack}

module _ {F : Type 0} where
  -- The pacer's controller was told of no acknowledgement above `high`.
  abbrev pub Told : ℕ → MyPacingSender F → Type 0
  Told high p = (cc : MyBbrSender F) × (p.sender ≡ some cc) × (cc.last_ack_seq ≤ high)

module _ {F : Type 0} (env : BbrEnv F) where
  sent-Told :
      (high : ℕ) (p q : MyPacingSender F) (now n bytes : ℕ)
      → pacing_packet_sent env p now n bytes ≡ some q
      → Told high p
      → Told high q
  unfolding pacing_packet_sent
  sent-Told high p q now n bytes e (b, on, low) =
      elim (Option-cases (on_packet_sent b now n bytes)) [
        | inl fault ↦ absurd (cc (simp (on, fault, pacing_packet_sent) at e))
        | inr (b', went) ↦
            let same : some b' ≡ q.sender =
              ap (λ o. elim o [ none ↦ none | some x ↦ x.sender ])
                (simp (on, went, pacing_packet_sent) at e) in
            (b', sym same, omega (arith, low, on_packet_sent-keeps_ack env b b' now n bytes went))
      ]

  acked-Told :
      (high : ℕ) (p q : MyPacingSender F) (now n : ℕ)
      → on_congestion_event env p now n ≡ some q
      → n ≤ high
      → Told high p
      → Told high q
  unfolding on_congestion_event
  acked-Told high p q now n e fits (b, on, low) = elim (Option-cases (on_ack env b now n)) [
    | inl fault ↦ absurd (cc (simp (on, fault, on_congestion_event) at e))
    | inr (b', went) ↦
        let same : some b' ≡ q.sender =
          ap (λ o. elim o [ none ↦ none | some x ↦ x.sender ])
            (simp (on, went, on_congestion_event) at e) in
        (b', sym same, omega (arith, low, fits, on_ack-moves_ack env b b' now n went))
  ]

  module _ (net : Net) where
    -- All that the sender sent are data packets below its next number, and its controller was told
    -- of no acknowledgement above `high`, which is below that number.
    pub record Ahead (high : ℕ) (s : MyBbrSenderApp F) : Type 0 where
      pub data_sent : All (IsData net s.seq) s.sent
      pub told : Told high s.pacing
      pub above : high < s.seq

    IsData-grows :
        (low high : ℕ) (log : List (List ℕ))
        → low ≤ high
        → All (IsData net low) log
        → All (IsData net high) log
    IsData-grows low high log le h =
        All-map (IsData net low) (IsData net high) log
          (λ d a. (a.0, a.1, omega (arith, le, a.2), a.3)) h

    pub sent-Ahead :
        (high : ℕ) (s t : MyBbrSenderApp F) (now : ℕ)
        → s.seq + 1 < 2 ^ 32
        → send_fake_packet env net s now ≡ some t
        → Ahead high s
        → Ahead high t
    unfolding send_fake_packet
    sent-Ahead high s t now room e h =
        let (pacing, went, result) = bind_some _ _ t e in
        let next : (s.seq + 1) % 2 ^ 32 ≡ s.seq + 1 = omega arith in
        let sent : MyBbrSenderApp F = record s {
          seq = (s.seq + 1) % 2 ^ 32;
          pacing = pacing;
          sent = s.sent ++ (fake_packet net test_proto_stream s.seq ∷ []);
        } in
        let same : sent ≡ t = cc in
        rw (← same) (record {
          data_sent = rw next (
              All-append (IsData net (s.seq + 1)) s.sent _
                (IsData-grows s.seq (s.seq + 1) s.sent (omega arith) h.data_sent)
                ((s.seq, omega (arith, h.above), omega arith, refl), tt));
          told = sent-Told high s.pacing pacing now s.seq (payload_of net s.seq) went h.told;
          above = omega (arith, next, h.above);
        })

    pub received-Ahead :
        (high : ℕ) (s t : MyBbrSenderApp F) (now : ℕ) (datagram : List ℕ)
        → IsNet net
        → high < 2 ^ 48
        → (datagram ≡ []) ⊎ IsAck net high datagram
        → receive env net s now datagram ≡ some t
        → Ahead high s
        → Ahead high t
    unfolding receive
    received-Ahead high s t now datagram ok room (inl empty) e h =
        let same : s ≡ t = cc (rw (empty, receive) at e) in rw (← same) h
    received-Ahead high s t now datagram ok room (inr (n, fits, ack)) e h =
        let acked : (on_congestion_event env s.pacing now n >>= λ pacing.
        some (record s { pacing = pacing }))
            ≡ some t =
          sym (ack-reaches_sender env net s now n ok (omega (arith, fits)))
          ∙ ap (receive env net s now) (sym ack)
          ∙ e in
        let (pacing, went, result) = bind_some _ _ t acked in
        let moved : MyBbrSenderApp F = record s { pacing = pacing } in
        let same : moved ≡ t = cc in
        rw (← same) (record {
          data_sent = h.data_sent;
          told = acked-Told high s.pacing pacing now n went fits h.told;
          above = h.above;
        })
