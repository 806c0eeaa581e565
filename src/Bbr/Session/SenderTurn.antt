-- ===== src/Bbr/Session/SenderTurn.antt =====
-- One call of Process of MyBbrSenderApp in a session.
use stupid_simple.Base.{
  ℕ, ◌+◌, ◌^◌, ◌<◌, ◌≡◌, ◌⊎◌, inl, inr, refl, ltb, ◌==◌, Bool, true, false, if◌then◌else◌,
  Bool-cases, some, List, [], bind_some, arith,
}
use stupid_simple.Bbr.Env.{BbrEnv}
use stupid_simple.Bbr.Pacing.{time_until_send}
use stupid_simple.Bbr.App.{Net}
use stupid_simple.Bbr.App.Sender.{MyBbrSenderApp, send_fake_packet, record_rate, process}
use stupid_simple.Bbr.App.Delivery.{IsNet}
use stupid_simple.Bbr.Session.Receiving.{IsAck}
use stupid_simple.Bbr.Session.Sending.{Ahead, sent-Ahead, received-Ahead}

module _ {F : Type 0} (env : BbrEnv F) (net : Net) where
  maybe_sent-Ahead :
      (high : ℕ) (s t : MyBbrSenderApp F) (now : ℕ) (gate : Bool)
      → s.seq + 1 < 2 ^ 32
      → (if gate then send_fake_packet env net s now else some s) ≡ some t
      → Ahead env net high s
      → Ahead env net high t
  maybe_sent-Ahead high s t now true room e h = sent-Ahead env net high s t now room e h
  maybe_sent-Ahead high s t now false room e h = let same : s ≡ t = cc in rw (← same) h

  started-Ahead :
      (high : ℕ) (s : MyBbrSenderApp F) (now : ℕ) (first : Bool)
      → Ahead env net high s
      → Ahead env net high (if first then record s { ref_time = now } else s)
  started-Ahead high s now true h = record {
    data_sent = h.data_sent;
    told = h.told;
    above = h.above;
  }
  started-Ahead high s now false h = h

  started_seq :
      (s : MyBbrSenderApp F) (now : ℕ) (first : Bool)
      → (if first then record s { ref_time = now } else s).seq ≡ s.seq
  started_seq s now true = refl
  started_seq s now false = refl

  rate-Ahead :
      (high : ℕ) (s : MyBbrSenderApp F) (now : ℕ)
      → Ahead env net high s
      → Ahead env net high (record_rate env s now)
  unfolding record_rate
  rate-Ahead high s now h = elim (Bool-cases (s.next == 0)) [
    | inl first ↦ rw first (record { data_sent = h.data_sent; told = h.told; above = h.above })
    | inr again ↦ elim (Bool-cases (ltb s.next now)) [
      | inl due ↦
          rw again (rw due (record { data_sent = h.data_sent; told = h.told; above = h.above }))
      | inr early ↦ rw again (rw early h)
    ]
  ]

  -- Process keeps to what it was told.
  pub process-Ahead :
      (high now : ℕ) (s t : MyBbrSenderApp F) (datagram : List ℕ) (goes_on : Bool)
      → IsNet net
      → high < 2 ^ 48
      → s.seq + 1 < 2 ^ 32
      → (datagram ≡ []) ⊎ IsAck net high datagram
      → process env net s now datagram ≡ some (goes_on, t)
      → Ahead env net high s
      → Ahead env net high t
  unfolding process
  process-Ahead high now s t datagram goes_on ok top room arrives e h =
      let started : MyBbrSenderApp F = if s.ref_time == 0 then record s { ref_time = now } else s in
      let kept = started_seq s now (s.ref_time == 0) in
      let begun = started-Ahead high s now (s.ref_time == 0) h in
      let (sent, went, rest) = bind_some _ _ (goes_on, t) e in
      let (received, got, result) = bind_some _ _ (goes_on, t) rest in
      let a1 =
        maybe_sent-Ahead high started sent now (time_until_send started.pacing now == 0)
          (omega (arith, kept)) went begun in
      let a2 = received-Ahead env net high sent received now datagram ok top arrives got a1 in
      let same : record_rate env received now ≡ t = cc in
      rw (← same) (rate-Ahead high received now a2)
