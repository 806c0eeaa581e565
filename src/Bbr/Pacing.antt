-- ===== src/Bbr/Pacing.antt =====
-- MyPacingSender (my_pacing_sender.{h,cc}): the time at which the next packet may go.
use stupid_simple.Base.{
  ℕ, ◌+◌, ◌-◌, ◌≤◌, ◌≡◌, ◌∙◌, ◌⊎◌, inl, inr, refl, ltb, if◌then◌else◌, Option, none, some, ◌>>=◌,
  arith, Option-cases,
}
use stupid_simple.Bbr.Env.{BbrEnv, from_milliseconds}
use stupid_simple.Bbr.State.{MyBbrSender}
use stupid_simple.Bbr.Sender.{on_packet_sent, on_ack}

-- `sender` is the object behind sender_, where it is set.
pub record MyPacingSender (F : Type 0) : Type 0 where
  pub ideal_next_packet_send_time : ℕ
  pub alarm_granularity : ℕ
  pub sender : Option (MyBbrSender F)

-- The constructor, then set_sender.
unfoldable pub new_pacing : {F : Type 0} → MyBbrSender F → MyPacingSender F
new_pacing cc = record {
  ideal_next_packet_send_time = 0;
  alarm_granularity = from_milliseconds 1;
  sender = some cc;
}

abbrev pub latest : ℕ → ℕ → ℕ
latest a b = if ltb a b then b else a

module _ {F : Type 0} (env : BbrEnv F) where
  -- OnPacketSent
  unfoldable pub pacing_packet_sent : MyPacingSender F → ℕ → ℕ → ℕ → Option (MyPacingSender F)
  pacing_packet_sent s now packet_number bytes = elim s.sender [
    | none ↦ some s
    | some cc ↦ on_packet_sent cc now packet_number bytes >>= λ cc'.
        let delay = env.transfer_time cc'.pacing_rate bytes in
        some (record s {
          ideal_next_packet_send_time =
              latest (s.ideal_next_packet_send_time + delay) (now + delay);
          sender = some cc';
        })
  ]

  -- OnCongestionEvent
  unfoldable pub on_congestion_event : MyPacingSender F → ℕ → ℕ → Option (MyPacingSender F)
  on_congestion_event s now packet_number = elim s.sender [
    | none ↦ some s
    | some cc ↦ on_ack env cc now packet_number >>= λ cc'. some (record s { sender = some cc' })
  ]

-- TimeUntilSend
unfoldable pub time_until_send : {F : Type 0} → MyPacingSender F → ℕ → ℕ
time_until_send s now =
    if ltb (now + s.alarm_granularity) s.ideal_next_packet_send_time
    then s.ideal_next_packet_send_time - now
    else 0

latest_left : (a b : ℕ) → a ≤ latest a b
latest_left a b = ground arith

latest_right : (a b : ℕ) → b ≤ latest a b
latest_right a b = ground arith

gate_open :
    {F : Type 0} (s : MyPacingSender F) (now : ℕ)
    → time_until_send s now ≡ 0
    → s.ideal_next_packet_send_time ≤ now + s.alarm_granularity
unfolding time_until_send
gate_open s now e = ground arith

ahead :
    (total d ideal ideal' now t0 : ℕ)
    → t0 ≤ now
    → (total ≡ 0) ⊎ (t0 + total ≤ ideal)
    → ideal + d ≤ ideal'
    → (d ≡ 0) ⊎ (now + d ≤ ideal')
    → (total + d ≡ 0) ⊎ (t0 + (total + d) ≤ ideal')
ahead total d ideal ideal' now t0 h (inr b) k m = inr (omega arith)
ahead total d ideal ideal' now t0 h (inl b) k (inl m) = inl (omega arith)
ahead total d ideal ideal' now t0 h (inl b) k (inr m) = inr (omega arith)

module _ {F : Type 0} (env : BbrEnv F) where
  -- The transfer time of `bytes` at the rate of the sender of `s`.
  abbrev pub charge : MyPacingSender F → ℕ → ℕ
  charge s bytes = elim s.sender [ none ↦ 0 | some cc ↦ env.transfer_time cc.pacing_rate bytes ]

  -- A run of the pacer from `s0` on, in which each packet goes at a time of at least `t0` at which
  -- TimeUntilSend is zero. The index sums up the transfer times of its packets.
  pub data Paced (t0 : ℕ) (s0 : MyPacingSender F) : MyPacingSender F → ℕ → Type 0 where
    begin : Paced t0 s0 s0 0
    send :
        (s t : MyPacingSender F) (total now packet_number bytes : ℕ)
        → Paced t0 s0 s total
        → t0 ≤ now
        → time_until_send s now ≡ 0
        → pacing_packet_sent env s now packet_number bytes ≡ some t
        → Paced t0 s0 t (total + charge t bytes)
    ack :
        (s t : MyPacingSender F) (total now packet_number : ℕ)
        → Paced t0 s0 s total
        → on_congestion_event env s now packet_number ≡ some t
        → Paced t0 s0 t total

  sent-Moves :
      (s t : MyPacingSender F) (now p bytes : ℕ)
      → pacing_packet_sent env s now p bytes ≡ some t
      → (s.ideal_next_packet_send_time + charge t bytes ≤ t.ideal_next_packet_send_time)
        × ((charge t bytes ≡ 0) ⊎ (now + charge t bytes ≤ t.ideal_next_packet_send_time))
        × (t.alarm_granularity ≡ s.alarm_granularity)
  unfolding pacing_packet_sent
  sent-Moves s t now p bytes e = elim (Option-cases s.sender) [
    | inl off ↦
        let same : s ≡ t = cc (simp (off, pacing_packet_sent) at e) in
        rw (← same) (rw off (omega arith, inl refl, refl))
    | inr (b, on) ↦ elim (Option-cases (on_packet_sent b now p bytes)) [
      | inl fault ↦ absurd (cc (simp (on, fault, pacing_packet_sent) at e))
      | inr (b', sent) ↦
          let delay = env.transfer_time b'.pacing_rate bytes in
          let moved : MyPacingSender F = record s {
            ideal_next_packet_send_time =
                latest (s.ideal_next_packet_send_time + delay) (now + delay);
            sender = some b';
          } in
          let same : moved ≡ t = cc (simp (on, sent, pacing_packet_sent) at e) in
          rw (← same) (latest_left _ (now + delay), inr (latest_right _ (now + delay)), refl)
    ]
  ]

  acked-Moves :
      (s t : MyPacingSender F) (now p : ℕ)
      → on_congestion_event env s now p ≡ some t
      → (t.ideal_next_packet_send_time ≡ s.ideal_next_packet_send_time)
        × (t.alarm_granularity ≡ s.alarm_granularity)
  unfolding on_congestion_event
  acked-Moves s t now p e = elim (Option-cases s.sender) [
    | inl off ↦
        let same : s ≡ t = cc (simp (off, on_congestion_event) at e) in rw (← same) (refl, refl)
    | inr (b, on) ↦ elim (Option-cases (on_ack env b now p)) [
      | inl fault ↦ absurd (cc (simp (on, fault, on_congestion_event) at e))
      | inr (b', acked) ↦
          let moved : MyPacingSender F = record s { sender = some b' } in
          let same : moved ≡ t = cc (simp (on, acked, on_congestion_event) at e) in
          rw (← same) (refl, refl)
    ]
  ]

  run_ahead :
      (t0 : ℕ) (s0 t : MyPacingSender F) (total : ℕ)
      → Paced t0 s0 t total
      → ((total ≡ 0) ⊎ (t0 + total ≤ t.ideal_next_packet_send_time))
        × (t.alarm_granularity ≡ s0.alarm_granularity)
  run_ahead t0 s0 t total begin = (inl refl, refl)
  run_ahead t0 s0 t total (send s _ n now p bytes run late open_gate e) =
      let (kept, moved, same) = sent-Moves s t now p bytes e in
      let (before, grain) = run_ahead t0 s0 s n run in
      (ahead n (charge t bytes) _ _ now t0 late before kept moved, same ∙ grain)
  run_ahead t0 s0 t total (ack s _ _ now p run e) =
      let (kept, same) = acked-Moves s t now p e in
      let (before, grain) = run_ahead t0 s0 s total run in (rw kept before, same ∙ grain)

  -- Whenever the pacer lets a packet go, the packets that it let go since `t0` took no longer
  -- to transfer, at the rates that were in force, than the time since `t0` and the granularity
  -- of the alarm, however acknowledgements come in between.
  pub no_burst :
      (t0 now : ℕ) (s0 t : MyPacingSender F) (total : ℕ)
      → Paced t0 s0 t total
      → t0 ≤ now
      → time_until_send t now ≡ 0
      → total ≤ now - t0 + s0.alarm_granularity
  no_burst t0 now s0 t total run late gate =
      let (before, grain) = run_ahead t0 s0 t total run in
      elim before [
        | inl none_yet ↦ omega (arith, none_yet)
        | inr ahead_of ↦ omega (arith, ahead_of, grain, gate_open t now gate)
      ]
