-- ===== src/Bbr/App/Safety.antt =====
-- About calls of Process of MyBbrSenderApp (my_bbr_sender_app.cc), in a loop.
use mathlib.Core.Path.{subst}
use stupid_simple.Base.{
  zero, suc, ◌-◌, ap, ◌∙◌, ℕ, ◌+◌, ◌%◌, ◌^◌, ◌≤◌, ◌<◌, ◌≡◌, refl, inl, inr, ltb, leb, ◌==◌, true,
  false, if◌then◌else◌, Bool, Bool-cases, not, ◌&&◌, Option, some, List, [], ◌∷◌, ◌++◌, length,
  take, length-take_le, arith, ◌>>=◌, All,
}
use stupid_simple.Bbr.Env.{BbrEnv}
use stupid_simple.Bbr.State.{new_sender}
use stupid_simple.Bbr.Pacing.{new_pacing, time_until_send}
use stupid_simple.Bbr.Safety.Steps.{new_sender-WellFormed}
use stupid_simple.Bbr.App.{Net, payload_of, test_proto_stream, fake_packet, max_packet_size}
use stupid_simple.Bbr.App.Sender.{
  MyBbrSenderApp, new_app, record_rate, send_fake_packet, receive, process,
}
use stupid_simple.Bbr.App.Paced.{pacing_packet_sent_total, process_ack_frame_total, Controlled}

-- The stream packets 1 to n, in this order.
abbrev pub stream_packets : Net → ℕ → List (List ℕ)
stream_packets net zero = []
stream_packets net (suc n) =
    stream_packets net n ++ (fake_packet net test_proto_stream (suc n) ∷ [])

stream_packets-next :
    (net : Net) (n : ℕ)
    → 0 < n
    → stream_packets net (n - 1) ++ (fake_packet net test_proto_stream n ∷ [])
      ≡ stream_packets net n
stream_packets-next net zero positive = absurd (omega arith)
stream_packets-next net (suc n) positive =
    let same : suc n - 1 ≡ n = omega arith in
    ap (λ k. stream_packets net k ++ (fake_packet net test_proto_stream (suc n) ∷ [])) same

module _ {F : Type 0} where
  -- The application has sent the stream packets below seq_, and its controller is well-formed with
  -- all numbers of seq_round_map_ below seq_.
  pub record Running (net : Net) (s : MyBbrSenderApp F) : Type 0 where
    pub started : 0 < s.seq
    pub controlled : Controlled (s.seq - 1) s.pacing
    pub numbered : s.sent ≡ stream_packets net (s.seq - 1)

module _ {F : Type 0} (env : BbrEnv F) (net : Net) where
  send_total :
      (s : MyBbrSenderApp F) (now : ℕ)
      → s.seq + 1 < 2 ^ 32
      → Running net s
      → (t : MyBbrSenderApp F) × (send_fake_packet env net s now ≡ some t)
        × Running net t
        × (t.seq ≤ s.seq + 1)
  unfolding send_fake_packet
  send_total s now room r =
      let (pacing, e, c) =
        pacing_packet_sent_total env (s.seq - 1) s.pacing now s.seq (payload_of net s.seq)
          (omega (arith, r.started)) r.controlled in
      let next : (s.seq + 1) % 2 ^ 32 ≡ s.seq + 1 = omega arith in
      let last : s.seq ≡ (s.seq + 1) % 2 ^ 32 - 1 = omega (arith, next) in
      (
        record s {
          seq = (s.seq + 1) % 2 ^ 32;
          pacing = pacing;
          sent = s.sent ++ (fake_packet net test_proto_stream s.seq ∷ []);
        },
        rw e refl,
        record {
          started = omega (arith, next);
          controlled = subst (λ n. Controlled n pacing) last c;
          numbered =
              ap (λ l. l ++ (fake_packet net test_proto_stream s.seq ∷ [])) r.numbered
              ∙ stream_packets-next net s.seq r.started
              ∙ ap (stream_packets net) last;
        },
        omega (arith, next),
      )

  maybe_send_total :
      (s : MyBbrSenderApp F) (now : ℕ) (gate : Bool)
      → s.seq + 1 < 2 ^ 32
      → Running net s
      → (t : MyBbrSenderApp F) × ((if gate then send_fake_packet env net s now else some s)
          ≡ some t)
        × Running net t
        × (t.seq ≤ s.seq + 1)
  maybe_send_total s now true room r = send_total s now room r
  maybe_send_total s now false room r = (s, refl, r, omega arith)

  receive_total :
      (s : MyBbrSenderApp F) (now : ℕ) (datagram : List ℕ)
      → 0 < now
      → length datagram ≤ max_packet_size
      → Running net s
      → (t : MyBbrSenderApp F) × (receive env net s now datagram ≡ some t)
        × Running net t
        × (t.seq ≡ s.seq)
  unfolding receive
  receive_total s now datagram pos short r = elim (Bool-cases (leb (length datagram) 0)) [
    | inl nothing ↦ (s, rw nothing refl, r, refl)
    | inr something ↦
        let (pacing, e, c) =
          process_ack_frame_total env net (s.seq - 1) s.pacing now (take 1500 datagram) pos
            (omega (arith, length-take_le 1500 datagram)) r.controlled in
        (
          record s { pacing = pacing },
          rw something (rw e refl),
          record { started = r.started; controlled = c; numbered = r.numbered },
          refl,
        )
  ]

  rate_keeps :
      (s : MyBbrSenderApp F) (now : ℕ)
      → ((record_rate env s now).pacing ≡ s.pacing)
        × ((record_rate env s now).seq ≡ s.seq)
        × ((record_rate env s now).sent ≡ s.sent)
  unfolding record_rate
  rate_keeps s now = elim (Bool-cases (s.next == 0)) [
    | inl first ↦ rw first (refl, refl, refl)
    | inr again ↦ elim (Bool-cases (ltb s.next now)) [
      | inl due ↦ rw again (rw due (refl, refl, refl))
      | inr early ↦ rw again (rw early (refl, refl, refl))
    ]
  ]

  Running-transport :
      (s t : MyBbrSenderApp F)
      → t.pacing ≡ s.pacing
      → t.seq ≡ s.seq
      → t.sent ≡ s.sent
      → Running net s
      → Running net t
  Running-transport s t p e d r = record {
    started = rw e (r.started);
    controlled = rw p (rw e (r.controlled));
    numbered = rw d (rw e (r.numbered));
  }

  started_keeps :
      (s : MyBbrSenderApp F) (now : ℕ) (first : Bool)
      → Running net s
      → Running net (if first then record s { ref_time = now } else s)
        × ((if first then record s { ref_time = now } else s).seq ≡ s.seq)
  started_keeps s now true r =
      (record { started = r.started; controlled = r.controlled; numbered = r.numbered }, refl)
  started_keeps s now false r = (r, refl)

  pub process_total :
      (s : MyBbrSenderApp F) (now : ℕ) (datagram : List ℕ)
      → 0 < now
      → length datagram ≤ max_packet_size
      → s.seq + 1 < 2 ^ 32
      → Running net s
      → (goes_on : Bool) × (t : MyBbrSenderApp F) × (process env net s now datagram
          ≡ some (goes_on, t))
        × Running net t
        × (t.seq ≤ s.seq + 1)
  unfolding process
  process_total s now datagram pos short room r =
      let started : MyBbrSenderApp F = if s.ref_time == 0 then record s { ref_time = now } else s in
      let (r0, same) = started_keeps s now (s.ref_time == 0) r in
      let (sent, e1, r1, bound) =
        maybe_send_total started now (time_until_send started.pacing now == 0) (omega (arith, same))
          r0 in
      let (received, e2, r2, same2) = receive_total sent now datagram pos short r1 in
      let (kept, number, datagrams) = rate_keeps received now in
      (
        not (not (received.stop == 0) && ltb received.stop now),
        record_rate env received now,
        rw e1 (rw e2 refl),
        Running-transport received (record_rate env received now) kept number datagrams r2,
        omega (arith, same, bound, same2, number),
      )

  -- The loop of the application: Process at each time, with the datagram that came.
  unfoldable pub run_app : MyBbrSenderApp F → List (ℕ × List ℕ) → Option (MyBbrSenderApp F)
  run_app s [] = some s
  run_app s (e ∷ events) = process env net s e.0 e.1 >>= λ r. run_app r.1 events

  -- Times are positive and datagrams fit the buffer that ProcessAckFrame copies them to.
  abbrev pub Calls : List (ℕ × List ℕ) → Type 0
  Calls = All (λ (e : ℕ × List ℕ). (0 < e.0) × (length e.1 ≤ max_packet_size))

  run_app_from :
      (s : MyBbrSenderApp F) (events : List (ℕ × List ℕ))
      → Calls events
      → s.seq + length events < 2 ^ 32
      → Running net s
      → (t : MyBbrSenderApp F) × (run_app s events ≡ some t)
        × Running net t
        × (t.seq ≤ s.seq + length events)
  unfolding run_app
  run_app_from s [] calls room r = (s, refl, r, omega arith)
  run_app_from s ((now, datagram) ∷ events) calls room r =
      let (goes_on, t, e, r', bound) =
        process_total s now datagram calls.0.0 calls.0.1 (omega arith) r in
      let (u, e', r'', bound') = run_app_from t events calls.1 (omega (arith, bound)) r' in
      (u, rw e e', r'', omega (arith, bound, bound'))

  pub new_app-Running :
      (min_bps start_bps max_bps : ℕ) → Running net (new_app env min_bps start_bps max_bps)
  unfolding new_app new_pacing
  new_app-Running min_bps start_bps max_bps = record {
    started = omega arith;
    controlled = record {
      cc = new_sender env min_bps start_bps max_bps;
      on = refl;
      well = new_sender-WellFormed env min_bps start_bps max_bps;
    };
    numbered = refl;
  }

  -- From the start, any sequence of fewer than 2^32 - 1 calls of Process, at positive times and
  -- with datagrams of any content that are no longer than MaxPacketSize, returns: no cluster
  -- pointer dangles, no cluster without packets is read, and nothing is copied past a buffer.
  -- What SendTo reads behind the sender's own buffer counts as no fault. The datagrams sent are
  -- the stream packets numbered 1, 2 and so on to seq_ - 1, in this order; the controller is
  -- well-formed, with all numbers of seq_round_map_ below seq_; and seq_ is at most one more
  -- than the number of calls.
  pub run_app_total :
      (min_bps start_bps max_bps : ℕ) (events : List (ℕ × List ℕ))
      → Calls events
      → length events + 1 < 2 ^ 32
      → (t : MyBbrSenderApp F) × (run_app (new_app env min_bps start_bps max_bps) events ≡ some t)
        × Running net t
        × (t.seq ≤ length events + 1)
  run_app_total min_bps start_bps max_bps events calls room =
      let start = new_app env min_bps start_bps max_bps in
      let one : start.seq ≡ 1 = unfold new_app in refl in
      let (t, e, r, bound) =
        run_app_from start events calls (omega (arith, one))
          (new_app-Running min_bps start_bps max_bps) in
      (t, e, r, omega (arith, bound, one))
