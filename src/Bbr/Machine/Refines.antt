-- ===== src/Bbr/Machine/Refines.antt =====
-- About runs of MyBbrSender (my_bbr_sender.cc) and the mode machine.
use mathlib.Core.Path.{subst}
use stupid_simple.Base.{
  ℕ, ◌≡◌, refl, sym, inl, inr, Bool-cases, leb, Option, some, bind_some, List, [], ◌∷◌, arith,
  not-leb, ◌>>=◌,
}
use stupid_simple.Base.Int.{ltb_ℤ, sub_ℕ}
use stupid_simple.Bbr.Env.{BbrEnv}
use stupid_simple.Bbr.State.{MyBbrSender, new_sender, probe_bw}
use stupid_simple.Bbr.Modes.{update_gain_cycle_phase, add_seq_and_timestamp}
use stupid_simple.Bbr.Sampler.{ack_cluster}
use stupid_simple.Bbr.Sender.{on_packet_sent, on_ack, ack_modes, average_window}
use stupid_simple.Bbr.Safety.Quiet.{Mode-cases}
use stupid_simple.Bbr.Safety.Control.{
  Control, control, Keeps, Keeps-chain, sampler-Keeps, ack_cluster-Keeps, window-Keeps,
}
use stupid_simple.Bbr.Safety.Run.{Event, sent, acked, Rising, step, run, run_total}
use stupid_simple.Bbr.Machine.{Turn, sends, cycles, ignores, hears, Turns, over, turn}
use stupid_simple.Bbr.Machine.Modes.{Armed, Opens-Armed, Probes-Armed, ack_modes-Probes}

sent-Armed : (now p bytes : ℕ) (c d : Control) → Turn (sent now p bytes) c d → Armed c → Armed d
sent-Armed now p bytes c d (sends _ _ _ _) a = a
sent-Armed now p bytes c d (cycles _ _ _ _ m) a = a

module _ {F : Type 0} where
  -- What is kept, where the result is known.
  known :
      (a : Control) (o : Option (MyBbrSender F)) (t : MyBbrSender F)
      → o ≡ some t
      → Keeps a o
      → control t ≡ a
  known a o t e h = subst (Keeps a) e h

  gain_cycle-Turn :
      (s : MyBbrSender F) (now p bytes : ℕ)
      → s.mode ≡ probe_bw
      → Turn (sent now p bytes) (control s) (control (update_gain_cycle_phase s now))
  unfolding update_gain_cycle_phase
  gain_cycle-Turn s now p bytes m =
      elim (Bool-cases (ltb_ℤ s.min_rtt (sub_ℕ now s.last_cycle_start))) [
        | inl due ↦ rw due (cycles now p bytes (control s) m)
        | inr early ↦ rw early (sends now p bytes (control s))
      ]

  sent-Turn :
      (s t : MyBbrSender F) (now p bytes : ℕ)
      → on_packet_sent s now p bytes ≡ some t
      → Turn (sent now p bytes) (control s) (control t)
  unfolding on_packet_sent add_seq_and_timestamp
  sent-Turn s t now p bytes e =
      let noted = add_seq_and_timestamp s now p in
      elim (Mode-cases s.mode) [
        | inl m ↦
            let same : some noted ≡ some t = rw (m, on_packet_sent) at e in
            subst (λ c. Turn (sent now p bytes) (control s) c)
              (sym (known (control s) (some noted) t same refl)) (sends now p bytes (control s))
        | inr (inr m) ↦
            let same : some noted ≡ some t = rw (m, on_packet_sent) at e in
            subst (λ c. Turn (sent now p bytes) (control s) c)
              (sym (known (control s) (some noted) t same refl)) (sends now p bytes (control s))
        | inr (inl m) ↦
            let cycled = update_gain_cycle_phase noted now in
            subst (λ c. Turn (sent now p bytes) (control s) c)
              (sym (
                known (control cycled) _ t (rw (m, on_packet_sent) at e)
                  (sampler-Keeps cycled now p bytes)))
              (gain_cycle-Turn noted now p bytes m)
      ]

  module _ (env : BbrEnv F) where
    clusters-Keeps :
        (s : MyBbrSender F) (now p : ℕ)
        → Keeps (control s) (ack_cluster env s now p >>= average_window env)
    clusters-Keeps s now p =
        Keeps-chain (control s) (ack_cluster env s now p) (average_window env)
          (ack_cluster-Keeps env s now p)
          (λ t same. subst (λ c. Keeps c (average_window env t)) same (window-Keeps env t))

    acked-Turn :
        (s t : MyBbrSender F) (now p : ℕ)
        → Armed (control s)
        → on_ack env s now p ≡ some t
        → Turn (acked now p) (control s) (control t) × Armed (control t)
    unfolding on_ack
    acked-Turn s t now p a e = elim (Bool-cases (leb p s.last_ack_seq)) [
      | inl old ↦
          let same : s ≡ t = cc (rw (old, on_ack) at e) in
          subst (λ u. Turn (acked now p) (control s) (control u) × Armed (control u)) same
            (ignores now p (control s) (ground (arith, old)), a)
      | inr new ↦
          let later = ack_modes env s now p in
          let (d, opened, probed) = ack_modes-Probes env s now p a in
          let kept =
            known (control later) _ t (rw (new, on_ack) at e) (clusters-Keeps later now p) in
          let armed = Probes-Armed now d (control later) probed (Opens-Armed _ d opened a) in
          subst (λ c. Turn (acked now p) (control s) c × Armed c) (sym kept)
            (
              hears now p (control s) d (control later) (not-leb p s.last_ack_seq new) opened
                  probed,
              armed,
            )
    ]

    step-Turn :
        (s t : MyBbrSender F) (e : Event)
        → Armed (control s)
        → step env s e ≡ some t
        → Turn e (control s) (control t) × Armed (control t)
    step-Turn s t (acked now p) a e = acked-Turn s t now p a e
    step-Turn s t (sent now p bytes) a e =
        let went = sent-Turn s t now p bytes e in
        (went, sent-Armed now p bytes (control s) (control t) went a)

    run-Turns :
        (s t : MyBbrSender F) (events : List Event)
        → Armed (control s)
        → run env s events ≡ some t
        → Turns (control s) events (control t)
    unfolding run
    run-Turns s t [] a e =
        subst (λ u. Turns (control s) [] (control u)) (let same : s ≡ t = cc in same)
          (over (control s))
    run-Turns s t (e ∷ events) a done =
        let (u, went, rest) = bind_some (step env s e) _ t done in
        let (taken, armed) = step-Turn s u e a went in
        turn _ _ _ e events taken (run-Turns u t events armed rest)

    -- From a new sender, any sequence of OnPacketSent and OnAck calls whose packet numbers
    -- rise from above 0 and whose acknowledgements come at positive times takes mode_,
    -- cycle_current_offset_, exit_probe_rtt_at_ and last_ack_seq_ through the mode machine,
    -- one turn for each call: a sent packet at most moves the gain cycle by one, in PROBE_BW;
    -- an acknowledgement whose number is not above last_ack_seq_ does nothing; any other one
    -- is noted, ends STARTUP, and may begin PROBE_RTT, with 200 ms as the time to leave, or
    -- end it; PROBE_RTT goes on at no time past that one, and PROBE_BW begins at any offset
    -- but the one that drains.
    pub run_keeps_to_machine :
        (min_bps start_bps max_bps : ℕ) (events : List Event)
        → Rising 0 events
        → (t : MyBbrSender F) × (run env (new_sender env min_bps start_bps max_bps) events ≡ some t)
          × Turns (control (new_sender env min_bps start_bps max_bps)) events (control t)
    unfolding new_sender
    run_keeps_to_machine min_bps start_bps max_bps events r =
        let (t, e, _, _) = run_total env min_bps start_bps max_bps events r in
        (t, e, run-Turns (new_sender env min_bps start_bps max_bps) t events (λ m. absurd (cc)) e)
