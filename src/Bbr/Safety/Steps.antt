-- ===== src/Bbr/Safety/Steps.antt =====
-- About OnPacketSent and OnAck of MyBbrSender (my_bbr_sender.cc): well-formed senders.
pub mod Acked
use stupid_simple.Base.{
  ℕ, ◌≤◌, ◌<◌, ◌≡◌, ◌⊎◌, refl, sym, ◌∙◌, inl, inr, Bool-cases, leb, not-leb, some, length, arith,
}
use stupid_simple.Bbr.Env.{BbrEnv}
use stupid_simple.Bbr.State.{MyBbrSender, start_up, probe_bw, new_sender}
use stupid_simple.Bbr.Modes.{update_gain_cycle_phase, add_seq_and_timestamp}
use stupid_simple.Bbr.Sampler.{add_packet_info_sampler}
use stupid_simple.Bbr.Sender.{on_packet_sent, on_ack, ack_modes}
use stupid_simple.Bbr.Safety.Invariant.{Core, Core-empty, Core-weaken}
use stupid_simple.Bbr.Safety.Growth.{add_packet_grows}
use stupid_simple.Bbr.Safety.SendStep.{Grown-Core}
use stupid_simple.Bbr.Safety.AckStep.{ack_cluster_total}
use stupid_simple.Bbr.Safety.Window.{average_window_total}
use stupid_simple.Bbr.Safety.Tuning.{Tuned, SameGain-Tuned, gain_cycle-Tuned, ack_modes-Tuned}
use stupid_simple.Bbr.Safety.Quiet.{
  Kept, Cleared, Counts, Quiet, Quiet-trans, Mode-cases, update_gain_cycle_phase-Quiet,
  gain_cycle_rate,
}
use stupid_simple.Bbr.Safety.Phases.{ack_modes-Phase, ack_modes_floor}

module _ {F : Type 0} where
  -- The invariant behind a last sent packet `top`.
  pub record WellFormed (top : ℕ) (s : MyBbrSender F) : Type 0 where
    pub frontier_round : ℕ
    pub core :
        Core frontier_round s.last_ack_seq top s.round_trip_count s.connection_info s.acked_clusters
          s.seq_round_map
    pub counts : Counts s
    pub short : length s.acked_clusters < 10

  -- The rate is at least min_bps_.
  abbrev pub Floored : MyBbrSender F → Type 0
  Floored s = s.min_bps ≤ s.pacing_rate

  -- What an operation from `s` to `t` keeps besides.
  abbrev pub Keeps : MyBbrSender F → MyBbrSender F → Type 0
  Keeps s t = (Floored s → Floored t) × (Tuned s → Tuned t)

module _ {F : Type 0} (env : BbrEnv F) where
  pub new_sender-WellFormed :
      (min_bps start_bps max_bps : ℕ) → WellFormed 0 (new_sender env min_bps start_bps max_bps)
  unfolding new_sender
  new_sender-WellFormed min_bps start_bps max_bps = record {
    frontier_round = 0;
    core = Core-empty 0 0 0;
    counts = λ e. absurd (not_probing e);
    short = omega arith;
  }
    where
      not_probing : start_up ≡ probe_bw → ⊥
      not_probing e = cc

  other_sent :
      (top : ℕ) (s : MyBbrSender F) (now p bytes : ℕ)
      → top < p
      → WellFormed top s
      → on_packet_sent s now p bytes ≡ some (add_seq_and_timestamp s now p)
      → (t : MyBbrSender F) × (on_packet_sent s now p bytes ≡ some t) × WellFormed p t × Keeps s t
  unfolding add_seq_and_timestamp
  other_sent top s now p bytes lt w e = (
    add_seq_and_timestamp s now p,
    e,
    record {
      frontier_round = w.frontier_round;
      core =
          Core-weaken w.frontier_round s.last_ack_seq top p s.round_trip_count s.round_trip_count
            s.connection_info s.acked_clusters s.seq_round_map (omega arith) (omega arith) w.core;
      counts = w.counts;
      short = w.short;
    },
    ((λ h. h), (λ h. h)),
  )

  Core-transport :
      (m la la' top rtc rtc' : ℕ) (s t : MyBbrSender F)
      → Core m la top rtc s.connection_info s.acked_clusters s.seq_round_map
      → la' ≡ la
      → rtc ≤ rtc'
      → t.connection_info ≡ s.connection_info
      → t.acked_clusters ≡ s.acked_clusters
      → t.seq_round_map ≡ s.seq_round_map
      → Core m la' top rtc' t.connection_info t.acked_clusters t.seq_round_map
  Core-transport m la la' top rtc rtc' s t k e h c q r = rw e (
      rw c (
        rw q (
          rw r (
            Core-weaken m la top top rtc rtc' s.connection_info s.acked_clusters s.seq_round_map
              (omega arith) h k))))

  Quiet-WellFormed :
      (top : ℕ) (s t : MyBbrSender F) → WellFormed top s → Quiet s t → WellFormed top t
  Quiet-WellFormed top s t w q = record {
    frontier_round = w.frontier_round;
    core =
        Core-transport w.frontier_round s.last_ack_seq t.last_ack_seq top s.round_trip_count
          t.round_trip_count s t w.core q.same_ack q.kept.rounds_grow q.kept.same_clusters
          q.kept.same_queue q.kept.same_rounds;
    counts = q.counts w.counts;
    short = rw (q.kept.same_queue) (w.short);
  }

  sampled :
      (top : ℕ) (s : MyBbrSender F) (now p bytes : ℕ)
      → top < p
      → 0 < s.round_trip_count
      → WellFormed top s
      → (t : MyBbrSender F) × (add_packet_info_sampler s now p bytes ≡ some t)
        × WellFormed p t
        × Keeps s t
  sampled top s now p bytes lt m w =
      let (clusters, (e, grown)) = add_packet_grows s now p bytes m w.core.linked w.core.bounded in
      (
        _,
        e,
        record {
          frontier_round = w.frontier_round;
          core =
              Grown-Core w.frontier_round s.last_ack_seq top s.round_trip_count p s.connection_info
                clusters s.acked_clusters s.seq_round_map lt w.core grown;
          counts = w.counts;
          short = w.short;
        },
        ((λ h. h), (λ h. h)),
      )

  noted-Quiet : (s : MyBbrSender F) (now p : ℕ) → Quiet s (add_seq_and_timestamp s now p)
  unfolding add_seq_and_timestamp
  noted-Quiet s now p = record {
    kept = record {
      same_clusters = refl;
      same_queue = refl;
      same_rounds = refl;
      rounds_grow = omega arith;
    };
    counts = λ c. c;
    same_ack = refl;
  }

  probing :
      (s : MyBbrSender F) (now p bytes : ℕ)
      → s.mode ≡ probe_bw
      → on_packet_sent s now p bytes
        ≡ add_packet_info_sampler
            (update_gain_cycle_phase (add_seq_and_timestamp s now p) now)
            now
            p
            bytes
  unfolding on_packet_sent
  probing s now p bytes e = simp (e, on_packet_sent)

  kept_floor : (s : MyBbrSender F) (now : ℕ) → Floored s → Floored (update_gain_cycle_phase s now)
  kept_floor s now h = omega (arith, (gain_cycle_rate s now).0, (gain_cycle_rate s now).1)

  -- OnPacketSent ends without a fault and keeps the invariant.
  pub on_packet_sent_total :
      (top : ℕ) (s : MyBbrSender F) (now p bytes : ℕ)
      → top < p
      → WellFormed top s
      → (t : MyBbrSender F) × (on_packet_sent s now p bytes ≡ some t) × WellFormed p t × Keeps s t
  on_packet_sent_total top s now p bytes lt w = elim (Mode-cases s.mode) [
    | inl e ↦ other_sent top s now p bytes lt w (unfold on_packet_sent in simp (e, on_packet_sent))
    | inr (inr e) ↦
        other_sent top s now p bytes lt w (unfold on_packet_sent in simp (e, on_packet_sent))
    | inr (inl e) ↦
        let noted : MyBbrSender F = add_seq_and_timestamp s now p in
        let still : Quiet s noted = noted-Quiet s now p in
        let cycled = Quiet-trans still (update_gain_cycle_phase-Quiet noted now) in
        let (t, added, w', keeps) =
          sampled top (update_gain_cycle_phase noted now) now p bytes lt
            (omega (arith, w.counts e, cycled.kept.rounds_grow))
            (Quiet-WellFormed top s _ w cycled) in
        (
          t,
          probing s now p bytes e ∙ added,
          w',
          (
            (λ h. keeps.0 (kept_floor noted now (unfold add_seq_and_timestamp in h))),
            (λ h. keeps.1 (
                gain_cycle-Tuned noted now (unfold add_seq_and_timestamp in e)
                  (unfold add_seq_and_timestamp in h))),
          ),
        )
  ]
