-- ===== src/Bbr/Safety/Steps/Acked.antt =====
-- About OnAck of MyBbrSender (my_bbr_sender.cc) and its invariant.
use stupid_simple.Base.{
  ℕ, ◌<◌, ◌≡◌, ◌⊎◌, refl, sym, ◌∙◌, inl, inr, Bool-cases, leb, not-leb, some, arith,
}
use stupid_simple.Bbr.Env.{BbrEnv}
use stupid_simple.Bbr.State.{MyBbrSender}
use stupid_simple.Bbr.Sender.{on_ack, ack_modes}
use stupid_simple.Bbr.Safety.Invariant.{Core, Core-empty}
use stupid_simple.Bbr.Safety.AckStep.{ack_cluster_total}
use stupid_simple.Bbr.Safety.Window.{average_window_total}
use stupid_simple.Bbr.Safety.Tuning.{SameGain-Tuned, ack_modes-Tuned}
use stupid_simple.Bbr.Safety.Quiet.{Kept, Cleared}
use stupid_simple.Bbr.Safety.Phases.{ack_modes-Phase, ack_modes_floor}
use stupid_simple.Bbr.Safety.Steps.{WellFormed, Keeps, Core-transport}

module _ {F : Type 0} (env : BbrEnv F) where
  -- The clusters after the modes, with respect to the last acknowledgement before.
  phase-Core :
      (top : ℕ) (s t : MyBbrSender F)
      → WellFormed top s
      → Kept s t ⊎ Cleared t
      → (m : ℕ) × Core m s.last_ack_seq top t.round_trip_count t.connection_info t.acked_clusters
          t.seq_round_map
  phase-Core top s t w (inl k) = (
    w.frontier_round,
    Core-transport env w.frontier_round s.last_ack_seq s.last_ack_seq top s.round_trip_count
        t.round_trip_count s t w.core refl k.rounds_grow k.same_clusters k.same_queue k.same_rounds,
  )
  phase-Core top s t w (inr gone) = (
    0,
    rw (gone.no_clusters) (
        rw (gone.no_queue)
          (rw (gone.no_rounds) (Core-empty s.last_ack_seq top t.round_trip_count))),
  )

  -- OnAck ends without a fault and keeps the invariant.
  pub on_ack_total :
      (top : ℕ) (s : MyBbrSender F) (now p : ℕ)
      → 0 < now
      → WellFormed top s
      → (t : MyBbrSender F) × (on_ack env s now p ≡ some t) × WellFormed top t × Keeps s t
  on_ack_total top s now p pos w = elim (Bool-cases (leb p s.last_ack_seq)) [
    | inl old ↦ (s, unfold on_ack in rw old refl, w, ((λ h. h), (λ h. h)))
    | inr new ↦
        let (phase, counts, noted) = ack_modes-Phase env s now p in
        let (m, k) = phase-Core top s (ack_modes env s now p) w phase in
        let (n, clusters, queue, rounds, filter, found, k') =
          ack_cluster_total env (ack_modes env s now p) m s.last_ack_seq top _ p now k
            (not-leb p s.last_ack_seq new) pos in
        let (t, ended, k'', short, mode, rtc, last, rate, least, offset, gain) =
          average_window_total env n p top _
            (record (ack_modes env s now p) {
              connection_info = clusters;
              acked_clusters = queue;
              seq_round_map = rounds;
              max_bandwidth = filter;
            })
            k' in
        (
          t,
          unfold on_ack in rw new (rw found ended),
          record {
            frontier_round = n;
            core = rw (rtc, last ∙ noted) k'';
            counts = λ e. omega (arith, rtc, counts w.counts (sym mode ∙ e));
            short = short;
          },
          (
            (λ _. omega (arith, rate, least, ack_modes_floor env s now p)),
            (λ h.
                SameGain-Tuned (ack_modes env s now p) t (mode, offset, gain)
                  (ack_modes-Tuned env s now p h)),
          ),
        )
  ]
