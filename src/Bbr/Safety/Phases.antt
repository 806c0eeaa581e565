-- ===== src/Bbr/Safety/Phases.antt =====
-- About the modes of MyBbrSender (my_bbr_sender.cc) and the clusters.
use stupid_simple.Base.{
  if◌then◌else◌, ltb, ◌==◌, ◌||◌, true, false, ℕ, ◌+◌, ◌≤◌, ◌≡◌, refl, ◌∙◌, ◌⊎◌, inl, inr,
  Bool-cases, arith, Bool,
}
use stupid_simple.Base.Int.{pos}
use stupid_simple.Bbr.Env.{BbrEnv}
use stupid_simple.Bbr.State.{
  MyBbrSender, start_up, probe_bw, probe_rtt, k_probe_rtt_time, k_min_rtt_expiry,
  has_sampled_last_min_rtt,
}
use stupid_simple.Bbr.Modes.{
  update_rtt, enter_probe_bandwidth_mode, calculate_pacing_rate, enter_probe_rtt, stay_in_probe_rtt,
  maybe_enter_or_exit_probe_rtt, cluster_info_clear,
}
use stupid_simple.Bbr.Sender.{ack_modes}
use stupid_simple.Bbr.Safety.Quiet.{
  Mode-cases, Kept, Cleared, Counts, Kept-refl, Kept-trans, Cleared-Kept, Quiet, Quiet-trans,
  Unchanged, Unchanged-Quiet, NextRound, NextRound-Quiet, update_rtt-Quiet,
}

module _ {F : Type 0} where
  module _ (env : BbrEnv F) where
    entered :
        (s : MyBbrSender F) (now : ℕ)
        → (s.mode ≡ start_up) ⊎ (s.mode ≡ probe_rtt)
        → NextRound s (enter_probe_bandwidth_mode env s now)
    unfolding enter_probe_bandwidth_mode
    entered s now (inl e) = rw (e, enter_probe_bandwidth_mode) (refl, refl, refl, refl, refl)
    entered s now (inr e) = rw (e, enter_probe_bandwidth_mode) (refl, refl, refl, refl, refl)

    stayed :
        (s : MyBbrSender F) (now : ℕ)
        → s.mode ≡ probe_bw
        → Unchanged s (enter_probe_bandwidth_mode env s now)
    unfolding enter_probe_bandwidth_mode
    stayed s now e = rw (e, enter_probe_bandwidth_mode) (refl, refl, refl, refl, e, refl)

    enter_bw-Quiet : (s : MyBbrSender F) (now : ℕ) → Quiet s (enter_probe_bandwidth_mode env s now)
    enter_bw-Quiet s now = elim (Mode-cases s.mode) [
      | inr (inl e) ↦ Unchanged-Quiet s _ (stayed s now e)
      | inl e ↦ NextRound-Quiet s _ (entered s now (inl e))
      | inr (inr e) ↦ NextRound-Quiet s _ (entered s now (inr e))
    ]

    computed : (s : MyBbrSender F) → Unchanged s (calculate_pacing_rate env s)
    unfolding calculate_pacing_rate
    computed s = elim (Mode-cases s.mode) [
      | inl e ↦ rw (e, calculate_pacing_rate) (refl, refl, refl, refl, e, refl)
      | inr (inl e) ↦ rw (e, calculate_pacing_rate) (refl, refl, refl, refl, e, refl)
      | inr (inr e) ↦ rw (e, calculate_pacing_rate) (refl, refl, refl, refl, e, refl)
    ]

    calculate-Quiet : (s : MyBbrSender F) → Quiet s (calculate_pacing_rate env s)
    calculate-Quiet s = Unchanged-Quiet s _ (computed s)

    stay-Quiet : (s : MyBbrSender F) (now : ℕ) → Quiet s (stay_in_probe_rtt env s now)
    unfolding stay_in_probe_rtt
    stay-Quiet s now =
        let exit_at =
          if s.exit_probe_rtt_at == 0 then now + k_probe_rtt_time else s.exit_probe_rtt_at in
        let timed : MyBbrSender F = record s { exit_probe_rtt_at = exit_at } in
        elim (Bool-cases (ltb exit_at now || has_sampled_last_min_rtt timed)) [
          | inl over ↦ rw over (
              Quiet-trans
                (Unchanged-Quiet s (record timed { recored_min_rtt = pos 0 })
                  (refl, refl, refl, refl, refl, refl))
                (enter_bw-Quiet _ now))
          | inr goes_on ↦ rw goes_on (Unchanged-Quiet s timed (refl, refl, refl, refl, refl, refl))
        ]

    -- What PROBE_RTT does to the clusters: it keeps them, or it clears them all at its start.
    abbrev Phase : (s t : MyBbrSender F) → Type 0
    Phase s t = (Kept s t ⊎ Cleared t) × (Counts s → Counts t) × (t.last_ack_seq ≡ s.last_ack_seq)

    entered_rtt :
        (s : MyBbrSender F)
        → Cleared (enter_probe_rtt env s)
          × Counts (enter_probe_rtt env s)
          × ((enter_probe_rtt env s).last_ack_seq ≡ s.last_ack_seq)
    unfolding enter_probe_rtt cluster_info_clear
    entered_rtt s = (
      record { no_clusters = refl; no_queue = refl; no_rounds = refl },
      λ e. absurd (mode_no_conf e),
      refl,
    )
      where
        mode_no_conf : probe_rtt ≡ probe_bw → ⊥
        mode_no_conf e = cc

    expired-Phase :
        (s : MyBbrSender F) (now : ℕ) (expired : Bool)
        → Phase s (if expired then stay_in_probe_rtt env (enter_probe_rtt env s) now else s)
    expired-Phase s now true =
        let (gone, counts, same) = entered_rtt s in
        let quiet = stay-Quiet (enter_probe_rtt env s) now in
        (inr (Cleared-Kept gone quiet.kept), (λ c. quiet.counts counts), quiet.same_ack ∙ same)
    expired-Phase s now false = (inl (Kept-refl s), (λ c. c), refl)

    pub maybe_other :
        (s : MyBbrSender F) (now : ℕ) (expired : Bool)
        → (s.mode ≡ start_up) ⊎ (s.mode ≡ probe_bw)
        → maybe_enter_or_exit_probe_rtt env s now expired
          ≡ (if expired then stay_in_probe_rtt env (enter_probe_rtt env s) now else s)
    unfolding maybe_enter_or_exit_probe_rtt
    maybe_other s now expired (inl e) = simp (e, maybe_enter_or_exit_probe_rtt)
    maybe_other s now expired (inr e) = simp (e, maybe_enter_or_exit_probe_rtt)

    pub maybe_stays :
        (s : MyBbrSender F) (now : ℕ) (expired : Bool)
        → s.mode ≡ probe_rtt
        → maybe_enter_or_exit_probe_rtt env s now expired ≡ stay_in_probe_rtt env s now
    unfolding maybe_enter_or_exit_probe_rtt
    maybe_stays s now expired e = simp (e, maybe_enter_or_exit_probe_rtt)

    maybe-Phase :
        (s : MyBbrSender F) (now : ℕ) (expired : Bool)
        → Phase s (maybe_enter_or_exit_probe_rtt env s now expired)
    maybe-Phase s now expired = elim (Mode-cases s.mode) [
      | inl e ↦ rw (maybe_other s now expired (inl e)) (expired-Phase s now expired)
      | inr (inl e) ↦ rw (maybe_other s now expired (inr e)) (expired-Phase s now expired)
      | inr (inr e) ↦
          let quiet = stay-Quiet s now in
          rw (maybe_stays s now expired e) (inl quiet.kept, quiet.counts, quiet.same_ack)
    ]

    start_mode-Quiet :
        (s : MyBbrSender F) (now : ℕ)
        → Quiet s (elim s.mode [ start_up ↦ enter_probe_bandwidth_mode env s now | _ ↦ s ])
    start_mode-Quiet s now = elim (Mode-cases s.mode) [
      | inl e ↦ simp (e) (enter_bw-Quiet s now)
      | inr (inl e) ↦ simp (e) (Unchanged-Quiet s s (refl, refl, refl, refl, refl, refl))
      | inr (inr e) ↦ simp (e) (Unchanged-Quiet s s (refl, refl, refl, refl, refl, refl))
    ]

    chain :
        (s noted begun phase t : MyBbrSender F)
        → Kept s noted
        → (Counts s → Counts noted)
        → Quiet noted begun
        → Phase begun phase
        → Quiet phase t
        → (Kept s t ⊎ Cleared t) × (Counts s → Counts t) × (t.last_ack_seq ≡ noted.last_ack_seq)
    chain s noted begun phase t same c start (inl kept, counts, acked) last = (
      inl (Kept-trans (Kept-trans same start.kept) (Kept-trans kept last.kept)),
      (λ k. last.counts (counts (start.counts (c k)))),
      last.same_ack ∙ acked ∙ start.same_ack,
    )
    chain s noted begun phase t same c start (inr gone, counts, acked) last = (
      inr (Cleared-Kept gone last.kept),
      (λ k. last.counts (counts (start.counts (c k)))),
      last.same_ack ∙ acked ∙ start.same_ack,
    )

    -- The part of OnAck that deals with the round-trip time, the mode and the rate.
    pub ack_modes-Phase :
        (s : MyBbrSender F) (now p : ℕ)
        → (Kept s (ack_modes env s now p) ⊎ Cleared (ack_modes env s now p))
          × (Counts s → Counts (ack_modes env s now p))
          × ((ack_modes env s now p).last_ack_seq ≡ p)
    unfolding ack_modes
    ack_modes-Phase s now p =
        let noted : MyBbrSender F = record s { last_ack_seq = p } in
        let timed : MyBbrSender F = update_rtt noted now p in
        let started : MyBbrSender F = elim timed.mode [
          | start_up ↦ enter_probe_bandwidth_mode env timed now
          | _ ↦ timed
        ] in
        let expired = ltb (started.min_rtt_timestamp + k_min_rtt_expiry) now in
        chain s noted started (maybe_enter_or_exit_probe_rtt env started now expired) _
          (record {
            same_clusters = refl;
            same_queue = refl;
            same_rounds = refl;
            rounds_grow = omega arith;
          })
          (λ c. c) (Quiet-trans (update_rtt-Quiet noted now p) (start_mode-Quiet timed now))
          (maybe-Phase started now expired) (calculate-Quiet _)

    calculate_floor :
        (s : MyBbrSender F)
        → (calculate_pacing_rate env s).min_bps ≤ (calculate_pacing_rate env s).pacing_rate
    unfolding calculate_pacing_rate
    calculate_floor s = elim (Mode-cases s.mode) [
      | inl e ↦ rw (e, calculate_pacing_rate) (omega arith)
      | inr (inl e) ↦ rw (e, calculate_pacing_rate) (ground arith)
      | inr (inr e) ↦ rw (e, calculate_pacing_rate) (omega arith)
    ]

    -- The rate after the modes is at least min_bps_.
    pub ack_modes_floor :
        (s : MyBbrSender F) (now p : ℕ)
        → (ack_modes env s now p).min_bps ≤ (ack_modes env s now p).pacing_rate
    unfolding ack_modes
    ack_modes_floor s now p = calculate_floor _
