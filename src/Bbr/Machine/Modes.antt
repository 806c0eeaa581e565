-- ===== src/Bbr/Machine/Modes.antt =====
-- What UpdateRtt, EnterProbeBandwidthMode, MaybeEnterOrExitProbeRtt and CalculatePacingRate do to the mode
-- machine of MyBbrSender.
use mathlib.Core.Path.{subst}
use stupid_simple.Base.{
  ℕ, ◌+◌, ◌%◌, ◌<◌, ◌≡◌, refl, sym, ◌⊎◌, inl, inr, Bool-cases, Option-cases, leb, ltb, ◌==◌, ◌||◌,
  Bool, true, false, if◌then◌else◌, find, arith,
}
use stupid_simple.Base.Int.{pos}
use stupid_simple.Bbr.Env.{BbrEnv}
use stupid_simple.Bbr.State.{
  MyBbrSender, start_up, probe_rtt, k_probe_rtt_time, k_min_rtt_expiry, has_sampled_last_min_rtt,
}
use stupid_simple.Bbr.Modes.{
  update_rtt, enter_probe_bandwidth_mode, calculate_pacing_rate, enter_probe_rtt, stay_in_probe_rtt,
  maybe_enter_or_exit_probe_rtt, cluster_info_clear,
}
use stupid_simple.Bbr.Sender.{ack_modes}
use stupid_simple.Bbr.Safety.Quiet.{Mode-cases}
use stupid_simple.Bbr.Safety.Phases.{maybe_other, maybe_stays}
use stupid_simple.Bbr.Safety.Control.{Control, control}
use stupid_simple.Bbr.Machine.{
  Draws, drawn, Opens, opens, is_open, Probes, idle, begins, waits, leaves,
}

-- In PROBE_RTT the time to leave is set.
abbrev pub Armed : Control → Type 0
Armed c = c.mode ≡ probe_rtt → 0 < c.exit_at

Draws-Armed : (c d : Control) → Draws c d → Armed d
Draws-Armed c d (drawn n small rising) e = absurd (cc)

pub Opens-Armed : (c d : Control) → Opens c d → Armed c → Armed d
Opens-Armed c d (opens e draws) a = Draws-Armed c d draws
Opens-Armed c d (is_open other) a = a

pub Probes-Armed : (now : ℕ) (c d : Control) → Probes now c d → Armed c → Armed d
Probes-Armed now c d (idle other) a = a
Probes-Armed now c d (begins other) a = λ e. omega arith
Probes-Armed now c d (waits e early) a = a
Probes-Armed now c d (leaves e draws) a = Draws-Armed c d draws

module _ {F : Type 0} where
  timed_control : (s : MyBbrSender F) (now p : ℕ) → control (update_rtt s now p) ≡ control s
  unfolding update_rtt
  timed_control s now p = elim (Option-cases (find p s.seq_ts_map)) [
    | inl unknown ↦ rw (unknown, update_rtt) refl
    | inr (sent, known) ↦ rw (known, update_rtt) refl
  ]

  module _ (env : BbrEnv F) where
    rate_control : (s : MyBbrSender F) → control (calculate_pacing_rate env s) ≡ control s
    unfolding calculate_pacing_rate
    rate_control s = elim (Mode-cases s.mode) [
      | inl e ↦ simp (e, calculate_pacing_rate)
      | inr (inl e) ↦ simp (e, calculate_pacing_rate)
      | inr (inr e) ↦ simp (e, calculate_pacing_rate)
    ]

    drawn_small : (n : ℕ) → (if leb 1 (n % 7) then n % 7 + 1 else n % 7) < 8
    drawn_small n = ground arith

    drawn_rises : (n : ℕ) → ¬ ((if leb 1 n then n + 1 else n) ≡ 1)
    drawn_rises n = ground arith

    enter-Draws :
        (s : MyBbrSender F) (now : ℕ)
        → (s.mode ≡ start_up) ⊎ (s.mode ≡ probe_rtt)
        → Draws (control s) (control (enter_probe_bandwidth_mode env s now))
    unfolding enter_probe_bandwidth_mode
    enter-Draws s now (inl e) =
        rw (e, enter_probe_bandwidth_mode)
          (drawn _ (drawn_small (env.rand_uint64 s.draws))
            (drawn_rises (env.rand_uint64 s.draws % 7)))
    enter-Draws s now (inr e) =
        rw (e, enter_probe_bandwidth_mode)
          (drawn _ (drawn_small (env.rand_uint64 s.draws))
            (drawn_rises (env.rand_uint64 s.draws % 7)))

    left_mode :
        (s t : MyBbrSender F) → ¬ (s.mode ≡ start_up) → elim s.mode [ start_up ↦ t | _ ↦ s ] ≡ s
    left_mode s t other = elim (Mode-cases s.mode) [
      | inl e ↦ absurd (other e)
      | inr (inl e) ↦ simp e
      | inr (inr e) ↦ simp e
    ]

    start-Opens :
        (s : MyBbrSender F) (now : ℕ)
        → Opens
            (control s)
            (control (elim s.mode [ start_up ↦ enter_probe_bandwidth_mode env s now | _ ↦ s ]))
    start-Opens s now = elim (Mode-cases s.mode) [
      | inl e ↦
          let started : MyBbrSender F = enter_probe_bandwidth_mode env s now in
          let went : elim s.mode [ start_up ↦ started | _ ↦ s ] ≡ started = simp e in
          subst (λ t. Opens (control s) (control t)) (sym went)
            (opens e (enter-Draws s now (inl e)))
      | inr e ↦
          let other : ¬ (s.mode ≡ start_up) =
            λ h. elim e [ inl m ↦ absurd (cc) | inr m ↦ absurd (cc) ] in
          subst (λ t. Opens (control s) (control t)) (sym (left_mode s _ other)) (is_open other)
    ]

    stay-Probes :
        (s : MyBbrSender F) (now : ℕ)
        → s.mode ≡ probe_rtt
        → 0 < s.exit_probe_rtt_at
        → Probes now (control s) (control (stay_in_probe_rtt env s now))
    unfolding stay_in_probe_rtt
    stay-Probes s now m armed =
        let is_set : (s.exit_probe_rtt_at == 0) ≡ false = ground (arith, armed) in
        rw is_set (elim (Bool-cases (ltb s.exit_probe_rtt_at now || has_sampled_last_min_rtt s)) [
          | inl over ↦
              rw over (leaves m (enter-Draws (record s { recored_min_rtt = pos 0 }) now (inr m)))
          | inr early ↦ rw early (waits m (ground (arith, early)))
        ])

    begin-Probes :
        (s : MyBbrSender F) (now : ℕ)
        → ¬ (s.mode ≡ probe_rtt)
        → Probes now (control s) (control (stay_in_probe_rtt env (enter_probe_rtt env s) now))
    unfolding stay_in_probe_rtt enter_probe_rtt cluster_info_clear has_sampled_last_min_rtt
    begin-Probes s now other =
        let early : ltb (now + k_probe_rtt_time) now ≡ false = ground arith in
        rw early (begins other)

    expired-Probes :
        (s : MyBbrSender F) (now : ℕ) (expired : Bool)
        → ¬ (s.mode ≡ probe_rtt)
        → Probes now
            (control s)
            (control (if expired then stay_in_probe_rtt env (enter_probe_rtt env s) now else s))
    expired-Probes s now true other = begin-Probes s now other
    expired-Probes s now false other = idle other

    maybe-Probes :
        (s : MyBbrSender F) (now : ℕ) (expired : Bool)
        → Armed (control s)
        → Probes now (control s) (control (maybe_enter_or_exit_probe_rtt env s now expired))
    maybe-Probes s now expired a = elim (Mode-cases s.mode) [
      | inl e ↦
          rw (maybe_other env s now expired (inl e))
            (expired-Probes s now expired (λ h. absurd (cc)))
      | inr (inl e) ↦
          rw (maybe_other env s now expired (inr e))
            (expired-Probes s now expired (λ h. absurd (cc)))
      | inr (inr e) ↦ rw (maybe_stays env s now expired e) (stay-Probes s now e (a e))
    ]

    -- The part of OnAck that deals with the modes.
    pub ack_modes-Probes :
        (s : MyBbrSender F) (now p : ℕ)
        → Armed (control s)
        → (d : Control) × Opens (record (control s) { last_ack = p }) d
          × Probes now d (control (ack_modes env s now p))
    unfolding ack_modes
    ack_modes-Probes s now p a =
        let noted : MyBbrSender F = record s { last_ack_seq = p } in
        let timed : MyBbrSender F = update_rtt noted now p in
        let started : MyBbrSender F = elim timed.mode [
          | start_up ↦ enter_probe_bandwidth_mode env timed now
          | _ ↦ timed
        ] in
        let expired = ltb (started.min_rtt_timestamp + k_min_rtt_expiry) now in
        let same = timed_control noted now p in
        let opened = subst (λ c. Opens c (control started)) same (start-Opens timed now) in
        let left : MyBbrSender F = maybe_enter_or_exit_probe_rtt env started now expired in
        (
          control started,
          opened,
          subst (Probes now (control started)) (sym (rate_control left)) (
              maybe-Probes started now expired
                (Opens-Armed (control noted) (control started) opened a)),
        )
