-- ===== src/Bbr/Safety/Tuning.antt =====
-- About pacing_gain_ and cycle_current_offset_ of MyBbrSender (my_bbr_sender.cc).
use stupid_simple.Base.{
  ℕ, ◌+◌, ◌%◌, ◌<◌, ◌≡◌, refl, ◌⊎◌, inl, inr, Bool-cases, Option-cases, leb, ltb, ◌==◌, ◌||◌, Bool,
  true, false, if◌then◌else◌, get_or, find, arith,
}
use stupid_simple.Base.Int.{ltb_ℤ, sub_ℕ, pos}
use stupid_simple.Bbr.Env.{BbrEnv}
use stupid_simple.Bbr.State.{
  MyBbrSender, Mode, start_up, probe_bw, probe_rtt, k_pacing_gain, k_gain_cycle_length,
  k_probe_rtt_time, k_min_rtt_expiry, has_sampled_last_min_rtt,
}
use stupid_simple.Bbr.Modes.{
  update_rtt, update_gain_cycle_phase, enter_probe_bandwidth_mode, calculate_pacing_rate,
  enter_probe_rtt, stay_in_probe_rtt, maybe_enter_or_exit_probe_rtt, cluster_info_clear,
}
use stupid_simple.Bbr.Sender.{ack_modes}
use stupid_simple.Bbr.Safety.Quiet.{Mode-cases}
use stupid_simple.Bbr.Safety.Phases.{maybe_other, maybe_stays}

-- The gain of a mode, in quarters.
abbrev pub gain_of : Mode → ℕ → ℕ
gain_of probe_bw offset = get_or k_pacing_gain offset 4
gain_of start_up offset = 4
gain_of probe_rtt offset = 4

module _ {F : Type 0} where
  abbrev pub Tuned : MyBbrSender F → Type 0
  Tuned s =
      (s.cycle_current_offset < k_gain_cycle_length)
      × (s.pacing_gain ≡ gain_of s.mode s.cycle_current_offset)

  -- The three fields are as before.
  abbrev SameGain : MyBbrSender F → MyBbrSender F → Type 0
  SameGain s t =
      (t.mode ≡ s.mode)
      × (t.cycle_current_offset ≡ s.cycle_current_offset)
      × (t.pacing_gain ≡ s.pacing_gain)

  pub SameGain-Tuned : (s t : MyBbrSender F) → SameGain s t → Tuned s → Tuned t
  SameGain-Tuned s t e h = rw (e.0) (rw (e.1) (rw (e.2) h))

  update_rtt-SameGain : (s : MyBbrSender F) (now p : ℕ) → SameGain s (update_rtt s now p)
  unfolding update_rtt
  update_rtt-SameGain s now p = elim (Option-cases (find p s.seq_ts_map)) [
    | inl unknown ↦ rw (unknown, update_rtt) (refl, refl, refl)
    | inr (sent, known) ↦ rw (known, update_rtt) (refl, refl, refl)
  ]

  -- A gain cycle in PROBE_BW.
  pub gain_cycle-Tuned :
      (s : MyBbrSender F) (now : ℕ)
      → s.mode ≡ probe_bw
      → Tuned s
      → Tuned (update_gain_cycle_phase s now)
  unfolding update_gain_cycle_phase
  gain_cycle-Tuned s now m h = elim (Bool-cases (ltb_ℤ s.min_rtt (sub_ℕ now s.last_cycle_start))) [
    | inl due ↦ rw due (rw m (omega arith, refl))
    | inr early ↦ rw early h
  ]

  module _ (env : BbrEnv F) where
    drawn_offset : (n : ℕ) → (if leb 1 (n % 7) then n % 7 + 1 else n % 7) < 8
    drawn_offset n = ground arith

    entered-Tuned :
        (s : MyBbrSender F) (now : ℕ)
        → (s.mode ≡ start_up) ⊎ (s.mode ≡ probe_rtt)
        → Tuned (enter_probe_bandwidth_mode env s now)
    unfolding enter_probe_bandwidth_mode
    entered-Tuned s now (inl e) =
        rw (e, enter_probe_bandwidth_mode) (drawn_offset (env.rand_uint64 s.draws), refl)
    entered-Tuned s now (inr e) =
        rw (e, enter_probe_bandwidth_mode) (drawn_offset (env.rand_uint64 s.draws), refl)

    stayed-SameGain :
        (s : MyBbrSender F) (now : ℕ)
        → s.mode ≡ probe_bw
        → SameGain s (enter_probe_bandwidth_mode env s now)
    unfolding enter_probe_bandwidth_mode
    stayed-SameGain s now e = rw (e, enter_probe_bandwidth_mode) (e, refl, refl)

    enter_bw-Tuned :
        (s : MyBbrSender F) (now : ℕ) → Tuned s → Tuned (enter_probe_bandwidth_mode env s now)
    enter_bw-Tuned s now h = elim (Mode-cases s.mode) [
      | inr (inl e) ↦
          SameGain-Tuned s (enter_probe_bandwidth_mode env s now) (stayed-SameGain s now e) h
      | inl e ↦ entered-Tuned s now (inl e)
      | inr (inr e) ↦ entered-Tuned s now (inr e)
    ]

    calculate-SameGain : (s : MyBbrSender F) → SameGain s (calculate_pacing_rate env s)
    unfolding calculate_pacing_rate
    calculate-SameGain s = elim (Mode-cases s.mode) [
      | inl e ↦ rw (e, calculate_pacing_rate) (e, refl, refl)
      | inr (inl e) ↦ rw (e, calculate_pacing_rate) (e, refl, refl)
      | inr (inr e) ↦ rw (e, calculate_pacing_rate) (e, refl, refl)
    ]

    stay-Tuned : (s : MyBbrSender F) (now : ℕ) → Tuned s → Tuned (stay_in_probe_rtt env s now)
    unfolding stay_in_probe_rtt
    stay-Tuned s now h =
        let exit_at =
          if s.exit_probe_rtt_at == 0 then now + k_probe_rtt_time else s.exit_probe_rtt_at in
        let timed : MyBbrSender F = record s { exit_probe_rtt_at = exit_at } in
        elim (Bool-cases (ltb exit_at now || has_sampled_last_min_rtt timed)) [
          | inl over ↦ rw over (enter_bw-Tuned (record timed { recored_min_rtt = pos 0 }) now h)
          | inr goes_on ↦ rw goes_on h
        ]

    entered_rtt-Tuned : (s : MyBbrSender F) → Tuned s → Tuned (enter_probe_rtt env s)
    unfolding enter_probe_rtt cluster_info_clear
    entered_rtt-Tuned s h = (h.0, refl)

    expired-Tuned :
        (s : MyBbrSender F) (now : ℕ) (expired : Bool)
        → Tuned s
        → Tuned (if expired then stay_in_probe_rtt env (enter_probe_rtt env s) now else s)
    expired-Tuned s now true h = stay-Tuned (enter_probe_rtt env s) now (entered_rtt-Tuned s h)
    expired-Tuned s now false h = h

    maybe-Tuned :
        (s : MyBbrSender F) (now : ℕ) (expired : Bool)
        → Tuned s
        → Tuned (maybe_enter_or_exit_probe_rtt env s now expired)
    maybe-Tuned s now expired h = elim (Mode-cases s.mode) [
      | inl e ↦ rw (maybe_other env s now expired (inl e)) (expired-Tuned s now expired h)
      | inr (inl e) ↦ rw (maybe_other env s now expired (inr e)) (expired-Tuned s now expired h)
      | inr (inr e) ↦ rw (maybe_stays env s now expired e) (stay-Tuned s now h)
    ]

    start_mode-Tuned :
        (s : MyBbrSender F) (now : ℕ)
        → Tuned s
        → Tuned (elim s.mode [ start_up ↦ enter_probe_bandwidth_mode env s now | _ ↦ s ])
    start_mode-Tuned s now h = elim (Mode-cases s.mode) [
      | inl e ↦ simp (e) (enter_bw-Tuned s now h)
      | inr (inl e) ↦ simp e (rw e at h)
      | inr (inr e) ↦ simp e (rw e at h)
    ]

    -- The part of OnAck that deals with the modes keeps the gain in order.
    pub ack_modes-Tuned : (s : MyBbrSender F) (now p : ℕ) → Tuned s → Tuned (ack_modes env s now p)
    unfolding ack_modes
    ack_modes-Tuned s now p h =
        let noted : MyBbrSender F = record s { last_ack_seq = p } in
        let timed : MyBbrSender F = update_rtt noted now p in
        let started : MyBbrSender F = elim timed.mode [
          | start_up ↦ enter_probe_bandwidth_mode env timed now
          | _ ↦ timed
        ] in
        let expired = ltb (started.min_rtt_timestamp + k_min_rtt_expiry) now in
        let begun =
          start_mode-Tuned timed now
            (SameGain-Tuned noted timed (update_rtt-SameGain noted now p) h) in
        let phase = maybe-Tuned started now expired begun in
        let left : MyBbrSender F = maybe_enter_or_exit_probe_rtt env started now expired in
        SameGain-Tuned left (calculate_pacing_rate env left) (calculate-SameGain left) phase
