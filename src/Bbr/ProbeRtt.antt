-- ===== src/Bbr/ProbeRtt.antt =====
-- About MaybeEnterOrExitProbeRtt and EnterProbeBandwidthMode of MyBbrSender (my_bbr_sender.cc) in
-- PROBE_RTT.
use stupid_simple.Base.{
  ℕ, ◌+◌, ◌%◌, ◌<◌, ◌≡◌, refl, ◌⊎◌, inl, inr, Bool-cases, leb, ltb, ◌==◌, ◌||◌, true, false, List,
  [], ◌∷◌, arith, if◌then◌else◌, ◌≤◌, ◌++◌,
}
use stupid_simple.Base.Int.{pos}
use stupid_simple.Bbr.Env.{BbrEnv}
use stupid_simple.Bbr.State.{
  MyBbrSender, start_up, probe_bw, probe_rtt, k_probe_rtt_time, has_sampled_last_min_rtt,
}
use stupid_simple.Bbr.Safety.Phases.{maybe_other, maybe_stays}
use stupid_simple.Bbr.Modes.{
  enter_probe_bandwidth_mode, enter_probe_rtt, stay_in_probe_rtt, maybe_enter_or_exit_probe_rtt,
}

module _ {F : Type 0} where
  -- In PROBE_BW, and not in the phase that drains.
  abbrev pub Left : MyBbrSender F → Type 0
  Left s = (s.mode ≡ probe_bw) × ¬ (s.cycle_current_offset ≡ 1)

  -- In PROBE_RTT until `exit_at`.
  abbrev Probing : ℕ → MyBbrSender F → Type 0
  Probing exit_at s = (s.mode ≡ probe_rtt) × (s.exit_probe_rtt_at ≡ exit_at)

module _ {F : Type 0} (env : BbrEnv F) where
  -- Calls of MaybeEnterOrExitProbeRtt at some times, the minimum not expired.
  unfoldable pub wait : MyBbrSender F → List ℕ → MyBbrSender F
  wait s [] = s
  wait s (now ∷ times) = wait (maybe_enter_or_exit_probe_rtt env s now false) times

  offset_drains : (n : ℕ) → ¬ ((if leb 1 n then n + 1 else n) ≡ 1)
  offset_drains n = ground arith

  enter-Left :
      (s : MyBbrSender F) (now : ℕ)
      → s.mode ≡ probe_rtt
      → Left (enter_probe_bandwidth_mode env s now)
  unfolding enter_probe_bandwidth_mode
  enter-Left s now m =
      simp (m, enter_probe_bandwidth_mode) (refl, offset_drains (env.rand_uint64 s.draws % 7))

  -- One look at the mode in PROBE_RTT, `exit_at` being the time to leave that holds from it on.
  stay_step :
      (s : MyBbrSender F) (now exit_at : ℕ)
      → s.mode ≡ probe_rtt
      → (if s.exit_probe_rtt_at == 0 then now + k_probe_rtt_time else s.exit_probe_rtt_at) ≡ exit_at
      → Left (stay_in_probe_rtt env s now)
        ⊎ (Probing exit_at (stay_in_probe_rtt env s now) × (now ≤ exit_at))
  unfolding stay_in_probe_rtt
  stay_step s now exit_at m e =
      let timed : MyBbrSender F = record s { exit_probe_rtt_at = exit_at } in
      rw e (elim (Bool-cases (ltb exit_at now || has_sampled_last_min_rtt timed)) [
        | inl over ↦ rw over (inl (enter-Left (record timed { recored_min_rtt = pos 0 }) now m))
        | inr early ↦ rw early (inr ((m, refl), ground (arith, early)))
      ])

  entered_step :
      (s : MyBbrSender F) (now : ℕ)
      → Left (stay_in_probe_rtt env (enter_probe_rtt env s) now)
        ⊎ (Probing (now + k_probe_rtt_time) (stay_in_probe_rtt env (enter_probe_rtt env s) now)
            × (now ≤ now + k_probe_rtt_time))
  unfolding enter_probe_rtt
  entered_step s now = stay_step (enter_probe_rtt env s) now (now + k_probe_rtt_time) refl refl

  set_time :
      (s : MyBbrSender F) (now exit_at : ℕ)
      → 0 < exit_at
      → Probing exit_at s
      → (if s.exit_probe_rtt_at == 0 then now + k_probe_rtt_time else s.exit_probe_rtt_at) ≡ exit_at
  set_time s now exit_at later p =
      let is_set : (exit_at == 0) ≡ false = ground (arith, later) in rw (p.1) (rw is_set refl)

  -- Leaving is for good while the minimum has not expired.
  kept-Left :
      (s : MyBbrSender F) (now : ℕ) → Left s → Left (maybe_enter_or_exit_probe_rtt env s now false)
  kept-Left s now l = rw (maybe_other env s now false (inr (l.0))) l

  wait-Left : (s : MyBbrSender F) (times : List ℕ) → Left s → Left (wait s times)
  unfolding wait
  wait-Left s [] l = l
  wait-Left s (now ∷ times) l =
      wait-Left (maybe_enter_or_exit_probe_rtt env s now false) times (kept-Left s now l)

  wait_step :
      (exit_at : ℕ) (s : MyBbrSender F) (now : ℕ)
      → 0 < exit_at
      → Probing exit_at s
      → Left (maybe_enter_or_exit_probe_rtt env s now false)
        ⊎ (Probing exit_at (maybe_enter_or_exit_probe_rtt env s now false) × (now ≤ exit_at))
  wait_step exit_at s now later p =
      rw (maybe_stays env s now false (p.0))
        (stay_step s now exit_at (p.0) (set_time s now exit_at later p))

  beyond : (a b : ℕ) → a ≤ b → b < a → ⊥
  beyond a b le lt = omega arith

  wait-leaves :
      (exit_at : ℕ) (s : MyBbrSender F) (times : List ℕ) (late : ℕ) (more : List ℕ)
      → 0 < exit_at
      → Probing exit_at s
      → exit_at < late
      → Left (wait s (times ++ late ∷ more))
  unfolding wait
  wait-leaves exit_at s [] late more later p over = elim (wait_step exit_at s late later p) [
    | inl left ↦ wait-Left (maybe_enter_or_exit_probe_rtt env s late false) more left
    | inr (probing, early) ↦ absurd (beyond late exit_at early over)
  ]
  wait-leaves exit_at s (now ∷ times) late more later p over =
      let next = maybe_enter_or_exit_probe_rtt env s now false in
      elim (wait_step exit_at s now later p) [
        | inl left ↦ wait-Left next (times ++ late ∷ more) left
        | inr (probing, early) ↦ wait-leaves exit_at next times late more later probing over
      ]

  -- Where MaybeEnterOrExitProbeRtt is called with an expired minimum at a time above 0 in
  -- START_UP or PROBE_BW, and then at any times with a minimum that has not expired, of which
  -- one comes more than kProbeRttTime after the first call, then the sender is in PROBE_BW
  -- after the last call, and its cycle offset is not 1, that of the gain 0.75, whatever the
  -- random numbers are.
  pub probe_rtt_ends :
      (s : MyBbrSender F) (now : ℕ) (times : List ℕ) (late : ℕ) (more : List ℕ)
      → (s.mode ≡ start_up) ⊎ (s.mode ≡ probe_bw)
      → 0 < now
      → now + k_probe_rtt_time < late
      → Left (wait (maybe_enter_or_exit_probe_rtt env s now true) (times ++ late ∷ more))
  probe_rtt_ends s now times late more m later over =
      let entered = enter_probe_rtt env s in
      let next = stay_in_probe_rtt env entered now in
      rw (maybe_other env s now true m) (elim (entered_step s now) [
        | inl left ↦ wait-Left next (times ++ late ∷ more) left
        | inr (probing, _) ↦
            wait-leaves (now + k_probe_rtt_time) next times late more (omega arith) probing over
      ])
