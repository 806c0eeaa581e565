-- ===== src/Bbr/Modes.antt =====
-- The round-trip times, the gain cycle and the three modes of MyBbrSender.
use stupid_simple.Base.{
  ℕ, ◌+◌, ◌%◌, ◌-◌, ltb, leb, ◌==◌, ◌&&◌, ◌||◌, not, Bool, true, if◌then◌else◌, none, some, List,
  [], ◌∷◌, get_or, find, insert,
}
use stupid_simple.Base.Int.{ℤ, pos, sub_ℕ, ltb_ℤ, is_zero}
use stupid_simple.Bbr.Env.{BbrEnv, times_similar_threshold}
use stupid_simple.Bbr.State.{
  probe_bw, probe_rtt, MyBbrSender, k_pacing_gain, k_gain_cycle_length, k_probe_rtt_time,
  bandwidth_estimate, has_sampled_last_min_rtt,
}

-- The loop of UpdateRtt that drops the send times up to `packet_number`.
unfoldable pub drop_le : ℕ → List (ℕ × ℕ) → List (ℕ × ℕ)
drop_le p [] = []
drop_le p ((k, t) ∷ m) = if leb k p then drop_le p m else (k, t) ∷ m

-- The new minimum of a sample, and whether min_rtt_timestamp_ moves to now.
unfoldable pub min_rtt_sample : ℤ → ℤ → ℤ × Bool
min_rtt_sample min_rtt rtt =
    if is_zero min_rtt
    then (rtt, true)
    else (if ltb_ℤ rtt min_rtt
        then (rtt, true)
        else (min_rtt, ltb_ℤ min_rtt rtt && not (ltb_ℤ (times_similar_threshold min_rtt) rtt)))

module _ {F : Type 0} where
  -- UpdateRtt
  unfoldable pub update_rtt : MyBbrSender F → ℕ → ℕ → MyBbrSender F
  unfolding min_rtt_sample drop_le
  update_rtt s now packet_number = elim (find packet_number s.seq_ts_map) [
    | none ↦ record s { seq_ts_map = drop_le packet_number s.seq_ts_map }
    | some sent ↦ record s {
      min_rtt = (min_rtt_sample s.min_rtt (sub_ℕ now sent)).0;
      min_rtt_timestamp =
          if (min_rtt_sample s.min_rtt (sub_ℕ now sent)).1 then now else s.min_rtt_timestamp;
      seq_ts_map = drop_le packet_number s.seq_ts_map;
    }
  ]

  -- UpdateGainCyclePhase
  unfoldable pub update_gain_cycle_phase : MyBbrSender F → ℕ → MyBbrSender F
  update_gain_cycle_phase s now =
      let offset = (s.cycle_current_offset + 1) % k_gain_cycle_length in
      if ltb_ℤ s.min_rtt (sub_ℕ now s.last_cycle_start)
      then record s {
        cycle_current_offset = offset;
        last_cycle_start = now;
        pacing_gain = get_or k_pacing_gain offset 4;
        round_trip_count = s.round_trip_count + 1;
      }
      else s

  -- AddSeqAndTimestamp
  unfoldable pub add_seq_and_timestamp : MyBbrSender F → ℕ → ℕ → MyBbrSender F
  add_seq_and_timestamp s now packet_number = record s {
    seq_ts_map = insert packet_number now s.seq_ts_map;
  }

module _ {F : Type 0} (env : BbrEnv F) where
  -- EnterProbeBandwidthMode
  unfoldable pub enter_probe_bandwidth_mode : MyBbrSender F → ℕ → MyBbrSender F
  enter_probe_bandwidth_mode s now = elim s.mode [
    | probe_bw ↦ s
    | _ ↦
        let drawn = env.rand_uint64 s.draws % (k_gain_cycle_length - 1) in
        let offset = if leb 1 drawn then drawn + 1 else drawn in
        record s {
          mode = probe_bw;
          cycle_current_offset = offset;
          last_cycle_start = now;
          pacing_gain = get_or k_pacing_gain offset 4;
          round_trip_count = s.round_trip_count + 1;
          draws = s.draws + 1;
        }
  ]

  -- ClusterInfoClear
  unfoldable pub cluster_info_clear : MyBbrSender F → MyBbrSender F
  cluster_info_clear s = record s {
    max_bandwidth = env.reset s.max_bandwidth 0 0;
    avergae_bandwidth = env.reset s.avergae_bandwidth 0 0;
    seq_round_map = [];
    acked_clusters = [];
    average_round = 0;
    connection_info = [];
  }

  -- The first block of MaybeEnterOrExitProbeRtt.
  unfoldable pub enter_probe_rtt : MyBbrSender F → MyBbrSender F
  unfolding cluster_info_clear
  enter_probe_rtt s = cluster_info_clear (record s {
    mode = probe_rtt;
    pacing_gain = 4;
    exit_probe_rtt_at = 0;
    round_trip_count = 0;
    recored_min_rtt = s.min_rtt;
    min_rtt = pos 0;
    seq_ts_map = [];
  })

  -- The second block: the time to leave is set once, and the mode left when it is over or the
  -- minimum was met again.
  unfoldable pub stay_in_probe_rtt : MyBbrSender F → ℕ → MyBbrSender F
  stay_in_probe_rtt s now =
      let exit_at =
        if s.exit_probe_rtt_at == 0 then now + k_probe_rtt_time else s.exit_probe_rtt_at in
      let timed = record s { exit_probe_rtt_at = exit_at } in
      if ltb exit_at now || has_sampled_last_min_rtt timed
      then enter_probe_bandwidth_mode (record timed { recored_min_rtt = pos 0 }) now
      else timed

  -- MaybeEnterOrExitProbeRtt
  unfoldable pub maybe_enter_or_exit_probe_rtt : MyBbrSender F → ℕ → Bool → MyBbrSender F
  unfolding enter_probe_rtt stay_in_probe_rtt
  maybe_enter_or_exit_probe_rtt s now min_rtt_expired = elim s.mode [
    | probe_rtt ↦ stay_in_probe_rtt s now
    | _ ↦ if min_rtt_expired then stay_in_probe_rtt (enter_probe_rtt s) now else s
  ]

  -- CalculatePacingRate
  unfoldable pub calculate_pacing_rate : MyBbrSender F → MyBbrSender F
  unfolding bandwidth_estimate
  calculate_pacing_rate s = elim s.mode [
    | probe_bw ↦
        let target = env.scale s.pacing_gain (bandwidth_estimate env s) in
        record s { pacing_rate = if ltb target s.min_bps then s.min_bps else target }
    | _ ↦ record s { pacing_rate = s.min_bps }
  ]
