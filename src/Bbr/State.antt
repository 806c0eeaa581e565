-- ===== src/Bbr/State.antt =====
-- The state of MyBbrSender (my_bbr_sender.{h,cc}), its constants, and the functions that only read it.
use stupid_simple.Base.{
  ℕ, ◌+◌, ltb, leb, ◌&&◌, not, Bool, true, false, if◌then◌else◌, List, [], ◌∷◌,
}
use stupid_simple.Base.Int.{ℤ, pos, ltb_ℤ, is_zero}
use stupid_simple.Bbr.Env.{BbrEnv, from_milliseconds, from_seconds, times_similar_threshold}
use stupid_simple.Bbr.Cluster.{SentClusterInfo}

pub data Mode : Type 0 where
  start_up probe_bw probe_rtt : Mode

pub record MyBbrSender (F : Type 0) : Type 0 where
  pub min_bps : ℕ
  pub start_bps : ℕ
  pub max_bps : ℕ
  pub mode : Mode
  pub round_trip_count : ℕ
  pub connection_info : List SentClusterInfo
  pub seq_round_map : List (ℕ × ℕ)
  pub seq_ts_map : List (ℕ × ℕ)
  pub min_rtt : ℤ
  pub recored_min_rtt : ℤ
  pub min_rtt_timestamp : ℕ
  pub exit_probe_rtt_at : ℕ
  pub pacing_rate : ℕ
  pub pacing_gain : ℕ
  pub cycle_current_offset : ℕ
  pub last_cycle_start : ℕ
  pub last_ack_seq : ℕ
  pub max_bandwidth : F
  pub avergae_bandwidth : F
  pub average_round : ℕ
  pub acked_clusters : List ℕ
  -- How many numbers random_ has given.
  pub draws : ℕ

-- kPacingGain, in quarters, and the other constants of the file.
abbrev pub k_pacing_gain : List ℕ
k_pacing_gain = 5 ∷ 3 ∷ 4 ∷ 4 ∷ 4 ∷ 4 ∷ 4 ∷ 4 ∷ []

abbrev pub k_gain_cycle_length : ℕ
k_gain_cycle_length = 8

abbrev pub k_bandwidth_window_size : ℕ
k_bandwidth_window_size = k_gain_cycle_length + 2

abbrev pub k_min_rtt_expiry : ℕ
k_min_rtt_expiry = from_seconds 10

abbrev pub k_probe_rtt_time : ℕ
k_probe_rtt_time = from_milliseconds 200

abbrev pub k_average_ack_rate_window_size : ℕ
k_average_ack_rate_window_size = 10

module _ {F : Type 0} (env : BbrEnv F) where
  -- The constructor.
  unfoldable pub new_sender : ℕ → ℕ → ℕ → MyBbrSender F
  new_sender min_bps start_bps max_bps = record {
    min_bps = min_bps;
    start_bps = start_bps;
    max_bps = max_bps;
    mode = start_up;
    round_trip_count = 0;
    connection_info = [];
    seq_round_map = [];
    seq_ts_map = [];
    min_rtt = pos 0;
    recored_min_rtt = pos 0;
    min_rtt_timestamp = 0;
    exit_probe_rtt_at = 0;
    pacing_rate = start_bps;
    pacing_gain = 4;
    cycle_current_offset = 0;
    last_cycle_start = 0;
    last_ack_seq = 0;
    max_bandwidth = env.make_filter k_bandwidth_window_size 0 0;
    avergae_bandwidth = env.make_filter k_average_ack_rate_window_size 0 0;
    average_round = 0;
    acked_clusters = [];
    draws = 0;
  }

  -- BandwidthEstimate, AverageBandwidthEstimate and GetReferenceRate.
  unfoldable pub bandwidth_estimate : MyBbrSender F → ℕ
  bandwidth_estimate s = env.get_best s.max_bandwidth

  unfoldable pub average_bandwidth_estimate : MyBbrSender F → ℕ
  average_bandwidth_estimate s = env.get_best s.avergae_bandwidth

  unfoldable pub get_reference_rate : MyBbrSender F → ℕ
  unfolding bandwidth_estimate
  get_reference_rate s =
      if ltb (bandwidth_estimate s) s.min_bps then s.min_bps else bandwidth_estimate s

-- ShouldSendProbePacket
unfoldable pub should_send_probe_packet : {F : Type 0} → MyBbrSender F → Bool
should_send_probe_packet s = if leb s.pacing_gain 4 then false else true

-- HasSampledLastMinRtt
unfoldable pub has_sampled_last_min_rtt : {F : Type 0} → MyBbrSender F → Bool
has_sampled_last_min_rtt s =
    (not (is_zero s.min_rtt) && not (is_zero s.recored_min_rtt))
    && ltb_ℤ s.min_rtt (times_similar_threshold s.recored_min_rtt)
