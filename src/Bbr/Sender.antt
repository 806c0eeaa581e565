-- ===== src/Bbr/Sender.antt =====
-- MyBbrSender::OnPacketSent and OnAck, whole.
use stupid_simple.Base.{
  ℕ, zero, suc, ◌+◌, ◌-◌, ◌%◌, ltb, leb, ◌==◌, not, if◌then◌else◌, Option, none, some, List, [],
  ◌∷◌, length, ◌>>=◌,
}
use stupid_simple.Base.Int.{pos}
use stupid_simple.Bbr.Env.{BbrEnv, from_milliseconds}
use stupid_simple.Bbr.Cluster.{
  SentClusterInfo, get_sent_info, get_acked_info, deref, remove_cluster_le,
}
use stupid_simple.Bbr.State.{
  start_up, probe_bw, MyBbrSender, k_min_rtt_expiry, k_average_ack_rate_window_size,
}
use stupid_simple.Bbr.Modes.{
  update_rtt, update_gain_cycle_phase, add_seq_and_timestamp, enter_probe_bandwidth_mode,
  maybe_enter_or_exit_probe_rtt, calculate_pacing_rate,
}
use stupid_simple.Bbr.Sampler.{add_packet_info_sampler, ack_cluster}

module _ {F : Type 0} where
  -- OnPacketSent
  unfoldable pub on_packet_sent : MyBbrSender F → ℕ → ℕ → ℕ → Option (MyBbrSender F)
  unfolding add_seq_and_timestamp
  on_packet_sent s now packet_number bytes = elim s.mode [
    | probe_bw ↦
        add_packet_info_sampler
          (update_gain_cycle_phase (add_seq_and_timestamp s now packet_number) now) now
          packet_number bytes
    | _ ↦ some (add_seq_and_timestamp s now packet_number)
  ]

-- What OnAck sums up over the acked clusters.
pub record Totals : Type 0 where
  pub total_sent_bytes : ℕ
  pub total_acked_bytes : ℕ
  pub acc_sent_delta : ℕ
  pub acc_ack_delta : ℕ
  pub last_id : ℕ

abbrev pub no_totals : Totals
no_totals = record {
  total_sent_bytes = 0;
  total_acked_bytes = 0;
  acc_sent_delta = 0;
  acc_ack_delta = 0;
  last_id = 0;
}

-- One round of the summing loop.
unfoldable pub add_totals : Totals → SentClusterInfo → Totals
add_totals t c =
    let (sent_delta, sent_bytes) = get_sent_info c in
    let (ack_delta, acked_bytes) = get_acked_info c in
    let sent_counts = not (sent_delta == 0) in
    let ack_counts = not (ack_delta == 0) in
    record {
      total_sent_bytes =
          if sent_counts then t.total_sent_bytes + sent_bytes else t.total_sent_bytes;
      total_acked_bytes =
          if ack_counts then t.total_acked_bytes + acked_bytes else t.total_acked_bytes;
      acc_sent_delta = if sent_counts then t.acc_sent_delta + sent_delta else t.acc_sent_delta;
      acc_ack_delta = if ack_counts then t.acc_ack_delta + ack_delta else t.acc_ack_delta;
      last_id = if ack_counts then c.cluster_id else t.last_id;
    }

-- The loop over acked_clusters_, which reads through each pointer.
unfoldable pub sum_acked : List SentClusterInfo → List ℕ → Totals → Option Totals
sum_acked clusters [] t = some t
sum_acked clusters (p ∷ ps) t = do c ← deref p clusters; sum_acked clusters ps (add_totals t c)

module _ {F : Type 0} (env : BbrEnv F) where
  -- The average rate of the window: the smaller of the sent and the acked rate, and min_bps_ where
  -- neither is known.
  unfoldable pub average_rate : ℕ → Totals → ℕ
  average_rate min_bps t =
      let sent_rate =
        if ltb 0 t.acc_sent_delta
        then env.from_bytes_and_time_delta t.total_sent_bytes
            (pos (from_milliseconds t.acc_sent_delta))
        else env.infinite in
      let acked_rate =
        if ltb 0 t.acc_ack_delta
        then env.from_bytes_and_time_delta t.total_acked_bytes
            (pos (from_milliseconds t.acc_ack_delta))
        else env.infinite in
      let smaller = if ltb acked_rate sent_rate then acked_rate else sent_rate in
      if smaller == env.infinite then min_bps else smaller

  -- avergae_bandwidth_ takes the window's rate.
  unfoldable pub update_average : MyBbrSender F → Totals → MyBbrSender F
  unfolding average_rate
  update_average s t =
      let round = s.average_round + t.last_id % k_average_ack_rate_window_size in
      record s {
        average_round = round;
        avergae_bandwidth = env.update s.avergae_bandwidth (average_rate s.min_bps t) round;
      }

-- The last loop of OnAck: the oldest acked clusters go, and with each all clusters up to it.
unfoldable pub drop_stale : {F : Type 0} → ℕ → MyBbrSender F → Option (MyBbrSender F)
drop_stale zero s = some s
drop_stale (suc n) s = elim s.acked_clusters [
  | [] ↦ none
  | p ∷ rest ↦ deref p s.connection_info >>= λ c.
      remove_cluster_le (length s.connection_info) c.cluster_id s.connection_info >>= λ kept.
      drop_stale n (record s { acked_clusters = rest; connection_info = kept })
]

module _ {F : Type 0} (env : BbrEnv F) where
  -- The part of OnAck behind `total=acked_clusters_.size()`.
  unfoldable pub average_window : MyBbrSender F → Option (MyBbrSender F)
  average_window s =
      let total = length s.acked_clusters in
      if leb k_average_ack_rate_window_size total
      then (sum_acked s.connection_info s.acked_clusters no_totals >>= λ t.
          drop_stale (total - (k_average_ack_rate_window_size - 1)) (update_average env s t))
      else some s

  -- The part of OnAck that deals with the round-trip time, the mode and the rate.
  unfoldable pub ack_modes : MyBbrSender F → ℕ → ℕ → MyBbrSender F
  ack_modes s event_time packet_number =
      let timed = update_rtt (record s { last_ack_seq = packet_number }) event_time packet_number in
      let started : MyBbrSender F = elim timed.mode [
        | start_up ↦ enter_probe_bandwidth_mode env timed event_time
        | _ ↦ timed
      ] in
      let expired = ltb (started.min_rtt_timestamp + k_min_rtt_expiry) event_time in
      calculate_pacing_rate env (maybe_enter_or_exit_probe_rtt env started event_time expired)

  -- OnAck
  unfoldable pub on_ack : MyBbrSender F → ℕ → ℕ → Option (MyBbrSender F)
  on_ack s event_time packet_number =
      if leb packet_number s.last_ack_seq
      then some s
      else (ack_cluster env (ack_modes s event_time packet_number) event_time packet_number
          >>= average_window)
