-- ===== src/Bbr/Sampler.antt =====
-- MyBbrSender's clusters: which cluster a sent packet joins and what an acknowledgement does to it.
-- A fault, `none`, is the use of a dangling cluster pointer or of the first packet of a cluster
-- without packets.
use stupid_simple.Base.{
  ℕ, ◌==◌, if◌then◌else◌, Option, none, some, List, [], ◌∷◌, ◌++◌, ◌>>=◌, find, erase, insert,
}
use stupid_simple.Bbr.Env.{BbrEnv}
use stupid_simple.Bbr.Cluster.{
  SentClusterInfo, new_cluster, cluster_packet_sent, mark_acked, trigger_bandwidth_estimate, deref,
  store, insert_cluster, last_cluster,
}
use stupid_simple.Bbr.State.{MyBbrSender}

module _ {F : Type 0} where
  -- The first half of AddPacketInfoSampler: the cluster of the round, created behind the last one
  -- and linked with it where there is none.
  unfoldable pub open_cluster : MyBbrSender F → Option (List SentClusterInfo)
  open_cluster s = elim (deref s.round_trip_count s.connection_info) [
    | some c ↦ some s.connection_info
    | none ↦ elim (last_cluster s.connection_info) [
      | none ↦ some (insert_cluster (new_cluster s.round_trip_count) s.connection_info)
      | some p ↦ elim (deref p s.connection_info) [
        | none ↦ none
        | some prev ↦ some (
            insert_cluster (record (new_cluster s.round_trip_count) { prev = some p })
              (store p (record prev { next = some s.round_trip_count }) s.connection_info))
      ]
    ]
  ]

  -- AddPacketInfoSampler
  unfoldable pub add_packet_info_sampler : MyBbrSender F → ℕ → ℕ → ℕ → Option (MyBbrSender F)
  unfolding open_cluster
  add_packet_info_sampler s now packet_number bytes = do
    clusters ← open_cluster s
    cluster ← deref s.round_trip_count clusters
    some (record s {
      connection_info =
          store s.round_trip_count (cluster_packet_sent cluster now packet_number bytes) clusters;
      seq_round_map = insert packet_number s.round_trip_count s.seq_round_map;
    })

module _ {F : Type 0} (env : BbrEnv F) where
  -- OnEstimateBandwidth, called by the cluster at `p`.
  unfoldable pub on_estimate_bandwidth : MyBbrSender F → ℕ → Option ℕ → MyBbrSender F
  on_estimate_bandwidth s p none = s
  on_estimate_bandwidth s p (some bw) = record s {
    acked_clusters = s.acked_clusters ++ (p ∷ []);
    max_bandwidth = env.update s.max_bandwidth bw p;
  }

  -- `prev_->TriggerBandwidthEstimate()`, where there is a previous cluster.
  unfoldable pub trigger_prev : MyBbrSender F → Option ℕ → Option (MyBbrSender F)
  unfolding on_estimate_bandwidth
  trigger_prev s none = some s
  trigger_prev s (some p) = do
    prev ← deref p s.connection_info
    let triggered = trigger_bandwidth_estimate env prev
    some (
        on_estimate_bandwidth (record s { connection_info = store p triggered.0 s.connection_info })
          p triggered.1)

  -- SentClusterInfo::OnAck, on the cluster at `p`.
  unfoldable pub cluster_on_ack :
      MyBbrSender F → ℕ → SentClusterInfo → ℕ → ℕ → Option (MyBbrSender F)
  unfolding trigger_prev
  cluster_on_ack s p c packet_number now = do
    let first = c.first_ack_ts == 0
    let c' = if first then record c { first_ack_ts = now } else c
    let s' = record s { connection_info = store p c' s.connection_info }
    triggered ← if first then trigger_prev s' c.prev else some s'
    again ← deref p triggered.connection_info
    marked ← mark_acked again packet_number now
    some (record triggered { connection_info = store p marked triggered.connection_info })

  -- The lookups of OnAck: the packet's round, and the round's cluster.
  unfoldable pub ack_cluster : MyBbrSender F → ℕ → ℕ → Option (MyBbrSender F)
  unfolding cluster_on_ack
  ack_cluster s now packet_number = elim (find packet_number s.seq_round_map) [
    | none ↦ some s
    | some round ↦
        let s' = record s { seq_round_map = erase packet_number s.seq_round_map } in
        elim (deref round s'.connection_info) [
          | none ↦ some s'
          | some c ↦ cluster_on_ack s' round c packet_number now
        ]
  ]
