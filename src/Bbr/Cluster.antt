-- ===== src/Bbr/Cluster.antt =====
-- SentClusterInfo of my_bbr_sender.{h,cc}: the packets of one round, and the bandwidth that they show.
-- Clusters live in connection_info_, in ascending order of their ids. A pointer to a cluster is the
-- cluster's id, and a pointer whose id is not in the list dangles.
use stupid_simple.Base.{
  ℕ, ◌+◌, ◌-◌, ◌%◌, ◌^◌, ltb, leb, ◌==◌, ◌||◌, if◌then◌else◌, Option, none, some, List, [], ◌∷◌,
  ◌++◌, get_elem?, set, ◌>>=◌, zero, suc, true, false,
}
use stupid_simple.Base.Int.{sub_ℕ}
use stupid_simple.Bbr.Env.{BbrEnv, to_milliseconds_u64}

pub record SentPacketInfo : Type 0 where
  pub seq : ℕ
  pub sent_ts : ℕ
  pub ack_ts : ℕ
  pub len : ℕ

pub record SentClusterInfo : Type 0 where
  pub cluster_id : ℕ
  pub first_send_ts : ℕ
  pub last_send_ts : ℕ
  pub first_ack_ts : ℕ
  pub last_ack_ts : ℕ
  pub acked_packets : ℕ
  pub sent_packets : ℕ
  pub packet_infos : List SentPacketInfo
  pub prev : Option ℕ
  pub next : Option ℕ
  pub bw : ℕ

unfoldable pub new_cluster : ℕ → SentClusterInfo
new_cluster id = record {
  cluster_id = id;
  first_send_ts = 0;
  last_send_ts = 0;
  first_ack_ts = 0;
  last_ack_ts = 0;
  acked_packets = 0;
  sent_packets = 0;
  packet_infos = [];
  prev = none;
  next = none;
  bw = 0;
}

-- SentClusterInfo::OnPacketSent
unfoldable pub cluster_packet_sent : SentClusterInfo → ℕ → ℕ → ℕ → SentClusterInfo
cluster_packet_sent c now seq len = record c {
  first_send_ts = if c.first_send_ts == 0 then now else c.first_send_ts;
  last_send_ts = now;
  packet_infos =
      c.packet_infos ++ (record { seq = seq; sent_ts = now; ack_ts = 0; len = len } ∷ []);
  sent_packets = c.sent_packets + len;
}

-- The packet at `seq - head_seq`, a uint32_t, gets its acknowledgement time and its length counts.
unfoldable pub mark_target : SentClusterInfo → ℕ → ℕ → ℕ → SentClusterInfo
mark_target c seq head_seq now = elim (get_elem? c.packet_infos ((seq - head_seq) % 2 ^ 32)) [
  | none ↦ record c { last_ack_ts = now }
  | some target ↦ record c {
    last_ack_ts = now;
    packet_infos = set c.packet_infos ((seq - head_seq) % 2 ^ 32) (record target { ack_ts = now });
    acked_packets = c.acked_packets + target.len;
  }
]

-- The second half of SentClusterInfo::OnAck, from `last_ack_ts_=now` on. `packet_infos_[0]` of a
-- cluster without packets is a fault.
unfoldable pub mark_acked : SentClusterInfo → ℕ → ℕ → Option SentClusterInfo
mark_acked c seq now = do
  head ← get_elem? c.packet_infos 0
  some (if ltb seq head.seq then record c { last_ack_ts = now } else mark_target c seq head.seq now)

-- SentClusterInfo::GetSentInfo and GetAckedInfo: milliseconds and bytes.
unfoldable pub get_sent_info : SentClusterInfo → ℕ × ℕ
get_sent_info c = (to_milliseconds_u64 (sub_ℕ c.last_send_ts c.first_send_ts), c.sent_packets)

unfoldable pub get_acked_info : SentClusterInfo → ℕ × ℕ
get_acked_info c = (to_milliseconds_u64 (sub_ℕ c.last_ack_ts c.first_ack_ts), c.acked_packets)

-- SentClusterInfo::TriggerBandwidthEstimate: the cluster, and the bandwidth that it reports, if any.
unfoldable pub trigger_bandwidth_estimate :
    {F : Type 0} → BbrEnv F → SentClusterInfo → SentClusterInfo × Option ℕ
trigger_bandwidth_estimate env c =
    if c.acked_packets == 0 || c.last_ack_ts == c.first_ack_ts
    then (c, none)
    else (record c { bw = rate }, if ltb 0 rate then some rate else none)
  where
    send_rate : ℕ
    send_rate =
        if ltb c.first_send_ts c.last_send_ts
        then env.from_bytes_and_time_delta c.sent_packets (sub_ℕ c.last_send_ts c.first_send_ts)
        else env.infinite

    ack_rate : ℕ
    ack_rate = env.from_bytes_and_time_delta c.acked_packets (sub_ℕ c.last_ack_ts c.first_ack_ts)

    rate : ℕ
    rate = if ltb ack_rate send_rate then ack_rate else send_rate

-- A read and a write through a pointer.
unfoldable pub deref : ℕ → List SentClusterInfo → Option SentClusterInfo
deref p [] = none
deref p (c ∷ cs) = if c.cluster_id == p then some c else deref p cs

unfoldable pub store : ℕ → SentClusterInfo → List SentClusterInfo → List SentClusterInfo
store p v [] = []
store p v (c ∷ cs) = if c.cluster_id == p then v ∷ cs else c ∷ store p v cs

-- `connection_info_.insert` of a fresh id.
unfoldable pub insert_cluster : SentClusterInfo → List SentClusterInfo → List SentClusterInfo
insert_cluster v [] = v ∷ []
insert_cluster v (c ∷ cs) =
    if ltb v.cluster_id c.cluster_id then v ∷ c ∷ cs else c ∷ insert_cluster v cs

-- `connection_info_.rbegin()`
unfoldable pub last_cluster : List SentClusterInfo → Option ℕ
last_cluster [] = none
last_cluster (c ∷ []) = some c.cluster_id
last_cluster (c ∷ d ∷ cs) = last_cluster (d ∷ cs)

-- MyBbrSender::RemoveClusterLE. Each round erases the first cluster or stops, so a fuel of the
-- map's size is enough; running out and writing through a dangling `next_` are faults.
unfoldable pub remove_cluster_le : ℕ → ℕ → List SentClusterInfo → Option (List SentClusterInfo)
remove_cluster_le fuel round [] = some []
remove_cluster_le zero round (c ∷ cs) = none
remove_cluster_le (suc fuel) round (c ∷ cs) = elim (leb c.cluster_id round) [
  | true ↦ elim c.next [
    | none ↦ remove_cluster_le fuel round cs
    | some n ↦ elim (deref n (c ∷ cs)) [
      | none ↦ none
      | some next ↦ remove_cluster_le fuel round (store n (record next { prev = none }) cs)
    ]
  ]
  | false ↦ some (c ∷ cs)
]
