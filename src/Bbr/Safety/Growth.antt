-- ===== src/Bbr/Safety/Growth.antt =====
-- About AddPacketInfoSampler (my_bbr_sender.cc) on the list of clusters.
use stupid_simple.Base.{
  ℕ, ◌≤◌, ◌<◌, ◌≡◌, refl, ap, ◌∙◌, ◌⊎◌, inl, inr, Option-cases, none, some, List, [], ◌∷◌, ◌++◌,
  length, All, arith, insert, length-append,
}
use stupid_simple.Bbr.Cluster.{
  SentClusterInfo, new_cluster, cluster_packet_sent, deref, store, insert_cluster, last_cluster,
}
use stupid_simple.Bbr.State.{MyBbrSender}
use stupid_simple.Bbr.Sampler.{open_cluster, add_packet_info_sampler}
use stupid_simple.Bbr.Safety.Links.{Linked, view, Keeps, deref-Live, store-Linked, view-store_same}
use stupid_simple.Bbr.Safety.Tail.{
  Under, insert_cluster-last, deref-append_last, store-append_last, Under-of_missing,
  last_cluster-Live, last_cluster-none, view-append, append-Linked,
}

-- What the packet's cluster, once found, contributes.
sampler_eq :
    {F : Type 0} (s : MyBbrSender F) (now seq bytes : ℕ) (clusters : List SentClusterInfo)
    (c : SentClusterInfo)
    → open_cluster s ≡ some clusters
    → deref s.round_trip_count clusters ≡ some c
    → add_packet_info_sampler s now seq bytes
      ≡ some (record s {
        connection_info = store s.round_trip_count (cluster_packet_sent c now seq bytes) clusters;
        seq_round_map = insert seq s.round_trip_count s.seq_round_map;
      })
unfolding add_packet_info_sampler
sampler_eq s now seq bytes clusters c opened found = rw opened (rw found)

sent_packet_counts :
    (c : SentClusterInfo) (now seq bytes : ℕ)
    → 0 < length (cluster_packet_sent c now seq bytes).packet_infos
unfolding cluster_packet_sent
sent_packet_counts c now seq bytes = omega (arith, length-append {0} c.packet_infos)

-- The clusters afterwards: linked, with the old view, or with one more cluster at the end of it.
abbrev pub Grown : List SentClusterInfo → ℕ → List SentClusterInfo → Type 0
Grown old round new =
    Linked none 0 new
    × ((view new ≡ view old) ⊎ (Under round old × (view new ≡ view old ++ ((round, 0) ∷ []))))

module _ {F : Type 0} (s : MyBbrSender F) (now seq bytes : ℕ) where
  abbrev pub Added : List SentClusterInfo → Type 0
  Added clusters =
      (add_packet_info_sampler s now seq bytes
        ≡ some (record s {
          connection_info = clusters;
          seq_round_map = insert seq s.round_trip_count s.seq_round_map;
        }))
      × Grown s.connection_info s.round_trip_count clusters

  joins_cluster :
      (c : SentClusterInfo)
      → Linked none 0 s.connection_info
      → deref s.round_trip_count s.connection_info ≡ some c
      → (clusters : List SentClusterInfo) × Added clusters
  unfolding open_cluster cluster_packet_sent
  joins_cluster c l found =
      let sent = cluster_packet_sent c now seq bytes in
      let kept : Keeps c sent = record {
        same_id = refl;
        same_prev = refl;
        same_next = refl;
        has_packet = sent_packet_counts c now seq bytes;
      } in
      (
        store s.round_trip_count sent s.connection_info,
        (
          sampler_eq s now seq bytes s.connection_info c (rw (found, open_cluster)) found,
          (
            store-Linked none 0 s.round_trip_count sent s.connection_info c l found kept,
            inl (view-store_same s.round_trip_count sent s.connection_info c found refl refl),
          ),
        ),
      )

  -- A cluster `v` of the round behind the list `base`, which has the old view.
  starts_cluster :
      (v : SentClusterInfo) (base : List SentClusterInfo)
      → v.cluster_id ≡ s.round_trip_count
      → v.first_ack_ts ≡ 0
      → open_cluster s ≡ some (insert_cluster v base)
      → Under s.round_trip_count s.connection_info
      → view base ≡ view s.connection_info
      → Linked none 0 (base ++ (cluster_packet_sent v now seq bytes ∷ []))
      → (clusters : List SentClusterInfo) × Added clusters
  unfolding cluster_packet_sent
  starts_cluster v base id ack opened u same l =
      let sent = cluster_packet_sent v now seq bytes in
      let under : Under v.cluster_id base = rw (id, same) u in
      let behind : open_cluster s ≡ some (base ++ (v ∷ [])) =
        opened ∙ ap some (insert_cluster-last v base under) in
      let found : deref s.round_trip_count (base ++ (v ∷ [])) ≡ some v =
        rw (← id) (deref-append_last v base under) in
      let placed : store s.round_trip_count sent (base ++ (v ∷ [])) ≡ base ++ (sent ∷ []) =
        rw (← id) (store-append_last v sent base under) in
      (
        base ++ (sent ∷ []),
        (
          rw (← placed) (sampler_eq s now seq bytes (base ++ (v ∷ [])) v behind found),
          (l, inr (u, view-append base (sent ∷ []) ∙ rw (same, id, ack))),
        ),
      )

  opens_cluster :
      0 < s.round_trip_count
      → Linked none 0 s.connection_info
      → All (λ (e : ℕ × ℕ). e.0 ≤ s.round_trip_count) (view s.connection_info)
      → deref s.round_trip_count s.connection_info ≡ none
      → (clusters : List SentClusterInfo) × Added clusters
  unfolding open_cluster cluster_packet_sent new_cluster
  opens_cluster pos l bound missing =
      let under = Under-of_missing s.round_trip_count s.connection_info bound missing in
      elim (Option-cases (last_cluster s.connection_info)) [
        | inl alone ↦
            let empty = last_cluster-none s.connection_info alone in
            starts_cluster (new_cluster s.round_trip_count) s.connection_info refl refl
              (rw (missing, open_cluster) (rw (alone, open_cluster))) under refl
              (rw empty (pos, refl, refl, omega arith, tt))
        | inr (p, last) ↦
            let (prev, found) =
              deref-Live p s.connection_info (last_cluster-Live p s.connection_info last) in
            let linked = record prev { next = some s.round_trip_count } in
            starts_cluster (record (new_cluster s.round_trip_count) { prev = some p })
              (store p linked s.connection_info) refl refl
              (rw (missing, open_cluster) (rw (last, open_cluster) (rw (found, open_cluster))))
              under (view-store_same p linked s.connection_info prev found refl refl)
              (append-Linked none 0 p _ prev s.connection_info l last found under refl refl
                (omega arith))
      ]

  -- AddPacketInfoSampler follows no dangling pointer, keeps the clusters linked and adds at most
  -- the cluster of the current round.
  pub add_packet_grows :
      0 < s.round_trip_count
      → Linked none 0 s.connection_info
      → All (λ (e : ℕ × ℕ). e.0 ≤ s.round_trip_count) (view s.connection_info)
      → (clusters : List SentClusterInfo) × Added clusters
  add_packet_grows pos l bound = elim (Option-cases (deref s.round_trip_count s.connection_info)) [
    | inl missing ↦ opens_cluster pos l bound missing
    | inr (c, found) ↦ joins_cluster c l found
  ]
