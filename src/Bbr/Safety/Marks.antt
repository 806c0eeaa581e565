-- ===== src/Bbr/Safety/Marks.antt =====
-- About the bandwidth estimate of SentClusterInfo::OnAck (my_bbr_sender.cc) and the clusters.
use stupid_simple.Base.{
  ℕ, ◌%◌, ◌-◌, ◌^◌, ◌<◌, ◌≡◌, refl, ◌⊎◌, inl, inr, ◌==◌, Bool-cases, Option-cases, ltb, ◌||◌, none,
  some, List, [], ◌∷◌, ◌++◌, length, length-set, get_elem?, arith,
}
use stupid_simple.Bbr.Env.{BbrEnv}
use stupid_simple.Bbr.Cluster.{
  SentClusterInfo, mark_acked, mark_target, trigger_bandwidth_estimate, deref, store,
}
use stupid_simple.Bbr.State.{MyBbrSender}
use stupid_simple.Bbr.Sampler.{trigger_prev}
use stupid_simple.Bbr.Safety.Links.{Linked, view, Keeps, store-Linked, view-store_same}

-- What a cluster keeps when only its bandwidth or its packets' marks change.
abbrev pub Updates : SentClusterInfo → SentClusterInfo → Type 0
Updates c d = Keeps c d × (d.first_ack_ts ≡ c.first_ack_ts)

pub trigger-Updates :
    {F : Type 0} (env : BbrEnv F) (c : SentClusterInfo)
    → 0 < length c.packet_infos
    → Updates c (trigger_bandwidth_estimate env c).0
unfolding trigger_bandwidth_estimate
trigger-Updates env c h =
    elim (Bool-cases (c.acked_packets == 0 || c.last_ack_ts == c.first_ack_ts)) [
      | inl quiet ↦
          rw quiet
            (record { same_id = refl; same_prev = refl; same_next = refl; has_packet = h }, refl)
      | inr loud ↦
          rw loud
            (record { same_id = refl; same_prev = refl; same_next = refl; has_packet = h }, refl)
    ]

mark_target-Updates :
    (c : SentClusterInfo) (seq head now : ℕ)
    → 0 < length c.packet_infos
    → Updates c (mark_target c seq head now)
mark_target-Updates c seq head now h =
    elim (Option-cases (get_elem? c.packet_infos ((seq - head) % 2 ^ 32))) [
      | inl out ↦
          unfold mark_target in
          rw (out, mark_target)
            (record { same_id = refl; same_prev = refl; same_next = refl; has_packet = h }, refl)
      | inr (target, found) ↦
          unfold mark_target in
          rw (found, mark_target)
            (
              record {
                same_id = refl;
                same_prev = refl;
                same_next = refl;
                has_packet = omega (arith, length-set {0} c.packet_infos);
              },
              refl,
            )
    ]

no_head {ℓ} : {A : Type ℓ} (xs : List A) → 0 < length xs → get_elem? xs 0 ≡ none → ⊥
no_head [] h e = omega arith
no_head (x ∷ xs) h e = cc

pub mark_acked-Updates :
    (c : SentClusterInfo) (seq now : ℕ)
    → 0 < length c.packet_infos
    → (d : SentClusterInfo) × (mark_acked c seq now ≡ some d) × Updates c d
mark_acked-Updates c seq now h = elim (Option-cases (get_elem? c.packet_infos 0)) [
  | inl missing ↦ absurd (no_head c.packet_infos h missing)
  | inr (head, found) ↦ elim (Bool-cases (ltb seq head.seq)) [
    | inl early ↦ (
      record c { last_ack_ts = now },
      unfold mark_acked in rw found (rw early),
      (record { same_id = refl; same_prev = refl; same_next = refl; has_packet = h }, refl),
    )
    | inr late ↦ (
      mark_target c seq head.seq now,
      unfold mark_acked in rw found (rw late),
      mark_target-Updates c seq head.seq now h,
    )
  ]
]

module _ {F : Type 0} (env : BbrEnv F) where
  -- The previous cluster is rewritten, and perhaps queued.
  pub trigger_prev_eq :
      (s : MyBbrSender F) (q : ℕ) (prev : SentClusterInfo)
      → deref q s.connection_info ≡ some prev
      → (acked : List ℕ) × (filter : F) × (trigger_prev env s (some q)
          ≡ some (record s {
            connection_info = store q (trigger_bandwidth_estimate env prev).0 s.connection_info;
            acked_clusters = acked;
            max_bandwidth = filter;
          }))
        × ((acked ≡ s.acked_clusters) ⊎ (acked ≡ s.acked_clusters ++ (q ∷ [])))
  trigger_prev_eq s q prev found = elim (Option-cases (trigger_bandwidth_estimate env prev).1) [
    | inl quiet ↦
        (s.acked_clusters, s.max_bandwidth, unfold trigger_prev in rw found (rw quiet), inl refl)
    | inr (bw, loud) ↦ (
      s.acked_clusters ++ (q ∷ []),
      env.update s.max_bandwidth bw q,
      unfold trigger_prev in rw found (rw loud),
      inr refl,
    )
  ]

-- A write of an update keeps the links and the view.
pub store-Updates :
    (p : ℕ) (d : SentClusterInfo) (cs : List SentClusterInfo) (c : SentClusterInfo)
    → Linked none 0 cs
    → deref p cs ≡ some c
    → Updates c d
    → Linked none 0 (store p d cs) × (view (store p d cs) ≡ view cs)
store-Updates p d cs c l found u =
    (store-Linked none 0 p d cs c l found u.0, view-store_same p d cs c found u.0.same_id u.1)
