-- ===== src/Bbr/Safety/AckStep.antt =====
-- About the lookups of OnAck (my_bbr_sender.cc) and the invariant of the clusters.
use stupid_simple.Base.{
  ℕ, ◌≤◌, ◌<◌, ◌≡◌, ◌⊎◌, inl, inr, ◌==◌, ==_iff, Bool-cases, Option-cases, none, some, List, [],
  ◌∷◌, All, All-map, arith, find, erase,
}
use stupid_simple.Bbr.Env.{BbrEnv}
use stupid_simple.Bbr.Cluster.{SentClusterInfo, deref}
use stupid_simple.Bbr.State.{MyBbrSender}
use stupid_simple.Bbr.Sampler.{ack_cluster}
use stupid_simple.Bbr.Safety.Links.{Linked, view, In, Live, set_ack, deref-In}
use stupid_simple.Bbr.Safety.Neighbours.{Live-above, prev-Live, prev-lt, prev-ge-Live}
use stupid_simple.Bbr.Safety.Acking.{first_ack, Queued, cluster_on_ack_total}
use stupid_simple.Bbr.Safety.Invariant.{
  Core, Queue, Reached, Ahead, erase-Rounds, erase-Ahead, erase-All, find-All, Rounds,
}
use stupid_simple.Bbr.Safety.Views.{
  In-Live, In-unique, set_ack-All, set_ack-Live, set_ack-In, Queue-map, Queue-snoc,
}

-- A later last acknowledgement asks less of the map.
pub Ahead-later :
    (la la' m : ℕ) (rounds : List (ℕ × ℕ)) → la ≤ la' → Ahead la m rounds → Ahead la' m rounds
Ahead-later la la' m rounds h = All-map _ _ rounds (λ e g lt. g (omega arith))

In-le : (n p a : ℕ) (v : List (ℕ × ℕ)) → In p a v → All (λ (e : ℕ × ℕ). e.0 ≤ n) v → p ≤ n
In-le n p a [] is h = absurd is
In-le n p a (e ∷ v) (inl is) h = omega (arith, is.0, h.0)
In-le n p a (e ∷ v) (inr is) h = In-le n p a v is h.1

-- The cluster `c` of round `r`, at or behind the frontier, is acknowledged at time `now`.
module _ (m la top rtc p r now : ℕ) (clusters : List SentClusterInfo) (acked : List ℕ)
    (rounds : List (ℕ × ℕ)) (k : Core m la top rtc clusters acked rounds) (c : SentClusterInfo)
    (found : deref r clusters ≡ some c) (le : m ≤ r) (pos : 0 < now) where
  first_ack-pos : 0 < first_ack c now
  first_ack-pos = ground arith

  after : List (ℕ × ℕ)
  after = set_ack r (first_ack c now) (view clusters)

  -- A round whose first acknowledgement this is lies behind the frontier.
  frontier-lt :
      c.first_ack_ts ≡ 0 → Reached m (view clusters) → (m ≡ 0) ⊎ ((m < r) × Live m (view clusters))
  frontier-lt fresh (inl e) = inl e
  frontier-lt fresh (inr (a, pa, is)) = elim (Bool-cases (m == r)) [
    | inl same ↦
        let e = (==_iff m r).0 same in
        absurd (
          omega (
            arith,
            In-unique none 0 r a c.first_ack_ts clusters k.linked (rw (← e) is)
                (deref-In r clusters c found),
          ))
    | inr differ ↦ inr (ground arith, In-Live m a (view clusters) is)
  ]

  -- So the previous cluster lies at or behind the frontier, and before the round.
  prev_fits :
      (q : ℕ)
      → c.prev ≡ some q
      → c.first_ack_ts ≡ 0
      → (m ≤ q) × (q < r) × (0 < q) × Live q (view clusters)
  prev_fits q linked fresh =
      let live = is_live (prev-Live none 0 r q clusters c k.linked found linked) in
      let below =
        prev-lt none 0 r q clusters c (λ n e. absurd (none_some e)) k.linked found linked in
      (
        at_least (frontier-lt fresh k.reached),
        below,
        Live-above none 0 q clusters k.linked live,
        live,
      )
    where
      none_some : {n : ℕ} → none ≡ some n → ⊥
      none_some e = cc

      is_live : (none ≡ some q) ⊎ Live q (view clusters) → Live q (view clusters)
      is_live (inl e) = absurd (none_some e)
      is_live (inr h) = h

      at_least : (m ≡ 0) ⊎ ((m < r) × Live m (view clusters)) → m ≤ q
      at_least (inl e) = omega arith
      at_least (inr (lt, live)) = prev-ge-Live none 0 m r q clusters c k.linked live lt found linked

  Queue-after : (new : List ℕ) → Queued acked c new → Queue 0 r after new
  unfolding after
  Queue-after new (inl same) = rw same (
      Queue-map 0 m r (view clusters) after acked le
        (λ q _ h. set_ack-Live r (first_ack c now) q (view clusters) h) k.queue)
  Queue-after new (inr (q, linked, fresh, more)) =
      let (ge, lt, qpos, live) = prev_fits q linked fresh in
      rw more (
        Queue-snoc 0 m r q (view clusters) after acked qpos ge lt
          (set_ack-Live r (first_ack c now) q (view clusters) live)
          (λ n h. set_ack-Live r (first_ack c now) n (view clusters) h) k.queue)

  -- The invariant afterwards, with the round as the frontier.
  acked-Core :
      (new : List SentClusterInfo) (queued : List ℕ)
      → la < p
      → find p rounds ≡ some r
      → Linked none 0 new
      → view new ≡ set_ack r (first_ack c now) (view clusters)
      → Queued acked c queued
      → Core r p top rtc new queued (erase p rounds)
  unfolding after
  acked-Core new queued lt looked linked same grew =
      let is = deref-In r clusters c found in
      let bound : r ≤ rtc = In-le rtc r c.first_ack_ts (view clusters) is k.bounded in
      record {
        linked = linked;
        bounded = rw same (set_ack-All _ r (first_ack c now) (view clusters) k.bounded bound);
        fresh = rw same (
            set_ack-All _ r (first_ack c now) (view clusters)
              (All-map _ _ (view clusters) (λ e h g. h (omega arith)) k.fresh)
              (λ g. absurd (omega arith)));
        reached = rw same (
            inr (
              first_ack c now,
              first_ack-pos,
              set_ack-In r (first_ack c now) (view clusters)
                  (In-Live r c.first_ack_ts (view clusters) is),
            ));
        queue = rw same (Queue-after queued grew);
        ordered = erase-Rounds 0 0 top rtc p rounds k.ordered;
        ahead = erase-Ahead 0 0 top rtc p r rounds k.ordered looked;
        frontier = bound;
      }

-- Where no cluster is touched only the map and the last acknowledgement change.
later-Core :
    (m la top rtc p : ℕ) (clusters : List SentClusterInfo) (acked : List ℕ)
    (rounds rest : List (ℕ × ℕ))
    → Core m la top rtc clusters acked rounds
    → Rounds 0 0 top rtc rest
    → Ahead p m rest
    → Core m p top rtc clusters acked rest
later-Core m la top rtc p clusters acked rounds rest k o a = record {
  linked = k.linked;
  bounded = k.bounded;
  fresh = k.fresh;
  reached = k.reached;
  queue = k.queue;
  ordered = o;
  ahead = a;
  frontier = k.frontier;
}

-- The lookups of OnAck end without a fault on every state that satisfies the invariant, for a
-- packet above the last acknowledged one, and keep the invariant.
pub ack_cluster_total :
    {F : Type 0} (env : BbrEnv F) (s : MyBbrSender F) (m la top rtc p now : ℕ)
    → Core m la top rtc s.connection_info s.acked_clusters s.seq_round_map
    → la < p
    → 0 < now
    → (n : ℕ) × (clusters : List SentClusterInfo) × (acked : List ℕ) × (rounds : List (ℕ × ℕ))
      × (filter : F) × (ack_cluster env s now p
          ≡ some (record s {
            connection_info = clusters;
            acked_clusters = acked;
            seq_round_map = rounds;
            max_bandwidth = filter;
          }))
      × Core n p top rtc clusters acked rounds
ack_cluster_total env s m la top rtc p now k lt pos = elim (Option-cases (find p s.seq_round_map)) [
  | inl unknown ↦ (
    m,
    s.connection_info,
    s.acked_clusters,
    s.seq_round_map,
    s.max_bandwidth,
    unfold ack_cluster in rw (unknown, ack_cluster),
    later-Core m la top rtc p _ _ _ _ k k.ordered
        (Ahead-later la p m s.seq_round_map (omega arith) k.ahead),
  )
  | inr (r, looked) ↦ elim (Option-cases (deref r s.connection_info)) [
    | inl gone ↦ (
      m,
      s.connection_info,
      s.acked_clusters,
      erase p s.seq_round_map,
      s.max_bandwidth,
      unfold ack_cluster in rw (looked, ack_cluster) (rw (gone, ack_cluster)),
      later-Core m la top rtc p _ _ _ _ k (erase-Rounds 0 0 top rtc p s.seq_round_map k.ordered) (
          erase-All _ p s.seq_round_map (Ahead-later la p m s.seq_round_map (omega arith) k.ahead)),
    )
    | inr (c, found) ↦
        let le : m ≤ r = find-All _ p r s.seq_round_map k.ahead looked lt in
        let (clusters, acked, filter, (e, linked, same, grew)) =
          cluster_on_ack_total env (record s { seq_round_map = erase p s.seq_round_map }) r p now c
            k.linked found in
        (
          r,
          clusters,
          acked,
          erase p s.seq_round_map,
          filter,
          unfold ack_cluster in rw (looked, ack_cluster) (rw (found, ack_cluster) e),
          acked-Core m la top rtc p r now s.connection_info s.acked_clusters s.seq_round_map k c
              found le pos clusters acked lt looked linked same grew,
        )
  ]
]
