-- ===== src/Bbr/Safety/Window.antt =====
-- About the window of acked clusters of OnAck (my_bbr_sender.cc) and the invariant.
use stupid_simple.Base.{
  ℕ, zero, suc, ◌+◌, ◌-◌, ◌≤◌, ◌<◌, ◌≡◌, refl, ap, ◌∙◌, inl, inr, none, some, List, [], ◌∷◌, length,
  arith, Bool-cases, leb, not-leb, leb→le,
}
use stupid_simple.Bbr.Env.{BbrEnv}
use stupid_simple.Bbr.Cluster.{SentClusterInfo}
use stupid_simple.Bbr.State.{MyBbrSender}
use stupid_simple.Bbr.Sender.{
  Totals, add_totals, no_totals, sum_acked, drop_stale, update_average, average_window,
}
use stupid_simple.Bbr.Safety.Links.{Linked, view, deref-Live, deref-id}
use stupid_simple.Bbr.Safety.Neighbours.{above, remove_keeps}
use stupid_simple.Bbr.Safety.Invariant.{Core, Queue, Reached}
use stupid_simple.Bbr.Safety.Views.{above-All, above-Live, above-In, Queue-map}

sum_acked_total :
    (lo m : ℕ) (clusters : List SentClusterInfo) (ps : List ℕ) (t : Totals)
    → Queue lo m (view clusters) ps
    → (u : Totals) × (sum_acked clusters ps t ≡ some u)
unfolding sum_acked
sum_acked_total lo m clusters [] t q = (t, refl)
sum_acked_total lo m clusters (p ∷ ps) t q =
    let (c, found) = deref-Live p clusters q.2 in
    let (u, e) = sum_acked_total p m clusters ps (add_totals t c) q.3 in (u, rw found e)

dropped-Core :
    (m la top rtc p : ℕ) (clusters kept : List SentClusterInfo) (ps : List ℕ)
    (rounds : List (ℕ × ℕ))
    → Core m la top rtc clusters (p ∷ ps) rounds
    → Linked none 0 kept
    → view kept ≡ above p (view clusters)
    → Core m la top rtc kept ps rounds
dropped-Core m la top rtc p clusters kept ps rounds k linked same = record {
  linked = linked;
  bounded = rw same (above-All _ p (view clusters) k.bounded);
  fresh = rw same (above-All _ p (view clusters) k.fresh);
  reached = rw same (stays k.reached);
  queue = rw same (
      weaken_queue ps (
        Queue-map p m m (view clusters) (above p (view clusters)) ps (omega arith)
          (λ q lt h. above-Live p q (view clusters) lt h) k.queue.3));
  ordered = k.ordered;
  ahead = k.ahead;
  frontier = k.frontier;
}
  where
    stays : Reached m (view clusters) → Reached m (above p (view clusters))
    stays (inl e) = inl e
    stays (inr (a, pos, is)) = inr (a, pos, above-In p m a (view clusters) k.queue.1 is)

    weaken_queue :
        (qs : List ℕ)
        → Queue p m (above p (view clusters)) qs
        → Queue 0 m (above p (view clusters)) qs
    weaken_queue [] q = tt
    weaken_queue (x ∷ qs) q = (omega (arith, q.0), q.1, q.2, q.3)

module _ {F : Type 0} where
  -- The loop that drops the stale clusters ends without a fault.
  drop_stale_total :
      (n m la top rtc : ℕ) (s : MyBbrSender F) (queue : List ℕ)
      → s.acked_clusters ≡ queue
      → Core m la top rtc s.connection_info queue s.seq_round_map
      → n ≤ length queue
      → (clusters : List SentClusterInfo) × (left : List ℕ) × (drop_stale n s
          ≡ some (record s { connection_info = clusters; acked_clusters = left }))
        × Core m la top rtc clusters left s.seq_round_map
        × (length left + n ≡ length queue)
  unfolding drop_stale
  drop_stale_total zero m la top rtc s queue e k h =
      (s.connection_info, s.acked_clusters, refl, rw e k, rw e (omega arith))
  drop_stale_total (suc n) m la top rtc s [] e k h = absurd (omega arith)
  drop_stale_total (suc n) m la top rtc s (p ∷ ps) e k h =
      let (c, found) = deref-Live p s.connection_info k.queue.2 in
      let (kept, removed, linked, same) =
        remove_keeps (length s.connection_info) c.cluster_id 0 s.connection_info (omega arith)
          k.linked in
      let view_kept : view kept ≡ above p (view s.connection_info) =
        same ∙ ap (λ i. above i (view s.connection_info)) (deref-id p s.connection_info c found) in
      let (clusters, left, dropped, k', count) =
        drop_stale_total n m la top rtc (record s { connection_info = kept; acked_clusters = ps })
          ps refl
          (dropped-Core m la top rtc p s.connection_info kept ps s.seq_round_map k linked view_kept)
          (omega arith) in
      (clusters, left, rw (e, drop_stale) (rw found (rw removed dropped)), k', omega (arith, count))

  -- The part of OnAck behind the lookups: it ends without a fault, keeps the invariant, and leaves
  -- at most nine clusters in the queue.
  pub average_window_total :
      (env : BbrEnv F) (m la top rtc : ℕ) (s : MyBbrSender F)
      → Core m la top rtc s.connection_info s.acked_clusters s.seq_round_map
      → (t : MyBbrSender F) × (average_window env s ≡ some t)
        × Core m la top rtc t.connection_info t.acked_clusters t.seq_round_map
        × (length t.acked_clusters < 10)
        × (t.mode ≡ s.mode)
        × (t.round_trip_count ≡ s.round_trip_count)
        × (t.last_ack_seq ≡ s.last_ack_seq)
        × (t.pacing_rate ≡ s.pacing_rate)
        × (t.min_bps ≡ s.min_bps)
        × (t.cycle_current_offset ≡ s.cycle_current_offset)
        × (t.pacing_gain ≡ s.pacing_gain)
  average_window_total env m la top rtc s k = elim (Bool-cases (leb 10 (length s.acked_clusters))) [
    | inr short ↦ (
      s,
      unfold average_window in rw short,
      k,
      not-leb 10 (length s.acked_clusters) short,
      refl,
      refl,
      refl,
      refl,
      refl,
      refl,
      refl,
    )
    | inl full ↦
        let (t, summed) =
          sum_acked_total 0 m s.connection_info s.acked_clusters no_totals k.queue in
        let (clusters, left, dropped, k', count) =
          drop_stale_total (length s.acked_clusters - 9) m la top rtc (update_average env s t)
            s.acked_clusters (unfold update_average in refl) (unfold update_average in k)
            (omega arith) in
        (
          record (update_average env s t) { connection_info = clusters; acked_clusters = left },
          unfold average_window in rw full (rw summed dropped),
          unfold update_average in k',
          omega (arith, count, leb→le 10 (length s.acked_clusters) full),
          unfold update_average in refl,
          unfold update_average in refl,
          unfold update_average in refl,
          unfold update_average in refl,
          unfold update_average in refl,
          unfold update_average in refl,
          unfold update_average in refl,
        )
  ]
