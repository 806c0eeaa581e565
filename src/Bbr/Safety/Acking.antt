-- ===== src/Bbr/Safety/Acking.antt =====
-- SentClusterInfo::OnAck on the list of clusters.
use stupid_simple.Base.{
  ℕ, ◌<◌, ◌≡◌, refl, ◌∙◌, ◌⊎◌, inl, inr, ◌==◌, ==_iff, Bool-cases, Option-cases, if◌then◌else◌,
  Option, ap, none, some, List, [], ◌∷◌, ◌++◌, arith, false, true,
}
use stupid_simple.Bbr.Env.{BbrEnv}
use stupid_simple.Bbr.Cluster.{SentClusterInfo, trigger_bandwidth_estimate, deref, store}
use stupid_simple.Bbr.State.{MyBbrSender}
use stupid_simple.Bbr.Sampler.{trigger_prev, cluster_on_ack}
use stupid_simple.Bbr.Safety.Links.{
  Linked, view, Live, Keeps, set_ack, deref-id, deref-has_packet, deref-store_self, store-Linked,
  view-store, deref-Live, deref-store_ne,
}
use stupid_simple.Bbr.Safety.Neighbours.{prev-Live, prev-lt}
use stupid_simple.Bbr.Safety.Marks.{
  Updates, trigger-Updates, mark_acked-Updates, trigger_prev_eq, store-Updates,
}

-- Either nothing was queued, or the previous cluster of a cluster that has its first
-- acknowledgement now.
abbrev pub Queued : List ℕ → SentClusterInfo → List ℕ → Type 0
Queued old c new =
    (new ≡ old) ⊎ ((q : ℕ) × (c.prev ≡ some q) × (c.first_ack_ts ≡ 0) × (new ≡ old ++ (q ∷ [])))

-- The first acknowledgement time of a cluster after an acknowledgement.
abbrev pub first_ack : SentClusterInfo → ℕ → ℕ
first_ack c now = if c.first_ack_ts == 0 then now else c.first_ack_ts

module _ {F : Type 0} (env : BbrEnv F) (s : MyBbrSender F) (r seq now : ℕ) where
  abbrev pub Acked : SentClusterInfo → List SentClusterInfo → List ℕ → F → Type 0
  Acked c clusters acked filter =
      (cluster_on_ack env s r c seq now
        ≡ some (record s {
          connection_info = clusters;
          acked_clusters = acked;
          max_bandwidth = filter;
        }))
      × Linked none 0 clusters
      × (view clusters ≡ set_ack r (first_ack c now) (view s.connection_info))
      × Queued s.acked_clusters c acked

  abbrev pub AckedSome : SentClusterInfo → Type 0
  AckedSome c =
      (clusters : List SentClusterInfo) × (acked : List ℕ) × (filter : F) × Acked c clusters acked
        filter

  module _ (c : SentClusterInfo) (l : Linked none 0 s.connection_info)
      (found : deref r s.connection_info ≡ some c) where
    again : (c.first_ack_ts == 0) ≡ false → AckedSome c
    again h =
        let packets = deref-has_packet none 0 r s.connection_info c l found in
        let id = deref-id r s.connection_info c found in
        let keeps : Updates c c = (
          record { same_id = refl; same_prev = refl; same_next = refl; has_packet = packets },
          refl,
        ) in
        let one = store r c s.connection_info in
        let (l1, v1) = store-Updates r c s.connection_info c l found keeps in
        let found1 : deref r one ≡ some c = deref-store_self r c s.connection_info c found id in
        let (d, marked, u) = mark_acked-Updates c seq now packets in
        let (l2, v2) = store-Updates r d one c l1 found1 u in
        (
          store r d one,
          s.acked_clusters,
          s.max_bandwidth,
          (
            unfold cluster_on_ack in rw h (rw found1 (rw marked)),
            l2,
            rw h (v2 ∙ view-store r c s.connection_info id),
            inl refl,
          ),
        )

    -- The cluster with its first acknowledgement.
    touched : SentClusterInfo
    touched = record c { first_ack_ts = now }

    touched-Keeps : Keeps c touched
    unfolding touched
    touched-Keeps = record {
      same_id = refl;
      same_prev = refl;
      same_next = refl;
      has_packet = deref-has_packet none 0 r s.connection_info c l found;
    }

    touched_list : List SentClusterInfo
    touched_list = store r touched s.connection_info

    touched-found : deref r touched_list ≡ some touched
    unfolding touched_list touched
    touched-found =
        deref-store_self r touched s.connection_info c found (deref-id r s.connection_info c found)

    touched-Linked : Linked none 0 touched_list
    unfolding touched_list
    touched-Linked = store-Linked none 0 r touched s.connection_info c l found touched-Keeps

    touched-view : view touched_list ≡ set_ack r now (view s.connection_info)
    unfolding touched_list touched
    touched-view = view-store r touched s.connection_info (deref-id r s.connection_info c found)

    trigger_none : (t : MyBbrSender F) (p : Option ℕ) → p ≡ none → trigger_prev env t p ≡ some t
    unfolding trigger_prev
    trigger_none t none e = refl
    trigger_none t (some q) e = cc

    first_alone : (c.first_ack_ts == 0) ≡ true → c.prev ≡ none → AckedSome c
    unfolding touched_list touched
    first_alone h alone =
        let none_triggered =
          trigger_none (record s { connection_info = touched_list }) c.prev alone in
        let (d, marked, u) = mark_acked-Updates touched seq now touched-Keeps.has_packet in
        let (l2, v2) = store-Updates r d touched_list touched touched-Linked touched-found u in
        (
          store r d touched_list,
          s.acked_clusters,
          s.max_bandwidth,
          (
            unfold cluster_on_ack in rw h (rw none_triggered (rw touched-found (rw marked))),
            l2,
            rw h (v2 ∙ touched-view),
            inl refl,
          ),
        )

    first_linked : (c.first_ack_ts == 0) ≡ true → (q : ℕ) → c.prev ≡ some q → AckedSome c
    unfolding touched_list touched
    first_linked h q linked =
        let id = deref-id r s.connection_info c found in
        let below : q < r =
          prev-lt none 0 r q s.connection_info c (λ n e. absurd (none_some e)) l found linked in
        let live = prev_live (prev-Live none 0 r q s.connection_info c l found linked) in
        let (prev, prev_found) = deref-Live q s.connection_info live in
        let found1 : deref q touched_list ≡ some prev =
          deref-store_ne q r touched s.connection_info id (omega arith) ∙ prev_found in
        let packets = deref-has_packet none 0 q touched_list prev touched-Linked found1 in
        let tu = trigger-Updates env prev packets in
        let two = store q (trigger_bandwidth_estimate env prev).0 touched_list in
        let (l2, v2) =
          store-Updates q (trigger_bandwidth_estimate env prev).0 touched_list prev touched-Linked
            found1 tu in
        let (acked, filter, triggered, queued) =
          trigger_prev_eq env (record s { connection_info = touched_list }) q prev found1 in
        let found2 : deref r two ≡ some touched =
          deref-store_ne r q (trigger_bandwidth_estimate env prev).0 touched_list
            (tu.0.same_id ∙ deref-id q touched_list prev found1) (omega arith)
          ∙ touched-found in
        let (d, marked, u) = mark_acked-Updates touched seq now touched-Keeps.has_packet in
        let (l3, v3) = store-Updates r d two touched l2 found2 u in
        (
          store r d two,
          acked,
          filter,
          (
            unfold cluster_on_ack in
                rw h (
                  rw
                    (ap (trigger_prev env (record s { connection_info = touched_list })) linked
                      ∙ triggered)
                    (rw found2 (rw marked))),
            l3,
            rw h (v3 ∙ v2 ∙ touched-view),
            elim queued [
              | inl same ↦ inl same
              | inr more ↦ inr (q, linked, (==_iff c.first_ack_ts 0).0 h, more)
            ],
          ),
        )
      where
        none_some : {n : ℕ} → none ≡ some n → ⊥
        none_some e = cc

        prev_live :
            (none ≡ some q) ⊎ Live q (view s.connection_info) → Live q (view s.connection_info)
        prev_live (inl e) = absurd (none_some e)
        prev_live (inr h) = h

    -- SentClusterInfo::OnAck on a live cluster follows no dangling pointer. The cluster has its
    -- first acknowledgement afterwards, and at most its previous cluster was queued.
    pub cluster_on_ack_total : AckedSome c
    cluster_on_ack_total = elim (Bool-cases (c.first_ack_ts == 0)) [
      | inr h ↦ again h
      | inl h ↦ elim (Option-cases c.prev) [
        | inl alone ↦ first_alone h alone
        | inr (q, linked) ↦ first_linked h q linked
      ]
    ]
