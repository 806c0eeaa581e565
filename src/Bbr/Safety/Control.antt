-- ===== src/Bbr/Safety/Control.antt =====
-- What decides the mode of MyBbrSender (my_bbr_sender.cc), and the work on clusters.
use stupid_simple.Base.{
  ℕ, zero, suc, ◌≡◌, inl, inr, refl, leb, ◌==◌, Bool, true, false, if◌then◌else◌, Bool-cases,
  Option, Option-cases, none, some, ◌>>=◌, List, [], ◌∷◌, length, find, erase,
}
use stupid_simple.Bbr.Env.{BbrEnv}
use stupid_simple.Bbr.Cluster.{SentClusterInfo, deref, store, remove_cluster_le, mark_acked}
use stupid_simple.Bbr.State.{Mode, MyBbrSender, k_average_ack_rate_window_size}
use stupid_simple.Bbr.Sampler.{
  add_packet_info_sampler, trigger_prev, cluster_on_ack, ack_cluster, on_estimate_bandwidth,
  open_cluster,
}
use stupid_simple.Bbr.Sender.{drop_stale, average_window, update_average, sum_acked, no_totals}

pub record Control : Type 0 where
  pub mode : Mode
  pub offset : ℕ
  pub exit_at : ℕ
  pub last_ack : ℕ

module _ {F : Type 0} where
  abbrev pub control : MyBbrSender F → Control
  control s = record {
    mode = s.mode;
    offset = s.cycle_current_offset;
    exit_at = s.exit_probe_rtt_at;
    last_ack = s.last_ack_seq;
  }

  -- What the result has, where there is one.
  abbrev pub Keeps : Control → Option (MyBbrSender F) → Type 0
  Keeps a none = Unit {0}
  Keeps a (some t) = control t ≡ a

  Keeps-bind :
      {A : Type 0} (a : Control) (o : Option A) (f : A → Option (MyBbrSender F))
      → ((x : A) → Keeps a (f x))
      → Keeps a (o >>= f)
  Keeps-bind a none f h = tt
  Keeps-bind a (some x) f h = h x

  pub Keeps-chain :
      (a : Control) (o : Option (MyBbrSender F)) (f : MyBbrSender F → Option (MyBbrSender F))
      → Keeps a o
      → ((t : MyBbrSender F) → control t ≡ a → Keeps a (f t))
      → Keeps a (o >>= f)
  Keeps-chain a none f h k = tt
  Keeps-chain a (some t) f h k = k t h

  pub sampler-Keeps :
      (s : MyBbrSender F) (now p bytes : ℕ)
      → Keeps (control s) (add_packet_info_sampler s now p bytes)
  unfolding add_packet_info_sampler
  sampler-Keeps s now p bytes =
      Keeps-bind (control s) (open_cluster s) _
        (λ clusters. Keeps-bind (control s) (deref s.round_trip_count clusters) _ (λ cluster. refl))

  stale-Keeps :
      (n : ℕ) (s : MyBbrSender F) (queue : List ℕ)
      → s.acked_clusters ≡ queue
      → Keeps (control s) (drop_stale n s)
  unfolding drop_stale
  stale-Keeps zero s queue e = refl
  stale-Keeps (suc n) s [] e = simp (e, drop_stale) tt
  stale-Keeps (suc n) s (p ∷ rest) e =
      simp (e, drop_stale)
        (Keeps-bind (control s) (deref p s.connection_info) _ (λ c.
          Keeps-bind (control s)
            (remove_cluster_le (length s.connection_info) c.cluster_id s.connection_info) _
            (λ kept.
              stale-Keeps n (record s { acked_clusters = rest; connection_info = kept }) rest
                refl)))

  module _ (env : BbrEnv F) where
    estimate-Keeps :
        (s : MyBbrSender F) (p : ℕ) (bw : Option ℕ)
        → control (on_estimate_bandwidth env s p bw) ≡ (control s)
    unfolding on_estimate_bandwidth
    estimate-Keeps s p none = refl
    estimate-Keeps s p (some bw) = refl

    trigger_prev-Keeps :
        (s : MyBbrSender F) (p : Option ℕ) → Keeps (control s) (trigger_prev env s p)
    unfolding trigger_prev
    trigger_prev-Keeps s none = refl
    trigger_prev-Keeps s (some p) =
        Keeps-bind (control s) (deref p s.connection_info) _ (λ prev. estimate-Keeps _ p _)

    first-Keeps :
        (s : MyBbrSender F) (p : Option ℕ) (first : Bool)
        → Keeps (control s) (if first then trigger_prev env s p else some s)
    first-Keeps s p true = trigger_prev-Keeps s p
    first-Keeps s p false = refl

    cluster_on_ack-Keeps :
        (s : MyBbrSender F) (r : ℕ) (c : SentClusterInfo) (p now : ℕ)
        → Keeps (control s) (cluster_on_ack env s r c p now)
    unfolding cluster_on_ack
    cluster_on_ack-Keeps s r c p now =
        let first = c.first_ack_ts == 0 in
        let c' : SentClusterInfo = if first then record c { first_ack_ts = now } else c in
        let s' : MyBbrSender F = record s { connection_info = store r c' s.connection_info } in
        Keeps-chain (control s) (if first then trigger_prev env s' c.prev else some s') _
          (first-Keeps s' c.prev first)
          (λ t same.
            Keeps-bind (control s) (deref r t.connection_info) _
              (λ again. Keeps-bind (control s) (mark_acked again p now) _ (λ marked. same)))

    pub ack_cluster-Keeps :
        (s : MyBbrSender F) (now p : ℕ) → Keeps (control s) (ack_cluster env s now p)
    unfolding ack_cluster
    ack_cluster-Keeps s now p = elim (Option-cases (find p s.seq_round_map)) [
      | inl unknown ↦ rw (unknown, ack_cluster) refl
      | inr (round, known) ↦ elim (Option-cases (deref round s.connection_info)) [
        | inl gone ↦ simp (known, gone, ack_cluster, Keeps)
        | inr (c, there) ↦
            rw (known, ack_cluster)
              (rw there (
                cluster_on_ack-Keeps (record s { seq_round_map = erase p s.seq_round_map }) round c
                  p now))
      ]
    ]

    pub window-Keeps : (s : MyBbrSender F) → Keeps (control s) (average_window env s)
    unfolding average_window update_average
    window-Keeps s =
        elim (Bool-cases (leb k_average_ack_rate_window_size (length s.acked_clusters))) [
          | inr short ↦ rw (short, average_window) refl
          | inl long ↦ rw long (
              Keeps-bind (control s) (sum_acked s.connection_info s.acked_clusters no_totals) _
                (λ t. stale-Keeps _ (update_average env s t) s.acked_clusters refl))
        ]
