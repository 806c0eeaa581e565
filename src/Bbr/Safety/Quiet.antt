-- ===== src/Bbr/Safety/Quiet.antt =====
-- About the operations of MyBbrSender (my_bbr_sender.cc) on the round-trip times and the gain
-- cycle, and the clusters.
use stupid_simple.Base.{
  ℕ, ◌+◌, ◌≤◌, ◌<◌, ◌≡◌, refl, sym, ◌∙◌, ◌⊎◌, inl, inr, Bool-cases, [], arith, Option-cases, find,
}
use stupid_simple.Base.Int.{ltb_ℤ, sub_ℕ}
use stupid_simple.Bbr.State.{MyBbrSender, Mode, start_up, probe_bw, probe_rtt}
use stupid_simple.Bbr.Modes.{update_rtt, update_gain_cycle_phase}

pub Mode-cases : (m : Mode) → (m ≡ start_up) ⊎ ((m ≡ probe_bw) ⊎ (m ≡ probe_rtt))
Mode-cases start_up = inl refl
Mode-cases probe_bw = inr (inl refl)
Mode-cases probe_rtt = inr (inr refl)

module _ {F : Type 0} where
  -- The clusters are as before.
  pub record Kept (s t : MyBbrSender F) : Type 0 where
    pub same_clusters : t.connection_info ≡ s.connection_info
    pub same_queue : t.acked_clusters ≡ s.acked_clusters
    pub same_rounds : t.seq_round_map ≡ s.seq_round_map
    pub rounds_grow : s.round_trip_count ≤ t.round_trip_count

  -- The clusters are gone.
  pub record Cleared (t : MyBbrSender F) : Type 0 where
    pub no_clusters : t.connection_info ≡ []
    pub no_queue : t.acked_clusters ≡ []
    pub no_rounds : t.seq_round_map ≡ []

  -- In PROBE_BW the round count is positive.
  abbrev pub Counts : MyBbrSender F → Type 0
  Counts s = s.mode ≡ probe_bw → 0 < s.round_trip_count

  pub Kept-refl : (s : MyBbrSender F) → Kept s s
  Kept-refl s = record {
    same_clusters = refl;
    same_queue = refl;
    same_rounds = refl;
    rounds_grow = omega arith;
  }

  pub Kept-trans : {s t u : MyBbrSender F} → Kept s t → Kept t u → Kept s u
  Kept-trans h k = record {
    same_clusters = k.same_clusters ∙ h.same_clusters;
    same_queue = k.same_queue ∙ h.same_queue;
    same_rounds = k.same_rounds ∙ h.same_rounds;
    rounds_grow = omega (arith, h.rounds_grow, k.rounds_grow);
  }

  pub Cleared-Kept : {s t : MyBbrSender F} → Cleared s → Kept s t → Cleared t
  Cleared-Kept h k = record {
    no_clusters = k.same_clusters ∙ h.no_clusters;
    no_queue = k.same_queue ∙ h.no_queue;
    no_rounds = k.same_rounds ∙ h.no_rounds;
  }

  -- An operation that keeps the clusters, the count's meaning and the last acknowledgement.
  pub record Quiet (s t : MyBbrSender F) : Type 0 where
    pub kept : Kept s t
    pub counts : Counts s → Counts t
    pub same_ack : t.last_ack_seq ≡ s.last_ack_seq

  -- The record of an operation that changes none of those fields.
  plain :
      (s t : MyBbrSender F)
      → Kept s t
      → t.mode ≡ s.mode
      → t.last_ack_seq ≡ s.last_ack_seq
      → Quiet s t
  plain s t k m a = record {
    kept = k;
    counts = λ c e. omega (arith, k.rounds_grow, c (sym m ∙ e));
    same_ack = a;
  }

  pub Quiet-trans : {s t u : MyBbrSender F} → Quiet s t → Quiet t u → Quiet s u
  Quiet-trans h k = record {
    kept = Kept-trans h.kept k.kept;
    counts = λ c. k.counts (h.counts c);
    same_ack = k.same_ack ∙ h.same_ack;
  }

  -- A state that differs from `s` in none of the fields of the invariant.
  abbrev pub Unchanged : (s t : MyBbrSender F) → Type 0
  Unchanged s t =
      (t.connection_info ≡ s.connection_info)
      × (t.acked_clusters ≡ s.acked_clusters)
      × (t.seq_round_map ≡ s.seq_round_map)
      × (t.round_trip_count ≡ s.round_trip_count)
      × (t.mode ≡ s.mode)
      × (t.last_ack_seq ≡ s.last_ack_seq)

  pub Unchanged-Quiet : (s t : MyBbrSender F) → Unchanged s t → Quiet s t
  Unchanged-Quiet s t u =
      plain s t
        (record {
          same_clusters = u.0;
          same_queue = u.1;
          same_rounds = u.2;
          rounds_grow = omega (arith, u.3);
        })
        u.4 u.5

  -- A state of a later round.
  abbrev pub NextRound : (s t : MyBbrSender F) → Type 0
  NextRound s t =
      (t.connection_info ≡ s.connection_info)
      × (t.acked_clusters ≡ s.acked_clusters)
      × (t.seq_round_map ≡ s.seq_round_map)
      × (t.round_trip_count ≡ s.round_trip_count + 1)
      × (t.last_ack_seq ≡ s.last_ack_seq)

  pub NextRound-Quiet : (s t : MyBbrSender F) → NextRound s t → Quiet s t
  NextRound-Quiet s t u = record {
    kept = record {
      same_clusters = u.0;
      same_queue = u.1;
      same_rounds = u.2;
      rounds_grow = omega (arith, u.3);
    };
    counts = λ c e. omega (arith, u.3);
    same_ack = u.4;
  }

  pub update_gain_cycle_phase-Quiet :
      (s : MyBbrSender F) (now : ℕ) → Quiet s (update_gain_cycle_phase s now)
  unfolding update_gain_cycle_phase
  update_gain_cycle_phase-Quiet s now =
      elim (Bool-cases (ltb_ℤ s.min_rtt (sub_ℕ now s.last_cycle_start))) [
        | inl due ↦ rw due (NextRound-Quiet s _ (refl, refl, refl, refl, refl))
        | inr early ↦ rw early (Unchanged-Quiet s s (refl, refl, refl, refl, refl, refl))
      ]

  -- The gain cycle leaves the rate and its bound alone.
  pub gain_cycle_rate :
      (s : MyBbrSender F) (now : ℕ)
      → ((update_gain_cycle_phase s now).pacing_rate ≡ s.pacing_rate)
        × ((update_gain_cycle_phase s now).min_bps ≡ s.min_bps)
  unfolding update_gain_cycle_phase
  gain_cycle_rate s now = elim (Bool-cases (ltb_ℤ s.min_rtt (sub_ℕ now s.last_cycle_start))) [
    | inl due ↦ rw due (refl, refl)
    | inr early ↦ rw early (refl, refl)
  ]

  pub update_rtt-Quiet : (s : MyBbrSender F) (now p : ℕ) → Quiet s (update_rtt s now p)
  unfolding update_rtt
  update_rtt-Quiet s now p = elim (Option-cases (find p s.seq_ts_map)) [
    | inl unknown ↦
        rw (unknown, update_rtt) (Unchanged-Quiet s _ (refl, refl, refl, refl, refl, refl))
    | inr (sent, known) ↦
        rw (known, update_rtt) (Unchanged-Quiet s _ (refl, refl, refl, refl, refl, refl))
  ]
