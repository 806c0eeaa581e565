-- ===== src/Bbr/Safety/LastAck.antt =====
-- What MyBbrSender does to last_ack_seq_.
use mathlib.Core.Path.{subst}
use stupid_simple.Base.{
  ap, ℕ, ◌<◌, ◌≡◌, inl, inr, refl, leb, false, Bool-cases, Option, none, some, ◌>>=◌, arith,
  not-leb, ◌⊎◌,
}
use stupid_simple.Base.Int.{ltb_ℤ, sub_ℕ}
use stupid_simple.Bbr.Env.{BbrEnv}
use stupid_simple.Bbr.State.{MyBbrSender}
use stupid_simple.Bbr.Modes.{update_gain_cycle_phase, add_seq_and_timestamp}
use stupid_simple.Bbr.Sampler.{ack_cluster}
use stupid_simple.Bbr.Sender.{on_packet_sent, on_ack, average_window, ack_modes}
use stupid_simple.Bbr.Safety.Quiet.{Mode-cases}
use stupid_simple.Bbr.Safety.Phases.{ack_modes-Phase}
use stupid_simple.Bbr.Safety.Control.{
  Control, Keeps, sampler-Keeps, ack_cluster-Keeps, window-Keeps,
}

module _ {F : Type 0} where
  -- What the result leaves in last_ack_seq_, where there is one.
  abbrev pub Leaves : ℕ → Option (MyBbrSender F) → Type 0
  Leaves a none = Unit {0}
  Leaves a (some t) = t.last_ack_seq ≡ a

  pub moved : {a b : ℕ} (o : Option (MyBbrSender F)) → a ≡ b → Leaves a o → Leaves b o
  moved o e h = subst (λ n. Leaves n o) e h

  acks : (a : Control) (o : Option (MyBbrSender F)) → Keeps a o → Leaves a.last_ack o
  acks a none h = tt
  acks a (some t) h = ap (λ c. c.last_ack) h

  Leaves-chain :
      (a : ℕ) (o : Option (MyBbrSender F)) (f : MyBbrSender F → Option (MyBbrSender F))
      → Leaves a o
      → ((t : MyBbrSender F) → t.last_ack_seq ≡ a → Leaves a (f t))
      → Leaves a (o >>= f)
  Leaves-chain a none f h k = tt
  Leaves-chain a (some t) f h k = k t h

  gain_cycle-Leaves :
      (s : MyBbrSender F) (now : ℕ) → (update_gain_cycle_phase s now).last_ack_seq ≡ s.last_ack_seq
  unfolding update_gain_cycle_phase
  gain_cycle-Leaves s now = elim (Bool-cases (ltb_ℤ s.min_rtt (sub_ℕ now s.last_cycle_start))) [
    | inl due ↦ rw due refl
    | inr early ↦ rw early refl
  ]

  pub sent-Leaves :
      (s : MyBbrSender F) (now p bytes : ℕ) → Leaves s.last_ack_seq (on_packet_sent s now p bytes)
  unfolding on_packet_sent add_seq_and_timestamp
  sent-Leaves s now p bytes = elim (Mode-cases s.mode) [
    | inl e ↦ rw (e, on_packet_sent) refl
    | inr (inr e) ↦ rw (e, on_packet_sent) refl
    | inr (inl e) ↦
        let noted = add_seq_and_timestamp s now p in
        rw (e, on_packet_sent)
          (moved _ (gain_cycle-Leaves noted now)
            (acks _ _ (sampler-Keeps (update_gain_cycle_phase noted now) now p bytes)))
  ]

  module _ (env : BbrEnv F) where
    pub on_ack-Leaves :
        (s : MyBbrSender F) (now p : ℕ) → s.last_ack_seq < p → Leaves p (on_ack env s now p)
    unfolding on_ack
    on_ack-Leaves s now p new =
        let fresh : leb p s.last_ack_seq ≡ false = ground arith in
        let (_, _, noted) = ack_modes-Phase env s now p in
        rw fresh (
          Leaves-chain p (ack_cluster env (ack_modes env s now p) now p) (average_window env)
            (moved _ noted (acks _ _ (ack_cluster-Keeps env (ack_modes env s now p) now p)))
            (λ t same. moved _ same (acks _ _ (window-Keeps env t))))

  module _ (env : BbrEnv F) where
    result-Leaves :
        (a : ℕ) (o : Option (MyBbrSender F)) (t : MyBbrSender F)
        → o ≡ some t
        → Leaves a o
        → t.last_ack_seq ≡ a
    result-Leaves a o t e h = subst (Leaves a) e h

    -- OnPacketSent leaves last_ack_seq_ alone.
    pub on_packet_sent-keeps_ack :
        (s t : MyBbrSender F) (now p bytes : ℕ)
        → on_packet_sent s now p bytes ≡ some t
        → t.last_ack_seq ≡ s.last_ack_seq
    on_packet_sent-keeps_ack s t now p bytes e =
        result-Leaves s.last_ack_seq _ t e (sent-Leaves s now p bytes)

    -- OnAck leaves last_ack_seq_ alone, or sets it to the number.
    pub on_ack-moves_ack :
        (s t : MyBbrSender F) (now p : ℕ)
        → on_ack env s now p ≡ some t
        → (t.last_ack_seq ≡ s.last_ack_seq) ⊎ (t.last_ack_seq ≡ p)
    unfolding on_ack
    on_ack-moves_ack s t now p e = elim (Bool-cases (leb p s.last_ack_seq)) [
      | inl old ↦
          inl (result-Leaves s.last_ack_seq (on_ack env s now p) t e (rw (old, on_ack) refl))
      | inr new ↦
          inr (result-Leaves p _ t e (on_ack-Leaves env s now p (not-leb p s.last_ack_seq new)))
    ]
