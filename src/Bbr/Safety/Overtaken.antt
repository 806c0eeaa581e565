-- ===== src/Bbr/Safety/Overtaken.antt =====
-- About OnAck of MyBbrSender (my_bbr_sender.cc) and acknowledgements that are repeated or
-- overtaken.
use stupid_simple.Base.{
  ℕ, ◌≡◌, inl, inr, refl, leb, if◌then◌else◌, Bool-cases, Option, none, some, ◌>>=◌, List, [], ◌∷◌,
  arith, not-leb,
}
use stupid_simple.Bbr.Env.{BbrEnv}
use stupid_simple.Bbr.State.{MyBbrSender}
use stupid_simple.Bbr.Sender.{on_packet_sent, on_ack}
use stupid_simple.Bbr.Safety.Run.{Event, sent, acked, run}
use stupid_simple.Bbr.Safety.LastAck.{Leaves, moved, sent-Leaves, on_ack-Leaves}

-- The run without the acknowledgements whose number is not above `high` and all before them.
abbrev pub leave_overtaken : ℕ → List Event → List Event
leave_overtaken high [] = []
leave_overtaken high (sent now p bytes ∷ events) = sent now p bytes ∷ leave_overtaken high events
leave_overtaken high (acked now p ∷ events) =
    if leb p high then leave_overtaken high events else acked now p ∷ leave_overtaken p events

module _ {F : Type 0} where
  module _ (env : BbrEnv F) where
    after :
        (a : ℕ) (o : Option (MyBbrSender F)) (xs ys : List Event)
        → Leaves a o
        → ((t : MyBbrSender F) → t.last_ack_seq ≡ a → run env t xs ≡ run env t ys)
        → (o >>= λ t. run env t xs) ≡ (o >>= λ t. run env t ys)
    after a none xs ys h k = refl
    after a (some t) xs ys h k = k t h

    without :
        (high : ℕ) (s : MyBbrSender F) (events : List Event)
        → s.last_ack_seq ≡ high
        → run env s events ≡ run env s (leave_overtaken high events)
    unfolding run on_ack
    without high s [] e = refl
    without high s (sent now p bytes ∷ events) e =
        after high (on_packet_sent s now p bytes) events (leave_overtaken high events)
          (moved _ e (sent-Leaves s now p bytes)) (λ t same. without high t events same)
    without high s (acked now p ∷ events) e = elim (Bool-cases (leb p high)) [
      | inl old ↦
          let ignored : on_ack env s now p ≡ some s = rw e (rw old refl) in
          rw old (rw ignored (without high s events e))
      | inr new ↦ rw new (
          after p (on_ack env s now p) events (leave_overtaken p events)
            (on_ack-Leaves env s now p (omega (arith, e, not-leb p high new)))
            (λ t same. without p t events same))
    ]

    -- A run of MyBbrSender from any state, with faults or without, is the run without the
    -- acknowledgements whose number is at most the one of an earlier acknowledgement or
    -- last_ack_seq_ at the start: repeated and overtaken acknowledgements change nothing.
    pub run_without_overtaken :
        (s : MyBbrSender F) (events : List Event)
        → run env s events ≡ run env s (leave_overtaken s.last_ack_seq events)
    run_without_overtaken s events = without s.last_ack_seq s events refl
