-- ===== src/Bbr/Safety/Run.antt =====
-- About runs of MyBbrSender (my_bbr_sender.cc): the calls that its owner makes, in any order.
use stupid_simple.Base.{ℕ, ◌≤◌, ◌<◌, ◌≡◌, refl, some, List, [], ◌∷◌, length, Option, arith, ◌>>=◌}
use stupid_simple.Bbr.Env.{BbrEnv}
use stupid_simple.Bbr.State.{k_gain_cycle_length, MyBbrSender, new_sender}
use stupid_simple.Bbr.Sender.{on_packet_sent, on_ack}
use stupid_simple.Bbr.Safety.Tuning.{gain_of}
use stupid_simple.Bbr.Safety.Steps.{WellFormed, Keeps, new_sender-WellFormed, on_packet_sent_total}
use stupid_simple.Bbr.Safety.Steps.Acked.{on_ack_total}

-- A call of the sender: OnPacketSent or OnAck.
pub data Event : Type 0 where
  sent : (now packet_number bytes : ℕ) → Event
  acked : (now packet_number : ℕ) → Event

-- Packets are numbered upwards, from above `top`, and acknowledged at a positive time.
abbrev pub Rising : ℕ → List Event → Type 0
Rising top [] = Unit {0}
Rising top (sent now p bytes ∷ events) = (top < p) × Rising p events
Rising top (acked now p ∷ events) = (0 < now) × Rising top events

abbrev pub last_sent : ℕ → List Event → ℕ
last_sent top [] = top
last_sent top (sent now p bytes ∷ events) = last_sent p events
last_sent top (acked now p ∷ events) = last_sent top events

module _ {F : Type 0} (env : BbrEnv F) where
  abbrev pub step : MyBbrSender F → Event → Option (MyBbrSender F)
  step s (sent now p bytes) = on_packet_sent s now p bytes
  step s (acked now p) = on_ack env s now p

  unfoldable pub run : MyBbrSender F → List Event → Option (MyBbrSender F)
  run s [] = some s
  run s (e ∷ events) = step s e >>= λ t. run t events

  step_total :
      (top : ℕ) (s : MyBbrSender F) (e : Event)
      → Rising top (e ∷ [])
      → WellFormed top s
      → (t : MyBbrSender F) × (step s e ≡ some t)
        × WellFormed (last_sent top (e ∷ [])) t
        × Keeps s t
  step_total top s (sent now p bytes) r w = on_packet_sent_total env top s now p bytes r.0 w
  step_total top s (acked now p) r w = on_ack_total env top s now p r.0 w

  first_event :
      (top : ℕ) (e : Event) (events : List Event)
      → Rising top (e ∷ events)
      → Rising top (e ∷ []) × Rising (last_sent top (e ∷ [])) events
  first_event top (sent now p bytes) events r = ((r.0, tt), r.1)
  first_event top (acked now p) events r = ((r.0, tt), r.1)

  run_from :
      (top : ℕ) (s : MyBbrSender F) (events : List Event)
      → Rising top events
      → WellFormed top s
      → (t : MyBbrSender F) × (run s events ≡ some t)
        × WellFormed (last_sent top events) t
        × Keeps s t
  unfolding run
  run_from top s [] r w = (s, refl, w, ((λ h. h), (λ h. h)))
  run_from top s (e ∷ events) r w =
      let (now, later) = first_event top e events r in
      let (t, stepped, w', keeps) = step_total top s e now w in
      let (u, ended, w'', keeps') = run_from (last_sent top (e ∷ [])) t events later w' in
      (
        u,
        rw stepped ended,
        last_step top e events u w'',
        ((λ h. keeps'.0 (keeps.0 h)), (λ h. keeps'.1 (keeps.1 h))),
      )
    where
      last_step :
          (top : ℕ) (e : Event) (events : List Event) (u : MyBbrSender F)
          → WellFormed (last_sent (last_sent top (e ∷ [])) events) u
          → WellFormed (last_sent top (e ∷ events)) u
      last_step top (sent now p bytes) events u w = w
      last_step top (acked now p) events u w = w

  -- From a new sender, any sequence of OnPacketSent and OnAck calls whose packet numbers rise
  -- from above 0 and whose acknowledgements come at positive times, in any order and for any
  -- packet, ends without a fault: no cluster pointer dangles and no cluster without packets is
  -- read. The state that it leaves satisfies the invariant, and fewer than ten clusters wait in
  -- acked_clusters_.
  pub run_total :
      (min_bps start_bps max_bps : ℕ) (events : List Event)
      → Rising 0 events
      → (t : MyBbrSender F) × (run (new_sender env min_bps start_bps max_bps) events ≡ some t)
        × WellFormed (last_sent 0 events) t
        × (length t.acked_clusters < 10)
  run_total min_bps start_bps max_bps events r =
      let (t, e, w, _) =
        run_from 0 _ events r (new_sender-WellFormed env min_bps start_bps max_bps) in
      (t, e, w, w.short)

  -- Where the start rate is at least min_bps_, the pacing rate after any sequence of
  -- OnPacketSent and OnAck calls from a new sender, whose packet numbers rise from above 0 and
  -- whose acknowledgements come at positive times, is at least min_bps_ as well.
  pub run_floor :
      (min_bps start_bps max_bps : ℕ) (events : List Event)
      → Rising 0 events
      → min_bps ≤ start_bps
      → (t : MyBbrSender F) × (run (new_sender env min_bps start_bps max_bps) events ≡ some t)
        × (t.min_bps ≤ t.pacing_rate)
  run_floor min_bps start_bps max_bps events r h =
      let (t, e, w, keeps) =
        run_from 0 _ events r (new_sender-WellFormed env min_bps start_bps max_bps) in
      (t, e, keeps.0 (unfold new_sender in h))

  -- After any sequence of OnPacketSent and OnAck calls from a new sender whose packet numbers
  -- rise from above 0 and whose acknowledgements come at positive times, cycle_current_offset_
  -- is an index of kPacingGain, and the pacing gain is the entry there in PROBE_BW and 1 in the
  -- other modes.
  pub run_gain :
      (min_bps start_bps max_bps : ℕ) (events : List Event)
      → Rising 0 events
      → (t : MyBbrSender F) × (run (new_sender env min_bps start_bps max_bps) events ≡ some t)
        × (t.cycle_current_offset < k_gain_cycle_length)
        × (t.pacing_gain ≡ gain_of t.mode t.cycle_current_offset)
  run_gain min_bps start_bps max_bps events r =
      let (t, e, w, keeps) =
        run_from 0 _ events r (new_sender-WellFormed env min_bps start_bps max_bps) in
      let tuned = keeps.1 (unfold new_sender in (omega arith, refl)) in (t, e, tuned.0, tuned.1)
