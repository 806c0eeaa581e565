-- ===== src/Bbr/Machine.antt =====
-- A mode machine for MyBbrSender (my_bbr_sender.cc): STARTUP, PROBE_BW with its gain cycle, and
-- PROBE_RTT.
use stupid_simple.Base.{ℕ, ◌+◌, ◌%◌, ◌≤◌, ◌<◌, ◌≡◌, List, [], ◌∷◌}
use stupid_simple.Bbr.State.{
  Mode, start_up, probe_bw, probe_rtt, k_gain_cycle_length, k_probe_rtt_time,
}
use stupid_simple.Bbr.Safety.Control.{Control}
use stupid_simple.Bbr.Safety.Run.{Event, sent, acked}
pub mod Modes
pub mod Refines

-- PROBE_BW begins at any offset of the cycle but the one that drains.
pub data Draws (c : Control) : Control → Type 0 where
  drawn :
      (n : ℕ)
      → n < k_gain_cycle_length
      → ¬ (n ≡ 1)
      → Draws c (record c { mode = probe_bw; offset = n })

-- An acknowledgement ends STARTUP.
pub data Opens (c : Control) : Control → Type 0 where
  opens : {d : Control} → c.mode ≡ start_up → Draws c d → Opens c d
  is_open : ¬ (c.mode ≡ start_up) → Opens c c

-- PROBE_RTT begins at any acknowledgement, with a time to leave; it does not end before it began,
-- and goes on only until that time.
pub data Probes (now : ℕ) (c : Control) : Control → Type 0 where
  idle : ¬ (c.mode ≡ probe_rtt) → Probes now c c
  begins :
      ¬ (c.mode ≡ probe_rtt)
      → Probes now c (record c { mode = probe_rtt; exit_at = now + k_probe_rtt_time })
  waits : c.mode ≡ probe_rtt → now ≤ c.exit_at → Probes now c c
  leaves : {d : Control} → c.mode ≡ probe_rtt → Draws c d → Probes now c d

-- What a call does to the machine.
pub data Turn : Event → Control → Control → Type 0 where
  sends : (now p bytes : ℕ) (c : Control) → Turn (sent now p bytes) c c
  cycles :
      (now p bytes : ℕ) (c : Control)
      → c.mode ≡ probe_bw
      → Turn (sent now p bytes) c (record c { offset = (c.offset + 1) % k_gain_cycle_length })
  ignores : (now p : ℕ) (c : Control) → p ≤ c.last_ack → Turn (acked now p) c c
  hears :
      (now p : ℕ) (c d e : Control)
      → c.last_ack < p
      → Opens (record c { last_ack = p }) d
      → Probes now d e
      → Turn (acked now p) c e

-- One turn for each call.
pub data Turns : Control → List Event → Control → Type 0 where
  over : (c : Control) → Turns c [] c
  turn :
      (c d e : Control) (event : Event) (events : List Event)
      → Turn event c d
      → Turns d events e
      → Turns c (event ∷ events) e
