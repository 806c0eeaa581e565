-- ===== src/Examples/Congestion.antt =====
-- Runs of the BBR sender and of its pacer, in PROBE_BW with two clusters.
use stupid_simple.Base.{
  ℕ, ◌+◌, ◌-◌, ◌≤◌, ◌<◌, ◌≡◌, refl, inr, Option, some, none, List, [], ◌∷◌, length, arith, true,
}
use stupid_simple.Bbr.Safety.Control.{control}
use stupid_simple.Bbr.Machine.{Turns}
use stupid_simple.Bbr.Machine.Refines.{run_keeps_to_machine}
use stupid_simple.Bbr.State.{probe_bw, k_gain_cycle_length, MyBbrSender, new_sender}
use stupid_simple.Bbr.Modes.{add_seq_and_timestamp, maybe_enter_or_exit_probe_rtt}
use stupid_simple.Base.Int.{pos}
use stupid_simple.Bbr.Sender.{on_packet_sent}
use stupid_simple.Bbr.Safety.Steps.{WellFormed}
use stupid_simple.Bbr.Safety.Tuning.{gain_of}
use stupid_simple.Bbr.Safety.Run.{
  run_gain, Event, sent, acked, last_sent, Rising, run, run_total, run_floor,
}
use stupid_simple.Bbr.Pacing.{
  MyPacingSender, new_pacing, pacing_packet_sent, time_until_send, begin, send, charge, no_burst,
}
use stupid_simple.Bbr.ProbeRtt.{Left, wait, probe_rtt_ends}
use stupid_simple.Examples.{some_env}

-- The first acknowledgement starts PROBE_BW; the later ones are for packets of two rounds.
abbrev some_calls : List Event
some_calls =
    sent 1000 1 1390
    ∷ acked 51000 1
    ∷ sent 60000 2 1390
    ∷ sent 130000 3 1390
    ∷ sent 131000 4 1390
    ∷ acked 190000 2
    ∷ acked 240000 4
    ∷ acked 241000 3
    ∷ []

some_calls-Rising : Rising 0 some_calls
some_calls-Rising = (
  omega arith,
  (
    omega arith,
    (omega arith, (omega arith, (omega arith, (omega arith, (omega arith, (omega arith, tt)))))),
  ),
)

run_total_example :
    (t : MyBbrSender ℕ) × (run some_env (new_sender some_env 500000 1000000 5000000) some_calls
      ≡ some t)
    × WellFormed (last_sent 0 some_calls) t
    × (length t.acked_clusters < 10)
run_total_example = run_total some_env 500000 1000000 5000000 some_calls some_calls-Rising

run_floor_example :
    (t : MyBbrSender ℕ) × (run some_env (new_sender some_env 500000 1000000 5000000) some_calls
      ≡ some t)
    × (t.min_bps ≤ t.pacing_rate)
run_floor_example =
    run_floor some_env 500000 1000000 5000000 some_calls some_calls-Rising (omega arith)

abbrev idle : MyPacingSender ℕ
idle = new_pacing (new_sender some_env 500000 1000000 5000000)

abbrev or_idle : Option (MyPacingSender ℕ) → MyPacingSender ℕ
or_idle none = idle
or_idle (some s) = s

abbrev after_one : MyPacingSender ℕ
after_one = or_idle (pacing_packet_sent some_env idle 5000 1 1390)

one_packet : pacing_packet_sent some_env idle 5000 1 1390 ≡ some after_one
unfolding pacing_packet_sent on_packet_sent add_seq_and_timestamp new_pacing new_sender
one_packet = refl

at_once : time_until_send idle 5000 ≡ 0
unfolding time_until_send new_pacing
at_once = refl

then_later : time_until_send after_one 20000 ≡ 0
unfolding time_until_send pacing_packet_sent on_packet_sent add_seq_and_timestamp new_pacing
    new_sender
then_later = refl

no_burst_example : 0 + charge some_env after_one 1390 ≤ 20000 - 5000 + idle.alarm_granularity
no_burst_example =
    no_burst some_env 5000 20000 idle after_one (0 + charge some_env after_one 1390)
      (send idle after_one 0 5000 1 1390 begin (omega arith) at_once one_packet) (omega arith)
      then_later

run_gain_example :
    (t : MyBbrSender ℕ) × (run some_env (new_sender some_env 500000 1000000 5000000) some_calls
      ≡ some t)
    × (t.cycle_current_offset < k_gain_cycle_length)
    × (t.pacing_gain ≡ gain_of t.mode t.cycle_current_offset)
run_gain_example = run_gain some_env 500000 1000000 5000000 some_calls some_calls-Rising

-- In the phase that drains, in the tenth second.
abbrev draining : MyBbrSender ℕ
draining = record (new_sender some_env 500000 1000000 5000000) {
  mode = probe_bw;
  cycle_current_offset = 1;
  min_rtt = pos 50000;
}

probe_rtt_ends_example : Left (
    wait some_env
      (maybe_enter_or_exit_probe_rtt some_env draining 10100000 true)
      (10150000 ∷ 10200000 ∷ 10300001 ∷ 10350000 ∷ []))
probe_rtt_ends_example =
    probe_rtt_ends some_env draining 10100000 (10150000 ∷ 10200000 ∷ []) 10300001 (10350000 ∷ [])
      (inr refl) (omega arith) (omega arith)

run_keeps_to_machine_example :
    (t : MyBbrSender ℕ) × (run some_env (new_sender some_env 500000 1000000 5000000) some_calls
      ≡ some t)
    × Turns (control (new_sender some_env 500000 1000000 5000000)) some_calls (control t)
run_keeps_to_machine_example =
    run_keeps_to_machine some_env 500000 1000000 5000000 some_calls some_calls-Rising
