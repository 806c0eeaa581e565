-- ===== src/Examples/Acknowledgements.antt =====
-- A run of MyQuicReceiver with a plain received packet manager and a clock that ticks each reading.
use stupid_simple.Base.{ℕ, ◌*◌, refl, true, false, Bool, none, some, List, [], ◌∷◌, arith, take}
use stupid_simple.Header.{quic_header}
use stupid_simple.Quic.{QuicLib}
use stupid_simple.Quic.Receiver.{new_quic_receiver}
use stupid_simple.Quic.AckTimer.{Owed, run_process, run_process-Owed}
use stupid_simple.Examples.{some_types, some_wire}

-- The manager keeps the last number, and whether it is still to be acknowledged.
abbrev pub some_lib : QuicLib (ℕ × Bool) ℕ
some_lib = record {
  types = some_types;
  wire = some_wire;
  stream_frame = 0x80;
  stop_waiting_frame = 6;
  k_max_packet_size = 1452;
  new_manager = (0, false);
  record_packet_received = λ r seq now. (seq, true);
  ack_frame_updated = λ r. r.1;
  dont_wait_for_packets_before = λ r least. r;
  get_updated_ack_frame = λ r approx. (r.0, (r.0, false));
  append_ack_frame = λ frame approx room. take room (frame ∷ []);
}

abbrev pub some_clock : ℕ → ℕ
some_clock n = n * 1000

-- A packet, one that skips a number, a stop-waiting frame, and no packet.
abbrev some_datagrams : List (ℕ × List ℕ)
some_datagrams =
    (7, quic_header some_types some_wire 0x80 1)
    ∷ (7, quic_header some_types some_wire 0x80 3)
    ∷ (7, quic_header some_types some_wire 6 4)
    ∷ (7, [])
    ∷ []

run_process-Owed_example : Owed some_lib some_clock (
    run_process some_lib some_clock
      (new_quic_receiver some_lib 100 (some []) (some []) none)
      some_datagrams)
run_process-Owed_example =
    run_process-Owed some_lib some_clock (λ m n le. omega (arith, le)) (λ r seq now. refl) 100
      (some []) (some []) none some_datagrams
