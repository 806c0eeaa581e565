-- ===== src/Examples/Datagrams.antt =====
-- Datagrams of the BBR applications and of myquic, a lossy arrival, and runs of the applications.
use stupid_simple.Base.{
  ℕ, ◌+◌, ◌%◌, ◌^◌, ◌≤◌, ◌≡◌, refl, inl, true, false, some, ◌>>=◌, List, [], ◌∷◌, ◌++◌, length,
  take, count, arith,
}
use stupid_simple.Frames.{frame_split, frame_split_lem, IsSplit}
use stupid_simple.Header.{bbr_header, quic_header, read_bbr_header, read_quic_header}
use stupid_simple.Header.RoundTrip.{read-bbr_header, read-quic_header}
use stupid_simple.Bbr.Pacing.{on_congestion_event}
use stupid_simple.Bbr.App.{ack_packet, fake_packet, test_proto_stream}
use stupid_simple.Bbr.App.Sender.{MyBbrSenderApp, new_app, receive}
use stupid_simple.Bbr.App.Receiver.{new_receiver, on_incoming_data, on_data_packet}
use stupid_simple.Bbr.App.Delivery.{ack-reaches_sender, packet-reaches_receiver}
use stupid_simple.Bbr.App.Losses.{receive_all, lost, between, losses_exact}
use stupid_simple.Bbr.App.Acks.{acked-reaches_sender}
use stupid_simple.Bbr.App.Safety.{run_app, Running, run_app_total}
use stupid_simple.Examples.{
  some_types, some_types-IsQuicTypes, some_wire, some_wire-IsWire, some_net, some_net-IsNet,
  some_env,
}

read-bbr_header_example :
    read_bbr_header some_types some_wire (bbr_header some_types some_wire 2 70000 ++ (9 ∷ []))
    ≡ (2, 70000, 9 ∷ [])
read-bbr_header_example =
    read-bbr_header some_types some_wire 2 70000 (9 ∷ []) some_types-IsQuicTypes some_wire-IsWire
      (omega arith) (omega arith)

read-quic_header_example :
    read_quic_header some_types some_wire (quic_header some_types some_wire 3 300 ++ (9 ∷ []))
    ≡ (3, 300, 9 ∷ [])
read-quic_header_example =
    read-quic_header some_types some_wire 3 300 (9 ∷ []) some_types-IsQuicTypes some_wire-IsWire
      (omega arith)

abbrev some_app : MyBbrSenderApp ℕ
some_app = new_app some_env 500000 1000000 5000000

ack-reaches_sender_example : receive some_env some_net some_app 90000 (ack_packet some_net 300) ≡ (
    on_congestion_event some_env some_app.pacing 90000 300 >>= λ pacing.
    some (record some_app { pacing = pacing }))
ack-reaches_sender_example =
    ack-reaches_sender some_env some_net some_app 90000 300 some_net-IsNet (omega arith)

packet-reaches_receiver_example :
    on_incoming_data
      (λ n. n)
      some_net
      (new_receiver 1000 true true)
      (take 1500 (fake_packet some_net test_proto_stream 300))
    ≡ on_data_packet
        (λ n. n)
        some_net
        (record (new_receiver 1000 true true) {
          recv_byte =
              ((new_receiver 1000 true true).recv_byte
                + length (take 1500 (fake_packet some_net test_proto_stream 300)))
              % 2 ^ 64;
        })
        300
packet-reaches_receiver_example =
    packet-reaches_receiver (λ n. n) some_net (new_receiver 1000 true true) test_proto_stream 300
      some_net-IsNet (inl refl) (omega arith)

losses_exact_example :
    count 4 (lost (receive_all (λ n. n) some_net (new_receiver 1000 true false) (2 ∷ 3 ∷ 7 ∷ [])))
      + count 4 (2 ∷ 3 ∷ 7 ∷ [])
    ≡ between 1
        ((receive_all (λ n. n) some_net (new_receiver 1000 true false) (2 ∷ 3 ∷ 7 ∷ [])).base_seq
          + 1)
        4
losses_exact_example =
    losses_exact (λ n. n) some_net 1000 4 false (2 ∷ 3 ∷ 7 ∷ []) some_net-IsNet
      (omega arith, omega arith, (omega arith, omega arith, (omega arith, omega arith, tt)))

abbrev some_events : List (ℕ × List ℕ)
some_events = (1000, []) ∷ (60000, 2 ∷ 1 ∷ []) ∷ (70000, 9 ∷ 9 ∷ 9 ∷ []) ∷ []

run_app_total_example :
    (t : MyBbrSenderApp ℕ) × (run_app some_env some_net some_app some_events ≡ some t)
    × Running some_net t
    × (t.seq ≤ length some_events + 1)
run_app_total_example =
    run_app_total some_env some_net 500000 1000000 5000000 some_events
      ((omega arith, omega arith), ((omega arith, omega arith), ((omega arith, omega arith), tt)))
      (omega arith)

frame_split_lem_example : (splits : List ℕ) × (frame_split 2500 ≡ some splits) × IsSplit 2500 splits
frame_split_lem_example = frame_split_lem 2500 (omega arith)

acked-reaches_sender_example :
    (ack : List ℕ) × ((on_incoming_data
        (λ n. n)
        some_net
        (new_receiver 1000 true true)
        (take 1500 (fake_packet some_net test_proto_stream 300))).sent
      ≡ (new_receiver 1000 true true).sent ++ (((new_receiver 1000 true true).peer, ack) ∷ []))
    × (receive some_env some_net some_app 90000 ack ≡ (
        on_congestion_event some_env some_app.pacing 90000 300 >>= λ pacing.
        some (record some_app { pacing = pacing })))
acked-reaches_sender_example =
    acked-reaches_sender (λ n. n) some_net some_env some_app (new_receiver 1000 true true)
      test_proto_stream 300 90000 some_net-IsNet (inl refl) (omega arith)
