-- ===== src/Examples/Transmission.antt =====
-- Runs of the senders of quic-test/myquic, with a sent packet manager that only keeps what is to be
-- sent again.
use stupid_simple.Base.{
  ℕ, zero, suc, ◌+◌, ◌≤◌, ◌≡◌, refl, inl, Bool, true, false, Option, some, none, List, [], ◌∷◌,
  ◌++◌, length, take, find, arith,
}
use stupid_simple.Frames.{new_generator, get_frame, frame_split}
use stupid_simple.Header.{quic_header, get_min_seq_length, read_sequence_number_length, read_byte}
use stupid_simple.Examples.{
  write_bytes, some_types, some_types-IsQuicTypes, some_wire, some_wire-IsWire,
}
use stupid_simple.Quic.Receiver.{MyQuicReceiver, new_quic_receiver, quic_send_ack}
use stupid_simple.Quic.Receiver.Process.{quic_on_incoming_data}
use stupid_simple.Quic.Sending.{
  TransmissionType, not_retransmission, loss_retransmission, SendLib, ack_range, timed_packet,
  stop_waiting_packet,
}
use stupid_simple.Quic.Sender.{MyQuicSender, new_quic_sender, sender_on_incoming_data, on_callbacks}
use stupid_simple.Quic.Sender.Process.{retransmission_loop}
use stupid_simple.Quic.Video.{MyQuicVideoSender, new_quic_video_sender}
use stupid_simple.Quic.Video.Process.{
  quic_video_process, video_front, video_retransmission_loop, video_retransmission_rounds,
}
use stupid_simple.Quic.Video.Queues.{Steps}
use stupid_simple.Quic.Video.Moves.{queues, Small}
use stupid_simple.Quic.Video.Safety.{IsSendLib}
use stupid_simple.Quic.Video.Run.{video_run, received, fresh_queues, video_run_lem}
use stupid_simple.Quic.Video.Loop.{video_loop_ends, video_loop_spins}
use stupid_simple.Quic.Retransmission.{IsPending, retransmission_loop_ends}
use stupid_simple.Quic.Delivery.{IsPeer, stop_waiting-reaches_receiver}
use stupid_simple.Quic.Delays.{delay-recorded}
use stupid_simple.Quic.Answers.{answer_packet, answer, answer-reaches_sender}
use stupid_simple.Examples.Acknowledgements.{some_lib, some_clock}

abbrev pub some_pending : List ℕ → Bool
some_pending [] = false
some_pending (p ∷ rest) = true

abbrev pub first_pending : List ℕ → ℕ
first_pending [] = 0
first_pending (p ∷ rest) = p

abbrev pub tail_pending : List ℕ → List ℕ
tail_pending [] = []
tail_pending (p ∷ rest) = rest

abbrev pub told : TransmissionType → List ℕ → List ℕ
told loss_retransmission m = tail_pending m
told not_retransmission m = m

abbrev pub some_sending : SendLib (List ℕ) ℕ
some_sending = record {
  types = some_types;
  wire = some_wire;
  stream_frame = 0x80;
  stop_waiting_frame = 6;
  k_max_packet_size = 1452;
  new_manager = [];
  new_stream_frame = 0;
  set_pacing = λ m. m;
  time_until_send = λ m now. (0, m);
  has_pending_retransmissions = some_pending;
  next_pending_retransmission =
      λ m. record { packet_number = first_pending m; retransmittable_frames = [] };
  on_packet_sent = λ m packet. told packet.transmission_type m;
  on_ack_frame_start = λ m largest delay now. m;
  on_ack_range = λ m start end. m;
  on_ack_frame_end = λ m now. (true, m);
  get_least_unacked = λ m. 1;
  bandwidth_kbps = λ m. 700;
  should_send_probing_packet = λ m. true;
  process_frame_data = λ approx bytes. ack_range 1 2 true ∷ [];
}

some_sending-IsSendLib : IsSendLib some_sending
some_sending-IsSendLib = record {
  types = some_types-IsQuicTypes;
  wire = some_wire-IsWire;
  six = refl;
  long = omega arith;
}

some_offer : (m : List ℕ) → some_pending m ≡ true → (rest : List ℕ) × (m ≡ first_pending m ∷ rest)
some_offer [] e = absurd (cc)
some_offer (p ∷ rest) e = (rest, refl)

some_resent :
    (m : List ℕ) (type : TransmissionType) (old : ℕ) (rest : List ℕ)
    → type ≡ loss_retransmission
    → m ≡ old ∷ rest
    → told type m ≡ rest
some_resent m type old rest e f = rw e (rw f refl)

pub some_sending-IsPending : IsPending some_sending (λ m. m)
some_sending-IsPending = record {
  offers = some_offer;
  asks = λ m now. refl;
  resent = λ m packet rest e f.
      some_resent m packet.transmission_type packet.original_packet_number rest e f;
}

take_fits : (n : ℕ) (xs : List ℕ) → length (take n xs) ≤ n
take_fits zero xs = omega arith
take_fits (suc n) [] = omega arith
take_fits (suc n) (x ∷ xs) = omega (arith, take_fits n xs)

some-IsPeer : IsPeer some_lib some_sending
some-IsPeer = record {
  types = refl;
  wire = refl;
  stream = refl;
  stop_waiting = refl;
  apart = omega arith;
  known = some_sending-IsSendLib;
  fits = omega arith;
  same_size = refl;
  bounded = λ frame approx room. take_fits room (frame ∷ []);
}

abbrev pub some_sender : MyQuicSender (List ℕ)
some_sender = new_quic_sender some_sending some_clock

-- Packets 5 and 6 are to be sent again.
retransmission_loop_ends_example :
    (t : MyQuicSender (List ℕ)) × (retransmission_loop some_sending some_clock 3 9000
        (record some_sender { sent_packet_manager = 5 ∷ 6 ∷ [] })
      ≡ some t)
retransmission_loop_ends_example =
    retransmission_loop_ends some_sending (λ m. m) some_sending-IsPending some_clock 3 9000
      (record some_sender { sent_packet_manager = 5 ∷ 6 ∷ [] }) (omega arith)

abbrev pub some_video : MyQuicVideoSender (List ℕ)
some_video = new_quic_video_sender some_sending some_clock (new_generator 10 8000)

abbrev or_fresh : Option (MyQuicVideoSender (List ℕ)) → MyQuicVideoSender (List ℕ)
or_fresh none = some_video
or_fresh (some s) = s

-- Two calls, the second with a datagram.
abbrev some_calls : List (ℕ × List ℕ)
some_calls = (2, []) ∷ (2, 0 ∷ 1 ∷ 1 ∷ 1 ∷ 1 ∷ 1 ∷ 1 ∷ []) ∷ []

called : MyQuicVideoSender (List ℕ)
unfolding video_run new_quic_video_sender quic_video_process
called = or_fresh (video_run some_sending some_clock some_video some_calls)

video_run_lem_example :
    Steps some_sending some_clock (fresh_queues (received some_calls)) (queues [] called)
    × Small called
    × ((t : MyQuicVideoSender (List ℕ)) × (video_front some_sending some_clock called [] ≡ some t))
unfolding called video_run new_quic_video_sender quic_video_process get_frame new_generator
    frame_split quic_header write_bytes get_min_seq_length read_sequence_number_length read_byte
video_run_lem_example =
    video_run_lem some_sending some_clock 10 8000 some_calls called [] some_sending-IsSendLib
      (omega arith) (omega arith) refl (inl refl)

-- Packet 5 is on its way, and 6 is not.
abbrev flying_five : MyQuicVideoSender (List ℕ)
flying_five = record (new_quic_video_sender some_sending some_clock (new_generator 10 8000)) {
  seq = 7;
  sent_packet_manager = 5 ∷ [];
  pending_queue = [];
  sent_queue = (5, 300) ∷ [];
}

video_loop_ends_example :
    (t : MyQuicVideoSender (List ℕ)) × (video_retransmission_loop some_sending some_clock 2 9000
        flying_five
      ≡ some t)
unfolding find
video_loop_ends_example =
    video_loop_ends some_sending some_clock (λ m. m) some_sending-IsPending some_sending-IsSendLib 2
      9000 flying_five (omega arith) (omega arith)
      (record { pending_small = tt; flying_small = omega arith }) ((300, refl), tt, tt)

video_loop_spins_example :
    video_retransmission_rounds some_sending some_clock 100 9000
      (record flying_five { sent_packet_manager = 6 ∷ [] })
    ≡ some (true, record flying_five { sent_packet_manager = 6 ∷ [] })
unfolding find
video_loop_spins_example =
    video_loop_spins some_sending some_clock 100 9000
      (record flying_five { sent_packet_manager = 6 ∷ [] }) refl refl refl

abbrev some_receiver : MyQuicReceiver (ℕ × Bool)
some_receiver = record (new_quic_receiver some_lib 100 none none (some [])) {
  f_owd = some ((1, 40) ∷ []);
  reads = 90;
}

stop_waiting-reaches_receiver_example :
    quic_on_incoming_data some_lib some_clock some_receiver
      (take 1500 (stop_waiting_packet some_sending 300 17))
    ≡ record some_receiver {
      recv_packet_manager =
          some_lib.dont_wait_for_packets_before some_receiver.recv_packet_manager 17;
    }
stop_waiting-reaches_receiver_example =
    stop_waiting-reaches_receiver some_lib some_sending some-IsPeer some_clock some_receiver 300 17
      (omega arith) (omega arith)

-- Sent at 50 ms and read at 90 ms.
delay-recorded_example :
    (quic_on_incoming_data some_lib some_clock some_receiver
      (take 1500 (timed_packet some_sending 2 50000))).f_owd
    ≡ some ((1, 40) ∷ (2, 40) ∷ [])
delay-recorded_example =
    delay-recorded some_lib some_sending some-IsPeer some_clock some_receiver 2 50000 ((1, 40) ∷ [])
      (omega arith) refl (omega arith) (omega arith)

answer-reaches_sender_example :
    ((quic_send_ack some_lib some_clock some_receiver).sent
      ≡ some_receiver.sent
        ++ ((some_receiver.peer, answer_packet some_lib some_clock some_receiver) ∷ []))
    × (sender_on_incoming_data some_sending some_clock some_sender
          (take 1500 (answer_packet some_lib some_clock some_receiver))
        ≡ some (
            on_callbacks some_sending some_clock
              (record some_sender {
                time_of_last_received_packet = some_clock some_sender.reads;
                reads = some_sender.reads + 1;
              })
              (some_sending.process_frame_data
                (some_clock some_sender.reads)
                (answer some_lib some_clock some_receiver))))
answer-reaches_sender_example =
    answer-reaches_sender some_lib some_sending some-IsPeer some_clock some_receiver some_clock
      some_sender
