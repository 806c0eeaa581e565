-- ===== src/Examples/Sessions.antt =====
-- A session of the BBR applications: a packet, its acknowledgement, and a run with overtaken ones.
use stupid_simple.Base.{
  ℕ, zero, suc, ◌/◌, ◌≤◌, ◌<◌, ◌≡◌, inl, inr, refl, Bool, true, false, none, some, List, [], ◌∷◌,
  All, arith,
}
use stupid_simple.Bbr.Pacing.{new_pacing, pacing_packet_sent, time_until_send}
use stupid_simple.Bbr.Sender.{on_packet_sent}
use stupid_simple.Bbr.App.{ack_packet, fake_packet, test_proto_stream}
use stupid_simple.Bbr.App.Receiver.{receiver_process}
use stupid_simple.Bbr.App.Losses.{lost}
use stupid_simple.Bbr.Session.{
  Reached, begin, sender_turn, receiver_turn, payloads, Session, new_session,
}
use stupid_simple.Examples.{write_bytes, some_net-IsNet, some_net, some_env}
use stupid_simple.Bbr.Session.Bytes.{IsByte, IsDatagram, session_sends_bytes}
use stupid_simple.Bbr.Session.Safety.{session_in_step, session_goes_on}
use stupid_simple.Bbr.Session.ReceiverTurn.{receiver_turn_answers}
use mathlib.Core.List.{Memᴰ}
use stupid_simple.Bbr.State.{MyBbrSender, new_sender}
use stupid_simple.Bbr.App.Sender.{MyBbrSenderApp, process, new_app}
use stupid_simple.Bbr.Safety.Run.{Event, sent, acked, run}
use stupid_simple.Bbr.Safety.Overtaken.{leave_overtaken, run_without_overtaken}

abbrev shuffled : List Event
shuffled =
    sent 1000 1 1000
    ∷ sent 2000 2 1000
    ∷ sent 3000 3 1000
    ∷ acked 50000 2
    ∷ acked 51000 1
    ∷ acked 52000 2
    ∷ acked 53000 3
    ∷ []

abbrev some_sender : MyBbrSender ℕ
some_sender = new_sender some_env 500000 1000000 5000000

run_without_overtaken_example :
    run some_env some_sender shuffled
    ≡ run some_env some_sender (leave_overtaken some_sender.last_ack_seq shuffled)
run_without_overtaken_example = run_without_overtaken some_env some_sender shuffled

-- The calls of OnAck that are left.
overtaken_left_out :
    leave_overtaken 0 shuffled
    ≡ sent 1000 1 1000 ∷ sent 2000 2 1000 ∷ sent 3000 3 1000 ∷ acked 50000 2 ∷ acked 53000 3 ∷ []
overtaken_left_out = refl

abbrev start : Session ℕ
start = new_session some_env 500000 1000000 5000000 1000 true false

abbrev after_call : MyBbrSenderApp ℕ → ℕ → List ℕ → MyBbrSenderApp ℕ
after_call s now datagram = elim (process some_env some_net s now datagram) [
  | none ↦ s
  | some r ↦ r.1
]

abbrev sent_one : MyBbrSenderApp ℕ
sent_one = after_call start.sender 1000 []

sent_one_eq : process some_env some_net start.sender 1000 [] ≡ some (true, sent_one)
unfolding process time_until_send new_app new_pacing pacing_packet_sent on_packet_sent new_sender
sent_one_eq = refl

-- The first packet arrives, and the sender gets its acknowledgement.
abbrev one_packet : List ℕ
one_packet = fake_packet some_net test_proto_stream 1

abbrev heard : Session ℕ
heard = record {
  sender = sent_one;
  receiver = (receiver_process (λ n. n) some_net start.receiver 60000 9 one_packet).1;
}

one_packet-went : Memᴰ one_packet sent_one.sent
unfolding process time_until_send new_app new_pacing pacing_packet_sent on_packet_sent new_sender
one_packet-went = Memᴰ.head refl

heard-Reached : Reached some_env (λ n. n) some_net start 1 heard
heard-Reached =
    receiver_turn 1 60000 9 (record start { sender = sent_one }) one_packet
      (sender_turn 0 1000 start [] true sent_one begin (omega arith) (inl refl) sent_one_eq)
      (inr one_packet-went)

one_ack-went : Memᴰ (ack_packet some_net 1) (payloads heard.receiver.sent)
one_ack-went =
    receiver_turn_answers (λ n. n) some_net start.receiver 60000 9 1 some_net-IsNet (omega arith)

session_in_step_example :
    (cc : MyBbrSender ℕ) × (heard.sender.pacing.sender ≡ some cc)
    × (cc.last_ack_seq ≤ heard.receiver.base_seq)
    × (heard.receiver.base_seq < heard.sender.seq)
    × All
        (λ lost_number. (0 < lost_number) × (lost_number < heard.receiver.base_seq))
        (lost heard.receiver)
session_in_step_example =
    session_in_step some_env (λ n. n) some_net 500000 1000000 5000000 1000 true false 1 heard
      some_net-IsNet (omega arith) heard-Reached

session_goes_on_example :
    (goes_on : Bool) × (t : MyBbrSenderApp ℕ) × (process some_env some_net heard.sender 70000
        (ack_packet some_net 1)
      ≡ some (goes_on, t))
session_goes_on_example =
    session_goes_on some_env (λ n. n) some_net 500000 1000000 5000000 1000 true false 1 70000 heard
      (ack_packet some_net 1) some_net-IsNet (omega arith) heard-Reached (omega arith)
      (inr one_ack-went)

write_bytes-IsByte : (n v : ℕ) → All IsByte (write_bytes n v)
unfolding write_bytes
write_bytes-IsByte zero v = tt
write_bytes-IsByte (suc n) v = (omega arith, write_bytes-IsByte n (v / 256))

session_sends_bytes_example :
    All (IsDatagram some_net.k_max_packet_size) heard.sender.sent
    × All (IsDatagram 7) (payloads heard.receiver.sent)
session_sends_bytes_example =
    session_sends_bytes some_net some_net-IsNet
      (record { written = write_bytes-IsByte; memory = (omega arith, (omega arith, tt)) }) some_env
      (λ n. n) 500000 1000000 5000000 1000 true false 1 heard (omega arith) heard-Reached
