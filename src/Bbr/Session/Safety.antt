-- ===== src/Bbr/Session/Safety.antt =====
-- About sessions of MyBbrSenderApp and MyBbrReceiverApp: how far each side is.
use stupid_simple.Base.{
  ℕ, ◌+◌, ◌^◌, ◌≤◌, ◌<◌, ◌≡◌, ◌⊎◌, inl, inr, refl, Bool, some, List, [], length, All, arith,
}
use stupid_simple.Bbr.Env.{BbrEnv}
use stupid_simple.Bbr.App.{Net, max_packet_size, ack_packet, test_proto_ack}
use stupid_simple.Bbr.App.Delivery.{length-header, IsNet}
use stupid_simple.Bbr.Session.{
  new_session, Arrives, payloads, Reached, Session, begin, sender_turn, receiver_turn,
}
use stupid_simple.Bbr.App.Sender.{new_app, process, MyBbrSenderApp}
use stupid_simple.Bbr.App.Receiver.{new_receiver, receiver_process}
use stupid_simple.Bbr.Pacing.{new_pacing}
use stupid_simple.Bbr.State.{new_sender, MyBbrSender}
use stupid_simple.Bbr.App.Losses.{lost}
use stupid_simple.Bbr.Session.ReceiverTurn.{receiver_turn-Onward, All-found}
use stupid_simple.Bbr.App.Safety.{process_total, new_app-Running, Running}
use stupid_simple.Bbr.Session.SenderTurn.{process-Ahead}
use stupid_simple.Bbr.Session.Receiving.{Behind, IsAck}
use stupid_simple.Bbr.Session.Sending.{Ahead}

module _ {F : Type 0} (env : BbrEnv F) (clock : ℕ → ℕ) (net : Net) where
  -- The packets acknowledged to the sender were received, those received were sent, and the
  -- application can go on.
  pub record InStep (n : ℕ) (x : Session F) : Type 0 where
    pub ahead : Ahead env net x.receiver.base_seq x.sender
    pub behind : Behind net x.receiver
    pub running : Running net x.sender
    pub turns : x.sender.seq ≤ n + 1

  an-IsAck :
      (high : ℕ) (datagram : List ℕ) (log : List (List ℕ))
      → Arrives datagram log
      → All (IsAck net high) log
      → (datagram ≡ []) ⊎ IsAck net high datagram
  an-IsAck high datagram log (inl empty) h = inl empty
  an-IsAck high datagram log (inr m) h = inr (All-found (IsAck net high) datagram log h m)

  short_ack :
      (high : ℕ) (datagram : List ℕ)
      → IsNet net
      → (datagram ≡ []) ⊎ IsAck net high datagram
      → length datagram ≤ max_packet_size
  unfolding ack_packet
  short_ack high datagram ok (inl empty) = rw empty (omega arith)
  short_ack high datagram ok (inr (n, fits, e)) =
      rw e (omega (arith, length-header net test_proto_ack n ok))

  pub new_session-InStep :
      (min_bps start_bps max_bps ms : ℕ) (loss rate : Bool)
      → InStep 0 (new_session env min_bps start_bps max_bps ms loss rate)
  unfolding new_app new_pacing new_sender new_receiver
  new_session-InStep min_bps start_bps max_bps ms loss rate = record {
    ahead = record { data_sent = tt; told = (_, refl, omega arith); above = omega arith };
    behind = record { acks = tt; losses = tt };
    running = new_app-Running env net min_bps start_bps max_bps;
    turns = omega arith;
  }

  told_weaken :
      (low high : ℕ) (x : Session F)
      → low ≤ high
      → high < x.sender.seq
      → Ahead env net low x.sender
      → Ahead env net high x.sender
  told_weaken low high x le room h = record {
    data_sent = h.data_sent;
    told = (h.told.0, h.told.1, omega (arith, le, h.told.2));
    above = room;
  }

  -- A call of the sender with what arrives returns, and leaves the session in step.
  sender_turn-InStep :
      (n now : ℕ) (x : Session F) (datagram : List ℕ)
      → IsNet net
      → n + 2 < 2 ^ 32
      → InStep n x
      → 0 < now
      → Arrives datagram (payloads x.receiver.sent)
      → (goes_on : Bool) × (t : MyBbrSenderApp F) × (process env net x.sender now datagram
          ≡ some (goes_on, t))
        × InStep (n + 1) (record x { sender = t })
  sender_turn-InStep n now x datagram ok room h pos arrives =
      let high = x.receiver.base_seq in
      let ack = an-IsAck high datagram (payloads x.receiver.sent) arrives h.behind.acks in
      let fits : x.sender.seq + 1 < 2 ^ 32 = omega (arith, h.turns) in
      let (goes_on, t, e, running, bound) =
        process_total env net x.sender now datagram pos (short_ack high datagram ok ack) fits
          h.running in
      (
        goes_on,
        t,
        e,
        record {
          ahead =
              process-Ahead env net high now x.sender t datagram goes_on ok
                (omega (arith, h.ahead.above)) fits ack e h.ahead;
          behind = h.behind;
          running = running;
          turns = omega (arith, bound, h.turns);
        },
      )

  receiver_turn-InStep :
      (n now remote : ℕ) (x : Session F) (datagram : List ℕ)
      → IsNet net
      → n + 1 < 2 ^ 32
      → InStep n x
      → Arrives datagram x.sender.sent
      → InStep n
          (record x { receiver = (receiver_process clock net x.receiver now remote datagram).1 })
  receiver_turn-InStep n now remote x datagram ok room h arrives =
      let (behind, low, high) =
        receiver_turn-Onward clock net x.receiver now remote x.sender.seq datagram x.sender.sent ok
          (omega (arith, h.turns)) h.ahead.above h.behind arrives h.ahead.data_sent in
      record {
        ahead =
            told_weaken x.receiver.base_seq
              (receiver_process clock net x.receiver now remote datagram).1.base_seq x low high
              h.ahead;
        behind = behind;
        running = h.running;
        turns = h.turns;
      }

  pub Reached-InStep :
      (start x : Session F) (n : ℕ)
      → IsNet net
      → n + 1 < 2 ^ 32
      → InStep 0 start
      → Reached env clock net start n x
      → InStep n x
  Reached-InStep start x n ok room h begin = h
  Reached-InStep start x n ok room h (sender_turn m now y datagram goes_on t before pos arrives e) =
      let (goes_on', u, returned, step) =
        sender_turn-InStep m now y datagram ok (omega arith)
          (Reached-InStep start y m ok (omega arith) h before) pos arrives in
      let same : u ≡ t = cc in rw (← same) step
  Reached-InStep start x n ok room h (receiver_turn m now remote y datagram before arrives) =
      receiver_turn-InStep n now remote y datagram ok room
        (Reached-InStep start y n ok room h before) arrives

  module _ (min_bps start_bps max_bps ms : ℕ) (loss rate : Bool) where
    -- Wherever calls of Process of MyBbrSenderApp and MyBbrReceiverApp lead from the start,
    -- in any order and over a network that loses, repeats and reorders their datagrams, the
    -- number of the last acknowledgement that the sender's controller took is at most
    -- base_seq_ of the receiver, base_seq_ is below the next number that the sender gives,
    -- and each number in the loss file is positive and below base_seq_. The QUIC library is
    -- as IsNet says, and the sender was called at positive times and fewer than 2^32 - 1
    -- times.
    pub session_in_step :
        (n : ℕ) (x : Session F)
        → IsNet net
        → n + 1 < 2 ^ 32
        → Reached env clock net (new_session env min_bps start_bps max_bps ms loss rate) n x
        → (cc : MyBbrSender F) × (x.sender.pacing.sender ≡ some cc)
          × (cc.last_ack_seq ≤ x.receiver.base_seq)
          × (x.receiver.base_seq < x.sender.seq)
          × All
              (λ lost_number. (0 < lost_number) × (lost_number < x.receiver.base_seq))
              (lost x.receiver)
    session_in_step n x ok room reached =
        let h =
          Reached-InStep _ x n ok room (new_session-InStep min_bps start_bps max_bps ms loss rate)
            reached in
        (h.ahead.told.0, h.ahead.told.1, h.ahead.told.2, h.ahead.above, h.behind.losses)

    -- In every session of MyBbrSenderApp and MyBbrReceiverApp that calls of Process lead to
    -- from the start, in any order and over a network that loses, repeats and reorders their
    -- datagrams, the next call of the sender, at a positive time and with any datagram of the
    -- receiver or none, returns without a fault. The QUIC library is as IsNet says, and the
    -- sender was called at positive times and fewer than 2^32 - 2 times.
    pub session_goes_on :
        (n now : ℕ) (x : Session F) (datagram : List ℕ)
        → IsNet net
        → n + 2 < 2 ^ 32
        → Reached env clock net (new_session env min_bps start_bps max_bps ms loss rate) n x
        → 0 < now
        → Arrives datagram (payloads x.receiver.sent)
        → (goes_on : Bool) × (t : MyBbrSenderApp F) × (process env net x.sender now datagram
            ≡ some (goes_on, t))
    session_goes_on n now x datagram ok room reached pos arrives =
        let h =
          Reached-InStep _ x n ok (omega arith)
            (new_session-InStep min_bps start_bps max_bps ms loss rate) reached in
        let (goes_on, t, e, _) = sender_turn-InStep n now x datagram ok room h pos arrives in
        (goes_on, t, e)
