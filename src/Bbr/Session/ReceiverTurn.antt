-- ===== src/Bbr/Session/ReceiverTurn.antt =====
-- One call of Process of MyBbrReceiverApp in a session.
use stupid_simple.Base.{
  ℕ, ◌+◌, ◌^◌, ◌≤◌, ◌<◌, ◌≡◌, inl, inr, refl, ◌∙◌, ltb, leb, ◌==◌, Bool, true, false, if◌then◌else◌,
  Bool-cases, List, [], ◌∷◌, length, All, take, length-append, arith,
}
use mathlib.Core.List.{Memᴰ}
use mathlib.Core.List.Memᴰ.{append_right}
use stupid_simple.Header.{bbr_header}
use stupid_simple.Bbr.App.{ack_packet, Net, fake_packet, test_proto_stream}
use stupid_simple.Bbr.App.Delivery.{fake_packet_front, starts, IsNet, packet-reaches_receiver}
use stupid_simple.Bbr.App.Acks.{data_packet-acked}
use stupid_simple.Bbr.Session.{payloads, Arrives}
use stupid_simple.Bbr.Session.Receiving.{
  payloads-append, Behind, IsData, SameLog, SameLog-Behind, data_packet-Behind,
}
use stupid_simple.Bbr.App.Receiver.{
  MyBbrReceiverApp, receiver_record_rate, receiver_receive, receiver_process, on_data_packet,
  on_incoming_data,
}
use stupid_simple.Bbr.Env.{from_milliseconds}

pub All-found {ℓ κ} :
    {A : Type ℓ} (P : A → Type κ) (a : A) (xs : List A) → All P xs → Memᴰ a xs → P a
All-found P a [] h m = elim m [ ]
All-found P a (x ∷ xs) h (Memᴰ.head e) = rw e (h.0)
All-found P a (x ∷ xs) h (Memᴰ.tail m) = All-found P a xs h.1 m

module _ (clock : ℕ → ℕ) (net : Net) where
  rate-SameLog : (r : MyBbrReceiverApp) (now : ℕ) → SameLog net r (receiver_record_rate r now)
  unfolding receiver_record_rate
  rate-SameLog r now = elim (Bool-cases r.enable_rate_record) [
    | inr off ↦ rw off (refl, refl, refl)
    | inl on ↦ elim (Bool-cases (r.next == 0)) [
      | inl first ↦ rw on (rw first (refl, refl, refl))
      | inr later ↦ elim (Bool-cases (ltb r.next now)) [
        | inl due ↦ rw on (rw later (rw due (refl, refl, refl)))
        | inr early ↦ rw on (rw later (rw early (refl, refl, refl)))
      ]
    ]
  ]

  -- The state in which Process hands the datagram to OnIncomingData.
  started : MyBbrReceiverApp → ℕ → ℕ → MyBbrReceiverApp
  started r now remote =
      let timed : MyBbrReceiverApp = if r.ref_time == 0 then record r { ref_time = now } else r in
      if timed.first
      then record timed {
        peer = remote;
        first = false;
        stop = now + from_milliseconds timed.duration;
      }
      else timed

  timed-SameLog :
      (r : MyBbrReceiverApp) (now : ℕ) (first : Bool)
      → SameLog net r (if first then record r { ref_time = now } else r)
  timed-SameLog r now true = (refl, refl, refl)
  timed-SameLog r now false = (refl, refl, refl)

  started-SameLog : (r : MyBbrReceiverApp) (now remote : ℕ) → SameLog net r (started r now remote)
  unfolding started
  started-SameLog r now remote =
      let timed : MyBbrReceiverApp = if r.ref_time == 0 then record r { ref_time = now } else r in
      let (b, s, l) = timed-SameLog r now (r.ref_time == 0) in
      elim (Bool-cases timed.first) [
        | inl first ↦ rw first (b, s, l)
        | inr later ↦ rw later (b, s, l)
      ]

  receive_opened :
      (r : MyBbrReceiverApp) (now remote : ℕ) (bytes : List ℕ)
      → receiver_receive clock net r now remote bytes
        ≡ on_incoming_data clock net (started r now remote) (take 1500 bytes)
  unfolding receiver_receive started
  receive_opened r now remote bytes = refl

  data_received :
      (r : MyBbrReceiverApp) (now remote seq : ℕ)
      → IsNet net
      → seq < 2 ^ 48
      → (counted : ℕ) × (receiver_receive clock net r now remote
            (fake_packet net test_proto_stream seq)
          ≡ on_data_packet clock net (record (started r now remote) { recv_byte = counted }) seq)
  data_received r now remote seq h fits = (
    _,
    receive_opened r now remote (fake_packet net test_proto_stream seq)
        ∙ packet-reaches_receiver clock net (started r now remote) test_proto_stream seq h
            (inl refl) fits,
  )

  -- A state of the receiver that it may reach from `r` while the sender's next number is `next`.
  abbrev pub Onward : ℕ → MyBbrReceiverApp → MyBbrReceiverApp → Type 0
  Onward next r t = Behind net t × (r.base_seq ≤ t.base_seq) × (t.base_seq < next)

  SameLog-Onward :
      (next : ℕ) (r s t : MyBbrReceiverApp) → SameLog net s t → Onward next r s → Onward next r t
  SameLog-Onward next r s t e (h, low, high) =
      (SameLog-Behind net s t e h, omega (arith, e.0, low), omega (arith, e.0, high))

  received-Onward :
      (r : MyBbrReceiverApp) (now remote next : ℕ) (datagram : List ℕ)
      → IsNet net
      → next ≤ 2 ^ 48
      → r.base_seq < next
      → Behind net r
      → IsData net next datagram
      → Onward next r (receiver_receive clock net r now remote datagram)
  received-Onward r now remote next datagram net_ok top room h (seq, pos, below, e) =
      let (counted, received) = data_received r now remote seq net_ok (omega arith) in
      let begun : MyBbrReceiverApp = record (started r now remote) { recv_byte = counted } in
      let same : SameLog net r begun = started-SameLog r now remote in
      let (behind, low, high) =
        data_packet-Behind net clock begun seq next below top (omega (arith, same.0, room))
          (SameLog-Behind net r begun same h) in
      rw e (rw received (behind, omega (arith, same.0, low), high))

  -- Process with what arrives from the sender keeps acknowledgements and losses below base_seq_,
  -- and that below the sender's next number.
  pub receiver_turn-Onward :
      (r : MyBbrReceiverApp) (now remote next : ℕ) (datagram : List ℕ) (log : List (List ℕ))
      → IsNet net
      → next ≤ 2 ^ 48
      → r.base_seq < next
      → Behind net r
      → Arrives datagram log
      → All (IsData net next) log
      → Onward next r (receiver_process clock net r now remote datagram).1
  unfolding receiver_process
  receiver_turn-Onward r now remote next datagram log net_ok top room h arrives sent =
      elim (Bool-cases (leb (length datagram) 0)) [
        | inl nothing ↦ rw nothing (
            SameLog-Onward next r r (receiver_record_rate r now) (rate-SameLog r now)
              (h, omega arith, room))
        | inr something ↦
            let received = receiver_receive clock net r now remote datagram in
            rw something (
              SameLog-Onward next r received (receiver_record_rate received now)
                (rate-SameLog received now)
                (received-Onward r now remote next datagram net_ok top room h
                  (a_data_packet something arrives)))
      ]
    where
      a_data_packet :
          leb (length datagram) 0 ≡ false → Arrives datagram log → IsData net next datagram
      a_data_packet e (inl empty) = absurd (cc (rw empty at e))
      a_data_packet e (inr m) = All-found (IsData net next) datagram log sent m

  data_packet-starts :
      (seq : ℕ) → IsNet net → leb (length (fake_packet net test_proto_stream seq)) 0 ≡ false
  data_packet-starts seq net_ok =
      let (rest, e) = fake_packet_front net test_proto_stream seq net_ok in
      let header = bbr_header net.types net.wire test_proto_stream seq in
      let some_bytes : 0 < length header + length rest =
        omega (arith, starts net test_proto_stream seq) in
      rw e (rw (length-append header rest) (ground arith))

  -- A data packet that the receiver gets is answered, whatever came before.
  pub receiver_turn_answers :
      (r : MyBbrReceiverApp) (now remote seq : ℕ)
      → IsNet net
      → seq < 2 ^ 48
      → Memᴰ (ack_packet net seq) (
          payloads
            (receiver_process clock net r now remote
              (fake_packet net test_proto_stream seq)).1.sent)
  unfolding receiver_process
  receiver_turn_answers r now remote seq net_ok fits =
      let received =
        receiver_receive clock net r now remote (fake_packet net test_proto_stream seq) in
      let (counted, e) = data_received r now remote seq net_ok fits in
      let begun : MyBbrReceiverApp = record (started r now remote) { recv_byte = counted } in
      let answer : List (ℕ × List ℕ) = (begun.peer, ack_packet net seq) ∷ [] in
      let same = (rate-SameLog received now).1 in
      rw (data_packet-starts seq net_ok) (
        rw same (
          rw e (
            rw (data_packet-acked clock net begun seq) (
              rw (payloads-append net begun.sent answer)
                (append_right (payloads begun.sent) (Memᴰ.head refl))))))
