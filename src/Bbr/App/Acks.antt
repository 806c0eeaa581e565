-- ===== src/Bbr/App/Acks.antt =====
-- About the acknowledgements between MyBbrReceiverApp and MyBbrSenderApp.
use stupid_simple.Base.{
  ℕ, ◌+◌, ◌-◌, ◌%◌, ◌^◌, ◌<◌, ◌≡◌, ◌⊎◌, refl, ap, ◌∙◌, ltb, leb, true, false, if◌then◌else◌, some,
  ◌>>=◌, List, [], ◌∷◌, ◌++◌, take,
}
use stupid_simple.Bbr.Env.{BbrEnv}
use stupid_simple.Bbr.Pacing.{on_congestion_event}
use stupid_simple.Bbr.App.{Net, test_proto_stream, test_proto_padding, fake_packet, ack_packet}
use stupid_simple.Bbr.App.Sender.{MyBbrSenderApp, receive}
use stupid_simple.Bbr.App.Receiver.{
  MyBbrReceiverApp, send_ack, record_losses, on_data_packet, on_incoming_data,
}
use stupid_simple.Bbr.App.Delivery.{IsNet, ack-reaches_sender, packet-reaches_receiver}
use stupid_simple.Bbr.App.Losses.{record_losses-Steady}

module _ (clock : ℕ → ℕ) (net : Net) where
  base_keeps_sent :
      (b : MyBbrReceiverApp) (new : List (ℕ × List ℕ)) (seq : ℕ) (moves : _)
      → b.sent ≡ new
      → (if moves then record b { base_seq = seq } else b).sent ≡ new
  base_keeps_sent b new seq true e = e
  base_keeps_sent b new seq false e = e

  noted_keeps_sent :
      (r : MyBbrReceiverApp) (k i : ℕ) (skips : _)
      → (if skips then record_losses clock k i r else r).sent ≡ r.sent
  noted_keeps_sent r k i true = (record_losses-Steady clock k i r).1
  noted_keeps_sent r k i false = refl

  pub data_packet-acked :
      (r : MyBbrReceiverApp) (seq : ℕ)
      → (on_data_packet clock net r seq).sent ≡ r.sent ++ ((r.peer, ack_packet net seq) ∷ [])
  unfolding on_data_packet send_ack
  data_packet-acked r seq =
      let expected = (r.base_seq + 1) % 2 ^ 64 in
      base_keeps_sent _ _ seq (leb expected seq)
        (noted_keeps_sent (send_ack net r seq) (seq - expected) expected (ltb expected seq))

  -- Where the QUIC library is as IsNet says, a stream or padding packet with a number below
  -- 2^48 that the receiver application gets, in any order and repeated or not, is answered to
  -- its peer by one acknowledgement, and that one makes the pacer of a sender application deal
  -- with the acknowledgement of this number.
  pub acked-reaches_sender :
      {F : Type 0} (env : BbrEnv F) (s : MyBbrSenderApp F) (r : MyBbrReceiverApp)
      (type seq later : ℕ)
      → IsNet net
      → (type ≡ test_proto_stream) ⊎ (type ≡ test_proto_padding)
      → seq < 2 ^ 48
      → (ack : List ℕ) × ((on_incoming_data clock net r (take 1500 (fake_packet net type seq))).sent
          ≡ r.sent ++ ((r.peer, ack) ∷ []))
        × (receive env net s later ack ≡ (
            on_congestion_event env s.pacing later seq >>= λ pacing.
            some (record s { pacing = pacing })))
  acked-reaches_sender env s r type seq later h ht hs = (
    ack_packet net seq,
    ap (λ t. t.sent) (packet-reaches_receiver clock net r type seq h ht hs)
        ∙ data_packet-acked _ seq,
    ack-reaches_sender env net s later seq h hs,
  )
