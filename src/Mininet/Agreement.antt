-- ===== src/Mininet/Agreement.antt =====
-- About messages from Sender (mininet-webrtc/sender.cc) to Receiver (receiver.cc) and back.
use stupid_simple.Base.{
  ℕ, ◌+◌, ◌-◌, ◌%◌, ◌^◌, ◌≤◌, ◌<◌, ◌≡◌, refl, ap, ◌∙◌, ltb, leb, true, some, List, [], ◌∷◌, ◌++◌,
  arith,
}
use stupid_simple.Mininet.Dispatch.{
  on_pong, send_padding, send_ping, update_sender_rtt, processing_msg,
}
use stupid_simple.Base.Int.{pos}
use stupid_simple.Mininet.Sender.{Sender, emit}
use stupid_simple.Mininet.{
  add_packet, sent_packet, to_network, Pad, Codec, ping, pong, pad, received_packet,
  padding_data_size,
}
use stupid_simple.Mininet.Receiver.{Receiver, emit_all, receiver_processing_msg}
use stupid_simple.Mininet.Messages.{IsCodec, ready, reported, pad_message}

module _ (codec : Codec) (law : IsCodec codec) where
  -- SendPadding of at most PADDING_DATA_SIZE bytes sends one datagram and tells the controller,
  -- in this order, the packet with its overhead and the time it was sent; Receiver's controller
  -- gets, from that datagram, a packet with the same overhead and transport number, of the
  -- sender's uid_, and nothing else once it is there. trans_seq_ has 16 bits and uid_ has 32.
  -- The codec is as IsCodec says.
  pub padding_reported :
      (s : Sender) (r : Receiver) (len ts later : ℕ)
      → s.uid < 2 ^ 32
      → s.trans_seq < 2 ^ 16
      → len ≤ padding_data_size
      → (bytes : List ℕ) × (overhead : ℕ) × ((send_padding codec s len ts).0.out
          ≡ s.out
            ++ (to_network s.dst bytes
                ∷ add_packet s.trans_seq overhead
                ∷ sent_packet s.trans_seq ts
                ∷ []))
        × (u : Receiver) × (receiver_processing_msg codec r later bytes ≡ some u)
        × (u.out
            ≡ (ready r).out ++ (received_packet (later % 2 ^ 32) overhead s.uid s.trans_seq ∷ []))
  unfolding send_padding emit
  padding_reported s r len ts later small k fits =
      let body : Pad = record { pad_ts = ts; pad_seq = s.trans_seq; pad_size = len } in
      let (u, got, out) = pad_message codec law r later s.uid body small k fits in
      (
        codec.encode s.uid (pad body),
        codec.pad_header_len + len,
        refl,
        u,
        got,
        out ∙ ap (λ n. reported codec law r later s.uid n s.trans_seq) swapped,
      )
    where
      swapped : len + codec.pad_header_len ≡ codec.pad_header_len + len
      swapped = omega arith

  pong_measured :
      (s : Sender) (now later : ℕ)
      → now < later
      → on_pong codec s later (pos now) ≡ update_sender_rtt codec s ((later - now) % 2 ^ 32)
  unfolding on_pong
  pong_measured s now later before =
      let reached : leb now (later + 0) ≡ true = ground arith in
      let span : later + 0 - now ≡ later - now = omega arith in
      let positive : ltb 0 (later - now + 0) ≡ true = ground arith in
      rw reached (rw span (rw positive refl))

  pong_message :
      (s : Sender) (later uid n : ℕ)
      → uid < 2 ^ 32
      → n < 2 ^ 63
      → processing_msg codec s later (codec.encode uid (pong (pos n)))
        ≡ some (on_pong codec s later (pos n))
  unfolding processing_msg
  pong_message s later uid n small fits =
      simp (law.header uid (pong (pos n)) small, law.pong_time uid n fits, processing_msg)

  ping_message :
      (r : Receiver) (later uid n : ℕ)
      → uid < 2 ^ 32
      → n < 2 ^ 63
      → receiver_processing_msg codec r later (codec.encode uid (ping (pos n)))
        ≡ some (
            emit_all
              (record r { session_connected = true })
              (to_network r.dst (codec.encode r.uid (pong (pos n))) ∷ []))
  unfolding receiver_processing_msg
  ping_message r later uid n small fits =
      simp (law.header uid (ping (pos n)) small, law.ping_time uid n fits, receiver_processing_msg)

  -- SendPing sends one datagram, Receiver answers it with one, whenever it comes, and the
  -- answer makes Sender take the time since the ping, in 32 bits, for the round-trip time,
  -- without a fault. The answer comes later than the ping was sent, the two uid_ have 32 bits
  -- and the times are below 2^63. The codec is as IsCodec says.
  pub ping_measured :
      (s : Sender) (r : Receiver) (now between later : ℕ)
      → s.uid < 2 ^ 32
      → r.uid < 2 ^ 32
      → now < later
      → later < 2 ^ 63
      → (asked answer : List ℕ) × ((send_ping codec s now).out
          ≡ s.out ++ (to_network s.dst asked ∷ []))
        × (u : Receiver) × (receiver_processing_msg codec r between asked ≡ some u)
        × (u.out ≡ r.out ++ (to_network r.dst answer ∷ []))
        × (processing_msg codec (send_ping codec s now) later answer
            ≡ some (update_sender_rtt codec (send_ping codec s now) ((later - now) % 2 ^ 32)))
  unfolding send_ping emit emit_all
  ping_measured s r now between later small small' before bound = (
    codec.encode s.uid (ping (pos now)),
    codec.encode r.uid (pong (pos now)),
    refl,
    emit_all (record r { session_connected = true })
        (to_network r.dst (codec.encode r.uid (pong (pos now))) ∷ []),
    ping_message r between s.uid now small (omega arith),
    refl,
    pong_message (send_ping codec s now) later r.uid now small' (omega arith)
        ∙ ap (λ t. some t) (pong_measured (send_ping codec s now) now later before),
  )
