-- ===== src/Mininet/Messages.antt =====
-- What Receiver (mininet-webrtc/receiver.cc) makes of the messages that carry a packet, and what both
-- sides rely on of the codec of sim_proto.c.
use stupid_simple.Base.{
  ℕ, ◌+◌, ◌%◌, ◌^◌, ◌≤◌, ◌<◌, ◌≡◌, inl, inr, refl, ap, ◌∙◌, Bool, true, false, if◌then◌else◌,
  Bool-cases, some, List, [], ◌∷◌, ◌++◌, length,
}
use stupid_simple.Base.Int.{pos}
use stupid_simple.Mininet.{
  Segment, Pad, Body, Codec, Effect, ping, pong, seg, pad, feedback, received_packet, sim_ping,
  sim_pong, sim_seg, sim_pad, sim_feedback, sim_segment_header_size, padding_data_size,
}
use stupid_simple.Frames.{max_video_size}
use stupid_simple.Mininet.Receiver.{
  Receiver, emit_all, configure_congestion, on_received_packet, on_recv_segment, on_recv_pad,
  receiver_processing_msg,
}

-- header.mid
abbrev pub mid : Body → ℕ
mid (ping ts) = sim_ping
mid (pong ts) = sim_pong
mid (seg x) = sim_seg
mid (pad p) = sim_pad
mid (feedback base bytes) = sim_feedback

-- What is encoded is decoded, as far as the fields fit the message.
pub record IsCodec (c : Codec) : Type 0 where
  pub header :
      (uid : ℕ) (body : Body)
      → uid < 2 ^ 32
      → c.decode_header (c.encode uid body) ≡ some (mid body, uid)
  pub ping_time : (uid n : ℕ) → n < 2 ^ 63 → c.decode_ts (c.encode uid (ping (pos n))) ≡ pos n
  pub pong_time : (uid n : ℕ) → n < 2 ^ 63 → c.decode_ts (c.encode uid (pong (pos n))) ≡ pos n
  pub segment :
      (uid : ℕ) (x : Segment)
      → x.transport_seq < 2 ^ 16
      → x.data_size ≤ max_video_size
      → length x.payload ≡ x.data_size
      → (y : Segment) × (c.decode_segment (c.encode uid (seg x)) ≡ some y)
        × (y.transport_seq ≡ x.transport_seq)
        × (y.data_size ≡ x.data_size)
  pub padding :
      (uid : ℕ) (p : Pad)
      → p.pad_seq < 2 ^ 16
      → p.pad_size ≤ padding_data_size
      → (y : Pad) × (c.decode_pad (c.encode uid (pad p)) ≡ some y)
        × (y.pad_seq ≡ p.pad_seq)
        × (y.pad_size ≡ p.pad_size)

-- The receiver once it has a controller.
abbrev pub ready : Receiver → Receiver
ready r = configure_congestion (record r { session_connected = true })

ready-controlled : (r : Receiver) → (ready r).receive_side_cc ≡ true
unfolding configure_congestion emit_all
ready-controlled r = elim (Bool-cases r.receive_side_cc) [
  | inl there ↦ rw there refl
  | inr fresh ↦ rw fresh refl
]

received :
    (r : Receiver) (now overhead uid k : ℕ)
    → on_received_packet (ready r) now overhead uid k
      ≡ some (emit_all (ready r) (received_packet now overhead uid k ∷ []))
unfolding on_received_packet
received r now overhead uid k = rw (ready-controlled r) refl

module _ (codec : Codec) (law : IsCodec codec) where
  -- The report that the receiver's controller gets of a packet.
  abbrev pub reported : (r : Receiver) (now uid overhead number : ℕ) → List Effect
  reported r now uid overhead number =
      (ready r).out ++ (received_packet (now % 2 ^ 32) overhead uid number ∷ [])

  first_noted :
      (g : Receiver) (now : ℕ) (first : Bool)
      → (if first
          then record g { first_packet = false; stop_ts = (now % 2 ^ 32 + g.duration) % 2 ^ 32 }
          else g).out
        ≡ g.out
  first_noted g now true = refl
  first_noted g now false = refl

  segment_received :
      (r : Receiver) (now uid : ℕ) (x : Segment)
      → (u : Receiver) × (on_recv_segment (record r { session_connected = true }) now uid x
          ≡ some u)
        × (u.out ≡ reported r now uid (x.data_size + sim_segment_header_size) x.transport_seq)
  unfolding on_recv_segment emit_all
  segment_received r now uid x =
      let overhead = x.data_size + sim_segment_header_size in
      let got =
        emit_all (ready r) (received_packet (now % 2 ^ 32) overhead uid x.transport_seq ∷ []) in
      (
        if got.first_packet
            then record got {
              first_packet = false;
              stop_ts = (now % 2 ^ 32 + got.duration) % 2 ^ 32;
            }
            else got,
        rw (received r (now % 2 ^ 32) overhead uid x.transport_seq) refl,
        first_noted got now got.first_packet,
      )

  pub segment_message :
      (r : Receiver) (later uid : ℕ) (x : Segment)
      → uid < 2 ^ 32
      → x.transport_seq < 2 ^ 16
      → x.data_size ≤ max_video_size
      → length x.payload ≡ x.data_size
      → (u : Receiver) × (receiver_processing_msg codec r later (codec.encode uid (seg x)) ≡ some u)
        × (u.out ≡ reported r later uid (x.data_size + sim_segment_header_size) x.transport_seq)
  unfolding receiver_processing_msg
  segment_message r later uid x small k fits whole =
      let (y, decoded, number, size) = law.segment uid x k fits whole in
      let (u, got, out) = segment_received r later uid y in
      let e = law.header uid (seg x) small in
      (
        u,
        simp (e, decoded, receiver_processing_msg) got,
        out
            ∙ ap (λ n. reported r later uid (n + sim_segment_header_size) y.transport_seq) size
            ∙ ap (reported r later uid (x.data_size + sim_segment_header_size)) number,
      )

  pub pad_message :
      (r : Receiver) (later uid : ℕ) (p : Pad)
      → uid < 2 ^ 32
      → p.pad_seq < 2 ^ 16
      → p.pad_size ≤ padding_data_size
      → (u : Receiver) × (receiver_processing_msg codec r later (codec.encode uid (pad p)) ≡ some u)
        × (u.out ≡ reported r later uid (p.pad_size + codec.pad_header_len) p.pad_seq)
  unfolding receiver_processing_msg on_recv_pad emit_all
  pad_message r later uid p small k fits =
      let (y, decoded, number, size) = law.padding uid p k fits in
      let overhead = y.pad_size + codec.pad_header_len in
      let e = law.header uid (pad p) small in
      (
        emit_all (ready r) (received_packet (later % 2 ^ 32) overhead uid y.pad_seq ∷ []),
        simp (e, decoded, receiver_processing_msg)
            (received r (later % 2 ^ 32) overhead uid y.pad_seq),
        ap (λ n. reported r later uid (n + codec.pad_header_len) y.pad_seq) size
            ∙ ap (reported r later uid (p.pad_size + codec.pad_header_len)) number,
      )
