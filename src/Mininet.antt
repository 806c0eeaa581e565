-- ===== src/Mininet.antt =====
-- mininet-webrtc: the simulated RTP sender and receiver around the WebRTC congestion controllers,
-- and the video source. What they share: the messages of sim_proto.h, the codec of which is a
-- parameter, and what they ask of the network, the pacer and the controllers.
pub mod Rtt
pub mod Statistics
pub mod Sender
pub mod Dispatch
pub mod Segments
pub mod Padding
pub mod Receiver
pub mod Session
pub mod RtpModule
pub mod Messages
pub mod Agreement
pub mod Generator
pub mod Setup
use stupid_simple.Base.{ℕ, Bool, Option, List}
use stupid_simple.Base.Int.{ℤ}

abbrev pub min_msg_id : ℕ
min_msg_id = 0x10

abbrev pub max_msg_id : ℕ
max_msg_id = 28

abbrev pub sim_ping : ℕ
sim_ping = 21

abbrev pub sim_pong : ℕ
sim_pong = 22

abbrev pub sim_seg : ℕ
sim_seg = 23

abbrev pub sim_feedback : ℕ
sim_feedback = 25

abbrev pub sim_pad : ℕ
sim_pad = 27

abbrev pub sim_feedback_size : ℕ
sim_feedback_size = 1000

abbrev pub padding_data_size : ℕ
padding_data_size = 500

abbrev pub sim_segment_header_size : ℕ
sim_segment_header_size = 30

-- sim_segment_t
pub record Segment : Type 0 where
  pub packet_id : ℕ
  pub fid : ℕ
  pub timestamp : ℕ
  pub index : ℕ
  pub total : ℕ
  pub ftype : ℕ
  pub payload_type : ℕ
  pub remb : ℕ
  pub send_ts : ℕ
  pub transport_seq : ℕ
  pub data_size : ℕ
  pub payload : List ℕ

-- The part of sim_pad_t that is set.
pub record Pad : Type 0 where
  pub pad_ts : ℕ
  pub pad_seq : ℕ
  pub pad_size : ℕ

-- The body of a message.
pub data Body : Type 0 where
  ping : ℤ → Body
  pong : ℤ → Body
  seg : Segment → Body
  pad : Pad → Body
  feedback : (base_packet_id : ℕ) → List ℕ → Body

-- The codec of sim_proto.c. The decoders of a ping and a pong give what the variable holds after
-- the call, failed or not, since the callers do not ask; the others fail with `none`. `parses` says
-- whether TransportFeedback::ParseFrom of WebRTC makes an object of the bytes of a feedback.
pub record Codec : Type 0 where
  pub encode : ℕ → Body → List ℕ
  pub decode_header : List ℕ → Option (ℕ × ℕ)
  pub decode_ts : List ℕ → ℤ
  pub decode_segment : List ℕ → Option Segment
  pub decode_pad : List ℕ → Option Pad
  pub decode_feedback : List ℕ → Option (List ℕ)
  pub parses : List ℕ → Bool
  -- sizeof(sim_header_t) + sizeof(sim_pad_t)
  pub pad_header_len : ℕ

-- A call that the sender or the receiver makes outside.
pub data Effect : Type 0 where
  to_network : (peer : ℕ) → List ℕ → Effect
  insert_packet : (seq now overhead : ℕ) → Effect
  add_packet : (seq overhead : ℕ) → Effect
  sent_packet : (seq now : ℕ) → Effect
  rtt_update : (average greatest : ℕ) → Effect
  transport_feedback : List ℕ → Effect
  change_rate : (bps : ℕ) → Effect
  received_packet : (now overhead ssrc seq : ℕ) → Effect
  register_target : Effect
  start_encoder : (min_rate : ℕ) → Effect
  stop_encoder : Effect
  register_controller : Effect
  deregister_controller : Effect
