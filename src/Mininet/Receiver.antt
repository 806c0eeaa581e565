-- ===== src/Mininet/Receiver.antt =====
-- Receiver (mininet-webrtc/receiver.{h,cc}). The time of rtc::TimeMillis is 32 bits wide where the
-- source stores it in a uint32_t. A fault, `none`, is a call through the null receive_side_cc_.
use stupid_simple.Base.{
  ℕ, ◌+◌, ◌%◌, ◌^◌, ltb, leb, ◌==◌, not, ◌&&◌, ◌||◌, Bool, true, false, if◌then◌else◌, Option, none,
  some, List, [], ◌∷◌, ◌++◌, length, ◌>>=◌,
}
use stupid_simple.Base.Int.{ℤ, pos, pos_part, neg_part, sub_ℕ, ltb_ℤ}
use stupid_simple.Mininet.{
  Segment, Pad, ping, pong, feedback, Codec, Effect, to_network, rtt_update, received_packet,
  register_controller, deregister_controller, min_msg_id, max_msg_id, sim_ping, sim_pong, sim_seg,
  sim_pad, sim_feedback_size, sim_segment_header_size,
}
use stupid_simple.Mininet.Rtt.{RttState, no_rtt, receiver_update_rtt}

-- `receive_side_cc` says whether the controller was made; `out` are the calls made outside.
pub record Receiver : Type 0 where
  pub running : Bool
  pub session_connected : Bool
  pub first_packet : Bool
  pub dst : ℕ
  pub receive_side_cc : Bool
  pub uid : ℕ
  pub rtt_state : RttState
  pub update_ping_ts : ℕ
  pub duration : ℕ
  pub stop_ts : ℕ
  pub base_seq : ℕ
  pub out : List Effect

-- The constructor, then SetRunDuration.
unfoldable pub new_mininet_receiver : ℕ → Receiver
new_mininet_receiver delta = record {
  running = true;
  session_connected = false;
  first_packet = true;
  dst = 0;
  receive_side_cc = false;
  uid = 4321;
  rtt_state = no_rtt;
  update_ping_ts = 0;
  duration = delta;
  stop_ts = 0;
  base_seq = 0;
  out = [];
}

unfoldable pub emit_all : Receiver → List Effect → Receiver
emit_all r es = record r { out = r.out ++ es }

-- IsStop, at the time `now`
unfoldable pub is_stop : Receiver → ℕ → Bool
is_stop r now = r.session_connected && (not (r.stop_ts == 0) && ltb r.stop_ts (now % 2 ^ 32))

-- Stop
unfoldable pub stop_receiver : Receiver → Receiver
unfolding emit_all
stop_receiver r = if r.receive_side_cc then emit_all r (deregister_controller ∷ []) else r

-- ConfigureCongestion
unfoldable pub configure_congestion : Receiver → Receiver
unfolding emit_all
configure_congestion r =
    if r.receive_side_cc
    then r
    else emit_all (record r { receive_side_cc = true }) (register_controller ∷ [])

-- `receive_side_cc_->OnReceivedPacket`
unfoldable pub on_received_packet : Receiver → (now overhead ssrc seq : ℕ) → Option Receiver
unfolding emit_all
on_received_packet r now overhead ssrc seq =
    if r.receive_side_cc
    then some (emit_all r (received_packet now overhead ssrc seq ∷ []))
    else none

-- OnRecvSegment
unfoldable pub on_recv_segment : Receiver → (now uid : ℕ) → Segment → Option Receiver
unfolding on_received_packet configure_congestion
on_recv_segment r now uid segment = do
  let now32 = now % 2 ^ 32
  received ←
      on_received_packet (configure_congestion r) now32
        (segment.data_size + sim_segment_header_size) uid segment.transport_seq
  some (
      if received.first_packet
      then record received { first_packet = false; stop_ts = (now32 + received.duration) % 2 ^ 32 }
      else received)

-- UpdateRtt
unfoldable pub update_receiver_rtt : Receiver → ℕ → Receiver
unfolding emit_all
update_receiver_rtt r time =
    let (state, report) = receiver_update_rtt r.rtt_state time in
    let updated : Receiver = record r { rtt_state = state } in
    if r.receive_side_cc then emit_all updated (rtt_update report.0 report.1 ∷ []) else updated

-- The case of ProcessingMsg for a pong.
unfoldable pub on_receiver_pong : Receiver → (now : ℕ) → ℤ → Receiver
unfolding update_receiver_rtt
on_receiver_pong r now ts =
    let rtt = sub_ℕ (now + neg_part ts) (pos_part ts) in
    if ltb_ℤ (pos 0) rtt then update_receiver_rtt r (pos_part rtt % 2 ^ 32) else r

module _ (codec : Codec) where
  -- OnRecvPad
  unfoldable pub on_recv_pad : Receiver → (now uid : ℕ) → Pad → Option Receiver
  unfolding on_received_packet configure_congestion
  on_recv_pad r now uid body =
      on_received_packet (configure_congestion r) (now % 2 ^ 32)
        (body.pad_size + codec.pad_header_len) uid body.pad_seq

  -- SendTransportFeedback, of the `serialized` packet.
  unfoldable pub send_transport_feedback : Receiver → List ℕ → Bool × Receiver
  unfolding emit_all
  send_transport_feedback r serialized =
      if ltb sim_feedback_size (length serialized) then (false, r) else (
        true,
        emit_all r (to_network r.dst (codec.encode r.uid (feedback r.base_seq serialized)) ∷ []),
      )

  -- SendPing
  unfoldable pub receiver_send_ping : Receiver → ℕ → Receiver
  unfolding emit_all
  receiver_send_ping r now =
      emit_all (record r { update_ping_ts = now })
        (to_network r.dst (codec.encode r.uid (ping (pos now))) ∷ [])

  -- ProcessingMsg, at the time `now`.
  unfoldable pub receiver_processing_msg : Receiver → (now : ℕ) → List ℕ → Option Receiver
  unfolding on_receiver_pong on_recv_segment on_recv_pad emit_all
  receiver_processing_msg r now stream = elim (codec.decode_header stream) [
    | none ↦ some r
    | some header ↦
        let connected : Receiver = record r { session_connected = true } in
        if ltb header.0 min_msg_id || ltb max_msg_id header.0
        then some r
        else if header.0 == sim_ping
        then some (
            emit_all connected
              (to_network r.dst (codec.encode r.uid (pong (codec.decode_ts stream))) ∷ []))
        else if header.0 == sim_pong
        then some (on_receiver_pong connected now (codec.decode_ts stream))
        else if header.0 == sim_seg
        then elim (codec.decode_segment stream) [
          | none ↦ some connected
          | some segment ↦ on_recv_segment connected now header.1 segment
        ]
        else if header.0 == sim_pad
        then elim (codec.decode_pad stream) [
          | none ↦ some connected
          | some body ↦ on_recv_pad connected now header.1 body
        ]
        else some connected
  ]

  -- Process, at the time `now`, with the datagram that su_udp_recv returns (empty: none).
  unfoldable pub process_datagram : Receiver → (now remote : ℕ) → List ℕ → Option Receiver
  unfolding receiver_send_ping receiver_processing_msg
  process_datagram r now remote datagram =
      let now32 = now % 2 ^ 32 in
      let delta = if r.rtt_state.rtt == 0 then 100 else r.rtt_state.rtt in
      let due = r.session_connected && ltb_ℤ (pos delta) (sub_ℕ now32 r.update_ping_ts) in
      let pinged = if due then receiver_send_ping r now32 else r in
      let known : Receiver =
        if pinged.session_connected
        then pinged
        else record pinged { session_connected = true; dst = remote } in
      if not r.running
      then some r
      else if leb (length datagram) 0
      then some pinged
      else receiver_processing_msg known now datagram
