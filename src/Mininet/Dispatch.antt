-- ===== src/Mininet/Dispatch.antt =====
-- What Sender (mininet-webrtc/sender.cc) sends and receives: SendSegment, TimeToSendPacket, SendPadding,
-- TimeToSendPadding, SendPing, UpdateRtt, OnPong, ProcessingMsg, Process and OnTargetTransferRate.
use stupid_simple.Base.{
  ℕ, zero, suc, ◌+◌, ◌-◌, ◌%◌, ◌^◌, ltb, leb, ◌==◌, ◌||◌, if◌then◌else◌, Option, none, some, List,
  [], ◌∷◌, length, find, erase,
}
use stupid_simple.Base.Int.{ℤ, pos, pos_part, neg_part, sub_ℕ, ltb_ℤ}
use stupid_simple.Mininet.{
  Segment, ping, pong, seg, pad, Codec, to_network, add_packet, sent_packet, rtt_update,
  transport_feedback, change_rate, min_msg_id, max_msg_id, sim_ping, sim_pong, sim_feedback,
  sim_segment_header_size, Pad,
}
use stupid_simple.Mininet.Rtt.{sender_update_rtt}
use stupid_simple.Mininet.Sender.{Sender, emit, first_of, timestamp_of}

-- get_segment_t: the segment, if it waits, leaves the buffer.
unfoldable pub get_segment_t : Sender → (sequence_number : ℕ) → Option Segment × Sender
get_segment_t s sequence_number = elim (find sequence_number s.pending_buf) [
  | none ↦ (none, s)
  | some segment ↦ (some segment, record s { pending_buf = erase sequence_number s.pending_buf })
]

-- The size_t of TimeToSendPadding in its int `remain`, or 0 where that is negative, which ends the
-- loop as well.
unfoldable pub initial_remain : ℕ → ℕ
initial_remain bytes = let low = bytes % 2 ^ 32 in if ltb low (2 ^ 31) then low else 0

module _ (codec : Codec) where
  -- SendSegment: the segment gets its delay, and goes to the network.
  unfoldable pub send_segment : Sender → Segment → ℕ → Sender
  unfolding emit timestamp_of
  send_segment s segment now =
      let late =
        timestamp_of (timestamp_of now (first_of s.first_ts (2 ^ 64 - 1))) segment.timestamp in
      emit s (
        to_network s.dst (codec.encode s.uid (seg (record segment { send_ts = late % 2 ^ 16 })))
        ∷ [])

  -- What TimeToSendPacket does with the segment that get_segment_t gives, if it does.
  unfoldable pub send_waiting : (sequence_number now : ℕ) → Option Segment × Sender → Sender
  unfolding send_segment emit
  send_waiting sequence_number now (none, left) = left
  send_waiting sequence_number now (some segment, left) =
      emit (send_segment left segment (now % 2 ^ 32)) (
        add_packet sequence_number ((segment.data_size + sim_segment_header_size) % 2 ^ 16)
        ∷ sent_packet sequence_number now
        ∷ [])

  -- TimeToSendPacket
  unfoldable pub time_to_send_packet : Sender → (sequence_number now : ℕ) → Sender
  unfolding get_segment_t send_waiting
  time_to_send_packet s sequence_number now =
      send_waiting sequence_number now (get_segment_t s sequence_number)

  -- SendPadding, and what it returns.
  unfoldable pub send_padding : Sender → (payload_len ts : ℕ) → Sender × ℕ
  unfolding emit
  send_padding s payload_len ts =
      let overhead = codec.pad_header_len + payload_len in
      let body : Pad = record { pad_ts = ts; pad_seq = s.trans_seq; pad_size = payload_len } in
      (
        emit (record s { trans_seq = (s.trans_seq + 1) % 2 ^ 16 })
            (to_network s.dst (codec.encode s.uid (pad body))
              ∷ add_packet s.trans_seq overhead
              ∷ sent_packet s.trans_seq ts
              ∷ []),
        overhead,
      )

  -- The loop of TimeToSendPadding. The subtraction stops at 0, where the source's `remain` may be
  -- negative: the loop ends in both cases.
  unfoldable pub padding_loop : ℕ → Sender → (remain now : ℕ) → Option Sender
  unfolding send_padding
  padding_loop zero s remain now = none
  padding_loop (suc fuel) s remain now =
      let (padded, ret) = send_padding s 500 now in
      let rest = padding_loop fuel padded (remain - ret) now in
      if leb remain 0
      then some s
      else if leb 500 remain
      then rest
      else if leb 100 remain
      then some (send_padding s remain now).0
      else some s

  -- TimeToSendPadding
  unfoldable pub time_to_send_padding : Sender → (bytes now : ℕ) → Option Sender
  unfolding padding_loop initial_remain
  time_to_send_padding s bytes now =
      let remain = initial_remain bytes in
      if ltb bytes 100 then some s else padding_loop (remain + 1) s remain (now % 2 ^ 32)

  -- SendPing
  unfoldable pub send_ping : Sender → ℕ → Sender
  unfolding emit
  send_ping s now =
      emit (record s { update_ping_ts = now })
        (to_network s.dst (codec.encode s.uid (ping (pos now))) ∷ [])

  -- UpdateRtt
  unfoldable pub update_sender_rtt : Sender → ℕ → Sender
  unfolding emit
  update_sender_rtt s time =
      let (state, report) = sender_update_rtt s.rtt_state time in
      emit (record s { rtt_state = state }) (rtt_update report.0 report.1 ∷ [])

  -- The case of ProcessingMsg for a pong.
  unfoldable pub on_pong : Sender → (now : ℕ) → ℤ → Sender
  unfolding update_sender_rtt
  on_pong s now ts =
      let rtt = sub_ℕ (now + neg_part ts) (pos_part ts) in
      if ltb_ℤ (pos 0) rtt then update_sender_rtt s (pos_part rtt % 2 ^ 32) else s

  -- InnerProcessFeedback: the controller gets the object of ParseFrom. A fault, `none`, is the use of
  -- the null pointer that ParseFrom returns for other bytes.
  unfoldable pub inner_process_feedback : Sender → List ℕ → Option Sender
  unfolding emit
  inner_process_feedback s bytes =
      if codec.parses bytes then some (emit s (transport_feedback bytes ∷ [])) else none

  -- ProcessingMsg, at the time `now`.
  unfoldable pub processing_msg : Sender → (now : ℕ) → List ℕ → Option Sender
  unfolding on_pong emit inner_process_feedback
  processing_msg s now stream = elim (codec.decode_header stream) [
    | none ↦ some s
    | some header ↦
        if ltb header.0 min_msg_id || ltb max_msg_id header.0
        then some s
        else if header.0 == sim_ping
        then some
            (emit s (to_network s.dst (codec.encode s.uid (pong (codec.decode_ts stream))) ∷ []))
        else if header.0 == sim_pong
        then some (on_pong s now (codec.decode_ts stream))
        else if header.0 == sim_feedback
        then elim (codec.decode_feedback stream) [
          | none ↦ some s
          | some bytes ↦ inner_process_feedback s bytes
        ]
        else some s
  ]

  -- Process, at the time `now`, with the datagram that su_udp_recv returns (empty: none).
  unfoldable pub sender_process : Sender → (now remote : ℕ) → List ℕ → Option Sender
  unfolding send_ping processing_msg
  sender_process s now remote datagram =
      let delta = if s.rtt_state.rtt == 0 then 100 else s.rtt_state.rtt in
      let pinged = if ltb_ℤ (pos delta) (sub_ℕ now s.update_ping_ts) then send_ping s now else s in
      let received =
        if leb (length datagram) 0
        then some pinged
        else processing_msg (record pinged { dst = remote }) now datagram in
      if s.running then received else some s

-- OnTargetTransferRate
unfoldable pub on_target_transfer_rate : Sender → ℕ → Sender
unfolding emit
on_target_transfer_rate s bps = if s.encoder then emit s (change_rate (bps % 2 ^ 32) ∷ []) else s

-- OnStartRateUpdate
unfoldable pub on_start_rate_update : Sender → ℕ → Sender
unfolding emit
on_start_rate_update s bps = if s.encoder then emit s (change_rate (bps % 2 ^ 32) ∷ []) else s

-- RTT: the last, average, least and greatest one.
unfoldable pub sender_rtt : Sender → ℕ × ℕ × ℕ × ℕ
sender_rtt s = (s.rtt_state.rtt, s.rtt_state.average_rtt, s.rtt_state.min_rtt, s.rtt_state.max_rtt)
