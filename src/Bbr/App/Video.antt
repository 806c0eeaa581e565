-- ===== src/Bbr/App/Video.antt =====
-- MyBbrVideoSenderApp (my_bbr_video_sender_app.{h,cc}). A fault, `none`, is one of the controller,
-- a failed assert of Process, or a memcpy past the end of a buffer.
use stupid_simple.Base.{
  ℕ, ◌+◌, ◌%◌, ◌/◌, ◌^◌, ltb, leb, ◌==◌, not, ◌&&◌, Bool, false, if◌then◌else◌, Option, none, some,
  List, [], ◌∷◌, ◌++◌, length, take, ◌>>=◌,
}
use stupid_simple.Base.Int.{ℤ, pos, sub_ℕ, add_ℤ}
use stupid_simple.Frames.{
  FakeVideoGenerator, get_frame, frame_split, max_split_number, max_video_size,
}
use stupid_simple.Bbr.Env.{BbrEnv, from_milliseconds, to_milliseconds}
use stupid_simple.Bbr.State.{MyBbrSender, new_sender, bandwidth_estimate, should_send_probe_packet}
use stupid_simple.Bbr.Pacing.{MyPacingSender, new_pacing, pacing_packet_sent, time_until_send}
use stupid_simple.Bbr.App.{Net, test_proto_stream, test_proto_padding, fake_packet, payload_of}
use stupid_simple.Bbr.App.Sender.{process_ack_frame, log_line}

-- The fields are those of MyBbrSenderApp, the generator and the queue of split sizes.
pub record MyBbrVideoSenderApp (F : Type 0) : Type 0 where
  pub seq : ℕ
  pub next : ℕ
  pub ref_time : ℕ
  pub stop : ℕ
  pub offset : ℤ
  pub f_rate : Option (List (ℤ × ℕ))
  pub pacing : MyPacingSender F
  pub source : FakeVideoGenerator
  pub pending_queue : List ℕ
  pub sent : List (List ℕ)

module _ {F : Type 0} (env : BbrEnv F) where
  -- The constructor, then SetVideoSource.
  unfoldable pub new_video_app : FakeVideoGenerator → ℕ → ℕ → ℕ → MyBbrVideoSenderApp F
  new_video_app source min_bps start_bps max_bps = record {
    seq = 1;
    next = 0;
    ref_time = 0;
    stop = 0;
    offset = pos 0;
    f_rate = none;
    pacing = new_pacing (new_sender env min_bps start_bps max_bps);
    source = source;
    pending_queue = [];
    sent = [];
  }

  -- set_duration
  unfoldable pub video_set_duration : MyBbrVideoSenderApp F → ℕ → ℕ → MyBbrVideoSenderApp F
  video_set_duration s now ms = record s { stop = now + from_milliseconds ms }

  -- EnableRateRecord
  unfoldable pub video_enable_rate_record : MyBbrVideoSenderApp F → MyBbrVideoSenderApp F
  video_enable_rate_record s = record s { f_rate = some [] }

  unfoldable pub estimate_kbps : Option (MyBbrSender F) → ℕ
  estimate_kbps none = 0
  estimate_kbps (some cc) = bandwidth_estimate env cc / 1000

  -- RecordRate
  unfoldable pub video_record_rate : MyBbrVideoSenderApp F → ℕ → MyBbrVideoSenderApp F
  unfolding estimate_kbps log_line
  video_record_rate s now =
      let later = now + from_milliseconds 100 in
      if s.next == 0
      then record s { next = later }
      else (if ltb s.next now
          then record s {
            next = later;
            f_rate =
                log_line s.f_rate (add_ℤ (to_milliseconds (sub_ℕ now s.ref_time)) s.offset)
                  (estimate_kbps s.pacing.sender);
          }
          else s)

module _ {F : Type 0} (env : BbrEnv F) (net : Net) where
  -- SendFakePacket
  unfoldable pub video_send_fake_packet : MyBbrVideoSenderApp F → ℕ → Option (MyBbrVideoSenderApp F)
  video_send_fake_packet s now = do
    pacing ← pacing_packet_sent env s.pacing now s.seq (payload_of net s.seq)
    some (record s {
      seq = (s.seq + 1) % 2 ^ 32;
      pacing = pacing;
      sent = s.sent ++ (fake_packet net test_proto_stream s.seq ∷ []);
    })

  -- SendPaddingPacket
  unfoldable pub send_padding_packet : MyBbrVideoSenderApp F → ℕ → Option (MyBbrVideoSenderApp F)
  send_padding_packet s now = do
    pacing ← pacing_packet_sent env s.pacing now s.seq (payload_of net s.seq)
    some (record s {
      seq = (s.seq + 1) % 2 ^ 32;
      pacing = pacing;
      sent = s.sent ++ (fake_packet net test_proto_padding s.seq ∷ []);
    })

  unfoldable pub wants_probe : Option (MyBbrSender F) → Bool
  wants_probe none = false
  wants_probe (some cc) = should_send_probe_packet cc

  -- SendDataOrPadding
  unfoldable pub send_data_or_padding : MyBbrVideoSenderApp F → ℕ → Option (MyBbrVideoSenderApp F)
  unfolding wants_probe send_padding_packet video_send_fake_packet
  send_data_or_padding s now = elim s.pending_queue [
    | [] ↦ if wants_probe s.pacing.sender then send_padding_packet s now else some s
    | _ ∷ _ ↦ video_send_fake_packet s now
  ]

  -- The frame of Process: GetFrame, the assert, FrameSplit, and the loop that queues the sizes.
  unfoldable pub take_frame : MyBbrVideoSenderApp F → ℕ → Option (MyBbrVideoSenderApp F)
  take_frame s now =
      let (frame_len, source) = get_frame s.source now in
      let s' : MyBbrVideoSenderApp F = record s { source = source } in
      if ltb 0 frame_len
      then (if ltb (frame_len / max_video_size) max_split_number
          then (frame_split frame_len >>= λ splits.
              some (record s' { pending_queue = s.pending_queue ++ splits }))
          else none)
      else some s'

  -- ProcessAckFrame, whose text is the one of MyBbrSenderApp.
  unfoldable pub video_process_ack_frame :
      MyBbrVideoSenderApp F → ℕ → List ℕ → Option (MyBbrVideoSenderApp F)
  unfolding process_ack_frame
  video_process_ack_frame s now bytes = do
    pacing ← process_ack_frame env net s.pacing now bytes
    some (record s { pacing = pacing })

  -- The part of Process that deals with the datagram, if any.
  unfoldable pub video_receive : MyBbrVideoSenderApp F → ℕ → List ℕ → Option (MyBbrVideoSenderApp F)
  unfolding video_process_ack_frame
  video_receive s now datagram =
      if leb (length datagram) 0 then some s else video_process_ack_frame s now (take 1500 datagram)

  -- Process, at the time `now`, with the datagram that RecvFrom returns (empty: none).
  unfoldable pub video_process :
      MyBbrVideoSenderApp F → ℕ → List ℕ → Option (Bool × MyBbrVideoSenderApp F)
  unfolding take_frame send_data_or_padding video_receive video_record_rate
  video_process s now datagram = do
    framed ← take_frame (if s.ref_time == 0 then record s { ref_time = now } else s) now
    sent ←
        if time_until_send framed.pacing now == 0
        then send_data_or_padding framed now
        else some framed
    received ← video_receive sent now datagram
    some (
      not (not (received.stop == 0) && ltb received.stop now),
      video_record_rate env received now,
    )
