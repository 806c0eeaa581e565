-- ===== src/Bbr/App/Sender.antt =====
-- MyBbrSenderApp (my_bbr_sender_app.{h,cc}). A fault, `none`, is one of the controller or a memcpy
-- past the end of a buffer.
use stupid_simple.Base.{
  ℕ, ◌+◌, ◌%◌, ◌/◌, ◌^◌, ltb, leb, ◌==◌, not, ◌&&◌, Bool, if◌then◌else◌, Option, none, some, List,
  [], ◌∷◌, ◌++◌, length, take, ◌>>=◌,
}
use stupid_simple.Base.Int.{ℤ, pos, sub_ℕ, add_ℤ}
use stupid_simple.Header.{read_bbr_header}
use stupid_simple.Bbr.Env.{BbrEnv, from_milliseconds, to_milliseconds}
use stupid_simple.Bbr.State.{MyBbrSender, new_sender, get_reference_rate}
use stupid_simple.Bbr.Pacing.{
  MyPacingSender, new_pacing, pacing_packet_sent, on_congestion_event, time_until_send,
}
use stupid_simple.Bbr.App.{
  Net, test_proto_stream, test_proto_ack, max_packet_size, fake_packet, payload_of,
}

-- `pacing` holds cc_, the controller that set_sender gave it. `f_rate` is the file, where it is
-- open: its lines so far. `sent` are the datagrams of SendTo.
pub record MyBbrSenderApp (F : Type 0) : Type 0 where
  pub seq : ℕ
  pub next : ℕ
  pub ref_time : ℕ
  pub stop : ℕ
  pub offset : ℤ
  pub f_rate : Option (List (ℤ × ℕ))
  pub pacing : MyPacingSender F
  pub sent : List (List ℕ)

-- ProcessAckFrame, on the pacer: the datagram is copied into a buffer of MaxPacketSize bytes.
unfoldable pub process_ack_frame :
    {F : Type 0} → BbrEnv F → Net → MyPacingSender F → ℕ → List ℕ → Option (MyPacingSender F)
process_ack_frame env net pacing now bytes =
    if leb (length bytes) max_packet_size
    then (let (type, num, rest) = read_bbr_header net.types net.wire bytes in
        if type == test_proto_ack then on_congestion_event env pacing now num else some pacing)
    else none

-- A line of f_rate_, where the file is open.
unfoldable pub log_line : Option (List (ℤ × ℕ)) → ℤ → ℕ → Option (List (ℤ × ℕ))
log_line none at value = none
log_line (some lines) at value = some (lines ++ ((at, value) ∷ []))

module _ {F : Type 0} (env : BbrEnv F) where
  -- The constructor.
  unfoldable pub new_app : ℕ → ℕ → ℕ → MyBbrSenderApp F
  new_app min_bps start_bps max_bps = record {
    seq = 1;
    next = 0;
    ref_time = 0;
    stop = 0;
    offset = pos 0;
    f_rate = none;
    pacing = new_pacing (new_sender env min_bps start_bps max_bps);
    sent = [];
  }

  -- set_duration
  unfoldable pub set_duration : MyBbrSenderApp F → ℕ → ℕ → MyBbrSenderApp F
  set_duration s now ms = record s { stop = now + from_milliseconds ms }

  -- EnableRateRecord
  unfoldable pub enable_rate_record : MyBbrSenderApp F → MyBbrSenderApp F
  enable_rate_record s = record s { f_rate = some [] }

  unfoldable pub reference_kbps : Option (MyBbrSender F) → ℕ
  reference_kbps none = 0
  reference_kbps (some cc) = get_reference_rate env cc / 1000

  -- RecordRate
  unfoldable pub record_rate : MyBbrSenderApp F → ℕ → MyBbrSenderApp F
  unfolding reference_kbps log_line
  record_rate s now =
      let later = now + from_milliseconds 100 in
      if s.next == 0
      then record s { next = later }
      else (if ltb s.next now
          then record s {
            next = later;
            f_rate =
                log_line s.f_rate (add_ℤ (to_milliseconds (sub_ℕ now s.ref_time)) s.offset)
                  (reference_kbps s.pacing.sender);
          }
          else s)

module _ {F : Type 0} (env : BbrEnv F) (net : Net) where
  -- SendFakePacket
  unfoldable pub send_fake_packet : MyBbrSenderApp F → ℕ → Option (MyBbrSenderApp F)
  send_fake_packet s now = do
    pacing ← pacing_packet_sent env s.pacing now s.seq (payload_of net s.seq)
    some (record s {
      seq = (s.seq + 1) % 2 ^ 32;
      pacing = pacing;
      sent = s.sent ++ (fake_packet net test_proto_stream s.seq ∷ []);
    })

  -- The part of Process that deals with the datagram, if any: RecvFrom keeps its first 1500 bytes.
  unfoldable pub receive : MyBbrSenderApp F → ℕ → List ℕ → Option (MyBbrSenderApp F)
  unfolding process_ack_frame
  receive s now datagram =
      if leb (length datagram) 0
      then some s
      else (process_ack_frame env net s.pacing now (take 1500 datagram) >>= λ pacing.
          some (record s { pacing = pacing }))

  -- Process, at the time `now`, with the datagram that RecvFrom returns (empty: none).
  unfoldable pub process : MyBbrSenderApp F → ℕ → List ℕ → Option (Bool × MyBbrSenderApp F)
  unfolding send_fake_packet receive record_rate
  process s now datagram = do
    let started = if s.ref_time == 0 then record s { ref_time = now } else s
    sent ←
        if time_until_send started.pacing now == 0
        then send_fake_packet started now
        else some started
    received ← receive sent now datagram
    some (not (not (received.stop == 0) && ltb received.stop now), record_rate env received now)
