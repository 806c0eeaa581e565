-- ===== src/Quic/Receiver.antt =====
-- MyQuicReceiver and MyQuicAlarm (my_quic_receiver.{h,cc}): packets go to the received packet
-- manager, acknowledgements go out at once, after ten packets or when the alarm is due, and skipped
-- numbers, delays and rates are written to files.
pub mod Process
use stupid_simple.Base.{
  ℕ, zero, suc, ◌+◌, ◌-◌, ◌*◌, ◌/◌, ◌%◌, ◌^◌, ltb, leb, ◌==◌, not, ◌&&◌, ◌||◌, Bool, true, false,
  if◌then◌else◌, Option, none, some, List, [], ◌∷◌, ◌++◌, length, take,
}
use stupid_simple.Base.Int.{ℤ, pos, sub_ℕ, add_ℤ}
use stupid_simple.Header.{
  read_quic_header, read_number, get_min_seq_length, public_flags, read_sequence_number_length,
  read_byte,
}
use stupid_simple.Bbr.Env.{from_milliseconds, to_milliseconds}
use stupid_simple.Bbr.App.Receiver.{to_uint64}
use stupid_simple.Quic.{QuicLib}

abbrev pub min_received_before_ack_decimation : ℕ
min_received_before_ack_decimation = 100

abbrev pub max_retransmittable_packets_before_ack : ℕ
max_retransmittable_packets_before_ack = 10

abbrev pub max_delayed_ack_time_ms : ℕ
max_delayed_ack_time_ms = 25

abbrev pub min_retransmission_time_ms : ℕ
min_retransmission_time_ms = 200

-- MyQuicAlarm, by its m_deadline: IsSet
unfoldable pub alarm_is_set : ℕ → Bool
alarm_is_set deadline = ltb 0 deadline

-- IsExpired, which clears an alarm that is due.
unfoldable pub alarm_is_expired : ℕ → ℕ → Bool × ℕ
unfolding alarm_is_set
alarm_is_expired deadline now =
    if alarm_is_set deadline && leb deadline now then (true, 0) else (false, deadline)

-- A file is `none` while it is not open. `sent` are the datagrams of SendTo with their
-- destinations, and `reads` counts the calls of clock_.Now().
pub record MyQuicReceiver (R : Type 0) : Type 0 where
  pub first : Bool
  pub peer : ℕ
  pub recv_packet_manager : R
  pub ack_sent : Bool
  pub seq : ℕ
  pub base_seq : ℕ
  pub stop : ℕ
  pub duration : ℕ
  pub ack_alarm : ℕ
  pub received : ℕ
  pub num_packets_received_since_last_ack_sent : ℕ
  pub offset : ℤ
  pub ref_time : ℕ
  pub next_output : ℕ
  pub recv_byte : ℕ
  pub f_loss : Option (List (ℕ × ℕ))
  pub f_rate : Option (List (ℕ × ℕ))
  pub f_owd : Option (List (ℕ × ℕ))
  pub sent : List (ℕ × List ℕ)
  pub reads : ℕ

module _ {R A : Type 0} (lib : QuicLib R A) where
  -- The constructor, then set_duration; EnableLossRecord and its like open a file each.
  unfoldable pub new_quic_receiver :
      (duration : ℕ) (loss rate owd : Option (List (ℕ × ℕ))) → MyQuicReceiver R
  new_quic_receiver duration loss rate owd = record {
    first = true;
    peer = 0;
    recv_packet_manager = lib.new_manager;
    ack_sent = false;
    seq = 1;
    base_seq = 0;
    stop = 0;
    duration = duration;
    ack_alarm = 0;
    received = 0;
    num_packets_received_since_last_ack_sent = 0;
    offset = pos 0;
    ref_time = 0;
    next_output = 0;
    recv_byte = 0;
    f_loss = loss;
    f_rate = rate;
    f_owd = owd;
    sent = [];
    reads = 0;
  }

-- `public_flags` after its read.
abbrev pub first_byte : List ℕ → ℕ
first_byte bytes = (read_byte bytes).0

module _ {R : Type 0} where
  -- A call of clock_.Now().
  abbrev pub tick : MyQuicReceiver R → MyQuicReceiver R
  tick s = record s { reads = s.reads + 1 }

  -- `delta.ToMilliseconds() + offset_`, modulo 2^64.
  unfoldable pub quic_abs_time : MyQuicReceiver R → ℕ → ℕ
  unfolding to_uint64
  quic_abs_time s now = to_uint64 (add_ℤ (to_milliseconds (sub_ℕ now s.ref_time)) s.offset)

  -- RecordOnewayDelay
  unfoldable pub record_oneway_delay : MyQuicReceiver R → (seq owd : ℕ) → MyQuicReceiver R
  record_oneway_delay s seq owd = elim s.f_owd [
    | none ↦ s
    | some lines ↦ record s { f_owd = some (lines ++ ((seq, owd) ∷ [])) }
  ]

  -- RecordRate
  unfoldable pub quic_record_rate : MyQuicReceiver R → ℕ → MyQuicReceiver R
  unfolding quic_abs_time
  quic_record_rate s now =
      let later = now + from_milliseconds 500 in
      elim s.f_rate [
        | none ↦ s
        | some lines ↦
            if s.next_output == 0
            then record s { next_output = later }
            else (if ltb s.next_output now
                then record s {
                  next_output = later;
                  recv_byte = 0;
                  f_rate = some (
                      lines
                      ++ ((quic_abs_time s now % 2 ^ 32, s.recv_byte * 8 % 2 ^ 64 / 500 % 2 ^ 32)
                          ∷ []));
                }
                else s)
      ]

module _ {R A : Type 0} (lib : QuicLib R A) (clock : ℕ → ℕ) where
  -- RecordLoss, whose n-th reading of the clock is `clock n`.
  unfoldable pub quic_record_loss : MyQuicReceiver R → ℕ → MyQuicReceiver R
  unfolding quic_abs_time
  quic_record_loss s seq = elim s.f_loss [
    | none ↦ s
    | some lines ↦ record s {
      f_loss = some (lines ++ ((quic_abs_time s (clock s.reads), seq) ∷ []));
      reads = s.reads + 1;
    }
  ]

  -- The loop over `n` skipped numbers, from `i` on.
  unfoldable pub quic_record_losses : ℕ → ℕ → MyQuicReceiver R → MyQuicReceiver R
  unfolding quic_record_loss
  quic_record_losses zero i s = s
  quic_record_losses (suc n) i s = quic_record_losses n (i + 1) (quic_record_loss s i)

  -- SendAck
  unfoldable pub quic_send_ack : MyQuicReceiver R → MyQuicReceiver R
  quic_send_ack s =
      let approx = clock s.reads in
      let (frame, manager) = lib.get_updated_ack_frame s.recv_packet_manager approx in
      let seq_len = get_min_seq_length lib.types s.seq in
      let header = public_flags lib.types seq_len ∷ lib.wire.write_uint seq_len s.seq in
      let room = lib.k_max_packet_size - (1 + seq_len) in
      record s {
        recv_packet_manager = manager;
        ack_sent = true;
        num_packets_received_since_last_ack_sent = 0;
        sent = s.sent ++ ((s.peer, header ++ lib.append_ack_frame frame approx room) ∷ []);
        reads = s.reads + 1;
      }

  -- MaybeSendAck
  unfoldable pub maybe_send_ack : MyQuicReceiver R → MyQuicReceiver R
  unfolding quic_send_ack alarm_is_set
  maybe_send_ack s =
      let half = min_retransmission_time_ms / 2 in
      let ack_delay = if ltb half max_delayed_ack_time_ms then half else max_delayed_ack_time_ms in
      if ltb s.received min_received_before_ack_decimation
      then quic_send_ack s
      else (if leb max_retransmittable_packets_before_ack s.num_packets_received_since_last_ack_sent
          then quic_send_ack s
          else (if alarm_is_set s.ack_alarm then s else record s {
            ack_alarm = clock s.reads + from_milliseconds ack_delay;
            reads = s.reads + 1;
          }))
