-- ===== src/Bbr/App/Receiver.antt =====
-- MyBbrReceiverApp (my_bbr_receiver_app.{h,cc}): acknowledgements, and the records of losses and
-- rates.
use stupid_simple.Base.{
  ℕ, zero, suc, ◌+◌, ◌-◌, ◌*◌, ◌/◌, ◌%◌, ◌^◌, ltb, leb, ◌==◌, not, ◌||◌, Bool, true, false,
  if◌then◌else◌, List, [], ◌∷◌, ◌++◌, length, take,
}
use stupid_simple.Base.Int.{ℤ, pos, negsuc, sub_ℕ, add_ℤ}
use stupid_simple.Header.{read_bbr_header}
use stupid_simple.Bbr.Env.{from_milliseconds, to_milliseconds}
use stupid_simple.Bbr.App.{Net, test_proto_stream, test_proto_padding, ack_packet}

-- `f_loss` and `f_rate` are the files, where they are open. `sent` are the datagrams of SendTo with
-- their destinations, and `reads` counts the calls of clock_.Now() in RecordLoss.
pub record MyBbrReceiverApp : Type 0 where
  pub first : Bool
  pub peer : ℕ
  pub base_seq : ℕ
  pub stop : ℕ
  pub duration : ℕ
  pub ref_time : ℕ
  pub next : ℕ
  pub recv_byte : ℕ
  pub offset : ℤ
  pub enable_loss_record : Bool
  pub enable_rate_record : Bool
  pub f_loss : List (ℕ × ℕ)
  pub f_rate : List (ℕ × ℕ)
  pub sent : List (ℕ × List ℕ)
  pub reads : ℕ

-- The constructor, then set_duration, and EnableLossRecord and EnableRateRecord where asked for.
unfoldable pub new_receiver : ℕ → Bool → Bool → MyBbrReceiverApp
new_receiver ms loss rate = record {
  first = true;
  peer = 0;
  base_seq = 0;
  stop = 0;
  duration = ms;
  ref_time = 0;
  next = 0;
  recv_byte = 0;
  offset = pos 0;
  enable_loss_record = loss;
  enable_rate_record = rate;
  f_loss = [];
  f_rate = [];
  sent = [];
  reads = 0;
}

-- An int64_t stored into a uint64_t.
unfoldable pub to_uint64 : ℤ → ℕ
to_uint64 (pos n) = n % 2 ^ 64
to_uint64 (negsuc n) = (2 ^ 64 - suc n % 2 ^ 64) % 2 ^ 64

-- `abs` of a line: the milliseconds since ref_time_, and the offset.
unfoldable pub abs_time : MyBbrReceiverApp → ℕ → ℕ
unfolding to_uint64
abs_time s now = to_uint64 (add_ℤ (to_milliseconds (sub_ℕ now s.ref_time)) s.offset)

-- SendAck
unfoldable pub send_ack : Net → MyBbrReceiverApp → ℕ → MyBbrReceiverApp
send_ack net s packet_number = record s {
  sent = s.sent ++ ((s.peer, ack_packet net packet_number) ∷ []);
}

-- RecordRate
unfoldable pub receiver_record_rate : MyBbrReceiverApp → ℕ → MyBbrReceiverApp
unfolding abs_time
receiver_record_rate s now =
    let later = now + from_milliseconds 500 in
    if s.enable_rate_record
    then (if s.next == 0
        then record s { next = later }
        else (if ltb s.next now
            then record s {
              next = later;
              recv_byte = 0;
              f_rate = s.f_rate ++ ((abs_time s now, s.recv_byte * 8 % 2 ^ 64 / 500) ∷ []);
            }
            else s))
    else s

module _ (clock : ℕ → ℕ) where
  -- RecordLoss, whose n-th reading of the clock is `clock n`.
  unfoldable pub record_loss : MyBbrReceiverApp → ℕ → MyBbrReceiverApp
  unfolding abs_time
  record_loss s seq =
      if s.enable_loss_record
      then record s {
        f_loss = s.f_loss ++ ((abs_time s (clock s.reads), seq) ∷ []);
        reads = s.reads + 1;
      }
      else s

  -- The loop over `n` skipped numbers, from `i` on.
  unfoldable pub record_losses : ℕ → ℕ → MyBbrReceiverApp → MyBbrReceiverApp
  unfolding record_loss
  record_losses zero i s = s
  record_losses (suc n) i s = record_losses n (i + 1) (record_loss s i)

  -- The branch of OnIncomingData for a data packet.
  unfoldable pub on_data_packet : Net → MyBbrReceiverApp → ℕ → MyBbrReceiverApp
  unfolding send_ack record_losses
  on_data_packet net s seq =
      let expected = (s.base_seq + 1) % 2 ^ 64 in
      let acked = send_ack net s seq in
      let noted =
        if ltb expected seq then record_losses (seq - expected) expected acked else acked in
      if leb expected seq then record noted { base_seq = seq } else noted

  -- OnIncomingData
  unfoldable pub on_incoming_data : Net → MyBbrReceiverApp → List ℕ → MyBbrReceiverApp
  unfolding on_data_packet
  on_incoming_data net s bytes =
      let counted : MyBbrReceiverApp = record s {
        recv_byte = (s.recv_byte + length bytes) % 2 ^ 64;
      } in
      let (type, seq, rest) = read_bbr_header net.types net.wire bytes in
      if (type == test_proto_stream) || (type == test_proto_padding)
      then on_data_packet net counted seq
      else counted

  -- The part of Process that deals with a datagram from `remote`.
  unfoldable pub receiver_receive : Net → MyBbrReceiverApp → ℕ → ℕ → List ℕ → MyBbrReceiverApp
  unfolding on_incoming_data
  receiver_receive net s now remote datagram =
      let timed = if s.ref_time == 0 then record s { ref_time = now } else s in
      let started =
        if timed.first
        then record timed {
          peer = remote;
          first = false;
          stop = now + from_milliseconds timed.duration;
        }
        else timed in
      on_incoming_data net started (take 1500 datagram)

  -- Process, at the time `now`, with the datagram that RecvFrom returns (empty: none).
  unfoldable pub receiver_process :
      Net → MyBbrReceiverApp → ℕ → ℕ → List ℕ → Bool × MyBbrReceiverApp
  unfolding receiver_receive receiver_record_rate
  receiver_process net s now remote datagram =
      let received =
        if leb (length datagram) 0 then s else receiver_receive net s now remote datagram in
      (received.first || not (ltb received.stop now), receiver_record_rate received now)
