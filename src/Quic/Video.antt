-- ===== src/Quic/Video.antt =====
-- MyQuicVideoSender (my_quic_video_sender.{h,cc}): its state, and what it sends. A fault, `none`,
-- is a send of bytes behind the buffer.
pub mod Process
pub mod Rounds
pub mod Queues
pub mod Source
pub mod Moves
pub mod Refines
pub mod Safety
pub mod Run
pub mod Loop
use stupid_simple.Base.{
  ℕ, ◌+◌, ◌-◌, ◌%◌, ◌/◌, ◌^◌, leb, Bool, true, false, if◌then◌else◌, Option, none, some, List, [],
  ◌∷◌, ◌++◌, length, replicate, ◌>>=◌, find, erase, insert,
}
use stupid_simple.Base.Int.{ℤ}
use stupid_simple.Header.{get_min_seq_length, quic_header}
use stupid_simple.Frames.{FakeVideoGenerator, max_video_size}
use stupid_simple.Quic.Sending.{
  Pending, not_retransmission, loss_retransmission, SentPacket, SendLib, stop_waiting_packet,
}

-- As MyQuicSender, with a 64-bit seq_, the generator, the queue of split sizes, and the sizes of the
-- data packets that are neither acknowledged nor sent again. counter_ and next_ are never used.
pub record MyQuicVideoSender (S : Type 0) : Type 0 where
  pub sent_packet_manager : S
  pub time_of_last_received_packet : ℕ
  pub seq : ℕ
  pub stop : ℕ
  pub stop_waiting_count : ℕ
  pub largest_acked : ℕ
  pub last_output : ℕ
  pub ref_time : ℕ
  pub enable_log : Bool
  pub f_rate : Option (List (ℤ × ℕ))
  pub source : FakeVideoGenerator
  pub pending_queue : List ℕ
  pub sent_queue : List (ℕ × ℕ)
  pub next_rate_update : ℕ
  pub sent : List (List ℕ)
  pub reads : ℕ

module _ {S D : Type 0} (lib : SendLib S D) (clock : ℕ → ℕ) where
  -- The constructor, then SetVideoSource.
  unfoldable pub new_quic_video_sender : FakeVideoGenerator → MyQuicVideoSender S
  new_quic_video_sender source = record {
    sent_packet_manager = lib.set_pacing lib.new_manager;
    time_of_last_received_packet = clock 0;
    seq = 1;
    stop = 0;
    stop_waiting_count = 0;
    largest_acked = 1;
    last_output = 0;
    ref_time = 0;
    enable_log = false;
    f_rate = none;
    source = source;
    pending_queue = [];
    sent_queue = [];
    next_rate_update = 0;
    sent = [];
    reads = 1;
  }

  -- `buf` of SendFakePacket and OnRetransPacket is kMaxPacketSize zeros behind the header, of which
  -- the header and `len` bytes are sent.
  unfoldable pub video_packet : (seq len : ℕ) → Option (List ℕ)
  video_packet seq len =
      let header = quic_header lib.types lib.wire lib.stream_frame seq in
      if leb (length header + len) lib.k_max_packet_size
      then some (header ++ replicate len 0)
      else none

  -- The datagram of SendPaddingData: QUIC_MAX_VIDEO_SIZE bytes with the header.
  unfoldable pub padding_packet : ℕ → List ℕ
  padding_packet seq =
      let header = quic_header lib.types lib.wire lib.stream_frame seq in
      header ++ replicate (max_video_size - length header) 0

  -- OnPacketSent
  unfoldable pub video_on_packet_sent :
      MyQuicVideoSender S → (number len size : ℕ) → Bool → MyQuicVideoSender S
  video_on_packet_sent s number len size has_data = record s {
    sent_packet_manager = lib.on_packet_sent s.sent_packet_manager (record {
      packet_number = number;
      packet_number_length = len;
      encrypted_length = size;
      retransmittable_frames = if has_data then lib.new_stream_frame ∷ [] else [];
      original_packet_number = 0;
      sent_time = clock s.reads;
      transmission_type = not_retransmission;
      has_retransmittable_data = has_data;
    });
    reads = s.reads + 1;
  }

  -- The packet of SendFakePacket, `len` being the size that was taken from the queue.
  unfoldable pub send_first : MyQuicVideoSender S → ℕ → List ℕ → Option (MyQuicVideoSender S)
  unfolding video_packet video_on_packet_sent
  send_first s len queue = do
    packet ← video_packet s.seq len
    let went : MyQuicVideoSender S = record s { sent = s.sent ++ (packet ∷ []) }
    let told =
        video_on_packet_sent went s.seq (get_min_seq_length lib.types s.seq) (len % 2 ^ 16) true
    some (record told {
      pending_queue = queue;
      sent_queue = insert s.seq len s.sent_queue;
      seq = (s.seq + 1) % 2 ^ 64;
    })

  -- SendFakePacket
  unfoldable pub quic_video_send_fake_packet : MyQuicVideoSender S → Option (MyQuicVideoSender S)
  unfolding send_first
  quic_video_send_fake_packet s = elim s.pending_queue [
    | [] ↦ some s
    | len ∷ queue ↦ send_first s len queue
  ]

  -- SendPaddingData
  unfoldable pub send_padding_data : MyQuicVideoSender S → MyQuicVideoSender S
  unfolding padding_packet video_on_packet_sent
  send_padding_data s =
      let used = 1 + get_min_seq_length lib.types s.seq + 1 in
      let told =
        video_on_packet_sent (record s { sent = s.sent ++ (padding_packet s.seq ∷ []) }) s.seq
          (get_min_seq_length lib.types s.seq) ((max_video_size - used) % 2 ^ 16) false in
      record told { seq = (s.seq + 1) % 2 ^ 64 }

  -- SendDataOrPadding
  unfoldable pub quic_send_data_or_padding : MyQuicVideoSender S → Option (MyQuicVideoSender S)
  unfolding quic_video_send_fake_packet send_padding_data
  quic_send_data_or_padding s = elim s.pending_queue [
    | [] ↦
        some
          (if lib.should_send_probing_packet s.sent_packet_manager then send_padding_data s else s)
    | _ ∷ _ ↦ quic_video_send_fake_packet s
  ]

  -- The packet of OnRetransPacket, `len` being the size that was found in sent_queue_.
  unfoldable pub send_again : MyQuicVideoSender S → Pending D → ℕ → Option (MyQuicVideoSender S)
  unfolding video_packet
  send_again s pending len = do
    packet ← video_packet s.seq len
    some (record s {
      sent = s.sent ++ (packet ∷ []);
      sent_packet_manager = lib.on_packet_sent s.sent_packet_manager (record {
        packet_number = s.seq;
        packet_number_length = get_min_seq_length lib.types s.seq;
        encrypted_length = len % 2 ^ 16;
        retransmittable_frames = pending.retransmittable_frames;
        original_packet_number = pending.packet_number;
        sent_time = clock s.reads;
        transmission_type = loss_retransmission;
        has_retransmittable_data = true;
      });
      sent_queue = insert s.seq len (erase pending.packet_number s.sent_queue);
      seq = (s.seq + 1) % 2 ^ 64;
      reads = s.reads + 1;
    })

  -- OnRetransPacket: a packet that is not in sent_queue_ is not sent, and the manager not told.
  unfoldable pub video_on_retrans_packet :
      MyQuicVideoSender S → Pending D → Option (MyQuicVideoSender S)
  unfolding send_again
  video_on_retrans_packet s pending = elim (find pending.packet_number s.sent_queue) [
    | none ↦ some s
    | some len ↦ send_again s pending len
  ]

  -- SendStopWaitingFrame
  unfoldable pub video_send_stop_waiting_frame : MyQuicVideoSender S → MyQuicVideoSender S
  unfolding stop_waiting_packet
  video_send_stop_waiting_frame s = record s {
    stop_waiting_count = 0;
    sent =
        s.sent
        ++ (stop_waiting_packet lib s.seq (lib.get_least_unacked s.sent_packet_manager) ∷ []);
  }
