-- ===== src/Quic/Sending.antt =====
-- What MyQuicSender and MyQuicVideoSender share: the QUIC library's sent packet manager, the calls
-- that the framer makes of its visitor, and the packets that both write.
use stupid_simple.Base.{
  ℕ, ◌+◌, ◌-◌, ◌/◌, ◌%◌, ◌^◌, leb, Bool, if◌then◌else◌, Option, none, some, List, ◌++◌, length,
  drop, replicate,
}
use stupid_simple.Header.{
  QuicTypes, Wire, quic_header, get_min_seq_length, read_sequence_number_length,
}
use stupid_simple.Quic.Receiver.{first_byte}

-- QuicPendingRetransmission; `D` is a QuicFrame.
pub record Pending (D : Type 0) : Type 0 where
  pub packet_number : ℕ
  pub retransmittable_frames : List D

-- TransmissionType, as far as it is used.
pub data TransmissionType : Type 0 where
  not_retransmission loss_retransmission : TransmissionType

-- The arguments of QuicSentPacketManager::OnPacketSent, with the SerializedPacket written out.
pub record SentPacket (D : Type 0) : Type 0 where
  pub packet_number : ℕ
  pub packet_number_length : ℕ
  pub encrypted_length : ℕ
  pub retransmittable_frames : List D
  pub original_packet_number : ℕ
  pub sent_time : ℕ
  pub transmission_type : TransmissionType
  pub has_retransmittable_data : Bool

-- What the framer calls of its visitor that is overridden; OnAckFrame only returns false. The
-- last one's `end` is exclusive.
pub data Callback : Type 0 where
  ack_frame_start : (largest_acked ack_delay_time : ℕ) → Callback
  ack_range : (start end : ℕ) → (last_range : Bool) → Callback

-- `S` is a QuicSentPacketManager. `process_frame_data approx bytes` are the calls that
-- MyQuicFramer::ProcessFrameData makes of the visitor.
pub record SendLib (S : Type 0) (D : Type 0) : Type 0 where
  pub types : QuicTypes
  pub wire : Wire
  pub stream_frame : ℕ
  pub stop_waiting_frame : ℕ
  pub k_max_packet_size : ℕ
  pub new_manager : S
  pub new_stream_frame : D
  pub set_pacing : S → S
  pub time_until_send : S → (now : ℕ) → ℕ × S
  pub has_pending_retransmissions : S → Bool
  pub next_pending_retransmission : S → Pending D
  pub on_packet_sent : S → SentPacket D → S
  pub on_ack_frame_start : S → (largest_acked ack_delay_time now : ℕ) → S
  pub on_ack_range : S → (start end : ℕ) → S
  pub on_ack_frame_end : S → (now : ℕ) → Bool × S
  pub get_least_unacked : S → ℕ
  pub bandwidth_kbps : S → ℕ
  pub should_send_probing_packet : S → Bool
  pub process_frame_data : (approx : ℕ) → List ℕ → List Callback

module _ {S D : Type 0} (lib : SendLib S D) where
  -- The bytes that the framer gets of a datagram. It is copied into a buffer of kMaxPacketSize, and
  -- `none` says that it does not fit, or ends in its header, when `remain` wraps around and the
  -- framer is told to read far past the buffer.
  unfoldable pub open_datagram : List ℕ → Option (List ℕ)
  open_datagram bytes =
      let header_len = 1 + read_sequence_number_length lib.types (first_byte bytes / 16) in
      if leb (length bytes) lib.k_max_packet_size
      then (if leb header_len (length bytes) then some (drop header_len bytes) else none)
      else none

  -- The datagram of SendFakePacket and of OnRetransPacket of MyQuicSender: the header, the
  -- milliseconds of the clock in 32 bits, and zeros.
  unfoldable pub timed_packet : (seq now : ℕ) → List ℕ
  timed_packet seq now =
      let written =
        quic_header lib.types lib.wire lib.stream_frame seq
        ++ lib.wire.write_uint 4 (now / 1000 % 2 ^ 32) in
      written ++ replicate (lib.k_max_packet_size - length written) 0

  -- `payload` of such a packet.
  unfoldable pub timed_payload : ℕ → ℕ
  timed_payload seq = (lib.k_max_packet_size - (1 + get_min_seq_length lib.types seq + 1)) % 2 ^ 16

  -- The datagram of SendStopWaitingFrame: the number is written on the bytes of the packet's.
  unfoldable pub stop_waiting_packet : (seq unack_seq : ℕ) → List ℕ
  stop_waiting_packet seq unack_seq =
      quic_header lib.types lib.wire lib.stop_waiting_frame seq
      ++ lib.wire.write_uint (get_min_seq_length lib.types seq) unack_seq
