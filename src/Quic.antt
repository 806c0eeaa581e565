-- ===== src/Quic.antt =====
-- quic-test/myquic: what its receiver takes from the QUIC library and from my_quic_framer.cc.
pub mod Receiver
pub mod Steps
pub mod AckTimer
pub mod Sending
pub mod Sender
pub mod Video
pub mod Setup
pub mod Retransmission
pub mod Delivery
pub mod Delays
pub mod Answers
pub mod Protocol
pub mod Faults
use stupid_simple.Base.{ℕ, Bool, List}
use stupid_simple.Header.{QuicTypes, Wire}

-- `R` is a QuicReceivedPacketManager and `A` a QuicAckFrame. `append_ack_frame frame approx room`
-- is what AppendAckFrameAndTypeByte writes into `room` bytes.
pub record QuicLib (R : Type 0) (A : Type 0) : Type 0 where
  pub types : QuicTypes
  pub wire : Wire
  pub stream_frame : ℕ
  pub stop_waiting_frame : ℕ
  pub k_max_packet_size : ℕ
  pub new_manager : R
  pub record_packet_received : R → (packet_number now : ℕ) → R
  pub ack_frame_updated : R → Bool
  pub dont_wait_for_packets_before : R → ℕ → R
  pub get_updated_ack_frame : R → (approx : ℕ) → A × R
  pub append_ack_frame : A → (approx room : ℕ) → List ℕ
