-- ===== src/Bbr/App.antt =====
-- What the three applications of quic-test/mybbr share: my_proto.h, and the datagrams that the
-- senders and the receiver exchange.
pub mod Sender
pub mod Video
pub mod Receiver
pub mod Setup
pub mod Delivery
pub mod Losses
pub mod Acks
pub mod Paced
pub mod Safety
pub mod Queue
use stupid_simple.Base.{ℕ, ◌+◌, ◌-◌, ◌%◌, ◌^◌, ◌++◌, List, length, replicate, take}
use stupid_simple.Header.{QuicTypes, Wire, bbr_header, get_min_seq_length}

-- TestProto
abbrev pub test_proto_stream : ℕ
test_proto_stream = 0

abbrev pub test_proto_padding : ℕ
test_proto_padding = 1

abbrev pub test_proto_ack : ℕ
test_proto_ack = 2

-- MaxPacketSize
abbrev pub max_packet_size : ℕ
max_packet_size = 1400

-- The QUIC library's part of a datagram; `k_max_packet_size` is its kMaxPacketSize, and `beyond` is
-- the memory behind the local buffer of a send, which a send longer than the buffer reads.
pub record Net : Type 0 where
  pub types : QuicTypes
  pub wire : Wire
  pub k_max_packet_size : ℕ
  pub beyond : List ℕ

-- The datagram of SendFakePacket (stream) and of SendPaddingPacket (padding).
unfoldable pub fake_packet : Net → ℕ → ℕ → List ℕ
fake_packet net type seq =
    let header = bbr_header net.types net.wire type seq in
    let buf = header ++ replicate (max_packet_size - length header) 0 in
    take net.k_max_packet_size (buf ++ net.beyond)

-- `payload`, what the pacer is told of such a packet.
unfoldable pub payload_of : Net → ℕ → ℕ
payload_of net seq = (max_packet_size - (1 + get_min_seq_length net.types seq)) % 2 ^ 16

-- The datagram of SendAck, which ends behind the header.
unfoldable pub ack_packet : Net → ℕ → List ℕ
ack_packet net packet_number = bbr_header net.types net.wire test_proto_ack packet_number
