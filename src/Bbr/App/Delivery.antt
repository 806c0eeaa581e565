-- ===== src/Bbr/App/Delivery.antt =====
-- The datagrams between the applications: what a peer makes of them.
use stupid_simple.Base.{
  ℕ, ◌+◌, ◌-◌, ◌%◌, ◌^◌, ◌≤◌, ◌<◌, ◌≡◌, ◌⊎◌, inl, inr, refl, ap, ◌∙◌, leb, true, false, some, ◌>>=◌,
  List, [], ◌++◌, length, take, take_append, take_all, append_nil, append_assoc, replicate, arith,
}
use stupid_simple.Header.{IsQuicTypes, IsWire, bbr_header, get_min_seq_length, read_bbr_header}
use stupid_simple.Header.RoundTrip.{read-bbr_header}
use stupid_simple.Bbr.Env.{BbrEnv}
use stupid_simple.Bbr.Pacing.{on_congestion_event}
use stupid_simple.Bbr.App.{
  Net, test_proto_stream, test_proto_padding, test_proto_ack, max_packet_size, fake_packet,
  ack_packet,
}
use stupid_simple.Bbr.App.Sender.{MyBbrSenderApp, process_ack_frame, receive}
use stupid_simple.Bbr.App.Receiver.{MyBbrReceiverApp, on_data_packet, on_incoming_data}

-- What the applications rely on of the QUIC library: a number takes at most six bytes where it is
-- below 2^48, and a packet is longer than its header.
pub record IsNet (net : Net) : Type 0 where
  pub types : IsQuicTypes net.types
  pub wire : IsWire net.wire
  pub six : net.types.len_6byte ≡ 6
  pub long : 7 ≤ net.k_max_packet_size

min_seq_length_bound : (net : Net) (seq : ℕ) → IsNet net → get_min_seq_length net.types seq ≤ 6
unfolding get_min_seq_length
min_seq_length_bound net seq h =
    ground (arith, h.six, h.types.len_1_2, h.types.len_2_4, h.types.len_4_6)

pub length-header :
    (net : Net) (type seq : ℕ) → IsNet net → length (bbr_header net.types net.wire type seq) ≤ 7
unfolding bbr_header
length-header net type seq h = omega (
  arith,
  h.wire.length_written (get_min_seq_length net.types seq) seq,
  min_seq_length_bound net seq h,
)

read_header :
    (net : Net) (type seq : ℕ) (rest : List ℕ)
    → IsNet net
    → type < 16
    → seq < 2 ^ 48
    → read_bbr_header net.types net.wire (bbr_header net.types net.wire type seq ++ rest)
      ≡ (type, seq, rest)
read_header net type seq rest h ht hs =
    read-bbr_header net.types net.wire type seq rest h.types h.wire ht (rw (h.six) hs)

-- A data packet is its header and more bytes.
pub fake_packet_front :
    (net : Net) (type seq : ℕ)
    → IsNet net
    → (rest : List ℕ) × (fake_packet net type seq ≡ bbr_header net.types net.wire type seq ++ rest)
unfolding fake_packet
fake_packet_front net type seq h =
    let header = bbr_header net.types net.wire type seq in
    let zeros = replicate (max_packet_size - length header) 0 in
    let short : length header ≤ net.k_max_packet_size =
      omega (arith, length-header net type seq h, h.long) in
    (
      take (net.k_max_packet_size - length header) (zeros ++ net.beyond),
      ap (take net.k_max_packet_size) (append_assoc header zeros net.beyond)
          ∙ take_append net.k_max_packet_size header (zeros ++ net.beyond) short,
    )

-- The first 1500 bytes of such a packet, which RecvFrom keeps, still begin with its header.
received_front :
    (net : Net) (type seq : ℕ)
    → IsNet net
    → (rest : List ℕ) × (take 1500 (fake_packet net type seq)
        ≡ bbr_header net.types net.wire type seq ++ rest)
received_front net type seq h =
    let (rest, e) = fake_packet_front net type seq h in
    let header = bbr_header net.types net.wire type seq in
    (
      take (1500 - length header) rest,
      ap (take 1500) e ∙ take_append 1500 header rest (omega (arith, length-header net type seq h)),
    )

pub starts : (net : Net) (type seq : ℕ) → 0 < length (bbr_header net.types net.wire type seq)
unfolding bbr_header
starts net type seq = omega arith

incoming :
    (clock : ℕ → ℕ) (net : Net) (r : MyBbrReceiverApp) (type seq : ℕ) (bytes rest : List ℕ)
    → (type ≡ test_proto_stream) ⊎ (type ≡ test_proto_padding)
    → read_bbr_header net.types net.wire bytes ≡ (type, seq, rest)
    → on_incoming_data clock net r bytes
      ≡ on_data_packet clock net
          (record r { recv_byte = (r.recv_byte + length bytes) % 2 ^ 64 })
          seq
unfolding on_incoming_data
incoming clock net r type seq bytes rest (inl t) e = rw e (rw t refl)
incoming clock net r type seq bytes rest (inr t) e = rw e (rw t refl)

receive_ack :
    {F : Type 0} (env : BbrEnv F) (net : Net) (s : MyBbrSenderApp F) (now seq : ℕ)
    (bytes rest : List ℕ)
    → 0 < length bytes
    → length bytes ≤ max_packet_size
    → read_bbr_header net.types net.wire bytes ≡ (test_proto_ack, seq, rest)
    → receive env net s now bytes
      ≡ (on_congestion_event env s.pacing now seq >>= λ pacing. some (record s { pacing = pacing }))
unfolding receive process_ack_frame
receive_ack env net s now seq bytes rest some_bytes short e =
    let fits : leb (length bytes) max_packet_size ≡ true = ground arith in
    let there : leb (length bytes) 0 ≡ false = ground arith in
    rw there (rw (take_all 1500 bytes (omega arith)) (rw fits (rw e refl)))

-- Where the QUIC library is as IsNet says, an acknowledgement of a packet number below 2^48 that
-- the sender application gets makes its pacer deal with the acknowledgement of that number.
pub ack-reaches_sender :
    {F : Type 0} (env : BbrEnv F) (net : Net) (s : MyBbrSenderApp F) (now seq : ℕ)
    → IsNet net
    → seq < 2 ^ 48
    → receive env net s now (ack_packet net seq)
      ≡ (on_congestion_event env s.pacing now seq >>= λ pacing. some (record s { pacing = pacing }))
unfolding ack_packet
ack-reaches_sender env net s now seq h hs =
    let header = bbr_header net.types net.wire test_proto_ack seq in
    let whole = read_header net test_proto_ack seq [] h (omega arith) hs in
    receive_ack env net s now seq header [] (starts net test_proto_ack seq)
      (omega (arith, length-header net test_proto_ack seq h)) (rw (append_nil header) at whole)

-- Where the QUIC library is as IsNet says, a stream or padding packet with a number below 2^48
-- that the receiver application gets is counted and makes it deal with that number, whatever of
-- the memory behind the packet was sent along.
pub packet-reaches_receiver :
    (clock : ℕ → ℕ) (net : Net) (r : MyBbrReceiverApp) (type seq : ℕ)
    → IsNet net
    → (type ≡ test_proto_stream) ⊎ (type ≡ test_proto_padding)
    → seq < 2 ^ 48
    → on_incoming_data clock net r (take 1500 (fake_packet net type seq))
      ≡ on_data_packet clock net
          (record r {
            recv_byte = (r.recv_byte + length (take 1500 (fake_packet net type seq))) % 2 ^ 64;
          })
          seq
packet-reaches_receiver clock net r type seq h ht hs =
    let (rest, e) = received_front net type seq h in
    let small : type < 16 = omega (arith, ht) in
    incoming clock net r type seq _ rest ht (rw e (read_header net type seq rest h small hs))
