-- ===== src/Bbr/Session/Bytes.antt =====
-- About the datagrams of sessions of MyBbrSenderApp and MyBbrReceiverApp: lengths and bytes.
use mathlib.Core.Path.{subst}
use stupid_simple.Base.{
  replicate, ℕ, zero, suc, ◌+◌, ◌-◌, ◌^◌, ◌≤◌, ◌<◌, sym, Bool, List, [], ◌∷◌, ◌++◌, length, All,
  All-append, All-map, take, arith,
}
use stupid_simple.Header.{bbr_header, get_min_seq_length}
use stupid_simple.Header.RoundTrip.{flag_byte, flags_nibble}
use stupid_simple.Bbr.Env.{BbrEnv}
use stupid_simple.Bbr.App.{
  Net, fake_packet, ack_packet, test_proto_stream, test_proto_ack, max_packet_size,
}
use stupid_simple.Bbr.App.Delivery.{IsNet, length-header}
use stupid_simple.Bbr.Session.{Session, Reached, new_session, payloads}
use stupid_simple.Bbr.Session.Receiving.{IsAck, IsData}
use stupid_simple.Bbr.Session.Safety.{Reached-InStep, new_session-InStep}

abbrev pub IsByte : ℕ → Type 0
IsByte b = b < 256

-- A datagram that fits `most` bytes.
abbrev pub IsDatagram : ℕ → List ℕ → Type 0
IsDatagram most bytes = All IsByte bytes × (length bytes ≤ most)

-- QuicDataWriter writes bytes, and bytes lie in memory.
pub record IsByteNet (net : Net) : Type 0 where
  pub written : (n v : ℕ) → All IsByte (net.wire.write_uint n v)
  pub memory : All IsByte net.beyond

All-take {ℓ κ} : {A : Type ℓ} (P : A → Type κ) (n : ℕ) (xs : List A) → All P xs → All P (take n xs)
All-take P zero xs h = tt
All-take P (suc n) [] h = tt
All-take P (suc n) (x ∷ xs) h = (h.0, All-take P n xs h.1)

All-replicate {ℓ κ} : {A : Type ℓ} (P : A → Type κ) (n : ℕ) (a : A) → P a → All P (replicate n a)
All-replicate P zero a h = tt
All-replicate P (suc n) a h = (h, All-replicate P n a h)

take_le {ℓ} : {A : Type ℓ} (n : ℕ) (xs : List A) → length (take n xs) ≤ n
take_le zero xs = omega arith
take_le (suc n) [] = omega arith
take_le (suc n) (x ∷ xs) = omega (arith, take_le n xs)

module _ (net : Net) (ok : IsNet net) (bytes : IsByteNet net) where
  header-IsByte : (type seq : ℕ) → type < 16 → All IsByte (bbr_header net.types net.wire type seq)
  unfolding bbr_header
  header-IsByte type seq small =
      let len = get_min_seq_length net.types seq in
      (
        rw (flag_byte net.types len type ok.types small)
            (omega (arith, flags_nibble net.types len ok.types)),
        bytes.written len seq,
      )

  data_packet-IsDatagram :
      (seq : ℕ) → IsDatagram net.k_max_packet_size (fake_packet net test_proto_stream seq)
  unfolding fake_packet
  data_packet-IsDatagram seq =
      let header = bbr_header net.types net.wire test_proto_stream seq in
      let zeros = replicate (max_packet_size - length header) 0 in
      (
        All-take IsByte net.k_max_packet_size ((header ++ zeros) ++ net.beyond) (
            All-append IsByte (header ++ zeros) net.beyond
              (All-append IsByte header zeros (header-IsByte test_proto_stream seq (omega arith))
                (All-replicate IsByte (max_packet_size - length header) 0 (omega arith)))
              bytes.memory),
        take_le net.k_max_packet_size ((header ++ zeros) ++ net.beyond),
      )

  ack_packet-IsDatagram : (seq : ℕ) → IsDatagram 7 (ack_packet net seq)
  unfolding ack_packet
  ack_packet-IsDatagram seq =
      (header-IsByte test_proto_ack seq (omega arith), length-header net test_proto_ack seq ok)

  module _ {F : Type 0} (env : BbrEnv F) (clock : ℕ → ℕ) (min_bps start_bps max_bps ms : ℕ)
      (loss rate : Bool) where
    -- Wherever calls of Process of MyBbrSenderApp and MyBbrReceiverApp lead from the start,
    -- in any order and over a network that loses, repeats and reorders their datagrams, every
    -- datagram of the sender is at most kMaxPacketSize bytes and every one of the receiver at
    -- most 7, and each number in them is below 256. The QUIC library is as IsNet says,
    -- QuicDataWriter and the memory behind the sender's buffer give bytes, and the sender was
    -- called at positive times and fewer than 2^32 - 1 times.
    pub session_sends_bytes :
        (n : ℕ) (x : Session F)
        → n + 1 < 2 ^ 32
        → Reached env clock net (new_session env min_bps start_bps max_bps ms loss rate) n x
        → All (IsDatagram net.k_max_packet_size) x.sender.sent
          × All (IsDatagram 7) (payloads x.receiver.sent)
    session_sends_bytes n x room reached =
        let h =
          Reached-InStep env clock net _ x n ok room
            (new_session-InStep env clock net min_bps start_bps max_bps ms loss rate) reached in
        (
          All-map (IsData net x.sender.seq) (IsDatagram net.k_max_packet_size) x.sender.sent
              (λ d a.
                subst (IsDatagram net.k_max_packet_size) (sym a.3) (data_packet-IsDatagram a.0))
              h.ahead.data_sent,
          All-map (IsAck net x.receiver.base_seq) (IsDatagram 7) (payloads x.receiver.sent)
              (λ d a. subst (IsDatagram 7) (sym a.2) (ack_packet-IsDatagram a.0)) h.behind.acks,
        )
