-- ===== src/Header/RoundTrip.antt =====
-- About the header codec of my_quic_header.cc: lengths, flags and reading back.
use stupid_simple.Base.{ℕ, ◌+◌, ◌*◌, ◌/◌, ◌^◌, ◌<◌, ◌≡◌, arith, List, ◌∷◌, ◌++◌}
use Prim.Native.Nat.{bit_and, bit_or}
use mathlib.Core.List.{append_assoc}
use stupid_simple.Base.Bits.{low_nibble, join_nibbles, zero-bit_or}
use stupid_simple.Header.{
  QuicTypes, IsQuicTypes, Wire, IsWire, get_min_seq_length, read_sequence_number_length,
  get_packet_number_flags, public_flags, bbr_header, quic_header, read_byte, read_number,
  read_bbr_header, read_quic_header,
}

-- The length that is sent is one of the four, so its flags say it again.
pub read_length-flags :
    (q : QuicTypes) (packet_number : ℕ)
    → IsQuicTypes q
    → read_sequence_number_length q (get_packet_number_flags q (get_min_seq_length q packet_number))
      ≡ get_min_seq_length q packet_number
unfolding get_min_seq_length read_sequence_number_length get_packet_number_flags
read_length-flags q n v = ground arith

-- A number that fits six bytes fits the length chosen for it, and no shorter length holds it.
pub min_length_fits :
    (q : QuicTypes) (n : ℕ) → n < 2 ^ (q.len_6byte * 8) → n < 2 ^ (get_min_seq_length q n * 8)
unfolding get_min_seq_length
min_length_fits q n h = ground arith

pub flags_nibble : (q : QuicTypes) (len : ℕ) → IsQuicTypes q → get_packet_number_flags q len < 16
unfolding get_packet_number_flags
flags_nibble q len v = ground arith

pub public_flags_shift :
    (q : QuicTypes) (len : ℕ)
    → IsQuicTypes q
    → public_flags q len ≡ get_packet_number_flags q len * 16
unfolding public_flags
public_flags_shift q len v =
    let small = flags_nibble q len v in
    omega (arith, zero-bit_or (get_packet_number_flags q len * 16) (omega arith))

-- The flag byte keeps the length's flags in its high half and the type in its low half.
pub flag_byte :
    (q : QuicTypes) (len type : ℕ)
    → IsQuicTypes q
    → type < 16
    → bit_or (public_flags q len) type ≡ get_packet_number_flags q len * 16 + type
flag_byte q len type v h =
    rw (public_flags_shift q len v) (join_nibbles _ type (flags_nibble q len v) h)

read_seq :
    (q : QuicTypes) (w : Wire) (seq : ℕ) (rest : List ℕ)
    → IsQuicTypes q
    → IsWire w
    → seq < 2 ^ (q.len_6byte * 8)
    → let seq_len = get_min_seq_length q seq in
      read_number w
        (read_sequence_number_length q (get_packet_number_flags q seq_len))
        (w.write_uint seq_len seq ++ rest)
      ≡ (seq, rest)
unfolding read_number
read_seq q w seq rest v x h =
    rw (read_length-flags q seq v)
      (rw (x.reads_back (get_min_seq_length q seq) seq rest (min_length_fits q seq h), read_number))

high_half : (hi lo : ℕ) → lo < 16 → (hi * 16 + lo) / 16 ≡ hi
high_half hi lo h = omega arith

low_half : (hi lo : ℕ) → hi < 16 → lo < 16 → bit_and (hi * 16 + lo) 0x0f ≡ lo
low_half hi lo hh hl = omega (arith, low_nibble (hi * 16 + lo) (omega arith))

-- Where the QUIC library is as IsQuicTypes and IsWire say, a peer of mybbr reads from a packet
-- the type, the number and the bytes behind them that were written, for each type below 16 and
-- each number that fits the six-byte length.
pub read-bbr_header :
    (q : QuicTypes) (w : Wire) (type seq : ℕ) (rest : List ℕ)
    → IsQuicTypes q
    → IsWire w
    → type < 16
    → seq < 2 ^ (q.len_6byte * 8)
    → read_bbr_header q w (bbr_header q w type seq ++ rest) ≡ (type, seq, rest)
unfolding read_bbr_header bbr_header
read-bbr_header q w type seq rest v x ht hs =
    let flags = get_packet_number_flags q (get_min_seq_length q seq) in
    rw (flag_byte q _ type v ht) (
      unfold read_bbr_header read_byte in
      rw (high_half flags type ht)
        (rw (read_seq q w seq rest v x hs) (rw (low_half flags type (flags_nibble q _ v) ht))))

-- Where the QUIC library is as IsQuicTypes and IsWire say, a peer of myquic reads from a packet
-- the frame type, the number and the bytes behind them that were written, for each number that
-- fits the six-byte length.
pub read-quic_header :
    (q : QuicTypes) (w : Wire) (type seq : ℕ) (rest : List ℕ)
    → IsQuicTypes q
    → IsWire w
    → seq < 2 ^ (q.len_6byte * 8)
    → read_quic_header q w (quic_header q w type seq ++ rest) ≡ (type, seq, rest)
unfolding read_quic_header quic_header
read-quic_header q w type seq rest v x hs =
    let flags = get_packet_number_flags q (get_min_seq_length q seq) in
    rw (public_flags_shift q (get_min_seq_length q seq) v) (
      unfold read_quic_header read_byte in
      rw (shifted flags) (rw append_assoc (rw (read_seq q w seq (type ∷ rest) v x hs))))
  where
    shifted : (n : ℕ) → n * 16 / 16 ≡ n
    shifted n = omega arith
