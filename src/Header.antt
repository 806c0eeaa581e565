-- ===== src/Header.antt =====
-- quic-test/myquic/my_quic_header.{h,cc}: the length of a packet number on the wire, and the flag
-- byte and number at the front of each packet, as the senders and receivers write and read them.
-- The enumerators of quic_types.h, QuicDataWriter and QuicDataReader are parameters.
pub mod RoundTrip
use Prim.Native.Nat.{bit_and, bit_or}
use stupid_simple.Base.{
  ℕ, ◌+◌, ◌*◌, ◌/◌, ◌%◌, ◌^◌, ◌<◌, ◌≡◌, ◌≢◌, ltb, ◌==◌, if◌then◌else◌, Option, none, some, List, [],
  ◌∷◌, ◌++◌, length,
}

-- QuicPacketNumberLength and the packet number flags of net/quic/core/quic_types.h.
pub record QuicTypes : Type 0 where
  pub len_1byte : ℕ
  pub len_2byte : ℕ
  pub len_4byte : ℕ
  pub len_6byte : ℕ
  pub len_8byte : ℕ
  pub flags_1byte : ℕ
  pub flags_2byte : ℕ
  pub flags_4byte : ℕ
  pub flags_8byte : ℕ

-- Enumerators of one switch are distinct, and the flags are bits of a nibble under the 8-byte mask.
pub record IsQuicTypes (q : QuicTypes) : Type 0 where
  pub len_1_2 : q.len_1byte < q.len_2byte
  pub len_2_4 : q.len_2byte < q.len_4byte
  pub len_4_6 : q.len_4byte < q.len_6byte
  pub len_6_8 : q.len_6byte < q.len_8byte
  pub mask_1 : bit_and q.flags_1byte q.flags_8byte ≡ q.flags_1byte
  pub mask_2 : bit_and q.flags_2byte q.flags_8byte ≡ q.flags_2byte
  pub mask_4 : bit_and q.flags_4byte q.flags_8byte ≡ q.flags_4byte
  pub mask_8 : bit_and q.flags_8byte q.flags_8byte ≡ q.flags_8byte
  pub flags_1_2 : q.flags_1byte < q.flags_2byte
  pub flags_2_4 : q.flags_2byte < q.flags_4byte
  pub flags_4_8 : q.flags_4byte < q.flags_8byte
  pub nibble : q.flags_8byte < 16

-- WriteBytesToUInt64 and ReadBytesToUInt64 in network byte order. A read that lacks bytes fails.
pub record Wire : Type 0 where
  pub write_uint : ℕ → ℕ → List ℕ
  pub read_uint : ℕ → List ℕ → Option (ℕ × List ℕ)

-- What is written is read back, on the stated number of bytes.
pub record IsWire (w : Wire) : Type 0 where
  pub length_written : (n v : ℕ) → length (w.write_uint n v) ≡ n
  pub reads_back :
      (n v : ℕ) (rest : List ℕ)
      → v < 2 ^ (n * 8)
      → w.read_uint n (w.write_uint n v ++ rest) ≡ some (v, rest)

-- GetMinSeqLength
unfoldable pub get_min_seq_length : QuicTypes → ℕ → ℕ
get_min_seq_length q packet_number =
    if ltb packet_number (2 ^ (q.len_1byte * 8))
    then q.len_1byte
    else if ltb packet_number (2 ^ (q.len_2byte * 8))
    then q.len_2byte
    else if ltb packet_number (2 ^ (q.len_4byte * 8))
    then q.len_4byte
    else q.len_6byte

-- ReadSequenceNumberLength
unfoldable pub read_sequence_number_length : QuicTypes → ℕ → ℕ
read_sequence_number_length q flags =
    let masked = bit_and flags q.flags_8byte in
    if masked == q.flags_8byte
    then q.len_6byte
    else if masked == q.flags_4byte
    then q.len_4byte
    else if masked == q.flags_2byte
    then q.len_2byte
    else if masked == q.flags_1byte
    then q.len_1byte
    else q.len_6byte

-- GetPacketNumberFlags
pub get_packet_number_flags : QuicTypes → ℕ → ℕ
get_packet_number_flags q seq_len =
    if seq_len == q.len_1byte
    then q.flags_1byte
    else if seq_len == q.len_2byte
    then q.flags_2byte
    else if seq_len == q.len_4byte
    then q.flags_4byte
    else if seq_len == q.len_6byte
    then q.flags_8byte
    else if seq_len == q.len_8byte
    then q.flags_8byte
    else q.flags_8byte

-- `public_flags |= GetPacketNumberFlags(header.seq_len) << kPublicHeaderSequenceNumberShift`
unfoldable pub public_flags : QuicTypes → ℕ → ℕ
public_flags q seq_len = bit_or 0 (get_packet_number_flags q seq_len * 16) % 256

-- The front of a packet of mybbr: the type shares the flag byte, the number follows.
unfoldable pub bbr_header : QuicTypes → Wire → ℕ → ℕ → List ℕ
bbr_header q w type seq =
    let seq_len = get_min_seq_length q seq in
    bit_or (public_flags q seq_len) type ∷ w.write_uint seq_len seq

-- The front of a packet of myquic: the flag byte, the number, then the frame type.
unfoldable pub quic_header : QuicTypes → Wire → ℕ → ℕ → List ℕ
quic_header q w type seq =
    let seq_len = get_min_seq_length q seq in
    (public_flags q seq_len ∷ w.write_uint seq_len seq) ++ (type ∷ [])

-- `reader.ReadBytes(&flag, 1)` on a variable that is 0 before.
unfoldable pub read_byte : List ℕ → ℕ × List ℕ
read_byte [] = (0, [])
read_byte (b ∷ rest) = (b, rest)

-- `reader.ReadBytesToUInt64(n, &value)` on a variable that is 0 before: a read that fails leaves
-- it, and the reader has nothing left.
unfoldable pub read_number : Wire → ℕ → List ℕ → ℕ × List ℕ
read_number w n bytes = elim (w.read_uint n bytes) [ none ↦ (0, []) | some r ↦ r ]

-- What a reader of mybbr takes from a packet: its type, its number, and the rest.
pub read_bbr_header : QuicTypes → Wire → List ℕ → ℕ × ℕ × List ℕ
unfolding read_byte read_number
read_bbr_header q w bytes =
    let (flags, body) = read_byte bytes in
    let (seq, rest) = read_number w (read_sequence_number_length q (flags / 16)) body in
    (bit_and flags 0x0f, seq, rest)

-- The same for myquic.
pub read_quic_header : QuicTypes → Wire → List ℕ → ℕ × ℕ × List ℕ
unfolding read_byte read_number
read_quic_header q w bytes =
    let (flags, body) = read_byte bytes in
    let (seq, after_seq) = read_number w (read_sequence_number_length q (flags / 16)) body in
    let (type, rest) = read_byte after_seq in (type, seq, rest)
