-- ===== src/Quic/Video/Safety.antt =====
-- About Process of MyQuicVideoSender (my_quic_video_sender.cc), its buffers and its assert.
use stupid_simple.Base.{
  ℕ, zero, suc, ◌+◌, ◌/◌, ◌≤◌, ◌≡◌, refl, ◌⊎◌, inl, inr, ltb, leb, ◌==◌, true, false, if◌then◌else◌,
  Bool-cases, some, List, [], ◌∷◌, length, take, All, arith, le→leb, length-append, lt→ltb,
  length-take_le,
}
use stupid_simple.Header.{
  IsQuicTypes, IsWire, get_min_seq_length, quic_header, read_sequence_number_length,
}
use stupid_simple.Frames.{get_frame, frame_split_lem, max_split_number, max_video_size}
use stupid_simple.Quic.Receiver.{first_byte}
use stupid_simple.Quic.Sending.{SendLib, open_datagram}
use stupid_simple.Quic.Video.{
  MyQuicVideoSender, video_packet, send_first, quic_video_send_fake_packet,
  quic_send_data_or_padding,
}
use stupid_simple.Quic.Video.Process.{
  quic_take_frame, video_on_incoming_data, video_send_if_allowed, video_front,
}
use stupid_simple.Quic.Video.Moves.{Small, Moves-IsSmall, frame-Moves}
use stupid_simple.Quic.Video.Source.{IsSource, frame_fits}

-- What the senders rely on of the QUIC library: a number takes at most six bytes, and a packet has
-- room for a frame's part and its header.
pub record IsSendLib {S D : Type 0} (lib : SendLib S D) : Type 0 where
  pub types : IsQuicTypes lib.types
  pub wire : IsWire lib.wire
  pub six : lib.types.len_6byte ≡ 6
  pub long : 1008 ≤ lib.k_max_packet_size

length-take_cases :
    (n : ℕ) (xs : List ℕ) → (length xs ≤ length (take n xs)) ⊎ (n ≤ length (take n xs))
length-take_cases zero xs = inr (omega arith)
length-take_cases (suc n) [] = inl (omega arith)
length-take_cases (suc n) (x ∷ xs) = omega (arith, length-take_cases n xs)

module _ {S D : Type 0} (lib : SendLib S D) (known : IsSendLib lib) where
  pub min_length_bound : (seq : ℕ) → get_min_seq_length lib.types seq ≤ 6
  unfolding get_min_seq_length
  min_length_bound seq =
      ground (arith, known.six, known.types.len_1_2, known.types.len_2_4, known.types.len_4_6)

  read_length_bound : (flags : ℕ) → read_sequence_number_length lib.types flags ≤ 6
  unfolding read_sequence_number_length
  read_length_bound flags =
      ground (arith, known.six, known.types.len_1_2, known.types.len_2_4, known.types.len_4_6)

  pub length-quic_header : (type seq : ℕ) → length (quic_header lib.types lib.wire type seq) ≤ 8
  unfolding quic_header
  length-quic_header type seq =
      let seq_len = get_min_seq_length lib.types seq in
      omega (
        arith,
        length-append (lib.wire.write_uint seq_len seq) (type ∷ []),
        known.wire.length_written seq_len seq,
        min_length_bound seq,
      )

  -- A datagram of the peer that fits the buffer and does not end in its header is opened.
  pub opens :
      (datagram : List ℕ)
      → 7 ≤ length datagram
      → length datagram ≤ lib.k_max_packet_size
      → (rest : List ℕ) × (open_datagram lib (take 1500 datagram) ≡ some rest)
  unfolding open_datagram
  opens datagram long fits =
      let bytes = take 1500 datagram in
      let flags = first_byte bytes / 16 in
      let whole = length-take_cases 1500 datagram in
      let short : leb (length bytes) lib.k_max_packet_size ≡ true =
        le→leb (length bytes) lib.k_max_packet_size
          (omega (arith, length-take_le 1500 datagram, fits)) in
      let behind : leb (1 + read_sequence_number_length lib.types flags) (length bytes) ≡ true =
        le→leb (1 + read_sequence_number_length lib.types flags) (length bytes)
          (omega (arith, read_length_bound flags, whole, long)) in
      rw short (rw behind (_, refl))

  module _ (clock : ℕ → ℕ) where
    pub packet_total :
        (seq len : ℕ)
        → len ≤ max_video_size
        → (packet : List ℕ) × (video_packet lib clock seq len ≡ some packet)
    unfolding video_packet
    packet_total seq len small =
        let header = quic_header lib.types lib.wire lib.stream_frame seq in
        let fits : leb (length header + len) lib.k_max_packet_size ≡ true =
          le→leb (length header + len) lib.k_max_packet_size
            (omega (arith, length-quic_header lib.stream_frame seq, known.long, small)) in
        rw fits (_, refl)

    frame_total :
        (s : MyQuicVideoSender S) (now : ℕ)
        → IsSource s.source
        → (t : MyQuicVideoSender S) × (quic_take_frame s now ≡ some t)
    unfolding quic_take_frame
    frame_total s now ok = elim (Bool-cases (ltb 0 (get_frame s.source now).0)) [
      | inr empty ↦ rw empty (_, refl)
      | inl some_frame ↦
          let fits = frame_fits s.source now ok in
          let (splits, found, sizes) = frame_split_lem (get_frame s.source now).0 fits in
          let passes = lt→ltb ((get_frame s.source now).0 / max_video_size) max_split_number fits in
          rw some_frame (rw passes (rw found (_, refl)))
    ]

    queue_total :
        (s : MyQuicVideoSender S) (queue : List ℕ)
        → s.pending_queue ≡ queue
        → All (λ x. x ≤ max_video_size) queue
        → (t : MyQuicVideoSender S) × (quic_send_data_or_padding lib clock s ≡ some t)
    unfolding quic_send_data_or_padding quic_video_send_fake_packet send_first
    queue_total s [] q small = rw (q, quic_send_data_or_padding) (_, refl)
    queue_total s (len ∷ queue) q small =
        let (packet, fits) = packet_total s.seq len small.0 in
        rw (q, quic_send_data_or_padding) (rw (q, quic_video_send_fake_packet) (rw fits (_, refl)))

    send_total :
        (s : MyQuicVideoSender S) (now : ℕ)
        → Small s
        → (t : MyQuicVideoSender S) × (video_send_if_allowed lib clock s now ≡ some t)
    unfolding video_send_if_allowed
    send_total s now i =
        let (delay, manager) = lib.time_until_send s.sent_packet_manager now in
        let asked : MyQuicVideoSender S = record s { sent_packet_manager = manager } in
        elim (Bool-cases (delay == 0)) [
          | inl allowed ↦ rw allowed (queue_total asked s.pending_queue refl i.pending_small)
          | inr early ↦ rw early (_, refl)
        ]

    datagram_total :
        (s : MyQuicVideoSender S) (datagram : List ℕ)
        → (length datagram ≡ 0)
          ⊎ ((7 ≤ length datagram) × (length datagram ≤ lib.k_max_packet_size))
        → (t : MyQuicVideoSender S) × ((if leb (length datagram) 0
              then some s
              else video_on_incoming_data lib clock s (take 1500 datagram))
            ≡ some t)
    unfolding video_on_incoming_data
    datagram_total s datagram (inl none_came) =
        let empty : leb (length datagram) 0 ≡ true = le→leb (length datagram) 0 (omega arith) in
        rw empty (_, refl)
    datagram_total s datagram (inr sized) =
        let full : leb (length datagram) 0 ≡ false = ground (arith, sized.0) in
        let (rest, opened) = opens datagram sized.0 sized.1 in rw full (rw opened (_, refl))

    pub front_total :
        (s : MyQuicVideoSender S) (datagram : List ℕ)
        → Small s
        → IsSource s.source
        → (length datagram ≡ 0)
          ⊎ ((7 ≤ length datagram) × (length datagram ≤ lib.k_max_packet_size))
        → (t : MyQuicVideoSender S) × (video_front lib clock s datagram ≡ some t)
    unfolding video_front
    front_total s datagram i ok sized =
        let now = clock s.reads in
        let ticked : MyQuicVideoSender S = record s { reads = s.reads + 1 } in
        let (framed, e1) = frame_total ticked now ok in
        let small =
          Moves-IsSmall 0 ticked framed (frame-Moves lib clock [] ticked framed now e1) i in
        let (went, e2) = send_total framed now small in
        let (received, e3) = datagram_total went datagram sized in rw e1 (rw e2 (rw e3 (_, refl)))
