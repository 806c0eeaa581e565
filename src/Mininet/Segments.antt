-- ===== src/Mininet/Segments.antt =====
-- About SendVideo and TimeToSendPacket of Sender (mininet-webrtc/sender.cc).
use stupid_simple.Base.{
  ℕ, ◌+◌, ◌/◌, ◌%◌, ◌^◌, ◌≤◌, ◌<◌, ◌≡◌, refl, sym, ap, ◌∙◌, inl, inr, ltb, ◌==◌, true, false,
  Bool-cases, Option-cases, ==_iff, none, some, List, [], ◌∷◌, ◌++◌, length, take, drop,
  take-append-drop, length-drop, length-take, append_assoc, append_nil, sum, All, All-append,
  All-map, find, erase, insert, Above, arith, lt→ltb,
}
use stupid_simple.Frames.{max_split_number, max_video_size, frame_split_lem, copies_agree}
use stupid_simple.Mininet.{Segment, Codec}
use stupid_simple.Mininet.Sender.{
  Sender, emit, make_segment, queue_segments, first_of, timestamp_of, insert_packets, send_video,
}
use stupid_simple.Mininet.Dispatch.{get_segment_t, send_waiting, send_segment, time_to_send_packet}

-- The payloads of waiting segments, one behind the other.
abbrev pub joined : List (ℕ × Segment) → List ℕ
joined [] = []
joined (e ∷ es) = e.1.payload ++ joined es

-- The segments stand under their transport numbers and fit a datagram.
abbrev pub Sound : List (ℕ × Segment) → Type 0
Sound = All (λ (e : ℕ × Segment).
    (e.1.transport_seq ≡ e.0)
    × (length e.1.payload ≡ e.1.data_size)
    × (e.1.data_size ≤ max_video_size))

abbrev pub Below : ℕ → List (ℕ × Segment) → Type 0
Below k = All (λ (e : ℕ × Segment). e.0 < k)

insert_last :
    (k : ℕ) (v : Segment) (m : List (ℕ × Segment)) → Below k m → insert k v m ≡ m ++ ((k, v) ∷ [])
unfolding insert
insert_last k v [] h = refl
insert_last k v ((j, w) ∷ m) h =
    let later : ltb k j ≡ false = ground (arith, h.0) in
    let other : (j == k) ≡ false = ground (arith, h.0) in
    rw later (rw other (ap (◌∷◌ (j, w)) (insert_last k v m h.1)))

Below-insert :
    (k k' : ℕ) (v : Segment) (m : List (ℕ × Segment)) → k < k' → Below k m → Below k' (insert k v m)
Below-insert k k' v m lt h =
    rw (insert_last k v m h) (All-append _ m _ (All-map _ _ m (λ e l. omega arith) h) (lt, tt))

length_zero : (bytes : List ℕ) → length bytes ≡ 0 → bytes ≡ []
length_zero [] e = refl
length_zero (b ∷ bytes) e = absurd (omega arith)

module _ (timestamp ftype payload_type total : ℕ) where
  queue_segments_lem :
      (index : ℕ) (sizes rest : List ℕ) (s : Sender) (lens : List (ℕ × ℕ))
      → sum sizes ≡ length rest
      → All (λ x. x ≤ max_video_size) sizes
      → s.trans_seq + length sizes < 2 ^ 16
      → Below s.trans_seq s.pending_buf
      → (new : List (ℕ × Segment)) × ((queue_segments timestamp ftype payload_type index total sizes
            rest s lens).0.pending_buf
          ≡ s.pending_buf ++ new)
        × (joined new ≡ rest)
        × Sound new
  unfolding queue_segments make_segment sum
  queue_segments_lem index [] rest s lens e small room low =
      ([], sym (append_nil s.pending_buf), sym (length_zero rest (sym e)), tt)
  queue_segments_lem index (size ∷ sizes) rest s lens e small room low =
      let segment = make_segment s timestamp ftype payload_type index total size rest in
      let next : (s.trans_seq + 1) % 2 ^ 16 ≡ s.trans_seq + 1 = omega arith in
      let placed = insert_last s.trans_seq segment s.pending_buf low in
      let s' : Sender = record s {
        packet_seed = (s.packet_seed + 1) % 2 ^ 32;
        trans_seq = (s.trans_seq + 1) % 2 ^ 16;
        pending_buf = insert s.trans_seq segment s.pending_buf;
      } in
      let (new, queued, whole, sound) =
        queue_segments_lem (index + 1) sizes (drop size rest) s' _
          (omega (arith, e, length-drop size rest)) small.1 (omega (arith, next))
          (Below-insert s.trans_seq _ segment s.pending_buf (omega (arith, next)) low) in
      (
        (s.trans_seq, segment) ∷ new,
        queued
            ∙ ap (λ m. m ++ new) placed
            ∙ append_assoc s.pending_buf ((s.trans_seq, segment) ∷ []) new,
        ap (◌++◌ (take size rest)) whole ∙ take-append-drop size rest,
        ((refl, length-take size rest (omega arith), small.0), sound),
      )

-- A running sender that is given a frame of at least one and less than 1024 * 1000 bytes, while
-- its 16-bit transport number has room for the segments and all waiting segments have lower
-- numbers, queues the frame behind them: the payloads of the new segments, in order, are the
-- bytes of the frame, and each segment has at most 1000 of them and stands under its transport
-- number.
pub send_video-queues :
    (s : Sender) (payload_type ftype now : ℕ) (bytes : List ℕ)
    → s.running ≡ true
    → 0 < length bytes
    → length bytes / max_video_size < max_split_number
    → s.trans_seq + (length bytes + 999) / max_video_size < 2 ^ 16
    → Below s.trans_seq s.pending_buf
    → (t : Sender) × (new : List (ℕ × Segment)) × (send_video s payload_type ftype now bytes
        ≡ some t)
      × (t.pending_buf ≡ s.pending_buf ++ new)
      × (joined new ≡ bytes)
      × Sound new
unfolding send_video emit
send_video-queues s payload_type ftype now bytes on some_bytes fits room low =
    let (splits, split, is) = frame_split_lem (length bytes) fits in
    let there : (length bytes == 0) ≡ false = ground arith in
    let short = lt→ltb (length bytes / max_video_size) max_split_number fits in
    let first = first_of s.first_ts now in
    let begun : Sender = record s { first_ts = some first } in
    let (new, queued, whole, sound) =
      queue_segments_lem (timestamp_of now first) ftype payload_type (length splits) 0 splits bytes
        begun [] is.0 is.1 (omega (arith, is.2 some_bytes)) low in
    let out =
      queue_segments (timestamp_of now first) ftype payload_type 0 (length splits) splits bytes
        begun [] in
    (
      emit (record out.0 { frame_seed = (out.0.frame_seed + 1) % 2 ^ 32 })
          (insert_packets now out.1),
      new,
      rw on (rw there (rw short (rw (copies_agree (length bytes) ∙ split) refl))),
      queued,
      whole,
      sound,
    )

-- Keys rise along the map.
abbrev pub Ascending : List (ℕ × Segment) → Type 0
Ascending [] = Unit {0}
Ascending (e ∷ m) = Above e.0 m

find-Above : (k lo : ℕ) (m : List (ℕ × Segment)) → k ≤ lo → Above lo m → find k m ≡ none
unfolding find
find-Above k lo [] h a = refl
find-Above k lo ((j, v) ∷ m) h a =
    let other : (j == k) ≡ false = ground (arith, a.0) in
    rw other (find-Above k j m (omega (arith, a.0)) a.1)

find-erase-Above : (k lo : ℕ) (m : List (ℕ × Segment)) → Above lo m → find k (erase k m) ≡ none
unfolding find erase
find-erase-Above k lo [] a = refl
find-erase-Above k lo ((j, v) ∷ m) a = elim (Bool-cases (j == k)) [
  | inl hit ↦ rw hit (find-Above k j m (omega (arith, (==_iff j k).0 hit)) a.1)
  | inr miss ↦ rw miss (rw miss (find-erase-Above k j m a.1))
]

find-erase : (k : ℕ) (m : List (ℕ × Segment)) → Ascending m → find k (erase k m) ≡ none
unfolding find erase
find-erase k [] a = refl
find-erase k ((j, v) ∷ m) a = elim (Bool-cases (j == k)) [
  | inl hit ↦ rw hit (find-Above k j m (omega (arith, (==_iff j k).0 hit)) a)
  | inr miss ↦ rw miss (rw miss (find-erase-Above k j m a))
]

-- What get_segment_t gives.
segment_gone : (s : Sender) (k : ℕ) → find k s.pending_buf ≡ none → get_segment_t s k ≡ (none, s)
unfolding get_segment_t
segment_gone s k e = simp (e, get_segment_t)

pub segment_waits :
    (s : Sender) (k : ℕ) (segment : Segment)
    → find k s.pending_buf ≡ some segment
    → get_segment_t s k ≡ (some segment, record s { pending_buf = erase k s.pending_buf })
unfolding get_segment_t
segment_waits s k segment e = simp (e, get_segment_t)

nothing_waits :
    (codec : Codec) (s : Sender) (k now : ℕ)
    → find k s.pending_buf ≡ none
    → time_to_send_packet codec s k now ≡ s
unfolding time_to_send_packet send_waiting
nothing_waits codec s k now e = ap (send_waiting codec k now) (segment_gone s k e)

left_behind :
    (codec : Codec) (s : Sender) (k now : ℕ) (segment : Segment)
    → find k s.pending_buf ≡ some segment
    → (time_to_send_packet codec s k now).pending_buf ≡ erase k s.pending_buf
unfolding time_to_send_packet send_waiting send_segment emit
left_behind codec s k now segment e =
    ap (λ got. (send_waiting codec k now got).pending_buf) (segment_waits s k segment e)

-- A segment goes out at most once: where the keys of pending_buf_ rise, a second call of
-- TimeToSendPacket for a transport number changes nothing, whether a segment waited under it or
-- not.
pub time_to_send_packet-once :
    (codec : Codec) (s : Sender) (k now later : ℕ)
    → Ascending s.pending_buf
    → time_to_send_packet codec (time_to_send_packet codec s k now) k later
      ≡ time_to_send_packet codec s k now
time_to_send_packet-once codec s k now later a = elim (Option-cases (find k s.pending_buf)) [
  | inl nothing ↦ nothing_waits codec _ k later (rw (nothing_waits codec s k now nothing) nothing)
  | inr (segment, waits) ↦
      nothing_waits codec _ k later
        (rw (left_behind codec s k now segment waits) (find-erase k s.pending_buf a))
]
