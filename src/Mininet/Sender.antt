-- ===== src/Mininet/Sender.antt =====
-- Sender (mininet-webrtc/sender.{h,cc}). The lock around pending_buf_ is held for each whole
-- operation on it, so the model runs one call at a time. A fault, `none`, is a failed assert or a
-- split past the end of the array.
use stupid_simple.Base.{
  ℕ, ◌+◌, ◌-◌, ◌/◌, ◌%◌, ◌^◌, ltb, ◌==◌, not, ◌||◌, Bool, true, false, if◌then◌else◌, Option, none,
  some, List, [], ◌∷◌, ◌++◌, length, take, drop, insert, ◌>>=◌,
}
use stupid_simple.Frames.{sim_frame_split, max_split_number, max_video_size}
use stupid_simple.Mininet.{
  Segment, Effect, insert_packet, start_encoder, stop_encoder, sim_segment_header_size,
}
use stupid_simple.Mininet.Rtt.{RttState, no_rtt}

abbrev pub k_initial_bitrate_bps : ℕ
k_initial_bitrate_bps = 500000

-- `out` are the calls made outside, in order; `encoder` says whether there is one.
pub record Sender : Type 0 where
  pub running : Bool
  pub dst : ℕ
  pub pending_buf : List (ℕ × Segment)
  pub frame_seed : ℕ
  pub packet_seed : ℕ
  pub trans_seq : ℕ
  pub first_ts : Option ℕ
  pub uid : ℕ
  pub rtt_state : RttState
  pub update_ping_ts : ℕ
  pub encoder : Bool
  pub out : List Effect

-- The constructor, then SetPeer and SetEncoder.
unfoldable pub new_mininet_sender : ℕ → Bool → Sender
new_mininet_sender peer encoder = record {
  running = false;
  dst = peer;
  pending_buf = [];
  frame_seed = 1;
  packet_seed = 1;
  trans_seq = 1;
  first_ts = none;
  uid = 1234;
  rtt_state = no_rtt;
  update_ping_ts = 0;
  encoder = encoder;
  out = [];
}

unfoldable pub emit : Sender → List Effect → Sender
emit s es = record s { out = s.out ++ es }

-- Start and Stop
unfoldable pub start : Sender → Sender
unfolding emit
start s =
    let on = record s { running = true } in
    if s.encoder then emit on (start_encoder k_initial_bitrate_bps ∷ []) else on

unfoldable pub stop : Sender → Sender
unfolding emit
stop s =
    let off = record s { running = false } in
    if s.encoder then emit off (stop_encoder ∷ []) else off

-- One round of the first loop of SendVideo: the `index`-th segment of a frame.
unfoldable pub make_segment :
    Sender → (timestamp ftype payload_type index total size : ℕ) → List ℕ → Segment
make_segment s timestamp ftype payload_type index total size rest = record {
  packet_id = s.packet_seed;
  fid = s.frame_seed;
  timestamp = timestamp;
  index = index;
  total = total;
  ftype = ftype;
  payload_type = payload_type;
  remb = 1;
  send_ts = 0;
  transport_seq = s.trans_seq;
  data_size = size;
  payload = take size rest;
}

-- The first loop of SendVideo: what it leaves of the sender, and seq_len_map.
unfoldable pub queue_segments :
    (timestamp ftype payload_type index total : ℕ)
    → List ℕ
    → List ℕ
    → Sender
    → List (ℕ × ℕ)
    → Sender × List (ℕ × ℕ)
unfolding make_segment
queue_segments timestamp ftype payload_type index total [] rest s lens = (s, lens)
queue_segments timestamp ftype payload_type index total (size ∷ sizes) rest s lens =
    let segment = make_segment s timestamp ftype payload_type index total size rest in
    queue_segments timestamp ftype payload_type (index + 1) total sizes (drop size rest)
      (record s {
        packet_seed = (s.packet_seed + 1) % 2 ^ 32;
        trans_seq = (s.trans_seq + 1) % 2 ^ 16;
        pending_buf = insert s.trans_seq segment s.pending_buf;
      })
      (insert s.trans_seq ((size + sim_segment_header_size) % 2 ^ 16) lens)

-- first_ts_ after SendVideo has looked at it, and the frame's timestamp.
abbrev pub first_of : Option ℕ → ℕ → ℕ
first_of none now = now
first_of (some t) now = t

unfoldable pub timestamp_of : ℕ → ℕ → ℕ
timestamp_of now first = (now + 2 ^ 32 - first % 2 ^ 32) % 2 ^ 32

-- The second loop of SendVideo, in the order of the map.
abbrev pub insert_packets : ℕ → List (ℕ × ℕ) → List Effect
insert_packets now [] = []
insert_packets now (e ∷ lens) = insert_packet e.0 now e.1 ∷ insert_packets now lens

-- SendVideo, at the time `now`, of `bytes`.
unfoldable pub send_video : Sender → (payload_type ftype now : ℕ) → List ℕ → Option Sender
unfolding queue_segments emit timestamp_of
send_video s payload_type ftype now bytes =
    if not s.running || (length bytes == 0)
    then some s
    else if not (ltb (length bytes / max_video_size) max_split_number)
    then none
    else (sim_frame_split (length bytes) >>= λ splits.
        let first = first_of s.first_ts now in
        let (queued, lens) =
          queue_segments (timestamp_of now first) ftype payload_type 0 (length splits) splits bytes
            (record s { first_ts = some first }) [] in
        some (
          emit (record queued { frame_seed = (queued.frame_seed + 1) % 2 ^ 32 })
            (insert_packets now lens)))
