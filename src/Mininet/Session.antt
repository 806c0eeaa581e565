-- ===== src/Mininet/Session.antt =====
-- About calls of Process of Receiver (mininet-webrtc/receiver.cc) and its controller.
use stupid_simple.Base.{
  ℕ, ◌+◌, ◌%◌, ◌^◌, ◌≡◌, refl, ltb, leb, ◌==◌, ◌&&◌, ◌||◌, not, Bool, Bool-cases, Option-cases, inl,
  inr, true, false, if◌then◌else◌, Option, none, some, List, [], ◌∷◌, ◌++◌, length, ◌>>=◌, arith,
}
use stupid_simple.Base.Int.{ℤ, pos, sub_ℕ, ltb_ℤ, pos_part, neg_part}
use stupid_simple.Mininet.{
  Segment, Pad, Codec, Effect, ping, pong, to_network, rtt_update, received_packet,
  register_controller, min_msg_id, max_msg_id, sim_ping, sim_pong, sim_seg, sim_pad,
  sim_segment_header_size,
}
use stupid_simple.Mininet.Rtt.{receiver_update_rtt}
use stupid_simple.Mininet.Receiver.{
  Receiver, new_mininet_receiver, emit_all, configure_congestion, on_received_packet,
  on_recv_segment, update_receiver_rtt, on_receiver_pong, on_recv_pad, receiver_send_ping,
  receiver_processing_msg, process_datagram,
}

unfoldable pub registrations : List Effect → ℕ
registrations [] = 0
registrations (register_controller ∷ es) = registrations es + 1
registrations (_ ∷ es) = registrations es

registrations-append :
    (es fs : List Effect) → registrations (es ++ fs) ≡ registrations es + registrations fs
unfolding registrations
registrations-append [] fs = omega arith
registrations-append (register_controller ∷ es) fs = omega (arith, registrations-append es fs)
registrations-append (_ ∷ es) fs = registrations-append es fs

-- The controller was registered once if there is one, and never otherwise.
abbrev pub Registered : Receiver → Type 0
Registered r = registrations r.out ≡ (if r.receive_side_cc then 1 else 0)

-- A call that registers nothing.
emit_all-Registered :
    (r : Receiver) (es : List Effect)
    → registrations es ≡ 0
    → Registered r
    → Registered (emit_all r es)
unfolding emit_all
emit_all-Registered r es quiet h = omega (arith, registrations-append r.out es, quiet, h)

configured :
    (r : Receiver)
    → Registered r
    → Registered (configure_congestion r) × ((configure_congestion r).receive_side_cc ≡ true)
unfolding configure_congestion emit_all registrations
configured r h = elim (Bool-cases r.receive_side_cc) [
  | inl there ↦ rw there (rw there at h, refl)
  | inr fresh ↦
      rw fresh
        (omega (arith, registrations-append r.out (register_controller ∷ []), rw fresh at h), refl)
]

received_total :
    (r : Receiver) (now overhead ssrc seq : ℕ)
    → Registered r
    → r.receive_side_cc ≡ true
    → (t : Receiver) × (on_received_packet r now overhead ssrc seq ≡ some t) × Registered t
unfolding on_received_packet registrations
received_total r now overhead ssrc seq h there =
    let es = received_packet now overhead ssrc seq ∷ [] in
    (emit_all r es, simp there, emit_all-Registered r es refl h)

-- An operation that does not fault and leaves the registration in order.
abbrev pub Ends : Option Receiver → Type 0
Ends o = (t : Receiver) × (o ≡ some t) × Registered t

ends : (t : Receiver) → Registered t → Ends (some t)
ends t h = (t, refl, h)

Ends-if : (b : Bool) (o p : Option Receiver) → Ends o → Ends p → Ends (if b then o else p)
Ends-if true o p h k = h
Ends-if false o p h k = k

Registered-if :
    (b : Bool) (r s : Receiver) → Registered r → Registered s → Registered (if b then r else s)
Registered-if true r s h k = h
Registered-if false r s h k = k

segment-Ends :
    (r : Receiver) (now uid : ℕ) (segment : Segment)
    → Registered r
    → Ends (on_recv_segment r now uid segment)
unfolding on_recv_segment
segment-Ends r now uid segment h =
    let (h', there) = configured r h in
    let (t, e, k) =
      received_total (configure_congestion r) (now % 2 ^ 32)
        (segment.data_size + sim_segment_header_size) uid segment.transport_seq h' there in
    let stopped : Receiver = record t {
      first_packet = false;
      stop_ts = (now % 2 ^ 32 + t.duration) % 2 ^ 32;
    } in
    ((if t.first_packet then stopped else t), rw e refl, Registered-if t.first_packet stopped t k k)

rtt-Registered : (r : Receiver) (time : ℕ) → Registered r → Registered (update_receiver_rtt r time)
unfolding update_receiver_rtt registrations
rtt-Registered r time h =
    let updated : Receiver = record r { rtt_state = (receiver_update_rtt r.rtt_state time).0 } in
    Registered-if r.receive_side_cc _ updated
      (emit_all-Registered updated
        (rtt_update (receiver_update_rtt r.rtt_state time).1.0
            (receiver_update_rtt r.rtt_state time).1.1
          ∷ [])
        refl h)
      h

pong-Registered :
    (r : Receiver) (now : ℕ) (ts : ℤ) → Registered r → Registered (on_receiver_pong r now ts)
unfolding on_receiver_pong
pong-Registered r now ts h =
    let rtt = sub_ℕ (now + neg_part ts) (pos_part ts) in
    Registered-if (ltb_ℤ (pos 0) rtt) (update_receiver_rtt r (pos_part rtt % 2 ^ 32)) r
      (rtt-Registered r (pos_part rtt % 2 ^ 32) h) h

module _ (codec : Codec) where
  pad-Ends :
      (r : Receiver) (now uid : ℕ) (body : Pad)
      → Registered r
      → Ends (on_recv_pad codec r now uid body)
  unfolding on_recv_pad
  pad-Ends r now uid body h =
      let (h', there) = configured r h in
      received_total (configure_congestion r) (now % 2 ^ 32) _ uid body.pad_seq h' there

  network-Registered :
      (r : Receiver) (peer : ℕ) (bytes : List ℕ)
      → Registered r
      → Registered (emit_all r (to_network peer bytes ∷ []))
  unfolding registrations
  network-Registered r peer bytes h = emit_all-Registered r (to_network peer bytes ∷ []) refl h

  segment_or-Ends :
      (r : Receiver) (now uid : ℕ) (segment : Option Segment)
      → Registered r
      → Ends (elim segment [ none ↦ some r | some s ↦ on_recv_segment r now uid s ])
  segment_or-Ends r now uid none h = ends r h
  segment_or-Ends r now uid (some s) h = segment-Ends r now uid s h

  pad_or-Ends :
      (r : Receiver) (now uid : ℕ) (body : Option Pad)
      → Registered r
      → Ends (elim body [ none ↦ some r | some b ↦ on_recv_pad codec r now uid b ])
  pad_or-Ends r now uid none h = ends r h
  pad_or-Ends r now uid (some b) h = pad-Ends r now uid b h

  msg-Ends :
      (r : Receiver) (now : ℕ) (stream : List ℕ)
      → Registered r
      → Ends (receiver_processing_msg codec r now stream)
  unfolding receiver_processing_msg
  msg-Ends r now stream h = elim (Option-cases (codec.decode_header stream)) [
    | inl bad ↦ rw (bad, receiver_processing_msg) (ends r h)
    | inr (header, good) ↦
        let connected : Receiver = record r { session_connected = true } in
        let answer = codec.encode r.uid (pong (codec.decode_ts stream)) in
        let answered = emit_all connected (to_network r.dst answer ∷ []) in
        let timed = on_receiver_pong connected now (codec.decode_ts stream) in
        rw (good, receiver_processing_msg)
          (Ends-if (ltb header.0 min_msg_id || ltb max_msg_id header.0) (some r) _ (ends r h) (
            Ends-if (header.0 == sim_ping) (some answered) _
              (ends answered (network-Registered connected r.dst answer h))
              (Ends-if (header.0 == sim_pong) (some timed) _
                (ends timed (pong-Registered connected now (codec.decode_ts stream) h))
                (Ends-if (header.0 == sim_seg) _ _
                  (segment_or-Ends connected now header.1 (codec.decode_segment stream) h)
                  (Ends-if (header.0 == sim_pad) _ _
                    (pad_or-Ends connected now header.1 (codec.decode_pad stream) h)
                    (ends connected h))))))
  ]

  process-Ends :
      (r : Receiver) (now remote : ℕ) (datagram : List ℕ)
      → Registered r
      → Ends (process_datagram codec r now remote datagram)
  unfolding process_datagram receiver_send_ping
  process-Ends r now remote datagram h =
      let now32 = now % 2 ^ 32 in
      let delta = if r.rtt_state.rtt == 0 then 100 else r.rtt_state.rtt in
      let due = r.session_connected && ltb_ℤ (pos delta) (sub_ℕ now32 r.update_ping_ts) in
      let sent : Receiver = record r { update_ping_ts = now32 } in
      let bytes = codec.encode r.uid (ping (pos now32)) in
      let pinging = emit_all sent (to_network r.dst bytes ∷ []) in
      let pinged = if due then pinging else r in
      let pinged-Registered =
        Registered-if due pinging r (network-Registered sent r.dst bytes h) h in
      let opened : Receiver = record pinged { session_connected = true; dst = remote } in
      let known = if pinged.session_connected then pinged else opened in
      let known-Registered =
        Registered-if pinged.session_connected pinged opened pinged-Registered pinged-Registered in
      Ends-if (not r.running) (some r) _ (ends r h) (
        Ends-if (leb (length datagram) 0) (some pinged) _ (ends pinged pinged-Registered)
          (msg-Ends known now datagram known-Registered))

  -- Process at each time, with the sender of the datagram and the datagram.
  unfoldable pub run_receiver : Receiver → List (ℕ × ℕ × List ℕ) → Option Receiver
  run_receiver r [] = some r
  run_receiver r (e ∷ es) = process_datagram codec r e.0 e.1 e.2 >>= λ t. run_receiver t es

  run_from-Ends :
      (r : Receiver) (es : List (ℕ × ℕ × List ℕ)) → Registered r → Ends (run_receiver r es)
  unfolding run_receiver
  run_from-Ends r [] h = ends r h
  run_from-Ends r (e ∷ es) h =
      let (t, step, k) = process-Ends r e.0 e.1 e.2 h in
      let (u, rest, l) = run_from-Ends t es k in (u, rw step rest, l)

  -- From a new receiver, any sequence of calls of Process, at any times and with any datagrams,
  -- never calls through the null receive_side_cc_; the controller was registered once if it was
  -- made, and not at all otherwise.
  pub run_receiver-Ends :
      (delta : ℕ) (es : List (ℕ × ℕ × List ℕ)) → Ends (run_receiver (new_mininet_receiver delta) es)
  unfolding new_mininet_receiver registrations
  run_receiver-Ends delta es = run_from-Ends (new_mininet_receiver delta) es refl
