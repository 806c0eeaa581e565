-- ===== src/Quic/Video/Moves.antt =====
-- What the parts of Process of MyQuicVideoSender (my_quic_video_sender.cc) do to its queues.
use stupid_simple.Base.{
  ◌∙◌, ℕ, zero, suc, ◌+◌, ◌-◌, ◌%◌, ◌/◌, ◌^◌, ◌≤◌, ◌<◌, ◌≡◌, refl, inl, inr, ltb, true, false,
  Bool-cases, Option-cases, some, List, [], ◌∷◌, ◌++◌, All, bind_some, find, erase, arith, ltb→lt,
}
use mathlib.Core.Path.{subst, sym, ap}
use stupid_simple.Frames.{get_frame, frame_split, frame_split_lem, max_split_number, max_video_size}
use stupid_simple.Quic.Sending.{
  Pending, Callback, ack_frame_start, ack_range, SendLib, open_datagram,
}
use stupid_simple.Quic.Video.{
  MyQuicVideoSender, video_packet, send_first, send_again, send_padding_data,
  video_on_retrans_packet, video_on_packet_sent,
}
use stupid_simple.Quic.Video.Process.{
  remove_acked_packet, remove_acked_packets, quic_take_frame, video_on_ack_range, video_on_callback,
  video_on_callbacks, video_on_incoming_data, video_post_process_after_ack_frame,
  video_on_ack_frame_start,
}
use stupid_simple.Quic.Video.Source.{IsSource, get_frame-IsSource}
use stupid_simple.Quic.Video.Queues.{
  Queues, Step, Steps, IsSmall, Steps-IsSmall, insert-last, All-erase, frame, data_packet, padding,
  sent_again, heard, drop_range, drop_callback, drop_found, here, next,
}

module _ {S D : Type 0} {lib : SendLib S D} {clock : ℕ → ℕ} where
  pub one : {v w : Queues} → Step lib clock v w → Steps lib clock v w
  one s = next here s

with_queues :
    {m n : ℕ} {p q : List ℕ} {f g : List (ℕ × ℕ)} {o l : List (List ℕ)}
    → m ≡ n
    → p ≡ q
    → f ≡ g
    → ◌≡◌ {A = Queues}
        (record { seq = m; pending = p; flying = f; out = o; inbox = l })
        (record { seq = n; pending = q; flying = g; out = o; inbox = l })
with_queues {o = o} {l = l} a b c =
    λ i. record { seq = a i; pending = b i; flying = c i; out = o; inbox = l }

module _ {S : Type 0} where
  -- The queues of the sender, with the datagrams that are still to come.
  abbrev pub queues : List (List ℕ) → MyQuicVideoSender S → Queues
  queues inbox s = record {
    seq = s.seq;
    pending = s.pending_queue;
    flying = s.sent_queue;
    out = s.sent;
    inbox = inbox;
  }

  abbrev pub Small : MyQuicVideoSender S → Type 0
  Small s = IsSmall s.seq s.pending_queue s.sent_queue

  -- The packets on their way are `m`, and the other queues, what was sent and the generator are as
  -- before.
  abbrev Left : List (ℕ × ℕ) → (s t : MyQuicVideoSender S) → Type 0
  Left m s t =
      ((l : List (List ℕ)) → queues l t ≡ record (queues l s) { flying = m })
      × (t.source ≡ s.source)

  removed-Left :
      (n i : ℕ) (s : MyQuicVideoSender S)
      → Left (drop_range n i s.sent_queue) s (remove_acked_packets n i s)
  unfolding remove_acked_packets remove_acked_packet drop_range
  removed-Left zero i s = ((λ l. refl), refl)
  removed-Left (suc n) i s = removed-Left n (i + 1) (remove_acked_packet s i)

module _ {S D : Type 0} (lib : SendLib S D) (clock : ℕ → ℕ) where
  -- The queues move as Queues says, at most `k` numbers are used, and the generator stays in its
  -- bounds.
  abbrev pub Moves :
      (before after : List (List ℕ)) → ℕ → MyQuicVideoSender S → MyQuicVideoSender S → Type 0
  Moves before after k s t =
      Steps lib clock (queues before s) (queues after t)
      × (t.seq ≤ s.seq + k)
      × (IsSource s.source → IsSource t.source)

module _ {S D : Type 0} {lib : SendLib S D} {clock : ℕ → ℕ} {before after : List (List ℕ)} where
  pub stays :
      (k : ℕ) (s x t : MyQuicVideoSender S)
      → some x ≡ some t
      → Moves lib clock before after k s x
      → Moves lib clock before after k s t
  stays k s x t e m = let same : x ≡ t = cc in subst (Moves lib clock before after k s) same m

  pub Moves-IsSmall :
      (k : ℕ) (s t : MyQuicVideoSender S) → Moves lib clock before after k s t → Small s → Small t
  Moves-IsSmall k s t m i = Steps-IsSmall (m.0) i

module _ {S D : Type 0} (lib : SendLib S D) (clock : ℕ → ℕ) where
  callback-Left :
      (s : MyQuicVideoSender S) (c : Callback)
      → Left (drop_callback c s.sent_queue) s (video_on_callback lib clock s c)
  unfolding video_on_callback video_on_ack_frame_start video_on_ack_range
      video_post_process_after_ack_frame drop_callback
  callback-Left s (ack_frame_start largest delay) = ((λ l. refl), refl)
  callback-Left s (ack_range start end true) = removed-Left (end - start) start _
  callback-Left s (ack_range start end false) = removed-Left (end - start) start _

  callbacks-Left :
      (s : MyQuicVideoSender S) (calls : List Callback)
      → Left (drop_found calls s.sent_queue) s (video_on_callbacks lib clock s calls)
  unfolding video_on_callbacks drop_found
  callbacks-Left s [] = ((λ l. refl), refl)
  callbacks-Left s (c ∷ calls) =
      let (first, source) = callback-Left s c in
      let (rest, source') = callbacks-Left (video_on_callback lib clock s c) calls in
      (
        (λ l.
            rest l
            ∙ ap (λ (v : Queues). record v { flying = drop_found calls v.flying }) (first l)),
        source' ∙ source,
      )

module _ {S D : Type 0} (lib : SendLib S D) (clock : ℕ → ℕ) (l : List (List ℕ)) where
  pub frame-Moves :
      (s t : MyQuicVideoSender S) (now : ℕ)
      → quic_take_frame s now ≡ some t
      → Moves lib clock l l 0 s t
  unfolding quic_take_frame
  frame-Moves s t now e =
      let (frame_len, source) = get_frame s.source now in
      elim (Bool-cases (ltb 0 frame_len)) [
        | inr empty ↦
            stays 0 s (record s { source = source }) t (rw empty at e)
              (here, omega arith, get_frame-IsSource s.source now)
        | inl some_frame ↦ elim (Bool-cases (ltb (frame_len / max_video_size) max_split_number)) [
          | inr failed ↦ absurd (cc (rw (some_frame, failed) at e))
          | inl fits ↦
              let (splits, split, done) =
                bind_some (frame_split frame_len) _ t (rw (some_frame, fits) at e) in
              let (parts, found, sizes) =
                frame_split_lem frame_len
                  (ltb→lt (frame_len / max_video_size) max_split_number fits) in
              let same : parts ≡ splits = cc in
              let small = subst (All (λ x. x ≤ max_video_size)) same sizes.1 in
              stays 0 s (record s { source = source; pending_queue = s.pending_queue ++ splits }) t
                done
                (
                  one (frame frame_len splits split small refl),
                  omega arith,
                  get_frame-IsSource s.source now,
                )
        ]
      ]

  pub incoming-Moves :
      (s t : MyQuicVideoSender S) (bytes : List ℕ)
      → video_on_incoming_data lib clock s bytes ≡ some t
      → Moves lib clock (bytes ∷ l) l 0 s t
  unfolding video_on_incoming_data
  incoming-Moves s t bytes e =
      let now = clock s.reads in
      let timed : MyQuicVideoSender S = record s {
        time_of_last_received_packet = now;
        reads = s.reads + 1;
      } in
      let (rest, opened, done) = bind_some (open_datagram lib bytes) _ t e in
      let calls = lib.process_frame_data now rest in
      let (left, source) = callbacks-Left lib clock timed calls in
      let number = ap (λ (v : Queues). v.seq) (left l) in
      stays 0 s (video_on_callbacks lib clock timed calls) t done (
        one (heard bytes rest l now refl opened (left l)),
        omega (arith, number),
        λ ok. subst IsSource (sym source) ok,
      )

  pub first-Moves :
      (s t : MyQuicVideoSender S) (len : ℕ) (queue : List ℕ)
      → s.pending_queue ≡ len ∷ queue
      → s.seq + 1 < 2 ^ 64
      → Small s
      → send_first lib clock s len queue ≡ some t
      → Moves lib clock l l 1 s t
  unfolding send_first video_on_packet_sent
  first-Moves s t len queue waits room i e =
      let (packet, fits, done) = bind_some (video_packet lib clock s.seq len) _ t e in
      let same : (s.seq + 1) % 2 ^ 64 ≡ s.seq + 1 = omega arith in
      stays 1 s _ t done (
        one (
            data_packet len queue packet waits fits
              (with_queues same refl (insert-last s.seq len s.sent_queue i.flying_small))),
        omega (arith, same),
        λ ok. ok,
      )

  pub padding-Moves :
      (s : MyQuicVideoSender S)
      → s.pending_queue ≡ []
      → s.seq + 1 < 2 ^ 64
      → Moves lib clock l l 1 s (send_padding_data lib clock s)
  unfolding send_padding_data video_on_packet_sent
  padding-Moves s nothing room =
      let same : (s.seq + 1) % 2 ^ 64 ≡ s.seq + 1 = omega arith in
      (one (padding nothing (with_queues same refl refl)), omega (arith, same), λ ok. ok)

  again-Moves :
      (s t : MyQuicVideoSender S) (pending : Pending D) (len : ℕ)
      → find pending.packet_number s.sent_queue ≡ some len
      → s.seq + 1 < 2 ^ 64
      → Small s
      → send_again lib clock s pending len ≡ some t
      → Moves lib clock l l 1 s t
  unfolding send_again
  again-Moves s t pending len known room i e =
      let (packet, fits, done) = bind_some (video_packet lib clock s.seq len) _ t e in
      let same : (s.seq + 1) % 2 ^ 64 ≡ s.seq + 1 = omega arith in
      let left = erase pending.packet_number s.sent_queue in
      let below = All-erase _ pending.packet_number s.sent_queue i.flying_small in
      stays 1 s _ t done (
        one (
            sent_again pending.packet_number len packet known fits
              (with_queues same refl (insert-last s.seq len left below))),
        omega (arith, same),
        λ ok. ok,
      )

  pub retrans-Moves :
      (s t : MyQuicVideoSender S) (pending : Pending D)
      → s.seq + 1 < 2 ^ 64
      → Small s
      → video_on_retrans_packet lib clock s pending ≡ some t
      → Moves lib clock l l 1 s t
  unfolding video_on_retrans_packet
  retrans-Moves s t pending room i e =
      elim (Option-cases (find pending.packet_number s.sent_queue)) [
        | inl unknown ↦
            stays 1 s s t (rw (unknown, video_on_retrans_packet) at e) (here, omega arith, λ ok. ok)
        | inr (len, known) ↦
            again-Moves s t pending len known room i (rw (known, video_on_retrans_packet) at e)
      ]
