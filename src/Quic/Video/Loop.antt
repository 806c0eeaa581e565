-- ===== src/Quic/Video/Loop.antt =====
-- About the loop of SendRetransmission of MyQuicVideoSender (my_quic_video_sender.cc).
use stupid_simple.Base.{
  ℕ, zero, suc, ◌+◌, ◌^◌, ◌≤◌, ◌<◌, ◌≡◌, ◌≢◌, ◌∙◌, sym, ap, refl, inl, inr, ◌==◌, false, Bool-cases,
  some, List, [], ◌∷◌, ◌++◌, length, All, find, erase, arith, if◌then◌else◌, bind_some, true, none,
}
use mathlib.Core.Path.{subst}
use stupid_simple.Frames.{max_video_size}
use stupid_simple.Quic.Sending.{Pending, SendLib}
use stupid_simple.Quic.Retransmission.{IsPending}
use stupid_simple.Quic.Video.{MyQuicVideoSender, video_packet, send_again, video_on_retrans_packet}
use stupid_simple.Quic.Video.Process.{video_retransmission_loop, video_retransmission_rounds}
use stupid_simple.Quic.Video.Rounds.{loop_next}
use stupid_simple.Quic.Video.Queues.{insert-last, All-erase, All-find}
use stupid_simple.Quic.Video.Moves.{Small, Moves-IsSmall, retrans-Moves}
use stupid_simple.Quic.Video.Safety.{IsSendLib, packet_total}

abbrev pub InQueue : List (ℕ × ℕ) → ℕ → Type 0
InQueue flying p = (len : ℕ) × (find p flying ≡ some len)

-- The packets are different ones, and all are in the queue.
abbrev pub AllInQueue : List (ℕ × ℕ) → List ℕ → Type 0
AllInQueue flying [] = Unit {0}
AllInQueue flying (p ∷ rest) = InQueue flying p × All (λ q. q ≢ p) rest × AllInQueue flying rest

find-erase_ne : (p q : ℕ) (m : List (ℕ × ℕ)) → q ≢ p → find q (erase p m) ≡ find q m
unfolding find erase
find-erase_ne p q [] ne = refl
find-erase_ne p q ((j, v) ∷ m) ne = elim (Bool-cases (j == p)) [
  | inl hit ↦ let other : (j == q) ≡ false = ground (arith, hit, ne) in rw hit (rw other refl)
  | inr miss ↦ rw miss (ap (λ o. if j == q then some v else o) (find-erase_ne p q m ne))
]

find-append : (q len : ℕ) (m n : List (ℕ × ℕ)) → find q m ≡ some len → find q (m ++ n) ≡ some len
unfolding find
find-append q len [] n e = absurd (cc)
find-append q len ((j, v) ∷ m) n e = elim (Bool-cases (j == q)) [
  | inl hit ↦ rw hit (rw hit at e)
  | inr miss ↦ rw miss (find-append q len m n (rw miss at e))
]

-- The others stay in the queue when one goes out again under a new number.
others_stay :
    (p seq len : ℕ) (flying : List (ℕ × ℕ)) (rest : List ℕ)
    → All (λ q. q ≢ p) rest
    → AllInQueue flying rest
    → AllInQueue (erase p flying ++ ((seq, len) ∷ [])) rest
others_stay p seq len flying [] ne all = tt
others_stay p seq len flying (q ∷ rest) ne all =
    let (size, found) = all.0 in
    (
      (
        size,
        find-append q size (erase p flying) ((seq, len) ∷ [])
            (find-erase_ne p q flying ne.0 ∙ found),
      ),
      all.1,
      others_stay p seq len flying rest ne.1 all.2,
    )

module _ {S D : Type 0} (lib : SendLib S D) (clock : ℕ → ℕ) where
  module _ (pending : S → List ℕ) (law : IsPending lib pending) (known : IsSendLib lib) where
    again_keeps :
        (s t : MyQuicVideoSender S) (p : Pending D) (len : ℕ) (rest : List ℕ)
        → pending s.sent_packet_manager ≡ p.packet_number ∷ rest
        → All (λ q. q ≢ p.packet_number) rest
        → AllInQueue s.sent_queue rest
        → Small s
        → send_again lib clock s p len ≡ some t
        → (pending t.sent_packet_manager ≡ rest) × AllInQueue t.sent_queue rest
    unfolding send_again
    again_keeps s t p len rest offered ne all i e =
        let (packet, fits, done) = bind_some (video_packet lib clock s.seq len) _ t e in
        let left = erase p.packet_number s.sent_queue in
        let last =
          insert-last s.seq len left (All-erase _ p.packet_number s.sent_queue i.flying_small) in
        moved _ t done (
          law.resent s.sent_packet_manager _ rest refl offered,
          rw last (others_stay p.packet_number s.seq len s.sent_queue rest ne all),
        )
      where
        moved :
            (x t : MyQuicVideoSender S)
            → some x ≡ some t
            → (pending x.sent_packet_manager ≡ rest) × AllInQueue x.sent_queue rest
            → (pending t.sent_packet_manager ≡ rest) × AllInQueue t.sent_queue rest
        moved x t e h = let same : x ≡ t = cc in rw (← same) h

    again_total :
        (s : MyQuicVideoSender S) (p : Pending D) (len : ℕ)
        → len ≤ max_video_size
        → (t : MyQuicVideoSender S) × (send_again lib clock s p len ≡ some t)
    unfolding send_again
    again_total s p len small =
        let (packet, fits) = packet_total lib known clock s.seq len small in rw fits (_, refl)

    -- SendRetransmission of MyQuicVideoSender ends, with a round for each packet that the
    -- manager wants sent again and one more, where those packets are different ones that all
    -- stand in sent_queue_, sizes and numbers there are as Process keeps them, new numbers do
    -- not reach 2^64, and the QUIC library is as IsPending and IsSendLib say.
    pub video_loop_ends :
        (fuel now : ℕ) (s : MyQuicVideoSender S)
        → length (pending s.sent_packet_manager) < fuel
        → s.seq + length (pending s.sent_packet_manager) < 2 ^ 64
        → Small s
        → AllInQueue s.sent_queue (pending s.sent_packet_manager)
        → (t : MyQuicVideoSender S) × (video_retransmission_loop lib clock fuel now s ≡ some t)
    video_loop_ends zero now s enough room i all = absurd (omega arith)
    video_loop_ends (suc fuel) now s enough room i all =
        let (delay, manager) = lib.time_until_send s.sent_packet_manager now in
        let asked : MyQuicVideoSender S = record s { sent_packet_manager = manager } in
        let p = lib.next_pending_retransmission manager in
        rw (loop_next lib clock fuel now s) (elim (Bool-cases (delay == 0)) [
          | inr early ↦ rw early (_, refl)
          | inl allowed ↦ elim (Bool-cases (lib.has_pending_retransmissions manager)) [
            | inr over ↦ rw allowed (rw over (_, refl))
            | inl more ↦
                let (rest, offered) = law.offers manager more in
                let before = sym (law.asks s.sent_packet_manager now) ∙ offered in
                let (here, ne, others) = subst (AllInQueue s.sent_queue) before all in
                let (len, found) = here in
                let small = All-find _ p.packet_number len s.sent_queue i.flying_small found in
                let (t, sent) = again_total asked p len small.1.1 in
                let (after, stay) = again_keeps asked t p len rest offered ne others i sent in
                let told : video_on_retrans_packet lib clock asked p ≡ some t =
                  unfold video_on_retrans_packet in rw (found, video_on_retrans_packet) sent in
                let count = ap length before in
                let moves =
                  retrans-Moves lib clock [] asked t p (omega (arith, room, count)) i told in
                let less = ap length after in
                rw allowed (
                  rw more (
                    rw told (
                      video_loop_ends fuel now t (omega (arith, enough, count, less))
                        (omega (arith, room, count, less, moves.1))
                        (Moves-IsSmall 1 asked t moves i)
                        (subst (AllInQueue t.sent_queue) (sym after) stay))))
          ]
        ])

  -- Where the pacer allows sending, the manager is not changed by being asked, and the packet
  -- that it offers first is not in sent_queue_, the loop of SendRetransmission of
  -- MyQuicVideoSender is, after any number of rounds, still running, without a fault and in the
  -- state in which it began.
  pub video_loop_spins :
      (fuel now : ℕ) (s : MyQuicVideoSender S)
      → lib.time_until_send s.sent_packet_manager now ≡ (0, s.sent_packet_manager)
      → lib.has_pending_retransmissions s.sent_packet_manager ≡ true
      → find (lib.next_pending_retransmission s.sent_packet_manager).packet_number s.sent_queue
        ≡ none
      → video_retransmission_rounds lib clock fuel now s ≡ some (true, s)
  unfolding video_retransmission_rounds video_on_retrans_packet
  video_loop_spins zero now s free more unknown = refl
  video_loop_spins (suc fuel) now s free more unknown =
      let p = lib.next_pending_retransmission s.sent_packet_manager in
      let skipped : video_on_retrans_packet lib clock s p ≡ some s =
        rw (unknown, video_on_retrans_packet) refl in
      rw free (rw more (rw skipped (video_loop_spins fuel now s free more unknown)))
