-- ===== src/Quic/Video/Rounds.antt =====
-- The rounds of the loop of SendRetransmission of MyQuicVideoSender (my_quic_video_sender.cc).
use stupid_simple.Base.{
  ℕ, suc, ◌≡◌, refl, inl, inr, ◌==◌, ◌&&◌, Bool-cases, if◌then◌else◌, Option, none, some, ◌>>=◌,
}
use stupid_simple.Quic.Sending.{SendLib}
use stupid_simple.Quic.Video.{MyQuicVideoSender, video_on_retrans_packet}
use stupid_simple.Quic.Video.Process.{video_retransmission_rounds, video_retransmission_loop}

bind_bind :
    {A B C : Type 0} (o : Option A) (f : A → Option B) (g : B → Option C)
    → ((o >>= f) >>= g) ≡ (o >>= λ a. f a >>= g)
bind_bind none f g = refl
bind_bind (some a) f g = refl

module _ {S D : Type 0} (lib : SendLib S D) (clock : ℕ → ℕ) where
  -- What one round makes of the loop.
  pub loop_next :
      (fuel now : ℕ) (s : MyQuicVideoSender S)
      → let manager = (lib.time_until_send s.sent_packet_manager now).1 in
        let asked : MyQuicVideoSender S = record s { sent_packet_manager = manager } in
        video_retransmission_loop lib clock (suc fuel) now s ≡ (
          if (lib.time_until_send s.sent_packet_manager now).0 == 0
            && lib.has_pending_retransmissions manager
          then video_on_retrans_packet lib clock asked (lib.next_pending_retransmission manager)
            >>= video_retransmission_loop lib clock fuel now
          else some asked)
  unfolding video_retransmission_loop video_retransmission_rounds
  loop_next fuel now s =
      let manager = (lib.time_until_send s.sent_packet_manager now).1 in
      let asked : MyQuicVideoSender S = record s { sent_packet_manager = manager } in
      elim (Bool-cases (
        (lib.time_until_send s.sent_packet_manager now).0 == 0
        && lib.has_pending_retransmissions manager)) [
          | inl more ↦ rw more (
              bind_bind
                (video_on_retrans_packet lib clock asked (lib.next_pending_retransmission manager))
                (video_retransmission_rounds lib clock fuel now) _)
          | inr over ↦ rw over refl
        ]
