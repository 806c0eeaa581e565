-- ===== src/Quic/Retransmission.antt =====
-- About the loop of SendRetransmission of MyQuicSender (my_quic_sender.cc).
use stupid_simple.Base.{
  ℕ, zero, suc, ◌<◌, ◌≡◌, ◌∙◌, sym, ap, refl, inl, inr, ◌==◌, true, Bool-cases, some, List, ◌∷◌,
  length, arith,
}
use stupid_simple.Quic.Sending.{loss_retransmission, SentPacket, SendLib}
use stupid_simple.Quic.Sender.{MyQuicSender}
use stupid_simple.Quic.Sender.Process.{on_retrans_packet, retransmission_loop}

-- What the sent packet manager says of the packets that it wants sent again: it offers the first
-- of them, asking for the time changes nothing, and a packet that was sent again is off the list.
pub record IsPending {S D : Type 0} (lib : SendLib S D) (pending : S → List ℕ) : Type 0 where
  pub offers :
      (m : S)
      → lib.has_pending_retransmissions m ≡ true
      → (rest : List ℕ) × (pending m ≡ (lib.next_pending_retransmission m).packet_number ∷ rest)
  pub asks : (m : S) (now : ℕ) → pending (lib.time_until_send m now).1 ≡ pending m
  pub resent :
      (m : S) (packet : SentPacket D) (rest : List ℕ)
      → packet.transmission_type ≡ loss_retransmission
      → pending m ≡ packet.original_packet_number ∷ rest
      → pending (lib.on_packet_sent m packet) ≡ rest

module _ {S D : Type 0} (lib : SendLib S D) (pending : S → List ℕ) (law : IsPending lib pending)
    (clock : ℕ → ℕ) where
  one_less :
      (s : MyQuicSender S) (rest : List ℕ)
      → let p = lib.next_pending_retransmission s.sent_packet_manager in
        pending s.sent_packet_manager ≡ p.packet_number ∷ rest
        → pending (on_retrans_packet lib clock s p).sent_packet_manager ≡ rest
  unfolding on_retrans_packet
  one_less s rest e = law.resent s.sent_packet_manager _ rest refl e

  -- SendRetransmission of MyQuicSender ends, with a round for each packet that the manager
  -- wants sent again and one more, where the manager is as IsPending says.
  pub retransmission_loop_ends :
      (fuel now : ℕ) (s : MyQuicSender S)
      → length (pending s.sent_packet_manager) < fuel
      → (t : MyQuicSender S) × (retransmission_loop lib clock fuel now s ≡ some t)
  unfolding retransmission_loop
  retransmission_loop_ends zero now s enough = absurd (omega arith)
  retransmission_loop_ends (suc fuel) now s enough =
      let (delay, manager) = lib.time_until_send s.sent_packet_manager now in
      let asked : MyQuicSender S = record s { sent_packet_manager = manager } in
      let p = lib.next_pending_retransmission manager in
      elim (Bool-cases (delay == 0)) [
        | inr early ↦ rw early (_, refl)
        | inl allowed ↦ elim (Bool-cases (lib.has_pending_retransmissions manager)) [
          | inr over ↦ rw allowed (rw over (_, refl))
          | inl more ↦
              let (rest, offered) = law.offers manager more in
              let before = ap length (sym (law.asks s.sent_packet_manager now) ∙ offered) in
              let after = ap length (one_less asked rest offered) in
              rw allowed (
                rw more (
                  retransmission_loop_ends fuel now (on_retrans_packet lib clock asked p)
                    (omega (arith, enough, before, after))))
        ]
      ]
