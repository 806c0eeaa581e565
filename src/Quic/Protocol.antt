-- ===== src/Quic/Protocol.antt =====
-- A protocol for the owner of a QuicSentPacketManager, for MyQuicSender (my_quic_sender.cc) and
-- MyQuicVideoSender (my_quic_video_sender.cc).
pub mod Timed
pub mod Video
pub mod VideoRun
use stupid_simple.Base.{
  ℕ, zero, suc, ◌+◌, ◌-◌, ◌*◌, ◌/◌, ◌%◌, ◌^◌, ◌≤◌, ◌<◌, ◌≡◌, ◌≢◌, ◌⊎◌, ◌↔◌, inl, inr, refl, sym, ap,
  ◌∙◌, ltb, leb, ◌==◌, not, ◌&&◌, ◌||◌, Bool, true, false, if◌then◌else◌, Bool-cases, Option,
  Option-cases, none, some, ◌>>=◌, List, [], ◌∷◌, ◌++◌, length, leb→le, not-leb, not-ltb, le→leb,
  All, All-append, All-map, take, bind_some, length-append, arith,
}
use stupid_simple.Header.{get_min_seq_length}
use stupid_simple.Quic.Sending.{SendLib, SentPacket, not_retransmission, loss_retransmission}

module _ {S D : Type 0} (lib : SendLib S D) (wrap : ℕ) where
  -- A packet that the manager may be told of as number `n`.
  pub record Numbered (n : ℕ) (packet : SentPacket D) : Type 0 where
    pub number : packet.packet_number ≡ n
    pub number_length : packet.packet_number_length ≡ get_min_seq_length lib.types n

  -- The managers that an owner reaches. `may_send` says that the last thing asked was the time until
  -- the next packet, and that it was zero; a packet uses this up. The number is the one of the next
  -- packet: packets are numbered one by one, new ones and those sent again, and only the packet that
  -- the manager offers is sent again.
  pub data Manages : (may_send : Bool) (next : ℕ) → S → Type 0 where
    fresh : Manages false 1 lib.new_manager
    paced : (n : ℕ) (m : S) → Manages false n m → Manages false n (lib.set_pacing m)
    asked :
        (b : Bool) (n now : ℕ) (m : S)
        → Manages b n m
        → Manages ((lib.time_until_send m now).0 == 0) n (lib.time_until_send m now).1
    sent_new :
        (n : ℕ) (m : S) (packet : SentPacket D)
        → Manages true n m
        → Numbered n packet
        → packet.transmission_type ≡ not_retransmission
        → Manages false ((n + 1) % wrap) (lib.on_packet_sent m packet)
    sent_again :
        (n : ℕ) (m : S) (packet : SentPacket D)
        → Manages true n m
        → Numbered n packet
        → packet.transmission_type ≡ loss_retransmission
        → lib.has_pending_retransmissions m ≡ true
        → packet.original_packet_number ≡ (lib.next_pending_retransmission m).packet_number
        → packet.retransmittable_frames ≡ (lib.next_pending_retransmission m).retransmittable_frames
        → Manages false ((n + 1) % wrap) (lib.on_packet_sent m packet)
    ack_started :
        (b : Bool) (n largest delay now : ℕ) (m : S)
        → Manages b n m
        → Manages false n (lib.on_ack_frame_start m largest delay now)
    ack_ranged :
        (b : Bool) (n start end : ℕ) (m : S)
        → Manages b n m
        → Manages false n (lib.on_ack_range m start end)
    ack_ended :
        (b : Bool) (n now : ℕ) (m : S)
        → Manages b n m
        → Manages false n (lib.on_ack_frame_end m now).1

  abbrev pub Managed : ℕ → S → Type 0
  Managed next m = (may_send : Bool) × Manages may_send next m
