-- ===== src/Quic/Video/Run.antt =====
-- Any sequence of calls of Process of MyQuicVideoSender (my_quic_video_sender.cc).
use stupid_simple.Base.{
  ℕ, ◌+◌, ◌^◌, ◌≤◌, ◌<◌, ◌≡◌, ◌⊎◌, Option, some, List, [], ◌∷◌, length, bind_some, arith, ◌>>=◌,
}
use stupid_simple.Frames.{new_generator}
use stupid_simple.Quic.Sending.{SendLib}
use stupid_simple.Quic.Video.{MyQuicVideoSender, new_quic_video_sender}
use stupid_simple.Quic.Video.Process.{video_front, quic_video_process}
use stupid_simple.Quic.Video.Queues.{Queues, Steps, Steps-trans, here}
use stupid_simple.Quic.Video.Moves.{queues, Small}
use stupid_simple.Quic.Video.Source.{IsSource, new_generator-IsSource}
use stupid_simple.Quic.Video.Refines.{arrives, process-Moves}
use stupid_simple.Quic.Video.Safety.{IsSendLib, front_total}

-- How many packets some calls may send: one, and one for each round of the loop that is allowed.
abbrev pub numbers : List (ℕ × List ℕ) → ℕ
numbers [] = 0
numbers ((fuel, datagram) ∷ calls) = fuel + 1 + numbers calls

-- Nothing was sent, and nothing waits.
abbrev pub fresh_queues : (inbox : List (List ℕ)) → Queues
fresh_queues inbox = record { seq = 1; pending = []; flying = []; out = []; inbox = inbox }

-- The datagrams of the calls, where there are some.
abbrev pub received : List (ℕ × List ℕ) → List (List ℕ)
received [] = []
received ((fuel, datagram) ∷ calls) = arrives datagram (received calls)

module _ {S D : Type 0} (lib : SendLib S D) (clock : ℕ → ℕ) where
  -- Calls of Process, each with its rounds and its datagram.
  unfoldable pub video_run : MyQuicVideoSender S → List (ℕ × List ℕ) → Option (MyQuicVideoSender S)
  video_run s [] = some s
  video_run s ((fuel, datagram) ∷ calls) =
      quic_video_process lib clock fuel s datagram >>= λ r. video_run r.1 calls

  run-Moves :
      (s t : MyQuicVideoSender S) (calls : List (ℕ × List ℕ))
      → s.seq + numbers calls < 2 ^ 64
      → Small s
      → IsSource s.source
      → video_run s calls ≡ some t
      → Steps lib clock (queues (received calls) s) (queues [] t) × Small t × IsSource t.source
  unfolding video_run
  run-Moves s t [] room i ok e = let same : s ≡ t = cc in rw (← same) (here, i, ok)
  run-Moves s t ((fuel, datagram) ∷ calls) room i ok e =
      let ((goes_on, u), called, rest) =
        bind_some (quic_video_process lib clock fuel s datagram) _ t e in
      let (steps, small, count, source) =
        process-Moves lib clock (received calls) fuel s u datagram goes_on (omega (arith, room)) i
          called in
      let after = run-Moves u t calls (omega (arith, room, count)) small (source ok) rest in
      (Steps-trans steps after.0, after.1, after.2)

  -- Where the QUIC library is as IsSendLib says, the start rate is at most 8 Mbit/s and packet
  -- numbers do not reach 2^64, any calls of Process of a new MyQuicVideoSender that return have
  -- taken seq_, pending_queue_, sent_queue_ and the datagrams sent through steps of Queues: the
  -- sizes that FrameSplit gives for a frame join pending_queue_ behind what waits; its first
  -- size leaves it, enters sent_queue_ under the next number, and a data packet of that number
  -- and size is sent; a padding packet is sent only while nothing waits; a packet in
  -- sent_queue_ is sent again only under the next number, which replaces its old one there;
  -- each datagram of the calls, in their order, takes from sent_queue_ just the numbers in the
  -- ranges that the framer finds in it, read at some time; and stop-waiting packets are sent.
  -- No size is above 1000 bytes, and numbers in sent_queue_ are below seq_. The next call of
  -- Process, with no datagram or one of 7 to kMaxPacketSize bytes, reaches SendRetransmission
  -- without a fault.
  pub video_run_lem :
      (fs start_rate : ℕ) (calls : List (ℕ × List ℕ)) (s : MyQuicVideoSender S) (datagram : List ℕ)
      → IsSendLib lib
      → start_rate ≤ 8000000
      → 1 + numbers calls < 2 ^ 64
      → video_run (new_quic_video_sender lib clock (new_generator fs start_rate)) calls ≡ some s
      → (length datagram ≡ 0) ⊎ ((7 ≤ length datagram) × (length datagram ≤ lib.k_max_packet_size))
      → Steps lib clock (fresh_queues (received calls)) (queues [] s)
        × Small s
        × ((t : MyQuicVideoSender S) × (video_front lib clock s datagram ≡ some t))
  unfolding new_quic_video_sender
  video_run_lem fs start_rate calls s datagram known slow room e sized =
      let fresh = new_quic_video_sender lib clock (new_generator fs start_rate) in
      let nothing : Small fresh = record { pending_small = tt; flying_small = tt } in
      let (steps, small, source) =
        run-Moves fresh s calls (omega (arith, room)) nothing
          (new_generator-IsSource fs start_rate slow) e in
      (steps, small, front_total lib known clock s datagram small source sized)
