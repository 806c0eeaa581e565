-- ===== src/Quic/Video/Queues.antt =====
-- A specification of the two queues of MyQuicVideoSender (my_quic_video_sender.cc) and of what it
-- sends, without the manager, the clock and the sockets: a first-in first-out queue of sizes, and
-- the packets on their way.
use stupid_simple.Base.{
  zero, suc, ◌-◌, ℕ, ◌+◌, ◌≤◌, ◌<◌, ◌≡◌, refl, ap, Bool-cases, inl, inr, ltb, ◌==◌, false, some,
  List, [], ◌∷◌, ◌++◌, All, All-append, All-map, find, erase, insert, arith,
}
use mathlib.Core.Path.{subst}
use stupid_simple.Frames.{frame_split, max_video_size}
use stupid_simple.Quic.Sending.{
  Callback, ack_frame_start, ack_range, open_datagram, SendLib, stop_waiting_packet,
}
use stupid_simple.Quic.Video.{video_packet, padding_packet}

-- `flying` are the data packets that are neither acknowledged nor sent again, with their sizes, `out`
-- the datagrams sent, and `inbox` those that are still to come.
pub record Queues : Type 0 where
  pub seq : ℕ
  pub pending : List ℕ
  pub flying : List (ℕ × ℕ)
  pub out : List (List ℕ)
  pub inbox : List (List ℕ)

-- `m` without the `n` numbers from `i` on.
unfoldable pub drop_range : (n i : ℕ) → List (ℕ × ℕ) → List (ℕ × ℕ)
drop_range zero i m = m
drop_range (suc n) i m = drop_range n (i + 1) (erase i m)

-- `m` without the numbers of the ranges that the framer found.
unfoldable pub drop_callback : Callback → List (ℕ × ℕ) → List (ℕ × ℕ)
unfolding drop_range
drop_callback (ack_frame_start largest delay) m = m
drop_callback (ack_range start end last_range) m = drop_range (end - start) start m

unfoldable pub drop_found : List Callback → List (ℕ × ℕ) → List (ℕ × ℕ)
unfolding drop_callback
drop_found [] m = m
drop_found (c ∷ found) m = drop_found found (drop_callback c m)

module _ {S D : Type 0} (lib : SendLib S D) (clock : ℕ → ℕ) where
  -- The sizes of a frame are queued behind what waits; the first size goes out under the next number,
  -- and is on its way from then on; padding goes out when nothing waits; a packet on its way is sent
  -- again under the next number, and no more under its own; the next datagram that comes takes all
  -- numbers of its ranges off their way; a stop-waiting frame goes out.
  pub data Step (v w : Queues) : Type 0 where
    frame :
        (len : ℕ) (splits : List ℕ)
        → frame_split len ≡ some splits
        → All (λ x. x ≤ max_video_size) splits
        → w ≡ record v { pending = v.pending ++ splits }
        → Step v w
    data_packet :
        (len : ℕ) (rest packet : List ℕ)
        → v.pending ≡ len ∷ rest
        → video_packet lib clock v.seq len ≡ some packet
        → w ≡ record v {
          seq = v.seq + 1;
          pending = rest;
          flying = v.flying ++ ((v.seq, len) ∷ []);
          out = v.out ++ (packet ∷ []);
        }
        → Step v w
    padding :
        v.pending ≡ []
        → w ≡ record v { seq = v.seq + 1; out = v.out ++ (padding_packet lib clock v.seq ∷ []) }
        → Step v w
    sent_again :
        (old len : ℕ) (packet : List ℕ)
        → find old v.flying ≡ some len
        → video_packet lib clock v.seq len ≡ some packet
        → w ≡ record v {
          seq = v.seq + 1;
          flying = erase old v.flying ++ ((v.seq, len) ∷ []);
          out = v.out ++ (packet ∷ []);
        }
        → Step v w
    heard :
        (datagram frames : List ℕ) (later : List (List ℕ)) (now : ℕ)
        → v.inbox ≡ datagram ∷ later
        → open_datagram lib datagram ≡ some frames
        → w ≡ record v {
          flying = drop_found (lib.process_frame_data now frames) v.flying;
          inbox = later;
        }
        → Step v w
    stop_waiting :
        (least : ℕ)
        → w ≡ record v { out = v.out ++ (stop_waiting_packet lib v.seq least ∷ []) }
        → Step v w

  pub data Steps (v : Queues) : Queues → Type 0 where
    here : Steps v v
    next : {w x : Queues} → Steps v w → Step w x → Steps v x

module _ {S D : Type 0} {lib : SendLib S D} {clock : ℕ → ℕ} where
  pub Steps-trans :
      {v w x : Queues} → Steps lib clock v w → Steps lib clock w x → Steps lib clock v x
  Steps-trans a here = a
  Steps-trans a (next b s) = next (Steps-trans a b) s

-- No size is above 1000 bytes, and the packets on their way have numbers below the next one.
pub record IsSmall (seq : ℕ) (pending : List ℕ) (flying : List (ℕ × ℕ)) : Type 0 where
  pub pending_small : All (λ x. x ≤ max_video_size) pending
  pub flying_small : All (λ (e : ℕ × ℕ). (e.0 < seq) × (e.1 ≤ max_video_size)) flying

abbrev SmallQueues : Queues → Type 0
SmallQueues v = IsSmall v.seq v.pending v.flying

module _ (P : ℕ × ℕ → Type 0) where
  pub All-erase : (k : ℕ) (m : List (ℕ × ℕ)) → All P m → All P (erase k m)
  unfolding erase
  All-erase k [] h = tt
  All-erase k ((j, v) ∷ m) h = elim (Bool-cases (j == k)) [
    | inl hit ↦ rw hit (h.1)
    | inr miss ↦ rw miss (h.0, All-erase k m h.1)
  ]

  All-drop_range : (n i : ℕ) (m : List (ℕ × ℕ)) → All P m → All P (drop_range n i m)
  unfolding drop_range
  All-drop_range zero i m h = h
  All-drop_range (suc n) i m h = All-drop_range n (i + 1) (erase i m) (All-erase i m h)

  pub All-drop_found :
      (found : List Callback) (m : List (ℕ × ℕ)) → All P m → All P (drop_found found m)
  unfolding drop_found drop_callback
  All-drop_found [] m h = h
  All-drop_found (ack_frame_start largest delay ∷ found) m h = All-drop_found found m h
  All-drop_found (ack_range start end last_range ∷ found) m h =
      All-drop_found found (drop_range (end - start) start m)
        (All-drop_range (end - start) start m h)

  pub All-find :
      (k len : ℕ) (m : List (ℕ × ℕ)) → All P m → find k m ≡ some len → (j : ℕ) × P (j, len)
  unfolding find
  All-find k len [] h e = absurd (cc)
  All-find k len ((j, v) ∷ m) h e = elim (Bool-cases (j == k)) [
    | inl hit ↦ let same : v ≡ len = cc (rw hit at e) in (j, rw (← same) (h.0))
    | inr miss ↦ All-find k len m h.1 (rw miss at e)
  ]

pub insert-last :
    (k len : ℕ) (m : List (ℕ × ℕ))
    → All (λ (e : ℕ × ℕ). (e.0 < k) × (e.1 ≤ max_video_size)) m
    → insert k len m ≡ m ++ ((k, len) ∷ [])
unfolding insert
insert-last k len [] h = refl
insert-last k len ((j, v) ∷ m) h =
    let later : ltb k j ≡ false = ground (arith, h.0.0) in
    let other : (j == k) ≡ false = ground (arith, h.0.0) in
    rw later (rw other (ap (◌∷◌ (j, v)) (insert-last k len m h.1)))

-- One more number is used, under which a packet may go out.
used_number :
    (n len : ℕ) (m : List (ℕ × ℕ))
    → len ≤ max_video_size
    → All (λ (e : ℕ × ℕ). (e.0 < n) × (e.1 ≤ max_video_size)) m
    → All (λ (e : ℕ × ℕ). (e.0 < n + 1) × (e.1 ≤ max_video_size)) (m ++ ((n, len) ∷ []))
used_number n len m small h =
    All-append _ m ((n, len) ∷ []) (All-map _ _ m (λ e p. (omega (arith, p.0), p.1)) h)
      ((omega arith, small), tt)

module _ {S D : Type 0} {lib : SendLib S D} {clock : ℕ → ℕ} where
  pub Step-IsSmall : (v w : Queues) → Step lib clock v w → SmallQueues v → SmallQueues w
  Step-IsSmall v w (frame len splits split small e) i = rw e (record {
    pending_small = All-append _ v.pending splits i.pending_small small;
    flying_small = i.flying_small;
  })
  Step-IsSmall v w (data_packet len rest packet waits written e) i =
      let both : All (λ x. x ≤ max_video_size) (len ∷ rest) =
        subst (All (λ x. x ≤ max_video_size)) waits i.pending_small in
      rw e (record {
        pending_small = both.1;
        flying_small = used_number v.seq len v.flying both.0 i.flying_small;
      })
  Step-IsSmall v w (padding nothing e) i = rw e (record {
    pending_small = i.pending_small;
    flying_small = All-map _ _ v.flying (λ x p. (omega (arith, p.0), p.1)) i.flying_small;
  })
  Step-IsSmall v w (sent_again old len packet known written e) i =
      let small = All-find _ old len v.flying i.flying_small known in
      rw e (record {
        pending_small = i.pending_small;
        flying_small =
            used_number v.seq len (erase old v.flying) small.1.1
              (All-erase _ old v.flying i.flying_small);
      })
  Step-IsSmall v w (heard datagram frames later now arrives opened e) i = rw e (record {
    pending_small = i.pending_small;
    flying_small = All-drop_found _ (lib.process_frame_data now frames) v.flying i.flying_small;
  })
  Step-IsSmall v w (stop_waiting least e) i =
      rw e (record { pending_small = i.pending_small; flying_small = i.flying_small })

  pub Steps-IsSmall : {v w : Queues} → Steps lib clock v w → SmallQueues v → SmallQueues w
  Steps-IsSmall here i = i
  Steps-IsSmall (next a s) i = Step-IsSmall _ _ s (Steps-IsSmall a i)
