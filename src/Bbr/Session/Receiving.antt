-- ===== src/Bbr/Session/Receiving.antt =====
-- About what MyBbrReceiverApp (my_bbr_receiver_app.cc) acknowledges and records in a session.
use stupid_simple.Base.{
  ℕ, zero, suc, ◌+◌, ◌-◌, ◌%◌, ◌^◌, ◌≤◌, ◌<◌, ◌≡◌, inl, inr, refl, ap, ltb, leb, true, false,
  if◌then◌else◌, Bool-cases, List, [], ◌∷◌, ◌++◌, leb→le, not-leb, All, All-append, All-map, arith,
}
use stupid_simple.Bbr.App.{Net, ack_packet, fake_packet, test_proto_stream}
use stupid_simple.Bbr.App.Receiver.{
  MyBbrReceiverApp, record_losses, record_loss, send_ack, on_data_packet, abs_time,
}
use stupid_simple.Bbr.App.Acks.{data_packet-acked}
use stupid_simple.Bbr.App.Losses.{lost, numbers-append}
use stupid_simple.Bbr.Session.{payloads}

module _ (net : Net) where
  -- An acknowledgement of a packet up to `high`.
  abbrev pub IsAck : ℕ → List ℕ → Type 0
  IsAck high datagram = (n : ℕ) × (n ≤ high) × (datagram ≡ ack_packet net n)

  -- A data packet with a number from 1 to before `next`.
  abbrev pub IsData : ℕ → List ℕ → Type 0
  IsData next datagram =
      (n : ℕ) × (0 < n) × (n < next) × (datagram ≡ fake_packet net test_proto_stream n)

  abbrev pub Skipped : ℕ → ℕ → Type 0
  Skipped high n = (0 < n) × (n < high)

  -- All that the receiver sent are acknowledgements of packets up to base_seq_, and all that it
  -- recorded are numbers before it.
  pub record Behind (r : MyBbrReceiverApp) : Type 0 where
    pub acks : All (IsAck r.base_seq) (payloads r.sent)
    pub losses : All (Skipped r.base_seq) (lost r)

  abbrev pub SameLog : MyBbrReceiverApp → MyBbrReceiverApp → Type 0
  SameLog r t = (t.base_seq ≡ r.base_seq) × (t.sent ≡ r.sent) × (t.f_loss ≡ r.f_loss)

  pub SameLog-Behind : (r t : MyBbrReceiverApp) → SameLog r t → Behind r → Behind t
  SameLog-Behind r t (b, s, l) h = record {
    acks = rw b (rw s h.acks);
    losses = rw b (rw l h.losses);
  }

  IsAck-grows :
      (low high : ℕ) (log : List (List ℕ)) → low ≤ high → All (IsAck low) log → All (IsAck high) log
  IsAck-grows low high log le h =
      All-map (IsAck low) (IsAck high) log (λ d a. (a.0, omega (arith, le, a.1), a.2)) h

  Skipped-grows :
      (low high : ℕ) (ns : List ℕ) → low ≤ high → All (Skipped low) ns → All (Skipped high) ns
  Skipped-grows low high ns le h =
      All-map (Skipped low) (Skipped high) ns (λ n a. (a.0, omega (arith, le, a.1))) h

  pub payloads-append :
      (xs ys : List (ℕ × List ℕ)) → payloads (xs ++ ys) ≡ payloads xs ++ payloads ys
  payloads-append [] ys = refl
  payloads-append (x ∷ xs) ys = ap (◌∷◌ x.1) (payloads-append xs ys)

  module _ (clock : ℕ → ℕ) where
    loss_recorded :
        (P : ℕ → Type 0) (i : ℕ) (r : MyBbrReceiverApp)
        → P i
        → All P (lost r)
        → All P (lost (record_loss clock r i))
    unfolding record_loss
    loss_recorded P i r p h = elim (Bool-cases r.enable_loss_record) [
      | inl on ↦ rw on (
          rw (numbers-append r.f_loss ((abs_time r (clock r.reads), i) ∷ []))
            (All-append P (lost r) (i ∷ []) h (p, tt)))
      | inr off ↦ rw off h
    ]

    losses_recorded :
        (P : ℕ → Type 0) (k i : ℕ) (r : MyBbrReceiverApp)
        → ((n : ℕ) → i ≤ n → n < i + k → P n)
        → All P (lost r)
        → All P (lost (record_losses clock k i r))
    unfolding record_losses
    losses_recorded P zero i r p h = h
    losses_recorded P (suc k) i r p h =
        losses_recorded P k (i + 1) (record_loss clock r i)
          (λ n a b. p n (omega arith) (omega arith))
          (loss_recorded P i r (p i (omega arith) (omega arith)) h)

    acks_after :
        (r : MyBbrReceiverApp) (seq high : ℕ)
        → r.base_seq ≤ high
        → seq ≤ high
        → Behind r
        → All (IsAck high) (payloads (on_data_packet clock net r seq).sent)
    acks_after r seq high low fits h =
        let one : List (ℕ × List ℕ) = (r.peer, ack_packet net seq) ∷ [] in
        rw (data_packet-acked clock net r seq) (
          rw (payloads-append r.sent one) (
            All-append (IsAck high) (payloads r.sent) (payloads one)
              (IsAck-grows r.base_seq high (payloads r.sent) low h.acks) ((seq, fits, refl), tt)))

    losses_up_to :
        (r : MyBbrReceiverApp) (seq : ℕ)
        → r.base_seq < seq
        → All (Skipped r.base_seq) (lost r)
        → All (Skipped seq) (
            lost (
              if ltb (r.base_seq + 1) seq
              then record_losses clock
                  (seq - (r.base_seq + 1))
                  (r.base_seq + 1)
                  (send_ack net r seq)
              else send_ack net r seq))
    unfolding send_ack
    losses_up_to r seq above h =
        let old = Skipped-grows r.base_seq seq (lost r) (omega arith) h in
        elim (Bool-cases (ltb (r.base_seq + 1) seq)) [
          | inr next ↦ rw next old
          | inl skips ↦ rw skips (
              losses_recorded (Skipped seq) (seq - (r.base_seq + 1)) (r.base_seq + 1)
                (send_ack net r seq) (λ n a b. (omega arith, omega arith)) old)
        ]

    new_packet :
        (r : MyBbrReceiverApp) (seq : ℕ)
        → r.base_seq < seq
        → seq < 2 ^ 48
        → All (Skipped r.base_seq) (lost r)
        → ((on_data_packet clock net r seq).base_seq ≡ seq)
          × All (Skipped seq) (lost (on_data_packet clock net r seq))
    unfolding on_data_packet
    new_packet r seq above fits h =
        let expected : (r.base_seq + 1) % 2 ^ 64 ≡ r.base_seq + 1 = omega arith in
        let reached : leb (r.base_seq + 1) seq ≡ true = ground arith in
        rw expected (rw reached (refl, losses_up_to r seq above h))

    old_packet :
        (r : MyBbrReceiverApp) (seq : ℕ)
        → seq ≤ r.base_seq
        → r.base_seq < 2 ^ 48
        → ((on_data_packet clock net r seq).base_seq ≡ r.base_seq)
          × (lost (on_data_packet clock net r seq) ≡ lost r)
    unfolding on_data_packet send_ack
    old_packet r seq below room =
        let expected : (r.base_seq + 1) % 2 ^ 64 ≡ r.base_seq + 1 = omega arith in
        let behind : leb (r.base_seq + 1) seq ≡ false = ground arith in
        let none_skipped : ltb (r.base_seq + 1) seq ≡ false = ground arith in
        rw expected (rw behind (rw none_skipped (refl, refl)))

    -- One data packet with a number below `next`: base_seq_ stays below `next` as well.
    pub data_packet-Behind :
        (r : MyBbrReceiverApp) (seq next : ℕ)
        → seq < next
        → next ≤ 2 ^ 48
        → r.base_seq < next
        → Behind r
        → Behind (on_data_packet clock net r seq)
          × (r.base_seq ≤ (on_data_packet clock net r seq).base_seq)
          × ((on_data_packet clock net r seq).base_seq < next)
    data_packet-Behind r seq next fits top room h = elim (Bool-cases (leb seq r.base_seq)) [
      | inl old ↦
          let below = leb→le seq r.base_seq old in
          let (b, l) = old_packet r seq below (omega arith) in
          (
            record {
              acks = rw b (acks_after r seq r.base_seq (omega arith) below h);
              losses = rw b (rw l (h.losses));
            },
            omega (arith, b),
            omega (arith, b),
          )
      | inr new ↦
          let above = not-leb seq r.base_seq new in
          let (b, l) = new_packet r seq above (omega arith) h.losses in
          (
            record {
              acks = rw b (acks_after r seq seq (omega arith) (omega arith) h);
              losses = rw b l;
            },
            omega (arith, b),
            omega (arith, b),
          )
    ]
