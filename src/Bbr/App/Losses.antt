-- ===== src/Bbr/App/Losses.antt =====
-- The loss record of MyBbrReceiverApp.
use stupid_simple.Base.{
  Bool, ℕ, zero, suc, ◌+◌, ◌-◌, ◌%◌, ◌^◌, ◌≤◌, ◌<◌, ◌≡◌, inl, inr, refl, ap, ◌∙◌, ltb, leb, true,
  if◌then◌else◌, Bool-cases, not-ltb, List, [], ◌∷◌, ◌++◌, take, count, count-append, arith,
}
use stupid_simple.Bbr.App.{Net, test_proto_stream, fake_packet}
use stupid_simple.Bbr.App.Receiver.{
  MyBbrReceiverApp, new_receiver, send_ack, record_loss, record_losses, on_data_packet,
  on_incoming_data,
}
use stupid_simple.Bbr.App.Delivery.{IsNet, packet-reaches_receiver}

-- The numbers of the lines in the loss file.
abbrev pub numbers : List (ℕ × ℕ) → List ℕ
numbers [] = []
numbers (e ∷ es) = e.1 ∷ numbers es

abbrev pub lost : MyBbrReceiverApp → List ℕ
lost s = numbers s.f_loss

-- Numbers that rise from above `low` and stay below 2^48.
abbrev pub Increasing : ℕ → List ℕ → Type 0
Increasing low [] = Unit {0}
Increasing low (n ∷ ns) = (low < n) × (n < 2 ^ 48) × Increasing n ns

-- 1 for the numbers from `low` to before `high`, 0 for the others.
abbrev pub between : ℕ → ℕ → ℕ → ℕ
between low high n = if ltb n low then 0 else if ltb n high then 1 else 0

pub numbers-append : (xs ys : List (ℕ × ℕ)) → numbers (xs ++ ys) ≡ numbers xs ++ numbers ys
numbers-append [] ys = refl
numbers-append (x ∷ xs) ys = ap (◌∷◌ (x.1)) (numbers-append xs ys)

empty_range : (i n : ℕ) → between i (i + 0) n ≡ 0
empty_range i n = ground arith

no_range : (i n : ℕ) → between i i n ≡ 0
no_range i n = ground arith

first_of_range :
    (i k n : ℕ) → count n (i ∷ []) + between (i + 1) (i + 1 + k) n ≡ between i (i + suc k) n
first_of_range i k n = ground arith

-- The numbers up to the new base, of which one is `seq` and the others are between.
whole_range :
    (base seq n : ℕ)
    → base < seq
    → between (base + 1) (base + 1 + (seq - (base + 1))) n + count n (seq ∷ [])
      ≡ between (base + 1) (seq + 1) n
whole_range base seq n h = ground arith

join_ranges :
    (base seq top n : ℕ)
    → base < seq
    → seq ≤ top
    → between (base + 1) (seq + 1) n + between (seq + 1) (top + 1) n
      ≡ between (base + 1) (top + 1) n
join_ranges base seq top n h k = ground arith

-- The fields that a later packet relies on.
abbrev pub Steady : MyBbrReceiverApp → MyBbrReceiverApp → Type 0
Steady s t =
    (t.enable_loss_record ≡ s.enable_loss_record) × (t.sent ≡ s.sent) × (t.base_seq ≡ s.base_seq)

module _ (clock : ℕ → ℕ) where
  record_loss_adds :
      (i n : ℕ) (s : MyBbrReceiverApp)
      → s.enable_loss_record ≡ true
      → count n (lost (record_loss clock s i)) ≡ count n (lost s) + count n (i ∷ [])
  unfolding record_loss
  record_loss_adds i n s on =
      rw on (ap (count n) (numbers-append s.f_loss _) ∙ count-append n (lost s) (i ∷ []))

  record_loss-Steady : (i : ℕ) (s : MyBbrReceiverApp) → Steady s (record_loss clock s i)
  unfolding record_loss
  record_loss-Steady i s = elim (Bool-cases s.enable_loss_record) [
    | inl on ↦ rw on (refl, refl, refl)
    | inr off ↦ rw off (refl, refl, refl)
  ]

  -- What the loop leaves alone, and what it adds to an open file.
  pub record_losses-Steady : (k i : ℕ) (s : MyBbrReceiverApp) → Steady s (record_losses clock k i s)
  unfolding record_losses
  record_losses-Steady zero i s = (refl, refl, refl)
  record_losses-Steady (suc k) i s =
      let (e, x, b) = record_loss-Steady i s in
      let (e', x', b') = record_losses-Steady k (i + 1) (record_loss clock s i) in
      (e' ∙ e, x' ∙ x, b' ∙ b)

  record_losses_adds :
      (k i n : ℕ) (s : MyBbrReceiverApp)
      → s.enable_loss_record ≡ true
      → count n (lost (record_losses clock k i s)) ≡ count n (lost s) + between i (i + k) n
  unfolding record_losses
  record_losses_adds zero i n s on = omega (arith, empty_range i n)
  record_losses_adds (suc k) i n s on = omega (
    arith,
    record_loss_adds i n s on,
    record_losses_adds k (i + 1) n (record_loss clock s i) ((record_loss-Steady i s).0 ∙ on),
    first_of_range i k n,
  )

  module _ (net : Net) where
    -- A data packet beyond all before it.
    beyond_base :
        (s : MyBbrReceiverApp) (seq n : ℕ)
        → s.base_seq < seq
        → seq < 2 ^ 48
        → s.enable_loss_record ≡ true
        → (count n (lost (on_data_packet clock net s seq))
            ≡ count n (lost s)
              + between (s.base_seq + 1) (s.base_seq + 1 + (seq - (s.base_seq + 1))) n)
          × ((on_data_packet clock net s seq).enable_loss_record ≡ true)
          × ((on_data_packet clock net s seq).base_seq ≡ seq)
    unfolding on_data_packet send_ack
    beyond_base s seq n above fits on =
        let expected : (s.base_seq + 1) % 2 ^ 64 ≡ s.base_seq + 1 = omega arith in
        let reached : leb (s.base_seq + 1) seq ≡ true = ground arith in
        let acked = send_ack net s seq in
        elim (Bool-cases (ltb (s.base_seq + 1) seq)) [
          | inl skips ↦ rw expected (
              rw skips (
                rw reached (
                  record_losses_adds (seq - (s.base_seq + 1)) (s.base_seq + 1) n acked on,
                  (record_losses-Steady (seq - (s.base_seq + 1)) (s.base_seq + 1) acked).0 ∙ on,
                  refl,
                )))
          | inr next ↦
              let none_skipped : seq - (s.base_seq + 1) ≡ 0 =
                omega (arith, not-ltb (s.base_seq + 1) seq next) in
              rw expected (
                rw next (
                  rw reached
                    (rw none_skipped (omega (arith, empty_range (s.base_seq + 1) n), on, refl))))
        ]

    -- OnIncomingData on data packets with the numbers `seqs`, as RecvFrom gives them.
    abbrev pub receive_all : MyBbrReceiverApp → List ℕ → MyBbrReceiverApp
    receive_all s [] = s
    receive_all s (seq ∷ seqs) =
        receive_all
          (on_incoming_data clock net s (take 1500 (fake_packet net test_proto_stream seq))) seqs

    abbrev highest : ℕ → List ℕ → ℕ
    highest low [] = low
    highest low (seq ∷ seqs) = highest seq seqs

    highest_le : (low : ℕ) (seqs : List ℕ) → Increasing low seqs → low ≤ highest low seqs
    highest_le low [] r = omega arith
    highest_le low (seq ∷ seqs) r = omega (arith, highest_le seq seqs r.2, r.0)

    receive_one :
        (s : MyBbrReceiverApp) (base seq n : ℕ)
        → IsNet net
        → s.base_seq ≡ base
        → base < seq
        → seq < 2 ^ 48
        → s.enable_loss_record ≡ true
        → let t =
            on_incoming_data clock net s (take 1500 (fake_packet net test_proto_stream seq)) in
          (count n (lost t)
            ≡ count n (lost s) + between (base + 1) (base + 1 + (seq - (base + 1))) n)
          × (t.enable_loss_record ≡ true)
          × (t.base_seq ≡ seq)
    receive_one s base seq n h b above fits on = rw (← b) (
        rw (packet-reaches_receiver clock net s test_proto_stream seq h (inl refl) fits)
          (beyond_base _ seq n (omega (arith, b)) fits on))

    receive_all_counts :
        (s : MyBbrReceiverApp) (base n : ℕ) (seqs : List ℕ)
        → IsNet net
        → s.base_seq ≡ base
        → s.enable_loss_record ≡ true
        → Increasing base seqs
        → (count n (lost (receive_all s seqs)) + count n seqs
            ≡ count n (lost s) + between (base + 1) (highest base seqs + 1) n)
          × ((receive_all s seqs).base_seq ≡ highest base seqs)
    receive_all_counts s base n [] h b on r = (omega (arith, no_range (base + 1) n), b)
    receive_all_counts s base n (seq ∷ seqs) h b on r =
        let t = on_incoming_data clock net s (take 1500 (fake_packet net test_proto_stream seq)) in
        let (counted, on', b') = receive_one s base seq n h b r.0 r.1 on in
        let (later, last) = receive_all_counts t seq n seqs h b' on' r.2 in
        (
          omega (
            arith,
            later,
            counted,
            count-append n (seq ∷ []) seqs,
            whole_range base seq n r.0,
            join_ranges base seq (highest seq seqs) n r.0 (highest_le seq seqs r.2),
          ),
          last,
        )

    -- A new receiver that records losses and gets stream packets with rising numbers below
    -- 2^48 records exactly the numbers that did not come: each number from 1 up to the last
    -- one that came was received once or stands in the loss file once, never both, and no
    -- other number stands there or came. The QUIC library is as IsNet says.
    pub losses_exact :
        (ms n : ℕ) (rate : Bool) (seqs : List ℕ)
        → IsNet net
        → Increasing 0 seqs
        → let t = receive_all (new_receiver ms true rate) seqs in
          (count n (lost t) + count n seqs ≡ between 1 (t.base_seq + 1) n)
    losses_exact ms n rate seqs h r =
        let (exact, last) =
          receive_all_counts (new_receiver ms true rate) 0 n seqs h (unfold new_receiver in refl)
            (unfold new_receiver in refl) r in
        let fresh : count n (lost (new_receiver ms true rate)) ≡ 0 = unfold new_receiver in refl in
        rw last (omega (arith, exact, fresh))
