-- ===== src/Mininet/Statistics.antt =====
-- About UpdateRtt of Sender and of Receiver (mininet-webrtc/sender.cc, receiver.cc).
use stupid_simple.Base.{
  inl, inr, Bool-cases, ◌%◌, ◌^◌, ℕ, ◌+◌, ◌*◌, ◌/◌, ◌%◌, ◌^◌, ◌≤◌, ◌<◌, ◌≡◌, inl, inr, refl, ltb,
  ◌==◌, false, if◌then◌else◌, Bool-cases, List, [], ◌∷◌, length, sum, All, All-map, arith,
}
use native.Mathlib.Nat.{div-le_of_le-mul}
use stupid_simple.Mininet.Rtt.{
  RttState, no_rtt, keep_rtt, smooth, sender_update_rtt, receiver_update_rtt,
}

-- The state after some samples, the latest of them first.
unfoldable pub sender_after : List ℕ → RttState
sender_after [] = no_rtt
sender_after (t ∷ ts) = (sender_update_rtt (sender_after ts) t).0

unfoldable pub receiver_after : List ℕ → RttState
receiver_after [] = no_rtt
receiver_after (t ∷ ts) = (receiver_update_rtt (receiver_after ts) t).0

abbrev pub kept : List ℕ → List ℕ
kept [] = []
kept (t ∷ ts) = keep_rtt t ∷ kept ts

-- The statistics of the samples `ks`.
pub record Measured (s : RttState) (ks : List ℕ) : Type 0 where
  pub counted : s.rtt_num ≡ length ks
  pub summed : s.sum_rtt ≡ sum ks
  pub below : All (λ k. k ≤ s.max_rtt) ks
  pub above : All (λ k. s.min_rtt ≤ k) ks
  pub averaged : s.average_rtt ≡ s.sum_rtt / s.rtt_num
  pub least : 10 ≤ s.rtt

smooth_least : (rtt keep : ℕ) → 10 ≤ smooth rtt keep
unfolding smooth
smooth_least rtt keep = ground arith

self_average : (k : ℕ) → k ≡ k / 1
self_average k = omega arith

at_most : (a k : ℕ) → a ≤ (if ltb a k then k else a)
at_most a k = ground arith

at_most_new : (a k : ℕ) → k ≤ (if ltb a k then k else a)
at_most_new a k = ground arith

at_least : (a k : ℕ) → (if ltb k a then k else a) ≤ a
at_least a k = ground arith

at_least_new : (a k : ℕ) → (if ltb k a then k else a) ≤ k
at_least_new a k = ground arith

first_sample : (t : ℕ) → Measured (sender_update_rtt no_rtt t).0 (keep_rtt t ∷ [])
unfolding sender_update_rtt sum
first_sample t = record {
  counted = refl;
  summed = omega arith;
  below = (omega arith, tt);
  above = (omega arith, tt);
  averaged = self_average (keep_rtt t);
  least = smooth_least 0 (keep_rtt t);
}

next_sample :
    (s : RttState) (t : ℕ) (ks : List ℕ)
    → 0 < s.rtt_num
    → Measured s ks
    → Measured (sender_update_rtt s t).0 (keep_rtt t ∷ ks)
unfolding sender_update_rtt sum
next_sample s t ks more m =
    let later : (s.rtt_num == 0) ≡ false = ground arith in
    rw later (record {
      counted = omega (arith, m.counted);
      summed = omega (arith, m.summed);
      below = (
        at_most_new s.max_rtt (keep_rtt t),
        All-map _ _ ks (λ k h. omega (arith, h, at_most s.max_rtt (keep_rtt t))) m.below,
      );
      above = (
        at_least_new s.min_rtt (keep_rtt t),
        All-map _ _ ks (λ k h. omega (arith, h, at_least s.min_rtt (keep_rtt t))) m.above,
      );
      averaged = refl;
      least = smooth_least s.rtt (keep_rtt t);
    })

-- After any samples, at least one, the sender has counted and summed them (each as at least 5),
-- its average is their rounded mean, its minimum and maximum bound all of them, and its smoothed
-- value is at least 10.
pub sender_after-Measured : (t : ℕ) (ts : List ℕ) → Measured (sender_after (t ∷ ts)) (kept (t ∷ ts))
unfolding sender_after
sender_after-Measured t [] = first_sample t
sender_after-Measured t (u ∷ us) =
    let m = sender_after-Measured u us in
    next_sample (sender_after (u ∷ us)) t (kept (u ∷ us)) (omega (arith, m.counted)) m

-- What keeps the receiver's report in order.
abbrev Ordered : RttState → Type 0
Ordered s = s.sum_rtt ≤ s.rtt_num * s.max_rtt

mean_le :
    (total n greatest greatest' k : ℕ)
    → total ≤ n * greatest
    → greatest ≤ greatest'
    → k ≤ greatest'
    → (total + k ≤ (n + 1) * greatest') × ((total + k) / (n + 1) % 2 ^ 32 ≤ greatest')
mean_le total n greatest greatest' k h g l =
    let scaled : n * greatest ≤ n * greatest' = grind arith in
    let bound : total + k ≤ (n + 1) * greatest' = grind arith in
    let mean : (total + k) / (n + 1) ≤ greatest' =
      div-le_of_le-mul (n + 1) {m = total + k} {n = greatest'} bound in
    (bound, omega (arith, mean))

receiver_report :
    (s : RttState) (t : ℕ)
    → Ordered s
    → Ordered (receiver_update_rtt s t).0
      × ((receiver_update_rtt s t).1.0 ≤ (receiver_update_rtt s t).1.1)
unfolding receiver_update_rtt
receiver_report s t h = elim (Bool-cases (s.rtt_num == 0)) [
  | inl first ↦ rw first (omega arith, omega arith)
  | inr later ↦
      let greatest = if ltb s.max_rtt (keep_rtt t) then keep_rtt t else s.max_rtt in
      rw later (
        mean_le s.sum_rtt s.rtt_num s.max_rtt greatest (keep_rtt t) h
          (at_most s.max_rtt (keep_rtt t)) (at_most_new s.max_rtt (keep_rtt t)))
]

receiver-Ordered : (ts : List ℕ) → Ordered (receiver_after ts)
unfolding receiver_after
receiver-Ordered [] = omega arith
receiver-Ordered (t ∷ ts) = (receiver_report (receiver_after ts) t (receiver-Ordered ts)).0

-- After any samples, what the receiver tells the controller for the next one has an average that
-- is at most the greatest value.
pub receiver_report_lem :
    (ts : List ℕ) (t : ℕ)
    → let report = (receiver_update_rtt (receiver_after ts) t).1 in report.0 ≤ report.1
receiver_report_lem ts t = (receiver_report (receiver_after ts) t (receiver-Ordered ts)).1
