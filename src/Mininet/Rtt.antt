-- ===== src/Mininet/Rtt.antt =====
-- UpdateRtt, of mininet-webrtc/sender.cc and of mininet-webrtc/receiver.cc.
use stupid_simple.Base.{ℕ, ◌+◌, ◌*◌, ◌/◌, ◌%◌, ◌^◌, ltb, ◌==◌, if◌then◌else◌}

-- The round-trip fields of Sender, and of Receiver, which has the first four. The sums are 64 bits
-- wide, the others 32.
pub record RttState : Type 0 where
  pub rtt : ℕ
  pub sum_rtt : ℕ
  pub rtt_num : ℕ
  pub max_rtt : ℕ
  pub min_rtt : ℕ
  pub average_rtt : ℕ

abbrev pub no_rtt : RttState
no_rtt = record { rtt = 0; sum_rtt = 0; rtt_num = 0; max_rtt = 0; min_rtt = 0; average_rtt = 0 }

-- `keep_rtt`: at least 5.
abbrev pub keep_rtt : ℕ → ℕ
keep_rtt time = if ltb 5 time then time else 5

-- rtt_: one eighth of the new value is mixed in, and it is at least 10.
unfoldable pub smooth : ℕ → ℕ → ℕ
smooth rtt keep =
    let started = if rtt == 0 then keep else rtt in
    let mixed = (7 * started + keep) % 2 ^ 32 / 8 in if ltb mixed 10 then 10 else mixed

-- Sender::UpdateRtt, and what it tells OnRttUpdate: the new average, but the greatest value before
-- this one.
unfoldable pub sender_update_rtt : RttState → ℕ → RttState × (ℕ × ℕ)
unfolding smooth
sender_update_rtt s time =
    let keep = keep_rtt time in
    let rtt = smooth s.rtt keep in
    let sum = s.sum_rtt + keep in
    let average = sum / (s.rtt_num + 1) in
    if s.rtt_num == 0
    then (
      record {
        rtt = rtt;
        sum_rtt = keep;
        rtt_num = 1;
        max_rtt = keep;
        min_rtt = keep;
        average_rtt = keep;
      },
      (keep, keep),
    )
    else (
      record {
        rtt = rtt;
        sum_rtt = sum;
        rtt_num = s.rtt_num + 1;
        max_rtt = if ltb s.max_rtt keep then keep else s.max_rtt;
        min_rtt = if ltb keep s.min_rtt then keep else s.min_rtt;
        average_rtt = average;
      },
      (average, s.max_rtt),
    )

-- Receiver::UpdateRtt, and what it tells OnRttUpdate: the new average and the greatest value.
unfoldable pub receiver_update_rtt : RttState → ℕ → RttState × (ℕ × ℕ)
unfolding smooth
receiver_update_rtt s time =
    let keep = keep_rtt time in
    let rtt = smooth s.rtt keep in
    let sum = s.sum_rtt + keep in
    let greatest = if ltb s.max_rtt keep then keep else s.max_rtt in
    if s.rtt_num == 0
    then (record s { rtt = rtt; sum_rtt = keep; rtt_num = 1; max_rtt = keep }, (keep, keep))
    else (
      record s { rtt = rtt; sum_rtt = sum; rtt_num = s.rtt_num + 1; max_rtt = greatest },
      (sum / (s.rtt_num + 1) % 2 ^ 32, greatest),
    )
