-- ===== src/Bbr/Env.antt =====
-- What my_bbr_sender.cc takes from the QUIC library: QuicBandwidth, WindowedFilter, QuicRandom, and
-- the arithmetic of QuicTime::Delta. A QuicBandwidth is its number of bits per second, a QuicTime
-- its number of microseconds, and a gain counts quarters (1.25 is 5).
use stupid_simple.Base.{ℕ, ◌+◌, ◌-◌, ◌*◌, ◌/◌, ◌%◌, ◌^◌}
use stupid_simple.Base.Int.{ℤ, pos, negsuc, sub_ℕ}

-- `F` is a WindowedFilter<QuicBandwidth, MaxFilter, uint64_t, uint64_t>.
pub record BbrEnv (F : Type 0) : Type 0 where
  pub infinite : ℕ
  pub from_bytes_and_time_delta : ℕ → ℤ → ℕ
  pub scale : ℕ → ℕ → ℕ
  pub transfer_time : ℕ → ℕ → ℕ
  pub make_filter : ℕ → ℕ → ℕ → F
  pub reset : F → ℕ → ℕ → F
  pub update : F → ℕ → ℕ → F
  pub get_best : F → ℕ
  -- The n-th call of RandUint64.
  pub rand_uint64 : ℕ → ℕ

-- Delta::FromMilliseconds and Delta::FromSeconds, in microseconds.
abbrev pub from_milliseconds : ℕ → ℕ
from_milliseconds ms = ms * 1000

abbrev pub from_seconds : ℕ → ℕ
from_seconds s = s * 1000000

-- Delta::ToMilliseconds, stored into a uint64_t.
unfoldable pub to_milliseconds_u64 : ℤ → ℕ
to_milliseconds_u64 (pos n) = n / 1000
to_milliseconds_u64 (negsuc n) = (2 ^ 64 - (n + 1) / 1000) % 2 ^ 64

-- A Delta times kSimilarMinRttThreshold (1.125), rounded half away from zero as llround does.
unfoldable pub times_similar_threshold : ℤ → ℤ
times_similar_threshold (pos n) = pos ((9 * n + 4) / 8)
times_similar_threshold (negsuc n) = negsuc ((9 * (n + 1) + 4) / 8 - 1)

-- Delta::ToMilliseconds
unfoldable pub to_milliseconds : ℤ → ℤ
to_milliseconds (pos n) = pos (n / 1000)
to_milliseconds (negsuc n) = sub_ℕ 0 ((n + 1) / 1000)
