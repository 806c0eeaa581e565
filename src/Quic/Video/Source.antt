-- ===== src/Quic/Video/Source.antt =====
-- About the FakeVideoGenerator of MyQuicVideoSender (my_quic_video_sender.cc): its rates and
-- frames.
use stupid_simple.Base.{◌*◌, ℕ, ◌/◌, ◌≤◌, ◌<◌, arith}
use native.Mathlib.Nat.{div-le_self}
use stupid_simple.Frames.{
  FakeVideoGenerator, new_generator, updata_rate, get_frame, max_split_number, max_video_size,
}

-- No rate is above 8 Mbit/s, and a frame is for at most a second.
pub record IsSource (g : FakeVideoGenerator) : Type 0 where
  pub rate_small : g.rate ≤ 8000000
  pub min_small : g.min_rate ≤ 8000000
  pub max_small : g.max_rate ≤ 8000000
  pub duration_small : g.duration ≤ 1000

pub new_generator-IsSource :
    (fs start_rate : ℕ) → start_rate ≤ 8000000 → IsSource (new_generator fs start_rate)
unfolding new_generator
new_generator-IsSource fs start_rate h = record {
  rate_small = h;
  min_small = h;
  max_small = omega arith;
  duration_small = div-le_self 1000 fs;
}

pub get_frame-IsSource :
    (g : FakeVideoGenerator) (now : ℕ) → IsSource g → IsSource (get_frame g now).1
unfolding get_frame
get_frame-IsSource g now i = ground (arith, i)

pub updata_rate-IsSource :
    (g : FakeVideoGenerator) (bps : ℕ) → IsSource g → IsSource (updata_rate g bps)
unfolding updata_rate
updata_rate-IsSource g bps i = ground (arith, i)

-- A frame passes the assert of Process.
pub frame_fits :
    (g : FakeVideoGenerator) (now : ℕ)
    → IsSource g
    → (get_frame g now).0 / max_video_size < max_split_number
unfolding get_frame
frame_fits g now i =
    let product : g.rate * g.duration ≤ 8000000 * 1000 =
      grind (arith, i.rate_small, i.duration_small) in
    ground (arith, product)
