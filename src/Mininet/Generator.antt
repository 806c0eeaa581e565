-- ===== src/Mininet/Generator.antt =====
-- VideoGenerator (mininet-webrtc/fakevideosource.{h,cc}). The 32-bit float of SendFrame is a
-- parameter, `frame_bytes rate fs` being the bytes of a frame; the task queue and the frames' target
-- are lists of what they are asked.
use stupid_simple.Base.{
  ℕ, ◌+◌, ◌-◌, ◌/◌, ◌%◌, ◌^◌, ltb, ◌==◌, Bool, true, false, if◌then◌else◌, List, [], ◌∷◌, ◌++◌,
}

-- time_rate_t
pub record TimeRate : Type 0 where
  pub now : ℕ
  pub bps : ℕ

-- `sender` says whether there is a target, `frames` are the lengths of its SendVideo calls,
-- `delays` those of the tasks posted for Generate, and `log` the records that LogRate passes on.
pub record VideoGenerator : Type 0 where
  pub fs : ℕ
  pub rate : ℕ
  pub min_r : ℕ
  pub running : Bool
  pub sender : Bool
  pub first : ℕ
  pub frames : List ℕ
  pub delays : List ℕ
  pub log : List TimeRate

-- The constructor, then RegisterVideoTarget and SetMinRate.
unfoldable pub new_video_generator : ℕ → ℕ → VideoGenerator
new_video_generator fs min_r = record {
  fs = fs;
  rate = min_r;
  min_r = min_r;
  running = false;
  sender = true;
  first = 0;
  frames = [];
  delays = [];
  log = [];
}

-- LogRate, at the time `now`
unfoldable pub log_rate : VideoGenerator → ℕ → ℕ → VideoGenerator
log_rate g now bitrate =
    let first = if g.first == 0 then now else g.first in
    record g {
      first = first;
      log = g.log ++ (record { now = (now + 2 ^ 32 - first) % 2 ^ 32; bps = bitrate } ∷ []);
    }

-- ChangeRate, at the time `now`
unfoldable pub change_rate_to : VideoGenerator → ℕ → ℕ → VideoGenerator
unfolding log_rate
change_rate_to g now bitrate =
    let rate = if ltb g.min_r bitrate then bitrate else g.min_r in
    log_rate (record g { rate = rate }) (now % 2 ^ 32) rate

module _ (frame_bytes : ℕ → ℕ → ℕ) where
  -- SendFrame
  unfoldable pub send_frame : VideoGenerator → VideoGenerator
  send_frame g =
      if g.rate == 0
      then g
      else (if g.sender
          then record g { frames = g.frames ++ (frame_bytes g.rate g.fs ∷ []) }
          else g)

  -- Generate
  unfoldable pub generate : VideoGenerator → VideoGenerator
  unfolding send_frame
  generate g =
      let sent = send_frame g in
      if g.running then record sent { delays = sent.delays ++ (1000 / g.fs ∷ []) } else g

  -- Start and Stop
  unfoldable pub start_generator : VideoGenerator → VideoGenerator
  unfolding generate
  start_generator g = generate (record g { running = true })

unfoldable pub stop_generator : VideoGenerator → VideoGenerator
stop_generator g = record g { running = false }
