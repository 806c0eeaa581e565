-- ===== src/Mininet/Setup.antt =====
-- The setters of Sender (mininet-webrtc/sender.cc), Receiver (receiver.cc) and VideoGenerator
-- (fakevideosource.cc). Targets and encoders that are given are not null.
use stupid_simple.Base.{ℕ, true, [], ◌∷◌}
use stupid_simple.Mininet.{register_target}
use stupid_simple.Mininet.Sender.{Sender, emit}
use stupid_simple.Mininet.Receiver.{Receiver}
use stupid_simple.Mininet.Generator.{VideoGenerator}

-- SetPeer and SetEncoder
unfoldable pub set_peer : Sender → ℕ → Sender
set_peer s peer = record s { dst = peer }

unfoldable pub set_encoder : Sender → Sender
unfolding emit
set_encoder s = emit (record s { encoder = true }) (register_target ∷ [])

-- SetRunDuration
unfoldable pub set_run_duration : Receiver → ℕ → Receiver
set_run_duration r delta = record r { duration = delta }

-- RegisterVideoTarget and SetMinRate
unfoldable pub register_video_target : VideoGenerator → VideoGenerator
register_video_target g = record g { sender = true }

unfoldable pub set_min_rate : VideoGenerator → ℕ → VideoGenerator
set_min_rate g min_r = record g { rate = min_r; min_r = min_r }
