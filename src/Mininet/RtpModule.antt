-- ===== src/Mininet/RtpModule.antt =====
-- FakeRtpRtcpImpl (mininet-webrtc/fake_rtp_rtcp_impl.cc), the RTP module through which the pacer reaches
-- its sender. sender_ is `none` where the constructor got a null pointer.
use stupid_simple.Base.{ℕ, Bool, true, Option, none, some, ◌>>=◌}
use stupid_simple.Mininet.{Codec}
use stupid_simple.Mininet.Sender.{Sender}
use stupid_simple.Mininet.Dispatch.{time_to_send_packet, time_to_send_padding, sender_rtt}

module _ (codec : Codec) where
  -- TimeToSendPacket, and what it returns: Sender returns true as well.
  unfoldable pub rtp_time_to_send_packet :
      Option Sender → (sequence_number now : ℕ) → Option Sender × Bool
  rtp_time_to_send_packet none sequence_number now = (none, true)
  rtp_time_to_send_packet (some s) sequence_number now =
      (some (time_to_send_packet codec s sequence_number now), true)

  -- TimeToSendPadding, and what it returns: Sender returns `bytes` as well. A fault, `none`, is one of
  -- the model's loop.
  unfoldable pub rtp_time_to_send_padding :
      Option Sender → (bytes now : ℕ) → Option (Option Sender × ℕ)
  rtp_time_to_send_padding none bytes now = some (none, bytes)
  rtp_time_to_send_padding (some s) bytes now =
      time_to_send_padding codec s bytes now >>= λ padded. some (some padded, bytes)

-- RTT, which leaves its results alone where there is no sender.
unfoldable pub rtp_rtt : Option Sender → ℕ × ℕ × ℕ × ℕ → ℕ × ℕ × ℕ × ℕ
rtp_rtt none results = results
rtp_rtt (some s) results = sender_rtt s
