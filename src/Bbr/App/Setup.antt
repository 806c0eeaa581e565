-- ===== src/Bbr/App/Setup.antt =====
-- The setters of MyBbrSenderApp, MyBbrVideoSenderApp and MyBbrReceiverApp in their headers, and those that
-- open the files of the receiver. An opened file is empty.
use stupid_simple.Base.{ℕ, true, []}
use stupid_simple.Base.Int.{ℤ}
use stupid_simple.Frames.{FakeVideoGenerator}
use stupid_simple.Bbr.App.Sender.{MyBbrSenderApp}
use stupid_simple.Bbr.App.Video.{MyBbrVideoSenderApp}
use stupid_simple.Bbr.App.Receiver.{MyBbrReceiverApp}

module _ {F : Type 0} where
  -- SetTimeOffset
  unfoldable pub set_time_offset : MyBbrSenderApp F → ℤ → MyBbrSenderApp F
  set_time_offset s offset = record s { offset = offset }

  unfoldable pub video_set_time_offset : MyBbrVideoSenderApp F → ℤ → MyBbrVideoSenderApp F
  video_set_time_offset s offset = record s { offset = offset }

  -- SetVideoSource
  unfoldable pub set_video_source :
      MyBbrVideoSenderApp F → FakeVideoGenerator → MyBbrVideoSenderApp F
  set_video_source s source = record s { source = source }

-- set_duration, SetTimeOffset, EnableRateRecord and EnableLossRecord
unfoldable pub receiver_set_duration : MyBbrReceiverApp → ℕ → MyBbrReceiverApp
receiver_set_duration s ms = record s { duration = ms }

unfoldable pub receiver_set_time_offset : MyBbrReceiverApp → ℤ → MyBbrReceiverApp
receiver_set_time_offset s offset = record s { offset = offset }

unfoldable pub receiver_enable_rate_record : MyBbrReceiverApp → MyBbrReceiverApp
receiver_enable_rate_record s = record s { enable_rate_record = true; f_rate = [] }

unfoldable pub receiver_enable_loss_record : MyBbrReceiverApp → MyBbrReceiverApp
receiver_enable_loss_record s = record s { enable_loss_record = true; f_loss = [] }
