-- ===== src/Quic/Setup.antt =====
-- The setters of MyQuicReceiver, MyQuicSender and MyQuicVideoSender in their headers, and those that open
-- the files of the receiver. An opened file is empty.
use stupid_simple.Base.{ℕ, some, [], true}
use stupid_simple.Base.Int.{ℤ}
use stupid_simple.Frames.{FakeVideoGenerator}
use stupid_simple.Quic.Receiver.{MyQuicReceiver}
use stupid_simple.Quic.Sender.{MyQuicSender}
use stupid_simple.Quic.Video.{MyQuicVideoSender}

module _ {R : Type 0} where
  -- set_duration, SetTimeOffset, EnableRateRecord, EnableLossRecord and EnableOwdRecord
  unfoldable pub quic_receiver_set_duration : MyQuicReceiver R → ℕ → MyQuicReceiver R
  quic_receiver_set_duration s ms = record s { duration = ms }

  unfoldable pub quic_receiver_set_time_offset : MyQuicReceiver R → ℤ → MyQuicReceiver R
  quic_receiver_set_time_offset s offset = record s { offset = offset }

  unfoldable pub open_rate_record : MyQuicReceiver R → MyQuicReceiver R
  open_rate_record s = record s { f_rate = some [] }

  unfoldable pub open_loss_record : MyQuicReceiver R → MyQuicReceiver R
  open_loss_record s = record s { f_loss = some [] }

  unfoldable pub open_owd_record : MyQuicReceiver R → MyQuicReceiver R
  open_owd_record s = record s { f_owd = some [] }

module _ {S : Type 0} where
  -- SetTimeOffset
  unfoldable pub quic_set_time_offset : MyQuicSender S → ℤ → MyQuicSender S
  quic_set_time_offset s offset = record s { offset = offset }

  -- SetVideoSource
  unfoldable pub quic_set_video_source :
      MyQuicVideoSender S → FakeVideoGenerator → MyQuicVideoSender S
  quic_set_video_source s source = record s { source = source }

  -- EnableRateRecord
  unfoldable pub quic_video_enable_rate_record : MyQuicVideoSender S → MyQuicVideoSender S
  quic_video_enable_rate_record s = record s { enable_log = true; f_rate = some [] }
