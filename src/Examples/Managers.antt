-- ===== src/Examples/Managers.antt =====
-- Calls of Process of the senders of quic-test/myquic, and what their managers see of them.
use stupid_simple.Examples.{write_bytes}
use stupid_simple.Quic.Sender.{new_quic_sender, MyQuicSender}
use stupid_simple.Quic.Sender.Process.{quic_sender_process}
use stupid_simple.Header.{quic_header, get_min_seq_length, read_sequence_number_length, read_byte}
use stupid_simple.Quic.Video.{new_quic_video_sender, MyQuicVideoSender}
use stupid_simple.Base.{
  ℕ, ◌^◌, ◌<◌, ◌≡◌, ◌⊎◌, refl, Bool, true, Option, none, some, List, [], ◌∷◌, length, take,
}
use stupid_simple.Frames.{new_generator, get_frame, frame_split}
use stupid_simple.Examples.Acknowledgements.{some_clock}
use stupid_simple.Examples.Transmission.{
  some_sending, some_sending-IsPending, some_sender, some_video,
}
use stupid_simple.Quic.Video.Process.{quic_video_process}
use stupid_simple.Quic.Protocol.{Managed}
use stupid_simple.Quic.Protocol.Timed as Timed
use stupid_simple.Quic.Protocol.Timed.{timed_sender-Managed}
use stupid_simple.Quic.Protocol.VideoRun as VideoRun
use stupid_simple.Quic.Protocol.VideoRun.{video_sender-Managed}
use stupid_simple.Quic.Faults.{Overruns, sender_process-cases}

abbrev some_datagram : List ℕ
some_datagram = 0 ∷ 1 ∷ 2 ∷ []

abbrev or_sender : Option (Bool × MyQuicSender (List ℕ)) → MyQuicSender (List ℕ)
or_sender none = some_sender
or_sender (some r) = r.1

-- A call with a datagram.
called_once : MyQuicSender (List ℕ)
called_once = or_sender (quic_sender_process some_sending some_clock 2 some_sender some_datagram)

called_once-Reached : Timed.Reached some_sending some_clock called_once
unfolding called_once quic_sender_process read_sequence_number_length read_byte new_quic_sender
called_once-Reached = Timed.call 2 some_sender called_once some_datagram true Timed.begin refl

timed_sender-Managed_example :
    Managed some_sending (2 ^ 32) called_once.seq called_once.sent_packet_manager
timed_sender-Managed_example =
    timed_sender-Managed some_sending some_clock called_once called_once-Reached

abbrev or_video : Option (Bool × MyQuicVideoSender (List ℕ)) → MyQuicVideoSender (List ℕ)
or_video none = some_video
or_video (some r) = r.1

filmed_once : MyQuicVideoSender (List ℕ)
filmed_once = or_video (quic_video_process some_sending some_clock 2 some_video some_datagram)

filmed_once-Reached : VideoRun.Reached some_sending some_clock (new_generator 10 8000) filmed_once
unfolding filmed_once quic_video_process get_frame new_quic_video_sender new_generator frame_split
    quic_header write_bytes get_min_seq_length read_sequence_number_length read_byte
filmed_once-Reached = VideoRun.call 2 some_video filmed_once some_datagram true VideoRun.begin refl

video_sender-Managed_example :
    Managed some_sending (2 ^ 64) filmed_once.seq filmed_once.sent_packet_manager
video_sender-Managed_example =
    video_sender-Managed some_sending some_clock (new_generator 10 8000) filmed_once
      filmed_once-Reached

-- A datagram that ends in its header.
abbrev cut_short : List ℕ
cut_short = 0 ∷ []

sender_process-cases_example :
    ((0 < length cut_short)
      × Overruns some_sending (take 1500 cut_short)
      × ((fuel : ℕ)
          → quic_sender_process some_sending some_clock fuel some_sender cut_short ≡ none))
    ⊎ ((¬ ((0 < length cut_short) × Overruns some_sending (take 1500 cut_short)))
        × (fuel : ℕ) × (r : Bool × MyQuicSender (List ℕ)) × (quic_sender_process some_sending
              some_clock fuel some_sender cut_short
            ≡ some r))
sender_process-cases_example =
    sender_process-cases some_sending some_clock (λ m. m) some_sending-IsPending some_sender
      cut_short
