-- ===== src/Lib.antt =====
-- Verification of stupid_simple: test programs for congestion control over QUIC and WebRTC.
--
-- The program's parts and the modules that model them:
--
-- quic-test/mybbr is a congestion controller in the manner of BBR, a pacer, and three applications.
--   Bbr.Cluster, Bbr.Sampler: SentClusterInfo and the part of MyBbrSender that creates, links, reads
--     and removes clusters (my_bbr_sender.cc: AddPacketInfoSampler, RemoveClusterLE, SentClusterInfo
--     and its methods). connection_info_ is a list in ascending order of the rounds; a cluster
--     pointer is the round of the cluster it points to, so that `none` is a use of a dangling
--     pointer or of the first packet of a cluster without packets.
--   Bbr.State, Bbr.Modes, Bbr.Sender: the rest of MyBbrSender. OnPacketSent is `on_packet_sent`,
--     OnAck is `on_ack`, and the private methods have their names in snake case. A pacing gain counts
--     quarters. Bbr.Env holds what the controller takes from the QUIC library: bandwidths (bits per
--     second), the windowed filter and the random numbers are parameters.
--   Bbr.Safety and its children: the invariant of clusters, queue and maps, operation by operation,
--     and runs of the sender. LastAck and Overtaken are about last_ack_seq_.
--   Bbr.Machine and its children: a mode machine on the four fields of Safety.Control, and runs of the
--     sender.
--   Bbr.ProbeRtt: the calls in PROBE_RTT.
--   Bbr.Pacing: MyPacingSender, and runs of it.
--   Bbr.App and its children: MyBbrSenderApp (Sender), MyBbrVideoSenderApp (Video) and
--     MyBbrReceiverApp (Receiver), one function per method; Process takes the time and the datagram
--     that the socket returns, and the datagrams sent are a field. Delivery says what a peer makes of
--     a datagram, Acks and Losses what the receiver answers and records, Queue what becomes of the
--     frame queue, and Paced and Safety are about the loop of the sender.
--   Bbr.Session and its children: MyBbrSenderApp and MyBbrReceiverApp together. A step is a call of
--     Process of either, with any datagram that the other has sent, or none. Receiving, Sending and
--     the two Turns are about one call, Safety and Bytes about whole sessions.
-- quic-test/myquic/my_quic_header.cc is Header, with QuicDataWriter, QuicDataReader and the
--   enumerators of quic_types.h as the parameters Wire and QuicTypes.
-- quic-test/myquic/my_quic_receiver.{h,cc} is Quic.Receiver and its child Process (`quic_process`), with
--   Quic.Steps and Quic.AckTimer on its acknowledgement timer. The received packet manager and what
--   the framer writes of an acknowledgement are in the parameter QuicLib of Quic.
-- quic-test/myquic/my_quic_sender.{h,cc} is Quic.Sender with its child Process, and
--   my_quic_video_sender.{h,cc} is Quic.Video (sending) with Quic.Video.Process; Quic.Sending has what
--   they share, and the parameter SendLib for QuicSentPacketManager and for the calls that the framer
--   makes of its visitor. Quic.Video.Queues is a specification of the video sender's two queues and of
--   what it sends, with Moves, Refines and Run on Process; Quic.Video.Safety is about its buffers, and
--   Quic.Video.Rounds, Quic.Video.Loop and Quic.Retransmission about the loops of SendRetransmission.
--   Quic.Protocol is how both senders use their manager, with Timed for the one and Video and VideoRun
--   for the other, and Quic.Faults is about the datagrams that MyQuicSender gets. Quic.Delivery,
--   Quic.Delays and Quic.Answers are about what a peer makes of a datagram.
-- quic-test/myquic/my_quic_utils.cc and fakevideogenerator.cc are Frames, as is the second FrameSplit
--   of mininet-webrtc/sender.cc.
-- mininet-webrtc is Mininet: Sender and Dispatch (sender.cc: frames in, and what goes out or comes
--   back), Receiver (receiver.cc), Rtt (UpdateRtt of both), Generator (fakevideosource.cc)
--   and RtpModule (fake_rtp_rtcp_impl.cc). Messages and Agreement are about both sides: what a message
--   of Sender makes Receiver report, and what a ping measures.
--   The WebRTC pacer and controllers, the encoder and the network are the list of calls made to them;
--   the codec of razor/sim_proto.c is the parameter Codec.
-- Bbr.App.Setup, Quic.Setup and Mininet.Setup are the setters that the parts call before they run.
-- Base has the shared lists, maps, tests and integers, and Examples concrete parameters and runs.
--
-- Numbers: 16- and 32-bit counters wrap. Times are microseconds, or milliseconds in mininet-webrtc;
--   times, byte counts and sums of 64 bits are not bounded, which says that no run lasts until they
--   overflow. Differences of times are integers.
-- Fuel: remove_cluster_le runs on the number of clusters and drop_stale on the number of stale ones;
--   padding_loop of mininet-webrtc runs on the bytes in `remain` and one more, which is enough since
--   each round takes at least 500 of them; the theorems say that none of them runs out. The
--   loops of SendRetransmission take their fuel as an argument: what they need is a theorem's condition.
--
-- Not modelled: my_quic_framer.cc (a changed copy of Chromium's framer) and quic_framer_visitor.cc, the
--   copies of other libraries (mininet-webrtc/razor, scoped_ptr, cmdline.h, net/posix.c), the empty
--   functions of fake_rtp_rtcp_impl.h, clocks, sockets, files and main functions.
pub mod Base
pub mod Frames
pub mod Header
pub mod Bbr
pub mod Quic
pub mod Mininet
pub mod Examples
