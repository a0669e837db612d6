-- ===== src/Lib.antt =====
-- The multipath video transport of ns3/mp-video: a sender cuts a frame into segments and spreads
-- them over several paths, each path sends its segments under a pacer, each receiving end keeps
-- which packets of its path have come in, and one receiver puts the frames of all paths together
-- and hands them up in order.
--
-- Files and what they model (paths from the repository's root):
--   Prelude          shared helpers: tests on numbers, lists, machine words, std::set and std::map
--                    as ordered lists (OrderedSet, OrderedMap), calls that may fail (Calls) and
--                    sequences of them (Runs)
--   Frame            ns3/mp-video/model/mpcommon.cc, FrameSplit
--   Protocol         ns3/mp-video/model/sim_proto.h, the messages as values
--   Common           mpcommon.h, pathcommon.h and sessioninterface.h: states, modes, round trips
--   PathReceiver     pathreceiver.cc and .h: Tables (UpdataLoss, UpdataRecvTable, Consume), Delays
--                    (UpdateRtt), Ack (VideoRealAck), State, Handlers (OnReceiveSegment,
--                    ProcessingMsg and what they call)
--   MpReceiver       mpreceiver.cc and .h: State, Delivery (CheckDeliverFrame, DeliverFrame,
--                    PacketConsumed), Cache (DeliverToCache, HeartBeat, Process, Stop)
--   PathSender       pathsender.cc and .h: State, Buffer (put, get_segment, the list of sent
--                    segments), Rates (UpdateRtt, OnNetworkChanged), Pacing (TimeToSendPacket,
--                    TimeToSendPadding, PacingSendSegment), Handlers (SendConnect, RecvSegAck,
--                    ProcessingMsg, Stop)
--   MpSender         mpsender.cc and .h: State (RegisterPath, NotifyPathUsable, Stop), Video
--                    (SendVideo, SchedulePendingBuf, PacketSchedule); EndToEnd puts it together with
--                    MpReceiver
--   Schedule         schedule.cc, roundrobinschedule.cc, minqueueschedule.cc (MinCost), wrr.cc,
--                    wrrschedule.cc (WrrSchedule) and balancecostschedule.cc (BalanceCost)
--   V1               the second line, the files with v1 in their names and video_proto.cc:
--     Wire           VideoPacketWrapper and VideoPacketReceiveWrapper with their bytes
--     FrameBuffer    VideoFrameBuffer
--     MpReceiver     mp_receiver_v1.cc
--     PathSender     path_sender_v1.cc: State, Queue (packets in and out), Acks (OnAck, UpdateRtt,
--                    DetectLoss), Handlers (HeartBeat, OnBandwidthUpdate, OnIncomingMessage)
--     PathReceiver   path_receiver_v1.cc
--     Schedule       interface_v1.cc
--     MpSender       mp_sender_v1.cc: State (paths, rates), Video (OnVideoFrame, PacketSchedule,
--                    PacketRetrans, CheckStalePacket, Process)
--     Doubles        the operations of floating point that PathSender uses
--     EndToEnd       the parts together: a frame from MpSender over Wire to FrameBuffer
--   AggregateRate    aggregaterate.cc and .h
--   Bbr              congestion/bbr_sender_v1.cc and .h: State, Modes (EnterProbeBandwidthMode,
--                    UpdateGainCyclePhase, MaybeEnterOrExitProbeRtt and the like), Rates (UpdateRtt,
--                    the beginning of OnAck, CalculatePacingRate), Clusters (AddPacketInfoSampler,
--                    RemoveClusterLE), Estimates (OnEstimateBandwidth, OnPacketSent), Averages (OnAck)
--   Sampler          congestion/sampler.cc and .h
--   Bbr2             congestion/bbr_sender_v2.cc and .h: Flight (the packets in flight, their bytes
--                    and the rounds), State, Modes (CheckIfCongestion, MaybeExitStartupOrDrain,
--                    MaybeEnterOrExitDecrease and the like), Acks (OnAck, CalculatePacingRate)
--   Bbr5             congestion/bbr_sender_v5.cc and .h, over the same Flight: State, Rtt, Modes,
--                    Acks
--
-- In each component State holds the object's fields as a record; an operation is a function from
-- the object to the object and the list of its effects in order (messages, timers, calls of other
-- objects). A function has the name of the source's function in small letters with underscores. A
-- call that dereferences a null pointer or indexes outside an array returns `none`. A clock, a
-- random draw and an answer of another object are arguments.
--
-- Words of 8, 16, 32 and 64 bits are natural numbers with their wrap written out. Two loops do
-- not follow a list and run on fuel. In TimeToSendPadding the number of bytes is enough, since each
-- round takes at least one. In GetServer the number of servers is enough, since one of them has the
-- largest weight and the weight that is due never passes it.
--
-- MpSender sees the scheduler as the list of its decisions, and Schedule sees the sender and its
-- paths as a record of operations. PathSender, MpReceiver and PathReceiver meet in the messages of
-- Protocol and in the effects that their calls emit.
--
-- In the second line, too, a path's messages are values; what they hold of a packet are bytes, by way
-- of a quic writer and reader that are a parameter with the laws of reading what was written. The
-- pacer and the congestion controller of a path answer as arguments of the calls that ask them. The
-- code shares a packet between the buffer of sent packets and the queues of the paths, and writes to
-- it the path's time of entering the queue and the time of sending; here each holder has its own
-- value.
--
-- Bbr, Bbr2, Bbr5 and Sampler read a clock that does not run backwards, in microseconds, and do not
-- bound times, rates and packet numbers; counts of bytes and rounds are words of 64 bits. The filter
-- of bandwidths, the bandwidths' own arithmetic and the products with fractions are parameters.
--
-- What comes to an object from outside is a sequence of events in a module Runs (Invariant in the
-- PathSender of the second line): messages, beats of a timer that fire only while it is pending,
-- calls of the objects around it and the stop, in any order that the code's callers can produce.
--
-- Not modelled: the byte codec of the first line (sim_proto.c, sim_proto.inl, cf_stream), a copy of
-- another project's library; sockets; the webrtc and quic libraries; the senders bbr_sender_v3 and
-- v4, variants of v2 and v5; logging and traces to files; the sources and sinks of synthetic video,
-- the mock endpoints and the set-up of simulations, which only drive the parts above; and the float
-- arithmetic of the cost functions of the schedulers, which leaves out the schedulers that the list
-- of files does not name.
pub mod Prelude
pub mod Frame
pub mod Protocol
pub mod Common
pub mod PathReceiver
pub mod MpReceiver
pub mod PathSender
pub mod MpSender
pub mod Schedule
pub mod V1
pub mod AggregateRate
pub mod Bbr
pub mod Sampler
pub mod Bbr2
pub mod Bbr5
