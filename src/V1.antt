-- ===== src/V1.antt =====
-- ns3/mp-video/model/*_v1.* and video_proto.*: the second line of senders and receivers.
pub mod Wire
pub mod FrameBuffer
pub mod MpReceiver
pub mod Doubles
pub mod PathSender
pub mod Schedule
pub mod MpSender
pub mod PathReceiver
pub mod EndToEnd
mod Samples
mod Examples
