-- ===== src/MpSender.antt =====
-- ns3/mp-video/model/mpsender.cc: the sender that spreads the segments of a frame over the paths.
pub mod State
pub mod Video
pub mod Sending
pub mod EndToEnd
mod Examples
pub mod Frames
