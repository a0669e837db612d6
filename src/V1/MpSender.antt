-- ===== src/V1/MpSender.antt =====
-- ns3/mp-video/model/mp_sender_v1.cc: the sender that cuts frames and spreads them over the paths.
pub mod State
pub mod Video
pub mod Cutting
pub mod Frames
mod Examples
