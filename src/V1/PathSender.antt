-- ===== src/V1/PathSender.antt =====
-- ns3/mp-video/model/path_sender_v1.cc and path_sender_v1.h: the sending end of a path.
pub mod State
pub mod Queue
pub mod Acks
pub mod Handlers
pub mod Invariant
pub mod Runs
mod Examples
