-- ===== src/Bbr5.antt =====
-- ns3/mp-video/model/congestion/bbr_sender_v5.cc and .h: the delay-based variant of the sender.
pub mod State
pub mod Rtt
pub mod Modes
pub mod Acks
pub mod Backoff
pub mod Settled
pub mod Running
pub mod Runs
mod Examples
