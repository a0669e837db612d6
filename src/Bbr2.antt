-- ===== src/Bbr2.antt =====
-- ns3/mp-video/model/congestion/bbr_sender_v2.*: the congestion controller that probes by addition.
pub mod Flight
pub mod State
pub mod Modes
pub mod Acks
pub mod Events
pub mod Reach
pub mod Quiet
pub mod Settled
pub mod Measured
pub mod Follows
pub mod Running
pub mod Runs
pub mod Reports
pub mod Startup
pub mod Exact
mod Examples
