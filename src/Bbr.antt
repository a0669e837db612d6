-- ===== src/Bbr.antt =====
-- ns3/mp-video/model/congestion/bbr_sender_v1.*: the modes of the congestion controller.
pub mod State
pub mod Modes
pub mod Rates
pub mod Clusters
pub mod Estimates
pub mod Averages
pub mod Gains
pub mod Acks
mod Examples
