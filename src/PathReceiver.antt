-- ===== src/PathReceiver.antt =====
-- ns3/mp-video/model/pathreceiver.cc: the receiving end of one path.
pub mod Tables
pub mod Delays
pub mod Ack
pub mod State
pub mod Handlers
mod Examples
