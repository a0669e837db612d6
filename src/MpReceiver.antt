-- ===== src/MpReceiver.antt =====
-- ns3/mp-video/model/mpreceiver.cc: the receiver that puts the frames of all paths together.
pub mod State
pub mod Delivery
pub mod Cache
pub mod Slots
pub mod Order
pub mod Reassembly
pub mod Intake
pub mod Integrity
pub mod Runs
mod Examples
