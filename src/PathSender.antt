-- ===== src/PathSender.antt =====
-- ns3/mp-video/model/pathsender.cc: the sending end of a path.
pub mod State
pub mod Buffer
pub mod Rates
pub mod Pacing
pub mod Handlers
pub mod Queue
pub mod Connection
pub mod Sending
mod Examples
