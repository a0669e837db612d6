-- ===== src/Bbr2/Events.antt =====
-- What comes to a sender of ns3/mp-video/model/congestion: packets that are sent and acknowledged.
use mp_video_simulation.Prelude.{ℕ, ◌+◌, ◌<◌, ◌≤◌, u64_mod}
use mp_video_simulation.Bbr2.Flight.{Flight}

-- An acknowledgement comes with the answer that RandUint64 gives then.
pub data Event : Type 0 where
  sent_event : (now packet_number bytes : ℕ) → Event
  ack_event : (draw now packet_number : ℕ) → Event

-- The bytes that are sent do not wrap, and only what was sent is acknowledged.
abbrev pub IsAllowed : Event → Flight → Type 0
IsAllowed (sent_event now packet_number bytes) f = f.sampler.total_bytes_sent + bytes < u64_mod
IsAllowed (ack_event draw now packet_number) f = packet_number ≤ f.last_sent_packet
