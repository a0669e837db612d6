-- ===== src/PathReceiver/Handlers/Ensures.antt =====
-- What the calls of ns3/mp-video/model/pathreceiver.cc hand to the frame assembly.
pub use mp_video_simulation.Prelude.Calls.{Ensures, Ensures-then, Ensures-map, Ensures-if}
use mp_video_simulation.Prelude.{◌≡◌, refl, ap, List, [], ◌∷◌, ◌++◌}
use mp_video_simulation.Protocol.{Segment}
use mp_video_simulation.PathReceiver.State.{
  Output, send, schedule_check_ping, on_received_packet, on_rtt_update, packet_delay,
  deliver_to_cache,
}

-- The segments that a call hands to the frame assembly.
abbrev pub delivered : List Output → List Segment
delivered [] = []
delivered (deliver_to_cache pid seg ∷ out) = seg ∷ delivered out
delivered (send peer m ∷ out) = delivered out
delivered (schedule_check_ping delay ∷ out) = delivered out
delivered (on_received_packet now overhead ssrc seq ∷ out) = delivered out
delivered (on_rtt_update average longest ∷ out) = delivered out
delivered (packet_delay packet_id owd ∷ out) = delivered out

pub delivered-append : (xs ys : List Output) → delivered (xs ++ ys) ≡ delivered xs ++ delivered ys
delivered-append [] ys = refl
delivered-append (deliver_to_cache pid seg ∷ out) ys = ap (◌∷◌ seg) (delivered-append out ys)
delivered-append (send peer m ∷ out) ys = delivered-append out ys
delivered-append (schedule_check_ping delay ∷ out) ys = delivered-append out ys
delivered-append (on_received_packet now overhead ssrc seq ∷ out) ys = delivered-append out ys
delivered-append (on_rtt_update average longest ∷ out) ys = delivered-append out ys
delivered-append (packet_delay packet_id owd ∷ out) ys = delivered-append out ys
