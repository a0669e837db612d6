-- ===== src/V1/PathReceiver/Examples.antt =====
-- A packet that reaches the receiving end of the second line.
use mp_video_simulation.Prelude.{ℕ, ◌≡◌, refl, true, some, List, arith}
use mp_video_simulation.Prelude.Calls.{Ensures}
use mp_video_simulation.V1.Samples.{quic, segment, segment-IsSegment, packet}
use mp_video_simulation.V1.Wire.{serialize}
use mp_video_simulation.V1.PathReceiver.{PathReceiver, init, stream, on_incoming_message}
use mp_video_simulation.V1.PathReceiver.Incoming.{Delivers, on_incoming_message-Delivers}

abbrev receiver : PathReceiver
receiver = record init { sender = true; mpsink = true; owd = 8 }

on_incoming_message-Delivers_example :
    (bytes : List ℕ) × ((serialize quic 1400 60 packet).1 ≡ some bytes)
    × Ensures
        (Delivers (λ n. n) 3 60 71 packet segment receiver)
        (on_incoming_message (λ n. n) quic (some 5) 71 (stream 3 bytes) receiver)
unfolding packet
on_incoming_message-Delivers_example =
    on_incoming_message-Delivers (λ n. n) quic 3 1400 60 71 packet segment receiver refl
      segment-IsSegment refl (omega arith) refl (omega arith) (omega arith) (omega arith) refl refl
