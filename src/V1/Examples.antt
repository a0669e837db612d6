-- ===== src/V1/Examples.antt =====
-- Concrete inputs of the second line.
use mp_video_simulation.Prelude.{
  ℕ, ◌≡◌, ◌<◌, ◌↔◌, refl, true, false, some, List, [], ◌∷◌, length, arith,
}
use mp_video_simulation.Prelude.Calls.{Ensures}
use mp_video_simulation.V1.Wire.{VideoPacketReceiveWrapper, serialize, deserialize, new_received}
use mp_video_simulation.V1.Wire.RoundTrip.{on_the_wire, deserialize-serialize}
use mp_video_simulation.V1.Samples.{quic, segment, segment-IsSegment, packet}
use mp_video_simulation.V1.FrameBuffer.{new_frame}
use mp_video_simulation.V1.FrameBuffer.Completion.{
  on_new_packets, arrived, on_new_packets_complete_iff,
}
use mp_video_simulation.V1.MpReceiver.{MpReceiver, Event, packet_event, timer_event, init}
use mp_video_simulation.V1.MpReceiver.Order.{Hands, handle_all, handle_all-Hands, reported}
use mp_video_simulation.V1.MpReceiver.Liveness.{IsBeating, beats, beats-Beats}

deserialize-serialize_example :
    (bytes : List ℕ) × ((serialize quic 1400 60 packet).1 ≡ some bytes)
    × (length bytes ≡ 18)
    × (deserialize quic bytes (new_received 70)
        ≡ some (record (new_received 70) {
          segment = some (on_the_wire (record segment { send_ts = 15 }));
        }))
unfolding packet
deserialize-serialize_example =
    deserialize-serialize quic 1400 60 70 packet segment refl segment-IsSegment refl (omega arith)

-- The packets of a frame of two, by index.
abbrev received : ℕ → VideoPacketReceiveWrapper
received i = record (new_received 70) { segment = some (record segment { index = i }) }

abbrev arrivals : List (VideoPacketReceiveWrapper × ℕ)
arrivals = (received 1, 70) ∷ (received 1, 71) ∷ (received 0, 72) ∷ []

on_new_packets_complete_iff_example :
    ((on_new_packets arrivals (new_frame 1 7 2)).is_completed ≡ true)
    ↔ ((i : ℕ) → i < 2 → arrived i arrivals ≡ true)
on_new_packets_complete_iff_example =
    on_new_packets_complete_iff 1 7 2 arrivals (omega arith) (omega arith)
      (omega arith, (omega arith, (omega arith, tt)))

abbrev receiver : MpReceiver
receiver = record init { trace_frame_delay = true }

abbrev events : List Event
events =
    packet_event 70 (received 1)
    ∷ timer_event 71
    ∷ packet_event 72 (received 0)
    ∷ timer_event 73
    ∷ []

handle_all-Hands_example : Ensures (Hands receiver) (handle_all events receiver)
handle_all-Hands_example =
    handle_all-Hands events receiver (tt, (tt, (tt, (tt, tt))))
      (record { traced = refl; ordered = tt })

-- One frame waits for its second packet since 70.
abbrev waiting : MpReceiver
waiting = record receiver {
  heart_timer = true;
  first_packet = false;
  frames = (7, record (new_frame 1 7 2) { max_recv_ts = 70; received = 1 }) ∷ [];
}

beats-Beats_example :
    let (s', out) = beats 302 70 waiting in
    IsBeating 70 s' × (s'.frames ≡ []) × (reported out ≡ 7 ∷ [])
beats-Beats_example =
    beats-Beats 301 70 70 waiting
      (record { on = refl; traced = refl; pending = refl; old = (omega arith, tt) }) (omega arith)
      (omega arith)
