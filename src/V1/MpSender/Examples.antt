-- ===== src/V1/MpSender/Examples.antt =====
-- Concrete frames of the sender of the second line.
use mp_video_simulation.Prelude.{ℕ, ◌≡◌, ◌<◌, ◌↔◌, refl, true, List, [], ◌∷◌, arith, Returns}
use mp_video_simulation.Prelude.Calls.{Ensures}
use mp_video_simulation.Prelude.OrderedMap
use mp_video_simulation.Frame.{frame_split}
use mp_video_simulation.V1.Samples.{quic}
use mp_video_simulation.V1.Wire.{zero_segment}
use mp_video_simulation.V1.FrameBuffer.{new_frame}
use mp_video_simulation.V1.FrameBuffer.Completion.{on_new_packets}
use mp_video_simulation.V1.MpSender.State.{MpSender, init}
use mp_video_simulation.V1.MpSender.Video.{cut_frame, frame_head, id_len_map, on_video_frame}
use mp_video_simulation.V1.MpSender.Frames.{Sends, on_video_frame-Puts}
use mp_video_simulation.V1.EndToEnd.{Journey, travels, transmit_all, transmit_all_complete_iff}

abbrev frame : List ℕ
frame = 4 ∷ 5 ∷ 6 ∷ []

abbrev sender : MpSender
sender = record init { schedule = true; usable_paths = (1, 7) ∷ []; timer_trigger = true }

-- All on the path 1.
abbrev on_one : List (ℕ × ℕ) → ℕ → List (ℕ × ℕ)
on_one [] size = []
on_one ((packet_id, len) ∷ packets) size = (packet_id, 1) ∷ on_one packets size

on_video_frame-Puts_example :
    Ensures (Sends frame) (on_video_frame on_one zero_segment 1 frame 90 sender)
unfolding frame_split cut_frame id_len_map OrderedMap.insert
on_video_frame-Puts_example =
    on_video_frame-Puts on_one zero_segment 1 90 frame sender refl refl refl (omega arith)
      (omega arith) (omega arith) (omega arith) (omega arith) refl (refl, (7, refl), tt)

-- The only packet travels twice.
abbrev journeys : List Journey
journeys =
    record { place = 0; sent_at = 95; received_at = 120 }
    ∷ record { place = 0; sent_at = 99; received_at = 121 }
    ∷ []

transmit_all_complete_iff_example :
    Returns
      (λ arrivals.
        ((on_new_packets arrivals (new_frame 1 1 1)).is_completed ≡ true)
        ↔ ((i : ℕ) → i < 1 → travels i journeys ≡ true))
      (transmit_all quic
        (cut_frame (frame_head 1 90 1 sender) 0 1 (3 ∷ []) frame zero_segment)
        journeys)
unfolding frame_split
transmit_all_complete_iff_example =
    transmit_all_complete_iff quic 1 90 frame zero_segment sender journeys (omega arith)
      (omega arith) (omega arith) (omega arith) refl (omega arith, (omega arith, tt))
