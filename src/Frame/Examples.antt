-- ===== src/Frame/Examples.antt =====
-- Frames that are cut (ns3/mp-video/model/mpcommon.cc).
use mp_video_simulation.Prelude.{◌+◌, ◌/◌, ◌≡◌, ◌≤◌, refl, [], ◌∷◌, sum, All, length, arith}
use mp_video_simulation.Frame.{frame_split, max_split_number}
use mp_video_simulation.Frame.Laws.{Fits, frame_split_total}

three_pieces : frame_split 2500 ≡ 1000 ∷ 1000 ∷ 500 ∷ []
unfolding frame_split
three_pieces = refl

frame_split_total_example :
    (sum (frame_split 2500) ≡ 2500)
    × All Fits (frame_split 2500)
    × (length (frame_split 2500) ≡ (2500 + 999) / 1000)
    × (length (frame_split 2500) ≤ max_split_number)
frame_split_total_example = frame_split_total 2500 (omega arith) (omega arith)
