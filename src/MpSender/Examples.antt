-- ===== src/MpSender/Examples.antt =====
-- Concrete inputs of the sender.
use mp_video_simulation.Prelude.{refl, All, ℕ, ◌+◌, ◌≡◌, List, [], ◌∷◌, arith, length}
use mp_video_simulation.Frame.{frame_split}
use mp_video_simulation.Protocol.{Segment}
use mp_video_simulation.MpReceiver.Delivery.{assemble}
use mp_video_simulation.MpSender.Video.{FrameHead, cut_frame}
use mp_video_simulation.MpSender.Sending.{arrived, assemble-cut_frame}
use mp_video_simulation.Prelude.Calls.{Ensures}
use mp_video_simulation.Prelude.Runs.{run}
use mp_video_simulation.Prelude.OrderedMap
use mp_video_simulation.MpReceiver.State.{Env, MultipathReceiver, init, register_data_sink}
use mp_video_simulation.MpReceiver.Cache.{find_frame}
use mp_video_simulation.MpReceiver.Runs.{
  Event, segment_event, timer_event, path_event, handle, fresh-IsRunning,
}
use mp_video_simulation.MpSender.EndToEnd.{IsPiece, IsVideo, handle_all-IsVideo}

abbrev head : FrameHead
head = record { fid = 3; timestamp = 40; ftype = 0; payload_type = 0; total = 1 }

abbrev bytes : List ℕ
bytes = 8 ∷ 9 ∷ 10 ∷ []

abbrev segment : Segment
segment = record {
  packet_id = 0;
  fid = 3;
  timestamp = 40;
  index = 0;
  total = 1;
  ftype = 0;
  payload_type = 0;
  remb = 1;
  send_ts = 0;
  transport_seq = 0;
  data_size = 2;
  bytes = 8 ∷ 9 ∷ [];
}

assemble-cut_frame_example :
    assemble (arrived (λ i. i + 1) (cut_frame head 0 (frame_split (length bytes)) bytes)) ≡ bytes
assemble-cut_frame_example = assemble-cut_frame (λ i. i + 1) head bytes (omega arith) (omega arith)

-- Frames of three bytes, each in one segment.
abbrev head_of : ℕ → FrameHead
head_of fid = record { fid = fid; timestamp = 40; ftype = 0; payload_type = 0; total = 1 }

abbrev video : ℕ → List ℕ
video fid = 8 ∷ 9 ∷ fid ∷ []

abbrev piece : ℕ → Segment
piece fid = record {
  packet_id = fid;
  fid = fid;
  timestamp = 40;
  index = 0;
  total = 1;
  ftype = 0;
  payload_type = 0;
  remb = 1;
  send_ts = 44;
  transport_seq = fid;
  data_size = 3;
  bytes = 8 ∷ 9 ∷ fid ∷ [];
}

abbrev env : Env
env = record {
  now = 50;
  sim_now = 50;
  pid_of = λ path. path;
  waitting_of = λ path. 20;
  first_ts_of = λ path. 5;
}

abbrev fresh : MultipathReceiver
unfolding init register_data_sink
fresh = (register_data_sink (init 1)).0

abbrev exchange : List Event
exchange =
    path_event 4
    ∷ segment_event env 4 (piece 1)
    ∷ segment_event env 4 (piece 2)
    ∷ segment_event env 4 (piece 1)
    ∷ timer_event env
    ∷ []

piece-IsPiece : (fid : ℕ) → IsPiece head_of video (piece fid)
unfolding cut_frame frame_split
piece-IsPiece fid = (_, refl, refl, refl)

handle_all-IsVideo_example :
    Ensures (λ t out. All (IsVideo head_of video) out) (run handle exchange fresh)
unfolding find_frame fresh handle OrderedMap.insert
handle_all-IsVideo_example =
    handle_all-IsVideo head_of video (λ fid. (omega arith, omega arith)) exchange fresh
      (fresh-IsRunning 1) tt
      (
        (tt, tt),
        (
          ((omega arith, omega arith), piece-IsPiece 1),
          (
            ((omega arith, omega arith), piece-IsPiece 2),
            (((omega arith, omega arith), piece-IsPiece 1), ((tt, tt), tt)),
          ),
        ),
      )
