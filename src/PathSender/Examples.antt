-- ===== src/PathSender/Examples.antt =====
-- Concrete inputs of the sending end.
use mp_video_simulation.Prelude.{
  ◌≡◌, ◌≤◌, ◌<◌, ◌+◌, ◌*◌, ◌%◌, ◌++◌, refl, true, some, [], ◌∷◌, arith, u32_mod, All, sum, length,
}
use mp_video_simulation.Prelude.Calls.{Ensures}
use mp_video_simulation.Prelude.OrderedMap.{sum_values}
use mp_video_simulation.Common.{Controller, path_conning}
use mp_video_simulation.Protocol.{Segment, Body, wire_size, pad_header_len}
use mp_video_simulation.PathSender.State.{PathSender, init}
use mp_video_simulation.PathSender.Buffer.{number_segment}
use mp_video_simulation.PathSender.Pacing.{put, pad_sizes}
use mp_video_simulation.PathSender.Handlers.{stop_path, processing_msg}
use mp_video_simulation.PathSender.Queue.{
  segments, IsAccounted, IsQueue, enter, take_first, run, run_fifo,
}
use mp_video_simulation.PathSender.Connection.{Connects, processing_msg-Connects}
use mp_video_simulation.PathSender.Sending.{
  IsUsable, put-IsQueue, pad_sizes_lem, stop_path-pending_len,
}

abbrev video : Segment
video = record {
  packet_id = 0;
  fid = 1;
  timestamp = 40;
  index = 0;
  total = 1;
  ftype = 0;
  payload_type = 0;
  remb = 1;
  send_ts = 0;
  transport_seq = 0;
  data_size = 900;
  bytes = [];
}

-- A path in the middle of its set-up, and one that is set up.
abbrev dialling : PathSender
unfolding init
dialling = record (init 0 0 0) {
  pid = 1;
  state = path_conning;
  bound = true;
  mpsender = some (record { uid = 7; first_ts = 0 });
}

abbrev usable : PathSender
usable = record (dialling) { controller = Controller.congestion; send_bucket = true }

abbrev full : PathSender
full = record (usable) { trans_seq = 3; len = 930; pending_len = 930; buf = (2, video) ∷ [] }

usable-IsUsable : IsUsable usable
unfolding dialling
usable-IsUsable = record {
  session = record { uid = 7; first_ts = 0 };
  registered = refl;
  equipped = λ e. cc;
  paced = λ n. refl;
}

usable-IsQueue : IsQueue usable
unfolding dialling
usable-IsQueue = record { accounted = record { len_eq = refl; pending_eq = refl }; below = tt }

full-IsAccounted : IsAccounted full
full-IsAccounted = record { len_eq = refl; pending_eq = refl }

put-IsQueue_example :
    Ensures
      (λ s' out.
        IsQueue s' × (segments s'.buf ≡ segments usable.buf ++ number_segment video usable ∷ []))
      (put video 50 50 usable)
unfolding dialling
put-IsQueue_example =
    put-IsQueue video 50 50 usable usable-IsUsable refl usable-IsQueue (omega arith)

run_fifo_example :
    let (s', taken, entered) = run (enter video ∷ take_first ∷ enter video ∷ []) usable in
    IsQueue s' × (taken ++ segments s'.buf ≡ segments usable.buf ++ entered)
unfolding dialling
run_fifo_example =
    run_fifo (enter video ∷ take_first ∷ enter video ∷ []) usable usable-IsQueue (omega arith)

processing_msg-Connects_example : Ensures (Connects true dialling) (
    processing_msg
      (some (record { ver = 1; uid = 7; body = Body.connect_ack 10 0 }))
      60
      60
      dialling)
unfolding dialling
processing_msg-Connects_example =
    processing_msg-Connects (record { ver = 1; uid = 7; body = Body.connect_ack 10 0 }) 60 60
      dialling
      (record { session = record { uid = 7; first_ts = 0 }; registered = refl; equipped = λ e. cc })
      tt

stop_path-pending_len_example :
    Ensures
      (λ s' out.
        (s'.buf ≡ []) × (s'.len ≡ 0) × (s'.pending_len ≡ sum_values wire_size full.buf % u32_mod))
      (stop_path full)
unfolding dialling
stop_path-pending_len_example = stop_path-pending_len full full-IsAccounted refl (λ e. cc)

pad_sizes_lem_example :
    let sizes = pad_sizes 1200 1200 in
    All (λ n. (100 ≤ n) × (n ≤ 500)) sizes
    × (sum sizes ≤ 1200)
    × (1200 < sum sizes + pad_header_len * length sizes + 100)
pad_sizes_lem_example = pad_sizes_lem 1200 1200 (omega arith)
