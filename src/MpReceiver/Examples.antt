-- ===== src/MpReceiver/Examples.antt =====
-- Concrete inputs of the multipath receiver.
use mp_video_simulation.Prelude.{ℕ, none, some, List, [], ◌∷◌, ◌++◌, arith}
use mp_video_simulation.Prelude.OrderedMap
use mp_video_simulation.Protocol.{Segment}
use mp_video_simulation.MpReceiver.State.{Env, MultipathReceiver, init, register_data_sink}
use mp_video_simulation.MpReceiver.Cache.{deliver_to_cache, find_frame}
use mp_video_simulation.MpReceiver.Order.{forwarded, Rises}
use mp_video_simulation.MpReceiver.Intake.{IsRunning}
use mp_video_simulation.MpReceiver.Runs.{
  Event, path_event, segment_event, timer_event, stop_event, handle, fresh-IsRunning,
  handle_all-Delivers,
}
use mp_video_simulation.Prelude.Runs.{run}
use mp_video_simulation.Prelude.Calls.{Ensures}

abbrev env : Env
env = record {
  now = 50;
  sim_now = 50;
  pid_of = λ path. path;
  waitting_of = λ path. 20;
  first_ts_of = λ path. 5;
}

-- The packets of a frame of two.
abbrev packet : ℕ → Segment
packet i = record {
  packet_id = i;
  fid = 1;
  timestamp = 3;
  index = i;
  total = 2;
  ftype = 0;
  payload_type = 0;
  remb = 1;
  send_ts = 9;
  transport_seq = i;
  data_size = 2;
  bytes = i ∷ 7 ∷ [];
}

abbrev fresh : MultipathReceiver
unfolding init register_data_sink
fresh = (register_data_sink (init 1)).0

-- Both packets, the second first, and a beat of the timer.
abbrev exchange : List Event
exchange =
    path_event 4
    ∷ segment_event env 4 (packet 1)
    ∷ segment_event env 4 (packet 0)
    ∷ timer_event env
    ∷ stop_event
    ∷ []

handle_all-Delivers_example :
    Ensures
      (λ t out. IsRunning t × Rises fresh.min_fid (forwarded out) t.min_fid)
      (run handle exchange fresh)
unfolding find_frame fresh handle OrderedMap.insert
handle_all-Delivers_example =
    handle_all-Delivers exchange fresh (fresh-IsRunning 1)
      (tt, ((omega arith, omega arith), ((omega arith, omega arith), (tt, (tt, tt)))))

-- Both packets, the second first: the frame goes up.
abbrev deliver_both : List ℕ
unfolding deliver_to_cache
deliver_both = elim (deliver_to_cache env 4 (packet 1) fresh) [
  | none ↦ []
  | some (s, out) ↦ elim (deliver_to_cache env 4 (packet 0) s) [
    | none ↦ []
    | some (s', out') ↦ forwarded (out ++ out')
  ]
]
