-- ===== src/MpReceiver/Cache.antt =====
-- ns3/mp-video/model/mpreceiver.cc: `DeliverToCache`, `HeartBeat`, `Process` and `Stop`.
use mp_video_simulation.Prelude.{
  ℕ, ◌-◌, Bool, true, false, Option, none, some, List, [], ◌∷◌, ◌++◌, ltb, leb, ◌==◌, if◌then◌else◌,
  add32, u32_mod, replicate, set, get_elem?, map,
}
use mp_video_simulation.Prelude.OrderedMap
use mp_video_simulation.Prelude.OrderedMap.{find}
use mp_video_simulation.Protocol.{Segment, wire_size}
use mp_video_simulation.MpReceiver.State.{
  VideoFrame, Env, MultipathReceiver, Output, schedule_heart_beat, stop_path, get_path_info,
}
use mp_video_simulation.MpReceiver.Delivery.{check_deliver_frame}

-- `Process`; what it does besides only prints.
unfoldable pub process : Env → MultipathReceiver → MultipathReceiver × List Output
unfolding check_deliver_frame
process env s = if s.stop then (s, []) else check_deliver_frame env s

-- `HeartBeat`, every 100 ms. The event that the timer holds clears `hb_timer` before this call.
unfoldable pub heart_beat : Env → MultipathReceiver → MultipathReceiver × List Output
unfolding process
heart_beat env s =
    if s.hb_timer
    then (s, [])
    else (let (s', out) = process env s in
        (record s' { hb_timer = true }, out ++ schedule_heart_beat 100 ∷ []))

-- `CheckLateFrame`.
unfoldable pub check_late_frame : ℕ → MultipathReceiver → Bool
check_late_frame fid s = leb fid s.min_fid

pub longest_wait : Env → List ℕ → ℕ → ℕ
longest_wait env [] longest = longest
longest_wait env (path ∷ paths) longest =
    longest_wait env paths
      (if ltb longest (env.waitting_of path) then env.waitting_of path else longest)

-- `GetWaittingDuration`: the longest of the paths, and at most 500 ms.
unfoldable pub get_waitting_duration : Env → MultipathReceiver → ℕ
unfolding longest_wait
get_waitting_duration env s =
    let longest = longest_wait env s.paths 0 in if ltb longest 500 then longest else 500

-- `new video_frame_t()` with its empty slots.
unfoldable pub new_frame : Segment → VideoFrame
new_frame d = record {
  fid = d.fid;
  total = d.total;
  recv = 0;
  first_ts = 0;
  ts = 0;
  waitting_ts = if d.ftype == 1 then none else some 0;
  frame_type = d.ftype;
  frame_first_ts = 0;
  frame_timestamp = 0;
  packets = replicate d.total none;
}

unfoldable pub find_frame : Segment → MultipathReceiver → VideoFrame
unfolding new_frame
find_frame d s = elim (find d.fid s.frame_cache) [ none ↦ new_frame d | some f ↦ f ]

-- The time of the first packet; the frame's own time is noted only where the trace is on.
-- `GetFrameSentFirstTs` is -1 where the path is not known.
pub stamp_first : Env → ℕ → Segment → MultipathReceiver → VideoFrame → VideoFrame
unfolding get_path_info
stamp_first env pid d s f =
    if f.first_ts == 0
    then (if s.frame_info_cb
        then record f {
          first_ts = env.now;
          frame_first_ts = elim (get_path_info env pid s.paths) [
            | none ↦ u32_mod - 1
            | some path ↦ env.first_ts_of path
          ];
          frame_timestamp = d.timestamp;
        }
        else record f { first_ts = env.now })
    else f

-- The frame with the packet in its slot.
unfoldable pub fill_slot : Env → ℕ → Segment → MultipathReceiver → VideoFrame → VideoFrame
unfolding stamp_first get_waitting_duration
fill_slot env pid d s f =
    let g = stamp_first env pid d s f in
    let recv = add32 f.recv 1 in
    record g {
      ts = env.now;
      recv = recv;
      packets = set f.packets d.index (some (record { pid = pid; seg = d }));
      waitting_ts = elim f.waitting_ts [
        | none ↦ none
        | some old ↦
            some (if ltb recv f.total then add32 env.now (get_waitting_duration env s) else old)
      ];
    }

-- The frame object is shared with the cache, so writing to it writes the entry; a new one is
-- inserted.
unfoldable pub put_frame : ℕ → VideoFrame → List (ℕ × VideoFrame) → List (ℕ × VideoFrame)
put_frame fid f cache = elim (find fid cache) [
  | none ↦ OrderedMap.insert fid f cache
  | some _ ↦ OrderedMap.update fid f cache
]

-- The packet comes from the pool, or is new.
unfoldable pub store_packet : Env → ℕ → Segment → VideoFrame → MultipathReceiver → MultipathReceiver
unfolding fill_slot put_frame
store_packet env pid d f s = record s {
  free_segs = s.free_segs - 1;
  seg_c = if s.free_segs == 0 then add32 s.seg_c 1 else s.seg_c;
  recv_buf_len = add32 s.recv_buf_len (wire_size d);
  frame_cache = put_frame d.fid (fill_slot env pid d s f) s.frame_cache;
}

-- From the lookup of the frame on; `none` is an access outside the array of slots.
unfoldable pub cache_segment :
    Env → ℕ → Segment → MultipathReceiver → Option (MultipathReceiver × List Output)
unfolding find_frame store_packet check_deliver_frame
cache_segment env pid d s = elim (get_elem? (find_frame d s).packets d.index) [
  | none ↦ none
  | some (some old) ↦ some (s, [])
  | some none ↦ some (check_deliver_frame env (store_packet env pid d (find_frame d s) s))
]

unfoldable pub start_heart : Env → MultipathReceiver → MultipathReceiver × List Output
unfolding heart_beat
start_heart env s =
    if s.first_packet
    then (s, [])
    else (let (s', out) = heart_beat env s in (record s' { first_packet = true }, out))

unfoldable pub deliver_to_cache :
    Env → ℕ → Segment → MultipathReceiver → Option (MultipathReceiver × List Output)
unfolding start_heart check_late_frame cache_segment
deliver_to_cache env pid d s =
    if s.stop
    then some (s, [])
    else (let (s', out) = start_heart env s in
        if check_late_frame d.fid s' then some (s', out) else elim (cache_segment env pid d s') [
          | none ↦ none
          | some (s'', out') ↦ some (s'', out ++ out')
        ])

-- `Stop`.
unfoldable pub stop_receiver : MultipathReceiver → MultipathReceiver × List Output
stop_receiver s = (record s { hb_timer = false; stop = true }, map stop_path s.paths)
