-- ===== src/MpReceiver/State.antt =====
-- ns3/mp-video/model/mpreceiver.h: the frame cache, and what the calls of the receiver emit.
use mp_video_simulation.Prelude.{
  ℕ, Bool, true, false, Option, none, some, List, [], ◌∷◌, ◌++◌, ◌==◌, if◌then◌else◌,
}
use mp_video_simulation.Protocol.{Segment}

-- video_packet_t.
pub record VideoPacket : Type 0 where
  pub pid : ℕ
  pub seg : Segment

-- video_frame_t. `waitting_ts` is `none` where the source has -1; `packets` is the array of `total`
-- pointers; `frame_first_ts` is kept as its residue, since it is only used in uint32_t sums.
pub record VideoFrame : Type 0 where
  pub fid : ℕ
  pub total : ℕ
  pub recv : ℕ
  pub first_ts : ℕ
  pub ts : ℕ
  pub waitting_ts : Option ℕ
  pub frame_type : ℕ
  pub frame_first_ts : ℕ
  pub frame_timestamp : ℕ
  pub packets : List (Option VideoPacket)

-- What a call reads from outside: the two clocks, and the registered paths by their handles.
pub record Env : Type 0 where
  pub now : ℕ
  pub sim_now : ℕ
  pub pid_of : ℕ → ℕ
  pub waitting_of : ℕ → ℕ
  pub first_ts_of : ℕ → ℕ

-- The receiver. A packet of the pool is zeroed when it is free, so the pool is its size; a Bool
-- says of a callback, of the sink and of the timer whether it is set.
pub record MultipathReceiver : Type 0 where
  pub uid : ℕ
  pub free_segs : ℕ
  pub seg_c : ℕ
  pub paths : List ℕ
  pub frame_cache : List (ℕ × VideoFrame)
  pub deliver : Bool
  pub stop : Bool
  pub last_deliver_ts : ℕ
  pub min_fid : ℕ
  pub first_packet : Bool
  pub hb_timer : Bool
  pub gap_cb : Bool
  pub recv_len_cb : Bool
  pub frame_info_cb : Bool
  pub recv_buf_len : ℕ

-- TraceFrameInfo.
pub record FrameInfo : Type 0 where
  pub fid : ℕ
  pub len : ℕ
  pub recv : ℕ
  pub total : ℕ
  pub delay : ℕ

pub data Output : Type 0 where
  gap : (fid delta : ℕ) → Output
  frame_info : FrameInfo → Output
  forward_up : (fid : ℕ) → (buf : List ℕ) → (len recv total : ℕ) → Output
  consume : (path packet_id : ℕ) → Output
  recv_len : (len : ℕ) → Output
  schedule_heart_beat : (delay : ℕ) → Output
  stop_path : (path : ℕ) → Output

-- The constructor.
unfoldable pub init : ℕ → MultipathReceiver
init uid = record {
  uid = uid;
  free_segs = 2;
  seg_c = 2;
  paths = [];
  frame_cache = [];
  deliver = false;
  stop = false;
  last_deliver_ts = 0;
  min_fid = 0;
  first_packet = false;
  hb_timer = false;
  gap_cb = false;
  recv_len_cb = false;
  frame_info_cb = false;
  recv_buf_len = 0;
}

-- `GetPathInfo`: the last registered path with the id.
unfoldable pub get_path_info : Env → ℕ → List ℕ → Option ℕ
get_path_info env pid [] = none
get_path_info env pid (path ∷ paths) =
    let later = get_path_info env pid paths in
    elim later [ some p ↦ some p | none ↦ if env.pid_of path == pid then some path else none ]

-- `RegisterDataSink`: the first sink stays.
unfoldable pub register_data_sink : MultipathReceiver → MultipathReceiver × Bool
register_data_sink s = if s.deliver then (s, false) else (record s { deliver = true }, true)

is_registered : ℕ → List ℕ → Bool
is_registered path [] = false
is_registered path (p ∷ paths) = if p == path then true else is_registered path paths

-- `RegisterPath`; the calls on the path itself set its receiver and its clock.
unfoldable pub register_path : ℕ → MultipathReceiver → MultipathReceiver
unfolding is_registered
register_path path s =
    if is_registered path s.paths then s else record s { paths = s.paths ++ path ∷ [] }
