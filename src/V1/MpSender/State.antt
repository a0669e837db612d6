-- ===== src/V1/MpSender/State.antt =====
-- ns3/mp-video/model/mp_sender_v1.h and mp_sender_v1.cc: the fields of the sender, and its paths.
use mp_video_simulation.Prelude.{
  ℕ, ◌+◌, ◌%◌, Bool, true, false, Option, none, some, List, [], ◌∷◌, ◌==◌, if◌then◌else◌, add32,
  u32_mod, u8_mod,
}
use mp_video_simulation.Prelude.OrderedMap
use mp_video_simulation.Prelude.OrderedMap.{find}
use mp_video_simulation.V1.Wire.{VideoPacketWrapper}

-- MpSenderV1. A path stands for its object by a handle; a Bool says of a pointer or a trace whether
-- it is set, and of the timer whether its event is pending.
pub record MpSender : Type 0 where
  pub source : Bool
  pub schedule : Bool
  pub packet_id : ℕ
  pub fid : ℕ
  pub first_ts : ℕ
  pub pend_buf : List (ℕ × VideoPacketWrapper)
  pub sent_buf : List (ℕ × VideoPacketWrapper)
  pub waitting_paths : List (ℕ × ℕ)
  pub usable_paths : List (ℕ × ℕ)
  pub path_id_allocator : ℕ
  pub running : Bool
  pub next_stale_check : ℕ
  pub heart_timer : Bool
  pub timer_trigger : Bool
  pub trace_rate : Bool
  pub fps : ℕ

pub data Output : Type 0 where
  put : (path packet_id : ℕ) → VideoPacketWrapper → (is_retrans : Bool) → Output
  path_error : (pid : ℕ) → Output
  set_path_id : (path pid : ℕ) → Output
  configure_fps : (path fps : ℕ) → Output
  register_mpsender : (path : ℕ) → Output
  register_at_schedule : (pid : ℕ) → Output
  unregister_at_schedule : (pid : ℕ) → Output
  retrans : (packet_id pid : ℕ) → Output
  change_rate : (bps : ℕ) → Output
  sum_rate : (bps : ℕ) → Output
  schedule_process : (delay : ℕ) → Output

-- The object as it is created.
abbrev pub init : MpSender
init = record {
  source = false;
  schedule = false;
  packet_id = 1;
  fid = 1;
  first_ts = 0;
  pend_buf = [];
  sent_buf = [];
  waitting_paths = [];
  usable_paths = [];
  path_id_allocator = 1;
  running = true;
  next_stale_check = 0;
  heart_timer = false;
  timer_trigger = false;
  trace_rate = false;
  fps = 25;
}

-- `set_encoder` and `set_schedule`.
unfoldable pub set_encoder : (fps : ℕ) → MpSender → MpSender
set_encoder fps s = record s { source = true; fps = fps }

unfoldable pub set_schedule : MpSender → MpSender
set_schedule s = record s { schedule = true }

-- `SetRun`.
unfoldable pub set_run : MpSender → MpSender × List Output
set_run s =
    if s.timer_trigger
    then (s, [])
    else (record s { timer_trigger = true; heart_timer = true }, schedule_process 0 ∷ [])

-- The path enters the map of those that wait, under an id that is free there.
unfoldable pub enter_waitting : (path pid : ℕ) → MpSender → MpSender × List Output
enter_waitting path pid s = elim (find pid s.waitting_paths) [
  | some other ↦ (s, [])
  | none ↦ (
    record s { waitting_paths = OrderedMap.insert pid path s.waitting_paths },
    configure_fps path s.fps ∷ register_mpsender path ∷ [],
  )
]

-- `RegisterSender`, for a path whose own id is `own`; 0 is no id, and the next one is given (uint8_t
-- of a uint32_t).
unfoldable pub register_sender : (path own : ℕ) → MpSender → MpSender × List Output
unfolding enter_waitting
register_sender path own s =
    if own == 0
    then (let pid = s.path_id_allocator % u8_mod in
        let (s', out) =
          enter_waitting path pid (record s { path_id_allocator = add32 s.path_id_allocator 1 }) in
        (s', set_path_id path pid ∷ out))
    else enter_waitting path own s

-- `OnNetworkAvailable`; `none` is a null scheduler.
unfoldable pub on_network_available : (pid : ℕ) → MpSender → Option (MpSender × List Output)
unfolding set_run
on_network_available pid s =
    let moved : MpSender = elim (find pid s.waitting_paths) [
      | none ↦ s
      | some path ↦ record s {
        waitting_paths = OrderedMap.erase pid s.waitting_paths;
        usable_paths = OrderedMap.insert pid path s.usable_paths;
      }
    ] in
    if s.schedule
    then (let (s', out) = set_run moved in some (s', register_at_schedule pid ∷ out))
    else none

-- `OnNetworkStop`: the whole sender stops with any of its paths.
unfoldable pub on_network_stop : (pid : ℕ) → MpSender → Option (MpSender × List Output)
on_network_stop pid s =
    if s.schedule
    then some (record s { running = false }, unregister_at_schedule pid ∷ [])
    else none

-- `OnPacketLost`.
unfoldable pub on_packet_lost : (pid packet_id : ℕ) → MpSender → Option (MpSender × List Output)
on_packet_lost pid packet_id s = if s.schedule then some (s, retrans packet_id pid ∷ []) else none

-- `GetPathInfo`, where `none` is a null path.
unfoldable pub get_path_info : (pid : ℕ) → MpSender → Option ℕ
get_path_info pid s = find pid s.usable_paths

-- The sum of the rates of the usable paths, in uint32_t.
unfoldable pub total_rate : (get_rate : ℕ → ℕ) → List (ℕ × ℕ) → ℕ → ℕ
total_rate get_rate [] bps = bps
total_rate get_rate ((pid, path) ∷ paths) bps =
    total_rate get_rate paths ((bps + get_rate path) % u32_mod)

-- `OnRateUpdate`; `none` is a null source.
unfoldable pub on_rate_update : (get_rate : ℕ → ℕ) → MpSender → Option (MpSender × List Output)
unfolding total_rate
on_rate_update get_rate s =
    let bps = total_rate get_rate s.usable_paths 0 in
    if s.source
    then some (s, change_rate bps ∷ (if s.trace_rate then sum_rate bps ∷ [] else []))
    else none
