-- ===== src/MpSender/State.antt =====
-- ns3/mp-video/model/mpsender.h: the fields of the sender, and its paths.
use mp_video_simulation.Prelude.{
  ℕ, ◌+◌, ◌%◌, Bool, true, false, Option, none, some, List, [], ◌∷◌, ◌++◌, map, ◌==◌, if◌then◌else◌,
  u8_mod,
}
use mp_video_simulation.Prelude.OrderedMap
use mp_video_simulation.Prelude.OrderedMap.{find}
use mp_video_simulation.Protocol.{Segment}

-- A path stands for its object by a handle; `first_ts` is `none` where the source has -1; a Bool
-- says of a pointer whether it is set.
pub record MultipathSender : Type 0 where
  pub uid : ℕ
  pub pid : ℕ
  pub frame_seed : ℕ
  pub schedule_seed : ℕ
  pub first_ts : Option ℕ
  pub pending_buf : List (ℕ × Segment)
  pub syn_path : List (ℕ × ℕ)
  pub usable_path : List (ℕ × ℕ)
  pub scheduler : Bool
  pub rate_control : Bool
  pub source : Bool
  pub stop : Bool

pub data Output : Type 0 where
  put : (path : ℕ) → Segment → Output
  schedule_error : (pid : ℕ) → Output
  set_pid : (path pid : ℕ) → Output
  register_at_scheduler : (pid : ℕ) → Output
  start_source : Output
  stop_path : (path : ℕ) → Output
  stop_source : Output
  change_rate : (pid bitrate loss rtt : ℕ) → Output

-- The constructor.
unfoldable pub init : ℕ → MultipathSender
init uid = record {
  uid = uid;
  pid = 1;
  frame_seed = 1;
  schedule_seed = 1;
  first_ts = none;
  pending_buf = [];
  syn_path = [];
  usable_path = [];
  scheduler = false;
  rate_control = false;
  source = false;
  stop = false;
}

pub has_path : ℕ → List (ℕ × ℕ) → Bool
has_path path [] = false
has_path path ((pid, p) ∷ paths) = if p == path then true else has_path path paths

-- `RegisterPath`: a path that is new gets the next id (uint8_t).
unfoldable pub register_path : ℕ → MultipathSender → MultipathSender × List Output
unfolding has_path
register_path path s = if has_path path s.syn_path then (s, []) else (
  record s { syn_path = OrderedMap.insert s.pid path s.syn_path; pid = (s.pid + 1) % u8_mod },
  set_pid path s.pid ∷ [],
)

-- `NotifyPathUsable`.
unfoldable pub notify_path_usable : ℕ → MultipathSender → MultipathSender × List Output
notify_path_usable pid s = elim (find pid s.syn_path) [
  | none ↦ (s, [])
  | some path ↦ (
    record s {
      syn_path = OrderedMap.erase pid s.syn_path;
      usable_path = OrderedMap.insert pid path s.usable_path;
    },
    (if s.scheduler then register_at_scheduler pid ∷ [] else [])
        ++ (if s.source then start_source ∷ [] else []),
  )
]

-- `GetPathInfo`.
unfoldable pub get_path_info : ℕ → MultipathSender → Option ℕ
get_path_info pid s = find pid s.usable_path

-- `OnNetworkChanged`.
unfoldable pub on_network_changed : (pid bitrate loss rtt : ℕ) → MultipathSender → List Output
on_network_changed pid bitrate loss rtt s =
    if s.rate_control then change_rate pid bitrate loss rtt ∷ [] else []

-- `Stop`.
unfoldable pub stop_sender : MultipathSender → MultipathSender × List Output
stop_sender s = (
  record s { stop = true },
  map (λ (pid, path). stop_path path) s.usable_path ++ (if s.source then stop_source ∷ [] else []),
)
