-- ===== src/Common.antt =====
-- What both ends of a path share: the states and modes of ns3/mp-video/model/mpcommon.h and
-- pathcommon.h, and the round-trip filter that pathsender.cc and pathreceiver.cc both hold.
use mp_video_simulation.Prelude.{ℕ, ◌+◌, ◌-◌, ◌*◌, ◌/◌, ◌%◌, ltb, if◌then◌else◌, u32_mod}

pub data PathState : Type 0 where
  path_ini path_conning path_conned path_discon : PathState

pub data PaceMode : Type 0 where
  no_congestion no_webrtc with_congestion : PaceMode

-- controller_, and whether its congestion controller is set.
pub data Controller : Type 0 where
  absent oracle congestion : Controller

-- PING_INTERVAL, in milliseconds.
abbrev pub ping_interval : ℕ
ping_interval = 150

-- SU_ABS of two unsigned values.
abbrev pub su_abs : ℕ → ℕ → ℕ
su_abs a b = if ltb b a then a - b else b - a

-- The sample that counts: at least 5.
abbrev pub keep_rtt : ℕ → ℕ
keep_rtt time = if ltb 5 time then time else 5

abbrev pub at_least : ℕ → ℕ → ℕ
at_least low n = if ltb n low then low else n

-- rtt_var_ and rtt_ after a sample; the sums are uint32_t.
unfoldable pub smooth_var : ℕ → ℕ → ℕ → ℕ
smooth_var rtt_var rtt sample = at_least 10 ((rtt_var * 3 + su_abs rtt sample) % u32_mod / 4)

unfoldable pub smooth_rtt : ℕ → ℕ → ℕ
smooth_rtt rtt sample = at_least 10 ((7 * rtt + sample) % u32_mod / 8)
