-- ===== src/Schedule.antt =====
-- ns3/mp-video/model/schedule.cc: the paths that a scheduler knows.
pub mod RoundRobin
pub mod MinCost
pub mod Wrr
pub mod BalanceCost
pub mod WrrSchedule
mod Examples
use mp_video_simulation.Prelude.{ℕ, Bool, true, false, List, [], ◌∷◌, ◌++◌, ◌==◌, if◌then◌else◌}

pub is_known : ℕ → List ℕ → Bool
is_known pid [] = false
is_known pid (p ∷ pids) = if p == pid then true else is_known pid pids

-- `RegisterPath`.
unfoldable pub register_path : ℕ → List ℕ → List ℕ
unfolding is_known
register_path pid pids = if is_known pid pids then pids else pids ++ pid ∷ []

-- `UnregisterPath`: the first entry of the path goes.
unfoldable pub unregister_path : ℕ → List ℕ → List ℕ
unregister_path pid [] = []
unregister_path pid (p ∷ pids) = if p == pid then pids else p ∷ unregister_path pid pids
