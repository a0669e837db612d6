-- ===== src/V1/Schedule.antt =====
-- ns3/mp-video/model/interface_v1.cc: the paths of a scheduler, and on which of them a lost packet is sent again.
pub mod Retrans
mod Examples
use mp_video_simulation.Prelude.{
  ℕ, ◌-◌, Option, none, some, List, [], ◌∷◌, ◌++◌, ltb, ◌==◌, if◌then◌else◌, length, u32_mod,
}

-- `RegisterPath`, whose loop compares the ids one by one.
unfoldable pub register_after : (pid : ℕ) → (rest pids : List ℕ) → List ℕ
register_after pid [] pids = pids ++ pid ∷ []
register_after pid (p ∷ rest) pids = if p == pid then pids else register_after pid rest pids

unfoldable pub register_path : ℕ → List ℕ → List ℕ
unfolding register_after
register_path pid pids = register_after pid pids pids

-- `UnregisterPath`: the first entry of the path goes.
unfoldable pub unregister_path : ℕ → List ℕ → List ℕ
unregister_path pid [] = []
unregister_path pid (p ∷ pids) = if p == pid then pids else p ∷ unregister_path pid pids

-- `SendAllPackesToPath`: the calls of `PacketSchedule` that it makes, by rising packet id.
unfoldable pub send_all_packes_to_path : List (ℕ × ℕ) → (pid : ℕ) → List (ℕ × ℕ)
send_all_packes_to_path [] pid = []
send_all_packes_to_path ((packet_id, size) ∷ packets) pid =
    (packet_id, pid) ∷ send_all_packes_to_path packets pid

-- The loop over the paths, with the least round trip so far and its path; the origin is passed
-- over. `get_rtt` asks the sender, and `none` is a path that it does not have.
unfoldable pub least_rtt :
    (get_rtt : ℕ → Option ℕ) → (origin_pid : ℕ) → List ℕ → (min_rtt min_pid : ℕ) → Option ℕ
least_rtt get_rtt origin_pid [] min_rtt min_pid = some min_pid
least_rtt get_rtt origin_pid (path_id ∷ pids) min_rtt min_pid =
    let passed = least_rtt get_rtt origin_pid pids min_rtt min_pid in
    if path_id == origin_pid then passed else elim (get_rtt path_id) [
      | none ↦ none
      | some rtt ↦
          let better = least_rtt get_rtt origin_pid pids rtt path_id in
          if ltb rtt min_rtt then better else passed
    ]

-- The path that `RetransPackets` hands to `PacketRetrans`; `none` is a null path.
unfoldable pub retrans_packets : (get_rtt : ℕ → Option ℕ) → (origin_pid : ℕ) → List ℕ → Option ℕ
unfolding least_rtt
retrans_packets get_rtt origin_pid pids =
    if length pids == 1 then some origin_pid else least_rtt get_rtt origin_pid pids (u32_mod - 1) 0
