-- ===== src/Schedule/Examples.antt =====
-- Concrete inputs of the schedulers.
use mp_video_simulation.Prelude.{
  false, true, List, ◌++◌, length, Option, none, ℕ, ◌≡◌, refl, some, [], ◌∷◌, arith, Returns,
  Returns-map,
}
use mp_video_simulation.Protocol.{Segment}
use mp_video_simulation.Frame.{frame_split}
use mp_video_simulation.PathSender.Queue.{segments}
use mp_video_simulation.MpSender.State.{MultipathSender}
use mp_video_simulation.MpSender.Video.{pending_info, frame_head, cut_frame, send_video}
use mp_video_simulation.MpSender.Sending.{Decides, put_segments}
use mp_video_simulation.MpSender.Frames.{send_video-puts}
use mp_video_simulation.Schedule.RoundRobin.{TakesTurns, round_robin, round_robin-Decides}
use mp_video_simulation.Schedule.Wrr.{
  WeightRoundRobin, IsTurning, Picks, get_max_weight, get_server, get_server-Picks,
}
use mp_video_simulation.Schedule.WrrSchedule.{place_by_weight, Places, place_by_weight-Places}

abbrev waiting : Segment
waiting = record {
  packet_id = 0;
  fid = 3;
  timestamp = 40;
  index = 0;
  total = 1;
  ftype = 0;
  payload_type = 0;
  remb = 1;
  send_ts = 0;
  transport_seq = 0;
  data_size = 2;
  bytes = 8 ∷ 9 ∷ [];
}

round_robin-Decides_example :
    Returns
      (TakesTurns ((1, 70) ∷ (2, 71) ∷ []) (2 ∷ 1 ∷ []) 7 ((5, waiting) ∷ (6, waiting) ∷ []))
      (round_robin (2 ∷ 1 ∷ []) 7 (pending_info ((5, waiting) ∷ (6, waiting) ∷ [])))
round_robin-Decides_example =
    round_robin-Decides ((1, 70) ∷ (2, 71) ∷ []) (2 ∷ 1 ∷ []) 7 ((5, waiting) ∷ (6, waiting) ∷ [])
      (omega arith) (omega arith) ((71, refl), ((70, refl), tt))

-- Weights 1 and 3, before the first call.
abbrev two_servers : WeightRoundRobin
two_servers = record {
  servers = record { id = 1; weight = 1 } ∷ record { id = 2; weight = 3 } ∷ [];
  max_weight = 0;
  cw = 0;
  next = 0;
}

two_servers-IsTurning : IsTurning two_servers
unfolding get_max_weight
two_servers-IsTurning = record { positive = omega arith; inside = omega arith; light = omega arith }

get_server-Picks_example :
    Returns
      (λ (w', id).
        Picks two_servers.servers (get_max_weight two_servers.servers 0) w' id × IsTurning w')
      (get_server two_servers)
get_server-Picks_example = get_server-Picks two_servers two_servers-IsTurning

place_by_weight-Places_example :
    Returns
      (λ ds. Places two_servers.servers two_servers ds ((5, 10) ∷ (6, 10) ∷ []))
      (place_by_weight ((5, 10) ∷ (6, 10) ∷ []) two_servers)
place_by_weight-Places_example =
    place_by_weight-Places ((5, 10) ∷ (6, 10) ∷ []) two_servers two_servers-IsTurning
      ((omega arith, omega arith), ((omega arith, omega arith), tt))

-- A sender with one usable path, under round robin.
abbrev ready : MultipathSender
ready = record {
  uid = 7;
  pid = 3;
  frame_seed = 1;
  schedule_seed = 6;
  first_ts = none;
  pending_buf = (5, waiting) ∷ [];
  syn_path = [];
  usable_path = (2, 70) ∷ [];
  scheduler = true;
  rate_control = false;
  source = false;
  stop = false;
}

abbrev decided : Option (ℕ × List (ℕ × ℕ)) → List (ℕ × ℕ)
decided none = []
decided (some (last, decisions)) = decisions

decided_lem :
    (P : List (ℕ × ℕ) → Type 0) (r : Option (ℕ × List (ℕ × ℕ)))
    → Returns (λ (last, decisions). P decisions) r
    → P (decided r)
decided_lem P none h = absurd h
decided_lem P (some (last, decisions)) h = h

abbrev in_turn : List (ℕ × ℕ) → ℕ → List (ℕ × ℕ)
in_turn packets size = decided (round_robin (2 ∷ []) 0 packets)

in_turn-Decides :
    (pending : List (ℕ × Segment)) (size : ℕ)
    → Decides ready.usable_path pending (in_turn (pending_info pending) size)
in_turn-Decides pending size =
    decided_lem (Decides ready.usable_path pending) (round_robin (2 ∷ []) 0 (pending_info pending))
      (Returns-map (TakesTurns ready.usable_path (2 ∷ []) 0 pending) _
        (round_robin (2 ∷ []) 0 (pending_info pending))
        (λ (last, decisions) (decides, turns, index). decides)
        (round_robin-Decides ready.usable_path (2 ∷ []) 0 pending (omega arith) (omega arith)
          ((70, refl), tt)))

abbrev bytes : List ℕ
bytes = 8 ∷ 9 ∷ 10 ∷ []

send_video-puts_example :
    Returns
      (λ (s', out).
        (s'.pending_buf ≡ [])
        × (put_segments out
            ≡ segments ready.pending_buf
              ++ cut_frame (frame_head 0 1 bytes 50 ready) 0 (frame_split (length bytes)) bytes))
      (send_video in_turn 0 1 bytes 50 ready)
send_video-puts_example =
    send_video-puts in_turn ready in_turn-Decides 0 1 bytes 50 refl refl (omega arith, tt)
      (omega arith) (omega arith) (omega arith)
