-- ===== src/Schedule/BalanceCost.antt =====
-- ns3/mp-video/model/balancecostschedule.cc: each packet goes to the path of the least cost.
use mp_video_simulation.Prelude.{
  ℕ, ◌||◌, Option, none, some, List, [], ◌∷◌, ltb, ◌==◌, if◌then◌else◌, length,
}
use mp_video_simulation.Schedule.RoundRobin.{round_robin}
use mp_video_simulation.Schedule.MinCost.{path_rates}

-- What the scheduler asks the paths and tells the sender, over the state of both.
pub record CostOps (S : Type 0) : Type 0 where
  -- GetIntantRate or GetSmoothRate, by the cost type.
  pub rate : ℕ → S → ℕ
  -- GetCost, and GetCost or GetSmoothCost by the cost type.
  pub first_cost : ℕ → S → ℕ
  pub cost : ℕ → S → ℕ
  pub packet_schedule : ℕ → ℕ → S → S

-- The loop over the rest of the table, from the path of the least cost so far.
unfoldable pub least_cost : (ℕ → ℕ) → (min_pid min_cost : ℕ) → List (ℕ × ℕ) → ℕ
least_cost cost min_pid min_cost [] = min_pid
least_cost cost min_pid min_cost ((pid, rate) ∷ table) =
    if ltb (cost pid) min_cost
    then least_cost cost pid (cost pid) table
    else least_cost cost min_pid min_cost table

module _ {S : Type 0} (ops : CostOps S) where
  -- The loop over the packets; an empty table is read past its end.
  unfoldable pub place_by_cost : List (ℕ × ℕ) → List (ℕ × ℕ) → S → Option S
  unfolding least_cost
  place_by_cost table [] s = some s
  place_by_cost [] (p ∷ packets) s = none
  place_by_cost ((pid, rate) ∷ table) ((id, size) ∷ packets) s =
      place_by_cost ((pid, rate) ∷ table) packets
        (ops.packet_schedule id (least_cost (λ p. ops.cost p s) pid (ops.first_cost pid s) table) s)

  unfoldable pub tell_all : List (ℕ × ℕ) → S → S
  tell_all [] s = s
  tell_all ((id, pid) ∷ decisions) s = tell_all decisions (ops.packet_schedule id pid s)

  -- `BalanceCostSchedule::IncomingPackets`.
  unfoldable pub balance_cost : List ℕ → List (ℕ × ℕ) → S → Option S
  unfolding place_by_cost tell_all path_rates round_robin
  balance_cost pids packets s =
      if (length pids == 1) || (length packets == 1)
      then elim (round_robin pids 0 packets) [
        | none ↦ none
        | some (last, decisions) ↦ some (tell_all decisions s)
      ]
      else place_by_cost (path_rates (λ pid. ops.rate pid s) pids []) packets s
