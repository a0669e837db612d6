-- ===== src/Schedule/MinCost.antt =====
-- ns3/mp-video/model/minqueueschedule.cc: each packet goes to the path that is cheapest when it is
-- its turn.
use mp_video_simulation.Prelude.{
  ℕ, ◌*◌, ◌/◌, ◌%◌, ◌≤◌, ◌≡◌, refl, ap, ◌⊎◌, inl, inr, ◌||◌, Option, none, some, List, [], ◌∷◌, ltb,
  ◌==◌, if◌then◌else◌, length, u32_mod, arith, All, Bool-cases,
}
use mp_video_simulation.Prelude.OrderedMap
use mp_video_simulation.Schedule.RoundRobin.{round_robin}

-- What a scheduler asks the sender's paths and tells the sender, over the state of both.
pub record SenderOps (S : Type 0) : Type 0 where
  -- GetIntantRate or GetSmoothRate, by the cost type.
  pub rate : ℕ → S → ℕ
  -- GetPendingLen.
  pub pending_len : ℕ → S → ℕ
  pub packet_schedule : ℕ → ℕ → S → S

-- `pathrate`: the registered paths that have a rate.
unfoldable pub path_rates : (ℕ → ℕ) → List ℕ → List (ℕ × ℕ) → List (ℕ × ℕ)
path_rates rate [] table = table
path_rates rate (pid ∷ pids) table =
    path_rates rate pids (if rate pid == 0 then table else OrderedMap.insert pid (rate pid) table)

-- The loop over the rest of the table, from the cheapest path so far.
unfoldable pub cheapest : (ℕ → ℕ → ℕ) → ℕ → ℕ → List (ℕ × ℕ) → ℕ
cheapest cost min_pid min_cost [] = min_pid
cheapest cost min_pid min_cost ((pid, rate) ∷ table) =
    if ltb (cost pid rate) min_cost
    then cheapest cost pid (cost pid rate) table
    else cheapest cost min_pid min_cost table

-- An empty table is read past its end.
unfoldable pub pick_path : (ℕ → ℕ → ℕ) → List (ℕ × ℕ) → Option ℕ
unfolding cheapest
pick_path cost [] = none
pick_path cost ((pid, rate) ∷ table) = some (cheapest cost pid (cost pid rate) table)

-- GetPendingLen() * 8 * 1000 / B of MinQueueSchedule, in uint32_t.
unfoldable pub queue_cost : ℕ → ℕ → ℕ
queue_cost pending_len rate = pending_len * 8 * 1000 % u32_mod / rate

module _ {S : Type 0} (ops : SenderOps S) where
  unfoldable pub place_packets : List (ℕ × ℕ) → List (ℕ × ℕ) → S → Option S
  unfolding pick_path queue_cost
  place_packets table [] s = some s
  place_packets table ((id, size) ∷ packets) s =
      elim (pick_path (λ pid rate. queue_cost (ops.pending_len pid s) rate) table) [
        | none ↦ none
        | some pid ↦ place_packets table packets (ops.packet_schedule id pid s)
      ]

  unfoldable pub tell_sender : List (ℕ × ℕ) → S → S
  tell_sender [] s = s
  tell_sender ((id, pid) ∷ decisions) s = tell_sender decisions (ops.packet_schedule id pid s)

  -- `MinQueueSchedule::IncomingPackets`.
  unfoldable pub min_queue : List ℕ → List (ℕ × ℕ) → S → Option S
  unfolding place_packets tell_sender path_rates round_robin
  min_queue pids packets s =
      if (length pids == 1) || (length packets == 1)
      then elim (round_robin pids 0 packets) [
        | none ↦ none
        | some (last, decisions) ↦ some (tell_sender decisions s)
      ]
      else place_packets (path_rates (λ pid. ops.rate pid s) pids []) packets s

-- No path of a table is cheaper.
abbrev pub Least : (ℕ → ℕ → ℕ) → ℕ → List (ℕ × ℕ) → Type 0
Least cost bound table = All (λ (pid, rate). bound ≤ cost pid rate) table

-- An entry of the table.
abbrev pub Listed : ℕ → ℕ → List (ℕ × ℕ) → Type 0
Listed pid rate [] = ⊥
Listed pid rate ((p, r) ∷ table) = ((p ≡ pid) × (r ≡ rate)) ⊎ Listed pid rate table

cheapest_lem :
    (cost : ℕ → ℕ → ℕ) (pid rate : ℕ) (table : List (ℕ × ℕ))
    → (best : ℕ) × (best_rate : ℕ) × (cheapest cost pid (cost pid rate) table ≡ best)
      × Listed best best_rate ((pid, rate) ∷ table)
      × (cost best best_rate ≤ cost pid rate)
      × Least cost (cost best best_rate) table
unfolding cheapest
cheapest_lem cost pid rate [] = (pid, rate, refl, inl (refl, refl), omega arith, tt)
cheapest_lem cost pid rate ((p, r) ∷ table) = elim (Bool-cases (ltb (cost p r) (cost pid rate))) [
  | inl less ↦
      let (best, best_rate, e, listed, le, least) = cheapest_lem cost p r table in
      (best, best_rate, rw less e, inr listed, ground (arith, le, less), (le, least))
  | inr not_less ↦
      let (best, best_rate, e, listed, le, least) = cheapest_lem cost pid rate table in
      (best, best_rate, rw not_less e, skip listed, le, (ground (arith, le, not_less), least))
]
  where
    skip :
        {best best_rate : ℕ}
        → Listed best best_rate ((pid, rate) ∷ table)
        → Listed best best_rate ((pid, rate) ∷ (p, r) ∷ table)
    skip (inl e) = inl e
    skip (inr l) = inr (inr l)

-- A table that is not empty: the path that is picked is an entry of it, and no entry is
-- cheaper.
pub pick_path-Least :
    (cost : ℕ → ℕ → ℕ) (pid rate : ℕ) (table : List (ℕ × ℕ))
    → (best : ℕ) × (best_rate : ℕ) × (pick_path cost ((pid, rate) ∷ table) ≡ some best)
      × Listed best best_rate ((pid, rate) ∷ table)
      × Least cost (cost best best_rate) ((pid, rate) ∷ table)
unfolding pick_path
pick_path-Least cost pid rate table =
    let (best, best_rate, e, listed, le, least) = cheapest_lem cost pid rate table in
    (best, best_rate, ap some e, listed, (le, least))
