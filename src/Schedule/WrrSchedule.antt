-- ===== src/Schedule/WrrSchedule.antt =====
-- ns3/mp-video/model/wrrschedule.cc: packets by weighted round robin, the weights after the rates.
use mp_video_simulation.Prelude.{
  ℕ, zero, suc, ◌+◌, ◌*◌, ◌%◌, ◌<◌, ◌≡◌, ◌∙◌, refl, ap, sym, subst, false, ◌||◌, Option, none, some,
  List, [], ◌∷◌, ◌==◌, if◌then◌else◌, length, get_elem?, u8_mod, u32_mod, All, Returns, arith,
}
use mp_video_simulation.Schedule.RoundRobin.{round_robin}
use mp_video_simulation.Schedule.MinCost.{path_rates}
use mp_video_simulation.Schedule.Wrr
use mp_video_simulation.Schedule.Wrr.{
  ServerInfo, WeightRoundRobin, IsTurning, Picks, add_server, get_max_weight, get_server,
  get_server-Picks,
}

-- `totalrate`, in uint32_t.
unfoldable pub total_rate : (ℕ → ℕ) → List ℕ → ℕ → ℕ
total_rate rate [] total = total
total_rate rate (pid ∷ pids) total = total_rate rate pids ((total + rate pid) % u32_mod)

-- The servers of the paths, by rising id. `share n total` is (uint32_t)((float)n / total + 0.5).
unfoldable pub add_servers :
    (share : ℕ → ℕ → ℕ)
    → (packet_num totalrate : ℕ) → List (ℕ × ℕ)
    → WeightRoundRobin
    → WeightRoundRobin
unfolding add_server
add_servers share packet_num totalrate [] w = w
add_servers share packet_num totalrate ((pid, rate) ∷ table) w =
    add_servers share packet_num totalrate table
      (add_server pid (share (packet_num * rate % u32_mod) totalrate) w)

-- The loop over the packets; `none` is also the failed assertion on the server.
unfoldable pub place_by_weight : List (ℕ × ℕ) → WeightRoundRobin → Option (List (ℕ × ℕ))
unfolding get_server
place_by_weight [] w = some []
place_by_weight ((id, size) ∷ packets) w = elim (get_server w) [
  | none ↦ none
  | some (w', server) ↦ elim (place_by_weight packets w') [
    | none ↦ none
    | some decisions ↦ if server == 0 then none else some ((id, server % u8_mod) ∷ decisions)
  ]
]

-- `WrrSchedule::IncomingPackets`: the decisions for the packets.
unfoldable pub wrr_schedule :
    (share : ℕ → ℕ → ℕ) → (rate : ℕ → ℕ) → List ℕ → List (ℕ × ℕ) → Option (List (ℕ × ℕ))
unfolding total_rate add_servers place_by_weight path_rates round_robin
wrr_schedule share rate pids packets =
    let by_turns : Option (List (ℕ × ℕ)) = elim (round_robin pids 0 packets) [
      | none ↦ none
      | some (last, decisions) ↦ some decisions
    ] in
    let totalrate = total_rate rate pids 0 in
    let wrr = add_servers share (length packets) totalrate (path_rates rate pids []) Wrr.init in
    if (length pids == 1) || (length packets == 1)
    then by_turns
    else if totalrate == 0
    then by_turns
    else place_by_weight packets wrr

-- A decision is for a server.
pub record IsServer (servers : List ServerInfo) (pid : ℕ) : Type 0 where
  pub server : ServerInfo
  pub index : ℕ
  pub at : get_elem? servers index ≡ some server
  pub same : server.id ≡ pid

-- The decisions are on the packets, in order, and for the servers of turn after turn.
abbrev pub Places : List ServerInfo → WeightRoundRobin → List (ℕ × ℕ) → List (ℕ × ℕ) → Type 0
Places servers w [] [] = Unit
Places servers w [] (p ∷ packets) = ⊥
Places servers w (d ∷ ds) [] = ⊥
Places servers w ((id, pid) ∷ ds) ((packet_id, size) ∷ packets) =
    (id ≡ packet_id)
    × IsServer servers pid
    × ((w' : WeightRoundRobin) × (get_server w ≡ some (w', pid)) × Places servers w' ds packets)

-- A path's id: from 1 to 255.
abbrev pub IsPid : ServerInfo → Type 0
IsPid s = (0 < s.id) × (s.id < u8_mod)

Returns-value :
    {A : Type 0} (P : A → Type 0) (o : Option A) → Returns P o → (a : A) × (o ≡ some a) × P a
Returns-value P none h = absurd h
Returns-value P (some a) h = (a, refl, h)

All-at :
    (P : ServerInfo → Type 0) (servers : List ServerInfo) (i : ℕ) (s : ServerInfo)
    → All P servers
    → get_elem? servers i ≡ some s
    → P s
All-at P [] i s a e = absurd (cc e)
All-at P (x ∷ xs) zero s a e = let same : x ≡ s = cc e in rw (← same) a.0
All-at P (x ∷ xs) (suc i) s a e = All-at P xs i s a.1 e

-- A round robin that is set up, whose servers have ids from 1 to 255, serves every list of
-- packets: the run returns, and its decisions are for the packets, one each and in their order,
-- and each for one of the servers, the one that GetServer gives in the state that the turns
-- before it leave; the cast to 8 bits keeps its id.
pub place_by_weight-Places :
    (packets : List (ℕ × ℕ)) (w : WeightRoundRobin)
    → IsTurning w
    → All IsPid w.servers
    → Returns (λ ds. Places w.servers w ds packets) (place_by_weight packets w)
unfolding place_by_weight
place_by_weight-Places [] w v ids = tt
place_by_weight-Places ((id, size) ∷ packets) w v ids =
    let ((w', pid), got, both) =
      Returns-value (λ (w', id). Picks w.servers (get_max_weight w.servers 0) w' id × IsTurning w')
        (get_server w) (get_server-Picks w v) in
    let p = both.0 in
    let known : IsPid p.server = All-at IsPid w.servers p.index p.server ids p.at_index in
    let positive : (pid == 0) ≡ false = ground (arith, known.0, p.same_id) in
    let word : pid % u8_mod ≡ pid = omega (arith, known.1, p.same_id) in
    let (ds, rest, placed) =
      Returns-value (λ ds. Places w'.servers w' ds packets) (place_by_weight packets w')
        (place_by_weight-Places packets w' both.1 (rw p.same_servers ids)) in
    rw (place_by_weight, got, rest, positive)
      (
        refl,
        record { server = p.server; index = p.index; at = p.at_index; same = p.same_id ∙ sym word },
        (
          w',
          got ∙ ap (λ (n : ℕ). some (w', n)) (sym word),
          subst (λ servers. Places servers w' ds packets) p.same_servers placed,
        ),
      )
