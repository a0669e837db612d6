-- ===== src/Schedule/Wrr.antt =====
-- ns3/mp-video/model/wrr.cc: weighted round robin.
use mp_video_simulation.Prelude.{
  ℕ, zero, suc, ◌+◌, ◌-◌, ◌%◌, ◌≤◌, ◌<◌, ◌≡◌, refl, sym, ap, inl, inr, ◌⊎◌, Bool, true, false,
  Option, none, some, List, [], ◌∷◌, ◌++◌, ltb, leb, ◌==◌, if◌then◌else◌, length, get_elem?, arith,
  Returns, Bool-cases,
}
use native.Mathlib.Nat.{mod-eq_of_lt, mod_self}
use mp_video_simulation.MpReceiver.Slots.{get_elem?_in}

-- ServerInfo.
pub record ServerInfo : Type 0 where
  pub id : ℕ
  pub weight : ℕ

-- `next` is `i_ + 1`, which is 0 at the start. `cw_` is never below 0 between the calls.
pub record WeightRoundRobin : Type 0 where
  pub servers : List ServerInfo
  pub max_weight : ℕ
  pub cw : ℕ
  pub next : ℕ

abbrev pub init : WeightRoundRobin
init = record { servers = []; max_weight = 0; cw = 0; next = 0 }

pub has_server : ℕ → List ServerInfo → Bool
has_server id [] = false
has_server id (server ∷ servers) = if server.id == id then true else has_server id servers

-- `AddServer`.
unfoldable pub add_server : ℕ → ℕ → WeightRoundRobin → WeightRoundRobin
unfolding has_server
add_server id weight w =
    if has_server id w.servers
    then w
    else if ltb 0 weight
    then record w { servers = w.servers ++ record { id = id; weight = weight } ∷ [] }
    else w

-- `GetMaxWeight`.
unfoldable pub get_max_weight : List ServerInfo → ℕ → ℕ
get_max_weight [] max_weight = max_weight
get_max_weight (server ∷ servers) max_weight =
    get_max_weight servers (if ltb max_weight server.weight then server.weight else max_weight)

-- `cw_` in a round that is at server `i`: the first server starts the next lower weight, by a
-- divisor (`GetGCD`) of 1, and below 1 the largest.
unfoldable pub step_weight : ℕ → ℕ → ℕ → ℕ
step_weight i cw max_weight = if i == 0 then if leb cw 1 then max_weight else cw - 1 else cw

-- The endless loop of `GetServer` on fuel; `none` is fuel that has run out.
unfoldable pub find_server : ℕ → WeightRoundRobin → Option (WeightRoundRobin × ℕ)
unfolding step_weight
find_server zero w = none
find_server (suc fuel) w =
    let i = w.next % length w.servers in
    let cw = step_weight i w.cw w.max_weight in
    let w' = record w { next = i + 1; cw = cw } in
    let rest = find_server fuel w' in
    elim (get_elem? w.servers i) [
      | none ↦ none
      | some server ↦ if leb cw server.weight then some (w', server.id) else rest
    ]

-- `GetServer`, with a round for each server as its fuel; no server is the division by 0.
unfoldable pub get_server : WeightRoundRobin → Option (WeightRoundRobin × ℕ)
unfolding get_max_weight find_server
get_server w = find_server (length w.servers) (record w { max_weight = get_max_weight w.servers 0 })

-- The largest weight is that of a server, where it is not the value to start from.
get_max_weight-at :
    (servers : List ServerInfo) (m : ℕ)
    → (get_max_weight servers m ≡ m)
      ⊎ ((j : ℕ) × (server : ServerInfo) × (get_elem? servers j ≡ some server)
          × (server.weight ≡ get_max_weight servers m)
          × (j < length servers))
unfolding get_max_weight
get_max_weight-at [] m = inl refl
get_max_weight-at (server ∷ servers) m = elim (Bool-cases (ltb m server.weight)) [
  | inl more ↦ rw more (heavier (get_max_weight-at servers server.weight))
  | inr same ↦ rw same (shift (get_max_weight-at servers m))
]
  where
    shift :
        {n : ℕ}
        → (get_max_weight servers n ≡ n)
          ⊎ ((j : ℕ) × (s : ServerInfo) × (get_elem? servers j ≡ some s)
              × (s.weight ≡ get_max_weight servers n)
              × (j < length servers))
        → (get_max_weight servers n ≡ n)
          ⊎ ((j : ℕ) × (s : ServerInfo) × (get_elem? (server ∷ servers) j ≡ some s)
              × (s.weight ≡ get_max_weight servers n)
              × (j < suc (length servers)))
    shift (inl e) = inl e
    shift (inr (j, s, e, h, l)) = inr (suc j, s, e, h, omega (arith, l))

    heavier :
        (get_max_weight servers server.weight ≡ server.weight)
          ⊎ ((j : ℕ) × (s : ServerInfo) × (get_elem? servers j ≡ some s)
              × (s.weight ≡ get_max_weight servers server.weight)
              × (j < length servers))
        → (get_max_weight servers server.weight ≡ m)
          ⊎ ((j : ℕ) × (s : ServerInfo) × (get_elem? (server ∷ servers) j ≡ some s)
              × (s.weight ≡ get_max_weight servers server.weight)
              × (j < suc (length servers)))
    heavier (inl e) = inr (zero, server, refl, sym e, omega arith)
    heavier (inr (j, s, e, h, l)) = inr (suc j, s, e, h, omega (arith, l))

wrap_next :
    (next n : ℕ)
    → next ≤ n
    → 0 < n
    → ((next % n ≡ next) × (next < n)) ⊎ ((next % n ≡ 0) × (next ≡ n))
wrap_next next n h p = elim (Bool-cases (ltb next n)) [
  | inl below ↦ let lt : next < n = ground arith in inl (mod-eq_of_lt lt, lt)
  | inr at_end ↦ let same : next ≡ n = ground arith in inr (rw same (mod_self n), same)
]

-- Between the calls: there is a server with a weight, the position is inside the servers and the
-- weight that is due at most the largest.
pub record IsTurning (w : WeightRoundRobin) : Type 0 where
  pub positive : 0 < get_max_weight w.servers 0
  pub inside : w.next ≤ length w.servers
  pub light : w.cw ≤ get_max_weight w.servers 0

-- What a pick promises: it is a server of at least the weight that is due.
pub record Picks (servers : List ServerInfo) (max_weight : ℕ) (w' : WeightRoundRobin) (id : ℕ)
    : Type 0 where
  pub same_servers : w'.servers ≡ servers
  pub turning : (w'.next ≤ length servers) × (w'.cw ≤ max_weight)
  pub server : ServerInfo
  pub index : ℕ
  pub at_index : get_elem? servers index ≡ some server
  pub same_id : server.id ≡ id
  pub heavy : w'.cw ≤ server.weight

step_weight-le : (i cw m : ℕ) → cw ≤ m → step_weight i cw m ≤ m
unfolding step_weight
step_weight-le i cw m h = ground arith

-- One round either is at the server that is `d` rounds ahead, or brings it closer.
advance :
    (next d j n : ℕ)
    → next ≤ n
    → j < n
    → (next + d ≡ j) ⊎ (next + d ≡ j + n)
    → let i = next % n in (i ≡ j) ⊎ ((0 < d) × ((i + 1 + (d - 1) ≡ j) ⊎ (i + 1 + (d - 1) ≡ j + n)))
advance next d j n h l a = elim (wrap_next next n h (omega (arith, l))) [
  | inl (same, in_range) ↦ rw same (ground (arith, a, in_range, l))
  | inr (wrapped, at_end) ↦ rw wrapped (ground (arith, a, at_end, l))
]

-- With a server of the largest weight `d` rounds ahead, more than `d` rounds are enough fuel.
find_server_lem :
    (fuel d j : ℕ) (top : ServerInfo) (w : WeightRoundRobin)
    → get_elem? w.servers j ≡ some top
    → top.weight ≡ w.max_weight
    → j < length w.servers
    → (w.next + d ≡ j) ⊎ (w.next + d ≡ j + length w.servers)
    → d < fuel
    → w.next ≤ length w.servers
    → w.cw ≤ w.max_weight
    → Returns (λ (w', id). Picks w.servers w.max_weight w' id) (find_server fuel w)
unfolding find_server
find_server_lem zero d j top w e t l a f n c = absurd (omega (arith, f))
find_server_lem (suc fuel) d j top w e t l a f n c =
    let i = w.next % length w.servers in
    let cw = step_weight i w.cw w.max_weight in
    let light = step_weight-le i w.cw w.max_weight c in
    let in_range : i < length w.servers = omega (arith, l) in
    let (server, here) = get_elem?_in w.servers i in_range in
    elim (Bool-cases (leb cw server.weight)) [
      | inl heavy ↦
          rw (here, find_server, heavy)
            (record {
              same_servers = refl;
              turning = (omega (arith, in_range), light);
              server = server;
              index = i;
              at_index = here;
              same_id = refl;
              heavy = ground (arith, heavy);
            })
      | inr low ↦
          rw (here, find_server, low)
            (elim (advance w.next d j (length w.servers) n l a) [
              | inl at_top ↦
                  let same : server ≡ top = cc (here, e, at_top) in
                  absurd (ground (arith, low, light, t, ap (λ s. s.weight) same))
              | inr (ahead, closer) ↦
                  find_server_lem fuel (d - 1) j top (record w { next = i + 1; cw = cw }) e t l
                    closer (omega (arith, f, ahead)) (omega (arith, in_range)) light
            ])
    ]

-- The way to a server: on from the position, or round.
distance :
    (next j n : ℕ) → next ≤ n → j < n → (d : ℕ) × ((next + d ≡ j) ⊎ (next + d ≡ j + n)) × (d < n)
distance next j n h l = elim (Bool-cases (leb next j)) [
  | inl on ↦ (j - next, inl (ground (arith, on)), ground (arith, on))
  | inr round ↦ (j + n - next, inr (ground (arith, round, h)), ground (arith, round, h))
]

Picks-IsTurning :
    (w : WeightRoundRobin) (r : Option (WeightRoundRobin × ℕ))
    → IsTurning w
    → Returns (λ (w', id). Picks w.servers (get_max_weight w.servers 0) w' id) r
    → Returns (λ (w', id). Picks w.servers (get_max_weight w.servers 0) w' id × IsTurning w') r
Picks-IsTurning w none v p = p
Picks-IsTurning w (some (w', id)) v p = (
  p,
  record {
    positive = rw p.same_servers v.positive;
    inside = rw p.same_servers p.turning.0;
    light = rw p.same_servers p.turning.1;
  },
)

-- The endless loop ends: with a server of positive weight, a call finds a server within one
-- round of them all, the server has at least the weight that is due, and the next call is set
-- up again.
pub get_server-Picks :
    (w : WeightRoundRobin)
    → IsTurning w
    → Returns
        (λ (w', id). Picks w.servers (get_max_weight w.servers 0) w' id × IsTurning w')
        (get_server w)
unfolding get_server
get_server-Picks w v = elim (get_max_weight-at w.servers 0) [
  | inl e ↦ absurd (omega (arith, v.positive, e))
  | inr (j, top, e, t, l) ↦
      let (d, a, f) = distance w.next j (length w.servers) v.inside l in
      Picks-IsTurning w (get_server w) v (
        find_server_lem (length w.servers) d j top
          (record w { max_weight = get_max_weight w.servers 0 }) e t l a f v.inside v.light)
]
