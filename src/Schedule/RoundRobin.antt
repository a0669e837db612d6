-- ===== src/Schedule/RoundRobin.antt =====
-- ns3/mp-video/model/roundrobinschedule.cc, and the `RoundRobin` of the other schedulers.
use mp_video_simulation.Prelude.{
  ℕ, zero, suc, ◌+◌, ◌%◌, ◌<◌, ◌≡◌, refl, Option, none, some, List, [], ◌∷◌, ◌==◌, if◌then◌else◌,
  add32, u8_mod, u32_mod, length, get_elem?, All, Returns, arith,
}
use mp_video_simulation.Prelude.OrderedMap.{find}
use mp_video_simulation.Protocol.{Segment}
use mp_video_simulation.MpReceiver.Slots.{get_elem?_in}
use mp_video_simulation.MpSender.Video.{pending_info}
use mp_video_simulation.MpSender.Sending.{Decides}

-- One round of the loop: the path for the `last_index`-th packet. The count of the paths is a
-- uint8_t; `none` is the division by 0, or a read outside the array.
unfoldable pub next_path : List ℕ → ℕ → Option ℕ
next_path pids last_index =
    let total = length pids % u8_mod in
    if total == 0 then none else get_elem? pids (last_index % total)

-- The decisions for the packets, with `last_index_` after them.
unfoldable pub round_robin : List ℕ → ℕ → List (ℕ × ℕ) → Option (ℕ × List (ℕ × ℕ))
unfolding next_path
round_robin pids last_index [] = some (last_index, [])
round_robin pids last_index ((id, size) ∷ packets) = elim (next_path pids last_index) [
  | none ↦ none
  | some pid ↦ elim (round_robin pids (add32 last_index 1) packets) [
    | none ↦ none
    | some (last, decisions) ↦ some (last, (id, pid) ∷ decisions)
  ]
]

-- The path is usable at the sender.
abbrev pub IsUsable : List (ℕ × ℕ) → ℕ → Type 0
IsUsable usable pid = (path : ℕ) × (find pid usable ≡ some path)

All-get_elem? : (P : ℕ → Type 0) (xs : List ℕ) (i x : ℕ) → All P xs → get_elem? xs i ≡ some x → P x
All-get_elem? P [] i x a e = absurd (cc e)
All-get_elem? P (y ∷ xs) zero x a e = let same : y ≡ x = cc e in rw (← same) a.0
All-get_elem? P (y ∷ xs) (suc i) x a e = All-get_elem? P xs i x a.1 e

mod_lt : (m n : ℕ) → 0 < n → m % n < n
mod_lt m n h = omega arith

-- Packet after packet, the path whose turn it is: its place is the index on the circle of paths.
abbrev pub Rotates : List ℕ → (index : ℕ) → List (ℕ × ℕ) → Type 0
Rotates pids index [] = Unit
Rotates pids index ((id, pid) ∷ decisions) =
    (get_elem? pids (index % length pids) ≡ some pid) × Rotates pids (add32 index 1) decisions

-- What round robin does with the segments that wait, and the index that it has after them.
abbrev pub TakesTurns :
    (usable : List (ℕ × ℕ))
    → (pids : List ℕ) → (index : ℕ) → List (ℕ × Segment)
    → ℕ × List (ℕ × ℕ)
    → Type 0
TakesTurns usable pids index pending (last, decisions) =
    Decides usable pending decisions
    × Rotates pids index decisions
    × (last % u32_mod ≡ (index + length pending) % u32_mod)

next_path-IsUsable :
    (usable : List (ℕ × ℕ)) (pids : List ℕ) (last_index : ℕ)
    → 0 < length pids
    → length pids < u8_mod
    → All (IsUsable usable) pids
    → (pid : ℕ) × (next_path pids last_index ≡ some pid)
      × (get_elem? pids (last_index % length pids) ≡ some pid)
      × IsUsable usable pid
unfolding next_path
next_path-IsUsable usable pids last_index pos small known =
    let total : length pids % u8_mod ≡ length pids = omega arith in
    let (pid, e) =
      get_elem?_in pids (last_index % length pids) (mod_lt last_index (length pids) pos) in
    (pid, rw total (ground (arith, e)), e, All-get_elem? (IsUsable usable) pids _ pid known e)

round_robin-step :
    (usable : List (ℕ × ℕ)) (pids : List ℕ) (index id : ℕ) (seg : Segment)
    (pending : List (ℕ × Segment)) (pid : ℕ) (later : Option (ℕ × List (ℕ × ℕ)))
    → get_elem? pids (index % length pids) ≡ some pid
    → IsUsable usable pid
    → Returns (TakesTurns usable pids (add32 index 1) pending) later
    → Returns
        (TakesTurns usable pids index ((id, seg) ∷ pending))
        (elim later [ none ↦ none | some (last, decisions) ↦ some (last, (id, pid) ∷ decisions) ])
round_robin-step usable pids index id seg pending pid none e u r = r
round_robin-step usable pids index id seg pending pid (some (last, decisions)) e u (d, turns, l) =
    ((refl, u, d), (e, turns), omega (arith, l))

-- Round robin decides on every waiting segment, in order and with a usable path, from whatever
-- index it starts: there are 1 to 255 registered paths, and all of them are usable at the
-- sender. The paths take turns: each segment gets the path at the index modulo the number of
-- paths, and the index, a word of 32 bits, moves on by one for each segment and is kept.
pub round_robin-Decides :
    (usable : List (ℕ × ℕ)) (pids : List ℕ) (last_index : ℕ) (pending : List (ℕ × Segment))
    → 0 < length pids
    → length pids < u8_mod
    → All (IsUsable usable) pids
    → Returns
        (TakesTurns usable pids last_index pending)
        (round_robin pids last_index (pending_info pending))
unfolding round_robin pending_info
round_robin-Decides usable pids last_index [] pos small known = (tt, tt, omega arith)
round_robin-Decides usable pids last_index ((id, seg) ∷ pending) pos small known =
    let (pid, e, turn, u) = next_path-IsUsable usable pids last_index pos small known in
    rw (e, round_robin)
      (round_robin-step usable pids last_index id seg pending pid
        (round_robin pids (add32 last_index 1) (pending_info pending)) turn u
        (round_robin-Decides usable pids (add32 last_index 1) pending pos small known))
