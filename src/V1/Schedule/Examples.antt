-- ===== src/V1/Schedule/Examples.antt =====
-- Concrete inputs of the choice of a path for a lost packet.
use mp_video_simulation.Prelude.{
  ℕ, ◌≤◌, ◌≡◌, ◌≢◌, refl, true, Option, some, [], ◌∷◌, ◌==◌, if◌then◌else◌, All, Returns, arith,
}
use mp_video_simulation.Prelude.OrderedSet.{contains}
use mp_video_simulation.V1.Schedule.{retrans_packets}
use mp_video_simulation.V1.Schedule.Retrans.{retrans_packets-Least}

abbrev round_trip : ℕ → ℕ
round_trip pid = if pid == 2 then 80 else 50

abbrev get_rtt : ℕ → Option ℕ
get_rtt pid = some (round_trip pid)

-- A packet lost on the path 1 of three.
retrans_packets-Least_example :
    Returns
      (λ b.
        (contains (1 ∷ 2 ∷ 3 ∷ []) b ≡ true)
        × (b ≢ 1)
        × All (λ p. p ≢ 1 → round_trip b ≤ round_trip p) (1 ∷ 2 ∷ 3 ∷ []))
      (retrans_packets get_rtt 1 (1 ∷ 2 ∷ 3 ∷ []))
retrans_packets-Least_example =
    retrans_packets-Least get_rtt round_trip 1 (1 ∷ 2 ∷ 3 ∷ []) 3 (λ e. omega (arith, e))
      (refl, (refl, (refl, tt))) refl (λ e. omega (arith, e)) (omega arith)
