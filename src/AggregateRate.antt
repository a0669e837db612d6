-- ===== src/AggregateRate.antt =====
-- ns3/mp-video/model/aggregaterate.cc: the sum of the rates of the paths.
use mp_video_simulation.Prelude.{
  ℕ, ◌+◌, ◌<◌, ◌%◌, ◌≡◌, Bool, true, false, Option, none, some, List, [], ◌∷◌, if◌then◌else◌, add32,
  u32_mod, arith,
}
use mp_video_simulation.Prelude.OrderedMap
use mp_video_simulation.Prelude.OrderedMap.{find, sum_values}

-- AggregateRate, without the trace file; `cb` says whether a callback is registered.
pub record AggregateRate : Type 0 where
  pub path_rate_table : List (ℕ × ℕ)
  pub cb : Bool
  pub first_ts : ℕ
  pub first : Bool

abbrev pub init : AggregateRate
init = record { path_rate_table = []; cb = false; first_ts = 0; first = true }

-- `RegisterRateChangeCallback`, with a callback that is not null.
unfoldable pub register_rate_change_callback : AggregateRate → AggregateRate
register_rate_change_callback s = record s { cb = true }

unfoldable pub sum_rates : List (ℕ × ℕ) → ℕ → ℕ
sum_rates [] total = total
sum_rates ((pid, rate) ∷ table) total = sum_rates table (add32 total rate)

-- `ChangeRate`: the object, and the total that the callback is told.
unfoldable pub change_rate : (now pid bitrate : ℕ) → AggregateRate → AggregateRate × Option ℕ
unfolding sum_rates
change_rate now pid bitrate s =
    let table : List (ℕ × ℕ) = elim (find pid s.path_rate_table) [
      | none ↦ OrderedMap.insert pid bitrate s.path_rate_table
      | some rate ↦ OrderedMap.update pid bitrate s.path_rate_table
    ] in
    (
      record s {
        path_rate_table = table;
        first_ts = if s.first then now else s.first_ts;
        first = false;
      },
      if s.cb then some (sum_rates table 0) else none,
    )

-- The total is the sum of the rates, as a word.
pub sum_rates_lem :
    (table : List (ℕ × ℕ)) (total : ℕ)
    → total < u32_mod
    → sum_rates table total ≡ (total + sum_values (λ rate. rate) table) % u32_mod
unfolding sum_rates
sum_rates_lem [] total small = omega arith
sum_rates_lem ((pid, rate) ∷ table) total small =
    let rest = sum_rates_lem table (add32 total rate) (omega arith) in omega (arith, rest)
