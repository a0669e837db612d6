-- ===== src/Bbr2/Exact.antt =====
-- Bandwidths, fractions and a filter for concrete runs of the congestion controllers.
use mp_video_simulation.Prelude.{ℕ, ◌*◌, ◌/◌, ◌==◌, max}
use mp_video_simulation.Sampler.{Bandwidths}
use mp_video_simulation.Bbr2.State.{Parts}

-- Bandwidths in bits per second, rounded down.
abbrev pub exact_bandwidths : Bandwidths
exact_bandwidths = record {
  infinite = 1000000000000;
  from_bytes_and_time = λ bytes delta. bytes * 8000000 / delta;
}

-- Floats in thousandths, and a filter that keeps the last sample.
abbrev pub exact : Parts ℕ ℕ
exact = record {
  bandwidths = exact_bandwidths;
  milli = λ n. n;
  is_one = λ g. g == 1000;
  ratio = λ a b. a * 1000 / b;
  max_of = max;
  times = λ g n. g * n / 1000;
  times_delta = λ g n. g * n / 1000;
  times_bytes = λ g n. g * n / 1000;
  bdp = λ delta bandwidth. delta * bandwidth / 8000000;
  get_best = λ best. best;
  update = λ sample round best. sample;
  reset = λ sample round best. sample;
}
