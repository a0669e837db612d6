-- ===== src/PathReceiver/Delays.antt =====
-- ns3/mp-video/model/pathreceiver.cc: the round-trip statistics that `UpdateRtt` keeps.
use mp_video_simulation.Prelude.{
  ℕ, ◌+◌, ◌*◌, ◌/◌, ◌≤◌, ◌<◌, ◌≡◌, ltb, ◌==◌, if◌then◌else◌, add32, u32_mod, arith, max, ◌^◌,
  Bool-cases, inl, inr,
}
use mp_video_simulation.Common.{keep_rtt, smooth_rtt, smooth_var}

pub record Delays : Type 0 where
  pub rtt : ℕ
  pub sum_rtt : ℕ
  pub max_rtt : ℕ
  pub rtt_num : ℕ
  pub rtt_var : ℕ
  pub rtt_update_ts : ℕ
  pub ping_resend : ℕ

-- The part that every sample runs.
unfoldable pub filter_sample : ℕ → ℕ → Delays → Delays
filter_sample sample now d = record d {
  rtt_var = smooth_var d.rtt_var d.rtt sample;
  rtt = smooth_rtt d.rtt sample;
  rtt_update_ts = now;
  ping_resend = 0;
}

count_sample : ℕ → Delays → Delays
count_sample sample d =
    if d.rtt_num == 0
    then record d { sum_rtt = sample; max_rtt = sample; rtt_num = 1 }
    else record d {
      rtt_num = add32 d.rtt_num 1;
      sum_rtt = add32 d.sum_rtt sample;
      max_rtt = if ltb d.max_rtt sample then sample else d.max_rtt;
    }

unfoldable pub update_rtt : ℕ → ℕ → Delays → Delays
unfolding filter_sample count_sample smooth_rtt smooth_var
update_rtt time now d = count_sample (keep_rtt time) (filter_sample (keep_rtt time) now d)

-- What the congestion controller is told after the update: the average and the maximum.
unfoldable pub rtt_report : Delays → ℕ × ℕ
rtt_report d = (d.sum_rtt / d.rtt_num, d.max_rtt)

-- `GetWaittingDuration`, with its protection time of 50 ms.
unfoldable pub get_waitting_duration : Delays → ℕ
get_waitting_duration d = add32 (add32 d.rtt d.rtt_var) 50

-- The sum stays below what its counters allow.
pub record IsCounted (d : Delays) : Type 0 where
  pub num_id : d.rtt_num + 1 < u32_mod
  pub sum_id : d.sum_rtt < u32_mod
  pub sum_le : d.sum_rtt ≤ d.rtt_num * d.max_rtt

mul_mono_right : (n m k : ℕ) → m ≤ k → n * m ≤ n * k
mul_mono_right n m k h = grind arith

count_lem : (n m s k : ℕ) → s ≤ n * m → s + k ≤ (n + 1) * (if ltb m k then k else m)
count_lem n m s k h = elim (Bool-cases (ltb m k)) [
  | inl up ↦ rw up (omega (arith, mul_mono_right n m k (ground arith)))
  | inr same ↦ rw same (ground arith)
]

div-le : (s n m : ℕ) → 0 < n → s ≤ n * m → s / n ≤ m
div-le s n m p h = grind arith

count_sample-IsCounted :
    (k : ℕ) (d : Delays)
    → IsCounted d
    → d.rtt_num + 2 < u32_mod
    → d.sum_rtt + k < u32_mod
    → let e = count_sample k d in
      IsCounted e × ((rtt_report e).0 ≤ (rtt_report e).1) × (k ≤ e.max_rtt)
unfolding count_sample rtt_report
count_sample-IsCounted k d v x y = elim (Bool-cases (d.rtt_num == 0)) [
  | inl first ↦ rw first (omega arith, omega (arith, div-le k 1 k), omega arith)
  | inr later ↦
      let num : add32 d.rtt_num 1 ≡ d.rtt_num + 1 = omega arith in
      let total : add32 d.sum_rtt k ≡ d.sum_rtt + k = omega arith in
      let bound = count_lem d.rtt_num d.max_rtt d.sum_rtt k v.sum_le in
      rw (later, num, total)
        (
          record { num_id = omega arith; sum_id = y; sum_le = bound },
          div-le _ _ _ (omega arith) bound,
          ground arith,
        )
]

-- As long as the two counters do not wrap, the average round trip that the congestion
-- controller is told is at most the maximum that it is told, and the maximum covers the new
-- sample.
pub update_rtt-IsCounted :
    (time now : ℕ) (d : Delays)
    → IsCounted d
    → time < u32_mod
    → d.rtt_num + 2 < u32_mod
    → d.sum_rtt + keep_rtt time < u32_mod
    → let e = update_rtt time now d in
      IsCounted e × ((rtt_report e).0 ≤ (rtt_report e).1) × (time ≤ e.max_rtt)
unfolding update_rtt filter_sample
update_rtt-IsCounted time now d v w x y =
    let (a, b, c) =
      count_sample-IsCounted (keep_rtt time) (filter_sample (keep_rtt time) now d)
        (record { num_id = v.num_id; sum_id = v.sum_id; sum_le = v.sum_le }) x y in
    (a, b, ground arith)

-- For values below 2^28 the smoothed round trip and its deviation stay at 10 or more and at
-- most the larger of 10, the old values and the sample; the update time is set and the count of
-- unanswered pings is cleared.
pub update_rtt_bounds :
    (time now : ℕ) (d : Delays)
    → time < 2 ^ 28
    → d.rtt < 2 ^ 28
    → d.rtt_var < 2 ^ 28
    → let e = update_rtt time now d in
      (10 ≤ e.rtt)
      × (10 ≤ e.rtt_var)
      × (e.rtt ≤ max 10 (max d.rtt time))
      × (e.rtt_var ≤ max 10 (max d.rtt_var (max d.rtt time)))
      × (e.rtt_update_ts ≡ now)
      × (e.ping_resend ≡ 0)
unfolding update_rtt
update_rtt_bounds time now d h i j = ground arith
