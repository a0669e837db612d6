-- ===== src/PathSender/Rates.antt =====
-- ns3/mp-video/model/pathsender.cc: the rate, the pacing delay and the round trips of the sender.
use mp_video_simulation.Prelude.{
  ℕ, ◌+◌, ◌-◌, ◌*◌, ◌/◌, ◌%◌, ◌≤◌, ◌<◌, min, max, ltb, ◌==◌, add64, if◌then◌else◌, u32_mod, arith,
}
use mp_video_simulation.Common.{keep_rtt}
use mp_video_simulation.PathReceiver.Delays.{Delays, filter_sample}
use mp_video_simulation.PathSender.State.{PathSender}

-- SMOOTH_RATE_NUM of SMOOTH_RATE_DEN, in uint32_t.
unfoldable pub smooth_rate : ℕ → ℕ → ℕ
smooth_rate s_rate bitrate =
    if s_rate == 0 then bitrate else (s_rate * 90 + (100 - 90) * bitrate) % u32_mod / 100

-- `UpdatePaceQueueDelay`, smooth_num of smooth_den; above max_sent_ts_offset nothing changes.
unfoldable pub update_pace_queue_delay : ℕ → ℕ → ℕ
update_pace_queue_delay ts s_sent_ts =
    if ltb 500 ts
    then s_sent_ts
    else if s_sent_ts == 0
    then ts
    else (90 * s_sent_ts + (100 - 90) * ts) % u32_mod / 100

-- `UpdateMinRtt`.
unfoldable pub update_min_rtt : ℕ → ℕ → ℕ
update_min_rtt rtt min_rtt = if min_rtt == 0 then rtt else if ltb rtt min_rtt then rtt else min_rtt

-- The sum and the number of the samples, which have 64 bits here and 32 in the receiver.
unfoldable pub count_rtt : ℕ → Delays → Delays
count_rtt sample d =
    if d.rtt_num == 0
    then record d { sum_rtt = sample; max_rtt = sample; rtt_num = 1 }
    else record d {
      rtt_num = add64 d.rtt_num 1;
      sum_rtt = add64 d.sum_rtt sample;
      max_rtt = if ltb d.max_rtt sample then sample else d.max_rtt;
    }

-- The fields that `UpdateRtt` writes.
unfoldable pub sample_rtt : ℕ → ℕ → PathSender → PathSender
unfolding update_min_rtt filter_sample count_rtt
sample_rtt time now s = record s {
  min_rtt = update_min_rtt (keep_rtt time) s.min_rtt;
  delays = count_rtt (keep_rtt time) (filter_sample (keep_rtt time) now s.delays);
}

-- A smoothed rate lies between the old one and the new one, as long as 100 times them is a
-- word.
pub smooth_rate_bounds :
    (s_rate bitrate : ℕ)
    → 0 < s_rate
    → s_rate * 100 < u32_mod
    → bitrate * 100 < u32_mod
    → (min s_rate bitrate ≤ smooth_rate s_rate bitrate)
      × (smooth_rate s_rate bitrate ≤ max s_rate bitrate)
unfolding smooth_rate
smooth_rate_bounds s_rate bitrate p h i = ground arith

-- The smoothed pacing delay never passes 500 ms once it is at most that, nor the larger of its
-- old value and the sample.
pub update_pace_queue_delay_bounds :
    (ts s_sent_ts : ℕ)
    → s_sent_ts ≤ 500
    → (update_pace_queue_delay ts s_sent_ts ≤ 500)
      × (update_pace_queue_delay ts s_sent_ts ≤ max s_sent_ts ts)
unfolding update_pace_queue_delay
update_pace_queue_delay_bounds ts s_sent_ts h = ground arith
