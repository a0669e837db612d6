-- ===== src/Bbr/Modes.antt =====
-- ns3/mp-video/model/congestion/bbr_sender_v1.cc: the round trips, the gain cycle and the modes.
use mp_video_simulation.Prelude.{
  ℕ, ◌+◌, ◌-◌, ◌*◌, ◌%◌, Bool, true, false, [], leb, ltb, ◌==◌, ◌||◌, if◌then◌else◌, u32_mod,
}
use mp_video_simulation.Bbr.State.{
  Mode, start_up, probe_ab, probe_bw, probe_rtt, insisit_phase, Gain, higher, lower, even, Parts,
  Bbr,
}

abbrev pub gain_cycle_length : ℕ
gain_cycle_length = 8

-- kMinRttExpiry, in microseconds.
abbrev pub min_rtt_expiry : ℕ
min_rtt_expiry = 10000000

-- kPacingGain and kPacingGain2, within the cycle.
unfoldable pub pacing_gain_at : ℕ → Gain
pacing_gain_at i = if i == 0 then higher else if i == 1 then lower else even

unfoldable pub pacing_gain_2_at : ℕ → Gain
pacing_gain_2_at i = if i % 2 == 0 then higher else lower

-- PROBE_BW, PROBE_AB and INSISIT_PHASE.
unfoldable pub cycles : Mode → Bool
cycles start_up = false
cycles probe_ab = true
cycles probe_bw = true
cycles probe_rtt = false
cycles insisit_phase = true

module _ {F C : Type 0} where
  abbrev pub next_round : Bbr F C → ℕ
  next_round s = (s.round_trip_count + 1) % (u32_mod * u32_mod)

  -- `UserDefinePeriod`, in microseconds.
  unfoldable pub user_define_period : (ms : ℕ) → Bbr F C → Bbr F C
  user_define_period ms s = record s { user_period = ms * 1000 }

  -- `EnterProbeBandwidthMode`, with the answer of RandUint64.
  abbrev pub set_probe_bw : (random now : ℕ) → Bbr F C → Bbr F C
  set_probe_bw random now s =
      let drawn = random % (gain_cycle_length - 1) in
      let offset = if leb 1 drawn then drawn + 1 else drawn in
      record s {
        mode = probe_bw;
        cycle_current_offset = offset;
        last_cycle_start = now;
        pacing_gain = pacing_gain_at offset;
        round_trip_count = next_round s;
      }

  unfoldable pub enter_probe_bandwidth_mode : (random now : ℕ) → Bbr F C → Bbr F C
  unfolding pacing_gain_at
  enter_probe_bandwidth_mode random now s = elim s.mode [
    | start_up ↦ set_probe_bw random now s
    | probe_ab ↦ set_probe_bw random now s
    | probe_bw ↦ s
    | probe_rtt ↦ set_probe_bw random now s
    | insisit_phase ↦ set_probe_bw random now s
  ]

  -- `EnterFastProbeMode`.
  abbrev pub set_probe_ab : (now : ℕ) → Bbr F C → Bbr F C
  set_probe_ab now s = record s {
    mode = probe_ab;
    cycle_current_offset = 0;
    last_cycle_start = now;
    pacing_gain = pacing_gain_2_at 0;
    round_trip_count = next_round s;
  }

  unfoldable pub enter_fast_probe_mode : (now : ℕ) → Bbr F C → Bbr F C
  unfolding pacing_gain_2_at
  enter_fast_probe_mode now s = elim s.mode [
    | start_up ↦ set_probe_ab now s
    | probe_ab ↦ s
    | probe_bw ↦ set_probe_ab now s
    | probe_rtt ↦ set_probe_ab now s
    | insisit_phase ↦ set_probe_ab now s
  ]

  -- `EnterInsistStableMode`.
  abbrev pub set_insist : (now : ℕ) → Bbr F C → Bbr F C
  set_insist now s = record s {
    mode = insisit_phase;
    cycle_current_offset = 0;
    last_cycle_start = now;
    pacing_gain = even;
    round_trip_count = next_round s;
  }

  unfoldable pub enter_insist_stable_mode : (now : ℕ) → Bbr F C → Bbr F C
  enter_insist_stable_mode now s = elim s.mode [
    | start_up ↦ set_insist now s
    | probe_ab ↦ set_insist now s
    | probe_bw ↦ set_insist now s
    | probe_rtt ↦ set_insist now s
    | insisit_phase ↦ s
  ]

  -- The gain of the next phase, by the mode.
  abbrev pub cycle_gain : (offset : ℕ) → Bbr F C → Bbr F C
  cycle_gain offset s = elim s.mode [
    | start_up ↦ s
    | probe_ab ↦ record s { pacing_gain = pacing_gain_2_at offset }
    | probe_bw ↦ record s { pacing_gain = pacing_gain_at offset }
    | probe_rtt ↦ s
    | insisit_phase ↦ record s { ai_factor = (s.ai_factor + 1) % u32_mod; pacing_gain = even }
  ]

  -- `UpdateGainCyclePhase`.
  unfoldable pub update_gain_cycle_phase : (now : ℕ) → Bbr F C → Bbr F C
  unfolding pacing_gain_at pacing_gain_2_at
  update_gain_cycle_phase now s =
      let threshold = if s.user_period == 0 then s.min_rtt else s.user_period in
      let offset = (s.cycle_current_offset + 1) % gain_cycle_length in
      let turned = record s { cycle_current_offset = offset; last_cycle_start = now } in
      if ltb (s.last_cycle_start + threshold) now
      then record (cycle_gain offset turned) { round_trip_count = next_round s }
      else s

  -- How PROBE_RTT ends.
  unfoldable pub leave_probe_rtt : (random now : ℕ) → Bbr F C → Bbr F C
  unfolding enter_probe_bandwidth_mode enter_fast_probe_mode
  leave_probe_rtt random now s =
      let known =
        if s.min_rtt == 0
        then record s { min_rtt = s.recored_min_rtt; min_rtt_timestamp = now }
        else s in
      let cleared = record known { recored_min_rtt = 0 } in
      if s.is_recover_effective
      then enter_probe_bandwidth_mode random now cleared
      else enter_fast_probe_mode now cleared

  abbrev pub set_exit : (now : ℕ) → Bbr F C → Bbr F C
  set_exit now s = record s {
    exit_probe_rtt_at =
        if s.exit_probe_rtt_at == 0 then now + 4 * s.global_min_rtt else s.exit_probe_rtt_at;
  }

module _ {F C : Type 0} (parts : Parts F) where
  -- `HasSampledLastMinRtt`.
  unfoldable pub has_sampled_last_min_rtt : Bbr F C → Bool
  has_sampled_last_min_rtt s =
      if (s.min_rtt == 0) || (s.recored_min_rtt == 0)
      then false
      else ltb s.min_rtt (parts.similar s.recored_min_rtt)

  -- `ClusterInfoClear`.
  abbrev pub cluster_info_clear : Bbr F C → Bbr F C
  cluster_info_clear s = record s {
    max_bandwidth = parts.reset 0 0 s.max_bandwidth;
    avergae_bandwidth = parts.reset 0 0 s.avergae_bandwidth;
    seq_round_map = [];
    acked_clusters = [];
    average_round = 0;
    connection_info = [];
  }

  -- The first block of `MaybeEnterOrExitProbeRtt`.
  abbrev pub set_probe_rtt : Bbr F C → Bbr F C
  set_probe_rtt s =
      let bw = parts.get_best s.max_bandwidth in
      let insists =
        if s.max_rate_record == 0 then false else leb (parts.insist_factor s.max_rate_record) bw in
      cluster_info_clear (record s {
        mode = probe_rtt;
        pacing_gain = even;
        ai_factor = 0;
        exit_probe_rtt_at = 0;
        round_trip_count = 0;
        recored_min_rtt = s.min_rtt;
        recover_rate = if insists then parts.insist_back_off bw else parts.cogestion_back_off bw;
        is_recover_effective = insists;
        max_rate_record = 0;
        min_rtt = 0;
        seq_ts_map = [];
        change_state_probe_bw_insist = false;
      })

  -- PROBE_RTT begins if the minimum has expired.
  unfoldable pub enter_probe_rtt : (expired : Bool) → Bbr F C → Bbr F C
  enter_probe_rtt false s = s
  enter_probe_rtt true s = elim s.mode [
    | start_up ↦ set_probe_rtt s
    | probe_ab ↦ set_probe_rtt s
    | probe_bw ↦ set_probe_rtt s
    | probe_rtt ↦ s
    | insisit_phase ↦ set_probe_rtt s
  ]

  unfoldable pub end_probe_rtt : (random now : ℕ) → Bbr F C → Bbr F C
  unfolding leave_probe_rtt has_sampled_last_min_rtt
  end_probe_rtt random now s =
      if ltb s.exit_probe_rtt_at now || has_sampled_last_min_rtt s
      then leave_probe_rtt random now s
      else s

  -- The second block of `MaybeEnterOrExitProbeRtt`.
  unfoldable pub exit_probe_rtt : (random now : ℕ) → Bbr F C → Bbr F C
  unfolding end_probe_rtt
  exit_probe_rtt random now s = elim s.mode [
    | start_up ↦ s
    | probe_ab ↦ s
    | probe_bw ↦ s
    | probe_rtt ↦ end_probe_rtt random now (set_exit now s)
    | insisit_phase ↦ s
  ]

  -- `MaybeEnterOrExitProbeRtt`.
  unfoldable pub maybe_enter_or_exit_probe_rtt :
      (random now : ℕ) → (expired : Bool) → Bbr F C → Bbr F C
  unfolding enter_probe_rtt exit_probe_rtt
  maybe_enter_or_exit_probe_rtt random now expired s =
      exit_probe_rtt random now (enter_probe_rtt expired s)
