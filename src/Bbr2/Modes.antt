-- ===== src/Bbr2/Modes.antt =====
-- ns3/mp-video/model/congestion/bbr_sender_v2.cc: round trips, growth, congestion and the modes.
use mp_video_simulation.Prelude.{
  ℕ, ◌+◌, ◌-◌, ◌*◌, ◌/◌, Bool, true, false, Option, none, some, leb, ltb, ◌==◌, not, ◌||◌, ◌&&◌,
  if◌then◌else◌, add64,
}
use mp_video_simulation.Prelude.OrderedMap.{find}
use mp_video_simulation.Bbr2.Flight.{PerPacket}
use mp_video_simulation.Bbr2.State.{
  Mode, st_start, st_drain, st_increase, st_decrease, Parts, Bbr2, drain_gain, even_gain,
  decrease_gain, startup_growth_target, bandwidth_loss_factor, similar_min_rtt_threshold,
  self_inflict_queue_backoff, num_startup_rtts, num_bw_decrease_rtts, initial_congestion_window,
}

abbrev pub is_start : Mode → Bool
is_start st_start = true
is_start _ = false

abbrev pub is_drain : Mode → Bool
is_drain st_drain = true
is_drain _ = false

abbrev pub is_increase : Mode → Bool
is_increase st_increase = true
is_increase _ = false

abbrev pub is_decrease : Mode → Bool
is_decrease st_decrease = true
is_decrease _ = false

module _ {Fl F : Type 0} (parts : Parts Fl F) where
  abbrev pub bandwidth_estimate : Bbr2 Fl F → ℕ
  bandwidth_estimate s = parts.get_best s.max_bandwidth

  -- `GetMinRtt`.
  abbrev pub get_min_rtt : Bbr2 Fl F → ℕ
  get_min_rtt s = if s.min_rtt == 0 then 200000 else s.min_rtt

  -- The window for a product of a round trip and the estimate.
  abbrev pub window : (gain : Fl) → (bdp : ℕ) → ℕ
  window gain bdp =
      let congestion_window = parts.times_bytes gain bdp in
      if congestion_window == 0
      then parts.times_bytes gain initial_congestion_window
      else congestion_window

  -- `GetTargetCongestionWindow` and `GetTargetInflightInDecrease`.
  unfoldable pub get_target_congestion_window : (gain : Fl) → Bbr2 Fl F → ℕ
  get_target_congestion_window gain s =
      window gain (parts.bdp (get_min_rtt s) (bandwidth_estimate s))

  unfoldable pub get_target_inflight_in_decrease : (gain : Fl) → Bbr2 Fl F → ℕ
  get_target_inflight_in_decrease gain s =
      window gain (parts.bdp s.min_rtt_record (bandwidth_estimate s))

  -- A sample that is the least of DECREASE.
  abbrev pub falls : (rtt : ℕ) → Bbr2 Fl F → Bool
  falls rtt s =
      is_decrease s.mode && elim s.min_rtt_in_decrease [ none ↦ true | some least ↦ leb rtt least ]

  -- A sample of the round trip. The clock does not run backwards, so that it is a ℕ.
  unfoldable pub take_rtt : (now rtt : ℕ) → Bbr2 Fl F → Bbr2 Fl F
  take_rtt now rtt s =
      let lower = (s.min_rtt == 0) || ltb rtt s.min_rtt in
      let similar = leb rtt (parts.times_delta (similar_min_rtt_threshold parts) s.min_rtt) in
      let renews = lower || (ltb s.min_rtt rtt && similar) in
      record s {
        min_rtt = if lower then rtt else s.min_rtt;
        min_rtt_timestamp = if renews then now else s.min_rtt_timestamp;
        min_rtt_in_decrease = if falls rtt s then some rtt else s.min_rtt_in_decrease;
        min_rtt_timestamp_in_decrease =
            if falls rtt s then now else s.min_rtt_timestamp_in_decrease;
      }

  -- The first half of `UpdateRttAndInflight`, with the packet, if it is in flight.
  unfoldable pub learn_rtt : (now : ℕ) → Option PerPacket → Bbr2 Fl F → Bbr2 Fl F
  unfolding take_rtt
  learn_rtt now none s = s
  learn_rtt now (some packet) s = take_rtt now (now - packet.sent_ts) s

  unfoldable pub update_rtt : (now packet_number : ℕ) → Bbr2 Fl F → Bbr2 Fl F
  unfolding learn_rtt
  update_rtt now packet_number s = learn_rtt now (find packet_number s.flight.sent_packets_map) s

  -- `UpdateMaxBw`.
  unfoldable pub update_max_bw : Bbr2 Fl F → Bbr2 Fl F
  update_max_bw s =
      let bw = bandwidth_estimate s in
      record s {
        max_bw_in_increase = if ltb s.max_bw_in_increase bw then bw else s.max_bw_in_increase;
      }

  -- `CheckIfFullBandwidthReached`.
  unfoldable pub check_if_full_bandwidth_reached : Bbr2 Fl F → Bbr2 Fl F
  check_if_full_bandwidth_reached s =
      let best = bandwidth_estimate s in
      let rounds = add64 s.rounds_without_bandwidth_gain 1 in
      if leb (parts.times (startup_growth_target parts) s.bandwidth_at_last_round) best
      then record s { bandwidth_at_last_round = best; rounds_without_bandwidth_gain = 0 }
      else record s {
        rounds_without_bandwidth_gain = rounds;
        is_at_full_bandwidth = leb num_startup_rtts rounds || s.is_at_full_bandwidth;
      }

  -- A round whose bandwidth is below the base line.
  unfoldable pub weak_round : (instant_bw round : ℕ) → Bbr2 Fl F → Bbr2 Fl F × Bool
  weak_round instant_bw round s =
      let factor = parts.ratio (instant_bw / 1000 * 1000) (s.max_bw_in_increase / 1000 * 1000) in
      let back_off = parts.max_of factor s.dynamic_congestion_back_off in
      if s.congestion_start_round == 0
      then (record s { congestion_start_round = round; congestion_round_count = round }, false)
      else if not (round == s.congestion_round_count + 1)
      then (
        record s {
          congestion_start_round = 0;
          congestion_round_count = 0;
          dynamic_congestion_back_off = parts.milli 0;
        },
        false,
      )
      else if leb (s.congestion_start_round + num_bw_decrease_rtts) round
      then (
        record s {
          congestion_start_round = 0;
          congestion_round_count = 0;
          dynamic_congestion_back_off = back_off;
        },
        true,
      )
      else (
        record s { congestion_round_count = round; dynamic_congestion_back_off = back_off },
        false,
      )

  -- `CheckIfCongestion`.
  unfoldable pub check_if_congestion : (instant_bw round : ℕ) → Bbr2 Fl F → Bbr2 Fl F × Bool
  unfolding weak_round
  check_if_congestion instant_bw round s =
      if (s.max_bw_in_increase == 0) || (s.sending_rate == 0)
      then (s, false)
      else if leb instant_bw (parts.times (bandwidth_loss_factor parts) s.sending_rate)
      then weak_round instant_bw round s
      else (s, false)

  -- `EnterIncreaseMode`.
  abbrev pub enter_increase_mode : Bbr2 Fl F → Bbr2 Fl F
  enter_increase_mode s = record s { mode = st_increase; pacing_gain = even_gain parts }

  -- The two blocks of `MaybeExitStartupOrDrain`.
  unfoldable pub exit_startup : Bbr2 Fl F → Bbr2 Fl F
  exit_startup s =
      if is_start s.mode && s.is_at_full_bandwidth
      then record s { mode = st_drain; pacing_gain = drain_gain parts }
      else s

  unfoldable pub exit_drain : Bbr2 Fl F → Bbr2 Fl F
  unfolding get_target_congestion_window
  exit_drain s =
      if is_drain s.mode
        && leb s.flight.bytes_in_flight (get_target_congestion_window (even_gain parts) s)
      then enter_increase_mode s
      else s

  unfoldable pub maybe_exit_startup_or_drain : Bbr2 Fl F → Bbr2 Fl F
  unfolding exit_startup exit_drain
  maybe_exit_startup_or_drain s = exit_drain (exit_startup s)

  -- How DECREASE begins.
  abbrev pub set_decrease : (is_congested : Bool) → (round : ℕ) → Bbr2 Fl F → Bbr2 Fl F
  set_decrease is_congested round s =
      let best = bandwidth_estimate s in
      let back_off = parts.max_of (parts.milli 500) s.dynamic_congestion_back_off in
      let target =
        parts.times (if is_congested then back_off else self_inflict_queue_backoff parts) best in
      record s {
        pacing_gain = parts.max_of (decrease_gain parts) s.dynamic_congestion_back_off;
        mode = st_decrease;
        min_rtt_record = s.min_rtt;
        exit_probe_rtt_at = 0;
        max_bw_in_increase = 0;
        sending_rate = 0;
        min_rtt_in_decrease = none;
        dynamic_congestion_back_off = parts.milli 0;
        max_bandwidth = parts.update target round (parts.reset 0 0 s.max_bandwidth);
      }

  -- The first block of `MaybeEnterOrExitDecrease`.
  unfoldable pub enter_decrease :
      (expired is_congested : Bool) → (round : ℕ) → Bbr2 Fl F → Bbr2 Fl F
  enter_decrease expired is_congested round s =
      if not (is_decrease s.mode) && (expired || is_congested)
      then set_decrease is_congested round s
      else s

  -- How DECREASE ends, with the least round trip that it has seen.
  unfoldable pub leave_decrease : (now : ℕ) → Option ℕ → Bbr2 Fl F → Bbr2 Fl F
  leave_decrease now none s =
      enter_increase_mode (record s { min_rtt = s.min_rtt_record; min_rtt_timestamp = now })
  leave_decrease now (some least) s =
      enter_increase_mode
        (record s { min_rtt = least; min_rtt_timestamp = s.min_rtt_timestamp_in_decrease })

  -- The second block.
  unfoldable pub exit_decrease : (now : ℕ) → Bbr2 Fl F → Bbr2 Fl F
  unfolding leave_decrease get_target_inflight_in_decrease
  exit_decrease now s =
      let timed = record s {
        exit_probe_rtt_at = if s.exit_probe_rtt_at == 0 then now else s.exit_probe_rtt_at;
      } in
      let excess_drained =
        leb s.flight.bytes_in_flight (get_target_inflight_in_decrease (even_gain parts) s) in
      if not (is_decrease s.mode)
      then s
      else if excess_drained
      then leave_decrease now s.min_rtt_in_decrease timed
      else timed

  -- `MaybeEnterOrExitDecrease`.
  unfoldable pub maybe_enter_or_exit_decrease :
      (now : ℕ) → (expired is_congested : Bool) → (round : ℕ) → Bbr2 Fl F → Bbr2 Fl F
  unfolding enter_decrease exit_decrease
  maybe_enter_or_exit_decrease now expired is_congested round s =
      exit_decrease now (enter_decrease expired is_congested round s)
