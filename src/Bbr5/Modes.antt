-- ===== src/Bbr5/Modes.antt =====
-- ns3/mp-video/model/congestion/bbr_sender_v5.cc: congestion, the modes and their gains.
use mp_video_simulation.Prelude.{
  ℕ, ◌+◌, ◌-◌, ◌*◌, ◌%◌, Bool, false, Option, none, some, leb, ltb, ◌==◌, not, ◌||◌, ◌&&◌,
  if◌then◌else◌, add64,
}
use mp_video_simulation.Bbr2.State.{
  st_drain, st_increase, st_decrease, Parts, drain_gain, even_gain, startup_growth_target,
  num_startup_rtts,
}
use mp_video_simulation.Bbr2.Modes.{is_start, is_drain, is_increase, is_decrease, window}
use mp_video_simulation.Bbr5.State.{Bbr5, gain_cycle_length, tolerable_delay_factor}
use mp_video_simulation.Bbr5.Rtt.{get_min_rtt}

module _ {Fl F : Type 0} where
  -- The least round trip that an expired minimum is replaced by.
  unfoldable pub renew_min_rtt : (now : ℕ) → Option ℕ → Bbr5 Fl F → Bbr5 Fl F
  renew_min_rtt now none s = record s {
    min_rtt = s.min_rtt_record;
    min_rtt_timestamp = now;
    min_rtt_expired = false;
  }
  renew_min_rtt now (some least) s = record s {
    min_rtt = least;
    min_rtt_timestamp = s.min_rtt_timestamp_in_decrease;
    min_rtt_expired = false;
  }

  -- DECREASE is over: its time for an expired minimum, or the bytes that it drains.
  abbrev pub is_over : (now : ℕ) → Bbr5 Fl F → Bool
  is_over now s =
      (s.min_rtt_expired && ltb (s.exit_probe_rtt_at + 4 * s.min_rtt_record) now)
      || leb s.flight.bytes_in_flight s.bdp

module _ {Fl F : Type 0} (parts : Parts Fl F) where
  -- kPacingGain, within the cycle.
  unfoldable pub pacing_gain_at : ℕ → Fl
  pacing_gain_at i =
      if i == 0 then parts.milli 1110 else if i == 1 then parts.milli 900 else even_gain parts

  abbrev pub bandwidth_estimate : Bbr5 Fl F → ℕ
  bandwidth_estimate s = parts.get_best s.max_bandwidth

  -- `GetTargetCongestionWindow`, for the gain 1.
  unfoldable pub get_target_congestion_window : Bbr5 Fl F → ℕ
  get_target_congestion_window s =
      window parts (even_gain parts) (parts.bdp (get_min_rtt s) (bandwidth_estimate s))

  -- `UpdateMaxBw`.
  unfoldable pub update_max_bw : Bbr5 Fl F → Bbr5 Fl F
  update_max_bw s =
      let bw = bandwidth_estimate s in
      record s {
        max_bw_in_increase = if ltb s.max_bw_in_increase bw then bw else s.max_bw_in_increase;
      }

  -- `CheckIfFullBandwidthReached`.
  unfoldable pub check_if_full_bandwidth_reached : Bbr5 Fl F → Bbr5 Fl F
  check_if_full_bandwidth_reached s =
      let best = bandwidth_estimate s in
      let rounds = add64 s.rounds_without_bandwidth_gain 1 in
      if leb (parts.times (startup_growth_target parts) s.bandwidth_at_last_round) best
      then record s { bandwidth_at_last_round = best; rounds_without_bandwidth_gain = 0 }
      else record s {
        rounds_without_bandwidth_gain = rounds;
        is_at_full_bandwidth = leb num_startup_rtts rounds || s.is_at_full_bandwidth;
      }

  -- `CheckIfCongestion`, whose only reason is the delay.
  unfoldable pub check_if_congestion : (packet_number : ℕ) → Bbr5 Fl F → Bbr5 Fl F × Bool
  check_if_congestion packet_number s =
      let next = add64 s.congestion_recv_seq 1 in
      let cuts = ltb next packet_number && ltb s.congestion_recv_cut_seq packet_number in
      let delayed : Bool = elim s.base_line_rtt [
        | none ↦ false
        | some least ↦ ltb (parts.times_delta (tolerable_delay_factor parts) least) s.s_rtt
      ] in
      (
        record s {
          congestion_recv_cut_seq =
              if cuts then s.flight.last_sent_packet else s.congestion_recv_cut_seq;
          congestion_recv_seq =
              if leb next packet_number then packet_number else s.congestion_recv_seq;
        },
        delayed && is_increase s.mode,
      )

  -- `EnterIncreaseMode`, with the answer of RandUint64.
  abbrev pub enter_increase_mode : (draw now : ℕ) → Bbr5 Fl F → Bbr5 Fl F
  enter_increase_mode draw now s =
      let drawn = draw % (gain_cycle_length - 1) in
      let offset = if leb 1 drawn then drawn + 1 else drawn in
      record s {
        mode = st_increase;
        cycle_current_offset = offset;
        last_cycle_start = now;
        pacing_gain = pacing_gain_at offset;
      }

  -- The two blocks of `MaybeExitStartupOrDrain`.
  unfoldable pub exit_startup : Bbr5 Fl F → Bbr5 Fl F
  exit_startup s =
      if is_start s.mode && s.is_at_full_bandwidth
      then record s { mode = st_drain; pacing_gain = drain_gain parts }
      else s

  unfoldable pub exit_drain : (draw now : ℕ) → Bbr5 Fl F → Bbr5 Fl F
  unfolding get_target_congestion_window pacing_gain_at
  exit_drain draw now s =
      if is_drain s.mode && leb s.flight.bytes_in_flight (get_target_congestion_window s)
      then enter_increase_mode draw now s
      else s

  -- The first block of `MaybeEnterOrExitDecrease`.
  abbrev pub set_decrease : (expired : Bool) → (round : ℕ) → Bbr5 Fl F → Bbr5 Fl F
  set_decrease expired round s = record s {
    seq_at_backoff = s.flight.last_sent_packet;
    s_rtt = 0;
    base_line_rtt = none;
    mode = st_decrease;
    min_rtt_record = s.min_rtt;
    exit_probe_rtt_at = 0;
    max_bw_in_increase = 0;
    min_rtt_in_decrease = none;
    pacing_gain = parts.milli 750;
    bdp = get_target_congestion_window s;
    min_rtt_expired = expired;
    last_backoff_count = round;
  }

  unfoldable pub enter_decrease : (expired congested : Bool) → (round : ℕ) → Bbr5 Fl F → Bbr5 Fl F
  unfolding get_target_congestion_window
  enter_decrease expired congested round s =
      if not (is_decrease s.mode) && (expired || congested) then set_decrease expired round s else s

  unfoldable pub leave_decrease : (draw now : ℕ) → Bbr5 Fl F → Bbr5 Fl F
  unfolding renew_min_rtt pacing_gain_at
  leave_decrease draw now s =
      let renewed = if s.min_rtt_expired then renew_min_rtt now s.min_rtt_in_decrease s else s in
      enter_increase_mode draw now (record renewed { congestion_backoff_flag = false })

  -- The second block.
  unfoldable pub exit_decrease : (draw now : ℕ) → Bbr5 Fl F → Bbr5 Fl F
  unfolding leave_decrease
  exit_decrease draw now s =
      let timed = record s {
        exit_probe_rtt_at = if s.exit_probe_rtt_at == 0 then now else s.exit_probe_rtt_at;
      } in
      if not (is_decrease s.mode)
      then s
      else if is_over now timed
      then leave_decrease draw now timed
      else timed

  -- `UpdateGainCyclePhase`.
  unfoldable pub update_gain_cycle_phase : (now : ℕ) → Bbr5 Fl F → Bbr5 Fl F
  unfolding pacing_gain_at
  update_gain_cycle_phase now s =
      let offset = (s.cycle_current_offset + 1) % gain_cycle_length in
      if ltb (s.last_cycle_start + get_min_rtt s) now
      then record s {
        cycle_current_offset = offset;
        last_cycle_start = now;
        pacing_gain = pacing_gain_at offset;
      }
      else s
