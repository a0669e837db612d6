-- ===== src/Bbr5/Acks.antt =====
-- ns3/mp-video/model/congestion/bbr_sender_v5.cc: acknowledgements and pacing rates.
use mp_video_simulation.Prelude.{
  ℕ, ◌+◌, ◌*◌, ◌/◌, Bool, false, List, [], ◌∷◌, ◌++◌, leb, ltb, ◌==◌, ◌&&◌, ◌||◌, if◌then◌else◌,
}
use mp_video_simulation.Bbr2.Flight
use mp_video_simulation.Bbr2.Flight.{ack_flight}
use mp_video_simulation.Bbr2.State.{Parts, high_gain, initial_congestion_window, min_rtt_expiry}
use mp_video_simulation.Bbr2.Modes.{is_increase}
use mp_video_simulation.Bbr2.Acks.{Output, trace_state, on_bandwidth_update}
use mp_video_simulation.Bbr5.State.{Bbr5}
use mp_video_simulation.Bbr5.Modes.{
  bandwidth_estimate, update_max_bw, check_if_full_bandwidth_reached, check_if_congestion,
  exit_startup, exit_drain, enter_decrease, exit_decrease, update_gain_cycle_phase,
}
use mp_video_simulation.Bbr5.Rtt.{get_min_rtt, update_rtt}

module _ {Fl F : Type 0} where
  -- `OnPacketSent`.
  unfoldable pub on_packet_sent : (now packet_number bytes : ℕ) → Bbr5 Fl F → Bbr5 Fl F
  unfolding Flight.on_packet_sent
  on_packet_sent now packet_number bytes s = record s {
    flight = Flight.on_packet_sent now packet_number bytes s.flight;
  }

  -- The end of `CalculatePacingRate`.
  unfoldable pub report_rate : (last_rate : ℕ) → Bbr5 Fl F → List Output
  report_rate last_rate s =
      if s.pacing_rate == last_rate
      then []
      else (if s.trace_state then trace_state (s.pacing_rate / 1000 * 1000) s.mode ∷ [] else [])
        ++ (if s.observer then on_bandwidth_update ∷ [] else [])

  -- `GetReferenceRate`.
  unfoldable pub get_reference_rate : Bbr5 Fl F → ℕ
  get_reference_rate s =
      if (s.pacing_rate == 0) || (s.reference_rate == 0) then s.min_bw else s.reference_rate

module _ {Fl F : Type 0} (parts : Parts Fl F) where
  -- `PaceRate`.
  unfoldable pub pace_rate : Bbr5 Fl F → ℕ
  pace_rate s = if s.pacing_rate == 0 then parts.times (high_gain parts) s.min_bw else s.pacing_rate

  abbrev pub gained_rate : Bbr5 Fl F → ℕ
  gained_rate s =
      let rate = parts.times s.pacing_gain (bandwidth_estimate parts s) in
      if rate == 0
      then parts.bandwidths.from_bytes_and_time initial_congestion_window (get_min_rtt s)
      else rate

  -- `CalculatePacingRate`.
  unfoldable pub calculate_pacing_rate : Bbr5 Fl F → Bbr5 Fl F × List Output
  unfolding report_rate
  calculate_pacing_rate s =
      let rate = gained_rate s in
      let floored = is_increase s.mode && parts.is_one s.pacing_gain && ltb rate s.min_bw in
      let rated = record s {
        reference_rate = if floored then s.min_bw else bandwidth_estimate parts s;
        pacing_rate = if floored then s.min_bw else rate;
      } in
      (rated, report_rate s.pacing_rate rated)

  -- A new round: its bandwidth, and the growth of the start.
  unfoldable pub end_round : (bw round : ℕ) → Bbr5 Fl F → Bbr5 Fl F
  unfolding update_max_bw check_if_full_bandwidth_reached
  end_round bw round s =
      let learnt = record s { max_bandwidth = parts.update bw round s.max_bandwidth } in
      let raised = if is_increase s.mode then update_max_bw parts learnt else learnt in
      if s.is_at_full_bandwidth then raised else check_if_full_bandwidth_reached parts raised

  -- `OnAck` up to the end of a round.
  unfoldable pub back_off : (draw now packet_number round : ℕ) → Bbr5 Fl F → Bbr5 Fl F
  unfolding check_if_congestion enter_decrease exit_decrease
  back_off draw now packet_number round s =
      let checked =
        if is_increase s.mode then check_if_congestion parts packet_number s else (s, false) in
      exit_decrease parts draw now (
        enter_decrease parts (ltb (s.min_rtt_timestamp + min_rtt_expiry) now) checked.1 round
          checked.0)

  -- `OnAck` from there on, until the rate.
  unfoldable pub after_sample :
      (draw now : ℕ) → (round_update : Bool) → (bw round : ℕ) → Bbr5 Fl F → Bbr5 Fl F
  unfolding end_round exit_startup exit_drain update_gain_cycle_phase
  after_sample draw now round_update bw round s =
      let ended = if round_update then end_round bw round s else s in
      let started = exit_drain parts draw now (exit_startup parts ended) in
      if is_increase started.mode then update_gain_cycle_phase parts now started else started

  -- `OnAck`. One draw is enough: a call enters INCREASE at most once.
  unfoldable pub on_ack : (draw now packet_number : ℕ) → Bbr5 Fl F → Bbr5 Fl F × List Output
  unfolding update_rtt ack_flight back_off after_sample calculate_pacing_rate
  on_ack draw now packet_number s =
      let (flight, round_update, bw) = ack_flight parts.bandwidths now packet_number s.flight in
      let round = s.flight.round_trip_count in
      let acked = record (update_rtt parts now packet_number s) { flight = flight } in
      if leb packet_number s.flight.last_ack_seq
      then (s, [])
      else calculate_pacing_rate (
          if round == 0
          then acked
          else after_sample draw now round_update bw round
              (back_off draw now packet_number round acked))
