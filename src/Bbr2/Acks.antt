-- ===== src/Bbr2/Acks.antt =====
-- ns3/mp-video/model/congestion/bbr_sender_v2.cc: acknowledgements and pacing rates.
use mp_video_simulation.Prelude.{
  ℕ, ◌+◌, ◌*◌, ◌/◌, Bool, false, Option, none, some, List, [], ◌∷◌, ◌++◌, leb, ltb, ◌==◌, ◌&&◌,
  if◌then◌else◌,
}
use mp_video_simulation.Bbr2.Flight
use mp_video_simulation.Bbr2.Flight.{Flight, ack_flight}
use mp_video_simulation.Bbr2.State.{
  Mode, Parts, Bbr2, high_gain, initial_congestion_window, min_rtt_expiry, packet_increase_size,
}
use mp_video_simulation.Bbr2.Modes.{
  is_increase, bandwidth_estimate, get_min_rtt, update_rtt, update_max_bw,
  check_if_full_bandwidth_reached, check_if_congestion, maybe_exit_startup_or_drain,
  maybe_enter_or_exit_decrease,
}

pub data Output : Type 0 where
  -- The trace, whose name of the mode is the mode here.
  trace_state : (bps : ℕ) → Mode → Output
  on_bandwidth_update : Output

module _ {Fl F : Type 0} where
  -- `OnPacketSent`.
  unfoldable pub on_packet_sent : (now packet_number bytes : ℕ) → Bbr2 Fl F → Bbr2 Fl F
  unfolding Flight.on_packet_sent
  on_packet_sent now packet_number bytes s = record s {
    flight = Flight.on_packet_sent now packet_number bytes s.flight;
  }

  -- The end of `CalculatePacingRate`.
  unfoldable pub report_rate : (last_rate : ℕ) → Bbr2 Fl F → List Output
  report_rate last_rate s =
      if s.pacing_rate == last_rate
      then []
      else (if s.trace_state then trace_state (s.pacing_rate / 1000 * 1000) s.mode ∷ [] else [])
        ++ (if s.observer then on_bandwidth_update ∷ [] else [])

module _ {Fl F : Type 0} (parts : Parts Fl F) where
  -- `PaceRate` and `GetReferenceRate`.
  unfoldable pub pace_rate : Bbr2 Fl F → ℕ
  pace_rate s = if s.pacing_rate == 0 then parts.times (high_gain parts) s.min_bw else s.pacing_rate

  unfoldable pub get_reference_rate : Bbr2 Fl F → ℕ
  get_reference_rate s = if s.pacing_rate == 0 then s.min_bw else s.pacing_rate

  abbrev pub gained_rate : Bbr2 Fl F → ℕ
  gained_rate s =
      let rate = parts.times s.pacing_gain (bandwidth_estimate parts s) in
      if rate == 0
      then parts.bandwidths.from_bytes_and_time initial_congestion_window (get_min_rtt parts s)
      else rate

  -- INCREASE adds a packet per round trip; `none` is the division by a round trip of 0 milliseconds.
  unfoldable pub increase_rate : (rate : ℕ) → Bbr2 Fl F → Option (Bbr2 Fl F)
  increase_rate rate s =
      let rtt = get_min_rtt parts s / 1000 in
      let base_bps = rate / 1000 * 1000 in
      if rtt == 0
      then none
      else some (record s {
        sending_rate = base_bps;
        pacing_rate = base_bps + packet_increase_size * 1000 * 8 / rtt;
      })

  unfoldable pub set_rate : Bbr2 Fl F → Option (Bbr2 Fl F)
  unfolding increase_rate
  set_rate s =
      if is_increase s.mode
      then increase_rate (gained_rate s) s
      else some (record s { pacing_rate = gained_rate s })

  -- `CalculatePacingRate`.
  unfoldable pub calculate_pacing_rate : Bbr2 Fl F → Option (Bbr2 Fl F × List Output)
  unfolding set_rate report_rate
  calculate_pacing_rate s = elim (set_rate s) [
    | none ↦ none
    | some s' ↦ some (s', report_rate s.pacing_rate s')
  ]

  -- A new round: its bandwidth, and the growth of the start.
  unfoldable pub end_round : (bw round : ℕ) → Bbr2 Fl F → Bbr2 Fl F
  unfolding update_max_bw check_if_full_bandwidth_reached
  end_round bw round s =
      let learnt = record s { max_bandwidth = parts.update bw round s.max_bandwidth } in
      let raised = if is_increase s.mode then update_max_bw parts learnt else learnt in
      if s.is_at_full_bandwidth then raised else check_if_full_bandwidth_reached parts raised

  -- `OnAck` from the end of a round on, until the rate.
  unfoldable pub after_sample :
      (now : ℕ) → (round_update : Bool) → (bw round : ℕ) → Bbr2 Fl F → Bbr2 Fl F
  unfolding end_round maybe_exit_startup_or_drain check_if_congestion maybe_enter_or_exit_decrease
  after_sample now round_update bw round s =
      let ended = if round_update then end_round bw round s else s in
      let started = maybe_exit_startup_or_drain parts ended in
      let checked =
        if is_increase started.mode && round_update
        then check_if_congestion parts bw round started
        else (started, false) in
      maybe_enter_or_exit_decrease parts now (ltb (started.min_rtt_timestamp + min_rtt_expiry) now)
        checked.1 round checked.0

  -- `OnAck`.
  unfoldable pub on_ack : (now packet_number : ℕ) → Bbr2 Fl F → Option (Bbr2 Fl F × List Output)
  unfolding update_rtt ack_flight after_sample calculate_pacing_rate
  on_ack now packet_number s =
      let (flight, round_update, bw) = ack_flight parts.bandwidths now packet_number s.flight in
      let round = s.flight.round_trip_count in
      let acked = record (update_rtt parts now packet_number s) { flight = flight } in
      if leb packet_number s.flight.last_ack_seq
      then some (s, [])
      else calculate_pacing_rate
          (if round == 0 then acked else after_sample now round_update bw round acked)
