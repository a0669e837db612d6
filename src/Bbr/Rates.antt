-- ===== src/Bbr/Rates.antt =====
-- ns3/mp-video/model/congestion/bbr_sender_v1.cc: round trips, acknowledgements and pacing rates.
use mp_video_simulation.Prelude.{
  ℕ, ◌+◌, ◌-◌, ◌*◌, ◌/◌, Bool, Option, none, some, leb, ltb, ◌==◌, not, ◌||◌, ◌&&◌, if◌then◌else◌,
}
use mp_video_simulation.Prelude.OrderedMap
use mp_video_simulation.Prelude.OrderedMap.{find}
use mp_video_simulation.V1.PathSender.Acks.{remove_le}
use mp_video_simulation.Bbr.State.{
  start_up, probe_ab, probe_bw, probe_rtt, insisit_phase, Parts, Bbr,
}
use mp_video_simulation.Bbr.Modes.{
  cycles, min_rtt_expiry, enter_fast_probe_mode, update_gain_cycle_phase,
  maybe_enter_or_exit_probe_rtt,
}

abbrev pub stable_band_width_increase : ℕ
stable_band_width_increase = 5000

-- The rates to send at and to pace with, and the target.
pub record RatePlan : Type 0 where
  pub sending : ℕ
  pub pacing : ℕ
  pub target : ℕ

module _ {F C : Type 0} where
  -- `AddSeqAndTimestamp`.
  unfoldable pub add_seq_and_timestamp : (now packet_number : ℕ) → Bbr F C → Bbr F C
  add_seq_and_timestamp now packet_number s = record s {
    seq_ts_map = OrderedMap.insert packet_number now s.seq_ts_map;
  }

  -- The first branch of `OnAck`, on the mode after `UpdateRtt`.
  abbrev pub start_probing : (now : ℕ) → Bbr F C → Bbr F C
  start_probing now s = elim s.mode [
    | start_up ↦ enter_fast_probe_mode now s
    | probe_ab ↦ s
    | probe_bw ↦ s
    | probe_rtt ↦ s
    | insisit_phase ↦ s
  ]

  abbrev pub turn_cycle : (now : ℕ) → Bbr F C → Bbr F C
  turn_cycle now s = if cycles s.mode then update_gain_cycle_phase now s else s

module _ {F C : Type 0} (parts : Parts F) where
  -- A sample of the round trip. The clock does not run backwards, so that it is a ℕ.
  unfoldable pub take_rtt : (now rtt : ℕ) → Bbr F C → Bbr F C
  take_rtt now rtt s =
      let global =
        if (s.global_min_rtt == 0) || ltb rtt s.global_min_rtt then rtt else s.global_min_rtt in
      let noted = record s { global_min_rtt = global } in
      if (s.min_rtt == 0) || ltb rtt s.min_rtt
      then record noted { min_rtt = rtt; min_rtt_timestamp = now }
      else if ltb s.min_rtt rtt && leb rtt (parts.similar s.min_rtt)
      then record noted { min_rtt_timestamp = now }
      else noted

  -- `UpdateRtt`, with the time at which the packet was sent, if it is known.
  unfoldable pub learn_rtt : (now : ℕ) → Option ℕ → Bbr F C → Bbr F C
  unfolding take_rtt
  learn_rtt now none s = s
  learn_rtt now (some sent) s = take_rtt now (now - sent) s

  unfoldable pub update_rtt : (now packet_number : ℕ) → Bbr F C → Bbr F C
  unfolding learn_rtt remove_le
  update_rtt now packet_number s =
      let learnt = learn_rtt now (find packet_number s.seq_ts_map) s in
      record learnt { seq_ts_map = remove_le packet_number s.seq_ts_map }

  -- The test of the expiry, and `MaybeEnterOrExitProbeRtt`.
  abbrev pub check_min_rtt : (random now : ℕ) → Bbr F C → Bbr F C
  check_min_rtt random now s =
      maybe_enter_or_exit_probe_rtt parts random now
        (ltb (s.min_rtt_timestamp + min_rtt_expiry) now) s

  -- The beginning of `OnAck`, up to the clusters; `none` is its early return.
  unfoldable pub begin_ack : (random now packet_number : ℕ) → Bbr F C → Option (Bbr F C)
  unfolding update_rtt enter_fast_probe_mode update_gain_cycle_phase cycles
      maybe_enter_or_exit_probe_rtt
  begin_ack random now packet_number s =
      let updated = update_rtt now packet_number (record s { last_ack_seq = packet_number }) in
      if leb packet_number s.last_ack_seq
      then none
      else some (check_min_rtt random now (turn_cycle now (start_probing now updated)))

  -- The branches of `CalculatePacingRate`; `none` is the failed assertion.
  unfoldable pub plan_rates : Bbr F C → Option RatePlan
  plan_rates s =
      let bw = parts.get_best s.max_bandwidth in
      let estimate = if bw == 0 then s.min_bps else bw in
      let wanted = if s.is_recover_effective then s.recover_rate else estimate in
      let floored = if ltb wanted s.min_bps then s.min_bps else wanted in
      let drained = if s.is_recover_effective then s.recover_rate else s.min_bps in
      let raised = s.stable_rate / 1000 * 1000 + stable_band_width_increase in
      elim s.mode [
        | start_up ↦ some (record { sending = s.min_bps; pacing = s.min_bps; target = 0 })
        | probe_ab ↦ some (record {
          sending = estimate;
          pacing = parts.times s.pacing_gain estimate;
          target = estimate;
        })
        | probe_bw ↦ some (record {
          sending = floored;
          pacing = parts.times s.pacing_gain floored;
          target = floored;
        })
        | probe_rtt ↦ some (record { sending = drained; pacing = drained; target = 0 })
        | insisit_phase ↦
            if s.stable_rate == 0
            then none
            else some (record {
              sending = raised;
              pacing = parts.times s.pacing_gain raised;
              target = raised;
            })
      ]

  -- `CalculatePacingRate`, and whether the observer is told.
  unfoldable pub calculate_pacing_rate : Bbr F C → Option (Bbr F C × Bool)
  unfolding plan_rates
  calculate_pacing_rate s = elim (plan_rates s) [
    | none ↦ none
    | some plan ↦ some (
      record s {
        sending_rate = plan.sending;
        pacing_rate = plan.pacing;
        last_target_rate = plan.target;
      },
      not (s.last_target_rate == 0) && not (s.last_target_rate == plan.target) && s.observer,
    )
  ]
