-- ===== src/Bbr/Estimates.antt =====
-- ns3/mp-video/model/congestion/bbr_sender_v1.cc: what the reports of the clusters change.
use mp_video_simulation.Prelude.{
  ℕ, ◌*◌, ◌/◌, Bool, true, false, Option, none, some, List, [], ◌∷◌, ◌++◌, leb, ltb, ◌==◌, not,
  ◌&&◌, ◌||◌, min, if◌then◌else◌, sub64,
}
use mp_video_simulation.Prelude.OrderedMap.{find, erase}
use mp_video_simulation.Bbr.State.{
  start_up, probe_ab, probe_bw, probe_rtt, insisit_phase, Parts, Estimate, Clusters, Bbr,
}
use mp_video_simulation.Bbr.Modes.{cycles, enter_probe_bandwidth_mode, enter_insist_stable_mode}
use mp_video_simulation.Bbr.Rates.{add_seq_and_timestamp, calculate_pacing_rate}
use mp_video_simulation.Bbr.Clusters.{add_packet_info_sampler}

-- kBackoffEffectiveWindow and kAverageAckRateWindowSize.
abbrev pub backoff_effective_window : ℕ
backoff_effective_window = 5

abbrev pub average_ack_rate_window_size : ℕ
average_ack_rate_window_size = 10

module _ {F C : Type 0} (parts : Parts F) where
  -- The block of `OnEstimateBandwidth` for PROBE_BW.
  unfoldable pub estimate_probe_bw : Estimate → (bw : ℕ) → Bbr F C → Bbr F C
  estimate_probe_bw e bw s =
      let filter = parts.update bw e.cluster_id s.max_bandwidth in
      let reduced = parts.eight_tenths (parts.get_best filter) in
      if e.sent_bw == parts.infinite
      then s
      else if leb e.acked_bw (parts.nine_tenths e.sent_bw)
      then record s {
        stable_rate = reduced;
        ai_factor = 0;
        max_bandwidth = parts.update reduced e.cluster_id (parts.reset 0 0 filter);
        max_rate_record = reduced;
        change_state_probe_bw_insist = true;
      }
      else record s { max_bandwidth = filter }

  -- That for PROBE_AB.
  unfoldable pub estimate_probe_ab : Estimate → (bw : ℕ) → Bbr F C → Bbr F C
  estimate_probe_ab e bw s =
      let current_bw = parts.get_best s.max_bandwidth in
      let slows =
        e.is_probe && not (current_bw == 0) && leb bw (parts.exit_fast_probe current_bw) in
      record s {
        change_state_probe_ab_bw = slows || s.change_state_probe_ab_bw;
        max_bandwidth = parts.update bw e.cluster_id s.max_bandwidth;
      }

  -- That for INSISIT_PHASE.
  unfoldable pub estimate_insist : Estimate → (bw : ℕ) → Bbr F C → Bbr F C
  estimate_insist e bw s =
      let filter = parts.update bw e.cluster_id s.max_bandwidth in
      let target =
        parts.loss_back_off (e.acked_bw / 1000 * 1000) (e.sent_bw / 1000 * 1000)
          (parts.get_best s.max_bandwidth) in
      let backed = parts.update target e.cluster_id (parts.reset 0 0 filter) in
      let since = sub64 e.cluster_id s.back_off_id in
      let congested = leb e.acked_bw (parts.nine_tenths e.sent_bw) in
      if congested && leb backoff_effective_window since
      then record s {
        max_bandwidth = backed;
        back_off_id = e.cluster_id;
        stable_rate = parts.get_best backed;
      }
      else if congested || leb since backoff_effective_window
      then record s { max_bandwidth = filter }
      else record s { max_bandwidth = filter; stable_rate = e.acked_bw }

  -- `OnEstimateBandwidth`.
  unfoldable pub on_estimate_bandwidth : Estimate → Bbr F C → Bbr F C
  unfolding estimate_probe_bw estimate_probe_ab estimate_insist
  on_estimate_bandwidth e s =
      let bw = min e.sent_bw e.acked_bw in
      let noted = record s {
        acked_clusters = s.acked_clusters ++ e.cluster ∷ [];
        max_rate_record = if ltb s.max_rate_record bw then bw else s.max_rate_record;
      } in
      let estimated : Bbr F C = elim s.mode [
        | start_up ↦ noted
        | probe_ab ↦ estimate_probe_ab e bw noted
        | probe_bw ↦ estimate_probe_bw e bw noted
        | probe_rtt ↦ noted
        | insisit_phase ↦ estimate_insist e bw noted
      ] in
      record estimated { is_recover_effective = false }

  abbrev pub on_estimates : List Estimate → Bbr F C → Bbr F C
  on_estimates [] s = s
  on_estimates (e ∷ es) s = on_estimates es (on_estimate_bandwidth e s)

module _ {F C : Type 0} where
  -- The changes of the mode that the reports have asked for.
  unfoldable pub change_mode : (random now : ℕ) → Bbr F C → Bbr F C
  unfolding enter_probe_bandwidth_mode enter_insist_stable_mode
  change_mode random now s =
      let probing =
        if s.change_state_probe_ab_bw
        then record (enter_probe_bandwidth_mode random now s) { change_state_probe_ab_bw = false }
        else s in
      if probing.change_state_probe_bw_insist then enter_insist_stable_mode now probing else probing

module _ {F C : Type 0} (ops : Clusters C) (parts : Parts F) where
  -- The packet's cluster hears of the acknowledgement.
  unfoldable pub tell_cluster : (now packet_number : ℕ) → Bbr F C → Bbr F C
  unfolding on_estimate_bandwidth erase
  tell_cluster now packet_number s = elim (find packet_number s.seq_round_map) [
    | none ↦ s
    | some round ↦
        let forgotten = record s { seq_round_map = erase packet_number s.seq_round_map } in
        let (table, estimates) = ops.on_ack round packet_number now s.connection_info in
        elim (find round s.connection_info) [
          | none ↦ forgotten
          | some c ↦ on_estimates parts estimates (record forgotten { connection_info = table })
        ]
  ]

  -- `OnPacketSent`, and whether the observer is told; `none` is a failed assertion.
  unfoldable pub on_packet_sent : (now packet_number bytes : ℕ) → Bbr F C → Option (Bbr F C × Bool)
  unfolding add_seq_and_timestamp calculate_pacing_rate cycles add_packet_info_sampler
  on_packet_sent now packet_number bytes s =
      elim (calculate_pacing_rate parts (add_seq_and_timestamp now packet_number s)) [
        | none ↦ none
        | some (s', told) ↦ some (
          if cycles s'.mode then add_packet_info_sampler ops now packet_number bytes s' else s',
          told,
        )
      ]
