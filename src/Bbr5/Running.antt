-- ===== src/Bbr5/Running.antt =====
-- `OnAck` of ns3/mp-video/model/congestion/bbr_sender_v5.cc as a whole.
use mp_video_simulation.Prelude.{
  ℕ, ◌-◌, ◌<◌, ◌≡◌, refl, subst, false, Option, none, some, leb, ltb, ◌==◌, ◌&&◌, arith, if-cases,
}
use mp_video_simulation.Prelude.OrderedMap.{find}
use mp_video_simulation.Bbr2.Flight.{PerPacket, Flight, ack_flight}
use mp_video_simulation.Bbr2.State.{Mode, Parts}
use mp_video_simulation.Bbr2.Modes.{is_increase}
use mp_video_simulation.Bbr5.State.{Bbr5}
use mp_video_simulation.Bbr5.Modes.{get_target_congestion_window}
use mp_video_simulation.Bbr5.Rtt.{take_rtt, track_rtt, learn_rtt, update_rtt}
use mp_video_simulation.Bbr5.Acks.{back_off, after_sample, calculate_pacing_rate, on_ack}
use mp_video_simulation.Bbr5.Backoff.{IsPaced, back_off-Falls}
use mp_video_simulation.Bbr5.Settled.{
  IsSettled, after_sample-IsSettled, Cycles, after_sample-Cycles,
}

module _ {Fl F : Type 0} (parts : Parts Fl F) where
  -- A round trip changes neither the mode nor the gain.
  abbrev pub Keeps : Bbr5 Fl F → Bbr5 Fl F → Type 0
  Keeps s t = (t.mode ≡ s.mode) × (IsPaced parts s → IsPaced parts t)

  track_rtt-Keeps :
      (now packet_number rtt : ℕ) (s : Bbr5 Fl F) → Keeps s (track_rtt now packet_number rtt s)
  unfolding track_rtt
  track_rtt-Keeps now packet_number rtt s =
      if-cases {A = Bbr5 Fl F} (λ t. Keeps s t)
        (is_increase s.mode && ltb s.seq_at_backoff packet_number) _ _ (λ e. (refl, λ p. p))
        (λ e. (refl, λ p. p))

  pub learn_rtt-Keeps :
      (now packet_number : ℕ) (found : Option PerPacket) (s : Bbr5 Fl F)
      → Keeps s (learn_rtt parts now packet_number found s)
  unfolding learn_rtt take_rtt
  learn_rtt-Keeps now packet_number none s = (refl, λ p. p)
  learn_rtt-Keeps now packet_number (some packet) s =
      let rtt = now - packet.sent_ts in
      track_rtt-Keeps now packet_number rtt (take_rtt parts now rtt s)

  -- What an acknowledgement leaves.
  abbrev pub IsAcked : (from : Mode) → (f : Flight) → (now : ℕ) → Bbr5 Fl F → Type 0
  IsAcked from f now t = IsSettled parts from f now t × Cycles parts now t

  -- The rates are not looked at.
  rates-IsAcked :
      (from : Mode) (f : Flight) (now : ℕ) (s : Bbr5 Fl F)
      → IsAcked from f now s
      → IsAcked from f now (calculate_pacing_rate parts s).0
  unfolding calculate_pacing_rate get_target_congestion_window
  rates-IsAcked from f now s (v, cycles) = (
    record {
      paced = v.paced;
      reached = v.reached;
      flown = v.flown;
      slow = v.slow;
      draining = v.draining;
      falling = v.falling;
    },
    cycles,
  )

  -- When the gain is that of the mode and the first round is over, a new acknowledgement leaves
  -- the packets in flight as the code that follows them computes, and the gain that of the new
  -- mode, which the old one leads to. A controller that is then in START has not seen the full
  -- bandwidth; in DRAIN more than the target is in flight; in INCREASE the time of the gain, a
  -- minimum round trip, is not over; in DECREASE more is in flight than it drains to, and if
  -- the minimum round trip had expired, the time of four recorded round trips is not over.
  pub on_ack-IsSettled :
      (draw now packet_number : ℕ) (s : Bbr5 Fl F)
      → IsPaced parts s
      → s.flight.last_ack_seq < packet_number
      → 0 < s.flight.round_trip_count
      → IsAcked s.mode
          (ack_flight parts.bandwidths now packet_number s.flight).0
          now
          (on_ack parts draw now packet_number s).0
  unfolding on_ack update_rtt
  on_ack-IsSettled draw now packet_number s p new past =
      let old : leb packet_number s.flight.last_ack_seq ≡ false = ground arith in
      let later : (s.flight.round_trip_count == 0) ≡ false = ground arith in
      let sampled = ack_flight parts.bandwidths now packet_number s.flight in
      let round = s.flight.round_trip_count in
      let found = find packet_number s.flight.sent_packets_map in
      let learnt = learn_rtt parts now packet_number found s in
      let keeps = learn_rtt-Keeps now packet_number found s in
      let acked = record learnt { flight = sampled.0 } in
      let backed = back_off parts draw now packet_number round acked in
      let falls = back_off-Falls parts draw now packet_number round acked (keeps.1 p) in
      let after = after_sample parts draw now sampled.1 sampled.2 round backed in
      let settled : IsSettled parts acked.mode sampled.0 now after =
        after_sample-IsSettled parts acked.mode sampled.0 draw now sampled.1 sampled.2 round backed
          falls in
      let cycles : Cycles parts now after =
        after_sample-Cycles parts draw now sampled.1 sampled.2 round backed in
      let final : IsAcked s.mode sampled.0 now (calculate_pacing_rate parts after).0 =
        rates-IsAcked s.mode sampled.0 now after
          (subst (λ m. IsSettled parts m sampled.0 now after) keeps.0 settled, cycles) in
      rw (old, later) final
