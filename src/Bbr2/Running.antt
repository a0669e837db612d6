-- ===== src/Bbr2/Running.antt =====
-- What ns3/mp-video/model/congestion/bbr_sender_v2.cc has after an acknowledgement.
use mp_video_simulation.Prelude.{
  ℕ, ◌-◌, ◌<◌, ◌≤◌, ◌≡◌, ◌∙◌, refl, sym, subst, inl, inr, true, false, Option, none, some, leb,
  ◌==◌, ◌/◌, arith, Returns, Returns-map, if-cases,
}
use mp_video_simulation.Prelude.OrderedMap.{find}
use mp_video_simulation.Bbr2.Flight.{PerPacket, Flight, ack_flight}
use mp_video_simulation.Bbr2.Flight.Accounts.{IsFlight, ack_flight-IsFlight}
use mp_video_simulation.Bbr2.State.{Mode, Parts, Bbr2}
use mp_video_simulation.Bbr2.Modes.{
  is_increase, get_min_rtt, get_target_congestion_window, get_target_inflight_in_decrease, take_rtt,
  learn_rtt, update_rtt,
}
use mp_video_simulation.Bbr2.Acks.{
  after_sample, increase_rate, set_rate, report_rate, calculate_pacing_rate, on_ack,
}
use mp_video_simulation.Bbr2.Quiet.{IsPaced}
use mp_video_simulation.Bbr2.Settled.{IsSettled, after_sample-IsSettled}
use mp_video_simulation.Bbr2.Measured.{
  IsLong, IsMeasured, Keeps, learn_rtt-IsMeasured, after_sample-Keeps,
}

whole_ms : (n : ℕ) → 1000 ≤ n → (n / 1000 == 0) ≡ true → ⊥
whole_ms n h e = ground arith

module _ {Fl F : Type 0} (parts : Parts Fl F) where
  -- A state that an acknowledgement leaves.
  pub record IsRunning (s : Bbr2 Fl F) : Type 0 where
    pub paced : IsPaced parts s
    pub flown : IsFlight s.flight
    pub measured : IsMeasured s

  -- The rates change nothing of a state but themselves.
  pub with_rates-IsPaced :
      (sending pacing : ℕ) (s : Bbr2 Fl F)
      → IsPaced parts s
      → IsPaced parts (record s { sending_rate = sending; pacing_rate = pacing })
  with_rates-IsPaced sending pacing s p = record { high = p.high; low = p.low; even = p.even }

  with_rates-IsSettled :
      (from : Mode) (sending pacing : ℕ) (s : Bbr2 Fl F)
      → IsSettled parts from s
      → IsSettled parts from (record s { sending_rate = sending; pacing_rate = pacing })
  unfolding get_target_congestion_window get_target_inflight_in_decrease
  with_rates-IsSettled from sending pacing s v = record {
    paced = with_rates-IsPaced sending pacing s v.paced;
    reached = v.reached;
    slow = v.slow;
    draining = v.draining;
    falling = v.falling;
  }

  -- A rate is set, and nothing else, unless INCREASE has a round trip below a millisecond.
  abbrev pub SetsRate : Bbr2 Fl F → Bbr2 Fl F → Type 0
  SetsRate s t =
      (sending : ℕ) × (pacing : ℕ) × (t ≡ record s { sending_rate = sending; pacing_rate = pacing })

  get_min_rtt_long : (s : Bbr2 Fl F) → IsLong s.min_rtt → 1000 ≤ get_min_rtt parts s
  get_min_rtt_long s (inl unset) = rw unset (omega arith)
  get_min_rtt_long s (inr long) = ground arith

  set_rate-SetsRate : (s : Bbr2 Fl F) → IsLong s.min_rtt → Returns (SetsRate s) (set_rate parts s)
  unfolding set_rate increase_rate
  set_rate-SetsRate s long =
      let enough = get_min_rtt_long s long in
      if-cases {A = Option (Bbr2 Fl F)} (Returns (SetsRate s)) (is_increase s.mode) _ _
        (λ rises.
          if-cases {A = Option (Bbr2 Fl F)} (Returns (SetsRate s)) (get_min_rtt parts s / 1000 == 0)
            _ _ (λ short. absurd (whole_ms (get_min_rtt parts s) enough short)) (λ e. (_, _, refl)))
        (λ flat. (_, _, refl))

  reported :
      (P : Bbr2 Fl F → Type 0) (last : ℕ) (r : Option (Bbr2 Fl F))
      → Returns P r
      → Returns (λ (t, out). P t) (elim r [ none ↦ none | some t ↦ some (t, report_rate last t) ])
  reported P last none h = absurd h
  reported P last (some t) h = h

  pub calculate_pacing_rate-SetsRate :
      (s : Bbr2 Fl F)
      → IsLong s.min_rtt
      → Returns (λ (t, out). SetsRate s t) (calculate_pacing_rate parts s)
  unfolding calculate_pacing_rate
  calculate_pacing_rate-SetsRate s long =
      reported (SetsRate s) s.pacing_rate (set_rate parts s) (set_rate-SetsRate s long)

  -- A sample of the round trip changes neither the mode nor the gain.
  pub learn_rtt_lem :
      (now : ℕ) (packet : Option PerPacket) (s : Bbr2 Fl F)
      → ((learn_rtt parts now packet s).mode ≡ s.mode)
        × ((learn_rtt parts now packet s).pacing_gain ≡ s.pacing_gain)
  unfolding learn_rtt take_rtt
  learn_rtt_lem now none s = (refl, refl)
  learn_rtt_lem now (some p) s = (refl, refl)

  pub learnt-IsPaced :
      (now : ℕ) (packet : Option PerPacket) (f : Flight) (s : Bbr2 Fl F)
      → IsPaced parts s
      → IsPaced parts (record (learn_rtt parts now packet s) { flight = f })
  learnt-IsPaced now packet f s p =
      let same = learn_rtt_lem now packet s in
      record {
        high = λ e. same.1 ∙ p.high (sym same.0 ∙ e);
        low = λ e. same.1 ∙ p.low (sym same.0 ∙ e);
        even = λ e. same.1 ∙ p.even (sym same.0 ∙ e);
      }

  -- What is left of the state when its rates are set.
  rated :
      (from : Mode) (f : Flight) (s t : Bbr2 Fl F)
      → SetsRate s t
      → IsFlight f
      → Keeps f s
      → IsSettled parts from s
      → IsRunning t × IsSettled parts from t
  rated from f s t (sending, pacing, same) g k v = rw same (
    record {
      paced = with_rates-IsPaced sending pacing s v.paced;
      flown = rw k.0 g;
      measured = k.1;
    },
    with_rates-IsSettled from sending pacing s v,
  )

  -- A controller whose gain is that of its mode, whose packets and bytes agree with its
  -- sampler, and whose round trips have a millisecond or more, after the first round. An
  -- acknowledgement of a packet that was sent, newer than the last, and in flight for a
  -- millisecond or more if it is in flight: the call returns, the state is so again, START is
  -- not entered and DRAIN only from START; in START the full bandwidth is not reached yet, and
  -- in DRAIN and DECREASE more bytes are in flight than their target.
  pub on_ack-IsRunning :
      (now packet_number : ℕ) (s : Bbr2 Fl F)
      → IsRunning s
      → s.flight.last_ack_seq < packet_number
      → packet_number ≤ s.flight.last_sent_packet
      → 0 < s.flight.round_trip_count
      → ((p : PerPacket)
          → find packet_number s.flight.sent_packets_map ≡ some p
          → 1000 ≤ now - p.sent_ts)
      → Returns
          (λ (t, out). IsRunning t × IsSettled parts s.mode t)
          (on_ack parts now packet_number s)
  unfolding on_ack update_rtt
  on_ack-IsRunning now packet_number s v newer sent later long =
      let fresh : leb packet_number s.flight.last_ack_seq ≡ false = ground arith in
      let counting : (s.flight.round_trip_count == 0) ≡ false = ground arith in
      let f = (ack_flight parts.bandwidths now packet_number s.flight).0 in
      let r = (ack_flight parts.bandwidths now packet_number s.flight).1 in
      let bw = (ack_flight parts.bandwidths now packet_number s.flight).2 in
      let packet = find packet_number s.flight.sent_packets_map in
      let learnt = learn_rtt parts now packet s in
      let acked = record learnt { flight = f } in
      let round = s.flight.round_trip_count in
      let after = after_sample parts now r bw round acked in
      let same = learn_rtt_lem now packet s in
      let paced = learnt-IsPaced now packet f s v.paced in
      let kept =
        after_sample-Keeps parts f now r bw round acked
          (refl, learn_rtt-IsMeasured parts now packet s long v.measured) in
      let settled = after_sample-IsSettled parts now r bw round acked paced in
      let flown =
        ack_flight-IsFlight parts.bandwidths now packet_number s.flight v.flown newer sent in
      rw (fresh, counting)
        (Returns-map _ _ (calculate_pacing_rate parts after)
          (λ (t, out) e.
            rated s.mode f after t e flown kept
              (subst (λ m. IsSettled parts m after) same.0 settled))
          (calculate_pacing_rate-SetsRate after kept.1.least))
