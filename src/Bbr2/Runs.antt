-- ===== src/Bbr2/Runs.antt =====
-- A sender of ns3/mp-video/model/congestion/bbr_sender_v2.cc over a run of events.
use mp_video_simulation.Prelude.{
  ℕ, ◌-◌, ◌<◌, ◌≤◌, ◌≡◌, refl, Bool, true, false, Option, some, List, [], leb, ◌==◌, arith,
  Bool-cases, inl, inr, Returns, Returns-map,
}
use mp_video_simulation.Prelude.OrderedMap.{find}
use mp_video_simulation.Prelude.Calls.{Ensures, Returns-Ensures}
use mp_video_simulation.Prelude.Runs.{run, AreAllowed, run-Ensures}
use mp_video_simulation.Bbr2.Flight
use mp_video_simulation.Bbr2.Flight.{PerPacket, Flight, ack_flight}
use mp_video_simulation.Bbr2.Flight.Accounts.{
  IsFlight, init-IsFlight, on_packet_sent-IsFlight, ack_flight-IsFlight,
}
use mp_video_simulation.Bbr2.State.{Parts, Bbr2, init}
use mp_video_simulation.Bbr2.Modes.{learn_rtt, update_rtt}
use mp_video_simulation.Bbr2.Acks.{Output, on_packet_sent, calculate_pacing_rate, on_ack}
use mp_video_simulation.Bbr2.Events.{Event, sent_event, ack_event, IsAllowed}
use mp_video_simulation.Bbr2.Reach.{Reaches, Reaches-same, Reaches-trans}
use mp_video_simulation.Bbr2.Measured.{learn_rtt-IsMeasured}
use mp_video_simulation.Bbr2.Running.{
  IsRunning, SetsRate, with_rates-IsPaced, calculate_pacing_rate-SetsRate, learn_rtt_lem,
  learnt-IsPaced, on_ack-IsRunning,
}

-- A packet in flight is acknowledged a millisecond or more after it was sent.
abbrev pub IsLate : Event → Flight → Type 0
IsLate (sent_event now packet_number bytes) f = Unit
IsLate (ack_event draw now packet_number) f =
    (p : PerPacket) → find packet_number f.sent_packets_map ≡ some p → 1000 ≤ now - p.sent_ts

module _ {Fl F : Type 0} (parts : Parts Fl F) where
  unfoldable pub handle : Event → Bbr2 Fl F → Option (Bbr2 Fl F × List Output)
  unfolding on_packet_sent on_ack
  handle (sent_event now packet_number bytes) s =
      some (on_packet_sent now packet_number bytes s, [])
  handle (ack_event draw now packet_number) s = on_ack parts now packet_number s

  abbrev pub IsTimely : Event → Bbr2 Fl F → Type 0
  IsTimely e s = IsAllowed e s.flight × IsLate e s.flight

  sent-IsRunning :
      (now packet_number bytes : ℕ) (s : Bbr2 Fl F)
      → IsRunning parts s
      → IsAllowed (sent_event now packet_number bytes) s.flight
      → IsRunning parts (on_packet_sent now packet_number bytes s)
  unfolding on_packet_sent Flight.on_packet_sent
  sent-IsRunning now packet_number bytes s v room =
      let f = Flight.on_packet_sent now packet_number bytes s.flight in
      let flown : IsFlight f = elim (Bool-cases (leb packet_number s.flight.last_sent_packet)) [
        | inl old ↦ rw old v.flown
        | inr new ↦
            on_packet_sent-IsFlight now packet_number bytes s.flight v.flown (ground (arith, new))
              room
      ] in
      record {
        paced = record { high = v.paced.high; low = v.paced.low; even = v.paced.even };
        flown = flown;
        measured = v.measured;
      }

  -- What an acknowledgement returns.
  abbrev pub Arrives : Bbr2 Fl F → Bbr2 Fl F → Type 0
  Arrives s t = IsRunning parts t × Reaches s.mode t.mode

  -- The rates of a state that runs.
  rated-IsRunning :
      (s t : Bbr2 Fl F)
      → SetsRate parts s t
      → IsRunning parts s
      → IsRunning parts t × (t.mode ≡ s.mode)
  rated-IsRunning s t (sending, pacing, same) v = rw same (
    record {
      paced = with_rates-IsPaced parts sending pacing s v.paced;
      flown = v.flown;
      measured = v.measured;
    },
    refl,
  )

  -- A new acknowledgement before the end of the first round only learns.
  first_round-Arrives :
      (now packet_number : ℕ) (s : Bbr2 Fl F)
      → IsRunning parts s
      → leb packet_number s.flight.last_ack_seq ≡ false
      → (s.flight.round_trip_count == 0) ≡ true
      → packet_number ≤ s.flight.last_sent_packet
      → ((p : PerPacket)
          → find packet_number s.flight.sent_packets_map ≡ some p
          → 1000 ≤ now - p.sent_ts)
      → Returns (λ (t, out). Arrives s t) (on_ack parts now packet_number s)
  unfolding on_ack update_rtt
  first_round-Arrives now packet_number s v new first sent long =
      let newer : s.flight.last_ack_seq < packet_number = ground (arith, new) in
      let f = (ack_flight parts.bandwidths now packet_number s.flight).0 in
      let packet = find packet_number s.flight.sent_packets_map in
      let acked = record (learn_rtt parts now packet s) { flight = f } in
      let runs : IsRunning parts acked = record {
        paced = learnt-IsPaced parts now packet f s v.paced;
        flown = ack_flight-IsFlight parts.bandwidths now packet_number s.flight v.flown newer sent;
        measured = learn_rtt-IsMeasured parts now packet s long v.measured;
      } in
      rw (new, first)
        (Returns-map _ _ (calculate_pacing_rate parts acked)
          (λ (t, out) e.
            let (rated, same) = rated-IsRunning acked t e runs in
            (rated, rw (same, (learn_rtt_lem parts now packet s).0) (Reaches-same s.mode)))
          (calculate_pacing_rate-SetsRate parts acked runs.measured.least))

  on_ack-Arrives :
      (now packet_number : ℕ) (s : Bbr2 Fl F)
      → IsRunning parts s
      → packet_number ≤ s.flight.last_sent_packet
      → ((p : PerPacket)
          → find packet_number s.flight.sent_packets_map ≡ some p
          → 1000 ≤ now - p.sent_ts)
      → Returns (λ (t, out). Arrives s t) (on_ack parts now packet_number s)
  unfolding on_ack
  on_ack-Arrives now packet_number s v sent long =
      elim (Bool-cases (leb packet_number s.flight.last_ack_seq)) [
        | inl old ↦ rw old (v, Reaches-same s.mode)
        | inr new ↦ elim (Bool-cases (s.flight.round_trip_count == 0)) [
          | inl first ↦ first_round-Arrives now packet_number s v new first sent long
          | inr later ↦
              Returns-map _ _ (on_ack parts now packet_number s)
                (λ (t, out) (runs, settled). (runs, settled.reached))
                (on_ack-IsRunning parts now packet_number s v (ground (arith, new)) sent
                  (ground (arith, later)) long)
        ]
      ]

  pub handle-Arrives :
      (e : Event) (s : Bbr2 Fl F)
      → IsRunning parts s
      → IsTimely e s
      → Ensures (λ t out. Arrives s t) (handle e s)
  unfolding handle on_packet_sent
  handle-Arrives (sent_event now packet_number bytes) s v h =
      (sent-IsRunning now packet_number bytes s v h.0, Reaches-same s.mode)
  handle-Arrives (ack_event draw now packet_number) s v h =
      Returns-Ensures (λ t out. Arrives s t) (on_ack parts now packet_number s)
        (on_ack-Arrives now packet_number s v h.0 h.1)

  -- A controller whose gain is that of its mode, whose bytes in flight are those of the packets
  -- that it and its sampler follow, and whose round trips have a millisecond or more, over any
  -- sequence of packets that are sent and acknowledgements: the bytes sent do not wrap, only
  -- what was sent is acknowledged, and a packet in flight a millisecond or more after it was
  -- sent. Every call returns, so that no rate divides by zero; the controller is so again; it
  -- does not come back to START, nor to DRAIN but from START.
  pub handle_all-Arrives :
      (es : List Event) (s : Bbr2 Fl F)
      → IsRunning parts s
      → AreAllowed handle IsTimely es s
      → Ensures (λ t out. IsRunning parts t × Reaches s.mode t.mode) (run handle es s)
  handle_all-Arrives =
      run-Ensures handle IsTimely (IsRunning parts) (λ s out t. Reaches s.mode t.mode)
        (λ s. Reaches-same s.mode)
        (λ s t u out out' first rest. Reaches-trans s.mode t.mode u.mode first rest) handle-Arrives

  pub init-IsRunning :
      (min_bps : ℕ) (observer : Bool) (filter : F)
      → IsRunning parts (init parts min_bps observer filter)
  init-IsRunning min_bps observer filter = record {
    paced = record { high = λ e. refl; low = λ e. absurd (cc e); even = λ e. absurd (cc e) };
    flown = init-IsFlight;
    measured = record { least = inl refl; record_long = inl refl; fallen_long = tt };
  }
